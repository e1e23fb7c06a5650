-- ===== src/Client/Connect/Timeouts.antt =====
-- The two timeouts that `Connect` of conn.go works out of a heart-beat entry.
use stomp.Prelude.{ℕ, ◌+◌, ◌-◌, ◌^◌, ◌<◌, ◌≡◌, ◌∙◌, ap, ap₂, ltb, max, if◌then◌else◌, arith}
use stomp.Go.Int64.{less, add, sub, less-small, add-small, sub-small}
use stomp.Client.Options.{ConnOptions}
use stomp.Client.Connect.{timeouts}

longer : (r x : ℕ) → x < 2 ^ 63 → r < 2 ^ 63 → (if less x r then r else x) ≡ max x r
longer r x h k = grind (arith, less-small x r h k)

lengthened :
    (r e : ℕ) → r + e < 2 ^ 63 → (if less 0 r then add r e else r) ≡ (if ltb 0 r then r + e else 0)
lengthened r e h = grind (arith, less-small 0 r (omega arith) (omega arith), add-small r e h)

shortened :
    (y e : ℕ)
    → y < 2 ^ 63
    → e < 2 ^ 63
    → (if less e y then sub y e else y) ≡ (if ltb e y then y - e else y)
shortened y e h k = grind (arith, less-small e y k h, sub-small y e h)

-- Where nothing overflows the 63 bits of a duration: the client waits for the longer of the server's
-- interval and its own read timeout, and for the heart-beat error on top of it, unless both are zero; and
-- it writes that error earlier than the server expects, unless the server expects it sooner than that.
pub timeouts_lem :
    (co : ConnOptions) (x y : ℕ)
    → max x co.read_timeout + co.heart_beat_error < 2 ^ 63
    → y < 2 ^ 63
    → timeouts co (x, y) ≡ (
      (if ltb 0 (max x co.read_timeout) then max x co.read_timeout + co.heart_beat_error else 0),
      (if ltb co.heart_beat_error y then y - co.heart_beat_error else y),
    )
unfolding timeouts
timeouts_lem co x y h k =
    ap₂ (λ r w. ((if less 0 r then add r co.heart_beat_error else r), w))
      (longer co.read_timeout x (omega arith) (omega arith))
      (shortened y co.heart_beat_error k (omega arith))
    ∙ ap (λ r. (r, (if ltb co.heart_beat_error y then y - co.heart_beat_error else y)))
        (lengthened (max x co.read_timeout) co.heart_beat_error h)
