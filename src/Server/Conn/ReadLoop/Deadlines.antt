-- ===== src/Server/Conn/ReadLoop/Deadlines.antt =====
-- `readLoop` of server/client/conn.go: its time limits.
use stomp.Prelude.{
  ℕ, zero, suc, ◌*◌, ◌≡◌, refl, max, min, ◌/◌, inl, inr, true, false, List, [], ◌∷◌, ◌++◌, Option,
  none, some, All, ◌==◌, if◌then◌else◌, arith,
}
use stomp.Go.Result.{ok, Result-cases}
use stomp.Frame.Header.{Bytes}
use stomp.Frame.Base.{Frame}
use stomp.Frame.HeartBeat.{millisecond}
use stomp.Frame.Writer.{write}
use stomp.Frame.RoundTrip.{IsWritable}
use stomp.Server.HeartBeat.{max_heart_beat, get_heart_beat, as_milliseconds, at_least}
use stomp.Server.Conn.State.{Config}
use stomp.Server.Conn.ReadLoop.{
  Network, Expect, at_start, deadline, expect_after, read_in_time, read_loop,
}
use stomp.Server.Conn.ReadLoop.Delivery.{read_in_time-write}

expect_after-settled :
    (cfg : Config) (x : Expect) (f : Frame) → x.expecting_connect ≡ false → expect_after cfg x f ≡ x
unfolding expect_after
expect_after-settled cfg x f e = ground arith

-- Once a heart-beat is known, nothing changes the deadline.
settled :
    (cfg : Config) (net : Network) (fuel : ℕ) (x : Expect) (s : Bytes)
    → x.expecting_connect ≡ false
    → All (λ d. d ≡ deadline x) (read_loop cfg net fuel x s).deadlines
unfolding read_loop
settled cfg net zero x s e = tt
settled cfg net (suc fuel) x s e = elim (Result-cases (read_in_time net (deadline x) s)) [
  | inr (y, q) ↦
      let step : (read_loop cfg net (suc fuel) x s).deadlines ≡ deadline x ∷ [] = ground arith in
      rw step (refl, tt)
  | inl ((none, r), q) ↦
      let step : (read_loop cfg net (suc fuel) x s).deadlines
          ≡ deadline x ∷ (read_loop cfg net fuel x r).deadlines =
        ground arith in
      rw step (refl, settled cfg net fuel x r e)
  | inl ((some f, r), q) ↦
      let step : (read_loop cfg net (suc fuel) x s).deadlines
          ≡ deadline x ∷ (read_loop cfg net fuel x r).deadlines =
        ground (arith, expect_after-settled cfg x f e) in
      rw step (refl, settled cfg net fuel x r e)
]

-- The server's own time in whole milliseconds, and at most the largest that a heart-beat can have.
abbrev pub server_beat : ℕ → ℕ
server_beat duration = min (duration / millisecond) max_heart_beat

-- The time, in nanoseconds, that a server of this heart-beat waits for the next frame of a client that
-- promised one every `cx` milliseconds: twice the longer one of the two, and for ever if the client
-- promised none.
abbrev pub patience : ℕ → ℕ → Option ℕ
patience duration zero = none
patience duration (suc cx) = some (max (server_beat duration) (suc cx) * millisecond * 2)

longer : (min cx : ℕ) → at_least min (suc cx) ≡ max min (suc cx)
unfolding at_least
longer min cx = ground arith

as_milliseconds-server_beat : (d : ℕ) → as_milliseconds d max_heart_beat ≡ server_beat d
unfolding as_milliseconds
as_milliseconds-server_beat d = ground arith

deadline-max :
    (min cx : ℕ)
    → (if at_least min (suc cx) * millisecond == 0
        then none
        else some (at_least min (suc cx) * millisecond * 2))
      ≡ some (max min (suc cx) * millisecond * 2)
deadline-max min cx = rw (longer min cx) (ground arith)

deadline-expect_after :
    (cfg : Config) (f : Frame) (cx cy : ℕ)
    → get_heart_beat f ≡ ok (cx, cy)
    → (deadline (expect_after cfg at_start f) ≡ patience cfg.heart_beat cx)
      × ((expect_after cfg at_start f).expecting_connect ≡ false)
unfolding deadline expect_after
deadline-expect_after cfg f zero cy e = (unfold at_least in ground arith, ground arith)
deadline-expect_after cfg f (suc cx) cy e = (
  rw (e, deadline, expect_after, as_milliseconds-server_beat cfg.heart_beat)
      (deadline-max (server_beat cfg.heart_beat) cx),
  ground arith,
)

-- The first `Read` has no time limit. If it gives a frame with a heart-beat that can be read, then
-- every later `Read`, whatever the client sends, has twice the time of that heart-beat or of the server's
-- own, whichever is longer, and no limit if the client's is 0.
pub deadlines-read_loop :
    (cfg : Config) (net : Network) (fuel : ℕ) (f : Frame) (s : Bytes) (cx cy : ℕ)
    → IsWritable f
    → net.in_time none (write (some f) ++ s) ≡ true
    → get_heart_beat f ≡ ok (cx, cy)
    → (later : List (Option ℕ)) × ((read_loop cfg net
          (suc fuel)
          at_start
          (write (some f) ++ s)).deadlines
        ≡ none ∷ later)
      × All (λ d. d ≡ patience cfg.heart_beat cx) later
unfolding read_loop
deadlines-read_loop cfg net fuel f s cx cy w t e =
    let x = expect_after cfg at_start f in
    let (beat, known) = deadline-expect_after cfg f cx cy e in
    (
      (read_loop cfg net fuel x s).deadlines,
      unfold deadline in ground (arith, read_in_time-write net none (some f) s w t),
      rw (← beat) (settled cfg net fuel x s known),
    )
