-- ===== src/Frame/HeartBeat.antt =====
-- frame/heartbeat.go. Durations are numbers of nanoseconds.
use stomp.Prelude.{
  ℕ, ◌-◌, ◌*◌, ◌/◌, ◌%◌, ◌^◌, ◌<◌, ◌≡◌, refl, ◌≢◌, Bool, true, false, ◌&&◌, ◌||◌, not, List, [],
  ◌∷◌, ◌++◌, ltb, leb, ◌==◌, if◌then◌else◌, arith, All,
}
use stomp.Go.Result.{Result, ok, err, ◌>>=◌, ◌>>◌, guard}
use stomp.Go.Number.{
  is_digit, parse_int, format_uint, parse_uint-format_uint, format_uint-is_digit,
  format_uint-ne-nil,
}
use stomp.Go.Split.{split}
use stomp.Frame.Header.{Bytes}

pub data HeartBeatError : Type 0 where
  invalid_heart_beat : HeartBeatError

-- `[0-9]*$`, `[0-9]+$` and `[0-9]*,[0-9]+$`, the tails of the regular expression.
any_digits : Bytes → Bool
any_digits [] = true
any_digits (c ∷ s) = is_digit c && any_digits s

some_digits : Bytes → Bool
some_digits [] = false
some_digits (c ∷ s) = is_digit c && any_digits s

digits_and_comma : Bytes → Bool
digits_and_comma [] = false
digits_and_comma (c ∷ s) = if c == b',' then some_digits s else is_digit c && digits_and_comma s

-- `^[0-9]+,[0-9]+$`
unfoldable pub heart_beat_regexp : Bytes → Bool
unfolding any_digits some_digits digits_and_comma
heart_beat_regexp [] = false
heart_beat_regexp (c ∷ s) = is_digit c && digits_and_comma s

-- time.Millisecond, and `maxMilliseconds`: math.MaxInt64 / int64(time.Millisecond).
abbrev pub millisecond : ℕ
millisecond = 1000000

abbrev pub max_milliseconds : ℕ
max_milliseconds = (2 ^ 63 - 1) / millisecond

-- A number of milliseconds; the error of strconv is dropped.
unfoldable pub milliseconds : Bytes → Result HeartBeatError ℕ
milliseconds s = elim (parse_int s) [ ok n ↦ ok n | err e ↦ err invalid_heart_beat ]

-- `slice[0]` and `slice[1]`.
unfoldable pub first_two : List Bytes → Bytes × Bytes
first_two [] = ([], [])
first_two (a ∷ []) = (a, [])
first_two (a ∷ b ∷ _) = (a, b)

unfoldable pub parse_heart_beat : Bytes → Result HeartBeatError (ℕ × ℕ)
parse_heart_beat s = do
  guard (heart_beat_regexp s) invalid_heart_beat
  let slice = first_two (split b',' s)
  value1 ← milliseconds slice.0
  value2 ← milliseconds slice.1
  guard (not (ltb max_milliseconds value1 || ltb max_milliseconds value2)) invalid_heart_beat
  ok (value1 * millisecond, value2 * millisecond)

-- Both durations of a heart-beat that is parsed fit in the 63 bits of a time.Duration, and are
-- whole milliseconds.
pub parse_heart_beat_fits :
    (s : Bytes) (x y : ℕ)
    → parse_heart_beat s ≡ ok (x, y)
    → (x < 2 ^ 63) × (y < 2 ^ 63) × (x % millisecond ≡ 0) × (y % millisecond ≡ 0)
unfolding parse_heart_beat
parse_heart_beat_fits s x y e = ground arith

-- How a server or a client writes the entry.
unfoldable pub show_heart_beat : ℕ → ℕ → Bytes
show_heart_beat x y = format_uint x ++ b',' ∷ format_uint y

abbrev pub IsDigits : Bytes → Type 0
IsDigits = All (λ c. is_digit c ≡ true)

any_digits-IsDigits : (s : Bytes) → IsDigits s → any_digits s ≡ true
unfolding any_digits
any_digits-IsDigits [] h = refl
any_digits-IsDigits (c ∷ s) h = ground (arith, any_digits-IsDigits s h.1)

some_digits-IsDigits : (s : Bytes) → s ≢ [] → IsDigits s → some_digits s ≡ true
unfolding some_digits
some_digits-IsDigits [] ne h = absurd (ne refl)
some_digits-IsDigits (c ∷ s) ne h = ground (arith, any_digits-IsDigits s h.1)

digits_and_comma-IsDigits :
    (s t : Bytes) → IsDigits s → some_digits t ≡ true → digits_and_comma (s ++ b',' ∷ t) ≡ true
unfolding digits_and_comma
digits_and_comma-IsDigits [] t h k = ground arith
digits_and_comma-IsDigits (c ∷ s) t h k = ground (arith, digits_and_comma-IsDigits s t h.1 k)

heart_beat_regexp-IsDigits :
    (s t : Bytes)
    → s ≢ []
    → IsDigits s
    → some_digits t ≡ true
    → heart_beat_regexp (s ++ b',' ∷ t) ≡ true
unfolding heart_beat_regexp
heart_beat_regexp-IsDigits [] t ne h k = absurd (ne refl)
heart_beat_regexp-IsDigits (c ∷ s) t ne h k = ground (arith, digits_and_comma-IsDigits s t h.1 k)

pub split-IsDigits : (s : Bytes) → IsDigits s → split b',' s ≡ s ∷ []
unfolding split
split-IsDigits [] h = refl
split-IsDigits (c ∷ s) h = ground (arith, split-IsDigits s h.1)

pub split-comma : (s t : Bytes) → IsDigits s → split b',' (s ++ b',' ∷ t) ≡ s ∷ split b',' t
unfolding split
split-comma [] t h = ground arith
split-comma (c ∷ s) t h = ground (arith, split-comma s t h.1)

milliseconds-format_uint :
    (n : ℕ)
    → milliseconds (format_uint n) ≡ (if ltb n (2 ^ 63) then ok n else err invalid_heart_beat)
unfolding milliseconds parse_int
milliseconds-format_uint n = ground (arith, parse_uint-format_uint 64 n (omega arith))

-- Two numbers written as a heart-beat are parsed as so many milliseconds each if both are at most
-- the largest number of milliseconds that a duration can hold, and refused otherwise.
pub parse_heart_beat-show_heart_beat :
    (x y : ℕ)
    → parse_heart_beat (show_heart_beat x y)
      ≡ if◌then◌else◌ {A = Result HeartBeatError (ℕ × ℕ)}
          (leb x max_milliseconds && leb y max_milliseconds)
          (ok (x * millisecond, y * millisecond))
          (err invalid_heart_beat)
unfolding parse_heart_beat show_heart_beat first_two
parse_heart_beat-show_heart_beat x y =
    let dx = format_uint-is_digit x in
    let dy = format_uint-is_digit y in
    ground (
      arith,
      heart_beat_regexp-IsDigits (format_uint x) (format_uint y) (format_uint-ne-nil x) dx
          (some_digits-IsDigits (format_uint y) (format_uint-ne-nil y) dy),
      split-comma (format_uint x) (format_uint y) dx,
      split-IsDigits (format_uint y) dy,
      milliseconds-format_uint x,
      milliseconds-format_uint y,
    )
