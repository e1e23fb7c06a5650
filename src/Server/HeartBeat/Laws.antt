-- ===== src/Server/HeartBeat/Laws.antt =====
-- The numbers of a heart-beat entry that passes the regular expression.
use stomp.Prelude.{
  ℕ, zero, suc, ◌+◌, ◌-◌, ◌*◌, ◌/◌, ◌≤◌, ◌<◌, ◌≡◌, refl, ap, true, [], ◌∷◌, ◌++◌, ◌==◌, arith,
  Bool-cases, Option-cases, inl, inr,
}
use stomp.Go.Result.{ok}
use stomp.Go.Number.{is_digit, parse_uint, parse_digits}
use stomp.Frame.Key
use stomp.Frame.Header.{Bytes, contains}
use stomp.Frame.Base.{Frame}
use stomp.Frame.HeartBeat.{first_two, IsDigits, split-IsDigits, split-comma}
use stomp.Server.HeartBeat.{
  max_heart_beat, digits_upto, one_to_nine, upto_and_comma, heart_beat_regexp, value_of, parse_pair,
  get_heart_beat,
}

-- Numbers to which `k` more digits may be added.
abbrev cap : ℕ → ℕ
cap zero = 1000000000
cap (suc k) = cap k / 10

cap-le : (k : ℕ) → cap k ≤ 1000000000
cap-le zero = omega arith
cap-le (suc k) = omega (arith, cap-le k)

-- A text that is read without an error, to a number that the server accepts.
abbrev Reads : Bytes → Type 0
Reads s = (m : ℕ) × (parse_uint 32 s ≡ ok m) × (m ≤ max_heart_beat)

parse_digits-digits_upto :
    (k n : ℕ) (s : Bytes)
    → digits_upto k s ≡ true
    → n < cap k
    → (m : ℕ) × (parse_digits 4294967295 n s ≡ ok m) × (m ≤ max_heart_beat)
unfolding digits_upto parse_digits
parse_digits-digits_upto k n [] h lt = (n, refl, omega (arith, cap-le k))
parse_digits-digits_upto zero n (c ∷ s) h lt = absurd (ground arith)
parse_digits-digits_upto (suc k) n (c ∷ s) h lt =
    let d : is_digit c ≡ true = ground arith in
    let (m, e, le) =
      parse_digits-digits_upto k (n * 10 + (c - b'0')) s (ground arith) (ground arith) in
    (m, ground (arith, cap-le k), le)

one_to_nine-Reads : (s : Bytes) → one_to_nine s ≡ true → Reads s
unfolding one_to_nine parse_uint parse_digits
one_to_nine-Reads [] h = absurd (ground arith)
one_to_nine-Reads (c ∷ s) h =
    let (m, e, le) = parse_digits-digits_upto 8 (c - b'0') s (ground arith) (ground arith) in
    (m, ground arith, le)

digits_upto-IsDigits : (k : ℕ) (s : Bytes) → digits_upto k s ≡ true → IsDigits s
unfolding digits_upto
digits_upto-IsDigits k [] h = tt
digits_upto-IsDigits zero (c ∷ s) h = absurd (ground arith)
digits_upto-IsDigits (suc k) (c ∷ s) h = (ground arith, digits_upto-IsDigits k s (ground arith))

one_to_nine-IsDigits : (s : Bytes) → one_to_nine s ≡ true → IsDigits s
unfolding one_to_nine
one_to_nine-IsDigits [] h = tt
one_to_nine-IsDigits (c ∷ s) h = (ground arith, digits_upto-IsDigits 8 s (ground arith))

-- Two groups of digits with a comma between them.
record Pair (k : ℕ) (s : Bytes) : Type 0 where
  left : Bytes
  right : Bytes
  splits : s ≡ left ++ b',' ∷ right
  left_digits : digits_upto k left ≡ true
  right_digits : one_to_nine right ≡ true

upto_and_comma-Pair : (k : ℕ) (s : Bytes) → upto_and_comma k s ≡ true → Pair k s
unfolding upto_and_comma digits_upto
upto_and_comma-Pair k [] h = absurd (ground arith)
upto_and_comma-Pair zero (c ∷ s) h = record {
  left = [];
  right = s;
  splits = ground arith;
  left_digits = refl;
  right_digits = ground arith;
}
upto_and_comma-Pair (suc k) (c ∷ s) h = elim (Bool-cases (c == b',')) [
  | inl e ↦ record {
    left = [];
    right = s;
    splits = ground arith;
    left_digits = refl;
    right_digits = ground arith;
  }
  | inr e ↦
      let p = upto_and_comma-Pair k s (ground arith) in
      record {
        left = c ∷ p.left;
        right = p.right;
        splits = ap (◌∷◌ c) p.splits;
        left_digits = ground (arith, p.left_digits);
        right_digits = p.right_digits;
      }
]

heart_beat_regexp-Pair :
    (s : Bytes)
    → heart_beat_regexp s ≡ true
    → (l r : Bytes) × (s ≡ l ++ b',' ∷ r) × (one_to_nine l ≡ true) × (one_to_nine r ≡ true)
unfolding heart_beat_regexp one_to_nine
heart_beat_regexp-Pair [] h = absurd (ground arith)
heart_beat_regexp-Pair (c ∷ s) h =
    let p = upto_and_comma-Pair 8 s (ground arith) in
    (c ∷ p.left, p.right, ap (◌∷◌ c) p.splits, ground (arith, p.left_digits), p.right_digits)

-- A heart-beat entry that passes the regular expression splits at its comma into two numbers that
-- are read without an error, which is why the code drops the error, and each is at most the largest
-- heart-beat.
pub parse_pair-heart_beat_regexp :
    (s : Bytes)
    → heart_beat_regexp s ≡ true
    → (l r : Bytes) × (x y : ℕ) × (s ≡ l ++ b',' ∷ r)
      × (parse_uint 32 l ≡ ok x)
      × (parse_uint 32 r ≡ ok y)
      × (parse_pair s ≡ (x, y))
      × (x ≤ max_heart_beat)
      × (y ≤ max_heart_beat)
unfolding parse_pair first_two value_of
parse_pair-heart_beat_regexp s h =
    let (l, r, e, dl, dr) = heart_beat_regexp-Pair s h in
    let (x, ex, lx) = one_to_nine-Reads l dl in
    let (y, ey, ly) = one_to_nine-Reads r dr in
    (
      l,
      r,
      x,
      y,
      e,
      ex,
      ey,
      ground (
        arith,
        split-comma l r (one_to_nine-IsDigits l dl),
        split-IsDigits r (one_to_nine-IsDigits r dr),
      ),
      lx,
      ly,
    )

-- The heart-beats that are taken from a frame are at most the largest one.
pub get_heart_beat_bounds :
    (f : Frame) (x y : ℕ)
    → get_heart_beat f ≡ ok (x, y)
    → (x ≤ max_heart_beat) × (y ≤ max_heart_beat)
unfolding get_heart_beat
get_heart_beat_bounds f x y e = elim (Option-cases (contains f.header Key.heart_beat)) [
  | inl n ↦ ground arith
  | inr (s, n) ↦ elim (Bool-cases (heart_beat_regexp s)) [
    | inl m ↦
        let (l, r, x', y', _, _, _, pair, lx, ly) = parse_pair-heart_beat_regexp s m in ground arith
    | inr m ↦ absurd (ground arith)
  ]
]
