-- ===== src/Go/Number.antt =====
-- strconv.ParseUint, strconv.ParseInt and strconv.FormatUint at base 10.
use stomp.Prelude.{
  ℕ, zero, suc, ◌+◌, ◌-◌, ◌*◌, ◌/◌, ◌%◌, ◌^◌, ◌≤◌, ◌<◌, ◌≡◌, refl, ◌≢◌, ◌∙◌, Bool, true, ◌&&◌, List,
  [], ◌∷◌, arith, ltb, leb, if◌then◌else◌, Bool-cases, inl, inr, All,
}
use stomp.Go.Result.{Result, ok, err, ◌>>=◌}

-- The two errors behind strconv.NumError.
pub data NumError : Type 0 where
  syntax range : NumError

abbrev pub is_digit : ℕ → Bool
is_digit c = leb b'0' c && leb c b'9'

-- The digit loop, with the number read so far: it stops at the first digit that takes the number
-- past `max_val`.
unfoldable pub parse_digits : ℕ → ℕ → List ℕ → Result NumError ℕ
parse_digits max_val n [] = ok n
parse_digits max_val n (c ∷ s) =
    let rest = parse_digits max_val (n * 10 + (c - b'0')) s in
    if is_digit c
    then (if ltb max_val (n * 10 + (c - b'0')) then err range else rest)
    else err syntax

-- strconv.ParseUint(s, 10, bits).
unfoldable pub parse_uint : ℕ → List ℕ → Result NumError ℕ
parse_uint bits [] = err syntax
parse_uint bits (c ∷ s) = parse_digits (2 ^ bits - 1) 0 (c ∷ s)

-- strconv.ParseInt(s, 10, 64) on a text with no sign.
unfoldable pub parse_int : List ℕ → Result NumError ℕ
parse_int s = do n ← parse_uint 64 s; if ltb n (2 ^ 63) then ok n else err range

-- The digits of `n` in front of `acc`, with fuel.
unfoldable pub digits : ℕ → ℕ → List ℕ → List ℕ
digits zero n acc = acc
digits (suc f) n acc =
    let rest = digits f (n / 10) ((b'0' + n % 10) ∷ acc) in
    if ltb n 10 then (b'0' + n) ∷ acc else rest

-- strconv.FormatUint(n, 10).
unfoldable pub format_uint : ℕ → List ℕ
unfolding digits
format_uint n = digits (suc n) n []

pub parse_digits_le :
    (max_val n : ℕ) (s : List ℕ) (m : ℕ)
    → n ≤ max_val
    → parse_digits max_val n s ≡ ok m
    → m ≤ max_val
unfolding parse_digits
parse_digits_le max_val n [] m h e = ground arith
parse_digits_le max_val n (c ∷ s) m h e =
    ground (arith, parse_digits_le max_val (n * 10 + (c - b'0')) s m)

-- A number that is read fits in its bits.
pub parse_uint_lt :
    (bits : ℕ) (s : List ℕ) {m : ℕ} → 0 < 2 ^ bits → parse_uint bits s ≡ ok m → m < 2 ^ bits
unfolding parse_uint
parse_uint_lt bits [] p e = cc
parse_uint_lt bits (c ∷ s) {m} p e =
    omega (arith, parse_digits_le (2 ^ bits - 1) 0 (c ∷ s) m (omega arith) e)

parse_digits-digits :
    (f n max_val : ℕ) (acc : List ℕ)
    → n < f
    → parse_digits max_val 0 (digits f n acc)
      ≡ (if leb n max_val then parse_digits max_val n acc else err range)
unfolding digits parse_digits
parse_digits-digits zero n max_val acc h = absurd (omega arith)
parse_digits-digits (suc f) n max_val acc h = elim (Bool-cases (ltb n 10)) [
  | inl small ↦ ground arith
  | inr big ↦
      rw big (
        parse_digits-digits f (n / 10) max_val ((b'0' + n % 10) ∷ acc) (ground arith)
        ∙ ground arith)
]

pub digits-ne-nil : (f n : ℕ) (acc : List ℕ) → acc ≢ [] → digits f n acc ≢ []
unfolding digits
digits-ne-nil zero n acc h = h
digits-ne-nil (suc f) n acc h = ground (arith, digits-ne-nil f (n / 10) ((b'0' + n % 10) ∷ acc))

pub format_uint-ne-nil : (n : ℕ) → format_uint n ≢ []
unfolding format_uint
format_uint-ne-nil n = ground (arith, digits-ne-nil n (n / 10) ((b'0' + n % 10) ∷ []))

parse_uint-ne-nil :
    (bits : ℕ) (s : List ℕ) → s ≢ [] → parse_uint bits s ≡ parse_digits (2 ^ bits - 1) 0 s
unfolding parse_uint
parse_uint-ne-nil bits [] h = absurd (h refl)
parse_uint-ne-nil bits (c ∷ s) h = refl

parse_digits-format_uint :
    (max_val n : ℕ)
    → parse_digits max_val 0 (format_uint n) ≡ (if leb n max_val then ok n else err range)
unfolding format_uint parse_digits
parse_digits-format_uint max_val n = parse_digits-digits (suc n) n max_val [] (omega arith)

-- What FormatUint prints, ParseUint reads back if it fits, and refuses as out of range if not.
pub parse_uint-format_uint :
    (bits n : ℕ)
    → 0 < 2 ^ bits
    → parse_uint bits (format_uint n) ≡ (if ltb n (2 ^ bits) then ok n else err range)
unfolding parse_digits
parse_uint-format_uint bits n h =
    parse_uint-ne-nil bits (format_uint n) (format_uint-ne-nil n)
    ∙ parse_digits-format_uint (2 ^ bits - 1) n
    ∙ ground arith

digits-is_digit :
    (f n : ℕ) (acc : List ℕ)
    → All (λ c. is_digit c ≡ true) acc
    → All (λ c. is_digit c ≡ true) (digits f n acc)
unfolding digits
digits-is_digit zero n acc h = h
digits-is_digit (suc f) n acc h = ground (arith, digits-is_digit f (n / 10) ((b'0' + n % 10) ∷ acc))

pub format_uint-is_digit : (n : ℕ) → All (λ c. is_digit c ≡ true) (format_uint n)
unfolding format_uint
format_uint-is_digit n = digits-is_digit (suc n) n [] tt
