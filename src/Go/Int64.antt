-- ===== src/Go/Int64.antt =====
-- Go's int64, and so time.Duration: the 64 bits of a number in two's complement.
use stomp.Prelude.{
  ℕ, ◌+◌, ◌-◌, ◌/◌, ◌%◌, ◌^◌, ◌≤◌, ◌<◌, ◌≡◌, Bool, true, false, List, ◌∷◌, ltb, leb, if◌then◌else◌,
  arith,
}
use stomp.Go.Number.{format_uint}

abbrev pub Int64 : Type 0
Int64 = ℕ

unfoldable pub is_negative : Int64 → Bool
is_negative n = leb (2 ^ 63) n

-- `a < b`.
unfoldable pub less : Int64 → Int64 → Bool
less a b =
    if is_negative a
    then (if is_negative b then ltb a b else true)
    else (if is_negative b then false else ltb a b)

unfoldable pub add : Int64 → Int64 → Int64
add a b = (a + b) % 2 ^ 64

unfoldable pub sub : Int64 → Int64 → Int64
sub a b = (a + (2 ^ 64 - b)) % 2 ^ 64

unfoldable pub negate : Int64 → Int64
negate a = (2 ^ 64 - a) % 2 ^ 64

-- `a / d` for a positive `d`, which rounds to zero.
unfoldable pub quot : Int64 → ℕ → Int64
unfolding negate
quot a d = if is_negative a then negate (negate a / d) else a / d

-- What `%d` prints.
unfoldable pub format_int : Int64 → List ℕ
format_int a = if is_negative a then b'-' ∷ format_uint (negate a) else format_uint a

pub is_negative-small : (a : ℕ) → a < 2 ^ 63 → is_negative a ≡ false
unfolding is_negative
is_negative-small a h = ground arith

pub less-small : (a b : ℕ) → a < 2 ^ 63 → b < 2 ^ 63 → less a b ≡ ltb a b
unfolding less is_negative
less-small a b h k = ground arith

pub add-small : (a b : ℕ) → a + b < 2 ^ 63 → add a b ≡ a + b
unfolding add
add-small a b h = omega arith

pub sub-small : (a b : ℕ) → a < 2 ^ 63 → b ≤ a → sub a b ≡ a - b
unfolding sub
sub-small a b h k = omega arith
