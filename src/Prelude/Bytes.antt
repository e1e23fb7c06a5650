-- ===== src/Prelude/Bytes.antt =====
-- A Go string or byte slice is a list of bytes.
use Prim.Native.Nat.{ℕ}
use Prim.Native.Char.{code}
use Prim.Native.String.{String}
use mathlib.Core.Path.{◌≡◌, refl, sym, subst}
use mathlib.Core.Logic.{◌↔◌, inl, inr}
use mathlib.Core.Bool.{Bool, true, false, ◌&&◌, ◌||◌}
use mathlib.Core.List.{List, [], ◌∷◌, ◌++◌}
use native.Mathlib.Omega.{arith}
use stomp.Prelude.Lists.{All}
use stomp.Prelude.Tests.{◌==◌, Bool-cases}

-- The bytes of an ASCII literal.
abbrev pub codes : String → List ℕ
codes String.[] = []
codes (String.◌∷◌ c s) = code c ∷ codes s

-- Go's `==` on strings.
unfoldable pub same : List ℕ → List ℕ → Bool
same [] [] = true
same (x ∷ xs) (y ∷ ys) = x == y && same xs ys
same _ _ = false

pub same_iff : (a b : List ℕ) → (same a b ≡ true) ↔ (a ≡ b)
unfolding same
same_iff (x ∷ a) (y ∷ b) = ground (arith, same_iff a b)
same_iff _ _ = ground arith

pub same_refl : (a : List ℕ) → same a a ≡ true
same_refl a = (same_iff a a).1 refl

pub same_sym : (a b : List ℕ) → same a b ≡ same b a
same_sym a b = ground (arith, same_iff a b, same_iff b a)

-- `strings.HasPrefix`.
unfoldable pub has_prefix : List ℕ → List ℕ → Bool
has_prefix s [] = true
has_prefix [] (p ∷ ps) = false
has_prefix (c ∷ s) (p ∷ ps) = c == p && has_prefix s ps

pub has_prefix-append : (p s : List ℕ) → has_prefix (p ++ s) p ≡ true
unfolding has_prefix
has_prefix-append [] s = refl
has_prefix-append (x ∷ p) s = ground (arith, has_prefix-append p s)

pub has_prefix_iff : (s p : List ℕ) → has_prefix s p ≡ true → (r : List ℕ) × (s ≡ p ++ r)
unfolding has_prefix
has_prefix_iff s [] h = (s, refl)
has_prefix_iff [] (p ∷ ps) h = cc
has_prefix_iff (c ∷ s) (p ∷ ps) h = elim (Bool-cases (has_prefix s ps)) [
  | inl e ↦ let (r, q) = has_prefix_iff s ps e in (r, ground arith)
  | inr e ↦ absurd (ground arith)
]

-- A text among the cases of a `switch`.
unfoldable pub one_of : List ℕ → List (List ℕ) → Bool
one_of s [] = false
one_of s (k ∷ ks) = same s k || one_of s ks

-- What holds of every case holds of a text among them.
pub one_of_inv {ℓ} :
    (P : List ℕ → Type ℓ) (s : List ℕ) (ks : List (List ℕ)) → All P ks → one_of s ks ≡ true → P s
unfolding one_of
one_of_inv P s [] h e = absurd (ground arith)
one_of_inv P s (k ∷ ks) h e = elim (Bool-cases (same s k)) [
  | inl hit ↦ subst P (sym ((same_iff s k).0 hit)) h.0
  | inr miss ↦ one_of_inv P s ks h.1 (ground arith)
]
