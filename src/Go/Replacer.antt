-- ===== src/Go/Replacer.antt =====
-- strings.NewReplacer: a text is read from the left, and at each place the first pair of the table
-- whose old text stands there is applied. No old text in the program's tables is empty.
use stomp.Prelude.{
  ℕ, zero, suc, ◌-◌, List, [], ◌∷◌, ◌++◌, Option, none, some, has_prefix, if◌then◌else◌, length,
}

abbrev pub Table : Type 0
Table = List (List ℕ × List ℕ)

-- The new text of the first pair that fits, and the length of its old text.
unfoldable pub match_at : Table → List ℕ → Option (List ℕ × ℕ)
match_at [] s = none
match_at ((old, new) ∷ t) s = if has_prefix s old then some (new, length old) else match_at t s

-- The number counts the bytes still to pass over after a match.
unfoldable pub replace : Table → ℕ → List ℕ → List ℕ
replace t n [] = []
replace t (suc n) (c ∷ s) = replace t n s
replace t zero (c ∷ s) = elim (match_at t (c ∷ s)) [
  | none ↦ c ∷ replace t zero s
  | some (new, k) ↦ new ++ replace t (k - 1) s
]
