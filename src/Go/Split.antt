-- ===== src/Go/Split.antt =====
-- strings.Split at a separator of one byte, and bytes.IndexByte.
use stomp.Prelude.{◌++◌, ℕ, suc, List, [], ◌∷◌, Option, none, some, ◌==◌, if◌then◌else◌}
use mathlib.Core.Option

-- `b` is in front of the first piece.
abbrev pub onto_first : ℕ → List (List ℕ) → List (List ℕ)
onto_first c [] = (c ∷ []) ∷ []
onto_first c (p ∷ ps) = (c ∷ p) ∷ ps

unfoldable pub split : ℕ → List ℕ → List (List ℕ)
split sep [] = [] ∷ []
split sep (c ∷ s) = if c == sep then [] ∷ split sep s else onto_first c (split sep s)

-- The place of the first `b`; Go's -1 is `none`.
unfoldable pub index_byte : List ℕ → ℕ → Option ℕ
index_byte [] b = none
index_byte (c ∷ s) b = if c == b then some 0 else Option.map suc (index_byte s b)

-- strings.Join with a separator of one byte.
unfoldable pub join : ℕ → List (List ℕ) → List ℕ
join sep [] = []
join sep (s ∷ []) = s
join sep (s ∷ t ∷ l) = s ++ sep ∷ join sep (t ∷ l)
