-- ===== src/Client/Id.antt =====
-- id.go: the counter of the process.
use stomp.Prelude.{ℕ, zero, suc, ◌+◌, ◌%◌, ◌^◌, ◌≤◌, ◌<◌, ◌≡◌, ◌≢◌, arith, ap, List, [], ◌∷◌, All}
use stomp.Go.Number.{format_uint, parse_uint, parse_uint-format_uint}
use stomp.Frame.Header.{Bytes}

-- The id, and the counter behind it.
unfoldable pub allocate_id : ℕ → Bytes × ℕ
allocate_id last = let id = (last + 1) % 2 ^ 64 in (format_uint id, id)

-- `count` calls of `allocateId`, in the order in which the goroutines make them.
unfoldable pub allocate_ids : ℕ → ℕ → List Bytes
allocate_ids zero last = []
allocate_ids (suc count) last = let a = allocate_id last in a.0 ∷ allocate_ids count a.1

-- No two in the list are the same.
abbrev pub Distinct : List Bytes → Type 0
Distinct [] = Unit {0}
Distinct (b ∷ l) = All (λ c. c ≢ b) l × Distinct l

format_uint-inj : (m n : ℕ) → m < 2 ^ 64 → n < 2 ^ 64 → format_uint m ≡ format_uint n → m ≡ n
format_uint-inj m n h k e =
    let p = parse_uint-format_uint 64 m (omega arith) in
    let q = parse_uint-format_uint 64 n (omega arith) in ground (arith, ap (parse_uint 64) e)

allocate_ids-ne :
    (count last n : ℕ)
    → n ≤ last
    → last + count < 2 ^ 64
    → All (λ c. c ≢ format_uint n) (allocate_ids count last)
unfolding allocate_ids allocate_id
allocate_ids-ne zero last n le h = tt
allocate_ids-ne (suc count) last n le h =
    let next_eq : (last + 1) % 2 ^ 64 ≡ last + 1 = omega arith in
    rw next_eq (
      (λ e. omega (arith, format_uint-inj (last + 1) n (omega arith) (omega arith) e)),
      allocate_ids-ne count (last + 1) n (omega arith) (omega arith),
    )

-- As long as the counter does not wrap around, no id is given out twice.
pub allocate_ids-Distinct :
    (count last : ℕ) → last + count < 2 ^ 64 → Distinct (allocate_ids count last)
unfolding allocate_ids allocate_id
allocate_ids-Distinct zero last h = tt
allocate_ids-Distinct (suc count) last h =
    let next_eq : (last + 1) % 2 ^ 64 ≡ last + 1 = omega arith in
    rw next_eq (
      allocate_ids-ne count (last + 1) (last + 1) (omega arith) (omega arith),
      allocate_ids-Distinct count (last + 1) (omega arith),
    )
