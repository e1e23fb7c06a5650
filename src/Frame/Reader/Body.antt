-- ===== src/Frame/Reader/Body.antt =====
-- The body of a frame: whatever pieces the connection hands over, the loop collects the bytes that
-- the length asks for.
use stomp.Prelude.{
  ℕ, zero, suc, ◌-◌, ◌≤◌, ◌<◌, ◌≡◌, refl, ◌≢◌, ap, [], ◌∷◌, ◌++◌, ltb, if◌then◌else◌, append-nil,
  length, length-drop, take, drop, arith, append_assoc, min, max,
}
use stomp.Go.Result.{Result, ok, err}
use stomp.Frame.Header.{Bytes}
use stomp.Frame.Reader.{ReadError, eof, read_some, read_body}

pub length-take : (n : ℕ) (s : Bytes) → n ≤ length s → length (take n s) ≡ n
length-take zero s h = refl
length-take (suc n) [] h = absurd (omega arith)
length-take (suc n) (x ∷ s) h = ap suc (length-take n s (omega arith))

take-nil : (k : ℕ) → take {A = ℕ} k [] ≡ []
take-nil zero = refl
take-nil (suc k) = refl

drop-nil : (k : ℕ) → drop {A = ℕ} k [] ≡ []
drop-nil zero = refl
drop-nil (suc k) = refl

take-take : (n m : ℕ) (s : Bytes) → n ≤ m → take n s ++ take (m - n) (drop n s) ≡ take m s
take-take zero m s h = ap (λ k. take k s) (omega arith)
take-take (suc n) zero s h = absurd (omega arith)
take-take (suc n) (suc m) [] h = take-nil (suc m - suc n)
take-take (suc n) (suc m) (x ∷ s) h =
    rw (← take-take n m s (omega arith))
      (ap (λ k. x ∷ (take n s ++ take k (drop n s))) (omega arith))

drop-drop : (n m : ℕ) (s : Bytes) → n ≤ m → drop (m - n) (drop n s) ≡ drop m s
drop-drop zero m s h = ap (λ k. drop k s) (omega arith)
drop-drop (suc n) zero s h = absurd (omega arith)
drop-drop (suc n) (suc m) [] h = drop-nil (suc m - suc n)
drop-drop (suc n) (suc m) (x ∷ s) h =
    rw (← drop-drop n m s (omega arith)) (ap (λ k. drop k (drop n s)) (omega arith))

-- The size of a piece.
piece : (ℕ → ℕ → ℕ) → ℕ → Bytes → ℕ
piece chunk want s = max 1 (min (chunk want (length s)) (min want (length s)))

read_some-piece :
    (chunk : ℕ → ℕ → ℕ) (want : ℕ) (s : Bytes)
    → s ≢ []
    → read_some chunk want s ≡ ok (take (piece chunk want s) s, drop (piece chunk want s) s)
unfolding read_some piece
read_some-piece chunk want [] h = absurd (h refl)
read_some-piece chunk want (c ∷ s) h = refl

-- `want` bytes off the front, behind those that are there already.
abbrev pub taken : ℕ → Bytes → Bytes → Result ReadError (Bytes × Bytes)
taken want got s = if ltb (length s) want then err eof else ok (got ++ take want s, drop want s)

-- What the loop leaves to do after a piece of `n` bytes comes to the same as doing it at once.
after_piece :
    (n want : ℕ) (got s : Bytes)
    → n ≤ want
    → n ≤ length s
    → taken (want - length (take n s)) (got ++ take n s) (drop n s) ≡ taken want got s
after_piece n want got s h k =
    rw
      (length-take n s k, append_assoc, take-take n want s h, drop-drop n want s h, length-drop n s)
      (ground arith)

-- With fuel above the bytes that are missing, the loop takes just those, or meets the end of the
-- stream if there are too few.
pub read_body_lem :
    (chunk : ℕ → ℕ → ℕ) (f want : ℕ) (got s : Bytes)
    → want < f
    → read_body chunk f want got s ≡ taken want got s
unfolding read_body
read_body_lem chunk zero want got s h = absurd (omega arith)
read_body_lem chunk (suc f) zero got s h = rw append-nil (ground arith)
read_body_lem chunk (suc f) (suc w) got [] h = ground arith
read_body_lem chunk (suc f) (suc w) got (c ∷ s) h =
    let n = piece chunk (suc w) (c ∷ s) in
    let le : (1 ≤ n) × (n ≤ suc w) × (n ≤ length (c ∷ s)) = unfold piece in omega arith in
    ground (
      arith,
      read_some-piece chunk (suc w) (c ∷ s) (λ e. cc),
      read_body_lem chunk f (suc w - length (take n (c ∷ s))) (got ++ take n (c ∷ s))
          (drop n (c ∷ s)) (omega (arith, length-take n (c ∷ s) le.2, le)),
      after_piece n (suc w) got (c ∷ s) le.1 le.2,
    )
