-- ===== src/Server/SubscriptionList/Laws.antt =====
-- What the list does to its members, and which of them may be added again.
use stomp.Prelude.{
  ℕ, ◌≡◌, refl, subst, Bool, true, false, [], ◌∷◌, ◌++◌, some, if◌then◌else◌, arith, All,
  Bool-cases, inl, inr,
}
use stomp.Go.Result.{ok, Result-cases}
use stomp.Server.Panic.{OrPanic}
use stomp.Server.Subscription.{Heap, store}
use stomp.Server.SubscriptionList.{Subs, mark, add, get, sweep}

-- The members of `l` that pass a test, and those that do not, in order.
abbrev pub select : (ℕ → Bool) → Subs → Subs
select p [] = []
select p (r ∷ l) = if p r then r ∷ select p l else select p l

abbrev pub reject : (ℕ → Bool) → Subs → Subs
reject p [] = []
reject p (r ∷ l) = if p r then reject p l else r ∷ reject p l

abbrev pub visit {ℓ} : {S : Type ℓ} → (S → ℕ → S) → Subs → S → S
visit callback [] s = s
visit callback (r ∷ l) s = visit callback l (callback s r)

-- A sweep whose test keeps its answers while the callback runs splits the list: what passes goes
-- through the callback, oldest first, and what does not stays, in its order.
pub sweep-select {ℓ κ ι} :
    {S : Type ℓ} (Inv : S → Type κ) (Q : ℕ → Type ι) (p : ℕ → Bool) (test : S → ℕ → OrPanic Bool)
    (callback : S → ℕ → S)
    → ((s : S) (r : ℕ) → Inv s → Q r → test s r ≡ ok (p r))
    → ((s : S) (r : ℕ) → Inv s → Inv (callback s r))
    → (l : Subs) (s : S) → Inv s
    → All Q l
    → sweep test callback l s ≡ ok (reject p l, visit callback (select p l) s)
unfolding sweep
sweep-select Inv Q p test callback answers keeps [] s i a = refl
sweep-select Inv Q p test callback answers keeps (r ∷ l) s i a = elim (Bool-cases (p r)) [
  | inl pass ↦
      rw (answers s r i a.0, pass)
        (sweep-select Inv Q p test callback answers keeps l (callback s r) (keeps s r i) a.1)
  | inr fail ↦
      rw (answers s r i a.0, fail)
        (rw (sweep-select Inv Q p test callback answers keeps l s i a.1) refl)
]

-- The subscription that `Get` takes off can be put back, at the end of the list.
pub get-add :
    (h : Heap) (l : Subs) (r : ℕ)
    → let (h', rest, got) = get h (r ∷ l) in
      (got ≡ some r) × (rest ≡ l) × (add h' rest r ≡ ok (mark h' r true, l ++ r ∷ []))
unfolding get add mark store
get-add h l r = (refl, refl, ground arith)

-- What the callback keeps is kept by a sweep, whatever its test says.
pub sweep-Inv {ℓ κ} :
    {S : Type ℓ} (Inv : S → Type κ) (test : S → ℕ → OrPanic Bool) (callback : S → ℕ → S)
    → ((s : S) (r : ℕ) → Inv s → Inv (callback s r))
    → (l : Subs) (s : S) → Inv s
    → (k : Subs) (t : S) → sweep test callback l s ≡ ok (k, t)
    → Inv t
unfolding sweep
sweep-Inv Inv test callback keeps [] s i k t e = let q : s ≡ t = ground arith in subst Inv q i
sweep-Inv Inv test callback keeps (r ∷ l) s i k t e = elim (Result-cases (test s r)) [
  | inr (p, q) ↦ absurd (ground arith)
  | inl (true, q) ↦
      sweep-Inv Inv test callback keeps l (callback s r) (keeps s r i) k t (ground arith)
  | inl (false, q) ↦ elim (Result-cases (sweep test callback l s)) [
    | inr (p, x) ↦ absurd (ground arith)
    | inl ((k', t'), x) ↦
        let same_state : t' ≡ t = ground arith in
        subst Inv same_state (sweep-Inv Inv test callback keeps l s i k' t' x)
  ]
]
