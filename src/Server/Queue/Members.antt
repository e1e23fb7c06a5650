-- ===== src/Server/Queue/Members.antt =====
-- The subscriptions that wait in a queue, and what a call does to their entries.
use stomp.Prelude.{
  ℕ, ◌≡◌, ◌≢◌, subst, ◌⊎◌, inl, inr, true, false, [], ◌∷◌, ◌++◌, Option, none, some, ◌==◌, ==_iff,
  arith, All, All-append, Bool-cases, Option-cases,
}
use stomp.Go.Result.{ok, Result-cases}
use stomp.Frame.Header.{Bytes}
use stomp.Frame.Base.{Frame}
use stomp.Server.Panic.{OrPanic}
use stomp.Server.Subscription.{Heap, store, set_subscription_header}
use stomp.Server.SubscriptionList
use stomp.Server.SubscriptionList.{Subs, mark}
use stomp.Server.Storage.{Storage, StoreError}
use stomp.Server.Queue.{
  Queue, World, send_queue_frame, subscribe_with, subscribe, hand_or_keep, give,
}

-- A subscription that waits is marked as a member of a list, and has no frame.
abbrev pub Waits : Heap → ℕ → Type 0
Waits h r = ((h r).in_list ≡ true) × ((h r).frame ≡ none)

abbrev pub Distinct : Subs → Type 0
Distinct [] = Unit {0}
Distinct (r ∷ l) = All (λ j. j ≢ r) l × Distinct l

-- The head of the list is not `j`.
abbrev pub Skips : Subs → ℕ → Type 0
Skips [] j = Unit {0}
Skips (r ∷ l) j = j ≢ r

-- Members other than `r` wait as long as only the entry of `r` changes.
pub All-Waits :
    (h g : Heap) (r : ℕ) (l : Subs)
    → ((j : ℕ) → j ≢ r → g j ≡ h j)
    → All (λ j. j ≢ r) l
    → All (Waits h) l
    → All (Waits g) l
All-Waits h g r [] same_at ne a = tt
All-Waits h g r (j ∷ l) same_at ne a = (rw (same_at j ne.0) a.0, All-Waits h g r l same_at ne.1 a.1)

-- A subscription that is in no list is none of those that wait.
pub All-other :
    (h : Heap) (r : ℕ) (l : Subs) → (h r).in_list ≡ false → All (Waits h) l → All (λ j. j ≢ r) l
All-other h r [] free a = tt
All-other h r (j ∷ l) free a = (ground arith, All-other h r l free a.1)

pub Distinct-append : (r : ℕ) (l : Subs) → All (λ j. j ≢ r) l → Distinct l → Distinct (l ++ r ∷ [])
Distinct-append r [] ne d = (tt, tt)
Distinct-append r (j ∷ l) ne d =
    (All-append (λ x. x ≢ j) l (r ∷ []) d.0 (ground arith, tt), Distinct-append r l ne.1 d.1)

-- Members of a list that one of them has left.
module _ (r : ℕ) where
  All-without : (P : ℕ → Type 0) (l : Subs) → All P l → All P (SubscriptionList.without l r)
  unfolding SubscriptionList.without
  All-without P [] a = tt
  All-without P (j ∷ l) a = elim (Bool-cases (j == r)) [
    | inl e ↦ rw e a.1
    | inr e ↦ rw e (a.0, All-without P l a.1)
  ]

  Distinct-without : (l : Subs) → Distinct l → Distinct (SubscriptionList.without l r)
  unfolding SubscriptionList.without
  Distinct-without [] d = tt
  Distinct-without (j ∷ l) d = elim (Bool-cases (j == r)) [
    | inl e ↦ rw e d.1
    | inr e ↦ rw e (All-without (λ x. x ≢ j) l d.0, Distinct-without l d.1)
  ]

  All-gone : (l : Subs) → Distinct l → All (λ j. j ≢ r) (SubscriptionList.without l r)
  unfolding SubscriptionList.without
  All-gone [] d = tt
  All-gone (j ∷ l) d = elim (Bool-cases (j == r)) [
    | inl e ↦
        let j_eq : j ≡ r = (==_iff j r).0 e in rw (e) (subst (λ x. All (λ y. y ≢ x) l) j_eq d.0)
    | inr e ↦ rw e (ground (arith, ==_iff j r), All-gone l d.1)
  ]

  -- The list and the heap that `Remove` leaves.
  pub remove-Waits :
      (h : Heap) (l : Subs)
      → Distinct l
      → All (Waits h) l
      → let x = SubscriptionList.remove h l r in All (Waits x.0) x.1 × Distinct x.1
  unfolding SubscriptionList.remove mark store
  remove-Waits h l d a = elim (Bool-cases (SubscriptionList.contains l r)) [
    | inr e ↦ rw e (a, d)
    | inl e ↦ rw e (
      All-Waits h (mark h r false) r (SubscriptionList.without l r) (λ j ne. ground arith)
          (All-gone l d) (All-without (Waits h) l a),
      Distinct-without l d,
    )
  ]

module _ (st : Storage) where
  pub give-heap :
      (keep : st.Store → Bytes → Frame → OrPanic (st.Store × Option StoreError)) (q q' : Queue)
      (w w' : World st) (f : Frame) (e : Option StoreError) (rs : Subs)
      → q.subs ≡ rs
      → give st keep q w f ≡ ok (q', w', e)
      → (j : ℕ) → Skips rs j
      → w'.heap j ≡ w.heap j
  unfolding give hand_or_keep SubscriptionList.get mark store send_queue_frame
      set_subscription_header
  give-heap keep q q' w w' f e [] s h j ne =
      elim (Result-cases (keep w.store_state q.destination f)) [
        | inr (p, k) ↦ absurd (ground arith)
        | inl (x, k) ↦ ground arith
      ]
  give-heap keep q q' w w' f e (r ∷ rs) s h j ne = elim (Option-cases (w.heap r).frame) [
    | inl n ↦ ground arith
    | inr (g, n) ↦ absurd (ground arith)
  ]

  -- `subscribe` changes the entry of `r` only, and marks it when it puts it in the list.
  pub subscribe-heap :
      (q q' : Queue) (w w' : World st) (r : ℕ) (e : Option StoreError)
      → (w.heap r).frame ≡ none
      → subscribe st q w r ≡ ok (q', w', e)
      → ((j : ℕ) → j ≢ r → w'.heap j ≡ w.heap j)
        × (((q'.subs ≡ q.subs) ⊎ ((q'.subs ≡ q.subs ++ r ∷ []) × Waits w'.heap r)))
  unfolding subscribe subscribe_with SubscriptionList.add mark store send_queue_frame
      set_subscription_header
  subscribe-heap q q' w w' r e idle h =
      elim (Result-cases (st.dequeue w.store_state (w.heap r).dest)) [
        | inr (p, k) ↦ absurd (ground arith)
        | inl ((s, none, none), k) ↦ elim (Bool-cases (w.heap r).in_list) [
          | inl m ↦ absurd (ground arith)
          | inr m ↦ (λ j ne. ground arith, inr (ground arith, ground arith))
        ]
        | inl ((s, some f, none), k) ↦ (λ j ne. ground arith, inl (ground arith))
        | inl ((s, f, some x), k) ↦ (λ j ne. ground arith, inl (ground arith))
      ]
