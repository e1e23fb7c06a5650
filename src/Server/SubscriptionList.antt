-- ===== src/Server/SubscriptionList.antt =====
-- server/client/subscription_list.go: a list of pointers to subscriptions, oldest first.
pub mod Laws
use stomp.Prelude.{
  ℕ, Bool, true, false, List, [], ◌∷◌, ◌++◌, Option, none, some, ◌==◌, same, if◌then◌else◌,
}
use stomp.Go.Result.{Result, ok, err, ◌>>=◌}
use stomp.Frame.Header.{Bytes}
use stomp.Server.Panic.{already_in_list, OrPanic}
use stomp.Server.Subscription.{Subscription, Heap, store, is_acked_by, is_nacked_by}

abbrev pub Subs : Type 0
Subs = List ℕ

-- `sub.subList = …` for the subscription at `r`.
unfoldable pub mark : Heap → ℕ → Bool → Heap
unfolding store
mark h r b = store h r (record (h r) { in_list = b })

unfoldable pub add : Heap → Subs → ℕ → OrPanic (Heap × Subs)
unfolding mark
add h l r = if (h r).in_list then err already_in_list else ok (mark h r true, l ++ r ∷ [])

-- `Get`: the heap, the list and the subscription, if there is one.
unfoldable pub get : Heap → Subs → Heap × Subs × Option ℕ
unfolding mark
get h [] = (h, [], none)
get h (r ∷ l) = (mark h r false, l, some r)

-- The list without the first `r`.
unfoldable pub without : Subs → ℕ → Subs
without [] r = []
without (q ∷ l) r = if q == r then l else q ∷ without l r

unfoldable pub contains : Subs → ℕ → Bool
contains [] r = false
contains (q ∷ l) r = if q == r then true else contains l r

unfoldable pub remove : Heap → Subs → ℕ → Heap × Subs
unfolding mark without contains
remove h l r = if contains l r then (mark h r false, without l r) else (h, l)

-- `FindByIdAndRemove` leaves `subList` as it is.
unfoldable pub find_by_id_and_remove : Heap → Subs → Bytes → Subs × Option ℕ
find_by_id_and_remove h [] id = ([], none)
find_by_id_and_remove h (r ∷ l) id =
    let later = find_by_id_and_remove h l id in
    if same (h r).id id then (l, some r) else (r ∷ later.0, later.1)

-- The loops of `Ack` and `Nack`: every subscription that passes the test leaves the list and is
-- handed to the callback, which works on the state `S` that the caller's closure holds.
unfoldable pub sweep {ℓ} :
    {S : Type ℓ} → (S → ℕ → OrPanic Bool) → (S → ℕ → S) → Subs → S → OrPanic (Subs × S)
sweep test callback [] s = ok ([], s)
sweep test callback (r ∷ l) s = test s r >>= λ b. elim b [
  | true ↦ sweep test callback l (callback s r)
  | false ↦ sweep test callback l s >>= λ x. ok (r ∷ x.0, x.1)
]

module _ {ℓ} {S : Type ℓ} (heap : S → Heap) where
  unfoldable pub ack : Subs → ℕ → (S → ℕ → S) → S → OrPanic (Subs × S)
  unfolding sweep
  ack l msg_id callback = sweep (λ s r. is_acked_by (heap s r) msg_id) callback l

  unfoldable pub nack : Subs → ℕ → (S → ℕ → S) → S → OrPanic (Subs × S)
  unfolding sweep
  nack l msg_id callback = sweep (λ s r. ok (is_nacked_by (heap s r) msg_id)) callback l

-- `ForEach`, with the flag for the last one.
unfoldable pub for_each {ℓ} : {S : Type ℓ} → (S → ℕ → Bool → S) → Subs → S → S
for_each callback [] s = s
for_each callback (r ∷ []) s = callback s r true
for_each callback (r ∷ q ∷ l) s = for_each callback (q ∷ l) (callback s r false)
