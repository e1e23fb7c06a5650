-- ===== src/Server/Subscription/Laws.antt =====
-- Reading the heap after a write, and the panics of a subscription.
use stomp.Prelude.{ℕ, ◌≡◌, ◌≢◌, refl, Bool, true, leb, ◌==◌, same, arith, ◌⊎◌, inl, inr}
use stomp.Go.Result.{ok}
use stomp.Frame.Key
use stomp.Server.Subscription.{Subscription, Heap, store, is_acked_by}

pub store_self : (h : Heap) (r : ℕ) (s : Subscription) → store h r s r ≡ s
unfolding store
store_self h r s = ground arith

pub store_other : (h : Heap) (r q : ℕ) (s : Subscription) → q ≢ r → store h r s q ≡ h q
unfolding store
store_other h r q s ne = ground arith

-- The values of `ack` that the code knows.
abbrev pub HasKnownAck : Subscription → Type 0
HasKnownAck s =
    (s.ack ≡ Key.ack_auto) ⊎ ((s.ack ≡ Key.ack_client) ⊎ (s.ack ≡ Key.ack_client_individual))

pub is_acked_by_known :
    (s : Subscription) (m : ℕ) → HasKnownAck s → (b : Bool) × (is_acked_by s m ≡ ok b)
unfolding is_acked_by
is_acked_by_known s m (inl e) = (true, rw e (unfold same in refl))
is_acked_by_known s m (inr (inl e)) = (leb s.msg_id m, rw (e, is_acked_by) (unfold same in refl))
is_acked_by_known s m (inr (inr e)) = (m == s.msg_id, rw e (unfold same in refl))
