-- ===== src/Server/Conn/MsgIds.antt =====
-- The field `msgId` of a subscription: it is read by every ACK and NACK, and never written.
pub mod Steps
use stomp.Prelude.{
  ℕ, zero, suc, ◌≡◌, ◌≢◌, refl, ◌∙◌, ap, Bool, true, false, ◌||◌, ◌&&◌, List, [], ◌∷◌, ◌++◌, Option,
  none, some, same, same_iff, one_of, ◌==◌, if◌then◌else◌, arith, All, Option-cases, Bool-cases,
  inl, inr,
}
use stomp.Go.Result.{Result, ok, err, Result-cases}
use stomp.Go.Number.{NumError, parse_uint}
use stomp.Frame.Key
use stomp.Frame.Header.{Bytes, contains}
use stomp.Frame.Base.{Frame, del}
use stomp.Server.ClientError.{ClientError}
use stomp.Server.Panic.{Panic, OrPanic}
use stomp.Server.Subscription.{
  Subscription, Heap, store, new_subscription, is_acked_by, is_nacked_by,
}
use stomp.Server.Subscription.Laws.{HasKnownAck}
use stomp.Server.SubscriptionList.{Subs, sweep, ack, nack}
use stomp.Server.SubscriptionList.Laws.{select, reject, visit, sweep-select}
use stomp.Server.Conn.State.{Conn, Handler, ◌>>=◌, ◌>>◌, send_immediately, write}
use stomp.Server.Conn.Ack.{acked, nacked, ack_subs, nack_subs}

-- No subscription has a message id.
abbrev pub NoMsgIds : Heap → Type 0
NoMsgIds h = (r : ℕ) → (h r).msg_id ≡ 0

pub store-NoMsgIds :
    (h : Heap) (r : ℕ) (s : Subscription) → NoMsgIds h → s.msg_id ≡ 0 → NoMsgIds (store h r s)
unfolding store
store-NoMsgIds h r s n e q = ground (arith, n q)

pub acked-NoMsgIds : (c : Conn) (r : ℕ) → NoMsgIds c.heap → NoMsgIds (acked c r).heap
unfolding acked
acked-NoMsgIds c r n = store-NoMsgIds c.heap r (record (c.heap r) { frame = none }) n (n r)

pub nacked-NoMsgIds : (c : Conn) (r : ℕ) → NoMsgIds c.heap → NoMsgIds (nacked c r).heap
unfolding nacked
nacked-NoMsgIds c r n = store-NoMsgIds c.heap r (record (c.heap r) { frame = none }) n (n r)

reject_none : (l : Subs) → reject (λ _. false) l ≡ l
reject_none [] = refl
reject_none (r ∷ l) = rw (reject_none l)

select_none : (l : Subs) → select (λ _. false) l ≡ []
select_none [] = refl
select_none (r ∷ l) = select_none l

All-true : (l : Subs) → All (λ _. Unit {0}) l
All-true [] = tt
All-true (r ∷ l) = (tt, All-true l)

-- When no subscription has a message id, a NACK of any message but number 0 is accepted and changes
-- nothing.
pub nack_subs_ignored :
    (c : Conn) (f : Frame) (m : ℕ) → NoMsgIds c.heap → m ≢ 0 → nack_subs m c f ≡ ok (c, f, ok tt)
unfolding nack_subs nack
nack_subs_ignored c f m n ne =
    rw
      (sweep-select (λ (d : Conn). NoMsgIds d.heap) (λ _. Unit {0}) (λ _. false)
        (λ (d : Conn) r. ok (is_nacked_by (d.heap r) m)) nacked
        (λ d r i _. unfold is_nacked_by in ground (arith, i r)) nacked-NoMsgIds c.sub_list c n
        (All-true c.sub_list))
      (rw (reject_none c.sub_list, select_none c.sub_list) refl)

-- Which subscriptions an ACK of message `m` releases: one of ack mode client-individual only if `m`
-- is 0, and every other.
abbrev pub released : Heap → ℕ → ℕ → Bool
released h m r = if same (h r).ack Key.ack_client_individual then m == 0 else true

-- What a sweep of `c` keeps.
abbrev Swept : Conn → Conn → Type 0
Swept c d = NoMsgIds d.heap × ((r : ℕ) → (d.heap r).ack ≡ (c.heap r).ack)

acked-Swept : (c d : Conn) (r : ℕ) → Swept c d → Swept c (acked d r)
unfolding acked store
acked-Swept c d r (n, a) = (acked-NoMsgIds d r n, λ q. ground (arith, a q, a r))

is_acked_by-released :
    (s : Subscription) (m : ℕ)
    → s.msg_id ≡ 0
    → HasKnownAck s
    → is_acked_by s m ≡ ok (if same s.ack Key.ack_client_individual then m == 0 else true)
unfolding is_acked_by
is_acked_by-released s m z (inl e) = rw (e, is_acked_by) (unfold same in refl)
is_acked_by-released s m z (inr (inl e)) = rw (e, is_acked_by) (unfold same in ground arith)
is_acked_by-released s m z (inr (inr e)) = rw (e, is_acked_by) (unfold same in ground arith)

-- When no subscription has a message id, and those in the list have ack modes that the code knows,
-- an ACK of message `m` is accepted and releases all of the list but those of ack mode
-- client-individual, which it releases only if `m` is 0: oldest first, with the others left in
-- their order.
pub ack_subs-released :
    (c : Conn) (f : Frame) (m : ℕ)
    → NoMsgIds c.heap
    → All (λ r. HasKnownAck (c.heap r)) c.sub_list
    → ack_subs m c f
      ≡ ok (
        record (visit acked (select (released c.heap m) c.sub_list) c) {
          sub_list = reject (released c.heap m) c.sub_list;
        },
        f,
        ok tt,
      )
unfolding ack_subs ack
ack_subs-released c f m n known =
    rw
      (sweep-select (Swept c) (λ r. HasKnownAck (c.heap r)) (released c.heap m)
        (λ (d : Conn) r. is_acked_by (d.heap r) m) acked
        (λ d r i k. rw (← i.1 r) (is_acked_by-released (d.heap r) m (i.0 r) (rw (i.1 r) k)))
        (acked-Swept c) c.sub_list c (n, λ r. refl) known)
      refl
