-- ===== src/Server/Conn/Whole/Handlers.antt =====
-- The handlers of server/client/conn.go in the connected state.
use stomp.Prelude.{ℕ, ◌≡◌, refl, subst, List, [], ◌∷◌, Option, none, some, arith, All, inl, inr}
use stomp.Go.Map.{Map}
use stomp.Go.Result.{ok, Result-cases}
use stomp.Frame.Key
use stomp.Frame.Header.{Bytes}
use stomp.Frame.Base.{Frame}
use stomp.Server.ClientError.{ClientError, subscription_not_found}
use stomp.Server.Subscription.{Subscription, new_subscription}
use stomp.Server.TxStore
use stomp.Server.TxStore.Laws.{commit-Inv}
use stomp.Server.Conn.State.{
  unsubscribe_op, Conn, Handler, ◌>>=◌, ◌>>◌, entry, require, or_fail, modify, request,
}
use stomp.Server.Conn.Send.{send_receipt_immediately, in_transaction}
use stomp.Server.Conn.Connect.{handle_disconnect}
use stomp.Server.Conn.Transact.{handle_begin, handle_abort, handle_commit, commit_func, commit_with}
use stomp.Server.Conn.Subscribe.{
  handle_subscribe, handle_unsubscribe, not_there, insert_sub, or_auto, lookup_sub, delete_sub,
}
use stomp.Server.Conn.Ack.{
  acked, nacked, acked_msg_id, ack_subs, nack_subs, handle_ack, handle_nack, enqueue_message,
  handle_send,
}
use stomp.Server.Conn.Dispatch.{connected_func}
use stomp.Server.Conn.Keeps.{
  After, Keeps, bind-Keeps, then-Keeps, entry-Keeps, require-Keeps, send_receipt-Receipts,
  send_receipt-Keeps, acked_msg_id-Keeps,
}
use stomp.Server.Conn.Keeps.Acks.{ack_subs-Keeps, nack_subs-Keeps}
use stomp.Server.Conn.Keeps.Dispatch.{HandlersKeep, connected_with-Keeps}
use stomp.Server.Conn.Whole.Later.{Later, Later-asks, Later-keeps}

All-unit : (l : List Frame) → All (λ _. Unit {0}) l
All-unit [] = tt
All-unit (f ∷ l) = (tt, All-unit l)

module _ (b : Conn) where
  abbrev P : Conn → Frame → Type 0
  P c f = Later b c

  receipt-Keeps : Keeps P send_receipt_immediately
  receipt-Keeps =
      send_receipt-Keeps P (λ c f w n h. Later-keeps b c _ h refl refl refl refl refl) (λ c f h. h)

  handle_disconnect-Keeps : Keeps P handle_disconnect
  unfolding handle_disconnect
  handle_disconnect-Keeps c f h =
      let (w, n, g, r, q, _) = send_receipt-Receipts c f in
      rw (q, handle_disconnect, After) (Later-keeps b c _ h refl refl refl refl refl)

  handle_begin-Keeps : Keeps P handle_begin
  unfolding handle_begin
  handle_begin-Keeps =
      bind-Keeps P (require Key.transaction) _ (require-Keeps P Key.transaction) λ tx.
        then-Keeps P send_receipt_immediately _ receipt-Keeps
          (λ c f h. Later-keeps b c _ h refl refl refl refl refl)

  handle_abort-Keeps : Keeps P handle_abort
  unfolding handle_abort
  handle_abort-Keeps =
      bind-Keeps P (require Key.transaction) _ (require-Keeps P Key.transaction) λ tx.
        then-Keeps P send_receipt_immediately _ receipt-Keeps
          (λ c f h. Later-keeps b c _ h refl refl refl refl refl)

  in_transaction-Keeps :
      (act : Handler (Unit {0})) (tx : Option Bytes) → Keeps P act → Keeps P (in_transaction act tx)
  unfolding in_transaction
  in_transaction-Keeps act none k c f h = k c f h
  in_transaction-Keeps act (some tx) k c f h = Later-keeps b c _ h refl refl refl refl refl

  handle_send-Keeps : Keeps P handle_send
  unfolding handle_send
  handle_send-Keeps = then-Keeps P send_receipt_immediately _ receipt-Keeps (
      bind-Keeps P (entry Key.transaction) _ (entry-Keeps P Key.transaction) λ tx.
        in_transaction-Keeps enqueue_message tx
          (λ c f h. unfold enqueue_message in Later-asks b c _ _ h refl refl refl refl refl))

  handle_ack-Keeps : Keeps P handle_ack
  unfolding handle_ack
  handle_ack-Keeps = bind-Keeps P acked_msg_id _ (acked_msg_id-Keeps P) λ m.
      then-Keeps P send_receipt_immediately _ receipt-Keeps (
        bind-Keeps P (entry Key.transaction) _ (entry-Keeps P Key.transaction) λ tx.
          in_transaction-Keeps (ack_subs m) tx (
            ack_subs-Keeps (Later b) (λ c l h. Later-keeps b c _ h refl refl refl refl refl)
              (λ c r h. unfold acked in Later-asks b c _ _ h refl refl refl refl refl) m))

  handle_nack-Keeps : Keeps P handle_nack
  unfolding handle_nack
  handle_nack-Keeps = bind-Keeps P acked_msg_id _ (acked_msg_id-Keeps P) λ m.
      then-Keeps P send_receipt_immediately _ receipt-Keeps (
        bind-Keeps P (entry Key.transaction) _ (entry-Keeps P Key.transaction) λ tx.
          in_transaction-Keeps (nack_subs m) tx (
            nack_subs-Keeps (Later b) (λ c l h. Later-keeps b c _ h refl refl refl refl refl)
              (λ c r h. unfold nacked in Later-asks b c _ _ h refl refl refl refl refl) m))

  unsubscribed-Keeps :
      (o : Option ℕ) (id : Bytes)
      → Keeps P (
          or_fail o subscription_not_found >>= λ sub.
          modify (λ c. record c { subs = delete_sub id c.subs }) >> request (unsubscribe_op sub))
  unsubscribed-Keeps none id c f h = h
  unsubscribed-Keeps (some r) id c f h = Later-asks b c _ _ h refl refl refl refl refl

  handle_unsubscribe-Keeps : Keeps P handle_unsubscribe
  unfolding handle_unsubscribe
  handle_unsubscribe-Keeps =
      bind-Keeps P (require Key.id) _ (require-Keeps P Key.id)
        λ id c f h. unsubscribed-Keeps (lookup_sub c.subs id) id c f h

  not_there-Keeps : (o : Option ℕ) → Keeps P (not_there o)
  unfolding not_there
  not_there-Keeps none c f h = h
  not_there-Keeps (some r) c f h = h

  insert_sub-Keeps :
      (id : Bytes) (s : Subscription) (m : Option (Map ℕ)) (c : Conn) (f : Frame)
      → P c f
      → After P (insert_sub id s m c f)
  unfolding insert_sub
  insert_sub-Keeps id s none c f h = tt
  insert_sub-Keeps id s (some m) c f h = Later-asks b c _ _ h refl refl refl refl refl

  handle_subscribe-Keeps : Keeps P handle_subscribe
  unfolding handle_subscribe
  handle_subscribe-Keeps = bind-Keeps P (require Key.id) _ (require-Keeps P Key.id) λ id.
      bind-Keeps P (require Key.destination) _ (require-Keeps P Key.destination) λ dest.
        bind-Keeps P (entry Key.ack) _ (entry-Keeps P Key.ack) λ ack.
          bind-Keeps P (λ c f. ok (c, f, ok (lookup_sub c.subs id))) _ (λ c f h. h)
            λ old. then-Keeps P (not_there old) _ (not_there-Keeps old) λ c f h.
              insert_sub-Keeps id (new_subscription c.number dest id (or_auto ack)) c.subs c f h

  commit_func-Later :
      (run : Handler (Unit {0}))
      → Keeps P run
      → (c c' : Conn) (f : Frame) (e : Option ClientError) → Later b c
      → Unit {0}
      → commit_func run c f ≡ ok (c', e)
      → Later b c'
  commit_func-Later run k c c' f e h u q = elim (Result-cases (run c f)) [
    | inr (p, r) ↦ absurd (ground arith)
    | inl ((d, g, x), r) ↦
        let d_eq : d ≡ c' = ground arith in subst (Later b) d_eq (rw r at (k c f h))
  ]

  commit_with-Keeps :
      (run : Handler (Unit {0})) (tx : Bytes) → Keeps P run → Keeps P (commit_with run tx)
  unfolding commit_with
  commit_with-Keeps run tx k c f h =
      elim (Result-cases (TxStore.commit c.tx_store tx (commit_func run) c)) [
        | inr (p, q) ↦ rw (q, After) tt
        | inl ((t, d, e), q) ↦
            let l =
              (commit-Inv (Later b) (λ _. Unit {0}) (commit_func run) (commit_func-Later run k)
                c.tx_store tx c t d e h (λ j l _. All-unit l) q).0 in
            rw (q, After) (Later-keeps b d _ l refl refl refl refl refl)
      ]

  handle_commit-Keeps : (run : Handler (Unit {0})) → Keeps P run → Keeps P (handle_commit run)
  unfolding handle_commit
  handle_commit-Keeps run k =
      bind-Keeps P (require Key.transaction) _ (require-Keeps P Key.transaction)
        λ tx. then-Keeps P send_receipt_immediately _ receipt-Keeps (commit_with-Keeps run tx k)

  handlers-Keep : (run : Handler (Unit {0})) → Keeps P run → HandlersKeep P run
  handlers-Keep run k = record {
    disconnects = handle_disconnect-Keeps;
    begins = handle_begin-Keeps;
    aborts = handle_abort-Keeps;
    commits = handle_commit-Keeps run k;
    subscribes = handle_subscribe-Keeps;
    unsubscribes = handle_unsubscribe-Keeps;
    sends = λ c f e h. handle_send-Keeps c f h;
    acks = λ c f e h. handle_ack-Keeps c f h;
    nacks = λ c f e h. handle_nack-Keeps c f h;
  }

  -- Whatever frame comes in the connected state, accepted or refused.
  pub connected_func-Keeps : Keeps P connected_func
  unfolding connected_func
  connected_func-Keeps =
      connected_with-Keeps P _
        (handlers-Keep _ (connected_with-Keeps P _ (handlers-Keep _ (λ c f h. h))))
