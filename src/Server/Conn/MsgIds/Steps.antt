-- ===== src/Server/Conn/MsgIds/Steps.antt =====
-- No step of a connection gives a subscription a message id.
use stomp.Prelude.{
  ℕ, ◌≡◌, refl, subst, ◌||◌, List, [], ◌∷◌, Option, none, some, same, arith, All, Option-cases,
  Bool-cases, inl, inr,
}
use stomp.Go.Result.{Result, ok, Result-cases}
use stomp.Go.Map.{Map}
use stomp.Frame.Key
use stomp.Frame.Command
use stomp.Frame.Header.{Bytes, contains}
use stomp.Frame.Base.{Frame, new}
use stomp.Server.ClientError.{ClientError, not_connected}
use stomp.Server.Subscription.{Subscription, new_subscription}
use stomp.Server.TxStore
use stomp.Server.TxStore.Laws.{commit-Inv}
use stomp.Server.TxStore.{TxStore, commit_loop}
use stomp.Server.Conn.State.{
  Config, Conn, Handler, StateFunc, connecting, connected, write, entry, require, fail,
}
use stomp.Server.Conn.Keeps.{
  acked_msg_id-Keeps, send_receipt-Keeps, send_receipt-Receipts, After, Keeps, bind-Keeps,
  then-Keeps, entry-Keeps, require-Keeps,
}
use stomp.Server.Conn.Keeps.Dispatch.{HandlersKeep, connected_with-Keeps}
use stomp.Server.Conn.Keeps.Acks.{if-Keeps, ack_subs-Keeps, nack_subs-Keeps}
use stomp.Server.Conn.Send.{send_receipt_immediately, in_transaction}
use stomp.Server.Conn.Connect.{handle_connect, handle_disconnect}
use stomp.Server.Version.{v10, determine_version}
use stomp.Server.HeartBeat.{get_heart_beat}
use stomp.Frame.Header.{or_empty}
use stomp.Server.Conn.Transact.{handle_begin, handle_abort, handle_commit, commit_func, commit_with}
use stomp.Server.Conn.Subscribe.{
  handle_subscribe, handle_unsubscribe, lookup_sub, not_there, insert_sub, or_auto,
}
use stomp.Server.Conn.Ack.{
  acked_msg_id, ack_subs, nack_subs, handle_ack, handle_nack, enqueue_message, handle_send,
}
use stomp.Server.Conn.Dispatch.{connecting_func, connected_func, run_state_func, run_in}
use stomp.Server.Conn.MsgIds.{NoMsgIds, store-NoMsgIds, acked-NoMsgIds, nacked-NoMsgIds}

abbrev P : Conn → Frame → Type 0
P c f = NoMsgIds c.heap

receipt-Keeps : Keeps P send_receipt_immediately
receipt-Keeps = send_receipt-Keeps P (λ c f w n h. h) (λ c f h. h)

handle_disconnect-Keeps : Keeps P handle_disconnect
unfolding handle_disconnect
handle_disconnect-Keeps c f h =
    let (w, n, g, r, q, _) = send_receipt-Receipts c f in rw (q, handle_disconnect, After) h

handle_begin-Keeps : Keeps P handle_begin
unfolding handle_begin
handle_begin-Keeps =
    bind-Keeps P (require Key.transaction) _ (require-Keeps P Key.transaction)
      λ tx. then-Keeps P send_receipt_immediately _ receipt-Keeps (λ c f h. h)

handle_abort-Keeps : Keeps P handle_abort
unfolding handle_abort
handle_abort-Keeps =
    bind-Keeps P (require Key.transaction) _ (require-Keeps P Key.transaction)
      λ tx. then-Keeps P send_receipt_immediately _ receipt-Keeps (λ c f h. h)

in_transaction-Keeps :
    (act : Handler (Unit {0})) (tx : Option Bytes) → Keeps P act → Keeps P (in_transaction act tx)
unfolding in_transaction
in_transaction-Keeps act none k c f h = k c f h
in_transaction-Keeps act (some tx) k c f h = h

handle_send-Keeps : Keeps P handle_send
unfolding handle_send
handle_send-Keeps = then-Keeps P send_receipt_immediately _ receipt-Keeps (
    bind-Keeps P (entry Key.transaction) _ (entry-Keeps P Key.transaction)
      λ tx. in_transaction-Keeps enqueue_message tx (λ c f h. unfold enqueue_message in h))

handle_ack-Keeps : Keeps P handle_ack
unfolding handle_ack
handle_ack-Keeps = bind-Keeps P acked_msg_id _ (acked_msg_id-Keeps P) λ m.
    then-Keeps P send_receipt_immediately _ receipt-Keeps (
      bind-Keeps P (entry Key.transaction) _ (entry-Keeps P Key.transaction) λ tx.
        in_transaction-Keeps (ack_subs m) tx
          (ack_subs-Keeps (λ c. NoMsgIds c.heap) (λ c l h. h) acked-NoMsgIds m))

handle_nack-Keeps : Keeps P handle_nack
unfolding handle_nack
handle_nack-Keeps = bind-Keeps P acked_msg_id _ (acked_msg_id-Keeps P) λ m.
    then-Keeps P send_receipt_immediately _ receipt-Keeps (
      bind-Keeps P (entry Key.transaction) _ (entry-Keeps P Key.transaction) λ tx.
        in_transaction-Keeps (nack_subs m) tx
          (nack_subs-Keeps (λ c. NoMsgIds c.heap) (λ c l h. h) nacked-NoMsgIds m))

handle_unsubscribe-Keeps : Keeps P handle_unsubscribe
unfolding handle_unsubscribe
handle_unsubscribe-Keeps =
    bind-Keeps P (require Key.id) _ (require-Keeps P Key.id) λ id c f h. ground (arith, h)

not_there-Keeps : (o : Option ℕ) → Keeps P (not_there o)
unfolding not_there
not_there-Keeps none c f h = h
not_there-Keeps (some r) c f h = h

insert_sub-Keeps :
    (id : Bytes) (s : Subscription) (m : Option (Map ℕ)) (c : Conn) (f : Frame)
    → s.msg_id ≡ 0
    → P c f
    → After P (insert_sub id s m c f)
unfolding insert_sub
insert_sub-Keeps id s none c f e h = tt
insert_sub-Keeps id s (some m) c f e h = store-NoMsgIds c.heap c.next_sub s h e

handle_subscribe-Keeps : Keeps P handle_subscribe
unfolding handle_subscribe
handle_subscribe-Keeps = bind-Keeps P (require Key.id) _ (require-Keeps P Key.id) λ id.
    bind-Keeps P (require Key.destination) _ (require-Keeps P Key.destination) λ dest.
      bind-Keeps P (entry Key.ack) _ (entry-Keeps P Key.ack) λ ack.
        bind-Keeps P (λ c f. ok (c, f, ok (lookup_sub c.subs id))) _ (λ c f h. h)
          λ old. then-Keeps P (not_there old) _ (not_there-Keeps old) λ c f h.
            insert_sub-Keeps id (new_subscription c.number dest id (or_auto ack)) c.subs c f
              (unfold new_subscription in refl) h

commit_func-NoMsgIds :
    (run : Handler (Unit {0}))
    → Keeps P run
    → (c c' : Conn) (f : Frame) (e : Option ClientError) → NoMsgIds c.heap
    → Unit {0}
    → commit_func run c f ≡ ok (c', e)
    → NoMsgIds c'.heap
commit_func-NoMsgIds run k c c' f e h u q = elim (Result-cases (run c f)) [
  | inr (p, r) ↦ absurd (ground arith)
  | inl ((d, g, x), r) ↦
      let d_eq : d.heap ≡ c'.heap = ground arith in subst NoMsgIds d_eq (rw r at (k c f h))
]

All-unit : (l : List Frame) → All (λ _. Unit {0}) l
All-unit [] = tt
All-unit (f ∷ l) = (tt, All-unit l)

commit_with-Keeps :
    (run : Handler (Unit {0})) (tx : Bytes) → Keeps P run → Keeps P (commit_with run tx)
unfolding commit_with
commit_with-Keeps run tx k c f h =
    elim (Result-cases (TxStore.commit c.tx_store tx (commit_func run) c)) [
      | inr (p, q) ↦ rw (q, After) tt
      | inl ((t, d, e), q) ↦
          rw (q, After)
            ((commit-Inv (λ (d : Conn). NoMsgIds d.heap) (λ _. Unit {0}) (commit_func run)
              (commit_func-NoMsgIds run k) c.tx_store tx c t d e h (λ j l _. All-unit l) q).0)
    ]

handle_commit-Keeps : (run : Handler (Unit {0})) → Keeps P run → Keeps P (handle_commit run)
unfolding handle_commit
handle_commit-Keeps run k =
    bind-Keeps P (require Key.transaction) _ (require-Keeps P Key.transaction)
      λ tx. then-Keeps P send_receipt_immediately _ receipt-Keeps (commit_with-Keeps run tx k)

handlers-Keep : (run : Handler (Unit {0})) → Keeps P run → HandlersKeep P run
handlers-Keep run k = record {
  disconnects = handle_disconnect-Keeps;
  begins = handle_begin-Keeps;
  aborts = handle_abort-Keeps;
  commits = handle_commit-Keeps run k;
  subscribes = handle_subscribe-Keeps;
  unsubscribes = handle_unsubscribe-Keeps;
  sends = λ c f e h. handle_send-Keeps c f h;
  acks = λ c f e h. handle_ack-Keeps c f h;
  nacks = λ c f e h. handle_nack-Keeps c f h;
}

connected_func-Keeps : Keeps P connected_func
unfolding connected_func
connected_func-Keeps =
    connected_with-Keeps P _
      (handlers-Keep _ (connected_with-Keeps P _ (handlers-Keep _ (λ c f h. h))))

-- The handshake touches neither the subscriptions nor the transactions.
pub handle_connect-Kept :
    (cfg : Config) (c c' : Conn) (f f' : Frame) (r : Result ClientError (Unit {0}))
    → handle_connect cfg c f ≡ ok (c', f', r)
    → (c.heap ≡ c'.heap) × (c.tx_store ≡ c'.tx_store)
unfolding handle_connect write
handle_connect-Kept cfg c c' f f' r e = elim (Option-cases (contains f.header Key.receipt)) [
  | inr (v, q) ↦ ground arith
  | inl q ↦
      elim (Bool-cases (
        cfg.authenticate (or_empty (contains f.header Key.login))
          (or_empty (contains f.header Key.passcode)))) [
            | inr a ↦ ground arith
            | inl a ↦ elim (Result-cases (determine_version f)) [
              | inr (x, v) ↦ ground arith
              | inl (version, v) ↦ elim (Bool-cases (same version v10)) [
                | inl old ↦ ground arith
                | inr new ↦ elim (Result-cases (get_heart_beat f)) [
                  | inr (x, b) ↦ ground arith
                  | inl ((x, y), b) ↦ ground arith
                ]
              ]
            ]
          ]
]

handle_connect-Keeps : (cfg : Config) → Keeps P (handle_connect cfg)
handle_connect-Keeps cfg c f h = elim (Result-cases (handle_connect cfg c f)) [
  | inr (p, q) ↦ rw q tt
  | inl ((c', f', r), q) ↦ rw q (subst NoMsgIds ((handle_connect-Kept cfg c c' f f' r q).0) h)
]

connecting_func-Keeps : (cfg : Config) → Keeps P (connecting_func cfg)
unfolding connecting_func
connecting_func-Keeps cfg =
    if-Keeps P (λ f. same f.command Command.connect || same f.command Command.stomp_connect)
      (handle_connect cfg) (fail not_connected) (handle_connect-Keeps cfg) (λ c f h. h)

run_in-Keeps : (s : StateFunc) (cfg : Config) → Keeps P (run_in s cfg)
unfolding run_in
run_in-Keeps connecting cfg = connecting_func-Keeps cfg
run_in-Keeps connected cfg = connected_func-Keeps

-- Whatever frame a client sends, in whichever state its connection is, and whether the frame is
-- accepted or refused, if there is no panic: when no subscription has a message id, none has one
-- afterwards.
pub run_state_func-NoMsgIds :
    (cfg : Config) (c c' : Conn) (f f' : Frame) (r : Result ClientError (Unit {0}))
    → NoMsgIds c.heap
    → run_state_func cfg c f ≡ ok (c', f', r)
    → NoMsgIds c'.heap
unfolding run_state_func
run_state_func-NoMsgIds cfg c c' f f' r h e = rw e at (run_in-Keeps c.state_func cfg c f h)
