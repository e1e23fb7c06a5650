-- ===== src/Server/Conn/Transactions/Steps.antt =====
-- Every frame in a connection's transactions is one that may be deferred, whatever the client sends.
use stomp.Prelude.{
  ℕ, ◌≡◌, refl, ◌∙◌, subst, true, ◌||◌, Option, none, some, same, one_of, arith, ◌⊎◌, inl, inr,
}
use stomp.Go.Result.{Result, ok, Result-cases}
use stomp.Go.Map.{Map}
use stomp.Frame.Command
use stomp.Frame.Key
use stomp.Frame.Header.{Bytes, contains}
use stomp.Frame.Header.Laws.{contains-del}
use stomp.Frame.Base.{Frame, del}
use stomp.Server.ClientError.{ClientError, not_connected}
use stomp.Server.Subscription.{Subscription, new_subscription}
use stomp.Server.TxStore
use stomp.Server.TxStore.{TxStore}
use stomp.Server.TxStore.Laws.{Holds, commit-Inv}
use stomp.Server.TxStore.Holds.{begin-Holds, abort-Holds, add-Holds}
use stomp.Server.Conn.State.{
  Config, Conn, Handler, StateFunc, connecting, connected, ◌>>=◌, ◌>>◌, entry, require, fail,
}
use stomp.Server.Conn.Send.{send_receipt_immediately, in_transaction}
use stomp.Server.Conn.Connect.{handle_connect, handle_disconnect}
use stomp.Server.Conn.Transact.{handle_begin, handle_abort, handle_commit, commit_func, commit_with}
use stomp.Server.Conn.Subscribe.{
  handle_subscribe, handle_unsubscribe, lookup_sub, not_there, insert_sub, or_auto,
}
use stomp.Server.Conn.Ack.{
  acked, nacked, acked_msg_id, ack_subs, nack_subs, handle_ack, handle_nack, enqueue_message,
  handle_send,
}
use stomp.Server.Conn.Dispatch.{connecting_func, connected_func, run_state_func, run_in}
use stomp.Server.Conn.Keeps.{
  After, Keeps, bind-Keeps, then-Keeps, require-Keeps, entry-Keeps, send_receipt-Receipts,
  send_receipt-Keeps, acked_msg_id-Reads,
}
use stomp.Server.Conn.Keeps.Dispatch.{KeepsOn, connected_with-Keeps}
use stomp.Server.Conn.Keeps.Acks.{if-Keeps, ack_subs-Keeps, nack_subs-Keeps}
use stomp.Server.Conn.MsgIds.Steps.{handle_connect-Kept}
use stomp.Server.Conn.Transactions.{deferrable, Deferred}

abbrev P : Conn → Frame → Type 0
P c f = Holds Deferred c.tx_store

receipt-Keeps : Keeps P send_receipt_immediately
receipt-Keeps = send_receipt-Keeps P (λ c f w n h. h) (λ c f h. h)

-- After its receipt a frame has no receipt entry, and its command and transaction are as before.
abbrev Receipted : Frame → Frame → Type 0
Receipted f g = (g.command ≡ f.command) × (contains g.header Key.receipt ≡ none)

receipted :
    (c : Conn) (f g : Frame)
    → ((g ≡ f) × (contains f.header Key.receipt ≡ none)) ⊎ (g ≡ del f Key.receipt)
    → Receipted f g
receipted c f g (inl (e, n)) = rw e (refl, n)
receipted c f g (inr e) =
    rw e (refl, contains-del f.header Key.receipt Key.receipt ∙ unfold same in refl)

-- A frame that has no receipt entry joins a transaction.
del-Deferred :
    (f : Frame)
    → one_of f.command deferrable ≡ true
    → contains f.header Key.receipt ≡ none
    → Deferred (del f Key.transaction)
del-Deferred f k n = record {
  command = k;
  no_transaction = contains-del f.header Key.transaction Key.transaction ∙ unfold same in refl;
  no_receipt = contains-del f.header Key.transaction Key.receipt ∙ unfold same in n;
}

in_transaction-Keeps :
    (act : Handler (Unit {0})) (c : Conn) (f : Frame) (tx : Option Bytes)
    → Keeps P act
    → one_of f.command deferrable ≡ true
    → contains f.header Key.receipt ≡ none
    → P c f
    → After P (in_transaction act tx c f)
unfolding in_transaction
in_transaction-Keeps act c f none k d n h = k c f h
in_transaction-Keeps act c f (some tx) k d n h =
    add-Holds Deferred c.tx_store tx f (del-Deferred f d n) h

-- The receipt, and then the transaction or the act itself.
deferring-Keeps :
    (act : Handler (Unit {0})) (c : Conn) (f : Frame)
    → Keeps P act
    → one_of f.command deferrable ≡ true
    → P c f
    → After P
        ((send_receipt_immediately >> (entry Key.transaction >>= λ tx. in_transaction act tx)) c f)
deferring-Keeps act c f k d h =
    let (w, n, g, r, q, j) = send_receipt-Receipts c f in
    let (same_command, no_receipt) = receipted c f g j in
    elim (Result-cases r) [
      | inr (e, p) ↦ rw (q, After) (rw (p, After) h)
      | inl (u, p) ↦
          rw (q, After)
            (rw (p, After)
              (in_transaction-Keeps act (record c { written = w; room = n }) g
                (contains g.header Key.transaction) k (rw same_command d) no_receipt h))
    ]

handle_send-Keeps : KeepsOn P Command.send handle_send
unfolding handle_send
handle_send-Keeps c f e h =
    deferring-Keeps enqueue_message c f (λ c f h. unfold enqueue_message in h)
      (unfold one_of in ground (arith, e)) h

acknowledge-Keeps :
    (act : ℕ → Handler (Unit {0})) (c : Conn) (f : Frame)
    → ((m : ℕ) → Keeps P (act m))
    → one_of f.command deferrable ≡ true
    → P c f
    → After P (
        (acked_msg_id >>= λ m.
        send_receipt_immediately >> (entry Key.transaction >>= λ tx. in_transaction (act m) tx))
          c f)
acknowledge-Keeps act c f k d h =
    let (r, q) = acked_msg_id-Reads c f in
    elim (Result-cases r) [
      | inr (e, p) ↦ rw (q, After) (rw (p, After) h)
      | inl (m, p) ↦ rw (q, After) (rw (p, After) (deferring-Keeps (act m) c f (k m) d h))
    ]

handle_ack-Keeps : KeepsOn P Command.ack handle_ack
unfolding handle_ack
handle_ack-Keeps c f e h =
    acknowledge-Keeps ack_subs c f
      (ack_subs-Keeps (λ c. Holds Deferred c.tx_store) (λ c l h. h) (λ c r h. unfold acked in h))
      (unfold one_of in ground (arith, e)) h

handle_nack-Keeps : KeepsOn P Command.nack handle_nack
unfolding handle_nack
handle_nack-Keeps c f e h =
    acknowledge-Keeps nack_subs c f
      (nack_subs-Keeps (λ c. Holds Deferred c.tx_store) (λ c l h. h) (λ c r h. unfold nacked in h))
      (unfold one_of in ground (arith, e)) h

handle_disconnect-Keeps : Keeps P handle_disconnect
unfolding handle_disconnect
handle_disconnect-Keeps c f h =
    let (w, n, g, r, q, _) = send_receipt-Receipts c f in rw (q, handle_disconnect, After) h

handle_begin-Keeps : Keeps P handle_begin
unfolding handle_begin
handle_begin-Keeps =
    bind-Keeps P (require Key.transaction) _ (require-Keeps P Key.transaction) λ tx.
      then-Keeps P send_receipt_immediately _ receipt-Keeps
        (λ c f h. begin-Holds Deferred c.tx_store tx h)

handle_abort-Keeps : Keeps P handle_abort
unfolding handle_abort
handle_abort-Keeps =
    bind-Keeps P (require Key.transaction) _ (require-Keeps P Key.transaction) λ tx.
      then-Keeps P send_receipt_immediately _ receipt-Keeps
        (λ c f h. abort-Holds Deferred c.tx_store tx h)

-- Whatever a commit runs, the store that it leaves is the one that it took, less what it ran.
commit_with-Keeps : (run : Handler (Unit {0})) (tx : Bytes) → Keeps P (commit_with run tx)
unfolding commit_with
commit_with-Keeps run tx c f h =
    elim (Result-cases (TxStore.commit c.tx_store tx (commit_func run) c)) [
      | inr (p, q) ↦ rw (q, After) tt
      | inl ((t, d, e), q) ↦
          rw (q, After)
            ((commit-Inv (λ (d : Conn). Unit {0}) Deferred (commit_func run) (λ s s' f e i k x. tt)
              c.tx_store tx c t d e tt h q).1)
    ]

handle_commit-Keeps : (run : Handler (Unit {0})) → Keeps P (handle_commit run)
unfolding handle_commit
handle_commit-Keeps run =
    bind-Keeps P (require Key.transaction) _ (require-Keeps P Key.transaction)
      λ tx. then-Keeps P send_receipt_immediately _ receipt-Keeps (commit_with-Keeps run tx)

handle_unsubscribe-Keeps : Keeps P handle_unsubscribe
unfolding handle_unsubscribe
handle_unsubscribe-Keeps =
    bind-Keeps P (require Key.id) _ (require-Keeps P Key.id) λ id c f h. ground (arith, h)

not_there-Keeps : (o : Option ℕ) → Keeps P (not_there o)
unfolding not_there
not_there-Keeps none c f h = h
not_there-Keeps (some r) c f h = h

insert_sub-Keeps :
    (id : Bytes) (s : Subscription) (m : Option (Map ℕ)) → Keeps P (insert_sub id s m)
unfolding insert_sub
insert_sub-Keeps id s none c f h = tt
insert_sub-Keeps id s (some m) c f h = h

handle_subscribe-Keeps : Keeps P handle_subscribe
unfolding handle_subscribe
handle_subscribe-Keeps = bind-Keeps P (require Key.id) _ (require-Keeps P Key.id) λ id.
    bind-Keeps P (require Key.destination) _ (require-Keeps P Key.destination) λ dest.
      bind-Keeps P (entry Key.ack) _ (entry-Keeps P Key.ack) λ ack.
        bind-Keeps P (λ c f. ok (c, f, ok (lookup_sub c.subs id))) _ (λ c f h. h)
          λ old. then-Keeps P (not_there old) _ (not_there-Keeps old) λ c f h.
            insert_sub-Keeps id (new_subscription c.number dest id (or_auto ack)) c.subs c f h

connected_func-Keeps : Keeps P connected_func
unfolding connected_func
connected_func-Keeps = connected_with-Keeps P _ (record {
  disconnects = handle_disconnect-Keeps;
  begins = handle_begin-Keeps;
  aborts = handle_abort-Keeps;
  commits = handle_commit-Keeps _;
  subscribes = handle_subscribe-Keeps;
  unsubscribes = handle_unsubscribe-Keeps;
  sends = handle_send-Keeps;
  acks = handle_ack-Keeps;
  nacks = handle_nack-Keeps;
})

connecting_func-Keeps : (cfg : Config) → Keeps P (connecting_func cfg)
unfolding connecting_func
connecting_func-Keeps cfg =
    if-Keeps P (λ f. same f.command Command.connect || same f.command Command.stomp_connect)
      (handle_connect cfg) (fail not_connected)
      (λ c f h. elim (Result-cases (handle_connect cfg c f)) [
        | inr (p, q) ↦ rw q tt
        | inl ((c', f', r), q) ↦
            rw q (subst (Holds Deferred) ((handle_connect-Kept cfg c c' f f' r q).1) h)
      ])
      (λ c f h. h)

run_in-Keeps : (s : StateFunc) (cfg : Config) → Keeps P (run_in s cfg)
unfolding run_in
run_in-Keeps connecting cfg = connecting_func-Keeps cfg
run_in-Keeps connected cfg = connected_func-Keeps

-- Whatever frame a client sends, in whichever state its connection is, and whether the frame is
-- accepted or refused, if there is no panic: when the frames in its open transactions are all SEND,
-- ACK or NACK frames without a transaction entry and without a receipt entry, they are so
-- afterwards.
pub run_state_func-Deferred :
    (cfg : Config) (c c' : Conn) (f f' : Frame) (r : Result ClientError (Unit {0}))
    → Holds Deferred c.tx_store
    → run_state_func cfg c f ≡ ok (c', f', r)
    → Holds Deferred c'.tx_store
unfolding run_state_func
run_state_func-Deferred cfg c c' f f' r h e = rw e at (run_in-Keeps c.state_func cfg c f h)
