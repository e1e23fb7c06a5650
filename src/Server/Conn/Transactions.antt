-- ===== src/Server/Conn/Transactions.antt =====
-- The frames that a connection keeps in its transactions, and what running them does.
pub mod Steps
use stomp.Prelude.{
  ℕ, ◌≡◌, ◌∙◌, sym, subst, refl, Bool, true, List, [], ◌∷◌, none, same, one_of, one_of_inv, arith,
  inl, inr, All,
}
use stomp.Go.Result.{Result, ok, err, Result-cases}
use stomp.Frame.Command
use stomp.Frame.Key
use stomp.Frame.Header.{Bytes, contains}
use stomp.Frame.Base.{Frame}
use stomp.Server.ClientError.{ClientError}
use stomp.Server.Conn.State.{Conn, Handler, ◌>>=◌, ◌>>◌, entry}
use stomp.Server.Conn.Send.{send_receipt_immediately, in_transaction}
use stomp.Server.Conn.Ack.{
  acked, nacked, acked_msg_id, ack_subs, nack_subs, handle_ack, handle_nack, enqueue_message,
  handle_send,
}
use stomp.Server.Conn.Keeps.{After, Keeps, acked_msg_id-Reads}
use stomp.Server.Conn.Keeps.Acks.{ack_subs-Keeps, nack_subs-Keeps}
use stomp.Server.Conn.Dispatch.{connected_with}

abbrev pub deferrable : List Bytes
deferrable = Command.send ∷ Command.ack ∷ Command.nack ∷ []

-- A frame as a transaction holds it: of a command that may be deferred, and without the entries that
-- made it wait and that asked for a receipt.
pub record Deferred (f : Frame) : Type 0 where
  pub command : one_of f.command deferrable ≡ true
  pub no_transaction : contains f.header Key.transaction ≡ none
  pub no_receipt : contains f.header Key.receipt ≡ none

-- The transactions and the network are as they were in `c`.
abbrev pub Apart : Conn → Conn → Type 0
Apart c d = (d.tx_store ≡ c.tx_store) × (d.written ≡ c.written)

pub send_receipt_immediately-none :
    (c : Conn) (f : Frame)
    → contains f.header Key.receipt ≡ none
    → send_receipt_immediately c f ≡ ok (c, f, ok tt)
unfolding send_receipt_immediately
send_receipt_immediately-none c f e = rw e refl

-- Running a deferred frame.
module _ (c : Conn) (f : Frame) (d : Deferred f) where
  handle_send-Apart : After (λ c' f'. Apart c c') (handle_send c f)
  unfolding handle_send in_transaction enqueue_message
  handle_send-Apart =
      rw (send_receipt_immediately-none c f d.no_receipt, After)
        (rw (d.no_transaction, After) (refl, refl))

  acknowledge-Apart :
      (act : ℕ → Handler (Unit {0}))
      → ((m : ℕ) → After (λ c' f'. Apart c c') (act m c f))
      → After
          (λ c' f'. Apart c c')
          ((acked_msg_id >>= λ m.
              send_receipt_immediately
              >> (entry Key.transaction >>= λ tx. in_transaction (act m) tx))
            c f)
  unfolding in_transaction
  acknowledge-Apart act h =
      let (r, q) = acked_msg_id-Reads c f in
      elim (Result-cases r) [
        | inr (e, p) ↦ rw (q, After) (rw (p, After) (refl, refl))
        | inl (m, p) ↦
            rw (q, After)
              (rw (p, After)
                (rw (send_receipt_immediately-none c f d.no_receipt, After)
                  (rw (d.no_transaction, After) (h m))))
      ]

  handle_ack-Apart : After (λ c' f'. Apart c c') (handle_ack c f)
  unfolding handle_ack
  handle_ack-Apart =
      acknowledge-Apart ack_subs
        λ m. ack_subs-Keeps (Apart c) (λ c' l a. a) (λ c' r a. unfold acked in a) m c f (refl, refl)

  handle_nack-Apart : After (λ c' f'. Apart c c') (handle_nack c f)
  unfolding handle_nack
  handle_nack-Apart =
      acknowledge-Apart nack_subs λ m.
        nack_subs-Keeps (Apart c) (λ c' l a. a) (λ c' r a. unfold nacked in a) m c f (refl, refl)

-- Only the commit's own branch looks at the state function that a commit calls.
module _ (run : Handler (Unit {0})) (c : Conn) (f : Frame) where
  connected_with-send : f.command ≡ Command.send → connected_with run c f ≡ handle_send c f
  unfolding connected_with same one_of
  connected_with-send e = rw (e, connected_with) refl

  connected_with-ack : f.command ≡ Command.ack → connected_with run c f ≡ handle_ack c f
  unfolding connected_with same one_of
  connected_with-ack e = rw (e, connected_with) refl

  connected_with-nack : f.command ≡ Command.nack → connected_with run c f ≡ handle_nack c f
  unfolding connected_with same one_of
  connected_with-nack e = rw (e, connected_with) refl

-- What running a deferred frame comes to, with `run` or with any other state function for commits.
abbrev Runs : Handler (Unit {0}) → Handler (Unit {0}) → Conn → Frame → Type 0
Runs run other c f =
    (connected_with run c f ≡ connected_with other c f)
    × After (λ c' f'. Apart c c') (connected_with run c f)

connected_with-Runs :
    (run other : Handler (Unit {0})) (c : Conn) (f : Frame) → Deferred f → Runs run other c f
connected_with-Runs run other c f d =
    one_of_inv (λ s. f.command ≡ s → Runs run other c f) f.command deferrable
      (
        λ e. (
          connected_with-send run c f e ∙ sym (connected_with-send other c f e),
          subst (After (λ c' f'. Apart c c')) (sym (connected_with-send run c f e))
              (handle_send-Apart c f d),
        ),
        (
          λ e. (
            connected_with-ack run c f e ∙ sym (connected_with-ack other c f e),
            subst (After (λ c' f'. Apart c c')) (sym (connected_with-ack run c f e))
                (handle_ack-Apart c f d),
          ),
          (
            λ e. (
              connected_with-nack run c f e ∙ sym (connected_with-nack other c f e),
              subst (After (λ c' f'. Apart c c')) (sym (connected_with-nack run c f e))
                  (handle_nack-Apart c f d),
            ),
            tt,
          ),
        ),
      )
      d.command refl

-- A SEND, ACK or NACK frame without a transaction entry and without a receipt entry, if it is run
-- without a panic, leaves the transactions as they are and writes nothing to the client, and runs
-- the same with any other state function in place of the one that a commit calls.
pub connected_with-Deferred :
    (run other : Handler (Unit {0})) (c c' : Conn) (f f' : Frame)
    (r : Result ClientError (Unit {0}))
    → Deferred f
    → connected_with run c f ≡ ok (c', f', r)
    → (connected_with other c f ≡ ok (c', f', r))
      × (c'.tx_store ≡ c.tx_store)
      × (c'.written ≡ c.written)
connected_with-Deferred run other c c' f f' r d e =
    let (same_run, apart) = connected_with-Runs run other c f d in
    let (tx, wr) = rw e at apart in (sym same_run ∙ e, tx, wr)
