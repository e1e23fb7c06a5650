-- ===== src/Client/Transaction/Tagged.antt =====
-- transaction.go: what a transaction sends, and that a completed one does nothing.
use stomp.Prelude.{
  ℕ, ◌≡◌, ◌⊎◌, inl, inr, refl, ◌∙◌, Bool, true, false, List, [], ◌∷◌, ◌++◌, Option, none, some,
  same, arith, if◌then◌else◌,
}
use stomp.Go.Result.{Result, ok, err}
use stomp.Frame.Command
use stomp.Frame.Key
use stomp.Frame.Header.{Bytes, contains}
use stomp.Frame.Header.Laws.{contains-set}
use stomp.Frame.Base.{Frame, new, set}
use stomp.Client.Error.{Error, completed_transaction}
use stomp.Client.Connect.{WriteRequest}
use stomp.Client.Calls.{
  Client, Env, Outcome, returns, waits, send_on_closed, nil_frame, bad_mode, on_return, send_frame,
}
use stomp.Client.Calls.Queues.{Queues, send_frame-Queues}
use stomp.Client.Transaction.{
  Transaction, complete_on, with_receipt, finish, abort, commit, send_made, send, acknowledge, ack,
  nack, TxCall, abort_call, commit_call, send_call, ack_call, nack_call, tx_perform,
}

-- A call that returns has put nothing on the write channel, or one request, behind the others, whose
-- frame is in the transaction; `w` is what stood there.
abbrev pub Tags : {A : Type 0} → Bytes → List WriteRequest → Outcome A → Type 0
Tags id w (returns x d) =
    (d.conn.write_ch ≡ w)
    ⊎ ((req : WriteRequest) × (d.conn.write_ch ≡ w ++ req ∷ [])
        × (contains req.frame.header Key.transaction ≡ some id))
Tags id w waits = Unit {0}
Tags id w send_on_closed = Unit {0}
Tags id w nil_frame = Unit {0}
Tags id w bad_mode = Unit {0}

Tags-Queues :
    {A : Type 0} (id : Bytes) (f : Frame) (w : List WriteRequest) (x : Outcome A)
    → contains f.header Key.transaction ≡ some id
    → Queues f w x
    → Tags id w x
Tags-Queues id f w (returns x d) h (inl e) = inl e
Tags-Queues id f w (returns x d) h (inr (ch, e)) = inr (record { frame = f; chan = ch }, e, h)
Tags-Queues id f w waits h k = tt
Tags-Queues id f w send_on_closed h k = tt
Tags-Queues id f w nil_frame h k = tt
Tags-Queues id f w bad_mode h k = tt

Tags-if :
    {A : Type 0} (id : Bytes) (w : List WriteRequest) (b : Bool) (x y : Outcome A)
    → Tags id w x
    → Tags id w y
    → Tags id w (if b then x else y)
Tags-if id w true x y h k = h
Tags-if id w false x y h k = k

Tags-on_return :
    {A B : Type 0} (g : A → B) (id : Bytes) (w : List WriteRequest) (x : Outcome A)
    → Tags id w x
    → Tags id w (on_return g x)
unfolding on_return
Tags-on_return g id w (returns x c) h = h
Tags-on_return g id w waits h = tt
Tags-on_return g id w send_on_closed h = tt
Tags-on_return g id w nil_frame h = tt
Tags-on_return g id w bad_mode h = tt

send_frame-Tags :
    (id : Bytes) (f : Frame) (env : Env) (c : Client)
    → contains f.header Key.transaction ≡ some id
    → Tags id c.conn.write_ch (send_frame f env c)
send_frame-Tags id f env c h = Tags-Queues id f _ _ h (send_frame-Queues f env c)

tagged :
    (f : Frame) (id : Bytes) → contains (set f Key.transaction id).header Key.transaction ≡ some id
unfolding same
tagged f id = contains-set f.header Key.transaction id Key.transaction

with_receipt-tagged :
    (receipt : Bool) (f : Frame) (id : Bytes) (last : ℕ)
    → contains f.header Key.transaction ≡ some id
    → contains (with_receipt receipt f last).0.header Key.transaction ≡ some id
unfolding with_receipt same
with_receipt-tagged true f id last h = contains-set f.header Key.receipt _ Key.transaction ∙ h
with_receipt-tagged false f id last h = h

finish-Tags :
    (f : Frame) (receipt : Bool) (tx : Transaction) (env : Env) (c : Client)
    → contains f.header Key.transaction ≡ some tx.id
    → Tags tx.id c.conn.write_ch (finish f receipt tx env c)
unfolding finish
finish-Tags f receipt tx env c h = Tags-on_return (complete_on tx) tx.id c.conn.write_ch _ (
    send_frame-Tags tx.id (with_receipt receipt f c.last_id).0 env
      (record c { last_id = (with_receipt receipt f c.last_id).1 })
      (with_receipt-tagged receipt f tx.id c.last_id h))

send_made-Tags :
    (x : Result Error Frame × ℕ) (tx : Transaction) (env : Env) (c : Client)
    → Tags tx.id c.conn.write_ch (send_made x tx env c)
unfolding send_made
send_made-Tags (err e, last) tx env c = inl refl
send_made-Tags (ok f, last) tx env c =
    send_frame-Tags tx.id (set f Key.transaction tx.id) env (record c { last_id = last })
      (tagged f tx.id)

acknowledge-Tags :
    (x : Result Error (Option Frame)) (tx : Transaction) (env : Env) (c : Client)
    → Tags tx.id c.conn.write_ch (acknowledge x tx env c)
unfolding acknowledge
acknowledge-Tags (err e) tx env c = inl refl
acknowledge-Tags (ok none) tx env c = inl refl
acknowledge-Tags (ok (some f)) tx env c =
    send_frame-Tags tx.id (set f Key.transaction tx.id) env c (tagged f tx.id)

new_tagged :
    (command id : Bytes)
    → contains (new command ((Key.transaction, id) ∷ [])).header Key.transaction ≡ some id
unfolding new contains same
new_tagged command id = refl

-- Whatever call of a transaction returns has put nothing on the write channel, or one request, behind
-- the others, whose frame carries the id of the transaction.
pub tx_perform-Tags :
    (k : TxCall) (tx : Transaction) (env : Env) (c : Client)
    → Tags tx.id c.conn.write_ch (tx_perform k tx env c)
unfolding tx_perform abort commit send ack nack
tx_perform-Tags (abort_call receipt) tx env c =
    Tags-if tx.id _ tx.completed _ _ (inl refl)
      (finish-Tags _ receipt tx env c (new_tagged Command.abort tx.id))
tx_perform-Tags (commit_call receipt) tx env c =
    Tags-if tx.id _ tx.completed _ _ (inl refl)
      (finish-Tags _ receipt tx env c (new_tagged Command.commit tx.id))
tx_perform-Tags (send_call destination content_type body opts) tx env c =
    Tags-on_return _ tx.id _ _
      (Tags-if tx.id _ tx.completed _ _ (inl refl) (send_made-Tags _ tx env c))
tx_perform-Tags (ack_call m) tx env c =
    Tags-on_return _ tx.id _ _
      (Tags-if tx.id _ tx.completed _ _ (inl refl) (acknowledge-Tags _ tx env c))
tx_perform-Tags (nack_call m) tx env c =
    Tags-on_return _ tx.id _ _
      (Tags-if tx.id _ tx.completed _ _ (inl refl) (acknowledge-Tags _ tx env c))

-- Every call of a completed transaction returns its error at once, sends nothing and changes nothing.
pub tx_perform-completed :
    (k : TxCall) (tx : Transaction) (env : Env) (c : Client)
    → tx.completed ≡ true
    → tx_perform k tx env c ≡ returns (some completed_transaction, tx) c
unfolding tx_perform abort commit send ack nack on_return
tx_perform-completed (abort_call receipt) tx env c h = ground (arith, h)
tx_perform-completed (commit_call receipt) tx env c h = ground (arith, h)
tx_perform-completed (send_call destination content_type body opts) tx env c h = ground (arith, h)
tx_perform-completed (ack_call m) tx env c h = ground (arith, h)
tx_perform-completed (nack_call m) tx env c h = ground (arith, h)
