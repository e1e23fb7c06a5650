-- ===== src/Client/Transaction.antt =====
-- transaction.go: the calls of a `Transaction`.
use stomp.Prelude.{ℕ, Bool, true, false, List, [], ◌∷◌, Option, none, some, if◌then◌else◌}
use stomp.Go.Result.{Result, ok, err}
use stomp.Frame.Command
use stomp.Frame.Key
use stomp.Frame.Header.{Bytes}
use stomp.Frame.Base.{Frame, new, set}
use stomp.Client.Error.{Error, completed_transaction}
use stomp.Client.Id.{allocate_id}
use stomp.Client.Message.{Message}
use stomp.Client.Frames.{FrameOpt, create_send_frame, create_ack_nack_frame}
use stomp.Client.Calls.{Client, Env, Outcome, returns, on_return, Err, send_frame}
pub mod Tagged

pub record Transaction : Type 0 where
  pub id : Bytes
  pub completed : Bool

complete_on : Transaction → Err → Err × Transaction
complete_on tx none = (none, record tx { completed = true })
complete_on tx (some e) = (some e, tx)

-- The receipt entry of `abort` and `commit`, where one is wanted.
with_receipt : Bool → Frame → ℕ → Frame × ℕ
with_receipt true f last = let id = allocate_id last in (set f Key.receipt id.0, id.1)
with_receipt false f last = (f, last)

-- `abort` and `commit` behind the test.
finish : Frame → Bool → Transaction → Env → Client → Outcome (Err × Transaction)
unfolding with_receipt on_return complete_on
finish f receipt tx env c =
    let x = with_receipt receipt f c.last_id in
    on_return (complete_on tx) (send_frame x.0 env (record c { last_id = x.1 }))

unfoldable pub abort : Bool → Transaction → Env → Client → Outcome (Err × Transaction)
unfolding finish
abort receipt tx env c =
    if tx.completed
    then returns (some completed_transaction, tx) c
    else finish (new Command.abort ((Key.transaction, tx.id) ∷ [])) receipt tx env c

unfoldable pub commit : Bool → Transaction → Env → Client → Outcome (Err × Transaction)
unfolding finish
commit receipt tx env c =
    if tx.completed
    then returns (some completed_transaction, tx) c
    else finish (new Command.commit ((Key.transaction, tx.id) ∷ [])) receipt tx env c

-- `Send` behind the frame.
send_made : Result Error Frame × ℕ → Transaction → Env → Client → Outcome Err
send_made (err e, last) tx env c = returns (some e) (record c { last_id = last })
send_made (ok f, last) tx env c =
    send_frame (set f Key.transaction tx.id) env (record c { last_id = last })

unfoldable pub send :
    Bytes → Bytes → Bytes → List (Option FrameOpt) → Transaction → Env → Client → Outcome Err
unfolding send_made
send destination content_type body opts tx env c =
    if tx.completed
    then returns (some completed_transaction) c
    else send_made (create_send_frame destination content_type body opts c.last_id) tx env c

-- `Ack` and `Nack` behind the frame.
acknowledge : Result Error (Option Frame) → Transaction → Env → Client → Outcome Err
acknowledge (err e) tx env c = returns (some e) c
acknowledge (ok none) tx env c = returns none c
acknowledge (ok (some f)) tx env c = send_frame (set f Key.transaction tx.id) env c

unfoldable pub ack : Message → Transaction → Env → Client → Outcome Err
unfolding acknowledge
ack m tx env c =
    if tx.completed
    then returns (some completed_transaction) c
    else acknowledge (create_ack_nack_frame c.conn.version m true) tx env c

unfoldable pub nack : Message → Transaction → Env → Client → Outcome Err
unfolding acknowledge
nack m tx env c =
    if tx.completed
    then returns (some completed_transaction) c
    else acknowledge (create_ack_nack_frame c.conn.version m false) tx env c

-- The calls of a transaction, each with its error and the transaction behind it; the flag tells whether a
-- receipt is wanted.
pub data TxCall : Type 0 where
  abort_call commit_call : Bool → TxCall
  send_call : Bytes → Bytes → Bytes → List (Option FrameOpt) → TxCall
  ack_call nack_call : Message → TxCall

unfoldable pub tx_perform : TxCall → Transaction → Env → Client → Outcome (Err × Transaction)
unfolding abort commit send ack nack on_return
tx_perform (abort_call receipt) tx env c = abort receipt tx env c
tx_perform (commit_call receipt) tx env c = commit receipt tx env c
tx_perform (send_call destination content_type body opts) tx env c =
    on_return (λ e. (e, tx)) (send destination content_type body opts tx env c)
tx_perform (ack_call m) tx env c = on_return (λ e. (e, tx)) (ack m tx env c)
tx_perform (nack_call m) tx env c = on_return (λ e. (e, tx)) (nack m tx env c)
