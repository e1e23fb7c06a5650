-- ===== src/Server/Conn/Transact.antt =====
-- `handleBegin`, `handleAbort` and `handleCommit` of server/client/conn.go.
use stomp.Prelude.{Option, none, some}
use stomp.Go.Result.{Result, ok, err}
use stomp.Frame.Key
use stomp.Frame.Header.{Bytes}
use stomp.Frame.Base.{Frame}
use stomp.Server.ClientError.{ClientError}
use stomp.Server.Panic.{OrPanic}
use stomp.Server.TxStore
use stomp.Server.TxStore.{TxStore}
use stomp.Server.Conn.State.{Conn, Handler, ◌>>=◌, ◌>>◌, require, error_of}
use stomp.Server.Conn.Send.{send_receipt_immediately}

-- A method of the transaction store, with its error.
on_tx_store : (TxStore → TxStore × Option ClientError) → Handler (Unit {0})
on_tx_store m c f = let x = m c.tx_store in ok (record c { tx_store = x.0 }, f, error_of x.1)

unfoldable pub handle_begin : Handler (Unit {0})
unfolding send_receipt_immediately on_tx_store
handle_begin = do
  transaction ← require Key.transaction
  send_receipt_immediately
  on_tx_store (λ t. TxStore.begin t transaction)

unfoldable pub handle_abort : Handler (Unit {0})
unfolding send_receipt_immediately on_tx_store
handle_abort = do
  transaction ← require Key.transaction
  send_receipt_immediately
  on_tx_store (λ t. TxStore.abort t transaction)

-- The callback that `handleCommit` passes: the state function on a frame of the transaction.
abbrev as_option : Result ClientError (Unit {0}) → Option ClientError
as_option (ok _) = none
as_option (err e) = some e

abbrev pub commit_func : Handler (Unit {0}) → Conn → Frame → OrPanic (Conn × Option ClientError)
commit_func run c g = elim (run c g) [ err p ↦ err p | ok (c', g', r) ↦ ok (c', as_option r) ]

unfoldable pub commit_with : Handler (Unit {0}) → Bytes → Handler (Unit {0})
commit_with run transaction c f = elim (TxStore.commit c.tx_store transaction (commit_func run) c) [
  | err p ↦ err p
  | ok (t, c', e) ↦ ok (record c' { tx_store = t }, f, error_of e)
]

unfoldable pub handle_commit : Handler (Unit {0}) → Handler (Unit {0})
unfolding send_receipt_immediately commit_with
handle_commit run = do
  transaction ← require Key.transaction
  send_receipt_immediately
  commit_with run transaction
