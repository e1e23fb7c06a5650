-- ===== src/Server/Conn/Send.antt =====
-- `sendReceiptImmediately` of server/client/conn.go, and what a transaction defers.
use stomp.Prelude.{[], ◌∷◌, Option, none, some}
use stomp.Go.Result.{ok}
use stomp.Frame.Command
use stomp.Frame.Key
use stomp.Frame.Header.{Bytes}
use stomp.Frame.Base.{new, del}
use stomp.Server.TxStore
use stomp.Server.TxStore.{TxStore}
use stomp.Server.Conn.State.{Handler, ◌>>=◌, done, entry, error_of, send_immediately}

-- `sendReceiptImmediately`: the receipt entry leaves the frame, and a RECEIPT frame is sent.
receipt_for : Option Bytes → Handler (Unit {0})
receipt_for none c f = done c f
receipt_for (some receipt) c f =
    send_immediately (new Command.receipt ((Key.receipt_id, receipt) ∷ [])) c (del f Key.receipt)

unfoldable pub send_receipt_immediately : Handler (Unit {0})
unfolding receipt_for send_immediately
send_receipt_immediately = entry Key.receipt >>= receipt_for

-- `Add`, on the frame itself.
add_to_tx : Bytes → Handler (Unit {0})
add_to_tx tx c f =
    let x = TxStore.add c.tx_store tx f in ok (record c { tx_store = x.0 }, x.1, error_of x.2)

-- In a transaction the frame is put by, outside of one it is acted upon.
unfoldable pub in_transaction : Handler (Unit {0}) → Option Bytes → Handler (Unit {0})
unfolding add_to_tx
in_transaction act (some tx) = add_to_tx tx
in_transaction act none = act
