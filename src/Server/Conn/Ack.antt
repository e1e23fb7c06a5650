-- ===== src/Server/Conn/Ack.antt =====
-- `handleAck`, `handleNack` and `handleSend` of server/client/conn.go.
use stomp.Prelude.{ℕ, [], ◌∷◌, ◌++◌, Option, none, some}
use stomp.Go.Result.{Result, ok, err}
use stomp.Go.Number.{NumError, parse_uint}
use stomp.Frame.Command
use stomp.Frame.Key
use stomp.Frame.Header.{Bytes}
use stomp.Server.ClientError.{ClientError, number}
use stomp.Server.Panic.{OrPanic}
use stomp.Server.Subscription.{store}
use stomp.Server.SubscriptionList
use stomp.Server.SubscriptionList.{Subs}
use stomp.Server.Conn.State.{
  subscribe_op, enqueue_op, requeue_op, Conn, Handler, ◌>>=◌, ◌>>◌, give, lift, entry, require,
}
use stomp.Server.Conn.Send.{send_receipt_immediately, in_transaction}

-- The message id of an ACK or NACK frame: the ack entry, or else the message-id entry.
msg_id_of : Option Bytes → Handler Bytes
msg_id_of (some ack) = give ack
msg_id_of none = require Key.message_id

abbrev pub with_text : Bytes → Result NumError ℕ → Result ClientError ℕ
with_text s (ok n) = ok n
with_text s (err e) = err (number e s)

unfoldable pub acked_msg_id : Handler ℕ
unfolding msg_id_of
acked_msg_id = do
  ack ← entry Key.ack
  msg_id ← msg_id_of ack
  lift (with_text msg_id (parse_uint 64 msg_id))

-- The callback of `handleAck`.
unfoldable pub acked : Conn → ℕ → Conn
acked c r = record c {
  heap = store c.heap r (record (c.heap r) { frame = none });
  requests = c.requests ++ subscribe_op r ∷ [];
}

-- The callback of `handleNack`.
unfoldable pub nacked : Conn → ℕ → Conn
nacked c r = record c {
  heap = store c.heap r (record (c.heap r) { frame = none });
  requests = c.requests ++ requeue_op ((c.heap r).frame) ∷ subscribe_op r ∷ [];
}

swept : OrPanic (Subs × Conn) → Handler (Unit {0})
swept (err p) c f = err p
swept (ok (l, c')) c f = ok (record c' { sub_list = l }, f, ok tt)

unfoldable pub ack_subs : ℕ → Handler (Unit {0})
unfolding swept
ack_subs msg_id c f =
    swept (SubscriptionList.ack (λ (d : Conn). d.heap) c.sub_list msg_id acked c) c f

unfoldable pub nack_subs : ℕ → Handler (Unit {0})
unfolding swept
nack_subs msg_id c f =
    swept (SubscriptionList.nack (λ (d : Conn). d.heap) c.sub_list msg_id nacked c) c f

unfoldable pub handle_ack : Handler (Unit {0})
handle_ack = do
  msg_id ← acked_msg_id
  send_receipt_immediately
  tx ← entry Key.transaction
  in_transaction (ack_subs msg_id) tx

unfoldable pub handle_nack : Handler (Unit {0})
handle_nack = do
  msg_id ← acked_msg_id
  send_receipt_immediately
  tx ← entry Key.transaction
  in_transaction (nack_subs msg_id) tx

-- The SEND frame becomes a MESSAGE frame and goes to the upper layer.
unfoldable pub enqueue_message : Handler (Unit {0})
enqueue_message c f =
    let m = record f { command = Command.message } in
    ok (record c { requests = c.requests ++ enqueue_op (some m) ∷ [] }, m, ok tt)

unfoldable pub handle_send : Handler (Unit {0})
handle_send = do
  send_receipt_immediately
  tx ← entry Key.transaction
  in_transaction enqueue_message tx
