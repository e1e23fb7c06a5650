-- ===== src/Server/Subscription.antt =====
-- server/client/subscription.go. Subscriptions are shared by pointer between a connection, its list
-- of unacknowledged subscriptions and the queues and topics, so they stand on a heap.
pub mod Laws
use stomp.Prelude.{ℕ, ◌≡◌, Bool, true, false, Option, none, some, leb, ◌==◌, same, if◌then◌else◌}
use stomp.Go.Result.{ok, err, ◌>>=◌}
use stomp.Frame.Key
use stomp.Frame.Header.{Bytes}
use stomp.Frame.Base.{Frame, set}
use stomp.Server.Panic.{Panic, frame_pending, invalid_ack, OrPanic}

-- `conn` names the connection; `in_list` is `subList != nil`, all that the code asks of `subList`.
pub record Subscription : Type 0 where
  pub conn : ℕ
  pub dest : Bytes
  pub id : Bytes
  pub ack : Bytes
  pub msg_id : ℕ
  pub in_list : Bool
  pub frame : Option Frame

unfoldable pub new_subscription : ℕ → Bytes → Bytes → Bytes → Subscription
new_subscription conn dest id ack = record {
  conn = conn;
  dest = dest;
  id = id;
  ack = ack;
  msg_id = 0;
  in_list = false;
  frame = none;
}

-- What the pointers point to.
abbrev pub Heap : Type 0
Heap = ℕ → Subscription

unfoldable pub store : Heap → ℕ → Subscription → Heap
store h r s q = if q == r then s else h q

unfoldable pub is_acked_by : Subscription → ℕ → OrPanic Bool
is_acked_by s msg_id =
    if same s.ack Key.ack_auto
    then ok true
    else if same s.ack Key.ack_client
    then ok (leb s.msg_id msg_id)
    else if same s.ack Key.ack_client_individual
    then ok (msg_id == s.msg_id)
    else err invalid_ack

unfoldable pub is_nacked_by : Subscription → ℕ → Bool
is_nacked_by s msg_id = msg_id == s.msg_id

abbrev header_set : Subscription → Option Frame → Frame → OrPanic Frame
header_set s none f = ok (set f Key.subscription s.id)
header_set s (some pending) f = err frame_pending

unfoldable pub set_subscription_header : Subscription → Frame → OrPanic Frame
set_subscription_header s f = header_set s s.frame f
