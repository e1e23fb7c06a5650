-- ===== src/Server/Conn/Loop.antt =====
-- The processing loop of server/client/conn.go, one event at a time, and the clean-up behind it.
pub mod Cleanup
pub mod Delivery
use stomp.Prelude.{
  ℕ, ◌+◌, ◌%◌, ◌^◌, Bool, true, false, List, [], ◌∷◌, ◌++◌, Option, none, some, same, if◌then◌else◌,
  ◌||◌,
}
use stomp.Go.Result.{ok, err, ◌>>=◌}
use stomp.Go.Number.{format_uint}
use stomp.Go.Map.{Map}
use stomp.Frame.Command
use stomp.Frame.Key
use stomp.Frame.Header.{Bytes, contains}
use stomp.Frame.Base.{Frame, new, set, del}
use stomp.Server.ClientError.{ClientError, error_text}
use stomp.Server.Panic.{nil_frame, OrPanic}
use stomp.Server.Subscription.{Subscription, store}
use stomp.Server.SubscriptionList
use stomp.Server.TxStore
use stomp.Server.Conn.State.{
  Request, subscribe_op, unsubscribe_op, requeue_op, disconnected_op, Config, Conn, write,
}
use stomp.Server.Conn.Subscribe.{lookup_sub}
use stomp.Server.Conn.Dispatch.{run_state_func}

-- An event's outcome: the connection, and whether the loop goes on.
abbrev pub Turn : Type 0
Turn = Conn × Bool

-- The frame that `sendErrorImmediately` sends.
unfoldable pub error_frame : Bytes → Option Bytes → Frame
error_frame text none = new Command.error ((Key.message, text) ∷ [])
error_frame text (some receipt) =
    new Command.error ((Key.message, text) ∷ (Key.receipt_id, receipt) ∷ [])

-- `sendErrorImmediately`, about the frame `f`; what becomes of the write is ignored.
unfoldable pub send_error_immediately : Config → Conn → ClientError → Frame → Conn
unfolding error_frame
send_error_immediately cfg c e f =
    (write c (
      some
        (error_frame (error_text cfg.quote cfg.network_text e) (contains f.header Key.receipt)))).0

-- `allocateMessageId`; `wants_ack` is false for a nil subscription and for one of ack mode auto.
unfoldable pub allocate_message_id : Conn → Frame → Bool → Conn × Frame
allocate_message_id c f wants_ack =
    if same f.command Command.message || same f.command Command.ack
    then (let n = (c.last_msg_id + 1) % 2 ^ 64 in
        let g = set (set f Key.message_id (format_uint n)) Key.id (format_uint n) in
        (
          record c { last_msg_id = n },
          if wants_ack then set g Key.ack (format_uint n) else del g Key.ack,
        ))
    else (c, f)

-- A frame from the write channel.
unfoldable pub on_write_channel : Conn → Frame → Turn
unfolding allocate_message_id write
on_write_channel c f =
    let a = allocate_message_id c f false in
    let w = write a.0 (some a.1) in
    (w.0, if w.1 then (if same (a.1).command Command.error then false else true) else false)

-- A frame from the read channel. The validator accepts it (validator.go).
unfoldable pub on_read_channel : Config → Conn → Frame → OrPanic Turn
unfolding send_error_immediately
on_read_channel cfg c f = elim (run_state_func cfg c f) [
  | err p ↦ err p
  | ok (c', f', ok _) ↦ ok (c', true)
  | ok (c', f', err e) ↦ ok (send_error_immediately cfg c' e f', false)
]

-- The subscription after its frame was written.
unfoldable pub after_write : Conn → ℕ → Bool → OrPanic Turn
after_write c r true = ok (
  record c {
    heap = store c.heap r (record (c.heap r) { frame = none });
    requests = c.requests ++ subscribe_op r ∷ [];
  },
  true,
)
after_write c r false = do
  x ← SubscriptionList.add c.heap c.sub_list r
  ok (record c { heap = x.0; sub_list = x.1 }, true)

unfoldable pub is_auto : Subscription → Bool
is_auto s = same s.ack Key.ack_auto

-- A subscription that is known, with the frame that it carries. The headers are set in the frame
-- that the subscription points to.
unfoldable pub deliver : Conn → ℕ → Option Frame → OrPanic Turn
unfolding allocate_message_id after_write is_auto write
deliver c r none = err nil_frame
deliver c r (some f) =
    let auto = is_auto (c.heap r) in
    let a = allocate_message_id c f (if auto then false else true) in
    let kept = record (a.0) {
      heap = store (a.0).heap r (record ((a.0).heap r) { frame = some a.1 });
    } in
    let w = write kept (some a.1) in
    elim w.1 [ false ↦ ok (w.0, false) | true ↦ after_write w.0 r auto ]

-- A subscription from the subscription channel; if its id is not known any more, its frame goes back.
unfoldable pub sub_by : Conn → ℕ → Option ℕ → OrPanic Turn
unfolding deliver
sub_by c r (some _) = deliver c r (c.heap r).frame
sub_by c r none =
    ok (record c { requests = c.requests ++ requeue_op ((c.heap r).frame) ∷ [] }, true)

unfoldable pub on_sub_channel : Conn → ℕ → OrPanic Turn
unfolding sub_by
on_sub_channel c r = sub_by c r (lookup_sub c.subs (c.heap r).id)

-- The heart-beat timer.
unfoldable pub on_timer : Conn → Turn
unfolding write
on_timer c = write c none

-- The parts of `cleanupConn`. Go ranges over the map in any order; this is the order of the list.
unsubscribe_all : Option (Map ℕ) → List Request
unsubscribe_all none = []
unsubscribe_all (some []) = []
unsubscribe_all (some ((id, r) ∷ m)) = unsubscribe_op r ∷ unsubscribe_all (some m)

-- The loop over `subList.Get()`.
unfoldable pub requeue_list : Conn → List ℕ → Conn
requeue_list c [] = record c { sub_list = [] }
requeue_list c (r ∷ l) =
    requeue_list
      (record c {
        heap = SubscriptionList.mark c.heap r false;
        requests = c.requests ++ requeue_op ((c.heap r).frame) ∷ [];
      })
      l

-- `cleanupSubChannel`, over what the channel holds.
unfoldable pub cleanup_sub_channel : Conn → List ℕ → Conn
cleanup_sub_channel c [] = c
cleanup_sub_channel c (r ∷ l) =
    cleanup_sub_channel (record c { requests = c.requests ++ requeue_op ((c.heap r).frame) ∷ [] }) l

-- `cleanupConn`. The subscription channel is emptied twice; `pending` and `late` are what it holds.
-- The frames on the write channel are dropped.
unfoldable pub cleanup_conn : Conn → List ℕ → List ℕ → Conn
unfolding unsubscribe_all requeue_list cleanup_sub_channel
cleanup_conn c pending late =
    let told = record c {
      tx_store = TxStore.init c.tx_store;
      requests = c.requests ++ unsubscribe_all c.subs;
      subs = none;
    } in
    let emptied = cleanup_sub_channel (requeue_list told told.sub_list) pending in
    let left = record emptied {
      requests = emptied.requests ++ disconnected_op emptied.number ∷ [];
    } in
    cleanup_sub_channel left late
