-- ===== src/Client/Calls.antt =====
-- The calls of a `Conn` that write to it, of conn.go: Send, Subscribe, Ack, Nack, Begin, Disconnect and
-- MustDisconnect, with what they wait for.
use stomp.Prelude.{
  ℕ, ◌≡◌, Bool, true, false, List, [], ◌∷◌, ◌++◌, Option, none, some, same, codes, ◌+◌,
  if◌then◌else◌,
}
use stomp.Go.Result.{Result, ok, err}
use stomp.Go.Int64.{Int64, less}
use stomp.Frame.Command
use stomp.Frame.Key
use stomp.Frame.Header.{Bytes, Header, contains, add}
use stomp.Frame.Base.{Frame, new, set}
use stomp.Client.Error.{
  Error, error, reading, outside, closed_unexpectedly, already_closed, msg_send_timeout,
  msg_receipt_timeout, disconnect_receipt_timeout, new_error,
}
use stomp.Client.AckMode.{AckMode}
use stomp.Client.AckMode
use stomp.Client.Id.{allocate_id}
use stomp.Client.Message.{Message, SubInfo}
use stomp.Client.Frames.{FrameOpt, apply_opts, create_send_frame, create_ack_nack_frame}
use stomp.Client.Connect.{ClientConn, WriteRequest}
use stomp.Client.Loop.{reply_to_header}
pub mod Closed
pub mod Outcomes
pub mod Queues
pub mod Channels

-- A connection, and the counter of ids of the process.
pub record Client : Type 0 where
  pub conn : ClientConn
  pub last_id : ℕ

-- What comes on the channel of a request: a frame, its end, or nothing.
pub data Answer : Type 0 where
  response : Frame → Answer
  ended silence : Answer

-- What a call meets: whether the write channel takes its request, the answer, and what `Close` of the
-- network connection returns.
pub record Env : Type 0 where
  pub takes : Bool
  pub answer : Answer
  pub close : Option Error

-- A call returns, waits for ever, or panics: on a closed channel, on the nil frame of a channel that has
-- ended, or on an ack mode that has no text.
pub data Outcome (A : Type 0) : Type 0 where
  returns : A → Client → Outcome A
  waits : Outcome A
  send_on_closed nil_frame bad_mode : Outcome A

-- The value of a call that returns.
unfoldable pub on_return : {A B : Type 0} → (A → B) → Outcome A → Outcome B
on_return g (returns x c) = returns (g x) c
on_return g waits = waits
on_return g send_on_closed = send_on_closed
on_return g nil_frame = nil_frame
on_return g bad_mode = bad_mode

-- `error` results: `none` is nil.
abbrev pub Err : Type 0
Err = Option Error

-- `==` on two errors, as it is used here: with one that has no frame.
unfoldable pub same_error : Error → Error → Bool
same_error (error msg none) (error msg' none) = same msg msg'
same_error (error msg none) (error msg' (some f)) = false
same_error (error msg (some f)) e = false
same_error (error msg none) (reading e) = false
same_error (error msg none) (outside s) = false
same_error (reading e) e' = false
same_error (outside s) e' = false

module _ {A : Type 0} where
  -- `c.writeCh <- request`, and then the rest.
  unfoldable pub put : WriteRequest → Bool → Client → (Client → Outcome A) → Outcome A
  put req takes c next =
      if c.conn.write_closed
      then send_on_closed
      else if takes
      then next (record c { conn = record c.conn { write_ch = c.conn.write_ch ++ req ∷ [] } })
      else waits

  -- `sendDataToWriteChWithTimeout`, and then the rest. With a timeout, a channel that does not take the
  -- request gives an error.
  unfoldable pub put_in_time :
      Int64 → WriteRequest → Bool → Client → (Err → Client → Outcome A) → Outcome A
  unfolding put
  put_in_time timeout req takes c next =
      if less 0 timeout
      then (if c.conn.write_closed
          then send_on_closed
          else if takes
          then put req takes c (next none)
          else next (some msg_send_timeout) c)
      else put req takes c (next none)

  -- `readReceiptWithTimeout`, and then the rest.
  unfoldable pub read_receipt :
      Int64 → Error → Answer → Client → (Err → Client → Outcome A) → Outcome A
  read_receipt timeout timeout_err (response f) c next =
      next (if same f.command Command.receipt then none else some (new_error f)) c
  read_receipt timeout timeout_err ended c next = nil_frame
  read_receipt timeout timeout_err silence c next =
      if less 0 timeout then next (some timeout_err) c else waits

  -- `make(chan *frame.Frame)`, and then the rest.
  unfoldable pub make_chan : Client → (ℕ → Client → Outcome A) → Outcome A
  make_chan c next =
      next c.conn.next_chan (record c { conn = record c.conn { next_chan = c.conn.next_chan + 1 } })

-- `c.conn.Close()`; what it returns is in the call's `Env`.
unfoldable pub close_net : Client → Client
close_net c = record c { conn = record c.conn { net_closed = c.conn.net_closed + 1 } }

-- `c.closed = true`, and `c.conn.Close()`.
unfoldable pub shut : Client → Client
unfolding close_net
shut c = close_net (record c { conn = record c.conn { closed = true } })

-- `Disconnect` behind the receipt.
after_receipt : Env → Err → Client → Outcome Err
unfolding shut same_error
after_receipt env none c = returns env.close (shut c)
after_receipt env (some e) c =
    returns (some e) (if same_error e disconnect_receipt_timeout then shut c else c)

disconnect_reply : Env → Client → Outcome Err
unfolding read_receipt after_receipt
disconnect_reply env c =
    read_receipt c.conn.disconnect_receipt_timeout disconnect_receipt_timeout env.answer c
      (after_receipt env)

-- `Disconnect` on its channel.
disconnect_on : Env → ℕ → Client → Outcome Err
unfolding put disconnect_reply
disconnect_on env ch c =
    let id = allocate_id c.last_id in
    let req : WriteRequest = record {
      frame = new Command.disconnect ((Key.receipt, id.0) ∷ []);
      chan = some ch;
    } in
    put req env.takes (record c { last_id = id.1 }) (disconnect_reply env)

unfoldable pub disconnect : Env → Client → Outcome Err
unfolding make_chan disconnect_on
disconnect env c = if c.conn.closed then returns none c else make_chan c (disconnect_on env)

-- `MustDisconnect`, but for what it returns.
unfoldable pub must_disconnect : Client → Client
unfolding shut
must_disconnect c =
    if c.conn.closed then c else shut (record c { conn = record c.conn { write_closed = true } })

-- What processLoop does to the connection on an ERROR frame.
unfoldable pub error_received : Client → Client
unfolding shut
error_received c = shut c

-- `Send` behind the request.
send_reply : Env → Err → Client → Outcome Err
unfolding read_receipt
send_reply env (some e) c = returns (some e) c
send_reply env none c =
    read_receipt c.conn.rcv_receipt_timeout msg_receipt_timeout env.answer c returns

send_on_chan : Env → Frame → ℕ → Client → Outcome Err
unfolding put_in_time send_reply
send_on_chan env f ch c =
    put_in_time c.conn.msg_send_timeout (record { frame = f; chan = some ch }) env.takes c
      (send_reply env)

-- `Send` behind the frame: with a receipt entry, or without.
send_made : Env → Frame → Option Bytes → Client → Outcome Err
unfolding make_chan put_in_time send_on_chan
send_made env f (some receipt) c = make_chan c (send_on_chan env f)
send_made env f none c =
    put_in_time c.conn.msg_send_timeout (record { frame = f; chan = none }) env.takes c returns

send_created : Result Error Frame × ℕ → Env → Client → Outcome Err
unfolding send_made
send_created (err e, last) env c = returns (some e) (record c { last_id = last })
send_created (ok f, last) env c =
    send_made env f (contains f.header Key.receipt) (record c { last_id = last })

unfoldable pub send : Bytes → Bytes → Bytes → List (Option FrameOpt) → Env → Client → Outcome Err
unfolding send_created
send destination content_type body opts env c =
    if c.conn.closed
    then returns (some already_closed) c
    else send_created (create_send_frame destination content_type body opts c.last_id) env c

-- The response of `sendFrame`, whose wait ends with the write timeout of the connection.
frame_response : Answer → Client → Outcome Err
frame_response (response f) c =
    returns (if same f.command Command.receipt then none else some (new_error f)) c
frame_response ended c = returns (some closed_unexpectedly) c
frame_response silence c =
    if less 0 c.conn.write_timeout then returns (some closed_unexpectedly) c else waits

frame_on_chan : Env → Frame → ℕ → Client → Outcome Err
unfolding put frame_response
frame_on_chan env f ch c =
    put (record { frame = f; chan = some ch }) env.takes c (frame_response env.answer)

frame_put : Env → Frame → Option Bytes → Client → Outcome Err
unfolding make_chan put frame_on_chan
frame_put env f (some receipt) c = make_chan c (frame_on_chan env f)
frame_put env f none c = put (record { frame = f; chan = none }) env.takes c (returns none)

-- `sendFrame`.
unfoldable pub send_frame : Frame → Env → Client → Outcome Err
unfolding frame_put close_net
send_frame f env c =
    if c.conn.closed
    then returns (some closed_unexpectedly) (close_net c)
    else frame_put env f (contains f.header Key.receipt) c

-- What `Subscribe` gives: the subscription, and the channel of its frames.
abbrev pub Subscribed : Type 0
Subscribed = Result Error (SubInfo × ℕ)

-- The id of the subscription: the reply-to entry, that of the options, or a new one.
with_id : Frame → ℕ → (Bytes × Frame) × ℕ
with_id f last =
    let g : Frame = elim (contains f.header reply_to_header) [
      | none ↦ f
      | some reply_to ↦ set f Key.id reply_to
    ] in
    elim (contains g.header Key.id) [
      | some id ↦ ((id, g), last)
      | none ↦
          let id = allocate_id last in
          ((id.0, record g { header = add g.header Key.id id.0 }), id.1)
    ]

is_set : Option Bytes → Bool
is_set none = false
is_set (some b) = true

subscribe_with : Bytes → AckMode → Env → ℕ → Frame → Client → Outcome Subscribed
unfolding put with_id is_set
subscribe_with destination ack env ch f c =
    let x = with_id f c.last_id in
    let sub : SubInfo = record {
      id = x.0.0;
      reply_to_set = is_set (contains f.header reply_to_header);
      destination = destination;
      ack_mode = ack;
    } in
    put (record { frame = x.0.1; chan = some ch }) env.takes (record c { last_id = x.1 })
      (returns (ok (sub, ch)))

-- `Subscribe` behind the options.
subscribe_made : Bytes → AckMode → Env → ℕ → Result Error Frame × ℕ → Client → Outcome Subscribed
unfolding subscribe_with
subscribe_made destination mode env ch (err e, last) c =
    returns (err e) (record c { last_id = last })
subscribe_made destination mode env ch (ok f, last) c =
    subscribe_with destination mode env ch f (record c { last_id = last })

subscribe_on : Bytes → AckMode → List (Option FrameOpt) → Env → ℕ → Client → Outcome Subscribed
unfolding subscribe_made
subscribe_on destination mode opts env ch c = elim (AckMode.string mode) [
  | err e ↦ bad_mode
  | ok text ↦
      let plain = new Command.subscribe ((Key.destination, destination) ∷ (Key.ack, text) ∷ []) in
      subscribe_made destination mode env ch (apply_opts opts plain c.last_id) c
]

unfoldable pub subscribe :
    Bytes → AckMode → List (Option FrameOpt) → Env → Client → Outcome Subscribed
unfolding close_net make_chan subscribe_on
subscribe destination mode opts env c =
    if c.conn.closed
    then returns (err closed_unexpectedly) (close_net c)
    else make_chan c (subscribe_on destination mode opts env)

-- `Ack` and `Nack`.
send_made_frame : Result Error (Option Frame) → Env → Client → Outcome Err
unfolding send_frame
send_made_frame (err e) env c = returns (some e) c
send_made_frame (ok none) env c = returns none c
send_made_frame (ok (some f)) env c = send_frame f env c

unfoldable pub ack : Message → Env → Client → Outcome Err
unfolding send_made_frame
ack m env c = send_made_frame (create_ack_nack_frame c.conn.version m true) env c

unfoldable pub nack : Message → Env → Client → Outcome Err
unfolding send_made_frame
nack m env c = send_made_frame (create_ack_nack_frame c.conn.version m false) env c

-- `BeginWithError`: the id of the transaction, and the error beside it. `Begin` drops the error.
unfoldable pub begin_with_error : Env → Client → Bytes × Outcome Err
unfolding send_frame
begin_with_error env c =
    let id = allocate_id c.last_id in
    (
      id.0,
      send_frame (new Command.begin ((Key.transaction, id.0) ∷ [])) env
          (record c { last_id = id.1 }),
    )

-- The calls, and what processLoop does to the connection: MustDisconnect, or the close on an ERROR frame.
-- `frame_call` is sendFrame, which the calls of transactions and subscriptions end in.
pub data Call : Type 0 where
  send_call : Bytes → Bytes → Bytes → List (Option FrameOpt) → Call
  subscribe_call : Bytes → AckMode → List (Option FrameOpt) → Call
  ack_call nack_call : Message → Call
  begin_call disconnect_call : Call
  frame_call : Frame → Call
  must_disconnect_call error_call : Call

-- The error that a call returns.
unfoldable pub result_error : {A : Type 0} → Result Error A → Err
result_error (ok x) = none
result_error (err e) = some e

unfoldable pub perform : Call → Env → Client → Outcome Err
unfolding send subscribe ack nack begin_with_error disconnect must_disconnect error_received
    on_return result_error
perform (send_call destination content_type body opts) env c =
    send destination content_type body opts env c
perform (subscribe_call destination mode opts) env c =
    on_return result_error (subscribe destination mode opts env c)
perform (ack_call m) env c = ack m env c
perform (nack_call m) env c = nack m env c
perform begin_call env c = (begin_with_error env c).1
perform disconnect_call env c = disconnect env c
perform (frame_call f) env c = send_frame f env c
perform must_disconnect_call env c =
    returns (if c.conn.closed then none else env.close) (must_disconnect c)
perform error_call env c = returns none (error_received c)

-- What calls that return lead to.
pub data Reach (start : Client) : Client → Type 0 where
  here : Reach start start
  next :
      {b c : Client} {e : Err}
      → Reach start b
      → (k : Call) (env : Env) → perform k env b ≡ returns e c
      → Reach start c
