-- ===== src/Client/Subscription.antt =====
-- subscription.go: a subscription, its `readLoop` and `Unsubscribe`, which run beside each other.
use stomp.Prelude.{
  ℕ, suc, Bool, true, false, List, [], ◌∷◌, ◌++◌, Option, none, some, same, codes, length, ltb,
  ◌==◌, not, if◌then◌else◌, ◌≡◌, ◌||◌,
}
use stomp.Go.Result.{Result, ok, err}
use stomp.Go.Int64.{Int64}
use stomp.Frame.Command
use stomp.Frame.Key
use stomp.Frame.Header.{Bytes, contains, get, or_empty}
use stomp.Frame.Base.{Frame, new, set}
use stomp.Client.Error.{
  Error, error, completed_subscription, closed_unexpectedly, unsubscribe_receipt_timeout,
  new_error_message,
}
use stomp.Client.Message.{Message, SubInfo}
use stomp.Client.Frames.{FrameOpt, WithIds, apply_all_opts}
use stomp.Client.Calls.{Err, same_error}
use stomp.Client.Loop.{reply_to_header}
pub mod CloseOnce
pub mod Sends
pub mod Ends
pub mod Ending

pub data SubState : Type 0 where
  active closing closed : SubState

-- Where a thread stands in `closeChannel`: before `closeOnce.Do`, and before each statement of the
-- function that is done once.
pub data Closing : Type 0 where
  entering : Option Message → Closing
  sending : Message → Closing
  storing closing_c broadcasting : Closing

-- Where `readLoop` stands: before the receive, before the send of a message, before the load of the
-- state with what it received (`none` if the channel has ended), in closeChannel, or behind its end.
pub data Reader : Type 0 where
  receiving : Reader
  delivering : Message → Reader
  loading : Option Frame → Reader
  shutting : Closing → Reader
  over : Reader

-- Where `Unsubscribe` stands: not called yet; before the options; before sendFrame; in closeChannel,
-- with what is returned; before the test of the loop, with `err`; before `Wait`; in it; behind a
-- timeout; returned.
pub data Caller : Type 0 where
  idle preparing transmitting : Caller
  abandoning : Closing → Error → Caller
  checking : Err → Caller
  parking waiting timed_out : Caller
  done : Err → Caller

-- `buffer` is what stands on the channel C, whose capacity is 16; `c_closed` tells whether C is closed,
-- and `once` and `once_done` whether `closeOnce.Do` has begun and ended its function. The flags at the end record a panic: a send
-- on C after it was closed, or a second close.
pub record Subscription : Type 0 where
  pub info : SubInfo
  pub unsubscribe_timeout : Int64
  pub state : SubState
  pub buffer : List Message
  pub c_closed : Bool
  pub once : Bool
  pub once_done : Bool
  pub reader : Reader
  pub caller : Caller
  pub send_panic : Bool
  pub close_panic : Bool

-- What `Subscribe` makes, and starts the loop on.
unfoldable pub new_subscription : SubInfo → Int64 → Subscription
new_subscription info timeout = record {
  info = info;
  unsubscribe_timeout = timeout;
  state = active;
  buffer = [];
  c_closed = false;
  once = false;
  once_done = false;
  reader = receiving;
  caller = idle;
  send_panic = false;
  close_panic = false;
}

is_active : SubState → Bool
is_active active = true
is_active closing = false
is_active closed = false

unfoldable pub is_closed : SubState → Bool
is_closed active = false
is_closed closing = false
is_closed closed = true

-- `Active`.
unfoldable pub active? : Subscription → Bool
unfolding is_active
active? s = is_active s.state

-- `subscriptionErrorMessage`.
unfoldable pub error_message : SubInfo → Bytes → Message
error_message info text = record {
  problem = some (
      error
        (codes "Subscription " ++ info.id ++ codes ": " ++ info.destination ++ codes ": " ++ text)
        none);
  destination = [];
  content_type = [];
  conn = false;
  subscription = none;
  header = none;
  body = [];
}

-- The message of a MESSAGE frame.
unfoldable pub message_of : SubInfo → Frame → Message
message_of info f = record {
  problem = none;
  destination = get f.header Key.destination;
  content_type = get f.header Key.content_type;
  conn = true;
  subscription = some info;
  header = some f.header;
  body = f.body;
}

-- The message of an ERROR frame.
unfoldable pub problem_of : SubInfo → Frame → Message
problem_of info f = record {
  problem = some (error (get f.header Key.message) (some f));
  destination = [];
  content_type = get f.header Key.content_type;
  conn = true;
  subscription = some info;
  header = some f.header;
  body = f.body;
}

-- `s.C <- msg`: `none` as long as the channel is full.
unfoldable pub send_c : Message → Subscription → Option Subscription
send_c m s =
    if s.c_closed
    then some (record s { send_panic = true })
    else if ltb (length s.buffer) 16
    then some (record s { buffer = s.buffer ++ m ∷ [] })
    else none

-- `close(s.C)`.
unfoldable pub close_c : Subscription → Subscription
close_c s = if s.c_closed then record s { close_panic = true } else record s { c_closed = true }

-- `Broadcast` wakes `Unsubscribe` where it waits; its `err` is nil then.
wake : Caller → Caller
wake waiting = checking none
wake idle = idle
wake preparing = preparing
wake transmitting = transmitting
wake (abandoning k e) = abandoning k e
wake (checking e) = checking e
wake parking = parking
wake timed_out = timed_out
wake (done e) = done e

-- A statement of closeChannel: the subscription, and where the thread stands behind it. `none` at the
-- inside is the end of closeChannel, `none` at the outside a wait: `Do` waits for a call of it that
-- has begun.
unfoldable pub close_step : Closing → Subscription → Option (Subscription × Option Closing)
unfolding send_c close_c wake
close_step (entering msg) s =
    if s.once
    then (if s.once_done then some (s, none) else none)
    else some
        (record s { once = true }, elim msg [ none ↦ some storing | some m ↦ some (sending m) ])
close_step (sending m) s = elim (send_c m s) [ none ↦ none | some s' ↦ some (s', some storing) ]
close_step storing s = some (record s { state = closed }, some closing_c)
close_step closing_c s = some (close_c s, some broadcasting)
close_step broadcasting s = some (record s { caller = wake s.caller; once_done = true }, none)

-- What the loop does with a frame, or with the end of the channel.
unfoldable pub on_receive : Option Frame → Subscription → Subscription
unfolding message_of
on_receive none s = record s { reader = loading none }
on_receive (some f) s =
    if same f.command Command.message
    then record s { reader = delivering (message_of s.info f) }
    else if same f.command Command.error || same f.command Command.receipt
    then record s { reader = loading (some f) }
    else record s { reader = receiving }

-- The message that closeChannel is called with.
unfoldable pub last_message : SubInfo → Option Frame → Option Message
unfolding error_message problem_of
last_message info none = some (error_message info (codes "channel read failed"))
last_message info (some f) = if same f.command Command.error then some (problem_of info f) else none

reader_closing : Option Closing → Reader
reader_closing none = over
reader_closing (some k) = shutting k

-- A statement of the loop behind the receive.
unfoldable pub reader_step : Reader → Subscription → Option Subscription
unfolding send_c close_step last_message is_closed reader_closing
reader_step receiving s = none
reader_step (delivering m) s = elim (send_c m s) [
  | none ↦ none
  | some s' ↦ some (record s' { reader = receiving })
]
reader_step (loading f) s = some (record s {
  reader = if is_closed s.state then over else shutting (entering (last_message s.info f));
})
reader_step (shutting k) s = elim (close_step k s) [
  | none ↦ none
  | some x ↦ some (record (x.0) { reader = reader_closing x.1 })
]
reader_step over s = none

-- `Unsubscribe`: the transition to the closing state, or its error.
unfoldable pub start_unsubscribe : Subscription → Result Error Subscription
unfolding is_active
start_unsubscribe s =
    if is_active s.state
    then ok (record s { state = closing; caller = preparing })
    else err completed_subscription

-- The frame that it sends.
unfoldable pub unsubscribe_frame : SubInfo → List (Option FrameOpt) → WithIds Frame
unfolding apply_all_opts
unsubscribe_frame info opts last =
    let x = apply_all_opts opts (new Command.unsubscribe ((Key.id, info.id) ∷ [])) last in
    elim x.0 [
      | err e ↦ (err e, x.1)
      | ok f ↦ (ok (if info.reply_to_set then set f reply_to_header info.id else f), x.1)
    ]

-- The result of the options, and that of sendFrame.
unfoldable pub prepared : Err → Caller
prepared none = transmitting
prepared (some e) = done (some e)

unfoldable pub transmitted : SubInfo → Err → Caller
unfolding error_message same_error
transmitted info none = checking none
transmitted info (some e) =
    if same_error e closed_unexpectedly
    then abandoning (entering (some (error_message info (codes "connection closed unexpectedly"))))
        e
    else checking (some e)

caller_closing : Option Closing → Error → Caller
caller_closing none e = done (some e)
caller_closing (some k) e = abandoning k e

-- A statement of Unsubscribe that needs no answer.
unfoldable pub caller_step : Caller → Subscription → Option Subscription
unfolding close_step is_closed caller_closing send_c error_message
caller_step idle s = none
caller_step preparing s = none
caller_step transmitting s = none
caller_step (abandoning k e) s = elim (close_step k s) [
  | none ↦ none
  | some x ↦ some (record (x.0) { caller = caller_closing x.1 e })
]
caller_step (checking e) s =
    some (record s { caller = if is_closed s.state then done e else parking })
caller_step parking s = some (record s { caller = waiting })
caller_step waiting s = none
caller_step timed_out s =
    elim (send_c (error_message s.info (codes "channel unsubscribe receipt timeout")) s) [
      | none ↦ none
      | some s' ↦ some (record s' { caller = done (some unsubscribe_receipt_timeout) })
    ]
caller_step (done e) s = none

-- The timer of waitWithTimeout, which runs from before `Wait`; with a timeout of 0 there is none.
unfoldable pub expire : Caller → Subscription → Option Subscription
expire parking s =
    if s.unsubscribe_timeout == 0 then none else some (record s { caller = timed_out })
expire waiting s =
    if s.unsubscribe_timeout == 0 then none else some (record s { caller = timed_out })
expire idle s = none
expire preparing s = none
expire transmitting s = none
expire (abandoning k e) s = none
expire (checking e) s = none
expire timed_out s = none
expire (done e) s = none

-- What happens next: a frame or the end of the channel comes to the loop; the loop goes on; Unsubscribe
-- is called, gets an answer, or goes on; the timer ends; someone takes a message from C.
pub data Act : Type 0 where
  receive : Option Frame → Act
  read_on : Act
  unsubscribe : Act
  options_done frame_sent : Err → Act
  call_on expire_now consume : Act

received : Option Frame → Reader → Subscription → Option Subscription
unfolding on_receive
received f receiving s = some (on_receive f s)
received f (delivering m) s = none
received f (loading g) s = none
received f (shutting k) s = none
received f over s = none

answer_options : Err → Caller → Subscription → Option Subscription
unfolding prepared
answer_options e preparing s = some (record s { caller = prepared e })
answer_options e idle s = none
answer_options e transmitting s = none
answer_options e (abandoning k e') s = none
answer_options e (checking e') s = none
answer_options e parking s = none
answer_options e waiting s = none
answer_options e timed_out s = none
answer_options e (done e') s = none

answer_sent : Err → Caller → Subscription → Option Subscription
unfolding transmitted
answer_sent e transmitting s = some (record s { caller = transmitted s.info e })
answer_sent e idle s = none
answer_sent e preparing s = none
answer_sent e (abandoning k e') s = none
answer_sent e (checking e') s = none
answer_sent e parking s = none
answer_sent e waiting s = none
answer_sent e timed_out s = none
answer_sent e (done e') s = none

consume_one : List Message → Subscription → Option Subscription
consume_one [] s = none
consume_one (m ∷ l) s = some (record s { buffer = l })

-- `none` if the act cannot happen now. A call of Unsubscribe that fails changes nothing.
unfoldable pub step : Act → Subscription → Option Subscription
unfolding received reader_step start_unsubscribe answer_options answer_sent caller_step expire
    consume_one
step (receive f) s = received f s.reader s
step read_on s = reader_step s.reader s
step unsubscribe s = elim (start_unsubscribe s) [ err e ↦ some s | ok s' ↦ some s' ]
step (options_done e) s = answer_options e s.caller s
step (frame_sent e) s = answer_sent e s.caller s
step call_on s = caller_step s.caller s
step expire_now s = expire s.caller s
step consume s = consume_one s.buffer s

unfoldable pub steps : List Act → Subscription → Option Subscription
unfolding step
steps [] s = some s
steps (a ∷ acts) s = elim (step a s) [ none ↦ none | some s' ↦ steps acts s' ]

-- What acts within `P` lead to from `start`.
pub data Reach (P : Act → Type 0) (start : Subscription) : Subscription → Type 0 where
  here : Reach P start start
  next :
      {s t : Subscription} → Reach P start s → (a : Act) → P a → step a s ≡ some t → Reach P start t

-- `Read`: `none` where it waits. A message with a problem is returned as that error.
read_problem : Message → Option Error → Result Error Message
read_problem m none = ok m
read_problem m (some e) = err e

read_from : List Message → Subscription → Option (Result Error Message × Subscription)
unfolding read_problem
read_from [] s = if s.c_closed then some (err completed_subscription, s) else none
read_from (m ∷ l) s = some (read_problem m m.problem, record s { buffer = l })

unfoldable pub read : Subscription → Option (Result Error Message × Subscription)
unfolding active? read_from
read s = if not (active? s) then some (err completed_subscription, s) else read_from s.buffer s
