-- ===== src/Client/Loop.antt =====
-- `processLoop` of conn.go, one round at a time.
use stomp.Prelude.{
  ℕ, zero, suc, Bool, true, false, List, [], ◌∷◌, ◌++◌, Option, none, some, codes, same, ◌==◌, ◌||◌,
  if◌then◌else◌,
}
use stomp.Go.Map
use stomp.Go.Map.{Map}
use stomp.Frame.Command
use stomp.Frame.Key
use stomp.Frame.Header.{Bytes, contains, or_empty}
use stomp.Frame.Base.{Frame, new, set}
use stomp.Client.Connect.{WriteRequest}
pub mod Channels
pub mod Safety
pub mod Errors

-- `ReplyToHeader`.
abbrev pub reply_to_header : Bytes
reply_to_header = codes "reply-to"

-- What the loop works on. `channels` is the map of that name, whose values may be nil; `closed` lists
-- the channels that were closed; `sent` is what was sent on channels and `written` what went to the
-- network, each in order. `room` is the number of writes that the network still takes. `left` lists the
-- channels at which nobody reads any more: the call has timed out, or the reader of a subscription has
-- ended.
pub record Loop : Type 0 where
  pub channels : Map (Option ℕ)
  pub closed : List ℕ
  pub left : List ℕ
  pub sent : List (ℕ × Frame)
  pub written : List (Option Frame)
  pub room : ℕ
  pub write_ch_closed : Bool
  pub conn_closed : Bool

-- The loop that a connection starts with.
unfoldable pub new_loop : ℕ → Loop
new_loop room = record {
  channels = [];
  closed = [];
  left = [];
  sent = [];
  written = [];
  room = room;
  write_ch_closed = false;
  conn_closed = false;
}

pub data LoopPanic : Type 0 where
  send_on_closed close_of_closed close_of_nil : LoopPanic

-- Where a round ends: the loop goes on; it has returned, with the connection shut down; it waits for
-- ever, as a send on a nil channel does, or one on a channel at which nobody reads; or it panics. The
-- channels have no buffer.
pub data Round : Type 0 where
  goes_on returned : Loop → Round
  stuck : Round
  unread : ℕ → Loop → Round
  panics : LoopPanic → Round

-- What the loop may wake up to.
pub data Event : Type 0 where
  read_timeout write_timeout : Event
  -- from the read channel: closed, a heart-beat or a frame
  read_closed heart_beat : Event
  frame_read : Frame → Event
  -- from the write channel: closed or a request
  write_closed : Event
  request : WriteRequest → Event
  -- the one who reads at a channel goes away
  gives_up : ℕ → Event

abbrev pub member : ℕ → List ℕ → Bool
member ch [] = false
member ch (c ∷ l) = if c == ch then true else member ch l

-- `ch <- f`, and then the rest. Whoever reads at the channel takes the frame.
unfoldable pub send_on : Option ℕ → Frame → Loop → (Loop → Round) → Round
send_on none f l next = stuck
send_on (some ch) f l next =
    if member ch l.closed
    then panics send_on_closed
    else if member ch l.left
    then unread ch l
    else next (record l { sent = l.sent ++ (ch, f) ∷ [] })

-- `close(ch)`, and then the rest.
unfoldable pub close_chan : Option ℕ → Loop → (Loop → Round) → Round
close_chan none l next = panics close_of_nil
close_chan (some ch) l next =
    if member ch l.closed
    then panics close_of_closed
    else next (record l { closed = ch ∷ l.closed })

-- `MustDisconnect`, which the loop defers: nothing happens once the connection is closed.
unfoldable pub must_disconnect : Loop → Loop
must_disconnect l =
    if l.conn_closed then l else record l { write_ch_closed = true; conn_closed = true }

-- The loop returns.
abbrev pub leave : Loop → Round
leave l = returned (must_disconnect l)

-- The loop of `sendError` over the channels.
unfoldable pub send_each : Map (Option ℕ) → Frame → Loop → (Loop → Round) → Round
unfolding send_on
send_each [] f l next = next l
send_each ((key, ch) ∷ m) f l next = send_on ch f l (λ l'. send_each m f l' next)

unfoldable pub send_error : Bytes → Loop → Round
unfolding send_each
send_error text l = send_each l.channels (new Command.error ((Key.message, text) ∷ [])) l leave

-- The loop over the channels on an ERROR frame.
unfoldable pub send_and_close : Map (Option ℕ) → Frame → Loop → (Loop → Round) → Round
unfolding send_on close_chan
send_and_close [] f l next = next l
send_and_close ((key, ch) ∷ m) f l next =
    send_on ch f l (λ l'. close_chan ch l' (λ l''. send_and_close m f l'' next))

-- A RECEIPT frame.
receipt_by : Bytes → Frame → Loop → Option (Option ℕ) → Round
unfolding send_on close_chan
receipt_by id f l none = goes_on l
receipt_by id f l (some ch) =
    send_on ch f l
      (λ l'. close_chan ch (record l' { channels = Map.delete l'.channels id }) goes_on)

receipt_for : Frame → Loop → Option Bytes → Round
unfolding receipt_by send_error
receipt_for f l none = send_error (codes "missing receipt-id") l
receipt_for f l (some id) = receipt_by id f l (Map.lookup l.channels id)

-- A MESSAGE frame.
message_by : Frame → Loop → Option (Option ℕ) → Round
unfolding send_on
message_by f l none = goes_on l
message_by f l (some ch) = send_on ch f l goes_on

message_for : Frame → Loop → Option Bytes → Round
unfolding message_by
message_for f l none = goes_on l
message_for f l (some id) = message_by f l (Map.lookup l.channels id)

-- The switch on the command of a frame that was read. On an ERROR frame the connection is closed
-- without a word to the write channel.
unfoldable pub on_frame : Frame → Loop → Round
unfolding receipt_for message_for send_and_close
on_frame f l =
    if same f.command Command.receipt
    then receipt_for f l (contains f.header Key.receipt_id)
    else if same f.command Command.error
    then send_and_close l.channels f l (λ l'. returned (record l' { conn_closed = true }))
    else if same f.command Command.message
    then message_for f l (contains f.header Key.subscription)
    else goes_on l

-- `writer.Write`, and then the rest; a write that fails ends the loop. `failure` is the network's text.
write_then : Bytes → Option Frame → Loop → (Loop → Round) → Round
unfolding send_error
write_then failure f l next = elim l.room [
  | zero ↦ send_error failure l
  | suc n ↦ next (record l { written = l.written ++ f ∷ []; room = n })
]

-- The channel of a request is remembered by the request's receipt entry.
remember : WriteRequest → Loop → Loop
remember req l = elim req.chan [
  | none ↦ l
  | some ch ↦ elim (contains req.frame.header Key.receipt) [
    | none ↦ l
    | some receipt ↦ record l { channels = Map.insert l.channels receipt (some ch) }
  ]
]

-- UNSUBSCRIBE of a temporary queue.
drop_reply : Bytes → Loop → Option (Option ℕ) → Round
unfolding close_chan
drop_reply reply_to l none = goes_on l
drop_reply reply_to l (some ch) =
    close_chan ch (record l { channels = Map.delete l.channels reply_to }) goes_on

-- The switch on the command of a request's frame, and the write.
subscribing : Bytes → WriteRequest → Loop → Option Bytes → Round
unfolding write_then
subscribing failure req l (some reply_to) =
    goes_on (record l { channels = Map.insert l.channels reply_to req.chan })
subscribing failure req l none =
    write_then failure (some req.frame)
      (record l {
        channels = Map.insert l.channels (or_empty (contains req.frame.header Key.id)) req.chan;
      })
      goes_on

unsubscribing : Bytes → WriteRequest → Loop → Option Bytes → Round
unfolding write_then drop_reply
unsubscribing failure req l (some reply_to) = drop_reply reply_to l (Map.lookup l.channels reply_to)
unsubscribing failure req l none =
    write_then failure
      (some (set req.frame Key.receipt (or_empty (contains req.frame.header Key.id)))) l goes_on

unfoldable pub on_request : Bytes → WriteRequest → Loop → Round
unfolding remember subscribing unsubscribing write_then
on_request failure req start =
    let l = remember req start in
    let f = req.frame in
    if same f.command Command.subscribe
    then subscribing failure req l (contains f.header reply_to_header)
    else if same f.command Command.unsubscribe
    then unsubscribing failure req l (contains f.header reply_to_header)
    else write_then failure (some f) l goes_on

-- One round of the loop.
unfoldable pub round : Bytes → Loop → Event → Round
unfolding send_error write_then on_frame on_request
round failure l read_timeout = send_error (codes "read timeout") l
round failure l write_timeout = write_then failure none l goes_on
round failure l read_closed = send_error (codes "connection closed") l
round failure l heart_beat = goes_on l
round failure l (frame_read f) = on_frame f l
round failure l write_closed = send_error (codes "write channel closed") l
round failure l (request req) = on_request failure req l
round failure l (gives_up ch) = goes_on (record l { left = ch ∷ l.left })

-- The rounds of some events, as long as the loop goes on.
unfoldable pub rounds : Bytes → Loop → List Event → Round
unfolding round
rounds failure l [] = goes_on l
rounds failure l (e ∷ es) = elim (round failure l e) [
  | goes_on l' ↦ rounds failure l' es
  | returned l' ↦ returned l'
  | stuck ↦ stuck
  | unread ch l' ↦ unread ch l'
  | panics p ↦ panics p
]
