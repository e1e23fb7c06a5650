-- ===== src/Client/Calls/Outcomes.antt =====
-- What `Disconnect` and `Send` of conn.go return, by what they meet.
use stomp.Prelude.{
  ℕ, ◌≡◌, refl, sym, ap, ◌∙◌, Bool, true, false, List, [], ◌∷◌, ◌++◌, Option, none, some, arith,
  same, ◌+◌, if◌then◌else◌,
}
use stomp.Go.Result.{ok}
use stomp.Go.Int64.{Int64, less}
use stomp.Frame.Command
use stomp.Frame.Key
use stomp.Frame.Header.{Bytes, contains}
use stomp.Frame.Base.{Frame, new}
use stomp.Client.Error.{
  new_error, disconnect_receipt_timeout, msg_send_timeout, msg_receipt_timeout,
}
use stomp.Client.Id.{allocate_id}
use stomp.Client.Frames.{FrameOpt, create_send_frame}
use stomp.Client.Connect.{WriteRequest}
use stomp.Client.Calls.{
  Client, Answer, response, ended, silence, Env, Outcome, returns, waits, send_on_closed, nil_frame,
  Err, same_error, put, put_in_time, read_receipt, make_chan, shut, after_receipt, disconnect_reply,
  disconnect_on, disconnect, send_reply, send_on_chan, send_made, send_created, send,
}

-- The connection with a request more on its write channel, on a new channel of its own.
abbrev pub queued : Frame → ℕ → Client → Client
queued f last c = record {
  conn = record c.conn {
    write_ch = c.conn.write_ch ++ record { frame = f; chan = some c.conn.next_chan } ∷ [];
    next_chan = c.conn.next_chan + 1;
  };
  last_id = last;
}

abbrev pub disconnect_outcome : Err → Answer → Client → Outcome Err
disconnect_outcome close (response f) c =
    if same f.command Command.receipt
    then returns close (shut c)
    else returns (some (new_error f)) c
disconnect_outcome close ended c = nil_frame
disconnect_outcome close silence c =
    if less 0 c.conn.disconnect_receipt_timeout
    then returns (some disconnect_receipt_timeout) (shut c)
    else waits

receipt_reply :
    (env : Env) (b : Bool) (f : Frame) (c : Client)
    → after_receipt env (if b then none else some (new_error f)) c
      ≡ (if b then returns env.close (shut c) else returns (some (new_error f)) c)
unfolding after_receipt same_error new_error
receipt_reply env true f c = refl
receipt_reply env false f c = refl

timeout_reply :
    (env : Env) (b : Bool) (c : Client)
    → (if b then after_receipt env (some disconnect_receipt_timeout) c else waits)
      ≡ (if b then returns (some disconnect_receipt_timeout) (shut c) else waits)
unfolding after_receipt same_error same
timeout_reply env true c = refl
timeout_reply env false c = refl

disconnect_reply_lem :
    (env : Env) (answer : Answer) (c : Client)
    → env.answer ≡ answer
    → disconnect_reply env c ≡ disconnect_outcome env.close answer c
unfolding disconnect_reply read_receipt
disconnect_reply_lem env (response f) c e =
    rw (e, disconnect_reply) (receipt_reply env (same f.command Command.receipt) f c)
disconnect_reply_lem env ended c e = rw e refl
disconnect_reply_lem env silence c e =
    rw (e, disconnect_reply) (timeout_reply env (less 0 c.conn.disconnect_receipt_timeout) c)

-- On an open connection, Disconnect puts a DISCONNECT frame on the write channel, with a new id as its
-- receipt entry. With RECEIPT as the answer it shuts the connection and returns what closing the network
-- connection returns; with another frame it returns that frame's error and leaves the connection open;
-- without an answer it shuts the connection and returns the timeout's error, or waits for ever if there
-- is no timeout; the end of its channel is a panic.
pub disconnect_lem :
    (env : Env) (c : Client)
    → c.conn.closed ≡ false
    → c.conn.write_closed ≡ false
    → env.takes ≡ true
    → disconnect env c
      ≡ disconnect_outcome env.close env.answer (
          queued
            (new Command.disconnect ((Key.receipt, (allocate_id c.last_id).0) ∷ []))
            (allocate_id c.last_id).1
            c)
unfolding disconnect make_chan disconnect_on put
disconnect_lem env c h k t = rw (h, k, t) (disconnect_reply_lem env env.answer _ refl)

-- `Send` of a frame that wants a receipt.
abbrev pub receipt_reply_of : Answer → Client → Outcome Err
receipt_reply_of (response f) c =
    returns (if same f.command Command.receipt then none else some (new_error f)) c
receipt_reply_of ended c = nil_frame
receipt_reply_of silence c =
    if less 0 c.conn.rcv_receipt_timeout then returns (some msg_receipt_timeout) c else waits

abbrev chan_made : ℕ → Client → Client
chan_made last c = record {
  conn = record c.conn { next_chan = c.conn.next_chan + 1 };
  last_id = last;
}

send_reply_lem :
    (env : Env) (answer : Answer) (c : Client)
    → env.answer ≡ answer
    → send_reply env none c ≡ receipt_reply_of answer c
unfolding send_reply read_receipt
send_reply_lem env (response f) c e = rw (e, send_reply) refl
send_reply_lem env ended c e = rw (e, send_reply) refl
send_reply_lem env silence c e = rw (e, send_reply) refl

same_branches : (b : Bool) (x : Outcome Err) → (if b then x else x) ≡ x
same_branches true x = refl
same_branches false x = refl

put_in_time_taken :
    (timeout : Int64) (req : WriteRequest) (c : Client) (rest : Err → Client → Outcome Err)
    → c.conn.write_closed ≡ false
    → put_in_time timeout req true c rest ≡ put req true c (rest none)
unfolding put_in_time
put_in_time_taken timeout req c rest h = rw (h, put_in_time) (same_branches (less 0 timeout) _)

put_in_time_full :
    (timeout : Int64) (req : WriteRequest) (c : Client) (rest : Err → Client → Outcome Err)
    → c.conn.write_closed ≡ false
    → put_in_time timeout req false c rest
      ≡ (if less 0 timeout then rest (some msg_send_timeout) c else waits)
unfolding put_in_time put
put_in_time_full timeout req c rest h = rw (h) refl

skip_if : (b : Bool) (x y : Outcome Err) → b ≡ false → (if b then x else y) ≡ y
skip_if true x y h = absurd (ground arith)
skip_if false x y h = refl

-- What follows once the channel of the receipt is made.
send_on_chan_lem :
    (t : Bool) (env : Env) (f : Frame) (last : ℕ) (c : Client)
    → env.takes ≡ t
    → c.conn.write_closed ≡ false
    → send_on_chan env f c.conn.next_chan (chan_made last c) ≡ (
        if t
        then receipt_reply_of env.answer (queued f last c)
        else if less 0 c.conn.msg_send_timeout
        then returns (some msg_send_timeout) (chan_made last c)
        else waits)
unfolding send_on_chan put send_reply
send_on_chan_lem true env f last c q k =
    ap
      (λ t.
        put_in_time c.conn.msg_send_timeout (record { frame = f; chan = some c.conn.next_chan }) t
          (chan_made last c) (send_reply env))
      q
    ∙ put_in_time_taken c.conn.msg_send_timeout _ (chan_made last c) (send_reply env) k
    ∙ skip_if c.conn.write_closed send_on_closed _ k
    ∙ send_reply_lem env env.answer (queued f last c) refl
send_on_chan_lem false env f last c q k =
    ap
      (λ t.
        put_in_time c.conn.msg_send_timeout (record { frame = f; chan = some c.conn.next_chan }) t
          (chan_made last c) (send_reply env))
      q
    ∙ put_in_time_full c.conn.msg_send_timeout (record { frame = f; chan = some c.conn.next_chan })
        (chan_made last c) (send_reply env) k

-- On an open connection, Send of a frame that wants a receipt puts the frame on the write channel with a
-- channel of its own, and returns without an error only on a RECEIPT frame: another frame is an error, and
-- so is no answer within the timeout. A write channel that does not take the frame within its timeout is
-- an error too, with nothing sent; without a timeout Send waits for ever there.
pub send_lem :
    (destination content_type body : Bytes) (opts : List (Option FrameOpt)) (env : Env) (c : Client)
    (f : Frame) (receipt : Bytes) (last : ℕ)
    → create_send_frame destination content_type body opts c.last_id ≡ (ok f, last)
    → contains f.header Key.receipt ≡ some receipt
    → c.conn.closed ≡ false
    → c.conn.write_closed ≡ false
    → send destination content_type body opts env c ≡ (
        if env.takes
        then receipt_reply_of env.answer (queued f last c)
        else if less 0 c.conn.msg_send_timeout
        then returns (some msg_send_timeout) (chan_made last c)
        else waits)
unfolding send send_created send_made make_chan
send_lem destination content_type body opts env c f receipt last e r h k =
    skip_if c.conn.closed _ _ h
    ∙ ap (λ x. send_created x env c) e
    ∙ ap (λ o. send_made env f o (record c { last_id = last })) r
    ∙ send_on_chan_lem env.takes env f last c refl k

-- Which answer makes a Send that wants a receipt return without an error.
only_receipt :
    (takes : Bool) (answer : Answer) (x y d : Client)
    → (if takes
        then receipt_reply_of answer x
        else if less 0 y.conn.msg_send_timeout
        then returns (some msg_send_timeout) y
        else waits)
      ≡ returns none d
    → (takes ≡ true)
      × (g : Frame) × (answer ≡ response g)
      × (same g.command Command.receipt ≡ true)
      × (x ≡ d)
only_receipt true (response g) x y d e = (refl, g, refl, ground arith, ground arith)
only_receipt true ended x y d e = absurd (ground arith)
only_receipt true silence x y d e = absurd (ground arith)
only_receipt false answer x y d e = absurd (ground arith)

-- On an open connection, a Send of a frame that wants a receipt which returns without an error has put
-- just this frame on the write channel, with a channel of its own, and a RECEIPT frame came on that
-- channel; nothing else of the connection has changed.
pub send-receipt :
    (destination content_type body : Bytes) (opts : List (Option FrameOpt)) (env : Env)
    (c d : Client) (f : Frame) (receipt : Bytes) (last : ℕ)
    → create_send_frame destination content_type body opts c.last_id ≡ (ok f, last)
    → contains f.header Key.receipt ≡ some receipt
    → c.conn.closed ≡ false
    → c.conn.write_closed ≡ false
    → send destination content_type body opts env c ≡ returns none d
    → (d ≡ queued f last c)
      × (g : Frame) × (env.answer ≡ response g)
      × (same g.command Command.receipt ≡ true)
send-receipt destination content_type body opts env c d f receipt last e r h k q =
    let (_, g, a, m, same_end) =
      only_receipt env.takes env.answer (queued f last c) (chan_made last c) d
        (sym (send_lem destination content_type body opts env c f receipt last e r h k) ∙ q) in
    (sym same_end, g, a, m)
