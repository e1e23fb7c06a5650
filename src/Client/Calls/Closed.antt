-- ===== src/Client/Calls/Closed.antt =====
-- The calls of conn.go against the close of the connection and of its write channel.
use stomp.Prelude.{
  ℕ, ◌≡◌, ◌≢◌, ◌⊎◌, inl, inr, refl, subst, Bool, true, false, List, [], ◌∷◌, Option, none, some,
  arith, if◌then◌else◌,
}
use stomp.Go.Result.{Result, ok, err}
use stomp.Go.Int64.{Int64, less}
use stomp.Frame.Command
use stomp.Frame.Key
use stomp.Frame.Header.{Bytes}
use stomp.Frame.Base.{Frame, new}
use stomp.Client.Error.{Error, closed_unexpectedly, already_closed}
use stomp.Client.Id.{allocate_id}
use stomp.Client.AckMode.{AckMode}
use stomp.Client.AckMode
use stomp.Client.Frames.{FrameOpt, apply_opts, create_ack_nack_frame}
use stomp.Client.Connect.{WriteRequest}
use stomp.Client.Calls.{
  Client, Answer, response, ended, silence, Env, Outcome, returns, waits, send_on_closed, nil_frame,
  bad_mode, Err, on_return, result_error, put, put_in_time, read_receipt, make_chan, close_net,
  shut, after_receipt, disconnect, must_disconnect, error_received, send_made, send, frame_response,
  frame_put, send_frame, disconnect_reply, disconnect_on, send_reply, send_on_chan, send_created,
  frame_on_chan, subscribe_made, subscribe_on, Subscribed, subscribe_with, subscribe,
  send_made_frame, ack, nack, begin_with_error, Call, send_call, subscribe_call, ack_call,
  nack_call, begin_call, disconnect_call, frame_call, must_disconnect_call, error_call, perform,
  Reach, here, next,
}

-- The write channel is closed only where the connection is.
pub IsOrdered : Client → Type 0
IsOrdered c = (c.conn.write_closed ≡ false) ⊎ (c.conn.closed ≡ true)

-- A call that returns keeps that, and none sends on the closed channel.
pub Safe : {A : Type 0} → Outcome A → Type 0
unfolding IsOrdered
Safe (returns x c) = IsOrdered c
Safe waits = Unit {0}
Safe send_on_closed = ⊥
Safe nil_frame = Unit {0}
Safe bad_mode = Unit {0}

module _ {A : Type 0} where
  if-Safe : (b : Bool) (x y : Outcome A) → Safe x → Safe y → Safe (if b then x else y)
  if-Safe true x y h k = h
  if-Safe false x y h k = k

  if_so-Safe :
      (b : Bool) (x y : Outcome A) → Safe x → (b ≡ false → Safe y) → Safe (if b then x else y)
  if_so-Safe true x y h k = h
  if_so-Safe false x y h k = k refl

  open-Safe :
      (b : Bool) (y : Outcome A) → b ≡ false → Safe y → Safe (if b then send_on_closed else y)
  open-Safe true y h k = absurd (ground arith)
  open-Safe false y h k = k

  returns-Safe : (x : A) (c : Client) → IsOrdered c → Safe (returns x c)
  unfolding Safe
  returns-Safe x c h = h

  returns_open : (x : A) (c : Client) → c.conn.write_closed ≡ false → Safe (returns x c)
  unfolding Safe IsOrdered
  returns_open x c h = inl h

  put-Safe :
      (req : WriteRequest) (takes : Bool) (c : Client) (rest : Client → Outcome A)
      → c.conn.write_closed ≡ false
      → ((d : Client) → d.conn.write_closed ≡ false → Safe (rest d))
      → Safe (put req takes c rest)
  unfolding put Safe
  put-Safe req takes c rest h k = open-Safe c.conn.write_closed _ h (if-Safe takes _ _ (k _ h) tt)

  put_in_time-Safe :
      (timeout : Int64) (req : WriteRequest) (takes : Bool) (c : Client)
      (rest : Err → Client → Outcome A)
      → c.conn.write_closed ≡ false
      → ((e : Err) (d : Client) → d.conn.write_closed ≡ false → Safe (rest e d))
      → Safe (put_in_time timeout req takes c rest)
  unfolding put_in_time
  put_in_time-Safe timeout req takes c rest h k =
      if-Safe (less 0 timeout) _ _
        (open-Safe c.conn.write_closed _ h
          (if-Safe takes _ _ (put-Safe req takes c (rest none) h (k none)) (k _ c h)))
        (put-Safe req takes c (rest none) h (k none))

  read_receipt-Safe :
      (timeout : Int64) (e : Error) (answer : Answer) (c : Client) (rest : Err → Client → Outcome A)
      → ((e : Err) → Safe (rest e c))
      → Safe (read_receipt timeout e answer c rest)
  unfolding read_receipt Safe
  read_receipt-Safe timeout e (response f) c rest k = k _
  read_receipt-Safe timeout e ended c rest k = tt
  read_receipt-Safe timeout e silence c rest k = if-Safe (less 0 timeout) _ _ (k _) tt

  make_chan-Safe :
      (c : Client) (rest : ℕ → Client → Outcome A)
      → c.conn.write_closed ≡ false
      → ((ch : ℕ) (d : Client) → d.conn.write_closed ≡ false → Safe (rest ch d))
      → Safe (make_chan c rest)
  unfolding make_chan
  make_chan-Safe c rest h k = k _ _ h

after_receipt-Safe :
    (env : Env) (e : Err) (c : Client) → c.conn.write_closed ≡ false → Safe (after_receipt env e c)
unfolding after_receipt shut close_net Safe IsOrdered
after_receipt-Safe env none c h = inl h
after_receipt-Safe env (some e) c h = ground arith

-- Behind the test of `closed`, the write channel is open.
open_of : (c : Client) → IsOrdered c → c.conn.closed ≡ false → c.conn.write_closed ≡ false
unfolding IsOrdered
open_of c h e = ground (arith, h, e)

close_net-Safe : {A : Type 0} (x : A) (c : Client) → IsOrdered c → Safe (returns x (close_net c))
unfolding close_net Safe IsOrdered
close_net-Safe x c h = h

disconnect_on-Safe :
    (env : Env) (ch : ℕ) (c : Client) → c.conn.write_closed ≡ false → Safe (disconnect_on env ch c)
unfolding disconnect_on disconnect_reply
disconnect_on-Safe env ch c h = put-Safe _ env.takes _ (disconnect_reply env) h (λ d k.
    read_receipt-Safe _ _ env.answer d (after_receipt env) (λ e. after_receipt-Safe env e d k))

disconnect-Safe : (env : Env) (c : Client) → IsOrdered c → Safe (disconnect env c)
unfolding disconnect
disconnect-Safe env c h =
    if_so-Safe c.conn.closed _ _ (returns-Safe none c h)
      (λ e. make_chan-Safe c (disconnect_on env) (open_of c h e) (disconnect_on-Safe env))

send_reply-Safe :
    (env : Env) (e : Err) (c : Client) → c.conn.write_closed ≡ false → Safe (send_reply env e c)
unfolding send_reply
send_reply-Safe env none c h = read_receipt-Safe _ _ env.answer c returns (λ e. returns_open e c h)
send_reply-Safe env (some e) c h = returns_open _ c h

send_on_chan-Safe :
    (env : Env) (f : Frame) (ch : ℕ) (c : Client)
    → c.conn.write_closed ≡ false
    → Safe (send_on_chan env f ch c)
unfolding send_on_chan
send_on_chan-Safe env f ch c h =
    put_in_time-Safe _ _ env.takes c (send_reply env) h (send_reply-Safe env)

send_made-Safe :
    (env : Env) (f : Frame) (r : Option Bytes) (c : Client)
    → c.conn.write_closed ≡ false
    → Safe (send_made env f r c)
unfolding send_made
send_made-Safe env f none c h = put_in_time-Safe _ _ env.takes c returns h returns_open
send_made-Safe env f (some r) c h =
    make_chan-Safe c (send_on_chan env f) h (send_on_chan-Safe env f)

send_created-Safe :
    (x : Result Error Frame × ℕ) (env : Env) (c : Client)
    → c.conn.write_closed ≡ false
    → Safe (send_created x env c)
unfolding send_created
send_created-Safe (err e, last) env c h = returns_open _ _ h
send_created-Safe (ok f, last) env c h = send_made-Safe env f _ _ h

send-Safe :
    (destination content_type body : Bytes) (opts : List (Option FrameOpt)) (env : Env) (c : Client)
    → IsOrdered c
    → Safe (send destination content_type body opts env c)
unfolding send
send-Safe destination content_type body opts env c h =
    if_so-Safe c.conn.closed _ _ (returns-Safe _ c h)
      (λ e. send_created-Safe _ env c (open_of c h e))

frame_response-Safe :
    (answer : Answer) (c : Client) → c.conn.write_closed ≡ false → Safe (frame_response answer c)
unfolding frame_response Safe IsOrdered
frame_response-Safe (response f) c h = inl h
frame_response-Safe ended c h = inl h
frame_response-Safe silence c h = if-Safe (less 0 c.conn.write_timeout) _ _ (inl h) tt

frame_on_chan-Safe :
    (env : Env) (f : Frame) (ch : ℕ) (c : Client)
    → c.conn.write_closed ≡ false
    → Safe (frame_on_chan env f ch c)
unfolding frame_on_chan
frame_on_chan-Safe env f ch c h =
    put-Safe _ env.takes c (frame_response env.answer) h (frame_response-Safe env.answer)

frame_put-Safe :
    (env : Env) (f : Frame) (r : Option Bytes) (c : Client)
    → c.conn.write_closed ≡ false
    → Safe (frame_put env f r c)
unfolding frame_put
frame_put-Safe env f none c h = put-Safe _ env.takes c (returns none) h (returns_open none)
frame_put-Safe env f (some r) c h =
    make_chan-Safe c (frame_on_chan env f) h (frame_on_chan-Safe env f)

send_frame-Safe : (f : Frame) (env : Env) (c : Client) → IsOrdered c → Safe (send_frame f env c)
unfolding send_frame
send_frame-Safe f env c h =
    if_so-Safe c.conn.closed _ _ (close_net-Safe _ c h)
      (λ e. frame_put-Safe env f _ c (open_of c h e))

subscribe_made-Safe :
    (destination : Bytes) (mode : AckMode) (env : Env) (ch : ℕ) (x : Result Error Frame × ℕ)
    (c : Client)
    → c.conn.write_closed ≡ false
    → Safe (subscribe_made destination mode env ch x c)
unfolding subscribe_made subscribe_with
subscribe_made-Safe destination mode env ch (err e, last) c h = returns_open _ _ h
subscribe_made-Safe destination mode env ch (ok f, last) c h =
    put-Safe _ env.takes _ (returns _) h (returns_open _)

bad_mode-Safe : (x : Outcome Subscribed) → x ≡ bad_mode → Safe x
unfolding Safe
bad_mode-Safe x e = rw e tt

subscribe_on-Safe :
    (destination : Bytes) (mode : AckMode) (opts : List (Option FrameOpt)) (env : Env) (ch : ℕ)
    (c : Client)
    → c.conn.write_closed ≡ false
    → Safe (subscribe_on destination mode opts env ch c)
unfolding subscribe_on
subscribe_on-Safe destination mode opts env ch c h =
    elim (AckMode.string mode)
      as (λ x. Safe (elim x [
        | err e ↦ bad_mode
        | ok text ↦
            subscribe_made destination mode env ch
              (apply_opts opts
                (new Command.subscribe ((Key.destination, destination) ∷ (Key.ack, text) ∷ []))
                c.last_id)
              c
      ])) [
        | err e ↦ bad_mode-Safe bad_mode refl
        | ok text ↦ subscribe_made-Safe destination mode env ch _ c h
      ]

subscribe-Safe :
    (destination : Bytes) (mode : AckMode) (opts : List (Option FrameOpt)) (env : Env) (c : Client)
    → IsOrdered c
    → Safe (subscribe destination mode opts env c)
unfolding subscribe
subscribe-Safe destination mode opts env c h =
    if_so-Safe c.conn.closed _ _ (close_net-Safe _ c h) (λ e.
      make_chan-Safe c (subscribe_on destination mode opts env) (open_of c h e)
        (subscribe_on-Safe destination mode opts env))

send_made_frame-Safe :
    (x : Result Error (Option Frame)) (env : Env) (c : Client)
    → IsOrdered c
    → Safe (send_made_frame x env c)
unfolding send_made_frame
send_made_frame-Safe (err e) env c h = returns-Safe _ c h
send_made_frame-Safe (ok none) env c h = returns-Safe _ c h
send_made_frame-Safe (ok (some f)) env c h = send_frame-Safe f env c h

on_return-Safe : {A B : Type 0} (g : A → B) (x : Outcome A) → Safe x → Safe (on_return g x)
unfolding on_return Safe
on_return-Safe g (returns x c) h = h
on_return-Safe g waits h = tt
on_return-Safe g send_on_closed h = h
on_return-Safe g nil_frame h = tt
on_return-Safe g bad_mode h = tt

must_disconnect-IsOrdered : (c : Client) → IsOrdered c → IsOrdered (must_disconnect c)
unfolding must_disconnect shut close_net IsOrdered
must_disconnect-IsOrdered c h = ground arith

perform-Safe : (k : Call) (env : Env) (c : Client) → IsOrdered c → Safe (perform k env c)
unfolding perform ack nack begin_with_error error_received shut close_net Safe IsOrdered
perform-Safe (send_call destination content_type body opts) env c h =
    send-Safe destination content_type body opts env c h
perform-Safe (subscribe_call destination mode opts) env c h =
    on_return-Safe result_error _ (subscribe-Safe destination mode opts env c h)
perform-Safe (ack_call m) env c h = send_made_frame-Safe _ env c h
perform-Safe (nack_call m) env c h = send_made_frame-Safe _ env c h
perform-Safe begin_call env c h =
    send_frame-Safe (new Command.begin ((Key.transaction, (allocate_id c.last_id).0) ∷ [])) env
      (record c { last_id = (allocate_id c.last_id).1 }) h
perform-Safe disconnect_call env c h = disconnect-Safe env c h
perform-Safe (frame_call f) env c h = send_frame-Safe f env c h
perform-Safe must_disconnect_call env c h = must_disconnect-IsOrdered c h
perform-Safe error_call env c h = inr refl

Reach-IsOrdered : {start c : Client} → IsOrdered start → Reach start c → IsOrdered c
unfolding Safe
Reach-IsOrdered h here = h
Reach-IsOrdered h (next r k env e) = subst Safe e (perform-Safe k env _ (Reach-IsOrdered h r))

-- From a connection whose write channel is open, no calls, in whatever order and with whatever answers,
-- lead to one that sends on the write channel after it was closed.
pub perform-ne-send_on_closed :
    (start c : Client) (k : Call) (env : Env)
    → start.conn.write_closed ≡ false
    → Reach start c
    → perform k env c ≢ send_on_closed
unfolding Safe IsOrdered
perform-ne-send_on_closed start c k env h r e =
    subst Safe e (perform-Safe k env c (Reach-IsOrdered (inl h) r))

-- What a call on a closed connection returns. An acknowledgement that makes no frame is refused or let
-- through as on an open one.
abbrev ack_result : Result Error (Option Frame) → Err
ack_result (err e) = some e
ack_result (ok none) = none
ack_result (ok (some f)) = some closed_unexpectedly

abbrev pub closed_result : Call → Bytes → Err
closed_result (send_call destination content_type body opts) v = some already_closed
closed_result (subscribe_call destination mode opts) v = some closed_unexpectedly
closed_result (ack_call m) v = ack_result (create_ack_nack_frame v m true)
closed_result (nack_call m) v = ack_result (create_ack_nack_frame v m false)
closed_result begin_call v = some closed_unexpectedly
closed_result disconnect_call v = none
closed_result (frame_call f) v = some closed_unexpectedly
closed_result must_disconnect_call v = none
closed_result error_call v = none

-- The call returns `e`, and leaves the write channel as it was, with the connection closed.
abbrev pub Refuses : Err → Client → Outcome Err → Type 0
Refuses e c (returns x d) =
    (x ≡ e)
    × (d.conn.write_ch ≡ c.conn.write_ch)
    × (d.conn.write_closed ≡ c.conn.write_closed)
    × (d.conn.closed ≡ true)
Refuses e c waits = ⊥
Refuses e c send_on_closed = ⊥
Refuses e c nil_frame = ⊥
Refuses e c bad_mode = ⊥

frame-Refuses :
    (f : Frame) (env : Env) (c : Client)
    → c.conn.closed ≡ true
    → Refuses (some closed_unexpectedly) c (send_frame f env c)
unfolding send_frame close_net
frame-Refuses f env c h = rw (h) (refl, refl, refl, refl)

ack-Refuses :
    (x : Result Error (Option Frame)) (env : Env) (c : Client)
    → c.conn.closed ≡ true
    → Refuses (ack_result x) c (send_made_frame x env c)
unfolding send_made_frame
ack-Refuses (err e) env c h = (refl, refl, refl, h)
ack-Refuses (ok none) env c h = (refl, refl, refl, h)
ack-Refuses (ok (some f)) env c h = frame-Refuses f env c h

-- On a closed connection each call returns at once and queues no request: what would send a frame
-- returns an error, Disconnect and MustDisconnect return without one.
pub perform-Refuses :
    (k : Call) (env : Env) (c : Client)
    → c.conn.closed ≡ true
    → Refuses (closed_result k c.conn.version) c (perform k env c)
unfolding perform send subscribe ack nack begin_with_error disconnect must_disconnect error_received
    shut close_net on_return result_error
perform-Refuses (send_call destination content_type body opts) env c h =
    rw (h) (refl, refl, refl, refl)
perform-Refuses (subscribe_call destination mode opts) env c h = rw (h) (refl, refl, refl, refl)
perform-Refuses (ack_call m) env c h = ack-Refuses _ env c h
perform-Refuses (nack_call m) env c h = ack-Refuses _ env c h
perform-Refuses begin_call env c h =
    frame-Refuses (new Command.begin ((Key.transaction, (allocate_id c.last_id).0) ∷ [])) env
      (record c { last_id = (allocate_id c.last_id).1 }) h
perform-Refuses disconnect_call env c h = rw (h) (refl, refl, refl, refl)
perform-Refuses (frame_call f) env c h = frame-Refuses f env c h
perform-Refuses must_disconnect_call env c h = rw (h) (refl, refl, refl, refl)
perform-Refuses error_call env c h = (refl, refl, refl, refl)
