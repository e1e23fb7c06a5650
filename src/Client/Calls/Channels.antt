-- ===== src/Client/Calls/Channels.antt =====
-- The channels that the calls of conn.go put on the write channel with their requests.
use stomp.Prelude.{
  ℕ, ◌+◌, ◌≤◌, ◌≡◌, refl, sym, ap, subst, Bool, true, false, List, [], ◌∷◌, ◌++◌, Option, none,
  some, arith, if◌then◌else◌,
}
use stomp.Go.Result.{Result, ok, err}
use stomp.Go.Int64.{Int64, less}
use stomp.Frame.Command
use stomp.Frame.Key
use stomp.Frame.Header.{Bytes, contains}
use stomp.Frame.Base.{Frame, new}
use stomp.Client.Error.{Error, disconnect_receipt_timeout}
use stomp.Client.Id.{allocate_id}
use stomp.Client.AckMode.{AckMode}
use stomp.Client.AckMode
use stomp.Client.Frames.{FrameOpt, apply_opts}
use stomp.Client.Connect.{WriteRequest}
use stomp.Client.Calls.{
  Client, Answer, response, ended, silence, Env, Outcome, returns, waits, send_on_closed, nil_frame,
  bad_mode, Err, same_error, on_return, result_error, put, put_in_time, read_receipt, make_chan,
  close_net, shut, after_receipt, disconnect_reply, disconnect_on, disconnect, must_disconnect,
  error_received, send_reply, send_on_chan, send_made, send_created, send, frame_response,
  frame_on_chan, frame_put, send_frame, subscribe_with, with_id, subscribe_made, subscribe_on,
  subscribe, send_made_frame, ack, nack, begin_with_error, Call, send_call, subscribe_call,
  ack_call, nack_call, begin_call, disconnect_call, frame_call, must_disconnect_call, error_call,
  perform, Reach, here, next,
}

abbrev pub chans_of : List WriteRequest → List (Option ℕ)
chans_of [] = []
chans_of (req ∷ w) = req.chan ∷ chans_of w

chans_of-append :
    (w : List WriteRequest) (req : WriteRequest)
    → chans_of (w ++ req ∷ []) ≡ chans_of w ++ req.chan ∷ []
chans_of-append [] req = refl
chans_of-append (x ∷ w) req = ap (λ l. x.chan ∷ l) (chans_of-append w req)

-- The channels of the requests grow, from `n` on, and are below `m`.
unfoldable pub Numbered : ℕ → List (Option ℕ) → ℕ → Type 0
Numbered n [] m = n ≤ m
Numbered n (none ∷ l) m = Numbered n l m
Numbered n (some ch ∷ l) m = (n ≤ ch) × Numbered (ch + 1) l m

Numbered-mono : (n : ℕ) (l : List (Option ℕ)) (m k : ℕ) → m ≤ k → Numbered n l m → Numbered n l k
unfolding Numbered
Numbered-mono n [] m k h x = omega arith
Numbered-mono n (none ∷ l) m k h x = Numbered-mono n l m k h x
Numbered-mono n (some ch ∷ l) m k h x = (x.0, Numbered-mono (ch + 1) l m k h x.1)

Numbered-none :
    (n : ℕ) (l : List (Option ℕ)) (m : ℕ) → Numbered n l m → Numbered n (l ++ none ∷ []) m
unfolding Numbered
Numbered-none n [] m x = x
Numbered-none n (none ∷ l) m x = Numbered-none n l m x
Numbered-none n (some ch ∷ l) m x = (x.0, Numbered-none (ch + 1) l m x.1)

Numbered-some :
    (n : ℕ) (l : List (Option ℕ)) (m : ℕ) → Numbered n l m → Numbered n (l ++ some m ∷ []) (m + 1)
unfolding Numbered
Numbered-some n [] m x = (x, omega arith)
Numbered-some n (none ∷ l) m x = Numbered-some n l m x
Numbered-some n (some ch ∷ l) m x = (x.0, Numbered-some (ch + 1) l m x.1)

unfoldable pub IsNumbered : Client → Type 0
IsNumbered c = Numbered 0 (chans_of c.conn.write_ch) c.conn.next_chan

-- The same, once the channel `ch` is made.
HasMade : ℕ → Client → Type 0
HasMade ch c = Numbered 0 (chans_of c.conn.write_ch) ch × (c.conn.next_chan ≡ ch + 1)

HasMade-IsNumbered : (ch : ℕ) (c : Client) → HasMade ch c → IsNumbered c
unfolding HasMade IsNumbered
HasMade-IsNumbered ch c h =
    Numbered-mono 0 (chans_of c.conn.write_ch) ch c.conn.next_chan (omega (arith, h.1)) h.0

Keeps : {A : Type 0} → Outcome A → Type 0
unfolding IsNumbered
Keeps (returns x c) = IsNumbered c
Keeps waits = Unit {0}
Keeps send_on_closed = Unit {0}
Keeps nil_frame = Unit {0}
Keeps bad_mode = Unit {0}

module _ {A : Type 0} where
  if-Keeps : (b : Bool) (x y : Outcome A) → Keeps x → Keeps y → Keeps (if b then x else y)
  if-Keeps true x y h k = h
  if-Keeps false x y h k = k

  returns-Keeps : (x : A) (c : Client) → IsNumbered c → Keeps (returns x c)
  unfolding Keeps
  returns-Keeps x c h = h

  refused-Keeps : (b : Bool) (y : Outcome A) → Keeps y → Keeps (if b then send_on_closed else y)
  unfolding Keeps
  refused-Keeps true y k = tt
  refused-Keeps false y k = k

  put_plain-Keeps :
      (f : Frame) (takes : Bool) (c : Client) (rest : Client → Outcome A)
      → IsNumbered c
      → ((d : Client) → IsNumbered d → Keeps (rest d))
      → Keeps (put (record { frame = f; chan = none }) takes c rest)
  unfolding put Keeps IsNumbered
  put_plain-Keeps f takes c rest h k = refused-Keeps c.conn.write_closed _ (
      if-Keeps takes _ _
        (k _ (
          subst (λ l. Numbered 0 l c.conn.next_chan) (sym (chans_of-append c.conn.write_ch _))
            (Numbered-none 0 (chans_of c.conn.write_ch) c.conn.next_chan h)))
        tt)

  put_chan-Keeps :
      (f : Frame) (ch : ℕ) (takes : Bool) (c : Client) (rest : Client → Outcome A)
      → HasMade ch c
      → ((d : Client) → IsNumbered d → Keeps (rest d))
      → Keeps (put (record { frame = f; chan = some ch }) takes c rest)
  unfolding put Keeps IsNumbered HasMade
  put_chan-Keeps f ch takes c rest h k = refused-Keeps c.conn.write_closed _ (
      if-Keeps takes _ _
        (k _ (
          subst
            (λ m.
              Numbered 0 (chans_of (c.conn.write_ch ++ record { frame = f; chan = some ch } ∷ []))
                m)
            (sym h.1)
            (subst (λ l. Numbered 0 l (ch + 1)) (sym (chans_of-append c.conn.write_ch _))
              (Numbered-some 0 (chans_of c.conn.write_ch) ch h.0))))
        tt)

  put_in_time-Keeps :
      (timeout : Int64) (req : WriteRequest) (takes : Bool) (c : Client)
      (rest : Err → Client → Outcome A)
      → ((e : Err) → Keeps (rest e c))
      → Keeps (put req takes c (rest none))
      → Keeps (put_in_time timeout req takes c rest)
  unfolding put_in_time
  put_in_time-Keeps timeout req takes c rest k h =
      if-Keeps (less 0 timeout) _ _
        (refused-Keeps c.conn.write_closed _ (if-Keeps takes _ _ h (k _))) h

  read_receipt-Keeps :
      (timeout : Int64) (e : Error) (answer : Answer) (c : Client) (rest : Err → Client → Outcome A)
      → ((e : Err) → Keeps (rest e c))
      → Keeps (read_receipt timeout e answer c rest)
  unfolding read_receipt Keeps
  read_receipt-Keeps timeout e (response f) c rest k = k _
  read_receipt-Keeps timeout e ended c rest k = tt
  read_receipt-Keeps timeout e silence c rest k = if-Keeps (less 0 timeout) _ _ (k _) tt

  make_chan-Keeps :
      (c : Client) (rest : ℕ → Client → Outcome A)
      → IsNumbered c
      → ((ch : ℕ) (d : Client) → HasMade ch d → Keeps (rest ch d))
      → Keeps (make_chan c rest)
  unfolding make_chan IsNumbered HasMade
  make_chan-Keeps c rest h k = k _ _ (h, refl)

after_receipt-Keeps :
    (env : Env) (e : Err) (c : Client) → IsNumbered c → Keeps (after_receipt env e c)
unfolding after_receipt shut close_net Keeps IsNumbered
after_receipt-Keeps env none c h = h
after_receipt-Keeps env (some e) c h =
    elim (same_error e disconnect_receipt_timeout)
      as (λ b. Keeps {A = Err} (returns (some e) (if b then shut c else c))) [
        | true ↦ h
        | false ↦ h
      ]

disconnect_on-Keeps :
    (env : Env) (ch : ℕ) (c : Client) → HasMade ch c → Keeps (disconnect_on env ch c)
unfolding disconnect_on disconnect_reply HasMade
disconnect_on-Keeps env ch c h = put_chan-Keeps _ ch env.takes _ (disconnect_reply env) h (λ d k.
    read_receipt-Keeps _ _ env.answer d (after_receipt env) (λ e. after_receipt-Keeps env e d k))

send_reply-Keeps : (env : Env) (e : Err) (c : Client) → IsNumbered c → Keeps (send_reply env e c)
unfolding send_reply
send_reply-Keeps env none c h =
    read_receipt-Keeps _ _ env.answer c returns (λ e. returns-Keeps e c h)
send_reply-Keeps env (some e) c h = returns-Keeps _ c h

close_net-Keeps : {A : Type 0} (x : A) (c : Client) → IsNumbered c → Keeps (returns x (close_net c))
unfolding close_net Keeps IsNumbered
close_net-Keeps x c h = h

disconnect-Keeps : (env : Env) (c : Client) → IsNumbered c → Keeps (disconnect env c)
unfolding disconnect
disconnect-Keeps env c h =
    if-Keeps c.conn.closed _ _ (returns-Keeps none c h)
      (make_chan-Keeps c (disconnect_on env) h (disconnect_on-Keeps env))

send_on_chan-Keeps :
    (env : Env) (f : Frame) (ch : ℕ) (c : Client) → HasMade ch c → Keeps (send_on_chan env f ch c)
unfolding send_on_chan
send_on_chan-Keeps env f ch c h =
    let plain = HasMade-IsNumbered ch c h in
    put_in_time-Keeps _ (record { frame = f; chan = some ch }) env.takes c (send_reply env)
      (λ e. send_reply-Keeps env e c plain)
      (put_chan-Keeps f ch env.takes c (send_reply env none) h (send_reply-Keeps env none))

send_made-Keeps :
    (env : Env) (f : Frame) (r : Option Bytes) (c : Client)
    → IsNumbered c
    → Keeps (send_made env f r c)
unfolding send_made
send_made-Keeps env f none c h =
    put_in_time-Keeps _ (record { frame = f; chan = none }) env.takes c returns
      (λ e. returns-Keeps e c h)
      (put_plain-Keeps f env.takes c (returns none) h (returns-Keeps none))
send_made-Keeps env f (some r) c h =
    make_chan-Keeps c (send_on_chan env f) h (send_on_chan-Keeps env f)

send_created-Keeps :
    (x : Result Error Frame × ℕ) (env : Env) (c : Client)
    → IsNumbered c
    → Keeps (send_created x env c)
unfolding send_created IsNumbered
send_created-Keeps (err e, last) env c h = returns-Keeps _ (record c { last_id = last }) h
send_created-Keeps (ok f, last) env c h =
    send_made-Keeps env f (contains f.header Key.receipt) (record c { last_id = last }) h

send-Keeps :
    (destination content_type body : Bytes) (opts : List (Option FrameOpt)) (env : Env) (c : Client)
    → IsNumbered c
    → Keeps (send destination content_type body opts env c)
unfolding send
send-Keeps destination content_type body opts env c h =
    if-Keeps c.conn.closed _ _ (returns-Keeps _ c h) (send_created-Keeps _ env c h)

frame_response-Keeps :
    (answer : Answer) (c : Client) → IsNumbered c → Keeps (frame_response answer c)
unfolding frame_response Keeps
frame_response-Keeps (response f) c h = h
frame_response-Keeps ended c h = h
frame_response-Keeps silence c h = if-Keeps (less 0 c.conn.write_timeout) _ _ h tt

frame_put-Keeps :
    (env : Env) (f : Frame) (r : Option Bytes) (c : Client)
    → IsNumbered c
    → Keeps (frame_put env f r c)
unfolding frame_put frame_on_chan
frame_put-Keeps env f none c h = put_plain-Keeps f env.takes c (returns none) h (returns-Keeps none)
frame_put-Keeps env f (some r) c h = make_chan-Keeps c (frame_on_chan env f) h (λ ch d k.
    put_chan-Keeps f ch env.takes d (frame_response env.answer) k (frame_response-Keeps env.answer))

send_frame-Keeps : (f : Frame) (env : Env) (c : Client) → IsNumbered c → Keeps (send_frame f env c)
unfolding send_frame
send_frame-Keeps f env c h =
    if-Keeps c.conn.closed _ _ (close_net-Keeps _ c h) (frame_put-Keeps env f _ c h)

subscribe_made-Keeps :
    (destination : Bytes) (mode : AckMode) (env : Env) (ch : ℕ) (x : Result Error Frame × ℕ)
    (c : Client)
    → HasMade ch c
    → Keeps (subscribe_made destination mode env ch x c)
unfolding subscribe_made subscribe_with IsNumbered HasMade
subscribe_made-Keeps destination mode env ch (err e, last) c h =
    returns-Keeps _ (record c { last_id = last }) (HasMade-IsNumbered ch c h)
subscribe_made-Keeps destination mode env ch (ok f, last) c h =
    put_chan-Keeps _ ch env.takes (record c { last_id = (with_id f last).1 }) (returns _) h
      (returns-Keeps _)

subscribe_on-Keeps :
    (destination : Bytes) (mode : AckMode) (opts : List (Option FrameOpt)) (env : Env) (ch : ℕ)
    (c : Client)
    → HasMade ch c
    → Keeps (subscribe_on destination mode opts env ch c)
unfolding subscribe_on Keeps
subscribe_on-Keeps destination mode opts env ch c h =
    elim (AckMode.string mode)
      as (λ x. Keeps (elim x [
        | err e ↦ bad_mode
        | ok text ↦
            subscribe_made destination mode env ch
              (apply_opts opts
                (new Command.subscribe ((Key.destination, destination) ∷ (Key.ack, text) ∷ []))
                c.last_id)
              c
      ])) [ err e ↦ tt | ok text ↦ subscribe_made-Keeps destination mode env ch _ c h ]

subscribe-Keeps :
    (destination : Bytes) (mode : AckMode) (opts : List (Option FrameOpt)) (env : Env) (c : Client)
    → IsNumbered c
    → Keeps (subscribe destination mode opts env c)
unfolding subscribe
subscribe-Keeps destination mode opts env c h = if-Keeps c.conn.closed _ _ (close_net-Keeps _ c h) (
    make_chan-Keeps c (subscribe_on destination mode opts env) h
      (subscribe_on-Keeps destination mode opts env))

send_made_frame-Keeps :
    (x : Result Error (Option Frame)) (env : Env) (c : Client)
    → IsNumbered c
    → Keeps (send_made_frame x env c)
unfolding send_made_frame
send_made_frame-Keeps (err e) env c h = returns-Keeps _ c h
send_made_frame-Keeps (ok none) env c h = returns-Keeps _ c h
send_made_frame-Keeps (ok (some f)) env c h = send_frame-Keeps f env c h

on_return-Keeps : {A B : Type 0} (g : A → B) (x : Outcome A) → Keeps x → Keeps (on_return g x)
unfolding on_return Keeps
on_return-Keeps g (returns x c) h = h
on_return-Keeps g waits h = tt
on_return-Keeps g send_on_closed h = tt
on_return-Keeps g nil_frame h = tt
on_return-Keeps g bad_mode h = tt

must_disconnect-IsNumbered : (c : Client) → IsNumbered c → IsNumbered (must_disconnect c)
unfolding must_disconnect shut close_net IsNumbered
must_disconnect-IsNumbered c h =
    elim c.conn.closed
      as (λ b.
        IsNumbered
          (if b then c else shut (record c { conn = record c.conn { write_closed = true } }))) [
            | true ↦ h
            | false ↦ h
          ]

perform-Keeps : (k : Call) (env : Env) (c : Client) → IsNumbered c → Keeps (perform k env c)
unfolding perform ack nack begin_with_error error_received shut close_net Keeps IsNumbered
perform-Keeps (send_call destination content_type body opts) env c h =
    send-Keeps destination content_type body opts env c h
perform-Keeps (subscribe_call destination mode opts) env c h =
    on_return-Keeps result_error _ (subscribe-Keeps destination mode opts env c h)
perform-Keeps (ack_call m) env c h = send_made_frame-Keeps _ env c h
perform-Keeps (nack_call m) env c h = send_made_frame-Keeps _ env c h
perform-Keeps begin_call env c h =
    send_frame-Keeps (new Command.begin ((Key.transaction, (allocate_id c.last_id).0) ∷ [])) env
      (record c { last_id = (allocate_id c.last_id).1 }) h
perform-Keeps disconnect_call env c h = disconnect-Keeps env c h
perform-Keeps (frame_call f) env c h = send_frame-Keeps f env c h
perform-Keeps must_disconnect_call env c h = must_disconnect-IsNumbered c h
perform-Keeps error_call env c h = h

-- The requests that the calls have put on the write channel have channels that grow.
pub Reach-IsNumbered : {start c : Client} → IsNumbered start → Reach start c → IsNumbered c
unfolding Keeps
Reach-IsNumbered h here = h
Reach-IsNumbered h (next r k env e) = subst Keeps e (perform-Keeps k env _ (Reach-IsNumbered h r))
