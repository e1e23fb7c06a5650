-- ===== src/Client/Calls/Queues.antt =====
-- What `sendFrame` of conn.go puts on the write channel.
use stomp.Prelude.{
  ℕ, ◌≡◌, ◌⊎◌, inl, inr, refl, Bool, true, false, List, [], ◌∷◌, ◌++◌, Option, none, some,
  if◌then◌else◌,
}
use stomp.Go.Int64.{less}
use stomp.Frame.Header.{Bytes}
use stomp.Frame.Base.{Frame}
use stomp.Client.Connect.{WriteRequest}
use stomp.Client.Calls.{
  Client, Answer, response, ended, silence, Env, Outcome, returns, waits, send_on_closed, nil_frame,
  bad_mode, put, make_chan, close_net, frame_response, frame_on_chan, frame_put, send_frame,
  on_return,
}

-- A call that returns has put nothing on the write channel, or the frame `f`, behind the others; `w` is
-- what stood there.
abbrev pub Queues : {A : Type 0} → Frame → List WriteRequest → Outcome A → Type 0
Queues f w (returns x d) =
    (d.conn.write_ch ≡ w)
    ⊎ ((ch : Option ℕ) × (d.conn.write_ch ≡ w ++ record { frame = f; chan = ch } ∷ []))
Queues f w waits = Unit {0}
Queues f w send_on_closed = Unit {0}
Queues f w nil_frame = Unit {0}
Queues f w bad_mode = Unit {0}

if-Queues :
    {A : Type 0} (f : Frame) (w : List WriteRequest) (b : Bool) (x y : Outcome A)
    → Queues f w x
    → Queues f w y
    → Queues f w (if b then x else y)
if-Queues f w true x y h k = h
if-Queues f w false x y h k = k

frame_response-Queues :
    (f : Frame) (w : List WriteRequest) (ch : Option ℕ) (answer : Answer) (c : Client)
    → c.conn.write_ch ≡ w ++ record { frame = f; chan = ch } ∷ []
    → Queues f w (frame_response answer c)
unfolding frame_response
frame_response-Queues f w ch (response g) c h = inr (ch, h)
frame_response-Queues f w ch ended c h = inr (ch, h)
frame_response-Queues f w ch silence c h =
    if-Queues f w (less 0 c.conn.write_timeout) _ _ (inr (ch, h)) tt

frame_put-Queues :
    (env : Env) (f : Frame) (r : Option Bytes) (c : Client)
    → Queues f c.conn.write_ch (frame_put env f r c)
unfolding frame_put make_chan frame_on_chan put
frame_put-Queues env f none c =
    if-Queues f _ c.conn.write_closed _ _ tt (if-Queues f _ env.takes _ _ (inr (none, refl)) tt)
frame_put-Queues env f (some r) c =
    if-Queues f _ c.conn.write_closed _ _ tt
      (if-Queues f _ env.takes _ _ (frame_response-Queues f _ (some _) env.answer _ refl) tt)

pub send_frame-Queues :
    (f : Frame) (env : Env) (c : Client) → Queues f c.conn.write_ch (send_frame f env c)
unfolding send_frame close_net
send_frame-Queues f env c = if-Queues f _ c.conn.closed _ _ (inl refl) (frame_put-Queues env f _ c)

pub on_return-Queues :
    {A B : Type 0} (g : A → B) (f : Frame) (w : List WriteRequest) (x : Outcome A)
    → Queues f w x
    → Queues f w (on_return g x)
unfolding on_return
on_return-Queues g f w (returns x c) h = h
on_return-Queues g f w waits h = tt
on_return-Queues g f w send_on_closed h = tt
on_return-Queues g f w nil_frame h = tt
on_return-Queues g f w bad_mode h = tt
