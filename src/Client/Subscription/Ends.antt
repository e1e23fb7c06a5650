-- ===== src/Client/Subscription/Ends.antt =====
-- subscription.go: how an `Unsubscribe` ends, and in which order the states come.
use stomp.Prelude.{
  ℕ, ◌≤◌, ◌≡◌, inl, inr, refl, subst, true, false, List, [], ◌∷◌, none, some, arith, same, All,
  Option-cases,
}
use stomp.Frame.Command
use stomp.Frame.Base.{Frame}
use stomp.Client.Subscription.{
  Subscription, SubState, active, closing, closed, Closing, entering, sending, storing, closing_c,
  broadcasting, Reader, receiving, delivering, loading, shutting, over, Caller, idle, preparing,
  transmitting, abandoning, checking, parking, waiting, timed_out, done, Act, receive, read_on,
  unsubscribe, options_done, frame_sent, call_on, expire_now, consume, send_c, close_c, close_step,
  wake, on_receive, received, is_closed, is_active, reader_step, reader_closing, start_unsubscribe,
  caller_step, last_message, expire, answer_options, answer_sent, consume_one, step, steps, Reach,
  here, next,
}
use stomp.Client.Subscription.CloseOnce.{OnSome, OnSome-elim}

pub rank : SubState → ℕ
rank active = 0
rank closing = 1
rank closed = 2

close_step-rank :
    (k : Closing) (s : Subscription)
    → OnSome (λ x. rank s.state ≤ rank (x.0).state) (close_step k s)
unfolding close_step send_c close_c rank
close_step-rank (entering m) s = ground arith
close_step-rank (sending m) s = ground arith
close_step-rank storing s = ground arith
close_step-rank closing_c s = ground arith
close_step-rank broadcasting s = ground arith

reader_step-rank :
    (r : Reader) (s : Subscription) → OnSome (λ t. rank s.state ≤ rank t.state) (reader_step r s)
unfolding reader_step send_c
reader_step-rank receiving s = tt
reader_step-rank (delivering m) s = ground arith
reader_step-rank (loading f) s = ground arith
reader_step-rank (shutting k) s =
    OnSome-elim _ _ _ (close_step k s) (close_step-rank k s) (λ x y. y)
reader_step-rank over s = tt

caller_step-rank :
    (c : Caller) (s : Subscription) → OnSome (λ t. rank s.state ≤ rank t.state) (caller_step c s)
unfolding caller_step send_c
caller_step-rank idle s = tt
caller_step-rank preparing s = tt
caller_step-rank transmitting s = tt
caller_step-rank (abandoning k e) s =
    OnSome-elim _ _ _ (close_step k s) (close_step-rank k s) (λ x y. y)
caller_step-rank (checking e) s = ground arith
caller_step-rank parking s = ground arith
caller_step-rank waiting s = tt
caller_step-rank timed_out s = ground arith
caller_step-rank (done e) s = tt

step-rank : (a : Act) (s : Subscription) → OnSome (λ t. rank s.state ≤ rank t.state) (step a s)
unfolding step received on_receive start_unsubscribe answer_options answer_sent expire consume_one
    rank is_active
step-rank (receive f) s = ground arith
step-rank read_on s = reader_step-rank s.reader s
step-rank unsubscribe s = ground arith
step-rank (options_done e) s = ground arith
step-rank (frame_sent e) s = ground arith
step-rank call_on s = caller_step-rank s.caller s
step-rank expire_now s = ground arith
step-rank consume s = ground arith

-- The state only goes on, from active to closing to closed; a state that is closed stays closed.
pub Reach-rank : {P : Act → Type 0} {s t : Subscription} → Reach P s t → rank s.state ≤ rank t.state
Reach-rank here = omega arith
Reach-rank {s = s} (next r a p e) = omega (arith, Reach-rank r, subst (OnSome _) e (step-rank a _))

-- The steps of a list of acts.
pub Reach-steps :
    {P : Act → Type 0} {start : Subscription} (s t : Subscription) (acts : List Act)
    → Reach P start s
    → All P acts
    → steps acts s ≡ some t
    → Reach P start t
unfolding steps
Reach-steps {P = P} {start = start} s t [] r p e =
    let same_end : s ≡ t = ground arith in subst (Reach P start) same_end r
Reach-steps s t (a ∷ acts) r p e = elim (Option-cases (step a s)) [
  | inl n ↦ absurd (ground arith)
  | inr (u, q) ↦ Reach-steps u t acts (next r a p.0 q) p.1 (ground arith)
]

-- What follows a RECEIPT frame that comes to the loop while Unsubscribe waits.
abbrev pub receipt_acts : Frame → List Act
receipt_acts f = receive (some f) ∷ read_on ∷ read_on ∷ read_on ∷ read_on ∷ read_on ∷ call_on ∷ []

-- Where Unsubscribe waits for the receipt, and closeChannel was not called.
abbrev waiting_at : Subscription → Subscription
waiting_at s = record s {
  reader = receiving;
  caller = waiting;
  once = false;
  c_closed = false;
  state = closing;
}

abbrev ended_at : Subscription → Subscription
ended_at s = record s {
  reader = over;
  caller = done none;
  once = true;
  once_done = true;
  c_closed = true;
  state = closed;
}

receipt_acts_lem :
    (s : Subscription) (f : Frame)
    → steps (receipt_acts (record f { command = Command.receipt })) (waiting_at s)
      ≡ some (ended_at s)
unfolding steps step received on_receive reader_step close_step caller_step close_c wake is_closed
    reader_closing last_message same
receipt_acts_lem s f = refl

-- Once Unsubscribe waits, and closeChannel was not called: if nothing comes between the steps that
-- follow a RECEIPT frame, they end it without an error; the loop closes C and ends, the state is closed,
-- and Unsubscribe returns.
pub steps-receipt :
    (s : Subscription) (f : Frame)
    → f.command ≡ Command.receipt
    → s.reader ≡ receiving
    → s.caller ≡ waiting
    → s.once ≡ false
    → s.c_closed ≡ false
    → s.state ≡ closing
    → steps (receipt_acts f) s
      ≡ some (record s {
        reader = over;
        caller = done none;
        c_closed = true;
        state = closed;
        once = true;
        once_done = true;
      })
steps-receipt s f q r c o k z =
    let standing : waiting_at s ≡ s = ground arith in
    let receipt : record f { command = Command.receipt } ≡ f = ground arith in
    subst (λ g. steps (receipt_acts g) s ≡ some (ended_at s)) receipt
      (subst
        (λ t. steps (receipt_acts (record f { command = Command.receipt })) t ≡ some (ended_at t))
        standing (receipt_acts_lem s f))

-- Unsubscribe waits without a timeout, and the loop has closed C and ended.
pub IsLost : Subscription → Type 0
IsLost s =
    (s.reader ≡ over) × (s.caller ≡ waiting) × (s.unsubscribe_timeout ≡ 0) × (s.state ≡ closed)

step-IsLost : (a : Act) (s : Subscription) → IsLost s → OnSome IsLost (step a s)
unfolding IsLost step received reader_step start_unsubscribe answer_options answer_sent caller_step
    expire consume_one is_active
step-IsLost (receive f) s h = rw (h.0) tt
step-IsLost read_on s h = rw (h.0) tt
step-IsLost unsubscribe s h = ground arith
step-IsLost (options_done e) s h = rw (h.1) tt
step-IsLost (frame_sent e) s h = rw (h.1) tt
step-IsLost call_on s h = rw (h.1) tt
step-IsLost expire_now s h = rw (h.1, h.2) tt
step-IsLost consume s h = ground arith

Reach-IsLost : {P : Act → Type 0} {s t : Subscription} → IsLost s → Reach P s t → IsLost t
Reach-IsLost h here = h
Reach-IsLost h (next r a p e) = subst (OnSome IsLost) e (step-IsLost a _ (Reach-IsLost h r))

abbrev parking_at : Subscription → Subscription
parking_at s = record s {
  reader = receiving;
  caller = parking;
  once = false;
  c_closed = false;
  state = closing;
}

abbrev pub lost_at : Subscription → Subscription
lost_at s = record s {
  reader = over;
  caller = waiting;
  once = true;
  once_done = true;
  c_closed = true;
  state = closed;
}

lost_acts_lem :
    (s : Subscription) (f : Frame)
    → steps (receipt_acts (record f { command = Command.receipt })) (parking_at s)
      ≡ some (lost_at s)
unfolding steps step received on_receive reader_step close_step caller_step close_c wake is_closed
    reader_closing last_message same
lost_acts_lem s f = refl

-- If the Wait of Unsubscribe comes behind the Broadcast of the loop, and there is no timeout, the same
-- acts leave Unsubscribe where it waits, and whatever happens after them it does not return.
pub steps-lost :
    (s t : Subscription) (f : Frame)
    → f.command ≡ Command.receipt
    → s.reader ≡ receiving
    → s.caller ≡ parking
    → s.once ≡ false
    → s.c_closed ≡ false
    → s.state ≡ closing
    → s.unsubscribe_timeout ≡ 0
    → Reach (λ a. Unit {0}) (lost_at s) t
    → (steps (receipt_acts f) s ≡ some (lost_at s)) × (t.caller ≡ waiting)
unfolding IsLost
steps-lost s t f q r c o k z u reached =
    let standing : parking_at s ≡ s = ground arith in
    let receipt : record f { command = Command.receipt } ≡ f = ground arith in
    (
      subst (λ g. steps (receipt_acts g) s ≡ some (lost_at s)) receipt
          (subst
            (λ t.
              steps (receipt_acts (record f { command = Command.receipt })) t ≡ some (lost_at t))
            standing (lost_acts_lem s f)),
      (Reach-IsLost (refl, refl, u, refl) reached).1,
    )
