-- ===== src/Client/Subscription/Ending.antt =====
-- subscription.go: how an `Unsubscribe` without a timeout ends once its RECEIPT frame was received.
use stomp.Prelude.{
  ◌≤◌, ◌≡◌, ◌⊎◌, inl, inr, refl, sym, ap, ◌∙◌, subst, Bool, true, false, List, [], ◌∷◌, Option,
  none, some, arith, same, All, length,
}
use stomp.Frame.Command
use stomp.Frame.Base.{Frame}
use stomp.Client.Subscription.{
  Subscription, SubState, closing, closed, entering, storing, closing_c, broadcasting, Reader,
  loading, shutting, over, Caller, waiting, checking, done, Act, receive, read_on, unsubscribe,
  options_done, frame_sent, call_on, expire_now, consume, close_c, close_step, wake, received,
  is_closed, is_active, reader_step, reader_closing, start_unsubscribe, caller_step, last_message,
  expire, answer_options, answer_sent, consume_one, step, steps, Reach, here, next,
}
use stomp.Client.Message.{Message}
use stomp.Client.Subscription.CloseOnce.{OnSome}

-- How far the loop is with closeChannel while Unsubscribe waits: before the load of the state, before
-- `Do`, and before each statement of its function.
pub data Shutting : Type 0 where
  before_load before_do before_store before_close before_broadcast : Shutting

-- The same, or Unsubscribe has been woken, or has returned.
pub data Stage : Type 0 where
  shut_at : Shutting → Stage
  woken ended : Stage

reader_at : Frame → Shutting → Reader
reader_at f before_load = loading (some f)
reader_at f before_do = shutting (entering none)
reader_at f before_store = shutting storing
reader_at f before_close = shutting closing_c
reader_at f before_broadcast = shutting broadcasting

state_at : Shutting → SubState
state_at before_load = closing
state_at before_do = closing
state_at before_store = closing
state_at before_close = closed
state_at before_broadcast = closed

once_at : Shutting → Bool
once_at before_load = false
once_at before_do = false
once_at before_store = true
once_at before_close = true
once_at before_broadcast = true

closed_at : Shutting → Bool
closed_at before_load = false
closed_at before_do = false
closed_at before_store = false
closed_at before_close = false
closed_at before_broadcast = true

abbrev behind : Caller → Subscription → Subscription
behind c s = record s {
  reader = over;
  caller = c;
  state = closed;
  once = true;
  once_done = true;
  c_closed = true;
  unsubscribe_timeout = 0;
}

-- The subscription at a stage; the rest is as in `s`.
unfoldable pub at_stage : Frame → Stage → Subscription → Subscription
unfolding reader_at state_at once_at closed_at
at_stage f (shut_at x) s = record s {
  reader = reader_at f x;
  caller = waiting;
  state = state_at x;
  once = once_at x;
  c_closed = closed_at x;
  unsubscribe_timeout = 0;
}
at_stage f woken s = behind (checking none) s
at_stage f ended s = behind (done none) s

pub follow : Stage → Stage
follow (shut_at before_load) = shut_at before_do
follow (shut_at before_do) = shut_at before_store
follow (shut_at before_store) = shut_at before_close
follow (shut_at before_close) = shut_at before_broadcast
follow (shut_at before_broadcast) = woken
follow woken = ended
follow ended = ended

abbrev receipt_of : Frame → Frame
receipt_of f = record f { command = Command.receipt }

abbrev pub IsAt : Frame → Stage → Subscription → Type 0
IsAt f g t = (u : Subscription) × (t ≡ at_stage f g u)

-- At the stage, or at the next one.
abbrev Onward : Frame → Stage → Subscription → Type 0
Onward f g t = IsAt f g t ⊎ IsAt f (follow g) t

module _ (f : Frame) where
  receive-none :
      (x : Shutting) (o : Option Frame) (u : Subscription)
      → step (receive o) (at_stage (receipt_of f) (shut_at x) u) ≡ none
  unfolding step received at_stage reader_at
  receive-none before_load o u = refl
  receive-none before_do o u = refl
  receive-none before_store o u = refl
  receive-none before_close o u = refl
  receive-none before_broadcast o u = refl

  -- The loop goes on at each stage.
  read_on-Onward :
      (x : Shutting) (u : Subscription)
      → OnSome
          (Onward (receipt_of f) (shut_at x))
          (step read_on (at_stage (receipt_of f) (shut_at x) u))
  unfolding step reader_step at_stage reader_at state_at once_at closed_at follow last_message
      is_closed close_step close_c wake reader_closing same
  read_on-Onward before_load u = inr (u, refl)
  read_on-Onward before_do u = inr (u, refl)
  read_on-Onward before_store u = inr (u, refl)
  read_on-Onward before_close u = inr (u, refl)
  read_on-Onward before_broadcast u = inr (u, refl)

  consume_one-Onward :
      (l : List Message) (g : Stage) (u : Subscription)
      → OnSome (Onward (receipt_of f) g) (consume_one l (at_stage (receipt_of f) g u))
  unfolding consume_one at_stage
  consume_one-Onward [] g u = tt
  consume_one-Onward (m ∷ l) (shut_at x) u = inl (record u { buffer = l }, refl)
  consume_one-Onward (m ∷ l) woken u = inl (record u { buffer = l }, refl)
  consume_one-Onward (m ∷ l) ended u = inl (record u { buffer = l }, refl)

  -- Unsubscribe is called again, and refused.
  unsubscribe-none :
      (x : Shutting) (u : Subscription)
      → step unsubscribe (at_stage (receipt_of f) (shut_at x) u)
        ≡ some (at_stage (receipt_of f) (shut_at x) u)
  unfolding step start_unsubscribe at_stage is_active state_at
  unsubscribe-none before_load u = refl
  unsubscribe-none before_do u = refl
  unsubscribe-none before_store u = refl
  unsubscribe-none before_close u = refl
  unsubscribe-none before_broadcast u = refl

  step-Onward :
      (a : Act) (g : Stage) (u : Subscription)
      → OnSome (Onward (receipt_of f) g) (step a (at_stage (receipt_of f) g u))
  unfolding step received start_unsubscribe is_active reader_step answer_options answer_sent
      caller_step expire at_stage follow is_closed
  step-Onward (receive o) (shut_at x) u = rw (receive-none x o u) tt
  step-Onward (receive o) woken u = tt
  step-Onward (receive o) ended u = tt
  step-Onward read_on (shut_at x) u = read_on-Onward x u
  step-Onward read_on woken u = tt
  step-Onward read_on ended u = tt
  step-Onward unsubscribe (shut_at x) u =
      subst (OnSome (Onward (receipt_of f) (shut_at x))) (sym (unsubscribe-none x u))
        (inl (u, refl))
  step-Onward unsubscribe woken u = inl (u, refl)
  step-Onward unsubscribe ended u = inl (u, refl)
  step-Onward (options_done e) (shut_at x) u = tt
  step-Onward (options_done e) woken u = tt
  step-Onward (options_done e) ended u = tt
  step-Onward (frame_sent e) (shut_at x) u = tt
  step-Onward (frame_sent e) woken u = tt
  step-Onward (frame_sent e) ended u = tt
  step-Onward call_on (shut_at x) u = tt
  step-Onward call_on woken u = inr (u, refl)
  step-Onward call_on ended u = tt
  step-Onward expire_now (shut_at x) u = tt
  step-Onward expire_now woken u = tt
  step-Onward expire_now ended u = tt
  step-Onward consume g u = consume_one-Onward (at_stage (receipt_of f) g u).buffer g u

  -- What any acts lead to.
  Reach-IsAt :
      {P : Act → Type 0} {s t : Subscription}
      → (g : Stage) × IsAt (receipt_of f) g s
      → Reach P s t
      → (g : Stage) × IsAt (receipt_of f) g t
  Reach-IsAt h here = h
  Reach-IsAt h (next {s = r} reached a p e) =
      let (g, (u, q)) = Reach-IsAt h reached in
      let at_t : step a (at_stage (receipt_of f) g u) ≡ some _ = ap (step a) (sym q) ∙ e in
      elim (subst (OnSome (Onward (receipt_of f) g)) at_t (step-Onward a g u)) [
        | inl x ↦ (g, x)
        | inr x ↦ (follow g, x)
      ]

-- The steps of the two threads that are left.
abbrev pub rest_of : Stage → List Act
rest_of (shut_at before_load) = read_on ∷ read_on ∷ read_on ∷ read_on ∷ read_on ∷ call_on ∷ []
rest_of (shut_at before_do) = read_on ∷ read_on ∷ read_on ∷ read_on ∷ call_on ∷ []
rest_of (shut_at before_store) = read_on ∷ read_on ∷ read_on ∷ call_on ∷ []
rest_of (shut_at before_close) = read_on ∷ read_on ∷ call_on ∷ []
rest_of (shut_at before_broadcast) = read_on ∷ call_on ∷ []
rest_of woken = call_on ∷ []
rest_of ended = []

rest_of-steps :
    (f : Frame) (g : Stage) (u : Subscription)
    → steps (rest_of g) (at_stage (receipt_of f) g u) ≡ some (behind (done none) u)
unfolding steps step reader_step caller_step at_stage reader_at state_at once_at closed_at
    last_message is_closed close_step close_c wake reader_closing same
rest_of-steps f (shut_at before_load) u = refl
rest_of-steps f (shut_at before_do) u = refl
rest_of-steps f (shut_at before_store) u = refl
rest_of-steps f (shut_at before_close) u = refl
rest_of-steps f (shut_at before_broadcast) u = refl
rest_of-steps f woken u = refl
rest_of-steps f ended u = refl

-- A step of the loop or of Unsubscribe, without an answer from outside or a timer.
abbrev pub IsOwn : Act → Type 0
IsOwn a = (a ≡ read_on) ⊎ (a ≡ call_on)

rest_of-IsOwn : (g : Stage) → (length (rest_of g) ≤ 6) × All IsOwn (rest_of g)
rest_of-IsOwn (shut_at before_load) =
    (omega arith, (inl refl, (inl refl, (inl refl, (inl refl, (inl refl, (inr refl, tt)))))))
rest_of-IsOwn (shut_at before_do) =
    (omega arith, (inl refl, (inl refl, (inl refl, (inl refl, (inr refl, tt))))))
rest_of-IsOwn (shut_at before_store) =
    (omega arith, (inl refl, (inl refl, (inl refl, (inr refl, tt)))))
rest_of-IsOwn (shut_at before_close) = (omega arith, (inl refl, (inl refl, (inr refl, tt))))
rest_of-IsOwn (shut_at before_broadcast) = (omega arith, (inl refl, (inr refl, tt)))
rest_of-IsOwn woken = (omega arith, (inr refl, tt))
rest_of-IsOwn ended = (omega arith, tt)

-- The loop has received a RECEIPT frame while Unsubscribe waits without a timeout, and closeChannel was
-- not called. Then, in whatever state any acts have led to, at most six steps of the loop and of
-- Unsubscribe, which all can be taken, end both: C is closed, the state is closed, and Unsubscribe has
-- returned without an error. No acts lead to a state from which this is not so.
pub Reach-ends :
    {P : Act → Type 0} (s t : Subscription) (f : Frame)
    → f.command ≡ Command.receipt
    → s.reader ≡ loading (some f)
    → s.caller ≡ waiting
    → s.once ≡ false
    → s.c_closed ≡ false
    → s.state ≡ closing
    → s.unsubscribe_timeout ≡ 0
    → Reach P s t
    → (acts : List Act) × (u : Subscription) × (length acts ≤ 6)
      × All IsOwn acts
      × (steps acts t ≡ some u)
      × (u.reader ≡ over)
      × (u.caller ≡ done none)
      × (u.c_closed ≡ true)
      × (u.state ≡ closed)
unfolding at_stage reader_at state_at once_at closed_at
Reach-ends s t f q r c o k z w reached =
    let start : s ≡ at_stage (receipt_of f) (shut_at before_load) s = ground arith in
    let (g, (u, e)) = Reach-IsAt f (shut_at before_load, (s, start)) reached in
    let (short, own) = rest_of-IsOwn g in
    (
      rest_of g,
      behind (done none) u,
      short,
      own,
      ap (steps (rest_of g)) e ∙ rest_of-steps f g u,
      refl,
      refl,
      refl,
      refl,
    )
