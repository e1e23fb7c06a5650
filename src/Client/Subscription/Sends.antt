-- ===== src/Client/Subscription/Sends.antt =====
-- subscription.go: what is sent on the channel C of a subscription, against its close.
use stomp.Prelude.{
  ◌≡◌, ◌⊎◌, inl, inr, refl, ap, subst, Bool, true, false, none, some, arith, ltb, length,
}
use stomp.Go.Int64.{Int64}
use stomp.Client.Error.{closed_unexpectedly}
use stomp.Client.Calls.{same_error}
use stomp.Client.Message.{Message, SubInfo}
use stomp.Client.Subscription.{
  Subscription, new_subscription, entering, sending, storing, closing_c, broadcasting, Reader,
  receiving, delivering, loading, shutting, over, Caller, idle, preparing, transmitting, abandoning,
  checking, parking, waiting, timed_out, done, Act, receive, read_on, unsubscribe, options_done,
  frame_sent, call_on, expire_now, consume, send_c, close_c, close_step, wake, on_receive, received,
  is_active, reader_step, reader_closing, start_unsubscribe, prepared, transmitted, caller_step,
  answer_options, answer_sent, consume_one, step, Reach, here, next,
}
use stomp.Client.Subscription.CloseOnce.{
  OnSome, OnSome-elim, OnSome-if, IsSound, IsFresh, Reach-IsSound, new-IsFresh, new-IsSound,
  open_before, open_at_send,
}

-- Neither does sendFrame find the connection closed nor does the timer end.
unfoldable pub IsQuiet : Act → Type 0
IsQuiet (receive f) = Unit {0}
IsQuiet read_on = Unit {0}
IsQuiet unsubscribe = Unit {0}
IsQuiet (options_done e) = Unit {0}
IsQuiet (frame_sent none) = Unit {0}
IsQuiet (frame_sent (some e)) = same_error e closed_unexpectedly ≡ false
IsQuiet call_on = Unit {0}
IsQuiet expire_now = ⊥
IsQuiet consume = Unit {0}

-- Unsubscribe sends nothing on C.
quiet_caller : Caller → Bool
quiet_caller idle = true
quiet_caller preparing = true
quiet_caller transmitting = true
quiet_caller (abandoning k e) = false
quiet_caller (checking e) = true
quiet_caller parking = true
quiet_caller waiting = true
quiet_caller timed_out = false
quiet_caller (done e) = true

-- The loop has not come into the function of `closeOnce`.
before : Reader → Bool
before receiving = true
before (delivering m) = true
before (loading f) = true
before (shutting (entering m)) = true
before (shutting (sending m)) = false
before (shutting storing) = false
before (shutting closing_c) = false
before (shutting broadcasting) = false
before over = false

IsCalm : Subscription → Type 0
unfolding quiet_caller before
IsCalm s =
    (s.send_panic ≡ false)
    × (quiet_caller s.caller ≡ true)
    × ((before s.reader ≡ false) ⊎ (s.once ≡ false))

quiet_caller-wake : (c : Caller) → quiet_caller c ≡ true → quiet_caller (wake c) ≡ true
unfolding quiet_caller wake
quiet_caller-wake idle h = refl
quiet_caller-wake preparing h = refl
quiet_caller-wake transmitting h = refl
quiet_caller-wake (abandoning k e) h = h
quiet_caller-wake (checking e) h = refl
quiet_caller-wake parking h = refl
quiet_caller-wake waiting h = refl
quiet_caller-wake timed_out h = h
quiet_caller-wake (done e) h = refl

-- A send on C while it is open.
send_open :
    (m : Message) (s : Subscription)
    → s.c_closed ≡ false
    → OnSome
        (λ t. (t.send_panic ≡ s.send_panic) × (t.caller ≡ s.caller) × (t.once ≡ s.once))
        (send_c m s)
unfolding send_c
send_open m s c = rw (c, OnSome) (OnSome-if _ (ltb (length s.buffer) 16) _ _ (refl, refl, refl) tt)

send_c-IsCalm :
    (r : Reader) (m : Message) (s : Subscription)
    → s.c_closed ≡ false
    → IsCalm s
    → (before r ≡ false) ⊎ (s.once ≡ false)
    → OnSome IsCalm (elim (send_c m s) [ none ↦ none | some t ↦ some (record t { reader = r }) ])
unfolding IsCalm
send_c-IsCalm r m s c h b =
    OnSome-elim _ _ _ (send_c m s) (send_open m s c) (λ t x. rw (x.0, x.1, x.2) (h.0, h.1, b))

once_false :
    (r : Reader) (s : Subscription) → s.reader ≡ r → before r ≡ true → IsCalm s → s.once ≡ false
unfolding IsCalm
once_false r s e b h = ground (arith, ap before e)

reader_step-IsCalm :
    (r : Reader) (s : Subscription)
    → s.reader ≡ r
    → IsSound s
    → IsCalm s
    → OnSome IsCalm (reader_step r s)
unfolding reader_step IsCalm before close_step close_c send_c reader_closing quiet_caller
reader_step-IsCalm receiving s e k h = tt
reader_step-IsCalm (delivering m) s e k h =
    let o = once_false (delivering m) s e refl h in
    send_c-IsCalm receiving m s (open_before s k o) h (inr o)
reader_step-IsCalm (loading f) s e k h = ground arith
reader_step-IsCalm (shutting (entering m)) s e k h = ground arith
reader_step-IsCalm (shutting (sending m)) s e k h =
    OnSome-elim (λ x. IsCalm (record (x.0) { reader = reader_closing x.1 })) _ _ _
      (OnSome-elim _ _ _ (send_c m s) (send_open m s (open_at_send s m k e))
        (λ t x. rw (x.0, x.1, x.2) (h.0, h.1, inl refl)))
      (λ x y. y)
reader_step-IsCalm (shutting storing) s e k h = ground arith
reader_step-IsCalm (shutting closing_c) s e k h = ground arith
reader_step-IsCalm (shutting broadcasting) s e k h = (h.0, quiet_caller-wake s.caller h.1, inl refl)
reader_step-IsCalm over s e k h = tt

caller_step-IsCalm :
    (c : Caller) (s : Subscription)
    → quiet_caller c ≡ true
    → IsCalm s
    → OnSome IsCalm (caller_step c s)
unfolding caller_step IsCalm quiet_caller
caller_step-IsCalm idle s e h = tt
caller_step-IsCalm preparing s e h = tt
caller_step-IsCalm transmitting s e h = tt
caller_step-IsCalm (abandoning k e') s e h = absurd (ground arith)
caller_step-IsCalm (checking e') s e h = ground arith
caller_step-IsCalm parking s e h = (h.0, refl, h.2)
caller_step-IsCalm waiting s e h = tt
caller_step-IsCalm timed_out s e h = absurd (ground arith)
caller_step-IsCalm (done e') s e h = tt

step-IsCalm :
    (a : Act) (s : Subscription) → IsQuiet a → IsSound s → IsCalm s → OnSome IsCalm (step a s)
unfolding step IsCalm IsQuiet received on_receive before start_unsubscribe answer_options prepared
    answer_sent transmitted quiet_caller consume_one is_active
step-IsCalm (receive f) s q k h = ground arith
step-IsCalm read_on s q k h = reader_step-IsCalm s.reader s refl k h
step-IsCalm unsubscribe s q k h = ground arith
step-IsCalm (options_done e) s q k h = ground arith
step-IsCalm (frame_sent none) s q k h = ground arith
step-IsCalm (frame_sent (some e)) s q k h = ground arith
step-IsCalm call_on s q k h = caller_step-IsCalm s.caller s h.1 h
step-IsCalm expire_now s q k h = absurd q
step-IsCalm consume s q k h = ground arith

Reach-IsCalm :
    {s t : Subscription} → IsFresh s → IsSound s → IsCalm s → Reach IsQuiet s t → IsCalm t
Reach-IsCalm f k h here = h
Reach-IsCalm f k h (next r a p e) =
    subst (OnSome IsCalm) e (step-IsCalm a _ p (Reach-IsSound f k r) (Reach-IsCalm f k h r))

new-IsCalm : (info : SubInfo) (timeout : Int64) → IsCalm (new_subscription info timeout)
unfolding IsCalm new_subscription quiet_caller
new-IsCalm info timeout = (refl, refl, inr refl)

-- As long as sendFrame does not find the connection closed and the timer of Unsubscribe does not end, a
-- new subscription never sends on C after its close, in whatever order its two threads run.
pub Reach-sends_open :
    (info : SubInfo) (timeout : Int64) (s : Subscription)
    → Reach IsQuiet (new_subscription info timeout) s
    → s.send_panic ≡ false
unfolding IsCalm
Reach-sends_open info timeout s r =
    (Reach-IsCalm (new-IsFresh info timeout) (new-IsSound info timeout) (new-IsCalm info timeout)
      r).0
