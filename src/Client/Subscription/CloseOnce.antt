-- ===== src/Client/Subscription/CloseOnce.antt =====
-- subscription.go: how often the channel C of a subscription is closed, whoever calls `closeChannel`.
use stomp.Prelude.{
  ◌≡◌, ◌⊎◌, inl, inr, refl, sym, subst, Bool, true, false, List, [], ◌∷◌, Option, none, some, arith,
  ◌==◌, ltb, length, if◌then◌else◌,
}
use stomp.Go.Result.{ok, err}
use stomp.Go.Int64.{Int64}
use stomp.Client.Error.{Error, completed_subscription}
use stomp.Client.Calls.{Err}
use stomp.Client.Message.{Message, SubInfo}
use stomp.Frame.Base.{Frame}
use stomp.Client.Subscription.{
  Subscription, new_subscription, SubState, active, closing, closed, Closing, entering, sending,
  storing, closing_c, broadcasting, Reader, receiving, delivering, loading, shutting, over, Caller,
  idle, preparing, transmitting, abandoning, checking, parking, waiting, timed_out, done, Act,
  receive, read_on, unsubscribe, options_done, frame_sent, call_on, expire_now, consume, send_c,
  close_c, close_step, wake, on_receive, received, is_closed, is_active, reader_step,
  reader_closing, start_unsubscribe, prepared, transmitted, caller_step, caller_closing, expire,
  answer_options, answer_sent, consume_one, step, Reach, here, next,
}

-- How far the function of `closeOnce` has come, for a thread that is in it.
data Stage : Type 0 where
  early stored shut : Stage

stage : Closing → Option Stage
stage (entering m) = none
stage (sending m) = some early
stage storing = some early
stage closing_c = some stored
stage broadcasting = some shut

stage? : Option Closing → Option Stage
unfolding stage
stage? none = none
stage? (some k) = stage k

reader_stage : Reader → Option Stage
unfolding stage
reader_stage receiving = none
reader_stage (delivering m) = none
reader_stage (loading f) = none
reader_stage (shutting k) = stage k
reader_stage over = none

caller_stage : Caller → Option Stage
unfolding stage
caller_stage idle = none
caller_stage preparing = none
caller_stage transmitting = none
caller_stage (abandoning k e) = stage k
caller_stage (checking e) = none
caller_stage parking = none
caller_stage waiting = none
caller_stage timed_out = none
caller_stage (done e) = none

-- The flags `once` and `c_closed`, and whether the state is closed.
AtStage : Stage → Bool → Bool → Bool → Type 0
AtStage early o c t = (o ≡ true) × (c ≡ false) × (t ≡ false)
AtStage stored o c t = (o ≡ true) × (c ≡ false) × (t ≡ true)
AtStage shut o c t = (o ≡ true) × (c ≡ true) × (t ≡ true)

-- Two threads, of which at most one is in the function of `closeOnce`.
Holds : Option Stage → Option Stage → Bool → Bool → Bool → Type 0
unfolding AtStage
Holds none none o c t =
    ((o ≡ false) × (c ≡ false) × (t ≡ false)) ⊎ ((o ≡ true) × (c ≡ true) × (t ≡ true))
Holds (some k) none o c t = AtStage k o c t
Holds none (some k) o c t = AtStage k o c t
Holds (some k) (some j) o c t = ⊥

Holds-swap : (k j : Option Stage) (o c t : Bool) → Holds k j o c t → Holds j k o c t
unfolding Holds
Holds-swap none none o c t h = h
Holds-swap (some k) none o c t h = h
Holds-swap none (some j) o c t h = h
Holds-swap (some k) (some j) o c t h = absurd h

abbrev SoundAt : Option Stage → Option Stage → Subscription → Type 0
unfolding is_closed
SoundAt k j s = (s.close_panic ≡ false) × Holds k j s.once s.c_closed (is_closed s.state)

pub IsSound : Subscription → Type 0
unfolding reader_stage caller_stage
IsSound s = SoundAt (reader_stage s.reader) (caller_stage s.caller) s

-- What an act leads to, where it can happen, is within `P`.
abbrev pub OnSome : {A : Type 0} → (A → Type 0) → Option A → Type 0
OnSome P none = Unit {0}
OnSome P (some x) = P x

pub OnSome-elim :
    {A B : Type 0} (P : A → Type 0) (Q : B → Type 0) (g : A → B) (o : Option A)
    → OnSome P o
    → ((x : A) → P x → Q (g x))
    → OnSome Q (elim o [ none ↦ none | some x ↦ some (g x) ])
OnSome-elim P Q g none h k = tt
OnSome-elim P Q g (some x) h k = k x h

pub OnSome-pair :
    {A : Type 0} (P Q : A → Type 0) (o : Option A)
    → OnSome P o
    → OnSome Q o
    → OnSome (λ x. P x × Q x) o
OnSome-pair P Q none h k = tt
OnSome-pair P Q (some x) h k = (h, k)

pub OnSome-if :
    {A : Type 0} (P : A → Type 0) (b : Bool) (x y : Option A)
    → OnSome P x
    → OnSome P y
    → OnSome P (if b then x else y)
OnSome-if P true x y h k = h
OnSome-if P false x y h k = k

abbrev Kept : Option Stage → Subscription × Option Closing → Type 0
unfolding stage?
Kept j x = SoundAt (stage? x.1) j x.0

-- A statement of closeChannel, beside a thread at the stage `j`.
close_step-Kept :
    (k : Closing) (j : Option Stage) (s : Subscription)
    → SoundAt (stage k) j s
    → OnSome (Kept j) (close_step k s)
unfolding Holds stage stage? AtStage close_step send_c close_c is_closed
close_step-Kept (entering none) none s h = ground arith
close_step-Kept (entering (some m)) none s h = ground arith
close_step-Kept (entering m) (some early) s h = ground arith
close_step-Kept (entering m) (some stored) s h = ground arith
close_step-Kept (entering m) (some shut) s h = ground arith
close_step-Kept (sending m) none s h = ground arith
close_step-Kept (sending m) (some j) s h = absurd h.1
close_step-Kept storing none s h = ground arith
close_step-Kept storing (some j) s h = absurd h.1
close_step-Kept closing_c none s h = ground arith
close_step-Kept closing_c (some j) s h = absurd h.1
close_step-Kept broadcasting none s h = ground arith
close_step-Kept broadcasting (some j) s h = absurd h.1

reader_stage-closing : (k : Option Closing) → reader_stage (reader_closing k) ≡ stage? k
unfolding reader_stage reader_closing stage?
reader_stage-closing none = refl
reader_stage-closing (some k) = refl

caller_stage-closing :
    (k : Option Closing) (e : Error) → caller_stage (caller_closing k e) ≡ stage? k
unfolding caller_stage caller_closing stage?
caller_stage-closing none e = refl
caller_stage-closing (some k) e = refl

-- Waking the caller moves no thread into the function.
caller_stage-wake : (c : Caller) → caller_stage (wake c) ≡ caller_stage c
unfolding caller_stage wake
caller_stage-wake idle = refl
caller_stage-wake preparing = refl
caller_stage-wake transmitting = refl
caller_stage-wake (abandoning k e) = refl
caller_stage-wake (checking e) = refl
caller_stage-wake parking = refl
caller_stage-wake waiting = refl
caller_stage-wake timed_out = refl
caller_stage-wake (done e) = refl

-- The other thread's stage stays under a statement of closeChannel.
close_step-stages :
    (k : Closing) (s : Subscription)
    → OnSome
        (λ x. ((x.0).reader ≡ s.reader) × (caller_stage (x.0).caller ≡ caller_stage s.caller))
        (close_step k s)
unfolding close_step send_c close_c
close_step-stages (entering m) s = ground arith
close_step-stages (sending m) s = ground arith
close_step-stages storing s = (refl, refl)
close_step-stages closing_c s = ground arith
close_step-stages broadcasting s = (refl, caller_stage-wake s.caller)

-- `C` is sent on: only the buffer changes, or the flag of that panic.
send_c-SoundAt :
    (k j : Option Stage) (m : Message) (s : Subscription)
    → SoundAt k j s
    → OnSome (λ t. SoundAt k j t × (t.reader ≡ s.reader) × (t.caller ≡ s.caller)) (send_c m s)
unfolding send_c SoundAt
send_c-SoundAt k j m s h =
    OnSome-if _ s.c_closed _ _ (h, refl, refl)
      (OnSome-if _ (ltb (length s.buffer) 16) _ _ (h, refl, refl) tt)

-- No thread comes into the function but by `closeOnce`.
reader_stage-loaded :
    (b : Bool) (m : Option Message)
    → reader_stage (if b then over else shutting (entering m)) ≡ none
unfolding reader_stage stage
reader_stage-loaded true m = refl
reader_stage-loaded false m = refl

caller_stage-checked : (b : Bool) (e : Err) → caller_stage (if b then done e else parking) ≡ none
unfolding caller_stage
caller_stage-checked true e = refl
caller_stage-checked false e = refl

caller_stage-transmitted : (info : SubInfo) (e : Err) → caller_stage (transmitted info e) ≡ none
unfolding caller_stage transmitted stage
caller_stage-transmitted info none = refl
caller_stage-transmitted info (some e) = ground arith

on_receive-outside :
    (f : Option Frame) (s : Subscription)
    → SoundAt none (caller_stage s.caller) s
    → IsSound (on_receive f s)
unfolding on_receive reader_stage SoundAt IsSound
on_receive-outside none s h = h
on_receive-outside (some f) s h = ground (arith, h)

reader_step-IsSound :
    (r : Reader) (s : Subscription)
    → SoundAt (reader_stage r) (caller_stage s.caller) s
    → OnSome IsSound (reader_step r s)
unfolding reader_step reader_stage IsSound SoundAt Kept
reader_step-IsSound receiving s h = tt
reader_step-IsSound (delivering m) s h =
    OnSome-elim _ _ _ (send_c m s) (send_c-SoundAt none (caller_stage s.caller) m s h)
      (λ t x. rw x.2 x.0)
reader_step-IsSound (loading f) s h = rw (reader_stage-loaded (is_closed s.state) _) h
reader_step-IsSound (shutting k) s h =
    OnSome-elim _ _ _ (close_step k s)
      (OnSome-pair _ _ (close_step k s) (close_step-Kept k (caller_stage s.caller) s h)
        (close_step-stages k s))
      (λ x y. rw (reader_stage-closing x.1, y.1.1) y.0)
reader_step-IsSound over s h = tt

caller_step-IsSound :
    (c : Caller) (s : Subscription)
    → SoundAt (reader_stage s.reader) (caller_stage c) s
    → OnSome IsSound (caller_step c s)
unfolding caller_step caller_stage IsSound SoundAt Kept
caller_step-IsSound idle s h = tt
caller_step-IsSound preparing s h = tt
caller_step-IsSound transmitting s h = tt
caller_step-IsSound (abandoning k e) s h =
    OnSome-elim _ _ _ (close_step k s)
      (OnSome-pair _ _ (close_step k s)
        (close_step-Kept k (reader_stage s.reader) s
          (h.0, Holds-swap (reader_stage s.reader) (stage k) _ _ _ h.1))
        (close_step-stages k s))
      (λ x y.
        rw (caller_stage-closing x.1 e, y.1.0)
          ((y.0).0, Holds-swap (stage? x.1) (reader_stage s.reader) _ _ _ (y.0).1))
caller_step-IsSound (checking e) s h = rw (caller_stage-checked (is_closed s.state) e) h
caller_step-IsSound parking s h = h
caller_step-IsSound waiting s h = tt
caller_step-IsSound timed_out s h =
    OnSome-elim _ _ _ (send_c _ s) (send_c-SoundAt (reader_stage s.reader) none _ s h)
      (λ t x. rw x.1 x.0)
caller_step-IsSound (done e) s h = tt

received-IsSound :
    (f : Option Frame) (r : Reader) (s : Subscription)
    → SoundAt (reader_stage r) (caller_stage s.caller) s
    → OnSome IsSound (received f r s)
unfolding received reader_stage SoundAt IsSound
received-IsSound f receiving s h = on_receive-outside f s h
received-IsSound f (delivering m) s h = tt
received-IsSound f (loading g) s h = tt
received-IsSound f (shutting k) s h = tt
received-IsSound f over s h = tt

answer_options-IsSound :
    (e : Err) (c : Caller) (s : Subscription)
    → SoundAt (reader_stage s.reader) (caller_stage c) s
    → OnSome IsSound (answer_options e c s)
unfolding answer_options prepared caller_stage SoundAt IsSound
answer_options-IsSound none preparing s h = h
answer_options-IsSound (some e) preparing s h = h
answer_options-IsSound e idle s h = tt
answer_options-IsSound e transmitting s h = tt
answer_options-IsSound e (abandoning k e') s h = tt
answer_options-IsSound e (checking e') s h = tt
answer_options-IsSound e parking s h = tt
answer_options-IsSound e waiting s h = tt
answer_options-IsSound e timed_out s h = tt
answer_options-IsSound e (done e') s h = tt

answer_sent-IsSound :
    (e : Err) (c : Caller) (s : Subscription)
    → SoundAt (reader_stage s.reader) (caller_stage c) s
    → OnSome IsSound (answer_sent e c s)
unfolding answer_sent caller_stage SoundAt IsSound
answer_sent-IsSound e transmitting s h = rw (caller_stage-transmitted s.info e) h
answer_sent-IsSound e preparing s h = tt
answer_sent-IsSound e idle s h = tt
answer_sent-IsSound e (abandoning k e') s h = tt
answer_sent-IsSound e (checking e') s h = tt
answer_sent-IsSound e parking s h = tt
answer_sent-IsSound e waiting s h = tt
answer_sent-IsSound e timed_out s h = tt
answer_sent-IsSound e (done e') s h = tt

expire-IsSound :
    (c : Caller) (s : Subscription)
    → SoundAt (reader_stage s.reader) (caller_stage c) s
    → OnSome IsSound (expire c s)
unfolding expire caller_stage SoundAt IsSound
expire-IsSound parking s h = OnSome-if IsSound (s.unsubscribe_timeout == 0) _ _ tt h
expire-IsSound waiting s h = OnSome-if IsSound (s.unsubscribe_timeout == 0) _ _ tt h
expire-IsSound idle s h = tt
expire-IsSound preparing s h = tt
expire-IsSound transmitting s h = tt
expire-IsSound (abandoning k e) s h = tt
expire-IsSound (checking e) s h = tt
expire-IsSound timed_out s h = tt
expire-IsSound (done e) s h = tt

consume_one-IsSound :
    (l : List Message) (s : Subscription) → IsSound s → OnSome IsSound (consume_one l s)
unfolding consume_one IsSound SoundAt
consume_one-IsSound [] s h = tt
consume_one-IsSound (m ∷ l) s h = h

is_idle : Caller → Bool
is_idle idle = true
is_idle preparing = false
is_idle transmitting = false
is_idle (abandoning k e) = false
is_idle (checking e) = false
is_idle parking = false
is_idle waiting = false
is_idle timed_out = false
is_idle (done e) = false

-- A subscription is active only as long as Unsubscribe was not called.
pub IsFresh : Subscription → Type 0
unfolding is_active is_idle
IsFresh s = (is_active s.state ≡ false) ⊎ (is_idle s.caller ≡ true)

is_idle-wake : (c : Caller) → is_idle (wake c) ≡ is_idle c
unfolding is_idle wake
is_idle-wake idle = refl
is_idle-wake preparing = refl
is_idle-wake transmitting = refl
is_idle-wake (abandoning k e) = refl
is_idle-wake (checking e) = refl
is_idle-wake parking = refl
is_idle-wake waiting = refl
is_idle-wake timed_out = refl
is_idle-wake (done e) = refl

close_step-inactive :
    (k : Closing) (s : Subscription)
    → is_active s.state ≡ false
    → OnSome (λ x. is_active (x.0).state ≡ false) (close_step k s)
unfolding close_step send_c close_c is_active
close_step-inactive (entering m) s h = ground arith
close_step-inactive (sending m) s h = ground arith
close_step-inactive storing s h = refl
close_step-inactive closing_c s h = ground arith
close_step-inactive broadcasting s h = h

close_step-IsFresh :
    (k : Closing) (s : Subscription) → IsFresh s → OnSome (λ x. IsFresh x.0) (close_step k s)
unfolding IsFresh is_active close_step send_c close_c wake
close_step-IsFresh (entering m) s h = ground arith
close_step-IsFresh (sending m) s h = ground arith
close_step-IsFresh storing s h = ground arith
close_step-IsFresh closing_c s h = ground arith
close_step-IsFresh broadcasting s h = rw (is_idle-wake s.caller) h

reader_step-IsFresh : (r : Reader) (s : Subscription) → IsFresh s → OnSome IsFresh (reader_step r s)
unfolding IsFresh reader_step send_c
reader_step-IsFresh receiving s h = tt
reader_step-IsFresh (delivering m) s h = ground arith
reader_step-IsFresh (loading f) s h = h
reader_step-IsFresh (shutting k) s h =
    OnSome-elim _ _ _ (close_step k s) (close_step-IsFresh k s h) (λ x y. y)
reader_step-IsFresh over s h = tt

-- Whatever a thread that is not idle does, the state is no longer active.
caller_step-IsFresh :
    (c : Caller) (s : Subscription)
    → (is_active s.state ≡ false) ⊎ (is_idle c ≡ true)
    → OnSome IsFresh (caller_step c s)
unfolding IsFresh caller_step send_c is_idle
caller_step-IsFresh idle s h = tt
caller_step-IsFresh preparing s h = tt
caller_step-IsFresh transmitting s h = tt
caller_step-IsFresh (abandoning k e) s (inl h) =
    OnSome-elim _ _ _ (close_step k s) (close_step-inactive k s h) (λ x y. inl y)
caller_step-IsFresh (abandoning k e) s (inr h) = absurd (ground arith)
caller_step-IsFresh (checking e) s h = ground arith
caller_step-IsFresh parking s h = ground arith
caller_step-IsFresh waiting s h = tt
caller_step-IsFresh timed_out s h = ground arith
caller_step-IsFresh (done e) s h = tt

step-IsFresh : (a : Act) (s : Subscription) → IsFresh s → OnSome IsFresh (step a s)
unfolding step IsFresh start_unsubscribe received on_receive answer_options answer_sent expire
    consume_one is_idle
step-IsFresh (receive f) s h = ground arith
step-IsFresh read_on s h = reader_step-IsFresh s.reader s h
step-IsFresh unsubscribe s h = ground arith
step-IsFresh (options_done e) s h = ground arith
step-IsFresh (frame_sent e) s h = ground arith
step-IsFresh call_on s h = caller_step-IsFresh s.caller s h
step-IsFresh expire_now s h = ground arith
step-IsFresh consume s h = ground arith

not_closed : (st : SubState) → is_active st ≡ true → is_closed st ≡ false
unfolding is_active is_closed
not_closed active h = refl
not_closed closing h = refl
not_closed closed h = sym h

caller_stage-idle : (c : Caller) → is_idle c ≡ true → caller_stage c ≡ none
unfolding is_idle caller_stage
caller_stage-idle idle h = refl
caller_stage-idle preparing h = refl
caller_stage-idle transmitting h = refl
caller_stage-idle (abandoning k e) h = absurd (ground arith)
caller_stage-idle (checking e) h = refl
caller_stage-idle parking h = refl
caller_stage-idle waiting h = refl
caller_stage-idle timed_out h = refl
caller_stage-idle (done e) h = refl

unsubscribed-IsSound :
    (s : Subscription)
    → is_active s.state ≡ true
    → is_idle s.caller ≡ true
    → IsSound s
    → IsSound (record s { state = closing; caller = preparing })
unfolding IsSound SoundAt
unsubscribed-IsSound s a i h = (
  h.0,
  subst (λ t. Holds (reader_stage s.reader) none s.once s.c_closed t) (not_closed s.state a)
      (subst (λ k. Holds (reader_stage s.reader) k s.once s.c_closed (is_closed s.state))
        (caller_stage-idle s.caller i) h.1),
)

unsubscribe-by :
    (b : Bool) (e : Error) (s t : Subscription)
    → IsSound s
    → (b ≡ true → IsSound t)
    → OnSome IsSound (elim (if b then ok t else err e) [ err e' ↦ some s | ok t' ↦ some t' ])
unsubscribe-by true e s t h k = k refl
unsubscribe-by false e s t h k = h

unsubscribe-IsSound :
    (s : Subscription) → IsFresh s → IsSound s → OnSome IsSound (step unsubscribe s)
unfolding step start_unsubscribe IsFresh
unsubscribe-IsSound s f h =
    unsubscribe-by (is_active s.state) completed_subscription s _ h
      (λ a. unsubscribed-IsSound s a (ground (arith, f, a)) h)

step-IsSound : (a : Act) (s : Subscription) → IsFresh s → IsSound s → OnSome IsSound (step a s)
unfolding step IsSound start_unsubscribe IsFresh
step-IsSound (receive f) s fr h = received-IsSound f s.reader s h
step-IsSound read_on s fr h = reader_step-IsSound s.reader s h
step-IsSound unsubscribe s fr h = unsubscribe-IsSound s fr h
step-IsSound (options_done e) s fr h = answer_options-IsSound e s.caller s h
step-IsSound (frame_sent e) s fr h = answer_sent-IsSound e s.caller s h
step-IsSound call_on s fr h = caller_step-IsSound s.caller s h
step-IsSound expire_now s fr h = expire-IsSound s.caller s h
step-IsSound consume s fr h = consume_one-IsSound s.buffer s h

pub Reach-IsFresh : {P : Act → Type 0} {s t : Subscription} → IsFresh s → Reach P s t → IsFresh t
Reach-IsFresh f here = f
Reach-IsFresh f (next r a p e) = subst (OnSome IsFresh) e (step-IsFresh a _ (Reach-IsFresh f r))

pub Reach-IsSound :
    {P : Act → Type 0} {s t : Subscription} → IsFresh s → IsSound s → Reach P s t → IsSound t
Reach-IsSound f h here = h
Reach-IsSound f h (next r a p e) =
    subst (OnSome IsSound) e (step-IsSound a _ (Reach-IsFresh f r) (Reach-IsSound f h r))

pub new-IsFresh : (info : SubInfo) (timeout : Int64) → IsFresh (new_subscription info timeout)
unfolding IsFresh new_subscription is_idle
new-IsFresh info timeout = inr refl

pub new-IsSound : (info : SubInfo) (timeout : Int64) → IsSound (new_subscription info timeout)
unfolding IsSound SoundAt new_subscription reader_stage caller_stage Holds is_closed
new-IsSound info timeout = (refl, inl (refl, refl, refl))

is_closed_inv : (st : SubState) → is_closed st ≡ true → st ≡ closed
unfolding is_closed
is_closed_inv active h = ground arith
is_closed_inv closing h = ground arith
is_closed_inv closed h = refl

c_closed-closed : (k j : Option Stage) (o c t : Bool) → Holds k j o c t → c ≡ true → t ≡ true
unfolding Holds AtStage
c_closed-closed none none o c t h e = ground arith
c_closed-closed (some early) none o c t h e = ground arith
c_closed-closed (some stored) none o c t h e = ground arith
c_closed-closed (some shut) none o c t h e = ground arith
c_closed-closed none (some early) o c t h e = ground arith
c_closed-closed none (some stored) o c t h e = ground arith
c_closed-closed none (some shut) o c t h e = ground arith
c_closed-closed (some k) (some j) o c t h e = absurd h

open_of : (k j : Option Stage) (o c t : Bool) → Holds k j o c t → o ≡ false → c ≡ false
unfolding Holds AtStage
open_of none none o c t h e = ground arith
open_of (some early) none o c t h e = ground arith
open_of (some stored) none o c t h e = ground arith
open_of (some shut) none o c t h e = ground arith
open_of none (some early) o c t h e = ground arith
open_of none (some stored) o c t h e = ground arith
open_of none (some shut) o c t h e = ground arith
open_of (some k) (some j) o c t h e = absurd h

pub open_before : (s : Subscription) → IsSound s → s.once ≡ false → s.c_closed ≡ false
unfolding IsSound SoundAt
open_before s h e = open_of _ _ _ _ _ h.1 e

early_open : (j : Option Stage) (o c t : Bool) → Holds (some early) j o c t → c ≡ false
unfolding Holds AtStage
early_open none o c t h = h.1
early_open (some j) o c t h = absurd h

pub open_at_send :
    (s : Subscription) (m : Message)
    → IsSound s
    → s.reader ≡ shutting (sending m)
    → s.c_closed ≡ false
unfolding IsSound SoundAt reader_stage stage
open_at_send s m h e = early_open (caller_stage s.caller) s.once s.c_closed (is_closed s.state) (
    subst
      (λ r. Holds (reader_stage r) (caller_stage s.caller) s.once s.c_closed (is_closed s.state)) e
      h.1)

-- Whatever a new subscription goes through, in whatever order its two threads run, C is never closed a
-- second time, and where C is closed the state is closed.
pub Reach-closes_once :
    (info : SubInfo) (timeout : Int64) (s : Subscription)
    → Reach (λ a. Unit {0}) (new_subscription info timeout) s
    → (s.close_panic ≡ false) × (s.c_closed ≡ true → s.state ≡ closed)
unfolding IsSound SoundAt
Reach-closes_once info timeout s r =
    let h = Reach-IsSound (new-IsFresh info timeout) (new-IsSound info timeout) r in
    (h.0, λ e. is_closed_inv s.state (c_closed-closed _ _ _ _ _ h.1 e))
