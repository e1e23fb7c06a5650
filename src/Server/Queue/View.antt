-- ===== src/Server/Queue/View.antt =====
-- The abstract queue, which Queue/Laws and Queue/Invariant compare the queue with.
use stomp.Prelude.{ℕ, ◌≡◌, refl, ◌⊎◌, inl, inr, List, [], ◌∷◌, ◌++◌, Option, none, some, arith}
use stomp.Frame.Key
use stomp.Frame.Base.{Frame, set}
use stomp.Server.Subscription.{Heap}
use stomp.Server.SubscriptionList.{Subs}

-- The abstract queue: who waits, and what is stored.
pub record View : Type 0 where
  pub waiting : Subs
  pub stored : List Frame

-- A delivery: a frame goes to a subscription, or none does.
abbrev pub Delivery : Type 0
Delivery = Option (ℕ × Frame)

-- A subscription that is ready gets the oldest frame, or waits behind the others.
abbrev pub subscribe_view : View → List Frame → ℕ → View × Delivery
subscribe_view v [] r = (record v { waiting = v.waiting ++ r ∷ [] }, none)
subscribe_view v (f ∷ fs) r = (record v { stored = fs }, some (r, f))

-- A frame goes to the subscription that has waited longest, or to the end of the line.
abbrev pub enqueue_view : View → Subs → Frame → View × Delivery
enqueue_view v [] f = (record v { stored = v.stored ++ f ∷ [] }, none)
enqueue_view v (r ∷ rs) f = (record v { waiting = rs }, some (r, f))

-- A frame that comes back goes to the head of the line instead.
abbrev pub requeue_view : View → Subs → Frame → View × Delivery
requeue_view v [] f = (record v { stored = f ∷ v.stored }, none)
requeue_view v (r ∷ rs) f = (record v { waiting = rs }, some (r, f))

-- Nobody waits while a frame is stored.
abbrev pub IsFair : View → Type 0
IsFair v = (v.waiting ≡ []) ⊎ (v.stored ≡ [])

pub subscribe_view-IsFair : (v : View) (r : ℕ) → IsFair v → IsFair (subscribe_view v v.stored r).0
subscribe_view-IsFair v r h = go v.stored refl
  where
    go : (fs : List Frame) → v.stored ≡ fs → IsFair (subscribe_view v fs r).0
    go [] e = inr e
    go (f ∷ fs) e = ground arith

pub enqueue_view-IsFair : (v : View) (f : Frame) → IsFair v → IsFair (enqueue_view v v.waiting f).0
enqueue_view-IsFair v f h = go v.waiting refl
  where
    go : (rs : Subs) → v.waiting ≡ rs → IsFair (enqueue_view v rs f).0
    go [] e = inl e
    go (r ∷ rs) e = ground arith

pub requeue_view-IsFair : (v : View) (f : Frame) → IsFair v → IsFair (requeue_view v v.waiting f).0
requeue_view-IsFair v f h = go v.waiting refl
  where
    go : (rs : Subs) → v.waiting ≡ rs → IsFair (requeue_view v rs f).0
    go [] e = inl e
    go (r ∷ rs) e = ground arith

-- Who gets the frame.
abbrev pub receivers : Delivery → List ℕ
receivers none = []
receivers (some (r, f)) = r ∷ []

-- The frame lies with its receiver, under the receiver's subscription id.
abbrev pub Lies : Heap → Delivery → Type 0
Lies h none = Unit {0}
Lies h (some (r, f)) = (h r).frame ≡ some (set f Key.subscription (h r).id)
