-- ===== src/Server/Queue/Laws.antt =====
-- A queue over a lawful storage is a line of waiting subscriptions and a line of frames.
use stomp.Prelude.{
  ℕ, ◌≡◌, refl, sym, true, false, List, [], ◌∷◌, ◌++◌, Option, none, some, same, same_refl, arith,
  All, append-nil,
}
use stomp.Go.Result.{ok}
use stomp.Frame.Key
use stomp.Frame.Header.{Bytes}
use stomp.Frame.Base.{Frame, set}
use stomp.Server.Panic.{OrPanic}
use stomp.Server.Subscription.{store, set_subscription_header}
use stomp.Server.SubscriptionList.{Subs, mark}
use stomp.Server.SubscriptionList
use stomp.Server.Storage.{StoreError, Storage, IsLawful, head_of}
use stomp.Server.Queue.View.{
  View, Delivery, subscribe_view, enqueue_view, requeue_view, receivers, Lies,
}
use stomp.Server.Queue.{Queue, World, send_queue_frame, subscribe, enqueue, requeue}

module _ (st : Storage) (law : IsLawful st) where
  abbrev pub view : Queue → World st → View
  view q w = record { waiting = q.subs; stored = law.contents w.store_state q.destination }

  -- What a call on the queue `q` in the world `w` is to come to: it returns, with no error and no
  -- panic; the queue is the abstract one; the delivery is made; and no other queue is touched.
  pub record Does (q : Queue) (w : World st) (to : View × Delivery)
      (call : OrPanic (Queue × World st × Option StoreError)) : Type 0 where
    pub queue : Queue
    pub world : World st
    pub returns : call ≡ ok (queue, world, none)
    pub ready : law.Ready world.store_state
    pub destination : queue.destination ≡ q.destination
    pub waiting : queue.subs ≡ to.0.waiting
    pub stored : law.contents world.store_state q.destination ≡ to.0.stored
    pub handed : world.handed ≡ w.handed ++ receivers to.1
    pub lies : Lies world.heap to.1
    pub others :
        (j : Bytes)
        → same q.destination j ≡ false
        → law.contents world.store_state j ≡ law.contents w.store_state j

  send_queue_frame_lem :
      (w : World st) (r : ℕ) (f : Frame)
      → (w.heap r).frame ≡ none
      → (w' : World st) × (send_queue_frame st w r f ≡ ok w')
        × (w'.store_state ≡ w.store_state)
        × (w'.handed ≡ w.handed ++ r ∷ [])
        × Lies w'.heap (some (r, f))
  unfolding send_queue_frame set_subscription_header store
  send_queue_frame_lem w r f e = (
    record w {
      heap =
          store w.heap r
            (record (w.heap r) { frame = some (set f Key.subscription (w.heap r).id) });
      handed = w.handed ++ r ∷ [];
    },
    rw e,
    refl,
    refl,
    ground arith,
  )

  subscribe_at :
      (q : Queue) (w : World st) (r : ℕ) (fs : List Frame)
      → law.contents w.store_state q.destination ≡ fs
      → law.Ready w.store_state
      → (w.heap r).dest ≡ q.destination
      → (w.heap r).frame ≡ none
      → (w.heap r).in_list ≡ false
      → Does q w (subscribe_view (view q w) fs r) (subscribe st q w r)
  unfolding subscribe SubscriptionList.add
  subscribe_at q w r [] e ready d fr il =
      let (s', eq, rdy, conts) = law.dequeue_lem w.store_state q.destination ready in
      let eq_dest : st.dequeue w.store_state (w.heap r).dest
          ≡ ok (s', head_of (law.contents w.store_state q.destination), none) =
        rw d eq in
      record {
        queue = record q { subs = q.subs ++ r ∷ [] };
        world = record w { store_state = s'; heap = mark w.heap r true };
        returns = rw (eq_dest, e, il) refl;
        ready = rdy;
        destination = refl;
        waiting = refl;
        stored = ground (arith, conts q.destination, same_refl q.destination);
        handed = sym (append-nil w.handed);
        lies = tt;
        others = λ j ne. ground (arith, conts j);
      }
  subscribe_at q w r (f ∷ fs) e ready d fr il =
      let (s', eq, rdy, conts) = law.dequeue_lem w.store_state q.destination ready in
      let eq_dest : st.dequeue w.store_state (w.heap r).dest
          ≡ ok (s', head_of (law.contents w.store_state q.destination), none) =
        rw d eq in
      let (w', sent, store_eq, handed_eq, lies_eq) =
        send_queue_frame_lem (record w { store_state = s' }) r f fr in
      record {
        queue = q;
        world = w';
        returns = rw (eq_dest, e) (rw sent refl);
        ready = rw store_eq rdy;
        destination = refl;
        waiting = refl;
        stored = rw store_eq (ground (arith, conts q.destination, same_refl q.destination));
        handed = handed_eq;
        lies = lies_eq;
        others = λ j ne. rw store_eq (ground (arith, conts j));
      }

  -- Over a lawful storage that is ready, and for a subscription of this destination that has no
  -- frame and is in no list, `Subscribe` does what the abstract queue says: it gets the oldest
  -- stored frame under its own id, or, if none is stored, waits behind the others; and no other
  -- queue's frames change.
  pub subscribe_lem :
      (q : Queue) (w : World st) (r : ℕ)
      → law.Ready w.store_state
      → (w.heap r).dest ≡ q.destination
      → (w.heap r).frame ≡ none
      → (w.heap r).in_list ≡ false
      → Does q w (subscribe_view (view q w) (view q w).stored r) (subscribe st q w r)
  subscribe_lem q w r = subscribe_at q w r (law.contents w.store_state q.destination) refl

  enqueue_at :
      (q : Queue) (w : World st) (f : Frame) (rs : Subs)
      → q.subs ≡ rs
      → law.Ready w.store_state
      → All (λ r. (w.heap r).frame ≡ none) rs
      → Does q w (enqueue_view (view q w) rs f) (enqueue st q w f)
  unfolding enqueue SubscriptionList.get store
  enqueue_at q w f [] e ready fr =
      let (s', eq, rdy, conts) = law.enqueue_lem w.store_state q.destination f ready in
      record {
        queue = record q { subs = [] };
        world = record w { store_state = s' };
        returns = rw e (rw eq refl);
        ready = rdy;
        destination = refl;
        waiting = sym e;
        stored = ground (arith, conts q.destination, same_refl q.destination);
        handed = sym (append-nil w.handed);
        lies = tt;
        others = λ j ne. ground (arith, conts j);
      }
  enqueue_at q w f (r ∷ rs) e ready fr =
      let (w', sent, store_eq, handed_eq, lies_eq) =
        send_queue_frame_lem (record w { heap = mark w.heap r false }) r f
          (unfold mark in ground (arith, fr.0)) in
      record {
        queue = record q { subs = rs };
        world = w';
        returns = rw e (rw sent refl);
        ready = rw store_eq ready;
        destination = refl;
        waiting = refl;
        stored = rw store_eq refl;
        handed = handed_eq;
        lies = lies_eq;
        others = λ j ne. rw store_eq refl;
      }

  requeue_at :
      (q : Queue) (w : World st) (f : Frame) (rs : Subs)
      → q.subs ≡ rs
      → law.Ready w.store_state
      → All (λ r. (w.heap r).frame ≡ none) rs
      → Does q w (requeue_view (view q w) rs f) (requeue st q w f)
  unfolding requeue SubscriptionList.get store
  requeue_at q w f [] e ready fr =
      let (s', eq, rdy, conts) = law.requeue_lem w.store_state q.destination f ready in
      record {
        queue = record q { subs = [] };
        world = record w { store_state = s' };
        returns = rw e (rw eq refl);
        ready = rdy;
        destination = refl;
        waiting = sym e;
        stored = ground (arith, conts q.destination, same_refl q.destination);
        handed = sym (append-nil w.handed);
        lies = tt;
        others = λ j ne. ground (arith, conts j);
      }
  requeue_at q w f (r ∷ rs) e ready fr =
      let (w', sent, store_eq, handed_eq, lies_eq) =
        send_queue_frame_lem (record w { heap = mark w.heap r false }) r f
          (unfold mark in ground (arith, fr.0)) in
      record {
        queue = record q { subs = rs };
        world = w';
        returns = rw e (rw sent refl);
        ready = rw store_eq ready;
        destination = refl;
        waiting = refl;
        stored = rw store_eq refl;
        handed = handed_eq;
        lies = lies_eq;
        others = λ j ne. rw store_eq refl;
      }

  -- Over a lawful storage that is ready, and if no subscription that waits has a frame, `Enqueue`
  -- does what the abstract queue says: the subscription that has waited longest gets the frame
  -- under its own id, or, if none waits, the frame goes to the end of what is stored; and no other
  -- queue's frames change.
  pub enqueue_lem :
      (q : Queue) (w : World st) (f : Frame)
      → law.Ready w.store_state
      → All (λ r. (w.heap r).frame ≡ none) q.subs
      → Does q w (enqueue_view (view q w) (view q w).waiting f) (enqueue st q w f)
  enqueue_lem q w f = enqueue_at q w f q.subs refl

  -- Over a lawful storage that is ready, and if no subscription that waits has a frame, `Requeue`
  -- does what the abstract queue says: the subscription that has waited longest gets the frame
  -- under its own id, or, if none waits, the frame goes to the head of what is stored; and no other
  -- queue's frames change.
  pub requeue_lem :
      (q : Queue) (w : World st) (f : Frame)
      → law.Ready w.store_state
      → All (λ r. (w.heap r).frame ≡ none) q.subs
      → Does q w (requeue_view (view q w) (view q w).waiting f) (requeue st q w f)
  requeue_lem q w f = requeue_at q w f q.subs refl
