-- ===== src/Server/Queue/Invariant.antt =====
-- What is true of a queue between two calls, and that every call on it keeps it so.
use stomp.Prelude.{ℕ, ◌≡◌, refl, ◌∙◌, ap, inl, inr, false, [], ◌∷◌, Option, none, All, All-append}
use stomp.Go.Result.{ok}
use stomp.Frame.Base.{Frame}
use stomp.Server.Panic.{OrPanic}
use stomp.Server.Subscription.{Heap}
use stomp.Server.SubscriptionList
use stomp.Server.SubscriptionList.{Subs, mark}
use stomp.Server.Storage.{Storage, StoreError, IsLawful}
use stomp.Server.Queue.{Queue, World, subscribe, unsubscribe, enqueue, requeue}
use stomp.Server.Queue.View.{
  View, Delivery, subscribe_view, enqueue_view, requeue_view, IsFair, subscribe_view-IsFair,
  enqueue_view-IsFair, requeue_view-IsFair,
}
use stomp.Server.Queue.Laws.{Does, view, subscribe_lem, enqueue_lem, requeue_lem}
use stomp.Server.Queue.Members.{
  Waits, Distinct, Skips, All-Waits, All-other, Distinct-append, remove-Waits, give-heap,
  subscribe-heap,
}

-- The calls on a queue.
pub data Call : Type 0 where
  subscribing unsubscribing : ℕ → Call
  enqueuing requeuing : Frame → Call

module _ (st : Storage) (law : IsLawful st) where
  unfoldable pub perform : Queue → World st → Call → OrPanic (Queue × World st × Option StoreError)
  perform q w (subscribing r) = subscribe st q w r
  perform q w (unsubscribing r) = let x = unsubscribe st q w r in ok (x.0, x.1, none)
  perform q w (enqueuing f) = enqueue st q w f
  perform q w (requeuing f) = requeue st q w f

  -- The storage works; every subscription that waits has no frame, is marked as a member of a list and
  -- stands in this one once; and nobody waits while a frame of this queue is stored.
  pub record IsSound (q : Queue) (w : World st) : Type 0 where
    pub ready : law.Ready w.store_state
    pub waits : All (Waits w.heap) q.subs
    pub distinct : Distinct q.subs
    pub fair : IsFair (view st law q w)

  -- A subscription may ask a queue that is its own, without a frame and in no list.
  abbrev pub MayCall : Queue → World st → Call → Type 0
  MayCall q w (subscribing r) =
      ((w.heap r).dest ≡ q.destination) × ((w.heap r).frame ≡ none) × ((w.heap r).in_list ≡ false)
  MayCall q w (unsubscribing r) = Unit {0}
  MayCall q w (enqueuing f) = Unit {0}
  MayCall q w (requeuing f) = Unit {0}

  Does-IsFair :
      (q : Queue) (w : World st) (to : View × Delivery)
      (call : OrPanic (Queue × World st × Option StoreError)) (d : Does st law q w to call)
      → IsFair to.0
      → IsFair (view st law d.queue d.world)
  Does-IsFair q w to call d (inl e) = inl (d.waiting ∙ e)
  Does-IsFair q w to call d (inr e) =
      inr (ap (law.contents d.world.store_state) d.destination ∙ d.stored ∙ e)

  -- What is left when the head is served.
  Tail : Subs → Subs
  Tail [] = []
  Tail (r ∷ l) = l

  tail-Waits :
      (h g : Heap) (l : Subs)
      → ((j : ℕ) → Skips l j → g j ≡ h j)
      → Distinct l
      → All (Waits h) l
      → All (Waits g) (Tail l) × Distinct (Tail l)
  unfolding Tail
  tail-Waits h g [] same_at d a = (tt, tt)
  tail-Waits h g (r ∷ l) same_at d a = (All-Waits h g r l same_at d.0 a.1, d.1)

  enqueue_view-Tail :
      (v : View) (l : Subs) (f : Frame) → v.waiting ≡ l → (enqueue_view v l f).0.waiting ≡ Tail l
  unfolding Tail
  enqueue_view-Tail v [] f e = e
  enqueue_view-Tail v (r ∷ l) f e = refl

  requeue_view-Tail :
      (v : View) (l : Subs) (f : Frame) → v.waiting ≡ l → (requeue_view v l f).0.waiting ≡ Tail l
  unfolding Tail
  requeue_view-Tail v [] f e = e
  requeue_view-Tail v (r ∷ l) f e = refl

  -- A call that returns without an error, and leaves a sound queue.
  pub record Performs (call : OrPanic (Queue × World st × Option StoreError)) : Type 0 where
    pub queue : Queue
    pub world : World st
    pub returns : call ≡ ok (queue, world, none)
    pub sound : IsSound queue world

  All-idle : (h : Heap) (l : Subs) → All (Waits h) l → All (λ r. (h r).frame ≡ none) l
  All-idle h [] a = tt
  All-idle h (r ∷ l) a = (a.0.1, All-idle h l a.1)

  Does-Performs :
      (q : Queue) (w : World st) (to : View × Delivery)
      (call : OrPanic (Queue × World st × Option StoreError)) (d : Does st law q w to call)
      → IsSound q w
      → to.0.waiting ≡ Tail q.subs
      → IsFair to.0
      → ((j : ℕ) → Skips q.subs j → d.world.heap j ≡ w.heap j)
      → Performs call
  Does-Performs q w to call d s tail fair same_at =
      let (a, b) = tail-Waits w.heap d.world.heap q.subs same_at s.distinct s.waits in
      record {
        queue = d.queue;
        world = d.world;
        returns = d.returns;
        sound = record {
          ready = d.ready;
          waits = rw (d.waiting ∙ tail) a;
          distinct = rw (d.waiting ∙ tail) b;
          fair = Does-IsFair q w to call d fair;
        };
      }

  subscribing-Performs :
      (q : Queue) (w : World st) (r : ℕ)
      → IsSound q w
      → MayCall q w (subscribing r)
      → Performs (subscribe st q w r)
  subscribing-Performs q w r s (dest, idle, free) =
      let d = subscribe_lem st law q w r s.ready dest idle free in
      let (same_at, joined) = subscribe-heap st q d.queue w d.world r none idle d.returns in
      let others = All-other w.heap r q.subs free s.waits in
      let waits = All-Waits w.heap d.world.heap r q.subs same_at others s.waits in
      let fair =
        Does-IsFair q w (subscribe_view (view st law q w) (view st law q w).stored r)
          (subscribe st q w r) d (subscribe_view-IsFair (view st law q w) r s.fair) in
      record {
        queue = d.queue;
        world = d.world;
        returns = d.returns;
        sound = elim joined [
          | inl e ↦ record {
            ready = d.ready;
            waits = rw e waits;
            distinct = rw e s.distinct;
            fair = fair;
          }
          | inr (e, m) ↦ record {
            ready = d.ready;
            waits = rw e (All-append (Waits d.world.heap) q.subs (r ∷ []) waits (m, tt));
            distinct = rw e (Distinct-append r q.subs others s.distinct);
            fair = fair;
          }
        ];
      }

  unsubscribing-Performs :
      (q : Queue) (w : World st) (r : ℕ) → IsSound q w → Performs (perform q w (unsubscribing r))
  unfolding perform unsubscribe
  unsubscribing-Performs q w r s =
      let x = SubscriptionList.remove w.heap q.subs r in
      let (a, d) = remove-Waits r w.heap q.subs s.distinct s.waits in
      record {
        queue = record q { subs = x.1 };
        world = record w { heap = x.0 };
        returns = refl;
        sound = record {
          ready = s.ready;
          waits = a;
          distinct = d;
          fair = elim s.fair [
            | inl e ↦ inl (rw e (unfold SubscriptionList.remove in refl))
            | inr e ↦ inr e
          ];
        };
      }

  -- On a queue over a lawful storage that is sound, every call to subscribe, unsubscribe, enqueue
  -- or requeue returns without an error and without a panic and leaves the queue sound, if a
  -- subscription that subscribes is one of this destination, without a frame and in no list. Sound
  -- is: the storage is ready; who waits is marked as a member of a list, has no frame and stands in
  -- this list once; and nobody waits while a frame of this queue is stored.
  pub perform-IsSound :
      (q : Queue) (w : World st) (call : Call)
      → IsSound q w
      → MayCall q w call
      → Performs (perform q w call)
  unfolding perform enqueue requeue
  perform-IsSound q w (subscribing r) s m = subscribing-Performs q w r s m
  perform-IsSound q w (unsubscribing r) s m = unsubscribing-Performs q w r s
  perform-IsSound q w (enqueuing f) s m =
      let d = enqueue_lem st law q w f s.ready (All-idle w.heap q.subs s.waits) in
      Does-Performs q w (enqueue_view (view st law q w) q.subs f) (enqueue st q w f) d s
        (enqueue_view-Tail (view st law q w) q.subs f refl)
        (enqueue_view-IsFair (view st law q w) f s.fair)
        (give-heap st st.enqueue q d.queue w d.world f none q.subs refl d.returns)
  perform-IsSound q w (requeuing f) s m =
      let d = requeue_lem st law q w f s.ready (All-idle w.heap q.subs s.waits) in
      Does-Performs q w (requeue_view (view st law q w) q.subs f) (requeue st q w f) d s
        (requeue_view-Tail (view st law q w) q.subs f refl)
        (requeue_view-IsFair (view st law q w) f s.fair)
        (give-heap st st.requeue q d.queue w d.world f none q.subs refl d.returns)
