-- ===== src/Server/Processor/Laws.antt =====
-- What a request comes to.
use stomp.Prelude.{
  ℕ, ◌≤◌, ◌≡◌, refl, sym, true, false, [], ◌++◌, Option, none, some, arith, All, ◌⊎◌, inl, inr,
  Option-cases,
}
use stomp.Go.Result.{ok, err}
use stomp.Go.Map
use stomp.Go.Map.{Map, lookup-insert}
use stomp.Frame.Key
use stomp.Frame.Header.{Bytes, contains}
use stomp.Frame.Base.{Frame}
use stomp.Server.Panic.{already_in_list, OrPanic}
use stomp.Server.SubscriptionList
use stomp.Server.Storage.{StoreError, Storage, IsLawful}
use stomp.Server.Queue.{Queue, World}
use stomp.Server.Queue
use stomp.Server.Queue.View.{View, Delivery, enqueue_view, requeue_view, subscribe_view}
use stomp.Server.Queue.Laws.{view, Does, enqueue_lem, requeue_lem, subscribe_lem}
use stomp.Server.Topic.{Topic}
use stomp.Server.Topic
use stomp.Server.Topic.Laws.{copies, enqueue-Broadcasts}
use stomp.Server.Conn.State.{subscribe_op, enqueue_op, requeue_op}
use stomp.Server.Processor.{Processor, is_queue_destination, next_timeout, serve}

-- The pause after a failed accept never falls, is five milliseconds at least, and stops growing at
-- five seconds, from zero on and from every pause in that range.
pub next_timeout_bounds :
    (t : ℕ)
    → (t ≡ 0) ⊎ ((5 ≤ t) × (t ≤ 5000))
    → (t ≤ next_timeout t) × (5 ≤ next_timeout t) × (next_timeout t ≤ 5000)
unfolding next_timeout
next_timeout_bounds t (inl h) = ground arith
next_timeout_bounds t (inr h) = ground arith

-- Every queue of the manager stands under its own destination.
abbrev pub IsKeyed : Map Queue → Type 0
IsKeyed qm = (j : Bytes) (q : Queue) → Map.lookup qm j ≡ some q → q.destination ≡ j

find-destination :
    (qm : Map Queue) (dest : Bytes) → IsKeyed qm → ((Queue.find qm dest).0).destination ≡ dest
unfolding Queue.find Queue.new_queue
find-destination qm dest keyed = elim (Option-cases (Map.lookup qm dest)) [
  | inl e ↦ rw e refl
  | inr (q, e) ↦ rw e (keyed dest q e)
]

module _ (st : Storage) (law : IsLawful st) (p : Processor st) where
  -- A message for a topic whose subscribers have no frame pending is written to each of them, in
  -- the order of subscription, each copy under its own subscription id; queues, storage and
  -- subscriptions stay as they are.
  pub serve-enqueue_topic :
      (f : Frame) (dest : Bytes)
      → contains f.header Key.destination ≡ some dest
      → is_queue_destination dest ≡ false
      → All (λ r. (p.world.heap r).frame ≡ none) ((Topic.find p.tm dest).0).subs
      → serve st p (enqueue_op (some f))
        ≡ ok (record p {
          tm = (Topic.find p.tm dest).1;
          topic_writes = p.topic_writes ++ copies p.world.heap f ((Topic.find p.tm dest).0).subs;
        })
  unfolding serve
  serve-enqueue_topic f dest e q idle =
      let b =
        enqueue-Broadcasts p.world.heap (Topic.find p.tm dest).0
          (record { at = λ _. f; next = 1; written = [] }) 0 (omega arith) idle in
      rw (e) (rw (q) (rw b.returns (rw b.written (rw b.contents_lem refl))))

  -- What a request for a queue comes to: the queue of the destination does its call, and it and the
  -- world are changed; everything else stays.
  abbrev pub Serves :
      Bytes
      → (Queue → View × Delivery)
      → (Queue → OrPanic (Queue × World st × Option StoreError))
      → OrPanic (Processor st)
      → Type 0
  Serves dest to act call =
      let x = Queue.find p.qm dest in
      (d : Does st law x.0 p.world (to x.0) (act x.0)) × (call
        ≡ ok (record p { qm = Map.insert x.1 dest d.queue; world = d.world }))

  -- A message for a queue, over a lawful storage that is ready and with no frame at the
  -- subscriptions that wait there, goes to the subscription that has waited longest, or else to the
  -- end of the stored frames of that queue; every other queue, its frames, and the topics stay as
  -- they are.
  pub serve-enqueue_queue :
      (f : Frame) (dest : Bytes)
      → contains f.header Key.destination ≡ some dest
      → is_queue_destination dest ≡ true
      → law.Ready p.world.store_state
      → All (λ r. (p.world.heap r).frame ≡ none) ((Queue.find p.qm dest).0).subs
      → Serves dest
          (λ q. enqueue_view (view st law q p.world) q.subs f)
          (λ q. Queue.enqueue st q p.world f)
          (serve st p (enqueue_op (some f)))
  unfolding serve
  serve-enqueue_queue f dest e q ready idle =
      let d = enqueue_lem st law (Queue.find p.qm dest).0 p.world f ready idle in
      (d, rw (e) (rw (q) (rw d.returns refl)))

  -- A message that comes back for a queue, over a lawful storage that is ready and with no frame at
  -- the subscriptions that wait there, goes to the subscription that has waited longest, or else to
  -- the head of the stored frames of that queue; every other queue, its frames, and the topics stay
  -- as they are.
  pub serve-requeue_queue :
      (f : Frame) (dest : Bytes)
      → contains f.header Key.destination ≡ some dest
      → is_queue_destination dest ≡ true
      → law.Ready p.world.store_state
      → All (λ r. (p.world.heap r).frame ≡ none) ((Queue.find p.qm dest).0).subs
      → Serves dest
          (λ q. requeue_view (view st law q p.world) q.subs f)
          (λ q. Queue.requeue st q p.world f)
          (serve st p (requeue_op (some f)))
  unfolding serve
  serve-requeue_queue f dest e q ready idle =
      let d = requeue_lem st law (Queue.find p.qm dest).0 p.world f ready idle in
      (d, rw (e) (rw (q) (rw d.returns refl)))

  -- A subscription of a queue without a frame and in no list that asks for a frame, over a lawful
  -- storage that is ready and with every queue of the manager under its own destination, gets the
  -- oldest stored frame of its queue, or waits behind the others; every other queue, its frames,
  -- and the topics stay as they are.
  pub serve-subscribe_queue :
      (r : ℕ)
      → is_queue_destination (p.world.heap r).dest ≡ true
      → IsKeyed p.qm
      → law.Ready p.world.store_state
      → (p.world.heap r).frame ≡ none
      → (p.world.heap r).in_list ≡ false
      → Serves
          (p.world.heap r).dest
          (λ q. subscribe_view (view st law q p.world) (view st law q p.world).stored r)
          (λ q. Queue.subscribe st q p.world r)
          (serve st p (subscribe_op r))
  unfolding serve
  serve-subscribe_queue r q keyed ready idle free =
      let d =
        subscribe_lem st law (Queue.find p.qm (p.world.heap r).dest).0 p.world r ready
          (sym (find-destination p.qm (p.world.heap r).dest keyed)) idle free in
      (d, rw (q) (rw d.returns refl))

  -- The panic of the list: a subscription that is still marked as a member of a list takes the whole
  -- server down when it asks a queue that has no frame for it.
  pub serve-subscribe_marked :
      (r : ℕ)
      → is_queue_destination (p.world.heap r).dest ≡ true
      → law.Ready p.world.store_state
      → law.contents p.world.store_state (p.world.heap r).dest ≡ []
      → (p.world.heap r).in_list ≡ true
      → serve st p (subscribe_op r) ≡ err already_in_list
  unfolding serve Queue.subscribe SubscriptionList.add
  serve-subscribe_marked r q ready empty marked =
      let (s', eq, _, _) = law.dequeue_lem p.world.store_state (p.world.heap r).dest ready in
      rw (q) (rw (eq, empty) (rw marked refl))
