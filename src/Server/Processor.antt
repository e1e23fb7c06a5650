-- ===== src/Server/Processor.antt =====
-- server/processor.go: the loop that serves the requests of all connections, one after the other.
pub mod Laws
pub mod Acknowledged
use stomp.Prelude.{
  ℕ, Bool, true, false, List, [], ◌∷◌, ◌++◌, Option, none, some, has_prefix, codes, if◌then◌else◌,
  ◌+◌, ◌*◌, ◌≤◌, ltb, ◌==◌, ◌^◌,
}
use stomp.Go.Result.{Result, ok, err, ◌>>=◌}
use stomp.Go.Map
use stomp.Go.Map.{Map}
use stomp.Frame.Key
use stomp.Frame.Header.{Bytes, contains}
use stomp.Frame.Base.{Frame}
use stomp.Server.Panic.{Panic, missing_destination, nil_frame, OrPanic}
use stomp.Server.Subscription.{Subscription, Heap}
use stomp.Server.Storage.{StoreError, Storage}
use stomp.Server.Queue.{Queue, World}
use stomp.Server.Queue
use stomp.Server.Topic.{Topic}
use stomp.Server.Topic
use stomp.Server.Conn.State.{
  Request, subscribe_op, unsubscribe_op, enqueue_op, requeue_op, connected_op, disconnected_op,
}

-- `QueuePrefix`.
abbrev pub queue_prefix : Bytes
queue_prefix = codes "/queue"

unfoldable pub is_queue_destination : Bytes → Bool
is_queue_destination dest = has_prefix dest queue_prefix

-- `Listen`: how long to sleep after a temporary error of `Accept`, in milliseconds; a connection
-- that is accepted sets it back to zero.
unfoldable pub next_timeout : ℕ → ℕ
next_timeout timeout =
    let doubled = if timeout == 0 then 5 else timeout * 2 in
    if ltb 5000 doubled then 5000 else doubled

module _ (st : Storage) where
  -- `requestProcessor`, with what its queues work on, and the frames that topics put on the write
  -- channels, each with its connection.
  pub record Processor : Type 0 where
    pub tm : Map Topic
    pub qm : Map Queue
    pub world : World st
    pub topic_writes : List (ℕ × Frame)

  -- The queue of a destination, changed in place. The error of a storage is dropped.
  on_queue :
      Processor
      → Bytes
      → (Queue → World st → OrPanic (Queue × World st × Option StoreError))
      → OrPanic Processor
  on_queue p destination act =
      let x = Queue.find p.qm destination in
      act x.0 p.world >>= λ y. ok (record p { qm = Map.insert x.1 destination y.0; world = y.1 })

  -- The topic of a destination, changed in place.
  on_topic : Processor → Bytes → (Topic → Topic) → Processor
  on_topic p destination act =
      let x = Topic.find p.tm destination in record p { tm = Map.insert x.1 destination (act x.0) }

  -- The frame of the request stands at pointer 0 of a store of its own.
  broadcast : Processor → Bytes → Frame → OrPanic Processor
  broadcast p destination f =
      let x = Topic.find p.tm destination in
      Topic.enqueue p.world.heap x.0 (record { at = λ _. f; next = 1; written = [] }) 0 >>= λ w.
      ok (record p { tm = x.1; topic_writes = p.topic_writes ++ Topic.contents w.at w.written })

  serve_subscribe : Processor → ℕ → OrPanic Processor
  serve_subscribe p r =
      let dest = (p.world.heap r).dest in
      if is_queue_destination dest
      then on_queue p dest (λ q w. Queue.subscribe st q w r)
      else ok (on_topic p dest (λ t. Topic.subscribe t r))

  serve_unsubscribe : Processor → ℕ → OrPanic Processor
  serve_unsubscribe p r =
      let dest = (p.world.heap r).dest in
      if is_queue_destination dest
      then on_queue p dest (λ q w. let x = Queue.unsubscribe st q w r in ok (x.0, x.1, none))
      else ok (on_topic p dest (λ t. Topic.unsubscribe t r))

  serve_enqueue : Processor → Frame → Option Bytes → OrPanic Processor
  serve_enqueue p f none = err missing_destination
  serve_enqueue p f (some dest) =
      if is_queue_destination dest
      then on_queue p dest (λ q w. Queue.enqueue st q w f)
      else broadcast p dest f

  serve_requeue : Processor → Frame → Option Bytes → OrPanic Processor
  serve_requeue p f none = err missing_destination
  serve_requeue p f (some dest) =
      if is_queue_destination dest then on_queue p dest (λ q w. Queue.requeue st q w f) else ok p

  -- One round of the loop of `Serve`.
  unfoldable pub serve : Processor → Request → OrPanic Processor
  unfolding serve_subscribe serve_unsubscribe serve_enqueue serve_requeue on_queue on_topic
      broadcast
  serve p (subscribe_op r) = serve_subscribe p r
  serve p (unsubscribe_op r) = serve_unsubscribe p r
  serve p (enqueue_op none) = err nil_frame
  serve p (enqueue_op (some f)) = serve_enqueue p f (contains f.header Key.destination)
  serve p (requeue_op none) = err nil_frame
  serve p (requeue_op (some f)) = serve_requeue p f (contains f.header Key.destination)
  serve p (connected_op n) = ok p
  serve p (disconnected_op n) = ok p

  -- The loop over the requests, in the order in which they come from the channel.
  unfoldable pub serve_all : Processor → List Request → OrPanic Processor
  serve_all p [] = ok p
  serve_all p (r ∷ rs) = serve p r >>= λ p'. serve_all p' rs
