-- ===== src/Server/Queue.antt =====
-- server/queue/queue.go and server/queue/manager.go, with the sending of a frame to a subscription
-- (server/client/subscription.go). The storage is whatever the server was given.
pub mod View
pub mod Laws
pub mod Members
pub mod Invariant
use stomp.Prelude.{ℕ, Bool, true, false, List, [], ◌∷◌, ◌++◌, Option, none, some}
use stomp.Go.Result.{Result, ok, err, ◌>>=◌}
use stomp.Go.Map.{Map, lookup, insert}
use stomp.Frame.Header.{Bytes}
use stomp.Frame.Base.{Frame}
use stomp.Server.Panic.{Panic, OrPanic}
use stomp.Server.Subscription.{Subscription, Heap, store, set_subscription_header}
use stomp.Server.SubscriptionList.{Subs}
use stomp.Server.SubscriptionList
use stomp.Server.Storage.{StoreError, Storage}

pub record Queue : Type 0 where
  pub destination : Bytes
  pub subs : Subs

unfoldable pub new_queue : Bytes → Queue
new_queue destination = record { destination = destination; subs = [] }

-- `Manager.Find`: the queue of a destination, made and entered if it is not there.
abbrev find_or_new : Map Queue → Bytes → Option Queue → Queue × Map Queue
find_or_new queues destination none =
    (new_queue destination, insert queues destination (new_queue destination))
find_or_new queues destination (some q) = (q, queues)

unfoldable pub find : Map Queue → Bytes → Queue × Map Queue
find queues destination = find_or_new queues destination (lookup queues destination)

module _ (st : Storage) where
  -- What a queue works on: the subscriptions, the storage, and the subscriptions that were handed to
  -- their connections (`s.conn.subChannel <- s`), in order.
  pub record World : Type 0 where
    pub heap : Heap
    pub store_state : st.Store
    pub handed : List ℕ

  unfoldable pub send_queue_frame : World → ℕ → Frame → OrPanic World
  send_queue_frame w r f = do
    f' ← set_subscription_header (w.heap r) f
    ok (record w {
      heap = store w.heap r (record (w.heap r) { frame = some f' });
      handed = w.handed ++ r ∷ [];
    })

  -- The three ways of `Subscribe` behind `Dequeue`.
  subscribe_with :
      Queue
      → World
      → ℕ
      → Option Frame
      → Option StoreError
      → OrPanic (Queue × World × Option StoreError)
  subscribe_with q w r f (some e) = ok (q, w, some e)
  subscribe_with q w r none none = do
    x ← SubscriptionList.add w.heap q.subs r
    ok (record q { subs = x.1 }, record w { heap = x.0 }, none)
  subscribe_with q w r (some f) none = do w' ← send_queue_frame w r f; ok (q, w', none)

  unfoldable pub subscribe : Queue → World → ℕ → OrPanic (Queue × World × Option StoreError)
  unfolding subscribe_with
  subscribe q w r = do
    d ← st.dequeue w.store_state (w.heap r).dest
    subscribe_with q (record w { store_state = d.0 }) r d.1 d.2

  unfoldable pub unsubscribe : Queue → World → ℕ → Queue × World
  unsubscribe q w r =
      let x = SubscriptionList.remove w.heap q.subs r in
      (record q { subs = x.1 }, record w { heap = x.0 })

  -- The two branches of `Enqueue` and `Requeue` behind `Get`: `keep` is the storage's method.
  hand_or_keep :
      (st.Store → Bytes → Frame → OrPanic (st.Store × Option StoreError))
      → Queue
      → World
      → Option ℕ
      → Frame
      → OrPanic (Queue × World × Option StoreError)
  hand_or_keep keep q w none f = do
    x ← keep w.store_state q.destination f
    ok (q, record w { store_state = x.0 }, x.1)
  hand_or_keep keep q w (some r) f = do w' ← send_queue_frame w r f; ok (q, w', none)

  pub give :
      (st.Store → Bytes → Frame → OrPanic (st.Store × Option StoreError))
      → Queue
      → World
      → Frame
      → OrPanic (Queue × World × Option StoreError)
  unfolding hand_or_keep
  give keep q w f =
      let x = SubscriptionList.get w.heap q.subs in
      hand_or_keep keep (record q { subs = x.1 }) (record w { heap = x.0 }) x.2 f

  unfoldable pub enqueue : Queue → World → Frame → OrPanic (Queue × World × Option StoreError)
  unfolding give
  enqueue = give st.enqueue

  unfoldable pub requeue : Queue → World → Frame → OrPanic (Queue × World × Option StoreError)
  unfolding give
  requeue = give st.requeue
