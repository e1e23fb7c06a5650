-- ===== src/Server/MemoryQueue.antt =====
-- server/queue/memory_queue.go: the storage that keeps its queues in a map of linked lists.
pub mod Laws
pub mod Runs
use stomp.Prelude.{ℕ, Bool, true, false, List, [], ◌∷◌, ◌++◌, Option, none, some}
use stomp.Go.Result.{Result, ok, err}
use stomp.Go.Map.{Map, lookup, insert}
use stomp.Frame.Header.{Bytes}
use stomp.Frame.Base.{Frame}
use stomp.Server.Panic.{Panic, nil_map, OrPanic}
use stomp.Server.Storage.{StoreError, Storage}

-- `none` is the nil map that `Stop` leaves behind.
pub record MemoryQueueStorage : Type 0 where
  pub lists : Option (Map (List Frame))

unfoldable pub new_memory_queue_storage : MemoryQueueStorage
new_memory_queue_storage = record { lists = some [] }

unfoldable pub start : MemoryQueueStorage → MemoryQueueStorage
start m = record { lists = some [] }

unfoldable pub stop : MemoryQueueStorage → MemoryQueueStorage
stop m = record { lists = none }

-- The list of a queue; one that is not there is made when it is first written to.
abbrev pub frames_of : Option (List Frame) → List Frame
frames_of none = []
frames_of (some l) = l

-- `m.lists[queue]`: no entry in a nil map either.
unfoldable pub lookup_list : Option (Map (List Frame)) → Bytes → Option (List Frame)
lookup_list none queue = none
lookup_list (some m) queue = lookup m queue

-- The list of a queue as a call that adds to it leaves it.
store_list :
    Option (Map (List Frame))
    → Bytes
    → List Frame
    → OrPanic (MemoryQueueStorage × Option StoreError)
store_list none queue l = err nil_map
store_list (some m) queue l = ok (record { lists = some (insert m queue l) }, none)

unfoldable pub enqueue :
    MemoryQueueStorage → Bytes → Frame → OrPanic (MemoryQueueStorage × Option StoreError)
unfolding store_list lookup_list
enqueue m queue f = store_list m.lists queue (frames_of (lookup_list m.lists queue) ++ f ∷ [])

unfoldable pub requeue :
    MemoryQueueStorage → Bytes → Frame → OrPanic (MemoryQueueStorage × Option StoreError)
unfolding store_list lookup_list
requeue m queue f = store_list m.lists queue (f ∷ frames_of (lookup_list m.lists queue))

-- The list without its front element, put back in place.
take_front :
    Option (Map (List Frame))
    → Bytes
    → List Frame
    → MemoryQueueStorage × Option Frame × Option StoreError
take_front none queue l = (record { lists = none }, none, none)
take_front (some m) queue [] = (record { lists = some m }, none, none)
take_front (some m) queue (f ∷ l) = (record { lists = some (insert m queue l) }, some f, none)

unfoldable pub dequeue :
    MemoryQueueStorage → Bytes → OrPanic (MemoryQueueStorage × Option Frame × Option StoreError)
unfolding take_front lookup_list
dequeue m queue = ok (take_front m.lists queue (frames_of (lookup_list m.lists queue)))

abbrev pub memory_storage : Storage
memory_storage = record {
  Store = MemoryQueueStorage;
  enqueue = enqueue;
  requeue = requeue;
  dequeue = dequeue;
}
