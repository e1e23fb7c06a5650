-- ===== src/Server/MemoryQueue/Laws.antt =====
-- The memory storage keeps the contract of Storage.
use stomp.Prelude.{◌≡◌, refl, List, [], ◌∷◌, ◌++◌, none, some, same, same_iff, if◌then◌else◌, arith}
use stomp.Go.Result.{ok}
use stomp.Go.Map.{Map, lookup, insert, lookup-insert}
use stomp.Frame.Header.{Bytes}
use stomp.Frame.Base.{Frame}
use stomp.Server.Storage.{IsLawful, head_of, tail_of}
use stomp.Server.MemoryQueue.{
  MemoryQueueStorage, frames_of, lookup_list, enqueue, requeue, dequeue, memory_storage,
}

abbrev pub IsStarted : MemoryQueueStorage → Type 0
IsStarted m = (l : Map (List Frame)) × (m.lists ≡ some l)

abbrev pub memory_contents : MemoryQueueStorage → Bytes → List Frame
memory_contents m q = frames_of (lookup_list m.lists q)

pub enqueue_contents :
    (m : MemoryQueueStorage) (q : Bytes) (f : Frame)
    → IsStarted m
    → (m' : MemoryQueueStorage) × (enqueue m q f ≡ ok (m', none))
      × IsStarted m'
      × ((j : Bytes)
          → memory_contents m' j
            ≡ (if same q j then memory_contents m q ++ f ∷ [] else memory_contents m j))
unfolding enqueue
enqueue_contents m q f (l, e) = (
  record { lists = some (insert l q (frames_of (lookup l q) ++ f ∷ [])) },
  rw e,
  (insert l q (frames_of (lookup l q) ++ f ∷ []), refl),
  λ j. ground (arith, lookup-insert l q j (frames_of (lookup l q) ++ f ∷ [])),
)

pub requeue_contents :
    (m : MemoryQueueStorage) (q : Bytes) (f : Frame)
    → IsStarted m
    → (m' : MemoryQueueStorage) × (requeue m q f ≡ ok (m', none))
      × IsStarted m'
      × ((j : Bytes)
          → memory_contents m' j
            ≡ (if same q j then f ∷ memory_contents m q else memory_contents m j))
unfolding requeue
requeue_contents m q f (l, e) = (
  record { lists = some (insert l q (f ∷ frames_of (lookup l q))) },
  rw e,
  (insert l q (f ∷ frames_of (lookup l q)), refl),
  λ j. ground (arith, lookup-insert l q j (f ∷ frames_of (lookup l q))),
)

dequeue_at :
    (m : MemoryQueueStorage) (q : Bytes) (l : Map (List Frame)) (fs : List Frame)
    → m.lists ≡ some l
    → frames_of (lookup l q) ≡ fs
    → (m' : MemoryQueueStorage) × (dequeue m q ≡ ok (m', head_of fs, none))
      × IsStarted m'
      × ((j : Bytes)
          → memory_contents m' j ≡ (if same q j then tail_of fs else memory_contents m j))
unfolding dequeue
dequeue_at m q l [] e k = (m, ground arith, (l, e), λ j. ground (arith, same_iff q j))
dequeue_at m q l (f ∷ fs) e k = (
  record { lists = some (insert l q fs) },
  ground arith,
  (insert l q fs, refl),
  λ j. ground (arith, lookup-insert l q j fs),
)

pub dequeue_contents :
    (m : MemoryQueueStorage) (q : Bytes)
    → IsStarted m
    → (m' : MemoryQueueStorage) × (dequeue m q ≡ ok (m', head_of (memory_contents m q), none))
      × IsStarted m'
      × ((j : Bytes)
          → memory_contents m' j
            ≡ (if same q j then tail_of (memory_contents m q) else memory_contents m j))
dequeue_contents m q (l, e) = dequeue_at m q l (memory_contents m q) e (unfold lookup_list in rw e)

-- The contract, with started storages as the ready ones and the lists of the map as the contents.
abbrev pub memory_laws : IsLawful memory_storage
memory_laws = record {
  Ready = IsStarted;
  contents = memory_contents;
  enqueue_lem = enqueue_contents;
  requeue_lem = requeue_contents;
  dequeue_lem = dequeue_contents;
}

-- The memory storage keeps the contract of a storage: on a storage that is ready, every operation
-- does to its queue what the contract says, and leaves every other queue as it was.
memory_storage-IsLawful : IsLawful memory_storage
memory_storage-IsLawful = memory_laws
