-- ===== src/Server/Storage.antt =====
-- server/queue/storage.go and server/queue_storage.go: what a queue asks of the storage behind it,
-- and what a storage in good order does.
use stomp.Prelude.{◌≡◌, List, [], ◌∷◌, ◌++◌, Option, none, some, same, if◌then◌else◌}
use stomp.Go.Result.{ok}
use stomp.Frame.Header.{Bytes}
use stomp.Frame.Base.{Frame}
use stomp.Server.Panic.{OrPanic}

-- An `error` that a storage reports.
pub data StoreError : Type 0 where
  store_failed : StoreError

-- The methods; each gives the storage as it is afterwards.
pub record Storage : Type 1 where
  pub Store : Type 0
  pub enqueue : Store → Bytes → Frame → OrPanic (Store × Option StoreError)
  pub requeue : Store → Bytes → Frame → OrPanic (Store × Option StoreError)
  pub dequeue : Store → Bytes → OrPanic (Store × Option Frame × Option StoreError)

-- `Dequeue` on the frames of one queue: the head, and the rest.
abbrev pub head_of : List Frame → Option Frame
head_of [] = none
head_of (f ∷ fs) = some f

abbrev pub tail_of : List Frame → List Frame
tail_of [] = []
tail_of (f ∷ fs) = fs

-- The abstract storage: a list of frames for each queue. `Ready` says that the storage is started
-- and works; a storage that is ready takes every call, and its calls are those on the lists.
pub record IsLawful (st : Storage) : Type 1 where
  pub Ready : st.Store → Type 0
  pub contents : st.Store → Bytes → List Frame
  pub enqueue_lem :
      (s : st.Store) (q : Bytes) (f : Frame)
      → Ready s
      → (s' : st.Store) × (st.enqueue s q f ≡ ok (s', none))
        × Ready s'
        × ((j : Bytes)
            → contents s' j ≡ (if same q j then contents s q ++ f ∷ [] else contents s j))
  pub requeue_lem :
      (s : st.Store) (q : Bytes) (f : Frame)
      → Ready s
      → (s' : st.Store) × (st.requeue s q f ≡ ok (s', none))
        × Ready s'
        × ((j : Bytes) → contents s' j ≡ (if same q j then f ∷ contents s q else contents s j))
  pub dequeue_lem :
      (s : st.Store) (q : Bytes)
      → Ready s
      → (s' : st.Store) × (st.dequeue s q ≡ ok (s', head_of (contents s q), none))
        × Ready s'
        × ((j : Bytes)
            → contents s' j ≡ (if same q j then tail_of (contents s q) else contents s j))
