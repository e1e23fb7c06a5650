-- ===== src/Server/MemoryQueue/Runs.antt =====
-- server/queue/memory_queue.go: calls of the storage one after the other, from NewMemoryQueueStorage on.
use stomp.Prelude.{◌≡◌, refl, ap, ◌∙◌, List, [], ◌∷◌, ◌++◌, Option, none, same, if◌then◌else◌}
use stomp.Go.Result.{ok, ◌>>=◌}
use stomp.Frame.Header.{Bytes}
use stomp.Frame.Base.{Frame}
use stomp.Server.Panic.{OrPanic}
use stomp.Server.Storage.{StoreError, Storage, IsLawful, head_of, tail_of}
use stomp.Server.MemoryQueue.{new_memory_queue_storage, lookup_list, memory_storage}
use stomp.Go.Map.{lookup}
use stomp.Server.MemoryQueue.Laws.{memory_laws}

-- A call of a storage, and what it returns.
pub data StoreCall : Type 0 where
  enqueue_call requeue_call : Bytes → Frame → StoreCall
  dequeue_call : Bytes → StoreCall

pub data Reply : Type 0 where
  stored : Option StoreError → Reply
  taken : Option Frame → Option StoreError → Reply

-- What the calls return, in order.
module _ (st : Storage) where
  unfoldable pub replies : List StoreCall → st.Store → OrPanic (List Reply)
  replies [] s = ok []
  replies (enqueue_call q f ∷ calls) s =
      st.enqueue s q f >>= λ x. replies calls x.0 >>= λ rest. ok (stored x.1 ∷ rest)
  replies (requeue_call q f ∷ calls) s =
      st.requeue s q f >>= λ x. replies calls x.0 >>= λ rest. ok (stored x.1 ∷ rest)
  replies (dequeue_call q ∷ calls) s =
      st.dequeue s q >>= λ x. replies calls x.0 >>= λ rest. ok (taken x.1 x.2 ∷ rest)

-- What they return if there is a list of frames for each queue, which grows at its end or at its front
-- and loses its front.
abbrev pub list_replies : List StoreCall → (Bytes → List Frame) → List Reply
list_replies [] a = []
list_replies (enqueue_call q f ∷ calls) a =
    stored none ∷ list_replies calls (λ j. if same q j then a q ++ f ∷ [] else a j)
list_replies (requeue_call q f ∷ calls) a =
    stored none ∷ list_replies calls (λ j. if same q j then f ∷ a q else a j)
list_replies (dequeue_call q ∷ calls) a =
    taken (head_of (a q)) none ∷ list_replies calls (λ j. if same q j then tail_of (a q) else a j)

module _ (st : Storage) (law : IsLawful st) where
  -- What holds of the storage behind a call holds of the lists behind it.
  moved :
      (calls : List StoreCall) (s : st.Store) (a : Bytes → List Frame) (r : Reply)
      → replies st calls s ≡ ok (list_replies calls (law.contents s))
      → ((j : Bytes) → law.contents s j ≡ a j)
      → (replies st calls s >>= λ rest. ok (r ∷ rest)) ≡ ok (r ∷ list_replies calls a)
  moved calls s a r h e =
      ap (λ x. x >>= λ rest. ok (r ∷ rest)) h
      ∙ ap (λ c. ok (r ∷ list_replies calls c)) (λ i j. e j i)

  pub replies-IsLawful :
      (calls : List StoreCall) (s : st.Store)
      → law.Ready s
      → replies st calls s ≡ ok (list_replies calls (law.contents s))
  unfolding replies
  replies-IsLawful [] s h = refl
  replies-IsLawful (enqueue_call q f ∷ calls) s h =
      let (s', e, ready, c) = law.enqueue_lem s q f h in
      rw e (moved calls s' _ (stored none) (replies-IsLawful calls s' ready) c)
  replies-IsLawful (requeue_call q f ∷ calls) s h =
      let (s', e, ready, c) = law.requeue_lem s q f h in
      rw e (moved calls s' _ (stored none) (replies-IsLawful calls s' ready) c)
  replies-IsLawful (dequeue_call q ∷ calls) s h =
      let (s', e, ready, c) = law.dequeue_lem s q h in
      rw e (
        moved calls s' _ (taken (head_of (law.contents s q)) none) (replies-IsLawful calls s' ready)
          c)

-- Whatever calls are made of a new memory storage, for whatever queues and in whatever order: they
-- return without a panic and without an error, and each Dequeue gives the frame that stands first in the
-- list of its queue, or none if that list is empty, where Enqueue puts a frame last and Requeue first.
pub replies-memory_storage :
    (calls : List StoreCall)
    → replies memory_storage calls new_memory_queue_storage ≡ ok (list_replies calls (λ j. []))
unfolding new_memory_queue_storage lookup_list lookup
replies-memory_storage calls = replies-IsLawful memory_storage memory_laws calls _ ([], refl)
