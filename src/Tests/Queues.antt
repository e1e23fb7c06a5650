-- ===== src/Tests/Queues.antt =====
-- The theorems on queues, topics and the processor, on a server with the memory storage.
use stomp.Prelude.{
  List, ◌≡◌, refl, ◌++◌, [], ◌∷◌, none, some, codes, same, true, false, arith, All, inr, has_prefix,
}
use stomp.Go.Result.{ok, err}
use stomp.Go.Map
use stomp.Go.Map.{Map}
use stomp.Frame.Key
use stomp.Frame.Header.{Bytes, contains}
use stomp.Server.Panic.{already_in_list}
use stomp.Server.MemoryQueue.{new_memory_queue_storage, memory_storage, lookup_list}
use stomp.Server.MemoryQueue.Runs.{
  StoreCall, enqueue_call, requeue_call, dequeue_call, replies, list_replies,
  replies-memory_storage,
}
use stomp.Server.MemoryQueue.Laws.{memory_laws}
use stomp.Server.Queue
use stomp.Server.Queue.{Queue}
use stomp.Server.Queue.View.{subscribe_view, enqueue_view}
use stomp.Server.Queue.Laws.{Does, view, subscribe_lem, enqueue_lem}
use stomp.Server.Queue.Invariant.{IsSound, Performs, perform, enqueuing, perform-IsSound}
use stomp.Server.Conn.State.{Conn}
use stomp.Server.Conn.Ack.{ack_subs}
use stomp.Server.Processor.Acknowledged.{ack_subs-serve}
use stomp.Server.Topic
use stomp.Server.Topic.{Topic}
use stomp.Server.Topic.Laws.{Broadcasts, enqueue-Broadcasts, copies}
use stomp.Server.Conn.State.{subscribe_op, enqueue_op}
use stomp.Server.Processor.{Processor, serve, is_queue_destination}
use stomp.Server.Processor.Laws.{Serves, serve-enqueue_topic, serve-enqueue_queue}
use stomp.Tests.Data.{hello, news, idle_heap, marked_heap, empty_store, one_out}

abbrev waiting : Queue
waiting = record { destination = codes "/queue/a"; subs = 3 ∷ 4 ∷ [] }

abbrev world : Queue.World memory_storage
world = record { heap = idle_heap; store_state = empty_store; handed = [] }

abbrev marked_world : Queue.World memory_storage
marked_world = record world { heap = marked_heap }

enqueue_lem_example :
    Does memory_storage memory_laws waiting world
      (enqueue_view (view memory_storage memory_laws waiting world) (3 ∷ 4 ∷ []) hello)
      (Queue.enqueue memory_storage waiting world hello)
enqueue_lem_example =
    enqueue_lem memory_storage memory_laws waiting world hello ([], refl) (refl, (refl, tt))

subscribe_lem_example :
    Does memory_storage memory_laws waiting world
      (subscribe_view
        (view memory_storage memory_laws waiting world)
        (view memory_storage memory_laws waiting world).stored
        5)
      (Queue.subscribe memory_storage waiting world 5)
subscribe_lem_example =
    subscribe_lem memory_storage memory_laws waiting world 5 ([], refl) refl refl refl

abbrev topic : Topic
topic = record { destination = codes "/topic/a"; subs = 3 ∷ 4 ∷ 5 ∷ [] }

abbrev sending : Topic.World
sending = record { at = λ _. news; next = 1; written = [] }

enqueue-Broadcasts_example :
    Broadcasts idle_heap sending (3 ∷ 4 ∷ 5 ∷ []) 0 (Topic.enqueue idle_heap topic sending 0)
enqueue-Broadcasts_example =
    enqueue-Broadcasts idle_heap topic sending 0 (omega arith) (refl, (refl, (refl, tt)))

abbrev processor : Processor memory_storage
processor = record { tm = []; qm = []; world = world; topic_writes = [] }

-- Where a message goes.
abbrev a_dest : Bytes
a_dest = codes "/queue/a"

hello-destination : contains hello.header Key.destination ≡ some a_dest
unfolding contains same
hello-destination = refl

news-destination : contains news.header Key.destination ≡ some (codes "/topic/a")
unfolding contains same
news-destination = refl

a-is_queue : is_queue_destination a_dest ≡ true
unfolding is_queue_destination has_prefix
a-is_queue = refl

news-is_topic : is_queue_destination (codes "/topic/a") ≡ false
unfolding is_queue_destination has_prefix
news-is_topic = refl

nobody-idle : All (λ r. (idle_heap r).frame ≡ none) ((Queue.find [] a_dest).0).subs
unfolding Queue.find Queue.new_queue Map.lookup
nobody-idle = tt

nobody_there-idle :
    All (λ r. (idle_heap r).frame ≡ none) ((Topic.find [] (codes "/topic/a")).0).subs
unfolding Topic.find Topic.new_topic Map.lookup
nobody_there-idle = tt

serve-enqueue_queue_example :
    Serves memory_storage memory_laws processor a_dest
      (λ q. enqueue_view (view memory_storage memory_laws q world) q.subs hello)
      (λ q. Queue.enqueue memory_storage q world hello)
      (serve memory_storage processor (enqueue_op (some hello)))
serve-enqueue_queue_example =
    serve-enqueue_queue memory_storage memory_laws processor hello a_dest hello-destination
      a-is_queue ([], refl) nobody-idle

serve-enqueue_topic_example :
    serve memory_storage processor (enqueue_op (some news))
    ≡ ok (record processor {
      tm = (Topic.find [] (codes "/topic/a")).1;
      topic_writes = [] ++ copies idle_heap news ((Topic.find [] (codes "/topic/a")).0).subs;
    })
serve-enqueue_topic_example =
    serve-enqueue_topic memory_storage memory_laws processor news (codes "/topic/a")
      news-destination news-is_topic nobody_there-idle

nothing_stored : memory_laws.contents empty_store a_dest ≡ []
unfolding lookup_list Map.lookup
nothing_stored = refl

waiting-IsSound : IsSound memory_storage memory_laws waiting marked_world
waiting-IsSound = record {
  ready = ([], refl);
  waits = ((refl, refl), ((refl, refl), tt));
  distinct = ((ground arith, tt), (tt, tt));
  fair = inr (unfold lookup_list Map.lookup in refl);
}

perform-IsSound_example :
    Performs memory_storage memory_laws
      (perform memory_storage memory_laws waiting marked_world (enqueuing hello))
perform-IsSound_example =
    perform-IsSound memory_storage memory_laws waiting marked_world (enqueuing hello)
      waiting-IsSound tt

ack_subs-serve_example :
    (c : Conn) × (ack_subs 5 one_out hello ≡ ok (c, hello, ok tt))
    × (c.requests ≡ [] ++ subscribe_op 3 ∷ [])
    × (serve memory_storage
          (record processor { world = record world { heap = c.heap } })
          (subscribe_op 3)
        ≡ err already_in_list)
ack_subs-serve_example =
    ack_subs-serve memory_storage memory_laws processor one_out hello 5 3 refl refl refl refl
      a-is_queue ([], refl) nothing_stored

-- A message goes to a queue, is taken, is put back in front of a second one, and both are taken.
abbrev store_calls : List StoreCall
store_calls =
    enqueue_call a_dest hello
    ∷ dequeue_call a_dest
    ∷ enqueue_call a_dest news
    ∷ requeue_call a_dest hello
    ∷ dequeue_call a_dest
    ∷ dequeue_call a_dest
    ∷ dequeue_call a_dest
    ∷ []

replies-memory_storage_example :
    replies memory_storage store_calls new_memory_queue_storage
    ≡ ok (list_replies store_calls (λ j. []))
replies-memory_storage_example = replies-memory_storage store_calls
