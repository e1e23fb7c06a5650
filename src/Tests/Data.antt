-- ===== src/Tests/Data.antt =====
-- Frames and subscriptions that the tests share.
use stomp.Prelude.{ℕ, true, false, [], ◌∷◌, none, some, codes}
use stomp.Frame.Command
use stomp.Frame.Key
use stomp.Frame.Base.{Frame}
use stomp.Server.Subscription.{Subscription, Heap}
use stomp.Server.TxStore.{TxStore}
use stomp.Server.Conn.State.{Conn, connecting, connected}
use stomp.Server.MemoryQueue.{MemoryQueueStorage}

-- A read of the stream gives one byte at a time.
abbrev pub bytewise : ℕ → ℕ → ℕ
bytewise n m = 1

abbrev pub hello : Frame
hello = record {
  command = Command.send;
  header = (Key.destination, codes "/queue/a") ∷ (codes "note:", codes "x\ny") ∷ [];
  body = codes "hi";
}

abbrev pub news : Frame
news = record {
  command = Command.send;
  header = (Key.destination, codes "/topic/a") ∷ [];
  body = codes "hi";
}

abbrev pub in_tx : Frame
in_tx = record {
  command = Command.send;
  header = (Key.destination, codes "/queue/a") ∷ (Key.transaction, codes "t") ∷ [];
  body = [];
}

abbrev pub queue_sub : Subscription
queue_sub = record {
  conn = 7;
  dest = codes "/queue/a";
  id = codes "1";
  ack = Key.ack_client;
  msg_id = 0;
  in_list = false;
  frame = none;
}

abbrev pub marked_sub : Subscription
marked_sub = record queue_sub { in_list = true }

-- Every subscription is idle and of the queue a.
abbrev pub idle_heap : Heap
idle_heap r = queue_sub

abbrev pub marked_heap : Heap
marked_heap r = marked_sub

abbrev pub empty_store : MemoryQueueStorage
empty_store = record { lists = some [] }

abbrev pub no_tx : TxStore
no_tx = record { transactions = none }

abbrev pub fresh : Conn
fresh = record {
  number = 7;
  state_func = connecting;
  version = [];
  write_timeout = 0;
  tx_store = no_tx;
  last_msg_id = 0;
  sub_list = [];
  subs = some [];
  heap = idle_heap;
  next_sub = 0;
  requests = [];
  written = [];
  room = 9;
}

-- The message of the marked subscription 3 waits for an acknowledgement.
abbrev pub one_out : Conn
one_out = record fresh { state_func = connected; sub_list = 3 ∷ []; heap = marked_heap }
