-- ===== src/Tests/Delivery.antt =====
-- The theorems on what a connection delivers, and on how it closes.
use stomp.Prelude.{◌≡◌, refl, ◌++◌, [], ◌∷◌, none, some, codes, same, false}
use stomp.Go.Map
use stomp.Frame.Command
use stomp.Frame.Key
use stomp.Frame.Header.{Bytes}
use stomp.Frame.Base.{Frame}
use stomp.Server.Subscription.{Heap}
use stomp.Server.TxStore.{find}
use stomp.Server.Conn.State.{Conn, connected, requeue_op, disconnected_op}
use stomp.Server.Conn.Subscribe.{lookup_sub}
use stomp.Server.Conn.Loop.{cleanup_conn}
use stomp.Server.Conn.Loop.Cleanup.{cleanup_conn_lem}
use stomp.Server.Conn.Loop.Delivery.{Delivered, on_sub_channel-Delivered}
use stomp.Tests.Data.{hello, queue_sub, fresh}

abbrev message : Frame
message = record hello { command = Command.message }

-- Subscription 3 carries the message.
abbrev carrying_heap : Heap
carrying_heap r = record queue_sub { frame = some message }

abbrev carrying : Conn
carrying = record fresh {
  state_func = connected;
  subs = some ((codes "1", 3) ∷ []);
  heap = carrying_heap;
}

known_sub : lookup_sub carrying.subs (codes "1") ≡ some 3
unfolding Map.lookup same
known_sub = refl

client_mode : same Key.ack_client Key.ack_auto ≡ false
unfolding same
client_mode = refl

on_sub_channel-Delivered_example : Delivered carrying 3 message false
on_sub_channel-Delivered_example =
    on_sub_channel-Delivered carrying 3 3 8 message false known_sub refl refl refl refl client_mode

-- Two messages wait for an acknowledgement.
abbrev closing : Conn
closing = record fresh { state_func = connected; sub_list = 3 ∷ 4 ∷ [] }

cleanup_conn_lem_example :
    ((cleanup_conn closing (5 ∷ []) []).requests
      ≡ []
        ++ []
        ++ (requeue_op none ∷ requeue_op none ∷ [])
        ++ (requeue_op none ∷ [])
        ++ disconnected_op 7 ∷ [])
    × ((cleanup_conn closing (5 ∷ []) []).subs ≡ none)
    × ((tx : Bytes) → find (cleanup_conn closing (5 ∷ []) []).tx_store tx ≡ none)
cleanup_conn_lem_example = cleanup_conn_lem closing [] (5 ∷ []) [] refl
