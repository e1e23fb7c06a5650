-- ===== src/Server/Conn/Whole.antt =====
-- A connection of server/client/conn.go from `NewConn` on: what its processing loop makes of whatever
-- comes on its channels.
pub mod Deferred
pub mod Later
pub mod Handlers
pub mod Quiet
pub mod Handshake
use stomp.Prelude.{ℕ, ◌≡◌, Bool, true, false, [], ◌∷◌, none, some}
use stomp.Go.Result.{ok}
use stomp.Frame.Command
use stomp.Frame.Key
use stomp.Frame.Header.{Bytes}
use stomp.Frame.Base.{Frame, new}
use stomp.Server.ClientError.{ClientError, error_text}
use stomp.Server.Subscription.{Heap}
use stomp.Server.Conn.State.{Config, Conn, connecting}
use stomp.Server.Conn.Loop.{on_write_channel, on_read_channel, on_sub_channel, on_timer}

-- `NewConn` and the start of `processLoop`: the connection of this number, on the subscriptions that
-- the server has, with a network that takes so many writes.
unfoldable pub new_conn : ℕ → Heap → ℕ → ℕ → Conn
new_conn number heap next_sub room = record {
  number = number;
  state_func = connecting;
  version = [];
  write_timeout = 0;
  tx_store = record { transactions = none };
  last_msg_id = 0;
  sub_list = [];
  subs = some [];
  heap = heap;
  next_sub = next_sub;
  requests = [];
  written = [];
  room = room;
}

-- `SendError`: the frame that it puts on the write channel.
unfoldable pub send_error : Config → ClientError → Frame
send_error cfg e = new Command.error ((Key.message, error_text cfg.quote cfg.network_text e) ∷ [])

-- One event of the loop, behind which it goes on. `upper_layer`: the queues, the topics and the other
-- connections change the subscriptions that they share with this one, and make new ones.
pub data Step (cfg : Config) : Conn → Conn → Type 0 where
  write_channel : (c c' : Conn) (f : Frame) → on_write_channel c f ≡ (c', true) → Step cfg c c'
  read_channel : (c c' : Conn) (f : Frame) → on_read_channel cfg c f ≡ ok (c', true) → Step cfg c c'
  sub_channel : (c c' : Conn) (r : ℕ) → on_sub_channel c r ≡ ok (c', true) → Step cfg c c'
  timer : (c c' : Conn) → on_timer c ≡ (c', true) → Step cfg c c'
  upper_layer :
      (c : Conn) (heap : Heap) (next_sub : ℕ)
      → Step cfg c (record c { heap = heap; next_sub = next_sub })

-- The connections that the loop comes to.
pub data Reach (cfg : Config) : Conn → Type 0 where
  started :
      (number : ℕ) (heap : Heap) (next_sub room : ℕ)
      → Reach cfg (new_conn number heap next_sub room)
  step : (c c' : Conn) → Reach cfg c → Step cfg c c' → Reach cfg c'
