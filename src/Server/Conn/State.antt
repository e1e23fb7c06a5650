-- ===== src/Server/Conn/State.antt =====
-- The state of a connection, the requests that it sends to the upper layer (server/client/request.go)
-- and the form of its handlers.
use stomp.Prelude.{ℕ, zero, suc, Bool, true, false, List, [], ◌∷◌, ◌++◌, Option, none, some}
use stomp.Go.Result.{Result, ok, err}
use stomp.Go.Map.{Map}
use stomp.Frame.Header.{Bytes, contains}
use stomp.Frame.Base.{Frame}
use stomp.Server.ClientError.{ClientError, network, missing_header}
use stomp.Server.Panic.{OrPanic}
use stomp.Server.Subscription.{Heap}
use stomp.Server.SubscriptionList.{Subs}
use stomp.Server.TxStore.{TxStore}

-- `RequestOp` with what each request carries: a pointer to a subscription, or a frame, which is
-- `none` where the code would pass a nil pointer.
pub data Request : Type 0 where
  subscribe_op unsubscribe_op : ℕ → Request
  enqueue_op requeue_op : Option Frame → Request
  connected_op disconnected_op : ℕ → Request

-- `stateFunc`.
pub data StateFunc : Type 0 where
  connecting connected : StateFunc

-- What the connection is told by the server, and what lies outside the program.
pub record Config : Type 0 where
  -- `Authenticate`
  pub authenticate : Bytes → Bytes → Bool
  -- `HeartBeat`, in nanoseconds
  pub heart_beat : ℕ
  -- strconv.Quote
  pub quote : Bytes → Bytes
  -- the text of an error of the network
  pub network_text : Bytes

-- The fields of `Conn` that its processing loop works on. The channels are seen from this side:
-- `requests` is what was sent on the request channel and `written` what was put on the network, each
-- in order. `room` is the number of writes that the network still takes. `heap` and `next_sub` are
-- the subscriptions that the whole server shares, and the next pointer to one. `subs` is `none` for
-- the nil map. The validator is the one that accepts every frame (validator.go).
pub record Conn : Type 0 where
  pub number : ℕ
  pub state_func : StateFunc
  pub version : Bytes
  pub write_timeout : ℕ
  pub tx_store : TxStore
  pub last_msg_id : ℕ
  pub sub_list : Subs
  pub subs : Option (Map ℕ)
  pub heap : Heap
  pub next_sub : ℕ
  pub requests : List Request
  pub written : List (Option Frame)
  pub room : ℕ

-- A handler works on the connection and on the frame that it was handed, which it may change, and
-- ends with a value, an error or a panic.
abbrev pub Handler : Type 0 → Type 0
Handler A = Conn → Frame → OrPanic (Conn × Frame × Result ClientError A)

infixl 5 ◌>>=◌ ◌>>◌
abbrev pub ◌>>=◌ : {A B : Type 0} → Handler A → (A → Handler B) → Handler B
◌>>=◌ m k c f = elim (m c f) [
  | err p ↦ err p
  | ok (c', f', err e) ↦ ok (c', f', err e)
  | ok (c', f', ok a) ↦ k a c' f'
]

abbrev pub ◌>>◌ : {B : Type 0} → Handler (Unit {0}) → Handler B → Handler B
m >> k = m >>= λ _. k

abbrev pub done : Handler (Unit {0})
done c f = ok (c, f, ok tt)

abbrev pub give : {A : Type 0} → A → Handler A
give a c f = ok (c, f, ok a)

abbrev pub fail : {A : Type 0} → ClientError → Handler A
fail e c f = ok (c, f, err e)

abbrev pub lift : {A : Type 0} → Result ClientError A → Handler A
lift r c f = ok (c, f, r)

-- `f.Header.Contains(key)`.
abbrev pub entry : Bytes → Handler (Option Bytes)
entry key c f = ok (c, f, ok (contains f.header key))

abbrev pub or_fail : {A : Type 0} → Option A → ClientError → Handler A
or_fail none e = fail e
or_fail (some a) e = give a

abbrev pub require : Bytes → Handler Bytes
require key = entry key >>= λ v. or_fail v (missing_header key)

-- `c.requestChannel <- …`.
abbrev pub request : Request → Handler (Unit {0})
request r c f = ok (record c { requests = c.requests ++ r ∷ [] }, f, ok tt)

-- A part of the connection changes.
abbrev pub modify : (Conn → Conn) → Handler (Unit {0})
modify g c f = ok (g c, f, ok tt)

abbrev pub error_of : Option ClientError → Result ClientError (Unit {0})
error_of none = ok tt
error_of (some e) = err e

-- `c.writer.Write(f)`, with whether it succeeded.
abbrev write_with : Conn → Option Frame → ℕ → Conn × Bool
write_with c f zero = (c, false)
write_with c f (suc n) = (record c { written = c.written ++ f ∷ []; room = n }, true)

unfoldable pub write : Conn → Option Frame → Conn × Bool
write c f = write_with c f c.room

abbrev write_result : Bool → Result ClientError (Unit {0})
write_result true = ok tt
write_result false = err network

-- `sendImmediately`.
unfoldable pub send_immediately : Frame → Handler (Unit {0})
unfolding write
send_immediately g c f = let x = write c (some g) in ok (x.0, f, write_result x.1)
