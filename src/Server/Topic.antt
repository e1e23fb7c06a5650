-- ===== src/Server/Topic.antt =====
-- server/topic/topic.go and server/topic/manager.go, with the sending of a frame to a subscriber
-- (server/client/subscription.go) and the copy of a frame (frame/frame.go). Every subscriber's
-- connection writes headers into the frame that it gets, so here frames are shared by pointer and
-- stand on a store of their own.
pub mod Laws
use stomp.Prelude.{
  ℕ, suc, Bool, true, false, List, [], ◌∷◌, ◌++◌, Option, none, some, ◌==◌, if◌then◌else◌,
}
use stomp.Go.Result.{Result, ok, err, ◌>>=◌}
use stomp.Go.Map.{Map, lookup, insert}
use stomp.Frame.Header.{Bytes}
use stomp.Frame.Base.{Frame}
use stomp.Server.Panic.{Panic, OrPanic}
use stomp.Server.Subscription.{Heap, set_subscription_header}
use stomp.Server.SubscriptionList.{Subs}
use stomp.Server.SubscriptionList

pub record Topic : Type 0 where
  pub destination : Bytes
  pub subs : Subs

unfoldable pub new_topic : Bytes → Topic
new_topic destination = record { destination = destination; subs = [] }

abbrev find_or_new : Map Topic → Bytes → Option Topic → Topic × Map Topic
find_or_new topics destination none =
    (new_topic destination, insert topics destination (new_topic destination))
find_or_new topics destination (some t) = (t, topics)

-- `Manager.Find`.
unfoldable pub find : Map Topic → Bytes → Topic × Map Topic
find topics destination = find_or_new topics destination (lookup topics destination)

unfoldable pub subscribe : Topic → ℕ → Topic
subscribe t r = record t { subs = t.subs ++ r ∷ [] }

-- `Unsubscribe` takes off the first entry that is this subscription.
unfoldable pub unsubscribe : Topic → ℕ → Topic
unfolding SubscriptionList.without
unsubscribe t r = record t { subs = SubscriptionList.without t.subs r }

-- The frames behind the pointers below `next`, and the pointers that were put on the write channels
-- (`s.conn.writeChannel <- f`), each with its connection, in order.
pub record World : Type 0 where
  pub at : ℕ → Frame
  pub next : ℕ
  pub written : List (ℕ × ℕ)

unfoldable pub put : (ℕ → Frame) → ℕ → Frame → ℕ → Frame
put at p f q = if q == p then f else at q

-- `f.Clone()`: the copy stands at a new pointer.
unfoldable pub clone : World → ℕ → World × ℕ
unfolding put
clone w p = (record w { at = put w.at w.next (w.at p); next = suc w.next }, w.next)

unfoldable pub send_topic_frame : Heap → World → ℕ → ℕ → OrPanic World
unfolding put
send_topic_frame h w r p = do
  f ← set_subscription_header (h r) (w.at p)
  ok (record w { at = put w.at p f; written = w.written ++ (((h r).conn, p) ∷ []) })

-- The loop over two subscribers and more: the last one gets the frame itself.
unfoldable pub send_all : Heap → World → Subs → ℕ → OrPanic World
unfolding clone send_topic_frame
send_all h w [] p = ok w
send_all h w (r ∷ []) p = send_topic_frame h w r p
send_all h w (r ∷ q ∷ l) p =
    let c = clone w p in send_topic_frame h c.0 r c.1 >>= λ w'. send_all h w' (q ∷ l) p

-- The switch on the number of subscribers.
enqueue_to : Heap → World → Subs → ℕ → OrPanic World
unfolding send_all
enqueue_to h w [] p = ok w
enqueue_to h w (r ∷ []) p = send_topic_frame h w r p
enqueue_to h w (r ∷ q ∷ l) p = send_all h w (r ∷ q ∷ l) p

unfoldable pub enqueue : Heap → Topic → World → ℕ → OrPanic World
unfolding enqueue_to
enqueue h t w p = enqueue_to h w t.subs p

-- The frames that were written, as they stand in the end.
abbrev pub contents : (ℕ → Frame) → List (ℕ × ℕ) → List (ℕ × Frame)
contents at [] = []
contents at ((c, p) ∷ l) = (c, at p) ∷ contents at l
