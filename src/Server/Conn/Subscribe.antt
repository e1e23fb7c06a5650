-- ===== src/Server/Conn/Subscribe.antt =====
-- `handleSubscribe` and `handleUnsubscribe` of server/client/conn.go.
use stomp.Prelude.{ℕ, suc, [], ◌∷◌, ◌++◌, Option, none, some}
use stomp.Go.Result.{ok, err}
use stomp.Go.Map
use stomp.Go.Map.{Map}
use stomp.Frame.Key
use stomp.Frame.Header.{Bytes}
use stomp.Server.ClientError.{subscription_exists, subscription_not_found}
use stomp.Server.Panic.{nil_map}
use stomp.Server.Subscription.{Subscription, new_subscription, store}
use stomp.Server.Conn.State.{
  subscribe_op, unsubscribe_op, Handler, ◌>>=◌, ◌>>◌, done, fail, entry, or_fail, require, request,
  modify,
}

unfoldable pub or_auto : Option Bytes → Bytes
or_auto none = Key.ack_auto
or_auto (some v) = v

-- `c.subs[id]`, `c.subs[id] = …` and `delete(c.subs, id)`.
abbrev pub lookup_sub : Option (Map ℕ) → Bytes → Option ℕ
lookup_sub none id = none
lookup_sub (some m) id = Map.lookup m id

unfoldable pub not_there : Option ℕ → Handler (Unit {0})
not_there none = done
not_there (some r) = fail subscription_exists

unfoldable pub insert_sub : Bytes → Subscription → Option (Map ℕ) → Handler (Unit {0})
insert_sub id s none c f = err nil_map
insert_sub id s (some m) c f = ok (
  record c {
    heap = store c.heap c.next_sub s;
    next_sub = suc c.next_sub;
    subs = some (Map.insert m id c.next_sub);
    requests = c.requests ++ subscribe_op c.next_sub ∷ [];
  },
  f,
  ok tt,
)

unfoldable pub handle_subscribe : Handler (Unit {0})
unfolding or_auto not_there insert_sub
handle_subscribe = do
  id ← require Key.id
  dest ← require Key.destination
  ack ← entry Key.ack
  old ← λ c f. ok (c, f, ok (lookup_sub c.subs id))
  not_there old
  λ c f. insert_sub id (new_subscription c.number dest id (or_auto ack)) c.subs c f

unfoldable pub delete_sub : Bytes → Option (Map ℕ) → Option (Map ℕ)
delete_sub id none = none
delete_sub id (some m) = some (Map.delete m id)

unfoldable pub handle_unsubscribe : Handler (Unit {0})
unfolding delete_sub
handle_unsubscribe = do
  id ← require Key.id
  old ← λ c f. ok (c, f, ok (lookup_sub c.subs id))
  sub ← or_fail old subscription_not_found
  modify (λ c. record c { subs = delete_sub id c.subs })
  request (unsubscribe_op sub)
