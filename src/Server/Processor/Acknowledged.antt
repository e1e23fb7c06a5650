-- ===== src/Server/Processor/Acknowledged.antt =====
-- What becomes of a subscription to a queue when its message is acknowledged: the connection and the
-- processor together.
use stomp.Prelude.{ℕ, ◌≡◌, refl, true, [], ◌∷◌, ◌++◌, same, arith, leb}
use stomp.Go.Result.{ok, err}
use stomp.Frame.Key
use stomp.Frame.Base.{Frame}
use stomp.Server.Panic.{already_in_list}
use stomp.Server.Subscription.{store, is_acked_by}
use stomp.Server.SubscriptionList.{sweep, ack}
use stomp.Server.Storage.{Storage, IsLawful}
use stomp.Server.Conn.State.{Conn, subscribe_op}
use stomp.Server.Conn.Ack.{acked, ack_subs}
use stomp.Server.Processor.{Processor, serve, is_queue_destination}
use stomp.Server.Processor.Laws.{serve-subscribe_marked}

-- What an ACK that takes the only member `r` off the list leaves behind.
abbrev acked_alone : Conn → ℕ → Conn
acked_alone c r = record (acked c r) { sub_list = [] }

ack_subs-alone :
    (c : Conn) (f : Frame) (m r : ℕ)
    → c.sub_list ≡ r ∷ []
    → (c.heap r).ack ≡ Key.ack_client
    → leb (c.heap r).msg_id m ≡ true
    → ack_subs m c f ≡ ok (acked_alone c r, f, ok tt)
unfolding ack_subs ack sweep is_acked_by same
ack_subs-alone c f m r l a le = rw (l, ack_subs) (rw (a, is_acked_by) (rw le refl))

module _ (st : Storage) (law : IsLawful st) (p : Processor st) where
  -- A connection whose only member of the list is a subscription of ack mode client to a queue,
  -- marked as a member and with a message id that the ACK covers: the ACK is accepted and requests
  -- the next message for that subscription, and the processor, if the storage is lawful and ready
  -- and has no frame for the queue, panics on that request, since the subscription is still marked
  -- as a member.
  pub ack_subs-serve :
      (c : Conn) (f : Frame) (m r : ℕ)
      → c.sub_list ≡ r ∷ []
      → (c.heap r).ack ≡ Key.ack_client
      → leb (c.heap r).msg_id m ≡ true
      → (c.heap r).in_list ≡ true
      → is_queue_destination (c.heap r).dest ≡ true
      → law.Ready p.world.store_state
      → law.contents p.world.store_state (c.heap r).dest ≡ []
      → (c' : Conn) × (ack_subs m c f ≡ ok (c', f, ok tt))
        × (c'.requests ≡ c.requests ++ subscribe_op r ∷ [])
        × (serve st (record p { world = record (p.world) { heap = c'.heap } }) (subscribe_op r)
            ≡ err already_in_list)
  unfolding acked store
  ack_subs-serve c f m r l a le marked q ready empty = (
    acked_alone c r,
    ack_subs-alone c f m r l a le,
    refl,
    serve-subscribe_marked st law
        (record p { world = record (p.world) { heap = (acked_alone c r).heap } }) r (ground arith)
        ready (ground arith) (ground arith),
  )
