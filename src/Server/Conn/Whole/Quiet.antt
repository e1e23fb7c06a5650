-- ===== src/Server/Conn/Whole/Quiet.antt =====
-- The events of a connection's loop that are not frames of the client.
use stomp.Prelude.{
  ℕ, ◌≡◌, refl, subst, ap, ◌∙◌, Bool, true, false, [], ◌∷◌, ◌++◌, Option, none, some, arith,
  Option-cases, Bool-cases, inl, inr, if◌then◌else◌,
}
use stomp.Go.Map.{lookup}
use stomp.Go.Result.{ok, Result-cases}
use stomp.Frame.Base.{Frame}
use stomp.Server.Subscription.{store}
use stomp.Server.SubscriptionList
use stomp.Server.Conn.State.{Conn, subscribe_op, requeue_op, write}
use stomp.Server.Conn.Subscribe.{lookup_sub}
use stomp.Server.Conn.Loop.{
  is_auto, allocate_message_id, on_write_channel, on_timer, on_sub_channel, after_write, deliver,
  sub_by,
}
use stomp.Server.Conn.Whole.Later.{Later, Later-asks, Later-keeps, Later-refl, Later-trans}

-- Nothing changes but what is on the network, the number of the last message and the subscriptions
-- that the server shares.
pub record Quiet (b c : Conn) : Type 0 where
  pub number : c.number ≡ b.number
  pub state_func : c.state_func ≡ b.state_func
  pub version : c.version ≡ b.version
  pub write_timeout : c.write_timeout ≡ b.write_timeout
  pub requests : c.requests ≡ b.requests
  pub subs : c.subs ≡ b.subs

Quiet-trans : (a b c : Conn) → Quiet a b → Quiet b c → Quiet a c
Quiet-trans a b c p q = record {
  number = q.number ∙ p.number;
  state_func = q.state_func ∙ p.state_func;
  version = q.version ∙ p.version;
  write_timeout = q.write_timeout ∙ p.write_timeout;
  requests = q.requests ∙ p.requests;
  subs = q.subs ∙ p.subs;
}

pub Quiet-Later : (a b c : Conn) → Later a b → Quiet b c → Later a c
Quiet-Later a b c l q =
    Later-keeps a b c l q.number q.state_func q.version q.write_timeout q.requests

write-Quiet : (c : Conn) (o : Option Frame) → Quiet c (write c o).0
unfolding write
write-Quiet c o = record {
  number = ground arith;
  state_func = ground arith;
  version = ground arith;
  write_timeout = ground arith;
  requests = ground arith;
  subs = ground arith;
}

allocate_message_id-Quiet :
    (c : Conn) (f : Frame) (wants_ack : Bool) → Quiet c (allocate_message_id c f wants_ack).0
unfolding allocate_message_id
allocate_message_id-Quiet c f wants_ack = record {
  number = ground arith;
  state_func = ground arith;
  version = ground arith;
  write_timeout = ground arith;
  requests = ground arith;
  subs = ground arith;
}

pub on_write_channel-Quiet :
    (c c' : Conn) (f : Frame) (b : Bool) → on_write_channel c f ≡ (c', b) → Quiet c c'
unfolding on_write_channel
on_write_channel-Quiet c c' f b e =
    let a = allocate_message_id c f false in
    subst (Quiet c) (ap (λ t. t.0) e) (
      Quiet-trans c a.0 (write a.0 (some a.1)).0 (allocate_message_id-Quiet c f false)
        (write-Quiet a.0 (some a.1)))

pub on_timer-Quiet : (c c' : Conn) (b : Bool) → on_timer c ≡ (c', b) → Quiet c c'
unfolding on_timer
on_timer-Quiet c c' b e = subst (Quiet c) (ap (λ t. t.0) e) (write-Quiet c none)

after_write-Later :
    (c c' : Conn) (r : ℕ) (auto b : Bool) → after_write c r auto ≡ ok (c', b) → Later c c'
unfolding after_write
after_write-Later c c' r true b e =
    Later-asks c c c' (subscribe_op r ∷ []) (Later-refl c) (ground arith) (ground arith)
      (ground arith) (ground arith) (ground arith)
after_write-Later c c' r false b e =
    elim (Result-cases (SubscriptionList.add c.heap c.sub_list r)) [
      | inl (x, q) ↦
          Later-keeps c c c' (Later-refl c) (ground arith) (ground arith) (ground arith)
            (ground arith) (ground arith)
      | inr (p, q) ↦ absurd (ground arith)
    ]

deliver-Later :
    (c c' : Conn) (r : ℕ) (o : Option Frame) (b : Bool) → deliver c r o ≡ ok (c', b) → Later c c'
unfolding deliver
deliver-Later c c' r none b e = cc
deliver-Later c c' r (some f) b e =
    let auto = is_auto (c.heap r) in
    let wants_ack = if auto then false else true in
    let a = allocate_message_id c f wants_ack in
    let kept = record (a.0) {
      heap = store (a.0).heap r (record ((a.0).heap r) { frame = some a.1 });
    } in
    let w = write kept (some a.1) in
    let numbered = Quiet-Later c c a.0 (Later-refl c) (allocate_message_id-Quiet c f wants_ack) in
    let stored = Later-keeps c a.0 kept numbered refl refl refl refl refl in
    let written = Quiet-Later c kept w.0 stored (write-Quiet kept (some a.1)) in
    elim (Bool-cases w.1) [
      | inr lost ↦ subst (Later c) (ground arith) written
      | inl sent ↦ Later-trans c w.0 c' written (after_write-Later w.0 c' r auto b (ground arith))
    ]

-- A message that comes for a subscription.
pub on_sub_channel-Later :
    (c c' : Conn) (r : ℕ) (b : Bool) → on_sub_channel c r ≡ ok (c', b) → Later c c'
unfolding on_sub_channel sub_by
on_sub_channel-Later c c' r b e = elim (Option-cases (lookup_sub c.subs (c.heap r).id)) [
  | inl q ↦
      Later-asks c c c' (requeue_op ((c.heap r).frame) ∷ []) (Later-refl c) (ground arith)
        (ground arith) (ground arith) (ground arith) (ground arith)
  | inr (x, q) ↦ deliver-Later c c' r (c.heap r).frame b (ground arith)
]

-- A message that comes while the connection has no subscription goes back.
pub on_sub_channel-requeue :
    (c : Conn) (r : ℕ)
    → c.subs ≡ some []
    → on_sub_channel c r
      ≡ ok (record c { requests = c.requests ++ requeue_op ((c.heap r).frame) ∷ [] }, true)
unfolding on_sub_channel sub_by lookup
on_sub_channel-requeue c r e = ground arith
