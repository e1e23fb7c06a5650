-- ===== src/Server/Conn/Whole/Deferred.antt =====
-- What a connection holds in its transactions, from its start on.
use stomp.Prelude.{
  ℕ, ◌≡◌, sym, subst, Bool, true, false, none, some, Option, arith, Option-cases, inl, inr,
  if◌then◌else◌,
}
use stomp.Go.Map
use stomp.Go.Result.{ok, err, Result-cases}
use stomp.Frame.Key
use stomp.Frame.Header.{contains}
use stomp.Frame.Base.{Frame}
use stomp.Server.ClientError.{ClientError, error_text}
use stomp.Server.Subscription.{Heap, store}
use stomp.Server.SubscriptionList
use stomp.Server.TxStore.{find}
use stomp.Server.TxStore.Laws.{Holds}
use stomp.Server.Conn.State.{Config, Conn, write}
use stomp.Server.Conn.Subscribe.{lookup_sub}
use stomp.Server.Conn.Dispatch.{run_state_func}
use stomp.Server.Conn.Loop.{
  error_frame, is_auto, allocate_message_id, send_error_immediately, on_write_channel,
  on_read_channel, on_timer, on_sub_channel, after_write, deliver, sub_by,
}
use stomp.Server.Conn.Transactions
use stomp.Server.Conn.Transactions.Steps.{run_state_func-Deferred}
use stomp.Server.Conn.Whole.{
  new_conn, Step, write_channel, read_channel, sub_channel, timer, upper_layer, Reach, started,
  step,
}

write-tx_store : (c : Conn) (o : Option Frame) → (write c o).0.tx_store ≡ c.tx_store
unfolding write
write-tx_store c o = ground arith

allocate_message_id-tx_store :
    (c : Conn) (f : Frame) (wants_ack : Bool)
    → (allocate_message_id c f wants_ack).0.tx_store ≡ c.tx_store
unfolding allocate_message_id
allocate_message_id-tx_store c f wants_ack = ground arith

on_write_channel-tx_store :
    (c c' : Conn) (f : Frame) (b : Bool) → on_write_channel c f ≡ (c', b) → c'.tx_store ≡ c.tx_store
unfolding on_write_channel
on_write_channel-tx_store c c' f b e =
    let a = allocate_message_id c f false in
    ground (arith, write-tx_store a.0 (some a.1), allocate_message_id-tx_store c f false)

on_timer-tx_store : (c c' : Conn) (b : Bool) → on_timer c ≡ (c', b) → c'.tx_store ≡ c.tx_store
unfolding on_timer
on_timer-tx_store c c' b e = ground (arith, write-tx_store c none)

new_conn-Deferred :
    (number : ℕ) (heap : Heap) (next_sub room : ℕ)
    → Holds Transactions.Deferred (new_conn number heap next_sub room).tx_store
unfolding find Map.lookup new_conn
new_conn-Deferred number heap next_sub room tx l e = absurd (ground arith)

send_error-tx_store :
    (cfg : Config) (c : Conn) (x : ClientError) (f : Frame)
    → (send_error_immediately cfg c x f).tx_store ≡ c.tx_store
unfolding send_error_immediately error_frame
send_error-tx_store cfg c x f =
    write-tx_store c
      (some (error_frame (error_text cfg.quote cfg.network_text x) (contains f.header Key.receipt)))

on_read_channel-Deferred :
    (cfg : Config) (c c' : Conn) (f : Frame) (b : Bool)
    → Holds Transactions.Deferred c.tx_store
    → on_read_channel cfg c f ≡ ok (c', b)
    → Holds Transactions.Deferred c'.tx_store
unfolding on_read_channel
on_read_channel-Deferred cfg c c' f b h e = elim (Result-cases (run_state_func cfg c f)) [
  | inr (p, q) ↦ absurd (ground arith)
  | inl ((d, f', ok u), q) ↦
      let same_conn : d ≡ c' = ground arith in
      subst (λ (k : Conn). Holds Transactions.Deferred k.tx_store) same_conn
        (run_state_func-Deferred cfg c d f f' (ok u) h q)
  | inl ((d, f', err x), q) ↦
      let same_tx : d.tx_store ≡ c'.tx_store = ground (arith, send_error-tx_store cfg d x f') in
      subst (Holds Transactions.Deferred) same_tx (run_state_func-Deferred cfg c d f f' (err x) h q)
]

after_write-tx_store :
    (c c' : Conn) (r : ℕ) (auto b : Bool)
    → after_write c r auto ≡ ok (c', b)
    → c'.tx_store ≡ c.tx_store
unfolding after_write
after_write-tx_store c c' r true b e = ground arith
after_write-tx_store c c' r false b e =
    elim (Result-cases (SubscriptionList.add c.heap c.sub_list r)) [
      | inl (x, q) ↦ ground arith
      | inr (p, q) ↦ absurd (ground arith)
    ]

deliver-tx_store :
    (c c' : Conn) (r : ℕ) (o : Option Frame) (b : Bool)
    → deliver c r o ≡ ok (c', b)
    → c'.tx_store ≡ c.tx_store
unfolding deliver
deliver-tx_store c c' r none b e = cc
deliver-tx_store c c' r (some f) b e =
    let auto = is_auto (c.heap r) in
    let wants_ack = if auto then false else true in
    let a = allocate_message_id c f wants_ack in
    let kept = record (a.0) {
      heap = store (a.0).heap r (record ((a.0).heap r) { frame = some a.1 });
    } in
    let w = write kept (some a.1) in
    ground (
      arith,
      after_write-tx_store w.0 c' r auto b,
      write-tx_store kept (some a.1),
      allocate_message_id-tx_store c f wants_ack,
    )

on_sub_channel-tx_store :
    (c c' : Conn) (r : ℕ) (b : Bool) → on_sub_channel c r ≡ ok (c', b) → c'.tx_store ≡ c.tx_store
unfolding on_sub_channel sub_by
on_sub_channel-tx_store c c' r b e = elim (Option-cases (lookup_sub c.subs (c.heap r).id)) [
  | inl q ↦ ground arith
  | inr (x, q) ↦ deliver-tx_store c c' r (c.heap r).frame b (ground arith)
]

Step-Deferred :
    (cfg : Config) (c c' : Conn)
    → Holds Transactions.Deferred c.tx_store
    → Step cfg c c'
    → Holds Transactions.Deferred c'.tx_store
Step-Deferred cfg c c' h (write_channel _ _ f e) =
    subst (Holds Transactions.Deferred) (sym (on_write_channel-tx_store c c' f true e)) h
Step-Deferred cfg c c' h (read_channel _ _ f e) = on_read_channel-Deferred cfg c c' f true h e
Step-Deferred cfg c c' h (sub_channel _ _ r e) =
    subst (Holds Transactions.Deferred) (sym (on_sub_channel-tx_store c c' r true e)) h
Step-Deferred cfg c c' h (timer _ _ e) =
    subst (Holds Transactions.Deferred) (sym (on_timer-tx_store c c' true e)) h
Step-Deferred cfg c _ h (upper_layer _ heap next_sub) = h

-- From its start on, whatever frames a client sends, whatever messages come for it and whatever else
-- happens to the subscriptions that it shares: the frames in a connection's open transactions are all
-- SEND, ACK or NACK frames without a transaction entry and without a receipt entry.
pub Reach-Deferred :
    (cfg : Config) (c : Conn) → Reach cfg c → Holds Transactions.Deferred c.tx_store
Reach-Deferred cfg _ (started number heap next_sub room) =
    new_conn-Deferred number heap next_sub room
Reach-Deferred cfg c' (step c _ r s) = Step-Deferred cfg c c' (Reach-Deferred cfg c r) s
