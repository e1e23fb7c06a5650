-- ===== src/Server/Conn/Keeps.antt =====
-- Invariants of handlers, put together along their steps.
pub mod Acks
pub mod Dispatch
use stomp.Prelude.{
  arith, ℕ, zero, suc, ◌⊎◌, inl, inr, Option-cases, ◌≡◌, refl, List, [], ◌∷◌, ◌++◌, Option, none,
  some,
}
use stomp.Go.Result.{Result, ok, err}
use stomp.Frame.Header.{Bytes, contains}
use stomp.Frame.Command
use stomp.Frame.Key
use stomp.Frame.Base.{Frame, new, del}
use stomp.Go.Number.{parse_uint}
use stomp.Server.ClientError.{ClientError, network, missing_header}
use stomp.Server.Conn.Ack.{acked_msg_id, with_text}
use stomp.Server.Panic.{OrPanic}
use stomp.Server.Conn.Send.{send_receipt_immediately}
use stomp.Server.Conn.State.{
  Conn, Handler, ◌>>=◌, ◌>>◌, entry, or_fail, require, write, send_immediately,
}

-- The invariant after an outcome; a panic ends the program.
abbrev pub After {κ} :
    {A : Type 0} → (Conn → Frame → Type κ) → OrPanic (Conn × Frame × Result ClientError A) → Type κ
After P (err p) = Unit
After P (ok (c, f, r)) = P c f

abbrev pub Keeps {κ} : {A : Type 0} → (Conn → Frame → Type κ) → Handler A → Type κ
Keeps P m = (c : Conn) (f : Frame) → P c f → After P (m c f)

module _ {κ} (P : Conn → Frame → Type κ) where
  After-bind :
      {A B : Type 0} (x : OrPanic (Conn × Frame × Result ClientError A)) (k : A → Handler B)
      → After P x
      → ((a : A) → Keeps P (k a))
      → After P (elim x as (λ _. OrPanic (Conn × Frame × Result ClientError B)) [
        | err p ↦ err p
        | ok (c', f', err e) ↦ ok (c', f', err e)
        | ok (c', f', ok a) ↦ k a c' f'
      ])
  After-bind (err p) k h hk = tt
  After-bind (ok (c', f', err e)) k h hk = h
  After-bind (ok (c', f', ok a)) k h hk = hk a c' f' h

  pub bind-Keeps :
      {A B : Type 0} (m : Handler A) (k : A → Handler B)
      → Keeps P m
      → ((a : A) → Keeps P (k a))
      → Keeps P (m >>= k)
  bind-Keeps m k hm hk c f h = After-bind (m c f) k (hm c f h) hk

  pub then-Keeps :
      {B : Type 0} (m : Handler (Unit {0})) (k : Handler B)
      → Keeps P m
      → Keeps P k
      → Keeps P (m >> k)
  then-Keeps m k hm hk = bind-Keeps m (λ _. k) hm (λ _. hk)

  pub entry-Keeps : (key : Bytes) → Keeps P (entry key)
  entry-Keeps key c f h = h

  pub or_fail-Keeps : {A : Type 0} (o : Option A) (e : ClientError) → Keeps P (or_fail o e)
  or_fail-Keeps none e c f h = h
  or_fail-Keeps (some a) e c f h = h

  pub require-Keeps : (key : Bytes) → Keeps P (require key)
  require-Keeps key c f h = or_fail-Keeps (contains f.header key) _ c f h

-- A receipt changes the network's side of the connection, and at most the receipt entry of the frame.
abbrev pub Receipts : Conn → Frame → OrPanic (Conn × Frame × Result ClientError (Unit {0})) → Type 0
Receipts c f x =
    (w : List (Option Frame)) × (n : ℕ) × (g : Frame) × (r : Result ClientError (Unit {0})) × (x
      ≡ ok (record c { written = w; room = n }, g, r))
    × (((g ≡ f) × (contains f.header Key.receipt ≡ none)) ⊎ (g ≡ del f Key.receipt))

-- Any other frame that is sent at once changes the network's side only.
abbrev pub Sends : Conn → Frame → OrPanic (Conn × Frame × Result ClientError (Unit {0})) → Type 0
Sends c f x =
    (w : List (Option Frame)) × (n : ℕ) × (r : Result ClientError (Unit {0})) × (x
      ≡ ok (record c { written = w; room = n }, f, r))

send_at : (c : Conn) (f m : Frame) (n : ℕ) → c.room ≡ n → Sends c f (send_immediately m c f)
unfolding send_immediately
send_at c f m zero e = (c.written, c.room, err network, rw (e, write) (rw (← e) refl))
send_at c f m (suc n) e = (c.written ++ some m ∷ [], n, ok tt, rw (e, write) refl)

pub send_immediately-Sends : (m : Frame) (c : Conn) (f : Frame) → Sends c f (send_immediately m c f)
send_immediately-Sends m c f = send_at c f m c.room refl

pub send_receipt-Receipts : (c : Conn) (f : Frame) → Receipts c f (send_receipt_immediately c f)
unfolding send_receipt_immediately
send_receipt-Receipts c f = elim (Option-cases (contains f.header Key.receipt)) [
  | inl e ↦ (c.written, c.room, f, ok tt, rw e refl, inl (refl, e))
  | inr (v, e) ↦
      let (w, n, r, q) =
        send_immediately-Sends (new Command.receipt ((Key.receipt_id, v) ∷ [])) c
          (del f Key.receipt) in
      (w, n, del f Key.receipt, r, rw (e) q, inr refl)
]

-- So an invariant that looks at neither is kept.
pub send_receipt-Keeps {κ} :
    (P : Conn → Frame → Type κ)
    → ((c : Conn) (f : Frame) (w : List (Option Frame)) (n : ℕ)
        → P c f
        → P (record c { written = w; room = n }) f)
    → ((c : Conn) (f : Frame) → P c f → P c (del f Key.receipt))
    → Keeps P send_receipt_immediately
send_receipt-Keeps P wrote dropped c f h =
    let (w, n, g, r, q, k) = send_receipt-Receipts c f in
    rw q (elim k [
      | inl (e, _) ↦ rw e (wrote c f w n h)
      | inr e ↦ rw e (wrote c (del f Key.receipt) w n (dropped c f h))
    ])

-- Finding the message id changes nothing.
pub acked_msg_id-Reads :
    (c : Conn) (f : Frame) → (r : Result ClientError ℕ) × (acked_msg_id c f ≡ ok (c, f, r))
unfolding acked_msg_id
acked_msg_id-Reads c f = elim (Option-cases (contains f.header Key.ack)) [
  | inr (v, e) ↦ (with_text v (parse_uint 64 v), rw e refl)
  | inl e ↦ elim (Option-cases (contains f.header Key.message_id)) [
    | inr (v, q) ↦ (with_text v (parse_uint 64 v), ground arith)
    | inl q ↦ (err (missing_header Key.message_id), ground arith)
  ]
]

pub acked_msg_id-Keeps {κ} : (P : Conn → Frame → Type κ) → Keeps P acked_msg_id
acked_msg_id-Keeps P c f h = let (r, q) = acked_msg_id-Reads c f in rw q h
