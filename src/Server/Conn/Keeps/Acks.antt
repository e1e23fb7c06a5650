-- ===== src/Server/Conn/Keeps/Acks.antt =====
-- Invariants of the sweeps that an ACK and a NACK set off, and of a test in front of two handlers.
use stomp.Prelude.{ℕ, ◌≡◌, Bool, true, if◌then◌else◌, Bool-cases, inl, inr}
use stomp.Go.Result.{ok, Result-cases}
use stomp.Frame.Base.{Frame}
use stomp.Server.Subscription.{is_acked_by, is_nacked_by}
use stomp.Server.SubscriptionList.{Subs, ack, nack}
use stomp.Server.SubscriptionList.Laws.{sweep-Inv}
use stomp.Server.Conn.State.{Conn, Handler}
use stomp.Server.Conn.Ack.{acked, nacked, ack_subs, nack_subs}
use stomp.Server.Conn.Keeps.{After, Keeps}

module _ {κ} {A : Type 0} (P : Conn → Frame → Type κ) (b : Frame → Bool) (m n : Handler A) where
  -- The first handler may count on the test.
  pub if-Keeps_given :
      ((c : Conn) (f : Frame) → b f ≡ true → P c f → After P (m c f))
      → Keeps P n
      → Keeps P (λ c f. if b f then m c f else n c f)
  if-Keeps_given hm hn c f h = elim (Bool-cases (b f)) [
    | inl e ↦ rw e (hm c f e h)
    | inr e ↦ rw e (hn c f h)
  ]

  pub if-Keeps : Keeps P m → Keeps P n → Keeps P (λ c f. if b f then m c f else n c f)
  if-Keeps hm hn = if-Keeps_given (λ c f e h. hm c f h) hn

module _ {κ} (Inv : Conn → Type κ)
    (lists : (c : Conn) (l : Subs) → Inv c → Inv (record c { sub_list = l })) where
  pub ack_subs-Keeps :
      ((c : Conn) (r : ℕ) → Inv c → Inv (acked c r)) → (m : ℕ) → Keeps (λ c f. Inv c) (ack_subs m)
  unfolding ack_subs ack
  ack_subs-Keeps keeps m c f h =
      elim (Result-cases (ack (λ (d : Conn). d.heap) c.sub_list m acked c)) [
        | inr (p, q) ↦ rw q tt
        | inl ((k, d), q) ↦ rw q (
            lists d k (
              sweep-Inv Inv (λ (d : Conn) r. is_acked_by (d.heap r) m) acked keeps c.sub_list c h k
                d q))
      ]

  pub nack_subs-Keeps :
      ((c : Conn) (r : ℕ) → Inv c → Inv (nacked c r)) → (m : ℕ) → Keeps (λ c f. Inv c) (nack_subs m)
  unfolding nack_subs nack
  nack_subs-Keeps keeps m c f h =
      elim (Result-cases (nack (λ (d : Conn). d.heap) c.sub_list m nacked c)) [
        | inr (p, q) ↦ rw q tt
        | inl ((k, d), q) ↦ rw q (
            lists d k (
              sweep-Inv Inv (λ (d : Conn) r. ok (is_nacked_by (d.heap r) m)) nacked keeps c.sub_list
                c h k d q))
      ]
