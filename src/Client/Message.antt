-- ===== src/Client/Message.antt =====
-- message.go, and what a message holds of its subscription.
use stomp.Prelude.{ℕ, Bool, false, not, [], ◌∷◌, Option, none, some, take, drop, length, min}
use stomp.Frame.Header.{Bytes, Header}
use stomp.Client.Error.{Error}
use stomp.Client.AckMode.{AckMode, is_auto}

-- The fields of a `Subscription` that never change.
pub record SubInfo : Type 0 where
  pub id : Bytes
  pub reply_to_set : Bool
  pub destination : Bytes
  pub ack_mode : AckMode

-- `conn` tells whether the pointer to the connection is there.
pub record Message : Type 0 where
  pub problem : Option Error
  pub destination : Bytes
  pub content_type : Bytes
  pub conn : Bool
  pub subscription : Option SubInfo
  pub header : Option Header
  pub body : Bytes

should_ack_of : Option SubInfo → Bool
should_ack_of none = false
should_ack_of (some s) = not (is_auto s.ack_mode)

unfoldable pub should_ack : Message → Bool
unfolding should_ack_of
should_ack m = should_ack_of m.subscription

-- `Read` into a slice of `n` bytes: what it copies, with the message afterwards, or io.EOF.
read_of : Message → ℕ → Bytes → Option (Bytes × Message)
read_of m n [] = none
read_of m n (b ∷ body) =
    let k = min n (length (b ∷ body)) in
    some (take k (b ∷ body), record m { body = drop k (b ∷ body) })

unfoldable pub read : Message → ℕ → Option (Bytes × Message)
unfolding read_of
read m n = read_of m n m.body

read_byte_of : Message → Bytes → Option (ℕ × Message)
read_byte_of m [] = none
read_byte_of m (b ∷ body) = some (b, record m { body = body })

unfoldable pub read_byte : Message → Option (ℕ × Message)
unfolding read_byte_of
read_byte m = read_byte_of m m.body
