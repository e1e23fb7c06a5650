-- ===== src/Client/Frames/Acks.antt =====
-- createAckNackFrame of conn.go: the frames that it makes.
use stomp.Prelude.{
  ◌≡◌, inl, inr, refl, Bool, true, false, ◌||◌, [], ◌∷◌, Option, none, some, same, arith,
  if◌then◌else◌, Option-cases, Bool-cases,
}
use stomp.Go.Result.{ok}
use stomp.Frame.Command
use stomp.Frame.Key
use stomp.Frame.Header.{Bytes, Header, contains, add}
use stomp.Frame.Base.{Frame, new}
use stomp.Server.Version.{v10, v11, v12, supports_nack}
use stomp.Client.AckMode.{is_auto}
use stomp.Client.Message.{Message, SubInfo}
use stomp.Client.Frames.{create_ack_nack_frame, ack_nack_of, refer, copy_entry}

abbrev pub command_of : Bool → Bytes
command_of ack = if ack then Command.ack else Command.nack

-- The frame of an acknowledgement, with one entry of the message that it takes up.
pub record Made (m : Message) (from : Bytes) (f : Frame) (frame_of : SubInfo → Bytes → Frame)
    : Type 0 where
  pub sub : SubInfo
  pub header : Header
  pub value : Bytes
  pub received : (m.subscription ≡ some sub) × (m.header ≡ some header) × (m.conn ≡ true)
  pub not_auto : is_auto sub.ack_mode ≡ false
  pub entry : contains header from ≡ some value
  pub shape : f ≡ frame_of sub value

abbrev pub by_id : Bool → SubInfo → Bytes → Frame
by_id ack sub value = new (command_of ack) ((Key.id, value) ∷ [])

abbrev pub by_message_id : Bool → SubInfo → Bytes → Frame
by_message_id ack sub value =
    new (command_of ack) ((Key.subscription, sub.id) ∷ (Key.message_id, value) ∷ [])

-- The same on the parts of the message.
ack_nack_of-Made :
    (v : Bytes) (ack : Bool) (m : Message) (from : Bytes) (f : Frame)
    (frame_of : SubInfo → Bytes → Frame)
    → ((s : SubInfo) (h : Header)
        → refer v s h (new (command_of ack) []) ≡ ok f
        → (value : Bytes) × (contains h from ≡ some value) × (f ≡ frame_of s value))
    → (s : Option SubInfo) → m.subscription ≡ s
    → (h : Option Header) → m.header ≡ h
    → (b : Bool) → m.conn ≡ b
    → ack_nack_of v ack s h b ≡ ok (some f)
    → Made m from f frame_of
unfolding ack_nack_of
ack_nack_of-Made v ack m from f frame_of k none p h q b r e = absurd (ground arith)
ack_nack_of-Made v ack m from f frame_of k (some s) p none q b r e = absurd (ground arith)
ack_nack_of-Made v ack m from f frame_of k (some s) p (some h) q false r e = absurd (ground arith)
ack_nack_of-Made v ack m from f frame_of k (some s) p (some h) q true r e =
    elim (Bool-cases (is_auto s.ack_mode)) [
      | inl a ↦ absurd (ground arith)
      | inr a ↦
          let (value, x, y) = k s h (ground arith) in
          record {
            sub = s;
            header = h;
            value = value;
            received = (p, q, r);
            not_auto = a;
            entry = x;
            shape = y;
          }
    ]

refer-v12 :
    (ack : Bool) (f : Frame) (s : SubInfo) (h : Header)
    → refer v12 s h (new (command_of ack) []) ≡ ok f
    → (value : Bytes) × (contains h Key.ack ≡ some value) × (f ≡ by_id ack s value)
unfolding refer copy_entry same add new
refer-v12 ack f s h e = elim (Option-cases (contains h Key.ack)) [
  | inl n ↦ absurd (ground arith)
  | inr (value, n) ↦ (value, n, ground arith)
]

refer-old :
    (v : Bytes) (ack : Bool) (f : Frame) (s : SubInfo) (h : Header)
    → (same v v10 || same v v11) ≡ true
    → refer v s h (new (command_of ack) []) ≡ ok f
    → (value : Bytes) × (contains h Key.message_id ≡ some value) × (f ≡ by_message_id ack s value)
unfolding refer copy_entry add new
refer-old v ack f s h k e = elim (Option-cases (contains h Key.message_id)) [
  | inl n ↦ absurd (ground arith)
  | inr (value, n) ↦ (value, n, ground arith)
]

-- In version 1.2 a frame for an acknowledgement has the ack entry of its message as its id entry, and
-- nothing else.
pub create_ack_nack_frame-v12 :
    (m : Message) (ack : Bool) (f : Frame)
    → create_ack_nack_frame v12 m ack ≡ ok (some f)
    → Made m Key.ack f (by_id ack)
unfolding create_ack_nack_frame supports_nack same
create_ack_nack_frame-v12 m ack f e =
    ack_nack_of-Made v12 ack m Key.ack f (by_id ack) (refer-v12 ack f) m.subscription refl m.header
      refl m.conn refl (ground arith)

-- Before 1.2 it has the message-id entry of its message, beside the id of the subscription.
pub create_ack_nack_frame-old :
    (v : Bytes) (m : Message) (ack : Bool) (f : Frame)
    → (same v v10 || same v v11) ≡ true
    → create_ack_nack_frame v m ack ≡ ok (some f)
    → Made m Key.message_id f (by_message_id ack)
unfolding create_ack_nack_frame
create_ack_nack_frame-old v m ack f k e =
    ack_nack_of-Made v ack m Key.message_id f (by_message_id ack) (λ s h. refer-old v ack f s h k)
      m.subscription refl m.header refl m.conn refl (ground arith)
