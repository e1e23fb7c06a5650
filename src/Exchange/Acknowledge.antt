-- ===== src/Exchange/Acknowledge.antt =====
-- Acknowledgements: `createAckNackFrame` of conn.go against `handleAck` of server/client/conn.go.
use stomp.Prelude.{◌≡◌, refl, sym, subst, Bool, true, ◌||◌, some, same}
use stomp.Go.Result.{ok, err}
use stomp.Go.Number.{parse_uint}
use stomp.Frame.Key
use stomp.Frame.Header.{Bytes, Header, contains}
use stomp.Frame.Base.{Frame, new}
use stomp.Server.ClientError.{missing_header}
use stomp.Server.Version.{v10, v11, v12}
use stomp.Server.Conn.State.{Conn}
use stomp.Server.Conn.Ack.{acked_msg_id, with_text}
use stomp.Client.Message.{Message}
use stomp.Client.Frames.{create_ack_nack_frame}
use stomp.Client.Frames.Acks.{create_ack_nack_frame-v12, create_ack_nack_frame-old}

-- Before version 1.2, the server reads in the client's frame the message-id entry of the message that it
-- acknowledges, as a number or with the error of its text.
pub acked_msg_id-old :
    (v : Bytes) (m : Message) (ack : Bool) (f : Frame) (c : Conn)
    → (same v v10 || same v v11) ≡ true
    → create_ack_nack_frame v m ack ≡ ok (some f)
    → (h : Header) × (value : Bytes) × (m.header ≡ some h)
      × (contains h Key.message_id ≡ some value)
      × (acked_msg_id c f ≡ ok (c, f, with_text value (parse_uint 64 value)))
unfolding acked_msg_id contains same new
acked_msg_id-old v m ack f c k e =
    let made = create_ack_nack_frame-old v m ack f k e in
    (
      made.header,
      made.value,
      made.received.1,
      made.entry,
      subst (λ g. acked_msg_id c g ≡ ok (c, g, with_text made.value (parse_uint 64 made.value)))
          (sym made.shape) refl,
    )

-- In version 1.2 the server of this repository refuses every acknowledgement that the client of this
-- repository sends: the message id is in the id entry, where the server does not look for it.
pub acked_msg_id-refused :
    (m : Message) (ack : Bool) (f : Frame) (c : Conn)
    → create_ack_nack_frame v12 m ack ≡ ok (some f)
    → acked_msg_id c f ≡ ok (c, f, err (missing_header Key.message_id))
unfolding acked_msg_id contains same new
acked_msg_id-refused m ack f c e =
    let made = create_ack_nack_frame-v12 m ack f e in
    subst (λ g. acked_msg_id c g ≡ ok (c, g, err (missing_header Key.message_id))) (sym made.shape)
      refl
