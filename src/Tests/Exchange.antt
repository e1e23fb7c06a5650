-- ===== src/Tests/Exchange.antt =====
-- The theorems on the two ends of a connection.
use stomp.Prelude.{◌≡◌, refl, true, false, [], ◌∷◌, ◌++◌, none, some, codes, same}
use stomp.Go.Result.{ok, err}
use stomp.Go.Number.{parse_uint}
use stomp.Frame.Command
use stomp.Frame.Key
use stomp.Frame.Header.{Bytes, Header, contains}
use stomp.Frame.Base.{Frame, new}
use stomp.Server.ClientError.{missing_header}
use stomp.Server.Version.{v11, v12, supports_nack}
use stomp.Server.Conn.State.{Config, Conn}
use stomp.Server.Conn.Connect.{handle_connect}
use stomp.Server.Conn.Ack.{acked_msg_id, with_text}
use stomp.Client.AckMode.{ack_client, is_auto}
use stomp.Client.Message.{Message}
use stomp.Client.Frames.{create_ack_nack_frame}
use stomp.Client.Options.{default_options}
use stomp.Client.Connect.{ClientConn, connect, connect_frame, receive}
use stomp.Exchange.Handshake.{plain_options, handle_connect-accepted, connect-handle_connect}
use stomp.Exchange.Acknowledge.{acked_msg_id-old, acked_msg_id-refused}
use stomp.Tests.Data.{fresh}
use stomp.Tests.Connection.{config, hi, welcomed, fresh-welcomed}

handle_connect-accepted_example :
    (r : Frame) × (conn : ClientConn) × (welcomed.written ≡ fresh.written ++ some r ∷ [])
    × (receive default_options (ok (some r)) ≡ ok conn)
    × (conn.version ≡ welcomed.version)
    × (conn.server ≡ codes "stompd/x.y.z")
    × (conn.closed ≡ false)
handle_connect-accepted_example =
    handle_connect-accepted config fresh welcomed hi hi 8 default_options refl fresh-welcomed

-- A server that lets everyone in.
abbrev open_config : Config
open_config = record config { authenticate = λ login passcode. true }

connect-handle_connect_example :
    (f : Frame) × (c' : Conn) × (r : Frame) × (conn : ClientConn) × (connect_frame [] (codes "h")
      ≡ ok (plain_options (codes "h"), f))
    × (handle_connect open_config fresh f ≡ ok (c', f, ok tt))
    × (c'.written ≡ fresh.written ++ some r ∷ [])
    × (connect [] (codes "h") (λ g. ok (ok (some r))) ≡ ok conn)
    × (c'.version ≡ v12)
    × (conn.version ≡ v12)
connect-handle_connect_example = connect-handle_connect open_config fresh 8 (codes "h") refl refl

-- A message with both entries, as the server sends it in version 1.2.
abbrev numbered : Message
numbered = record {
  problem = none;
  destination = codes "/queue/a";
  content_type = [];
  conn = true;
  subscription = some (record {
    id = codes "1";
    reply_to_set = false;
    destination = codes "/queue/a";
    ack_mode = ack_client;
  });
  header = some ((Key.message_id, codes "5") ∷ (Key.ack, codes "5") ∷ []);
  body = [];
}

abbrev by_id_5 : Frame
by_id_5 = new Command.ack ((Key.id, codes "5") ∷ [])

numbered-by_id : create_ack_nack_frame v12 numbered true ≡ ok (some by_id_5)
unfolding create_ack_nack_frame supports_nack contains same new is_auto
numbered-by_id = refl

acked_msg_id-refused_example :
    acked_msg_id fresh by_id_5 ≡ ok (fresh, by_id_5, err (missing_header Key.message_id))
acked_msg_id-refused_example = acked_msg_id-refused numbered true by_id_5 fresh numbered-by_id

abbrev by_message_id_5 : Frame
by_message_id_5 = new Command.ack ((Key.subscription, codes "1") ∷ (Key.message_id, codes "5") ∷ [])

numbered-by_message_id : create_ack_nack_frame v11 numbered true ≡ ok (some by_message_id_5)
unfolding create_ack_nack_frame supports_nack contains same new is_auto
numbered-by_message_id = refl

acked_msg_id-old_example :
    (h : Header) × (value : Bytes) × (numbered.header ≡ some h)
    × (contains h Key.message_id ≡ some value)
    × (acked_msg_id fresh by_message_id_5
        ≡ ok (fresh, by_message_id_5, with_text value (parse_uint 64 value)))
unfolding same
acked_msg_id-old_example =
    acked_msg_id-old v11 numbered true by_message_id_5 fresh refl numbered-by_message_id
