-- ===== src/Client/Connect.antt =====
-- `Connect` of conn.go: the client's side of the handshake, and the connection that it ends with.
pub mod Timeouts
use stomp.Prelude.{
  ℕ, ◌+◌, ◌-◌, ◌≤◌, ◌<◌, ◌≡◌, refl, Bool, true, false, List, [], ◌∷◌, ◌++◌, Option, none, some,
  codes, same, if◌then◌else◌,
}
use stomp.Go.Result.{Result, ok, err, ◌>>=◌}
use stomp.Go.Int64.{Int64, less, add, sub}
use stomp.Frame.Command
use stomp.Frame.Key
use stomp.Frame.Header.{Bytes, Header, contains, get}
use stomp.Frame.Base.{Frame}
use stomp.Frame.HeartBeat.{parse_heart_beat}
use stomp.Frame.Reader.{ReadError}
use stomp.Server.Version.{v10, check_supported}
use stomp.Client.Error.{Error, error, reading, outside, new_error, invalid_heart_beat_text}
use stomp.Client.Options.{ConnOptions, ConnOpt, new_conn_options, new_frame}

-- A `writeRequest`: the frame, and the channel of the response, where there is one. Channels are
-- named by numbers.
pub record WriteRequest : Type 0 where
  pub frame : Frame
  pub chan : Option ℕ

-- The fields of `Conn` that its calls work on. `write_ch` is what was put on the write channel, in
-- order, and `next_chan` the next channel to be made; `net_closed` counts the calls of `conn.Close`.
pub record ClientConn : Type 0 where
  pub version : Bytes
  pub session : Bytes
  pub server : Bytes
  pub read_timeout : Int64
  pub write_timeout : Int64
  pub msg_send_timeout : Int64
  pub rcv_receipt_timeout : Int64
  pub disconnect_receipt_timeout : Int64
  pub unsubscribe_receipt_timeout : Int64
  pub hb_grace_period_multiplier : ℕ
  pub closed : Bool
  pub write_ch : List WriteRequest
  pub write_closed : Bool
  pub net_closed : ℕ
  pub next_chan : ℕ

-- `options.Host` when it is empty: what the network connection says, or the default.
unfoldable pub host_or : Bytes → Bytes → Bytes
host_or [] [] = codes "default"
host_or [] (c ∷ s) = c ∷ s
host_or (c ∷ s) remote = c ∷ s

-- The negotiated version of a CONNECTED frame.
unfoldable pub version_of : Bytes → Frame → Result Error Bytes
version_of [] response = ok v10
version_of (c ∷ s) response =
    if check_supported (c ∷ s)
    then ok (c ∷ s)
    else err (error (codes "unsupported version") (some response))

-- The two timeouts of the heart-beat entry.
unfoldable pub timeouts : ConnOptions → ℕ × ℕ → Int64 × Int64
timeouts co beat =
    let read = (if less beat.0 co.read_timeout then co.read_timeout else beat.0) in
    (
      if less 0 read then add read co.heart_beat_error else read,
      if less co.heart_beat_error beat.1 then sub beat.1 co.heart_beat_error else beat.1,
    )

unfoldable pub heart_beat_of : ConnOptions → Option Bytes → Frame → Result Error (Int64 × Int64)
unfolding timeouts
heart_beat_of co none response = ok (0, 0)
heart_beat_of co (some text) response = elim (parse_heart_beat text) [
  | err e ↦ err (error invalid_heart_beat_text (some response))
  | ok beat ↦ ok (timeouts co beat)
]

-- The connection that `Connect` ends with.
abbrev pub connection : ConnOptions → Frame → Bytes → Int64 × Int64 → ClientConn
connection co response version beat = record {
  version = version;
  session = get response.header Key.session;
  server = get response.header Key.server;
  read_timeout = beat.0;
  write_timeout = beat.1;
  msg_send_timeout = co.msg_send_timeout;
  rcv_receipt_timeout = co.rcv_receipt_timeout;
  disconnect_receipt_timeout = co.disconnect_receipt_timeout;
  unsubscribe_receipt_timeout = co.unsubscribe_receipt_timeout;
  hb_grace_period_multiplier = co.heart_beat_grace_period_multiplier;
  closed = false;
  write_ch = [];
  write_closed = false;
  net_closed = 0;
  next_chan = 0;
}

-- `Connect` behind the response.
unfoldable pub accept_response : ConnOptions → Frame → Result Error ClientConn
unfolding version_of heart_beat_of
accept_response co response =
    if same response.command Command.connected
    then (do
      version ← version_of (get response.header Key.version) response
      beat ← heart_beat_of co (contains response.header Key.heart_beat) response
      ok (connection co response version beat))
    else err (new_error response)

-- What `reader.Read` gave.
unfoldable pub receive : ConnOptions → Result ReadError (Option Frame) → Result Error ClientConn
unfolding accept_response
receive co (err e) = err (reading e)
receive co (ok none) = err (outside (codes "unexpected empty frame"))
receive co (ok (some response)) = accept_response co response

-- The frame that `Connect` sends, with the options behind it. `remote` is the host of the network
-- connection, empty if it has none.
unfoldable pub connect_frame : List (Option ConnOpt) → Bytes → Result Error (ConnOptions × Frame)
unfolding host_or
connect_frame opts remote = do
  co ← new_conn_options opts
  let named = record co { host = host_or co.host remote }
  ok (named, new_frame named)

-- `Connect`: `exchange` writes the frame and reads the response, or gives the network's error.
unfoldable pub connect :
    List (Option ConnOpt)
    → Bytes
    → (Frame → Result Error (Result ReadError (Option Frame)))
    → Result Error ClientConn
unfolding receive
connect opts remote exchange = do
  x ← connect_frame opts remote
  response ← exchange x.1
  receive x.0 response

-- The capacities of the two channels, and the sizes of the two buffers, where 4096 is bufio's own.
unfoldable pub channel_capacity : Int64 → Int64
channel_capacity option = if less 0 option then option else 20

unfoldable pub reader_size : ConnOptions → Int64
reader_size co = if less 0 co.read_buffer_size then co.read_buffer_size else 4096

-- As the code has it: the size of the write buffer is that of the read buffer.
unfoldable pub writer_size : ConnOptions → Int64
writer_size co = if less 0 co.write_buffer_size then co.read_buffer_size else 4096
