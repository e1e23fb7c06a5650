-- ===== src/Client/Options.antt =====
-- conn_options.go: the options of `Connect`, and the CONNECT frame that they make.
use stomp.Prelude.{
  ℕ, ◌*◌, Bool, true, false, not, ◌&&◌, List, [], ◌∷◌, ◌++◌, Option, none, some, if◌then◌else◌,
}
use stomp.Go.Result.{Result, ok, err, ◌>>=◌}
use stomp.Go.Int64.{Int64, quot, format_int}
use stomp.Go.Split.{join}
use stomp.Frame.Command
use stomp.Frame.Key
use stomp.Frame.Header.{Bytes, Header, add, add_header}
use stomp.Frame.Base.{Frame, new, set}
use stomp.Frame.HeartBeat.{millisecond}
use stomp.Server.Version.{v10, v11, v12, check_supported}
use stomp.Client.Error.{Error, unsupported_version}

abbrev pub second : ℕ
second = 1000000000

-- `DefaultHeartBeatError`, `DefaultMsgSendTimeout` and the three receipt timeouts of conn.go.
abbrev pub default_heart_beat_error : Int64
default_heart_beat_error = 5 * second

abbrev pub default_msg_send_timeout : Int64
default_msg_send_timeout = 10 * second

abbrev pub default_rcv_receipt_timeout : Int64
default_rcv_receipt_timeout = 30 * second

abbrev pub default_disconnect_receipt_timeout : Int64
default_disconnect_receipt_timeout = 30 * second

abbrev pub default_unsubscribe_receipt_timeout : Int64
default_unsubscribe_receipt_timeout = 30 * second

-- The bits of the float64 number 1.0.
abbrev one_point_zero : ℕ
one_point_zero = 4607182418800017408

-- The multiplier is a float64, given by its bits. A callback and a logger are named by a number;
-- `none` is no callback, and the logger of the library.
pub record ConnOptions : Type 0 where
  pub frame_command : Bytes
  pub host : Bytes
  pub read_timeout : Int64
  pub write_timeout : Int64
  pub heart_beat_error : Int64
  pub msg_send_timeout : Int64
  pub rcv_receipt_timeout : Int64
  pub disconnect_receipt_timeout : Int64
  pub unsubscribe_receipt_timeout : Int64
  pub heart_beat_grace_period_multiplier : ℕ
  pub login : Bytes
  pub passcode : Bytes
  pub accept_versions : List Bytes
  pub header : Option Header
  pub read_channel_capacity : Int64
  pub write_channel_capacity : Int64
  pub read_buffer_size : Int64
  pub write_buffer_size : Int64
  pub response_headers_callback : Option ℕ
  pub logger : Option ℕ

-- `func(*Conn) error`, which works on the options that hang on the connection for the time.
abbrev pub ConnOpt : Type 0
ConnOpt = ConnOptions → Result Error ConnOptions

abbrev pub default_options : ConnOptions
default_options = record {
  frame_command = Command.connect;
  host = [];
  read_timeout = 60 * second;
  write_timeout = 60 * second;
  heart_beat_error = default_heart_beat_error;
  msg_send_timeout = default_msg_send_timeout;
  rcv_receipt_timeout = default_rcv_receipt_timeout;
  disconnect_receipt_timeout = default_disconnect_receipt_timeout;
  unsubscribe_receipt_timeout = default_unsubscribe_receipt_timeout;
  heart_beat_grace_period_multiplier = one_point_zero;
  login = [];
  passcode = [];
  accept_versions = [];
  header = none;
  read_channel_capacity = 0;
  write_channel_capacity = 0;
  read_buffer_size = 0;
  write_buffer_size = 0;
  response_headers_callback = none;
  logger = none;
}

-- The loop of `newConnOptions`; a nil option is skipped.
unfoldable pub run_opts : List (Option ConnOpt) → ConnOpt
run_opts [] co = ok co
run_opts (none ∷ opts) co = run_opts opts co
run_opts (some opt ∷ opts) co = opt co >>= λ co'. run_opts opts co'

with_versions : List Bytes → List Bytes
with_versions [] = v10 ∷ v11 ∷ v12 ∷ []
with_versions (v ∷ l) = v ∷ l

unfoldable pub new_conn_options : List (Option ConnOpt) → Result Error ConnOptions
unfolding run_opts with_versions
new_conn_options opts = run_opts opts default_options >>= λ co.
    ok (record co { accept_versions = with_versions co.accept_versions })

-- The parts of `NewFrame`.
set_if_any : Bytes → Bytes → Frame → Frame
set_if_any key [] f = f
set_if_any key (c ∷ s) f = set f key (c ∷ s)

is_empty : Bytes → Bool
is_empty [] = true
is_empty (c ∷ s) = false

add_custom : Option Header → Frame → Frame
add_custom none f = f
add_custom (some h) f = record f { header = add_header f.header h }

unfoldable pub new_frame : ConnOptions → Frame
unfolding set_if_any is_empty add_custom
new_frame co =
    let f = set_if_any Key.host co.host (new co.frame_command []) in
    let send = quot co.write_timeout millisecond in
    let recv = quot co.read_timeout millisecond in
    let g = set f Key.heart_beat (format_int send ++ b',' ∷ format_int recv) in
    let k =
      (if not (is_empty co.login && is_empty co.passcode)
        then set (set g Key.login co.login) Key.passcode co.passcode
        else g) in
    add_custom co.header (set k Key.accept_version (join b',' co.accept_versions))

-- The options of `ConnOpt`.
unfoldable pub login_opt : Bytes → Bytes → ConnOpt
login_opt login passcode co = ok (record co { login = login; passcode = passcode })

unfoldable pub host_opt : Bytes → ConnOpt
host_opt host co = ok (record co { host = host })

unfoldable pub use_stomp_opt : ConnOpt
use_stomp_opt co = ok (record co { frame_command = Command.stomp_connect })

unfoldable pub accept_version_opt : List Bytes → ConnOpt
accept_version_opt [] co = ok co
accept_version_opt (v ∷ versions) co =
    if check_supported v
    then accept_version_opt versions (record co { accept_versions = co.accept_versions ++ v ∷ [] })
    else err unsupported_version

unfoldable pub heart_beat_opt : Int64 → Int64 → ConnOpt
heart_beat_opt send_timeout recv_timeout co =
    ok (record co { write_timeout = send_timeout; read_timeout = recv_timeout })

unfoldable pub heart_beat_error_opt : Int64 → ConnOpt
heart_beat_error_opt value co = ok (record co { heart_beat_error = value })

unfoldable pub msg_send_timeout_opt : Int64 → ConnOpt
msg_send_timeout_opt value co = ok (record co { msg_send_timeout = value })

unfoldable pub rcv_receipt_timeout_opt : Int64 → ConnOpt
rcv_receipt_timeout_opt value co = ok (record co { rcv_receipt_timeout = value })

unfoldable pub disconnect_receipt_timeout_opt : Int64 → ConnOpt
disconnect_receipt_timeout_opt value co = ok (record co { disconnect_receipt_timeout = value })

unfoldable pub unsubscribe_receipt_timeout_opt : Int64 → ConnOpt
unsubscribe_receipt_timeout_opt value co = ok (record co { unsubscribe_receipt_timeout = value })

unfoldable pub heart_beat_grace_period_multiplier_opt : ℕ → ConnOpt
heart_beat_grace_period_multiplier_opt value co =
    ok (record co { heart_beat_grace_period_multiplier = value })

unfoldable pub read_channel_capacity_opt : Int64 → ConnOpt
read_channel_capacity_opt value co = ok (record co { read_channel_capacity = value })

unfoldable pub write_channel_capacity_opt : Int64 → ConnOpt
write_channel_capacity_opt value co = ok (record co { write_channel_capacity = value })

unfoldable pub read_buffer_size_opt : Int64 → ConnOpt
read_buffer_size_opt value co = ok (record co { read_buffer_size = value })

unfoldable pub write_buffer_size_opt : Int64 → ConnOpt
write_buffer_size_opt value co = ok (record co { write_buffer_size = value })

header_with : Bytes → Bytes → Option Header → Header
header_with key value none = (key, value) ∷ []
header_with key value (some h) = add h key value

unfoldable pub header_opt : Bytes → Bytes → ConnOpt
unfolding header_with
header_opt key value co = ok (record co { header = some (header_with key value co.header) })

unfoldable pub response_headers_opt : Option ℕ → ConnOpt
response_headers_opt callback co = ok (record co { response_headers_callback = callback })

logger_or : Option ℕ → Option ℕ → Option ℕ
logger_or none old = old
logger_or (some log) old = some log

unfoldable pub logger_opt : Option ℕ → ConnOpt
unfolding logger_or
logger_opt log co = ok (record co { logger = logger_or log co.logger })
