-- ===== src/Server/Conn/Connect.antt =====
-- `handleConnect` and `handleDisconnect` of server/client/conn.go.
use stomp.Prelude.{
  ℕ, ◌*◌, Bool, true, false, [], ◌∷◌, Option, none, some, same, codes, if◌then◌else◌,
}
use stomp.Go.Result.{Result, ok, err}
use stomp.Frame.Command
use stomp.Frame.Key
use stomp.Frame.Header.{Bytes, or_empty}
use stomp.Frame.Base.{Frame, new}
use stomp.Frame.HeartBeat.{show_heart_beat, millisecond}
use stomp.Server.ClientError.{
  ClientError, receipt_in_connect, authentication_failed, unsupported_version,
}
use stomp.Server.Version.{v10, determine_version}
use stomp.Server.HeartBeat.{max_heart_beat, get_heart_beat, as_milliseconds, at_least}
use stomp.Server.Conn.State.{
  connected_op, connected, Config, Handler, ◌>>=◌, ◌>>◌, done, fail, entry, request, modify,
  send_immediately,
}
use stomp.Server.Conn.Send.{send_receipt_immediately}

-- The parts of `handleConnect`.
no_receipt : Option Bytes → Handler (Unit {0})
no_receipt none = done
no_receipt (some v) = fail receipt_in_connect

check_login : Bool → Handler (Unit {0})
check_login true = done
check_login false = fail authentication_failed

-- `c.version, err = determineVersion(f)`.
set_version : Result ClientError Bytes → Handler Bytes
set_version (ok v) c f = ok (record c { version = v }, f, ok v)
set_version (err e) c f = ok (record c { version = [] }, f, err e)

check_version : Bytes → Handler (Unit {0})
check_version v = if same v v10 then fail unsupported_version else done

unfoldable pub connect_response : Bytes → ℕ → ℕ → Frame
connect_response version cx cy = new Command.connected (
    (Key.version, version)
    ∷ (Key.server, codes "stompd/x.y.z")
    ∷ (Key.heart_beat, show_heart_beat cy cx)
    ∷ [])

-- The response; what becomes of the write is ignored.
respond : Frame → Handler (Unit {0})
unfolding send_immediately
respond g c f = elim (send_immediately g c f) [
  | err p ↦ err p
  | ok (c', f', r) ↦ ok (c', f', ok tt)
]

-- `handleConnect`, but for the second that a failed login waits.
unfoldable pub handle_connect : Config → Handler (Unit {0})
unfolding no_receipt check_login set_version check_version respond
handle_connect cfg = do
  receipt ← entry Key.receipt
  no_receipt receipt
  login ← entry Key.login
  passcode ← entry Key.passcode
  check_login (cfg.authenticate (or_empty login) (or_empty passcode))
  version ← λ c f. set_version (determine_version f) c f
  check_version version
  beat ← λ c f. ok (c, f, get_heart_beat f)
  let min = as_milliseconds cfg.heart_beat max_heart_beat
  let cx = at_least min beat.0
  let cy = at_least min beat.1
  modify (λ c. record c { write_timeout = cy * millisecond })
  respond (connect_response version cx cy)
  modify (λ c. record c { state_func = connected })
  λ c f. request (connected_op c.number) c f

-- `handleDisconnect`; a failed receipt is ignored.
unfoldable pub handle_disconnect : Handler (Unit {0})
unfolding send_receipt_immediately
handle_disconnect c f = elim (send_receipt_immediately c f) [
  | err p ↦ err p
  | ok (c', f', r) ↦ ok (c', f', ok tt)
]
