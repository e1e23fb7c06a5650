-- ===== src/Client/Error.antt =====
-- errors.go and frame/errors.go: the errors that the client's calls return.
use stomp.Prelude.{[], ◌∷◌, ◌++◌, Option, none, some, codes, same, if◌then◌else◌}
use stomp.Frame.Command
use stomp.Frame.Key
use stomp.Frame.Header.{Bytes}
use stomp.Frame.Header
use stomp.Frame.Base.{Frame}
use stomp.Frame.Reader.{ReadError}

-- An `Error`, with its message and the frame that it is about; an error of the reader; or one that
-- comes from outside, from the network or from an option of the caller, with its text.
pub data Error : Type 0 where
  error : Bytes → Option Frame → Error
  reading : ReadError → Error
  outside : Bytes → Error

unfoldable pub new_error_message : Bytes → Error
new_error_message msg = error msg none

abbrev pub invalid_command : Error
invalid_command = error (codes "invalid command") none

abbrev pub unsupported_version : Error
unsupported_version = error (codes "unsupported version") none

abbrev pub completed_transaction : Error
completed_transaction = error (codes "transaction is completed") none

abbrev pub nack_not_supported : Error
nack_not_supported = error (codes "NACK not supported in STOMP 1.0") none

abbrev pub not_received_message : Error
not_received_message = error (codes "cannot ack/nack a message, not from server") none

abbrev pub cannot_nack_auto_sub : Error
cannot_nack_auto_sub = error (codes "cannot send NACK for a subscription with ack:auto") none

abbrev pub completed_subscription : Error
completed_subscription = error (codes "subscription is unsubscribed") none

abbrev pub closed_unexpectedly : Error
closed_unexpectedly = error (codes "connection closed unexpectedly") none

abbrev pub already_closed : Error
already_closed = error (codes "connection already closed") none

abbrev pub msg_send_timeout : Error
msg_send_timeout = error (codes "msg send timeout") none

abbrev pub msg_receipt_timeout : Error
msg_receipt_timeout = error (codes "msg receipt timeout") none

abbrev pub disconnect_receipt_timeout : Error
disconnect_receipt_timeout = error (codes "disconnect receipt timeout") none

abbrev pub unsubscribe_receipt_timeout : Error
unsubscribe_receipt_timeout = error (codes "unsubscribe receipt timeout") none

abbrev pub nil_option : Error
nil_option = error (codes "nil option") none

-- The text of ErrInvalidHeartBeat of frame/errors.go.
abbrev pub invalid_heart_beat_text : Bytes
invalid_heart_beat_text = codes "invalid heart-beat"

unfoldable pub missing_header : Bytes → Error
unfolding new_error_message
missing_header name = new_error_message (codes "missing header: " ++ name)

-- The message of the error that `newError` makes of an ERROR frame's message entry.
or_missing : Bytes → Bytes
or_missing [] = codes "ERROR frame, missing message header"
or_missing (c ∷ s) = c ∷ s

unfoldable pub new_error : Frame → Error
unfolding or_missing
new_error f =
    error
      (if same f.command Command.error
        then or_missing (Header.get f.header Key.message)
        else codes "Unexpected frame: " ++ f.command)
      (some f)
