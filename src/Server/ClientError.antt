-- ===== src/Server/ClientError.antt =====
-- server/client/errors.go, and the other errors that a connection meets.
use stomp.Prelude.{ℕ, List, codes, ◌++◌}
use stomp.Go.Number.{NumError, syntax, range}

-- An `errorMessage`, an error of strconv.ParseUint with its text, or a write that the network
-- refused.
pub data ClientError : Type 0 where
  message : List ℕ → ClientError
  number : NumError → List ℕ → ClientError
  network : ClientError

abbrev pub not_connected : ClientError
not_connected = message (codes "expected CONNECT or STOMP frame")

abbrev pub unexpected_command : ClientError
unexpected_command = message (codes "unexpected frame command")

abbrev pub unknown_command : ClientError
unknown_command = message (codes "unknown command")

abbrev pub receipt_in_connect : ClientError
receipt_in_connect = message (codes "receipt header prohibited in CONNECT or STOMP frame")

abbrev pub authentication_failed : ClientError
authentication_failed = message (codes "authentication failed")

abbrev pub tx_already_in_progress : ClientError
tx_already_in_progress = message (codes "transaction already in progress")

abbrev pub tx_unknown : ClientError
tx_unknown = message (codes "unknown transaction")

abbrev pub unsupported_version : ClientError
unsupported_version = message (codes "unsupported version")

abbrev pub subscription_exists : ClientError
subscription_exists = message (codes "subscription already exists")

abbrev pub subscription_not_found : ClientError
subscription_not_found = message (codes "subscription not found")

abbrev pub unknown_version : ClientError
unknown_version = message (codes "incompatible version")

abbrev pub not_connect_frame : ClientError
not_connect_frame = message (codes "operation valid for STOMP and CONNECT frames only")

abbrev pub invalid_heart_beat : ClientError
invalid_heart_beat = message (codes "invalid format for heart-beat")

abbrev pub invalid_operation_for_frame : ClientError
invalid_operation_for_frame = message (codes "invalid operation for frame")

unfoldable pub missing_header : List ℕ → ClientError
missing_header name = message (codes "missing header: " ++ name)

unfoldable pub prohibited_header : List ℕ → ClientError
prohibited_header name = message (codes "prohibited header: " ++ name)

abbrev reason : NumError → List ℕ
reason syntax = codes "invalid syntax"
reason range = codes "value out of range"

-- `Error()`; strconv.Quote and the text of a network error are left to the caller.
unfoldable pub error_text : (List ℕ → List ℕ) → List ℕ → ClientError → List ℕ
error_text quote network_text (message m) = m
error_text quote network_text (number e s) =
    codes "strconv.ParseUint: parsing " ++ quote s ++ codes ": " ++ reason e
error_text quote network_text network = network_text
