-- ===== src/Frame/Key.antt =====
-- The names of header entries (frame/header.go) and the values of `ack` (frame/ack.go).
use stomp.Prelude.{ℕ, List, codes}

abbrev pub content_length : List ℕ
content_length = codes "content-length"

abbrev pub content_type : List ℕ
content_type = codes "content-type"

abbrev pub receipt : List ℕ
receipt = codes "receipt"

abbrev pub accept_version : List ℕ
accept_version = codes "accept-version"

abbrev pub host : List ℕ
host = codes "host"

abbrev pub version : List ℕ
version = codes "version"

abbrev pub login : List ℕ
login = codes "login"

abbrev pub passcode : List ℕ
passcode = codes "passcode"

abbrev pub heart_beat : List ℕ
heart_beat = codes "heart-beat"

abbrev pub session : List ℕ
session = codes "session"

abbrev pub server : List ℕ
server = codes "server"

abbrev pub destination : List ℕ
destination = codes "destination"

abbrev pub id : List ℕ
id = codes "id"

abbrev pub ack : List ℕ
ack = codes "ack"

abbrev pub transaction : List ℕ
transaction = codes "transaction"

abbrev pub receipt_id : List ℕ
receipt_id = codes "receipt-id"

abbrev pub subscription : List ℕ
subscription = codes "subscription"

abbrev pub message_id : List ℕ
message_id = codes "message-id"

abbrev pub message : List ℕ
message = codes "message"

abbrev pub ack_auto : List ℕ
ack_auto = codes "auto"

abbrev pub ack_client : List ℕ
ack_client = codes "client"

abbrev pub ack_client_individual : List ℕ
ack_client_individual = codes "client-individual"
