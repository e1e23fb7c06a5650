-- ===== src/Frame/Command.antt =====
-- frame/command.go.
use stomp.Prelude.{ℕ, List, codes}

abbrev pub connect : List ℕ
connect = codes "CONNECT"

abbrev pub stomp_connect : List ℕ
stomp_connect = codes "STOMP"

abbrev pub connected : List ℕ
connected = codes "CONNECTED"

abbrev pub send : List ℕ
send = codes "SEND"

abbrev pub subscribe : List ℕ
subscribe = codes "SUBSCRIBE"

abbrev pub unsubscribe : List ℕ
unsubscribe = codes "UNSUBSCRIBE"

abbrev pub ack : List ℕ
ack = codes "ACK"

abbrev pub nack : List ℕ
nack = codes "NACK"

abbrev pub begin : List ℕ
begin = codes "BEGIN"

abbrev pub commit : List ℕ
commit = codes "COMMIT"

abbrev pub abort : List ℕ
abort = codes "ABORT"

abbrev pub disconnect : List ℕ
disconnect = codes "DISCONNECT"

abbrev pub message : List ℕ
message = codes "MESSAGE"

abbrev pub receipt : List ℕ
receipt = codes "RECEIPT"

abbrev pub error : List ℕ
error = codes "ERROR"
