-- ===== src/Client/AckMode.antt =====
-- ack.go.
use stomp.Prelude.{Bool, true, false}
use stomp.Go.Result.{Result, ok, err}
use stomp.Frame.Header.{Bytes}
use stomp.Frame.Key

-- The three modes, and every other value of the integer type.
pub data AckMode : Type 0 where
  ack_auto ack_client ack_client_individual other : AckMode

pub data ModePanic : Type 0 where
  invalid_ack_mode : ModePanic

unfoldable pub string : AckMode → Result ModePanic Bytes
string ack_auto = ok Key.ack_auto
string ack_client = ok Key.ack_client
string ack_client_individual = ok Key.ack_client_individual
string other = err invalid_ack_mode

unfoldable pub should_ack : AckMode → Result ModePanic Bool
should_ack ack_auto = ok false
should_ack ack_client = ok true
should_ack ack_client_individual = ok true
should_ack other = err invalid_ack_mode

-- `mode == AckAuto`.
unfoldable pub is_auto : AckMode → Bool
is_auto ack_auto = true
is_auto ack_client = false
is_auto ack_client_individual = false
is_auto other = false
