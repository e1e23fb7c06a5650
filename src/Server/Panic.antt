-- ===== src/Server/Panic.antt =====
-- The panics of the server's code. A panic in any goroutine ends the whole process.
use stomp.Go.Result.{Result}

pub data Panic : Type 0 where
  -- `Add`: "subscription is already in a subscription list"
  already_in_list : Panic
  -- `setSubscriptionHeader`: "subscription already has a frame pending"
  frame_pending : Panic
  -- `IsAckedBy`: "invalid value for subscript.ack"
  invalid_ack : Panic
  -- the request loop: "missing destination"
  missing_destination : Panic
  -- a write to a nil map, and the use of a nil frame
  nil_map nil_frame : Panic

abbrev pub OrPanic {ℓ} : Type ℓ → Type ℓ
OrPanic A = Result Panic A
