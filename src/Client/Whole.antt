-- ===== src/Client/Whole.antt =====
-- The calls of a connection together with its `processLoop`, of conn.go.
use stomp.Prelude.{ℕ, ◌≡◌, ◌≢◌, true, List, [], ◌∷◌, none, same}
use stomp.Frame.Command
use stomp.Frame.Key
use stomp.Frame.Header.{contains}
use stomp.Frame.Base.{Frame}
use stomp.Client.Connect.{WriteRequest}
use stomp.Client.Calls.{Client}
use stomp.Client.Loop.{
  Event, read_timeout, write_timeout, read_closed, heart_beat, frame_read, write_closed, request,
  gives_up,
}

-- The requests among some events, in their order.
unfoldable pub requests_of : List Event → List WriteRequest
requests_of [] = []
requests_of (request req ∷ es) = req ∷ requests_of es
requests_of (read_timeout ∷ es) = requests_of es
requests_of (write_timeout ∷ es) = requests_of es
requests_of (read_closed ∷ es) = requests_of es
requests_of (heart_beat ∷ es) = requests_of es
requests_of (frame_read f ∷ es) = requests_of es
requests_of (write_closed ∷ es) = requests_of es
requests_of (gives_up ch ∷ es) = requests_of es

-- The channels whose readers go away among some events.
unfoldable pub gone_of : List Event → List ℕ
gone_of [] = []
gone_of (gives_up ch ∷ es) = ch ∷ gone_of es
gone_of (request req ∷ es) = gone_of es
gone_of (read_timeout ∷ es) = gone_of es
gone_of (write_timeout ∷ es) = gone_of es
gone_of (read_closed ∷ es) = gone_of es
gone_of (heart_beat ∷ es) = gone_of es
gone_of (frame_read f ∷ es) = gone_of es
gone_of (write_closed ∷ es) = gone_of es

-- A SUBSCRIBE request has a channel, and no receipt entry.
unfoldable pub IsPlain : WriteRequest → Type 0
IsPlain req =
    same req.frame.command Command.subscribe ≡ true
    → (req.chan ≢ none) × (contains req.frame.header Key.receipt ≡ none)
