-- ===== src/Server/Conn/Handshake.antt =====
-- Nothing but a proper handshake leads to the connected state.
use stomp.Prelude.{
  ℕ, ◌≡◌, refl, true, false, ◌||◌, [], ◌∷◌, ◌++◌, none, same, arith, Option-cases, Bool-cases, inl,
  inr, ◌*◌,
}
use stomp.Go.Result.{ok, err, Result-cases}
use stomp.Frame.Command
use stomp.Frame.Key
use stomp.Frame.Header.{contains, or_empty}
use stomp.Frame.Base.{Frame}
use stomp.Frame.HeartBeat.{millisecond}
use stomp.Server.ClientError.{not_connected}
use stomp.Server.Version.{v10, determine_version}
use stomp.Server.HeartBeat.{max_heart_beat, get_heart_beat, as_milliseconds, at_least}
use stomp.Server.Conn.State.{connected_op, connecting, connected, Config, Conn, write}
use stomp.Server.Conn.Connect.{handle_connect}
use stomp.Server.Conn.Dispatch.{connecting_func, run_state_func}

-- Before the handshake every frame that is no CONNECT or STOMP frame is refused, and changes nothing.
pub run_state_func-connecting :
    (cfg : Config) (c : Conn) (f : Frame)
    → c.state_func ≡ connecting
    → (same f.command Command.connect || same f.command Command.stomp_connect) ≡ false
    → run_state_func cfg c f ≡ ok (c, f, err not_connected)
unfolding run_state_func connecting_func
run_state_func-connecting cfg c f e n = rw (e, run_state_func) (rw (n) refl)

-- What a handshake that succeeds has checked, and what it has left.
pub record Connected (cfg : Config) (c : Conn) (f : Frame) (c' : Conn) : Type 0 where
  pub no_receipt : contains f.header Key.receipt ≡ none
  pub authentic :
      cfg.authenticate
        (or_empty (contains f.header Key.login))
        (or_empty (contains f.header Key.passcode))
      ≡ true
  pub version : determine_version f ≡ ok c'.version
  pub not_v10 : same c'.version v10 ≡ false
  pub state : c'.state_func ≡ connected
  pub number : c'.number ≡ c.number
  pub told : c'.requests ≡ c.requests ++ connected_op c.number ∷ []
  pub subs : c'.subs ≡ c.subs
  pub beats :
      (x y : ℕ) × (get_heart_beat f ≡ ok (x, y))
      × (c'.write_timeout
          ≡ at_least (as_milliseconds cfg.heart_beat max_heart_beat) y * millisecond)

-- If the handshake succeeds, the client is authenticated, its frame has no receipt entry, and the
-- version is the negotiated one and is not 1.0; the connection is in the connected state, has told
-- the upper layer so once, has its write timeout from the client's heart-beat and the server's, and
-- has the subscriptions that it had.
pub handle_connect-Connected :
    (cfg : Config) (c c' : Conn) (f f' : Frame)
    → handle_connect cfg c f ≡ ok (c', f', ok tt)
    → Connected cfg c f c'
unfolding handle_connect write
handle_connect-Connected cfg c c' f f' e = elim (Option-cases (contains f.header Key.receipt)) [
  | inr (v, r) ↦ absurd (ground arith)
  | inl r ↦
      elim (Bool-cases (
        cfg.authenticate (or_empty (contains f.header Key.login))
          (or_empty (contains f.header Key.passcode)))) [
            | inr a ↦ absurd (ground arith)
            | inl a ↦ elim (Result-cases (determine_version f)) [
              | inr (x, v) ↦ absurd (ground arith)
              | inl (version, v) ↦ elim (Bool-cases (same version v10)) [
                | inl old ↦ absurd (ground arith)
                | inr new ↦ elim (Result-cases (get_heart_beat f)) [
                  | inr (x, b) ↦ absurd (ground arith)
                  | inl ((x, y), b) ↦ record {
                    no_receipt = r;
                    authentic = a;
                    version = ground arith;
                    not_v10 = ground arith;
                    state = ground arith;
                    number = ground arith;
                    told = ground arith;
                    subs = ground arith;
                    beats = (x, y, b, ground arith);
                  }
                ]
              ]
            ]
          ]
]
