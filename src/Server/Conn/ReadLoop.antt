-- ===== src/Server/Conn/ReadLoop.antt =====
-- `readLoop` of server/client/conn.go, over the bytes that the client has still to send.
pub mod Delivery
pub mod Deadlines
use stomp.Prelude.{
  ℕ, zero, suc, ◌+◌, ◌*◌, ◌≤◌, ◌<◌, ◌≡◌, ◌≢◌, refl, ap, inl, inr, Bool, true, false, List, [], ◌∷◌,
  ◌++◌, Option, none, some, All, length, ◌==◌, if◌then◌else◌, arith,
}
use stomp.Go.Result.{Result, ok, err, Result-cases}
use stomp.Frame.Header.{Bytes}
use stomp.Frame.Base.{Frame}
use stomp.Frame.HeartBeat.{millisecond}
use stomp.Frame.Reader.{ReadError, eof, unfinished, read}
use stomp.Server.HeartBeat.{max_heart_beat, get_heart_beat, as_milliseconds, at_least}
use stomp.Server.Conn.State.{Config}

-- The connection under the reader: the pieces that it hands over, and whether what a `Read` needs
-- comes before the deadline, which is so long from now, or `none` for no limit. The bytes that are
-- still to come say which `Read` it is.
pub record Network : Type 0 where
  pub chunk : ℕ → ℕ → ℕ
  pub in_time : Option ℕ → Bytes → Bool

-- Why a read fails: an error of the reader, or the deadline.
pub data ReadFault : Type 0 where
  timed_out : ReadFault
  failed : ReadError → ReadFault

-- The loop's two variables.
pub record Expect : Type 0 where
  pub expecting_connect : Bool
  pub read_timeout : ℕ

abbrev pub at_start : Expect
at_start = record { expecting_connect = true; read_timeout = 0 }

unfoldable pub deadline : Expect → Option ℕ
deadline x = if x.read_timeout == 0 then none else some (x.read_timeout * 2)

-- What the loop takes from a frame while it expects CONNECT or STOMP.
unfoldable pub expect_after : Config → Expect → Frame → Expect
expect_after cfg x f =
    if x.expecting_connect
    then (elim (get_heart_beat f) [
      | err e ↦ x
      | ok beat ↦ record {
        expecting_connect = false;
        read_timeout =
            at_least (as_milliseconds cfg.heart_beat max_heart_beat) beat.0 * millisecond;
      }
    ])
    else x

unfoldable pub read_in_time : Network → Option ℕ → Bytes → Result ReadFault (Option Frame × Bytes)
read_in_time net d s =
    if net.in_time d s
    then (elim (read net.chunk s) [ ok r ↦ ok r | err e ↦ err (failed e) ])
    else err timed_out

-- What was put on the read channel, the deadlines that were set, each in order, and why the channel
-- was closed.
pub record Log : Type 0 where
  pub frames : List Frame
  pub deadlines : List (Option ℕ)
  pub closed : ReadFault

-- The loop, with fuel for its rounds. A heart-beat leaves no trace but a new deadline.
unfoldable pub read_loop : Config → Network → ℕ → Expect → Bytes → Log
read_loop cfg net zero x s = record { frames = []; deadlines = []; closed = failed unfinished }
read_loop cfg net (suc fuel) x s = elim (read_in_time net (deadline x) s) [
  | err e ↦ record { frames = []; deadlines = deadline x ∷ []; closed = e }
  | ok (none, r) ↦
      let rest = read_loop cfg net fuel x r in
      record rest { deadlines = deadline x ∷ rest.deadlines }
  | ok (some f, r) ↦
      let rest = read_loop cfg net fuel (expect_after cfg x f) r in
      record rest { frames = f ∷ rest.frames; deadlines = deadline x ∷ rest.deadlines }
]
