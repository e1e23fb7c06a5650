-- ===== src/Tests/Reading.antt =====
-- The theorems on the read loops of both ends, and on a connection of the server from its start.
use stomp.Prelude.{
  ℕ, suc, ◌≡◌, refl, ◌++◌, List, [], ◌∷◌, Option, none, some, codes, same, true, arith, one_of, All,
  length,
}
use stomp.Go.Result.{ok}
use stomp.Go.Number.{parse_uint, parse_digits}
use stomp.Go.Split.{split}
use stomp.Frame.Header
use stomp.Frame.Base.{Frame}
use stomp.Frame.Writer.{write}
use stomp.Frame.Reader.{eof, is_command}
use stomp.Frame.RoundTrip.{IsWritable}
use stomp.Frame.Stream.{CanSend, write_all}
use stomp.Client.ReadLoop
use stomp.Client.ReadLoop.{read_loop-write_all}
use stomp.Server.HeartBeat.{heart_beat_regexp, parse_pair, get_heart_beat, value_of}
use stomp.Server.TxStore.Laws.{Holds}
use stomp.Server.Conn.Loop.{on_read_channel}
use stomp.Server.Conn.ReadLoop.{Network, failed, at_start, read_loop}
use stomp.Server.Conn.ReadLoop.Delivery.{frames_of, read_loop-AlwaysInTime}
use stomp.Server.Conn.ReadLoop.Deadlines.{patience, deadlines-read_loop}
use stomp.Server.Conn.Transactions.{Deferred}
use stomp.Server.Conn.Whole.{new_conn, Reach, started, step, read_channel}
use stomp.Server.Conn.Whole.Deferred.{Reach-Deferred}
use stomp.Server.Conn.Whole.Handshake.{Phase, Reach-Phase}
use stomp.Tests.Data.{bytewise, hello, fresh, idle_heap}
use stomp.Tests.Wire.{hello-IsWritable}
use stomp.Tests.Connection.{config, hi, welcomed, fresh-steps}

hi-IsWritable : IsWritable hi
unfolding is_command Header.content_length Header.contains same one_of
hi-IsWritable = record { known = refl; keys = ground arith; sized = ground arith }

-- A handshake, a heart-beat and a message.
abbrev sent : List (Option Frame)
sent = some hi ∷ none ∷ some hello ∷ []

sent-CanSend : All CanSend sent
sent-CanSend = (hi-IsWritable, (tt, (hello-IsWritable, tt)))

abbrev punctual : Network
punctual = record { chunk = bytewise; in_time = λ d s. true }

read_loop-write_all_example :
    ReadLoop.read_loop bytewise (suc (length (write_all sent))) (write_all sent) ≡ (sent, eof)
read_loop-write_all_example =
    read_loop-write_all bytewise (suc (length (write_all sent))) sent sent-CanSend (omega arith)

read_loop-AlwaysInTime_example :
    ((read_loop config punctual (suc (length (write_all sent))) at_start (write_all sent)).frames
      ≡ frames_of sent)
    × ((read_loop config punctual (suc (length (write_all sent))) at_start (write_all sent)).closed
        ≡ failed eof)
read_loop-AlwaysInTime_example =
    read_loop-AlwaysInTime config punctual (suc (length (write_all sent))) at_start sent
      sent-CanSend (λ d s. refl) (omega arith)

hi-beat : get_heart_beat hi ≡ ok (100, 200)
unfolding get_heart_beat Header.contains same heart_beat_regexp parse_pair value_of parse_uint split
    parse_digits
hi-beat = refl

deadlines-read_loop_example :
    (later : List (Option ℕ)) × ((read_loop config punctual 9 at_start
        (write (some hi) ++ codes "\n\n")).deadlines
      ≡ none ∷ later)
    × All (λ d. d ≡ patience config.heart_beat 100) later
deadlines-read_loop_example =
    deadlines-read_loop config punctual 8 hi (codes "\n\n") 100 200 hi-IsWritable refl hi-beat

hi-accepted : on_read_channel config fresh hi ≡ ok (welcomed, true)
unfolding on_read_channel
hi-accepted = ground (arith, fresh-steps)

welcomed-Reach : Reach config welcomed
unfolding new_conn
welcomed-Reach =
    step fresh welcomed (started 7 idle_heap 0 9) (read_channel fresh welcomed hi hi-accepted)

Reach-Phase_example : Phase config welcomed
Reach-Phase_example = Reach-Phase config welcomed welcomed-Reach

Reach-Deferred_example : Holds Deferred welcomed.tx_store
Reach-Deferred_example = Reach-Deferred config welcomed welcomed-Reach
