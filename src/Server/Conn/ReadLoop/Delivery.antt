-- ===== src/Server/Conn/ReadLoop/Delivery.antt =====
-- `readLoop` of server/client/conn.go: its rounds, and the frames that it puts on the channel.
use stomp.Prelude.{
  ℕ, zero, suc, ◌<◌, ◌≡◌, ◌≢◌, refl, inl, inr, true, false, List, [], ◌∷◌, ◌++◌, Option, none, some,
  All, length, arith, Bool-cases,
}
use stomp.Go.Result.{ok, err, Result-cases}
use stomp.Frame.Header.{Bytes}
use stomp.Frame.Base.{Frame}
use stomp.Frame.Writer.{write}
use stomp.Frame.Reader.{eof, unfinished, read}
use stomp.Frame.Reader.Total.{read-ne-unfinished}
use stomp.Frame.Reader.Shorter.{read_shorter}
use stomp.Frame.Stream.{CanSend, write_all, read-CanSend, read_nil}
use stomp.Server.Conn.State.{Config}
use stomp.Server.Conn.ReadLoop.{
  Network, timed_out, failed, Expect, deadline, expect_after, read_in_time, read_loop,
}

read_in_time_shorter :
    (net : Network) (d : Option ℕ) (s : Bytes) {o : Option Frame} {r : Bytes}
    → read_in_time net d s ≡ ok (o, r)
    → length r < length s
unfolding read_in_time
read_in_time_shorter net d s {o} {r} e = elim (Result-cases (read net.chunk s)) [
  | inr (x, q) ↦ absurd (ground arith)
  | inl ((o', r'), q) ↦ ground (arith, read_shorter net.chunk s q)
]

read_in_time-ne-unfinished :
    (net : Network) (d : Option ℕ) (s : Bytes) → read_in_time net d s ≢ err (failed unfinished)
unfolding read_in_time
read_in_time-ne-unfinished net d s e = ground (arith, read-ne-unfinished net.chunk s)

-- A round for each byte and one more are enough: with them the loop ends, at an error of the stream
-- or at a deadline, and more rounds change nothing.
pub read_loop-ends :
    (cfg : Config) (net : Network) (fuel : ℕ) (x : Expect) (s : Bytes)
    → length s < fuel
    → ((read_loop cfg net fuel x s).closed ≢ failed unfinished)
      × (read_loop cfg net (suc fuel) x s ≡ read_loop cfg net fuel x s)
unfolding read_loop
read_loop-ends cfg net zero x s lt = absurd (omega arith)
read_loop-ends cfg net (suc fuel) x s lt = elim (Result-cases (read_in_time net (deadline x) s)) [
  | inr (e, q) ↦ ground (arith, read_in_time-ne-unfinished net (deadline x) s)
  | inl ((none, r), q) ↦ ground (
    arith,
    read_loop-ends cfg net fuel x r (omega (arith, read_in_time_shorter net (deadline x) s q)),
  )
  | inl ((some f, r), q) ↦ ground (
    arith,
    read_loop-ends cfg net fuel (expect_after cfg x f) r
        (omega (arith, read_in_time_shorter net (deadline x) s q)),
  )
]

-- The frames among what was written.
abbrev pub frames_of : List (Option Frame) → List Frame
frames_of [] = []
frames_of (none ∷ os) = frames_of os
frames_of (some f ∷ os) = f ∷ frames_of os

abbrev pub AlwaysInTime : Network → Type 0
AlwaysInTime net = (d : Option ℕ) (s : Bytes) → net.in_time d s ≡ true

pub read_in_time-write :
    (net : Network) (d : Option ℕ) (o : Option Frame) (s : Bytes)
    → CanSend o
    → net.in_time d (write o ++ s) ≡ true
    → read_in_time net d (write o ++ s) ≡ ok (o, s)
unfolding read_in_time
read_in_time-write net d o s w t = ground (arith, read-CanSend net.chunk o s w)

read_in_time-late :
    (net : Network) (d : Option ℕ) (s : Bytes)
    → net.in_time d s ≡ false
    → read_in_time net d s ≡ err timed_out
unfolding read_in_time
read_in_time-late net d s t = ground arith

read_in_time-nil :
    (net : Network) (d : Option ℕ)
    → net.in_time d [] ≡ true
    → read_in_time net d [] ≡ err (failed eof)
unfolding read_in_time
read_in_time-nil net d t = ground (arith, read_nil net.chunk)

-- Of what the client wrote, frames that the format can express and heart-beats, the loop puts the
-- frames on the channel, each once and in order, up to where a deadline stops it.
pub frames-read_loop :
    (cfg : Config) (net : Network) (fuel : ℕ) (x : Expect) (os : List (Option Frame))
    → All CanSend os
    → (later : List Frame) × (frames_of os
        ≡ (read_loop cfg net fuel x (write_all os)).frames ++ later)
unfolding read_loop write_all
frames-read_loop cfg net zero x os w = (frames_of os, refl)
frames-read_loop cfg net (suc fuel) x [] w = elim (Bool-cases (net.in_time (deadline x) [])) [
  | inr t ↦ ([], ground (arith, read_in_time-late net (deadline x) [] t))
  | inl t ↦ ([], ground (arith, read_in_time-nil net (deadline x) t))
]
frames-read_loop cfg net (suc fuel) x (none ∷ os) w =
    let s = write none ++ write_all os in
    elim (Bool-cases (net.in_time (deadline x) s)) [
      | inr t ↦ (frames_of os, ground (arith, read_in_time-late net (deadline x) s t))
      | inl t ↦
          let (later, e) = frames-read_loop cfg net fuel x os w.1 in
          (later, ground (arith, read_in_time-write net (deadline x) none (write_all os) tt t))
    ]
frames-read_loop cfg net (suc fuel) x (some f ∷ os) w =
    let s = write (some f) ++ write_all os in
    elim (Bool-cases (net.in_time (deadline x) s)) [
      | inr t ↦ (f ∷ frames_of os, ground (arith, read_in_time-late net (deadline x) s t))
      | inl t ↦
          let (later, e) = frames-read_loop cfg net fuel (expect_after cfg x f) os w.1 in
          (later, ground (arith, read_in_time-write net (deadline x) (some f) (write_all os) w.0 t))
    ]

-- If everything comes in time and the loop has enough rounds, it puts all the frames on the channel
-- that the client wrote, in their order and without the heart-beats, and it closes the channel at the
-- end of the stream.
pub read_loop-AlwaysInTime :
    (cfg : Config) (net : Network) (fuel : ℕ) (x : Expect) (os : List (Option Frame))
    → All CanSend os
    → AlwaysInTime net
    → length (write_all os) < fuel
    → ((read_loop cfg net fuel x (write_all os)).frames ≡ frames_of os)
      × ((read_loop cfg net fuel x (write_all os)).closed ≡ failed eof)
unfolding read_loop write_all
read_loop-AlwaysInTime cfg net zero x os w t lt = absurd (omega arith)
read_loop-AlwaysInTime cfg net (suc fuel) x [] w t lt =
    ground (arith, read_in_time-nil net (deadline x) (t (deadline x) []))
read_loop-AlwaysInTime cfg net (suc fuel) x (none ∷ os) w t lt =
    let q =
      read_in_time-write net (deadline x) none (write_all os) tt
        (t (deadline x) (write none ++ write_all os)) in
    ground (
      arith,
      read_loop-AlwaysInTime cfg net fuel x os w.1 t
          (omega (arith, read_in_time_shorter net (deadline x) (write none ++ write_all os) q)),
    )
read_loop-AlwaysInTime cfg net (suc fuel) x (some f ∷ os) w t lt =
    let q =
      read_in_time-write net (deadline x) (some f) (write_all os) w.0
        (t (deadline x) (write (some f) ++ write_all os)) in
    ground (
      arith,
      read_loop-AlwaysInTime cfg net fuel (expect_after cfg x f) os w.1 t
          (omega (arith, read_in_time_shorter net (deadline x) (write (some f) ++ write_all os) q)),
    )
