-- ===== src/Client/ReadLoop.antt =====
-- `readLoop` of conn.go, over the bytes that the server has still to send.
use stomp.Prelude.{
  ℕ, zero, suc, ◌<◌, ◌≡◌, ◌≢◌, refl, inl, inr, List, [], ◌∷◌, ◌++◌, Option, All, length, arith,
}
use stomp.Go.Result.{ok, err, Result-cases}
use stomp.Frame.Header.{Bytes}
use stomp.Frame.Base.{Frame}
use stomp.Frame.Writer.{write}
use stomp.Frame.Reader.{ReadError, eof, unfinished, read}
use stomp.Frame.Reader.Total.{read-ne-unfinished}
use stomp.Frame.Reader.Shorter.{read_shorter}
use stomp.Frame.Stream.{CanSend, write_all, read-CanSend, read_nil}

-- What was put on `readCh`, in order, a heart-beat as a nil frame, and the error at which the channel
-- was closed. The fuel is for the rounds of the loop.
unfoldable pub read_loop : (ℕ → ℕ → ℕ) → ℕ → Bytes → List (Option Frame) × ReadError
read_loop chunk zero s = ([], unfinished)
read_loop chunk (suc fuel) s = elim (read chunk s) [
  | err e ↦ ([], e)
  | ok r ↦ let rest = read_loop chunk fuel r.1 in (r.0 ∷ rest.0, rest.1)
]

read_loop-err :
    (chunk : ℕ → ℕ → ℕ) (fuel : ℕ) (s : Bytes) (e : ReadError)
    → read chunk s ≡ err e
    → read_loop chunk (suc fuel) s ≡ ([], e)
unfolding read_loop
read_loop-err chunk fuel s e q = rw (q, read_loop) refl

read_loop-ok :
    (chunk : ℕ → ℕ → ℕ) (fuel : ℕ) (s : Bytes) {o : Option Frame} {r : Bytes}
    → read chunk s ≡ ok (o, r)
    → read_loop chunk (suc fuel) s ≡ (o ∷ (read_loop chunk fuel r).0, (read_loop chunk fuel r).1)
unfolding read_loop
read_loop-ok chunk fuel s q = rw (q, read_loop) refl

-- A round for each byte and one more are enough: the loop ends with an error of the stream, and more
-- rounds make no difference.
pub read_loop-ends :
    (chunk : ℕ → ℕ → ℕ) (fuel : ℕ) (s : Bytes)
    → length s < fuel
    → ((read_loop chunk fuel s).1 ≢ unfinished)
      × (read_loop chunk (suc fuel) s ≡ read_loop chunk fuel s)
read_loop-ends chunk zero s lt = absurd (omega arith)
read_loop-ends chunk (suc fuel) s lt = elim (Result-cases (read chunk s)) [
  | inr (e, q) ↦ ground (
    arith,
    read_loop-err chunk fuel s e q,
    read_loop-err chunk (suc fuel) s e q,
    read-ne-unfinished chunk s,
  )
  | inl ((o, r), q) ↦ ground (
    arith,
    read_loop-ok chunk fuel s q,
    read_loop-ok chunk (suc fuel) s q,
    read_loop-ends chunk fuel r (omega (arith, read_shorter chunk s q)),
  )
]

-- Whatever the other end writes, frames that the format can express and heart-beats in any order, and
-- in whatever pieces the bytes arrive: the loop puts just these on the channel, in the order they were
-- written, and closes it at the end of the stream.
pub read_loop-write_all :
    (chunk : ℕ → ℕ → ℕ) (fuel : ℕ) (os : List (Option Frame))
    → All CanSend os
    → length (write_all os) < fuel
    → read_loop chunk fuel (write_all os) ≡ (os, eof)
unfolding write_all
read_loop-write_all chunk zero os w lt = absurd (omega arith)
read_loop-write_all chunk (suc fuel) [] w lt = read_loop-err chunk fuel [] eof (read_nil chunk)
read_loop-write_all chunk (suc fuel) (o ∷ os) w lt =
    let q = read-CanSend chunk o (write_all os) w.0 in
    ground (
      arith,
      read_loop-ok chunk fuel (write o ++ write_all os) q,
      read_loop-write_all chunk fuel os w.1
          (omega (arith, read_shorter chunk (write o ++ write_all os) q)),
    )
