-- ===== src/Frame/Stream.antt =====
-- Several frames one behind the other on the wire.
use stomp.Prelude.{ℕ, ◌≡◌, refl, List, [], ◌∷◌, ◌++◌, Option, none, some}
use stomp.Go.Result.{ok, err}
use stomp.Frame.Header.{Bytes}
use stomp.Frame.Base.{Frame}
use stomp.Frame.Writer.{write}
use stomp.Frame.Reader.{eof, read_bytes, read_line, read}
use stomp.Frame.Reader.Lines.{read_line-lf}
use stomp.Frame.RoundTrip.{IsWritable, read-write}

-- Frames that the format can express, and heart-beats.
abbrev pub CanSend : Option Frame → Type 0
CanSend none = Unit
CanSend (some f) = IsWritable f

unfoldable pub write_all : List (Option Frame) → Bytes
write_all [] = []
write_all (o ∷ os) = write o ++ write_all os

pub read-CanSend :
    (chunk : ℕ → ℕ → ℕ) (o : Option Frame) (s : Bytes)
    → CanSend o
    → read chunk (write o ++ s) ≡ ok (o, s)
read-CanSend chunk none s w = unfold write read in rw (read_line-lf [] s tt tt) refl
read-CanSend chunk (some f) s w = read-write chunk f s w

pub read_nil : (chunk : ℕ → ℕ → ℕ) → read chunk [] ≡ err eof
read_nil chunk = unfold read read_line read_bytes in refl
