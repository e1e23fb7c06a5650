-- ===== src/Frame/Reader.antt =====
-- frame/reader.go over the bytes that are still to come from the connection; after the last of them
-- every read fails with io.EOF.
pub mod Lines
pub mod Body
pub mod Total
pub mod Shorter
use stomp.Prelude.{
  ℕ, zero, suc, ◌+◌, ◌-◌, ◌≤◌, ◌≡◌, refl, Bool, true, false, ◌&&◌, ◌||◌, List, [], ◌∷◌, ◌++◌,
  Option, none, some, ltb, leb, ◌==◌, same, one_of, if◌then◌else◌, length, take, drop, min, max,
}
use mathlib.Core.Option
use stomp.Go.Result.{Result, ok, err, ◌>>=◌, ◌>>◌, guard}
use stomp.Go.Number.{NumError}
use stomp.Go.Split.{index_byte}
use stomp.Frame.Command
use stomp.Frame.Header.{Bytes, Header}
use stomp.Frame.Header
use stomp.Frame.Base.{Frame, new}
use stomp.Frame.Encode.{unencode_value}
use stomp.Frame.Writer.{crlf_slice, newline_slice}

-- `unfinished` says that a loop used up its fuel; Reader/Total proves that `read` never returns it.
pub data ReadError : Type 0 where
  eof invalid_command invalid_frame_format unfinished : ReadError
  content_length : NumError → ReadError

-- `ReadBytes`: the bytes up to and with the first `delim`, and what follows.
unfoldable pub read_bytes : ℕ → Bytes → Result ReadError (Bytes × Bytes)
read_bytes delim [] = err eof
read_bytes delim (c ∷ s) =
    if c == delim then ok (c ∷ [], s) else read_bytes delim s >>= λ r. ok (c ∷ r.0, r.1)

-- `bytes.HasSuffix`.
unfoldable pub has_suffix : Bytes → Bytes → Bool
has_suffix s p = leb (length p) (length s) && same (drop (length s - length p) s) p

unfoldable pub trim_line : Bytes → Bytes
trim_line line =
    if has_suffix line crlf_slice
    then take (length line - length crlf_slice) line
    else if has_suffix line newline_slice
    then take (length line - length newline_slice) line
    else line

unfoldable pub read_line : Bytes → Result ReadError (Bytes × Bytes)
read_line s = read_bytes b'\n' s >>= λ r. ok (trim_line r.0, r.1)

-- The cases of the switch on the command.
abbrev pub commands : List Bytes
commands =
    Command.connect ∷ Command.stomp_connect ∷ Command.send ∷ Command.subscribe ∷ Command.unsubscribe
    ∷ Command.ack ∷ Command.nack ∷ Command.begin ∷ Command.commit ∷ Command.abort
    ∷ Command.disconnect ∷ Command.connected ∷ Command.message ∷ Command.receipt ∷ Command.error
    ∷ []

unfoldable pub is_command : Bytes → Bool
is_command c = one_of c commands

-- One header line: the name up to the first colon, and the value behind it.
abbrev split_at : Bytes → Option ℕ → Result ReadError (Bytes × Bytes)
split_at line none = err invalid_frame_format
split_at line (some zero) = err invalid_frame_format
split_at line (some (suc i)) =
    ok (unencode_value (take (suc i) line), unencode_value (drop (suc (suc i)) line))

unfoldable pub parse_entry : Bytes → Result ReadError (Bytes × Bytes)
parse_entry line = split_at line (index_byte line b':')

-- The header loop, with fuel for its rounds. An empty line ends it.
unfoldable pub read_headers : ℕ → Header → Bytes → Result ReadError (Header × Bytes)
unfolding Header.add
read_headers zero h s = err unfinished
read_headers (suc f) h s = read_line s >>= λ r. elim r.0 [
  | [] ↦ ok (h, r.1)
  | c ∷ cs ↦ parse_entry (c ∷ cs) >>= λ e. read_headers f (Header.add h e.0 e.1) r.1
]

-- One `Read` of the bufio.Reader into `want` bytes: between one and `want` of those that are there.
-- How many is the connection's choice: `chunk`, cut to that range.
unfoldable pub read_some : (ℕ → ℕ → ℕ) → ℕ → Bytes → Result ReadError (Bytes × Bytes)
read_some chunk want [] = err eof
read_some chunk want (c ∷ s) =
    let n = max 1 (min (chunk want (length (c ∷ s))) (min want (length (c ∷ s)))) in
    ok (take n (c ∷ s), drop n (c ∷ s))

-- The loop that fills the body, with fuel for its rounds; `want` bytes are missing.
unfoldable pub read_body : (ℕ → ℕ → ℕ) → ℕ → ℕ → Bytes → Bytes → Result ReadError (Bytes × Bytes)
unfolding read_some
read_body chunk zero want got s = err unfinished
read_body chunk (suc f) want got s = elim (want == 0) [
  | true ↦ ok (got, s)
  | false ↦ read_some chunk want s >>= λ r. read_body chunk f (want - length r.0) (got ++ r.0) r.1
]

-- `ReadByte`, and the check that it is the null byte.
unfoldable pub read_null : Bytes → Result ReadError Bytes
read_null [] = err eof
read_null (c ∷ s) = if c == 0 then ok s else err invalid_frame_format

-- The body with the length that the header gives, or up to the null byte.
unfoldable pub read_content :
    (ℕ → ℕ → ℕ) → Result NumError (Option ℕ) → Bytes → Result ReadError (Bytes × Bytes)
read_content chunk (err e) s = err (content_length e)
read_content chunk (ok (some n)) s = do
  r ← read_body chunk (suc n) n [] s
  rest ← read_null r.1
  ok (r.0, rest)
read_content chunk (ok none) s = read_bytes 0 s >>= λ r. ok (take (length r.0 - 1) r.0, r.1)

-- From the header on, for a frame with a known command.
unfoldable pub read_frame : (ℕ → ℕ → ℕ) → Bytes → Bytes → Result ReadError (Option Frame × Bytes)
unfolding new
read_frame chunk command s = do
  guard (is_command command) invalid_command
  let f = new command []
  hs ← read_headers (suc (length s)) f.header s
  b ← read_content chunk (Header.content_length hs.0) hs.1
  ok (some (record f { header = hs.0; body = b.0 }), b.1)

-- `Read`: a frame, or nil for a heart-beat, with the bytes left over.
unfoldable pub read : (ℕ → ℕ → ℕ) → Bytes → Result ReadError (Option Frame × Bytes)
read chunk s =
    read_line s >>= λ r. elim r.0 [ [] ↦ ok (none, r.1) | c ∷ cs ↦ read_frame chunk (c ∷ cs) r.1 ]
