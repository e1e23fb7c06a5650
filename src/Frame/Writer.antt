-- ===== src/Frame/Writer.antt =====
-- frame/writer.go: the bytes that a successful `Write` puts on the connection.
use stomp.Prelude.{[], ◌∷◌, ◌++◌, Option, none, some, ltb, length, if◌then◌else◌}
use stomp.Frame.Header.{Bytes, Header}
use stomp.Frame.Base.{Frame}
use stomp.Frame.Encode.{encode_value}

abbrev colon_slice : Bytes
colon_slice = b':' ∷ []

abbrev pub crlf_slice : Bytes
crlf_slice = b'\r' ∷ b'\n' ∷ []

abbrev pub newline_slice : Bytes
newline_slice = b'\n' ∷ []

abbrev null_slice : Bytes
null_slice = 0 ∷ []

-- The loop over the header's entries; each `Write` stands in front of those that follow it.
unfoldable pub write_header : Header → Bytes → Bytes
write_header [] rest = rest
write_header ((key, value) ∷ h) rest =
    encode_value key
    ++ (colon_slice ++ (encode_value value ++ (newline_slice ++ write_header h rest)))

unfoldable pub write_frame : Frame → Bytes
write_frame f =
    let last = (if ltb 0 (length f.body) then f.body ++ null_slice else null_slice) in
    f.command ++ (newline_slice ++ write_header f.header (newline_slice ++ last))

-- A nil frame is a heart-beat.
unfoldable pub write : Option Frame → Bytes
write none = newline_slice
write (some f) = write_frame f
