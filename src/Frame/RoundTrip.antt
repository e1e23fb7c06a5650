-- ===== src/Frame/RoundTrip.antt =====
-- A frame that is written is read back as it was.
pub mod Sound
use stomp.Prelude.{
  ℕ, zero, suc, ◌+◌, ◌-◌, ◌≤◌, ◌<◌, ◌≡◌, refl, sym, ◌≢◌, ◌∙◌, ap, ◌⊎◌, inl, inr, Bool, true, false,
  List, [], ◌∷◌, ◌++◌, Option, none, some, ltb, ◌==◌, if◌then◌else◌, length, length-append, take,
  drop, take-append, drop-append, arith, All, All-append, All-map, append-nil, append_assoc,
  one_of_inv, Bool-cases,
}
use mathlib.Core.Option
use stomp.Go.Result.{Result, ok, err, ◌>>=◌, Result-cases}
use stomp.Go.Number.{NumError}
use stomp.Go.Split.{index_byte}
use stomp.Frame.Header.{Bytes, Header, add, content_length}
use stomp.Frame.Base.{Frame, new}
use stomp.Frame.Encode.{encode_value, unencode_value}
use stomp.Frame.Encode.Laws.{
  IsPlain, encode_value-IsPlain, encode_value-ne-nil, unencode_value-encode_value,
}
use stomp.Frame.Writer.{newline_slice, write_header, write_frame, write}
use stomp.Frame.Reader.{
  ReadError, eof, read_line, read_bytes, is_command, commands, parse_entry, read_headers, read_body,
  read_null, read_content, read_frame, read,
}
use stomp.Frame.HeaderLines.{
  IsLine, commands-IsLine, entry_line, read_headers-write_header, length-write_header,
}
use stomp.Frame.Reader.Lines.{read_line-lf, read_bytes-append}
use stomp.Frame.Reader.Body.{read_body_lem}

-- The body fits what the header says of its length.
abbrev pub Sized : Result NumError (Option ℕ) → Bytes → Type 0
Sized (err e) body = ⊥
Sized (ok none) body = All (λ c. c ≢ 0) body
Sized (ok (some n)) body = n ≡ length body

-- Frames that the format can express.
pub record IsWritable (f : Frame) : Type 0 where
  pub known : is_command f.command ≡ true
  pub keys : All (λ e. e.0 ≢ []) f.header
  pub sized : Sized (content_length f.header) f.body

pub take_init : (l : Bytes) (b : ℕ) → take (length (l ++ b ∷ []) - 1) (l ++ b ∷ []) ≡ l
take_init l b =
    ap (λ k. take k (l ++ b ∷ [])) (omega (arith, length-append l (b ∷ [])))
    ∙ take-append l (b ∷ [])

read_null_lem : (s : Bytes) → read_null (0 ∷ s) ≡ ok s
unfolding read_null
read_null_lem s = refl

read_content-body :
    (chunk : ℕ → ℕ → ℕ) (n : Result NumError (Option ℕ)) (body s : Bytes)
    → Sized n body
    → read_content chunk n (body ++ 0 ∷ s) ≡ ok (body, s)
unfolding read_content
read_content-body chunk (err e) body s h = absurd h
read_content-body chunk (ok none) body s h =
    rw (read_bytes-append 0 body s h) (ap (λ b. ok (b, s)) (take_init body 0))
read_content-body chunk (ok (some n)) body s h = ground (
  arith,
  read_body_lem chunk (suc n) n [] (body ++ 0 ∷ s) (omega arith),
  length-append body (0 ∷ s),
  take-append body (0 ∷ s),
  drop-append body (0 ∷ s),
  read_null_lem s,
)

-- What stands behind a frame's header on the wire.
abbrev after_header : Bytes → Bytes → Bytes
after_header body s = body ++ 0 ∷ s

-- Guarding an empty body makes no difference to the bytes.
last_bytes :
    (body : Bytes) → (if ltb 0 (length body) then body ++ 0 ∷ [] else 0 ∷ []) ≡ body ++ 0 ∷ []
last_bytes [] = refl
last_bytes (c ∷ body) = ground arith

write_header-append : (h : Header) (r s : Bytes) → write_header h r ++ s ≡ write_header h (r ++ s)
unfolding write_header
write_header-append [] r s = refl
write_header-append ((k, v) ∷ h) r s = simp (append_assoc, write_header-append h r s)

append_right : (a b c s : Bytes) → (a ++ (b ++ c)) ++ s ≡ a ++ b ++ (c ++ s)
append_right a b c s = simp append_assoc

write_frame-append :
    (f : Frame) (s : Bytes)
    → write_frame f ++ s
      ≡ f.command ++ newline_slice ++ write_header f.header (newline_slice ++ after_header f.body s)
unfolding write_frame
write_frame-append f s = rw (last_bytes f.body) (
    append_right f.command newline_slice (write_header f.header (b'\n' ∷ (f.body ++ 0 ∷ []))) s
    ∙ ap (λ r. f.command ++ newline_slice ++ r)
        (write_header-append f.header (b'\n' ∷ (f.body ++ 0 ∷ [])) s
          ∙ ap (λ r. write_header f.header (b'\n' ∷ r)) (append_assoc f.body (0 ∷ []) s)))

read_frame-after_header :
    (chunk : ℕ → ℕ → ℕ) (f : Frame) (s : Bytes)
    → IsWritable f
    → read_frame chunk f.command (write_header f.header (newline_slice ++ after_header f.body s))
      ≡ ok (some f, s)
unfolding read_frame
read_frame-after_header chunk f s w = ground (
  arith,
  w,
  length-write_header f.header (newline_slice ++ after_header f.body s),
  read_headers-write_header
      (suc (length (write_header f.header (newline_slice ++ after_header f.body s)))) [] f.header
      (after_header f.body s) w.keys,
  read_content-body chunk (content_length f.header) f.body s w.sized,
)

read-command :
    (chunk : ℕ → ℕ → ℕ) (c s : Bytes)
    → is_command c ≡ true
    → read chunk (c ++ newline_slice ++ s) ≡ read_frame chunk c s
unfolding read
read-command chunk c s h =
    let (il, ne) =
      one_of_inv (λ c. IsLine c × (c ≢ [])) c commands commands-IsLine (unfold is_command in h) in
    rw (read_line-lf c s il.0 il.1, read) (first_line c ne)
  where
    first_line :
        (c : Bytes)
        → c ≢ []
        → ◌>>=◌ {A = Bytes × Bytes} {B = Option Frame × Bytes}
            (ok (c, s))
            (λ r. elim r.0 [ [] ↦ ok (none, r.1) | b ∷ cs ↦ read_frame chunk (b ∷ cs) r.1 ])
          ≡ read_frame chunk c s
    first_line [] ne = absurd (ne refl)
    first_line (b ∷ cs) ne = refl

-- A frame whose command is known, whose header has no empty name, and whose body has the length
-- that its content-length entry says, or no null byte where there is no such entry, is read back
-- from its bytes: whatever bytes its names, values and body hold, and in whatever pieces they
-- arrive, `Read` gives the frame unchanged and leaves what was sent behind it.
pub read-write :
    (chunk : ℕ → ℕ → ℕ) (f : Frame) (rest : Bytes)
    → IsWritable f
    → read chunk (write (some f) ++ rest) ≡ ok (some f, rest)
unfolding write
read-write chunk f rest w =
    ap (read chunk) (write_frame-append f rest)
    ∙ read-command chunk f.command
        (write_header f.header (newline_slice ++ after_header f.body rest)) w.known
    ∙ read_frame-after_header chunk f rest w
