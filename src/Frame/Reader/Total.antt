-- ===== src/Frame/Reader/Total.antt =====
-- The reader's loops end: their fuel is never used up, whatever comes in.
use stomp.Prelude.{
  ℕ, zero, suc, ◌<◌, ◌≡◌, ◌≢◌, inl, inr, [], ◌∷◌, Option, none, some, length, drop, arith,
}
use stomp.Go.Result.{Result, ok, err, Result-cases}
use stomp.Go.Number.{NumError}
use stomp.Frame.Header.{Bytes, Header, add, content_length}
use stomp.Frame.Reader.{
  ReadError, invalid_frame_format, unfinished, read_line, parse_entry, read_headers, read_null,
  read_content, read_frame, read,
}
use stomp.Frame.Reader.Lines.{read_line_shorter, read_line_eof, read_bytes_eof}
use stomp.Frame.Reader.Body.{read_body_lem}

parse_entry_err : (l : Bytes) (x : ReadError) → parse_entry l ≡ err x → x ≡ invalid_frame_format
unfolding parse_entry
parse_entry_err l x e = ground arith

-- Every round takes a line, so a round for each byte is enough.
read_headers-ne-unfinished :
    (f : ℕ) (h : Header) (s : Bytes) → length s < f → read_headers f h s ≢ err unfinished
unfolding read_headers
read_headers-ne-unfinished zero h s lt e = absurd (omega arith)
read_headers-ne-unfinished (suc f) h s lt e = elim (Result-cases (read_line s)) [
  | inr (x, q) ↦ ground (arith, read_line_eof s x)
  | inl (([], r), q) ↦ ground arith
  | inl ((c ∷ cs, r), q) ↦ elim (Result-cases (parse_entry (c ∷ cs))) [
    | inr (x, p) ↦ ground (arith, parse_entry_err (c ∷ cs) x)
    | inl ((k, v), p) ↦
        read_headers-ne-unfinished f (add h k v) r (omega (arith, read_line_shorter s (c ∷ cs) r q))
          (ground arith)
  ]
]

read_null-ne-unfinished : (s : Bytes) → read_null s ≢ err unfinished
unfolding read_null
read_null-ne-unfinished [] e = cc
read_null-ne-unfinished (c ∷ s) e = ground arith

read_content-ne-unfinished :
    (chunk : ℕ → ℕ → ℕ) (n : Result NumError (Option ℕ)) (s : Bytes)
    → read_content chunk n s ≢ err unfinished
unfolding read_content
read_content-ne-unfinished chunk (err e) s q = cc
read_content-ne-unfinished chunk (ok none) s q = ground (arith, read_bytes_eof 0 s unfinished)
read_content-ne-unfinished chunk (ok (some n)) s q =
    ground
      (arith, read_body_lem chunk (suc n) n [] s (omega arith), read_null-ne-unfinished (drop n s))

read_frame-ne-unfinished : (chunk : ℕ → ℕ → ℕ) (c s : Bytes) → read_frame chunk c s ≢ err unfinished
unfolding read_frame
read_frame-ne-unfinished chunk c s q = elim (Result-cases (read_headers (suc (length s)) [] s)) [
  | inr (x, e) ↦ ground (arith, read_headers-ne-unfinished (suc (length s)) [] s)
  | inl ((h, r), e) ↦ ground (arith, read_content-ne-unfinished chunk (content_length h) r)
]

-- `Read` ends on every input, in whatever pieces it arrives: the fuel of its loops never runs out.
pub read-ne-unfinished : (chunk : ℕ → ℕ → ℕ) (s : Bytes) → read chunk s ≢ err unfinished
unfolding read
read-ne-unfinished chunk s q = elim (Result-cases (read_line s)) [
  | inr (x, e) ↦ ground (arith, read_line_eof s x)
  | inl (([], r), e) ↦ ground arith
  | inl ((c ∷ cs, r), e) ↦ ground (arith, read_frame-ne-unfinished chunk (c ∷ cs) r)
]
