-- ===== src/Frame/Reader/Shorter.antt =====
-- What `Read` of frame/reader.go leaves on the stream.
use stomp.Prelude.{
  ℕ, zero, suc, ◌<◌, ◌≡◌, inl, inr, [], ◌∷◌, Option, none, some, length, length-drop, drop, arith,
}
use stomp.Go.Result.{Result, ok, err, Result-cases}
use stomp.Go.Number.{NumError}
use stomp.Frame.Header.{Bytes, Header, add, content_length}
use stomp.Frame.Base.{Frame}
use stomp.Frame.Reader.{
  read_bytes, read_line, parse_entry, read_headers, read_null, read_content, read_frame, read,
}
use stomp.Frame.Reader.Lines.{read_line_shorter, read_bytes-splits}
use stomp.Frame.Reader.Body.{read_body_lem}

read_headers_shorter :
    (f : ℕ) (h : Header) (s : Bytes) {h' : Header} {r : Bytes}
    → read_headers f h s ≡ ok (h', r)
    → length r < length s
unfolding read_headers
read_headers_shorter zero h s e = cc
read_headers_shorter (suc f) h s {h'} {r} e = elim (Result-cases (read_line s)) [
  | inr (x, q) ↦ absurd (ground arith)
  | inl (([], t), q) ↦ ground (arith, read_line_shorter s [] t q)
  | inl ((c ∷ cs, t), q) ↦ elim (Result-cases (parse_entry (c ∷ cs))) [
    | inr (x, p) ↦ absurd (ground arith)
    | inl ((k, v), p) ↦
        let rest : read_headers f (add h k v) t ≡ ok (h', r) = ground arith in
        omega (arith, read_line_shorter s (c ∷ cs) t q, read_headers_shorter f (add h k v) t rest)
  ]
]

read_null_shorter : (s : Bytes) {r : Bytes} → read_null s ≡ ok r → length r < length s
unfolding read_null
read_null_shorter [] e = cc
read_null_shorter (c ∷ s) e = ground arith

read_content_shorter :
    (chunk : ℕ → ℕ → ℕ) (n : Result NumError (Option ℕ)) (s : Bytes) {b r : Bytes}
    → read_content chunk n s ≡ ok (b, r)
    → length r < length s
unfolding read_content
read_content_shorter chunk (err x) s e = cc
read_content_shorter chunk (ok none) s e = elim (Result-cases (read_bytes 0 s)) [
  | inr (x, q) ↦ absurd (ground arith)
  | inl ((l, t), q) ↦ let (split, shorter, _) = read_bytes-splits 0 s q in ground arith
]
read_content_shorter chunk (ok (some n)) s {b} {r} e = elim (Result-cases (read_null (drop n s))) [
  | inr (x, q) ↦ absurd (ground (arith, read_body_lem chunk (suc n) n [] s (omega arith)))
  | inl (t, q) ↦ ground (
    arith,
    read_body_lem chunk (suc n) n [] s (omega arith),
    read_null_shorter (drop n s) q,
    length-drop n s,
  )
]

read_frame_shorter :
    (chunk : ℕ → ℕ → ℕ) (c s : Bytes) {o : Option Frame} {r : Bytes}
    → read_frame chunk c s ≡ ok (o, r)
    → length r < length s
unfolding read_frame
read_frame_shorter chunk c s e = elim (Result-cases (read_headers (suc (length s)) [] s)) [
  | inr (x, q) ↦ absurd (ground arith)
  | inl ((h, t), q) ↦ elim (Result-cases (read_content chunk (content_length h) t)) [
    | inr (x, p) ↦ absurd (ground arith)
    | inl ((b, u), p) ↦ ground (
      arith,
      read_headers_shorter (suc (length s)) [] s q,
      read_content_shorter chunk (content_length h) t p,
    )
  ]
]

-- What `Read` leaves is shorter than what it found, for a frame as for a heart-beat.
pub read_shorter :
    (chunk : ℕ → ℕ → ℕ) (s : Bytes) {o : Option Frame} {r : Bytes}
    → read chunk s ≡ ok (o, r)
    → length r < length s
unfolding read
read_shorter chunk s {o} {r} e = elim (Result-cases (read_line s)) [
  | inr (x, q) ↦ absurd (ground arith)
  | inl (([], t), q) ↦ ground (arith, read_line_shorter s [] t q)
  | inl ((c ∷ cs, t), q) ↦
      let rest : read_frame chunk (c ∷ cs) t ≡ ok (o, r) = ground arith in
      omega (arith, read_line_shorter s (c ∷ cs) t q, read_frame_shorter chunk (c ∷ cs) t rest)
]
