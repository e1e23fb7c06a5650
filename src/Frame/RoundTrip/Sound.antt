-- ===== src/Frame/RoundTrip/Sound.antt =====
-- Every frame that the reader hands on can be written, and comes back when it is.
use stomp.Prelude.{
  ℕ, zero, suc, ◌≡◌, refl, ◌≢◌, subst, inl, inr, [], ◌∷◌, ◌++◌, Option, none, some, length, take,
  arith, All, All-append, Bool-cases, Option-cases,
}
use stomp.Go.Result.{Result, ok, err, Result-cases}
use stomp.Go.Number.{NumError}
use stomp.Go.Split.{index_byte}
use stomp.Frame.Header.{Bytes, Header, add, content_length}
use stomp.Frame.Base.{Frame}
use stomp.Frame.Encode.{unencode_value}
use stomp.Frame.Writer.{write}
use stomp.Frame.Reader.{
  read_bytes, read_line, parse_entry, read_headers, read_content, read_frame, read, is_command,
}
use stomp.Frame.Reader.Lines.{read_bytes-splits}
use stomp.Frame.Reader.Body.{read_body_lem, length-take}
use stomp.Frame.RoundTrip.{Sized, IsWritable, read-write, take_init}

unencode_value-ne-nil : (c : ℕ) (s : Bytes) → unencode_value (c ∷ s) ≢ []
unfolding unencode_value
unencode_value-ne-nil c s = ground arith

take-suc : (i : ℕ) (c : ℕ) (s : Bytes) → take (suc i) (c ∷ s) ≡ c ∷ take i s
take-suc i c s = refl

parse_entry-ne-nil : (l : Bytes) (k v : Bytes) → parse_entry l ≡ ok (k, v) → k ≢ []
unfolding parse_entry index_byte
parse_entry-ne-nil [] k v e = cc
parse_entry-ne-nil (c ∷ l) k v e = elim (Option-cases (index_byte (c ∷ l) b':')) [
  | inl n ↦ absurd (ground arith)
  | inr (zero, n) ↦ absurd (ground arith)
  | inr (suc i, n) ↦ ground (arith, unencode_value-ne-nil c (take i l))
]

abbrev HasKeys : Header → Type 0
HasKeys = All (λ e. e.0 ≢ [])

read_headers-HasKeys :
    (f : ℕ) (g h : Header) (s r : Bytes) → HasKeys g → read_headers f g s ≡ ok (h, r) → HasKeys h
unfolding read_headers
read_headers-HasKeys zero g h s r ks e = cc
read_headers-HasKeys (suc f) g h s r ks e = elim (Result-cases (read_line s)) [
  | inr (x, q) ↦ absurd (ground arith)
  | inl (([], t), q) ↦ subst HasKeys (ground arith) ks
  | inl ((c ∷ cs, t), q) ↦ elim (Result-cases (parse_entry (c ∷ cs))) [
    | inr (x, p) ↦ absurd (ground arith)
    | inl ((k, v), p) ↦
        read_headers-HasKeys f (add g k v) h t r
          (unfold add in
            All-append (λ e. e.0 ≢ []) g ((k, v) ∷ []) ks (parse_entry-ne-nil (c ∷ cs) k v p, tt))
          (ground arith)
  ]
]

read_content-Sized :
    (chunk : ℕ → ℕ → ℕ) (n : Result NumError (Option ℕ)) (s body r : Bytes)
    → read_content chunk n s ≡ ok (body, r)
    → Sized n body
unfolding read_content
read_content-Sized chunk (err x) s body r e = cc
read_content-Sized chunk (ok none) s body r e = elim (Result-cases (read_bytes 0 s)) [
  | inr (x, q) ↦ absurd (ground arith)
  | inl ((l, t), q) ↦
      let (_, _, (k, k_eq, clean)) = read_bytes-splits 0 s q in
      subst (All (λ c. c ≢ 0)) (ground (arith, take_init k 0)) clean
]
read_content-Sized chunk (ok (some n)) s body r e =
    ground (arith, read_body_lem chunk (suc n) n [] s (omega arith), length-take n s)

read_frame-IsWritable :
    (chunk : ℕ → ℕ → ℕ) (c s r : Bytes) (f : Frame)
    → read_frame chunk c s ≡ ok (some f, r)
    → IsWritable f
unfolding read_frame
read_frame-IsWritable chunk c s r f e = elim (Bool-cases (is_command c)) [
  | inr unknown ↦ absurd (ground arith)
  | inl known ↦ elim (Result-cases (read_headers (suc (length s)) [] s)) [
    | inr (x, q) ↦ absurd (ground arith)
    | inl ((h, t), q) ↦ elim (Result-cases (read_content chunk (content_length h) t)) [
      | inr (x, p) ↦ absurd (ground arith)
      | inl ((body, u), p) ↦
          let f_eq : record { command = c; header = h; body = body } ≡ f = ground arith in
          subst IsWritable f_eq (record {
            known = known;
            keys = read_headers-HasKeys (suc (length s)) [] h s t tt q;
            sized = read_content-Sized chunk (content_length h) t body u p;
          })
    ]
  ]
]

pub read-IsWritable :
    (chunk : ℕ → ℕ → ℕ) (s : Bytes) {f : Frame} {r : Bytes}
    → read chunk s ≡ ok (some f, r)
    → IsWritable f
unfolding read
read-IsWritable chunk s {f} {r} e = elim (Result-cases (read_line s)) [
  | inr (x, q) ↦ absurd (ground arith)
  | inl (([], t), q) ↦ absurd (ground arith)
  | inl ((c ∷ cs, t), q) ↦ read_frame-IsWritable chunk (c ∷ cs) t r f (ground arith)
]

-- A frame that was read from any bytes, in any pieces, is read again unchanged from the bytes that
-- it is written as, in any other pieces, and leaves what was sent behind it.
pub read-write-read :
    (chunk other : ℕ → ℕ → ℕ) (s rest : Bytes) {f : Frame} {r : Bytes}
    → read chunk s ≡ ok (some f, r)
    → read other (write (some f) ++ rest) ≡ ok (some f, rest)
read-write-read chunk other s rest {f} e = read-write other f rest (read-IsWritable chunk s e)
