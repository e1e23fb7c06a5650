-- ===== src/Frame/Reader/Lines.antt =====
-- Lines as the reader sees them: ended by LF or by CR-LF.
use stomp.Prelude.{
  ℕ, ◌-◌, ◌<◌, ◌≡◌, refl, sym, ◌≢◌, ◌∙◌, ap, inl, inr, true, false, [], ◌∷◌, ◌++◌, ◌==◌, same_iff,
  same_refl, length, length-append, take, drop, take-append, drop-append, All-append,
  All-append_right, take-append-drop, arith, All, Bool-cases, append_assoc,
}
use stomp.Go.Result.{ok, err, Result-cases}
use stomp.Frame.Header.{Bytes}
use stomp.Frame.Reader.{ReadError, eof, read_bytes, has_suffix, trim_line, read_line}
use stomp.Frame.Writer.{crlf_slice, newline_slice}

pub read_bytes-append :
    (d : ℕ) (l s : Bytes) → All (λ c. c ≢ d) l → read_bytes d (l ++ d ∷ s) ≡ ok (l ++ d ∷ [], s)
unfolding read_bytes
read_bytes-append d [] s h = ground arith
read_bytes-append d (c ∷ l) s h = ground (arith, read_bytes-append d l s h.1)

-- What `ReadBytes` takes is split off the front, and it takes at least one byte.
pub read_bytes-splits :
    (d : ℕ) (s : Bytes) {l r : Bytes}
    → read_bytes d s ≡ ok (l, r)
    → (s ≡ l ++ r) × (length r < length s) × ((k : Bytes) × (l ≡ k ++ d ∷ []) × All (λ c. c ≢ d) k)
unfolding read_bytes
read_bytes-splits d [] e = cc
read_bytes-splits d (c ∷ s) {l} {r} e = elim (Bool-cases (c == d)) [
  | inl hit ↦ (ground arith, ground arith, ([], ground arith, tt))
  | inr miss ↦ elim (Result-cases (read_bytes d s)) [
    | inl ((l', r'), q) ↦
        let (split, shorter, (k, k_eq, clean)) = read_bytes-splits d s q in
        (ground arith, ground arith, (c ∷ k, ground arith, (ground arith, clean)))
    | inr (x, q) ↦ absurd (ground arith)
  ]
]

pub has_suffix-append : (l p : Bytes) → has_suffix (l ++ p) p ≡ true
unfolding has_suffix
has_suffix-append l p =
    let e : length (l ++ p) - length p ≡ length l = omega (arith, length-append l p) in
    rw (e, drop-append l p, same_refl p) (ground (arith, length-append l p))

pub has_suffix_inv : (s p : Bytes) → has_suffix s p ≡ true → (k : Bytes) × (s ≡ k ++ p)
unfolding has_suffix
has_suffix_inv s p h = (
  take (length s - length p) s,
  sym (take-append-drop (length s - length p) s)
      ∙ ap (◌++◌ (take (length s - length p) s))
          ((same_iff (drop (length s - length p) s) p).0 (ground arith)),
)

take-append_short : (l p : Bytes) → take (length (l ++ p) - length p) (l ++ p) ≡ l
take-append_short l p =
    let e : length (l ++ p) - length p ≡ length l = omega (arith, length-append l p) in
    rw e (take-append l p)

-- A line ended by CR-LF loses both bytes, one ended by LF alone loses that.
trim_line-crlf : (l : Bytes) → trim_line (l ++ crlf_slice) ≡ l
unfolding trim_line
trim_line-crlf l = rw (has_suffix-append l crlf_slice) (take-append_short l crlf_slice)

not_crlf : (l : Bytes) → All (λ c. c ≢ b'\r') l → has_suffix (l ++ newline_slice) crlf_slice ≡ false
not_crlf l h = elim (Bool-cases (has_suffix (l ++ newline_slice) crlf_slice)) [
  | inr e ↦ e
  | inl e ↦
      let (k, split) = has_suffix_inv (l ++ newline_slice) crlf_slice e in
      let all_lf = All-append (λ c. c ≢ b'\r') l newline_slice h (omega arith, tt) in
      absurd ((All-append_right (λ c. c ≢ b'\r') k crlf_slice (rw split at all_lf)).0 refl)
]

trim_line-lf : (l : Bytes) → All (λ c. c ≢ b'\r') l → trim_line (l ++ newline_slice) ≡ l
unfolding trim_line
trim_line-lf l h =
    rw (not_crlf l h) (rw (has_suffix-append l newline_slice) (take-append_short l newline_slice))

-- A line with no CR or LF in it is read back from in front of its LF.
pub read_line-lf :
    (l s : Bytes)
    → All (λ c. c ≢ b'\n') l
    → All (λ c. c ≢ b'\r') l
    → read_line (l ++ newline_slice ++ s) ≡ ok (l, s)
unfolding read_line
read_line-lf l s h k =
    rw (append_assoc l newline_slice s)
      (rw (read_bytes-append b'\n' l s h) (ap (λ t. ok (t, s)) (trim_line-lf l k)))

-- A line with no LF in it, its own CRs included, is read from in front of CR-LF, and what follows
-- is left.
pub read_line-crlf :
    (l s : Bytes) → All (λ c. c ≢ b'\n') l → read_line (l ++ crlf_slice ++ s) ≡ ok (l, s)
unfolding read_line
read_line-crlf l s h =
    let all_cr = All-append (λ c. c ≢ b'\n') l (b'\r' ∷ []) h (omega arith, tt) in
    let e : l ++ crlf_slice ++ s ≡ (l ++ b'\r' ∷ []) ++ b'\n' ∷ s = simp append_assoc in
    rw (e, read_bytes-append b'\n' (l ++ b'\r' ∷ []) s all_cr, append_assoc)
      (ap (λ t. ok (t, s)) (trim_line-crlf l))

-- A line takes at least its end from the stream.
pub read_line_shorter : (s l r : Bytes) → read_line s ≡ ok (l, r) → length r < length s
unfolding read_line
read_line_shorter s l r e = elim (Result-cases (read_bytes b'\n' s)) [
  | inl ((l', r'), q) ↦ let (split, shorter, _) = read_bytes-splits b'\n' s q in ground arith
  | inr (x, q) ↦ absurd (ground arith)
]

-- The reads of lines have one error, the end of the stream.
pub read_bytes_eof : (d : ℕ) (s : Bytes) (x : ReadError) → read_bytes d s ≡ err x → x ≡ eof
unfolding read_bytes
read_bytes_eof d [] x e = ground arith
read_bytes_eof d (c ∷ s) x e = ground (arith, read_bytes_eof d s x)

pub read_line_eof : (s : Bytes) (x : ReadError) → read_line s ≡ err x → x ≡ eof
unfolding read_line
read_line_eof s x e = ground (arith, read_bytes_eof b'\n' s x)
