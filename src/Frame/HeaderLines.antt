-- ===== src/Frame/HeaderLines.antt =====
-- A header entry on the wire: the line that the writer makes of it, and how the reader takes it.
use stomp.Prelude.{
  ℕ, zero, suc, ◌≤◌, ◌<◌, ◌≡◌, refl, ◌≢◌, ◌∙◌, ap, [], ◌∷◌, ◌++◌, some, length, length-append, drop,
  take-append, arith, All, All-append, All-map, append-nil, append_assoc,
}
use stomp.Go.Result.{ok}
use stomp.Go.Split.{index_byte}
use stomp.Frame.Header.{Bytes, Header, add}
use stomp.Frame.Encode.{encode_value, unencode_value}
use stomp.Frame.Encode.Laws.{
  IsPlain, encode_value-IsPlain, encode_value-ne-nil, unencode_value-encode_value,
}
use stomp.Frame.Writer.{newline_slice, write_header}
use stomp.Frame.Reader.{commands, parse_entry, read_headers}
use stomp.Frame.Reader.Lines.{read_line-lf}

-- A line's bytes as the reader wants them.
abbrev pub IsLine : Bytes → Type 0
IsLine l = All (λ c. c ≢ b'\n') l × All (λ c. c ≢ b'\r') l

IsLine-append : (k l : Bytes) → IsLine k → IsLine l → IsLine (k ++ l)
IsLine-append k l a b =
    (All-append (λ c. c ≢ b'\n') k l a.0 b.0, All-append (λ c. c ≢ b'\r') k l a.1 b.1)

encode_value-IsLine : (s : Bytes) → IsLine (encode_value s)
encode_value-IsLine s = (
  All-map IsPlain (λ c. c ≢ b'\n') (encode_value s) (λ c p. p.0) (encode_value-IsPlain s),
  All-map IsPlain (λ c. c ≢ b'\r') (encode_value s) (λ c p. p.1) (encode_value-IsPlain s),
)

pub commands-IsLine : All (λ c. IsLine c × (c ≢ [])) commands
commands-IsLine = ground arith

index_byte-append :
    (l s : Bytes) (b : ℕ) → All (λ c. c ≢ b) l → index_byte (l ++ b ∷ s) b ≡ some (length l)
unfolding index_byte
index_byte-append [] s b h = ground arith
index_byte-append (c ∷ l) s b h = ground (arith, index_byte-append l s b h.1)

-- The line of an entry.
abbrev pub entry_line : Bytes → Bytes → Bytes
entry_line k v = encode_value k ++ b':' ∷ encode_value v

drop-suc-append : (l : Bytes) (b : ℕ) (s : Bytes) → drop (suc (length l)) (l ++ b ∷ s) ≡ s
drop-suc-append [] b s = refl
drop-suc-append (c ∷ l) b s = drop-suc-append l b s

parse_entry-split :
    (l s : Bytes)
    → l ≢ []
    → All (λ c. c ≢ b':') l
    → parse_entry (l ++ b':' ∷ s) ≡ ok (unencode_value l, unencode_value s)
unfolding parse_entry
parse_entry-split [] s ne h = absurd (ne refl)
parse_entry-split (c ∷ l) s ne h =
    rw (index_byte-append (c ∷ l) s b':' h, take-append l (b':' ∷ s), drop-suc-append l b':' s)

parse_entry-entry_line : (k v : Bytes) → k ≢ [] → parse_entry (entry_line k v) ≡ ok (k, v)
parse_entry-entry_line k v ne =
    parse_entry-split (encode_value k) (encode_value v) (encode_value-ne-nil k ne)
      (All-map IsPlain (λ c. c ≢ b':') (encode_value k) (λ c p. p.2) (encode_value-IsPlain k))
    ∙ rw (unencode_value-encode_value k, unencode_value-encode_value v)

entry_line-IsLine : (k v : Bytes) → IsLine (entry_line k v)
entry_line-IsLine k v =
    IsLine-append (encode_value k) (b':' ∷ encode_value v) (encode_value-IsLine k)
      (let e = encode_value-IsLine v in ((omega arith, e.0), (omega arith, e.1)))

-- One round of the header loop, on a line that it parses.
read_headers-line :
    (f : ℕ) (h : Header) (l s k v : Bytes)
    → IsLine l
    → l ≢ []
    → parse_entry l ≡ ok (k, v)
    → read_headers (suc f) h (l ++ newline_slice ++ s) ≡ read_headers f (add h k v) s
unfolding read_headers
read_headers-line f h [] s k v il ne p = absurd (ne refl)
read_headers-line f h (c ∷ l) s k v il ne p = rw (read_line-lf (c ∷ l) s il.0 il.1) (ground arith)

write_header-line :
    (k v : Bytes) (h : Header) (r : Bytes)
    → write_header ((k, v) ∷ h) r ≡ entry_line k v ++ newline_slice ++ write_header h r
unfolding write_header
write_header-line k v h r = simp append_assoc

entry_line-ne-nil : (k v : Bytes) → entry_line k v ≢ []
entry_line-ne-nil k v e = not_nil (encode_value k) e
  where
    not_nil : (l : Bytes) → l ++ b':' ∷ encode_value v ≢ []
    not_nil [] q = cc
    not_nil (c ∷ l) q = cc

pub read_headers-write_header :
    (f : ℕ) (g h : Header) (s : Bytes)
    → All (λ e. e.0 ≢ []) h
    → length h < f
    → read_headers f g (write_header h (newline_slice ++ s)) ≡ ok (g ++ h, s)
read_headers-write_header zero g h s ks lt = absurd (omega arith)
read_headers-write_header (suc f) g [] s ks lt =
    unfold read_headers write_header in rw (read_line-lf [] s tt tt, append-nil g)
read_headers-write_header (suc f) g ((k, v) ∷ h) s ks lt =
    ap (read_headers (suc f) g) (write_header-line k v h (newline_slice ++ s))
    ∙ read_headers-line f g (entry_line k v) (write_header h (newline_slice ++ s)) k v
        (entry_line-IsLine k v) (entry_line-ne-nil k v) (parse_entry-entry_line k v ks.0)
    ∙ read_headers-write_header f (add g k v) h s ks.1 (omega arith)
    ∙ unfold add in ap (λ x. ok (x, s)) (append_assoc g ((k, v) ∷ []) h)

pub length-write_header : (h : Header) (s : Bytes) → length h ≤ length (write_header h s)
length-write_header [] s = omega arith
length-write_header ((k, v) ∷ h) s = omega (
  arith,
  length-write_header h s,
  ap length (write_header-line k v h s),
  length-append (entry_line k v ++ newline_slice) (write_header h s),
  length-append (entry_line k v) newline_slice,
)
