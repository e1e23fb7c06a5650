-- ===== src/Frame/Encode/Laws.antt =====
-- The escapes are undone, and leave no byte that the frame format reads as its own.
use stomp.Prelude.{ℕ, ◌≡◌, refl, ◌≢◌, ◌∙◌, ap, [], ◌∷◌, ◌++◌, arith, All, All-append}
use stomp.Frame.Header.{Bytes}
use stomp.Frame.Encode.{
  encode_value, unencode_value, escape, encode_value-cons, unencode_value-escape,
}

-- `encode_value` and `unencode_value` at the end of the text.
encode_value-nil : encode_value [] ≡ []
unfolding encode_value
encode_value-nil = refl

unencode_value-nil : unencode_value [] ≡ []
unfolding unencode_value
unencode_value-nil = refl

-- Decoding what was encoded gives back every text, of any bytes.
pub unencode_value-encode_value : (s : Bytes) → unencode_value (encode_value s) ≡ s
unencode_value-encode_value [] = rw encode_value-nil unencode_value-nil
unencode_value-encode_value (c ∷ s) =
    ap unencode_value (encode_value-cons c s)
    ∙ unencode_value-escape c (encode_value s)
    ∙ ap (◌∷◌ c) (unencode_value-encode_value s)

-- A byte that ends no line and no header name.
abbrev pub IsPlain : ℕ → Type 0
IsPlain c = (c ≢ b'\n') × (c ≢ b'\r') × (c ≢ b':')

escape-IsPlain : (c : ℕ) → All IsPlain (escape c)
escape-IsPlain c = ground arith

pub encode_value-IsPlain : (s : Bytes) → All IsPlain (encode_value s)
encode_value-IsPlain [] = rw encode_value-nil tt
encode_value-IsPlain (c ∷ s) =
    rw encode_value-cons
      (All-append IsPlain (escape c) (encode_value s) (escape-IsPlain c) (encode_value-IsPlain s))

escape-ne-nil : (c : ℕ) (s : Bytes) → escape c ++ s ≢ []
escape-ne-nil c s = ground arith

pub encode_value-ne-nil : (s : Bytes) → s ≢ [] → encode_value s ≢ []
encode_value-ne-nil [] h = absurd (h refl)
encode_value-ne-nil (c ∷ s) h = rw encode_value-cons (escape-ne-nil c (encode_value s))
