-- ===== src/Frame/Encode.antt =====
-- frame/encode.go: the escapes of header names and values.
pub mod Laws
use stomp.Prelude.{
  ℕ, zero, suc, ◌+◌, ◌≡◌, refl, ◌≢◌, ◌∙◌, ap, Bool, true, false, List, [], ◌∷◌, ◌++◌, Option, none,
  some, has_prefix, same, if◌then◌else◌, ◌==◌, ◌&&◌, not, codes, length, arith, All, All-append,
}
use stomp.Go.Replacer.{Table, match_at, replace}
use stomp.Frame.Header.{Bytes}

-- `replacerForEncodeValue`.
abbrev encode_table : Table
encode_table =
    (codes "\\", codes "\\\\")
    ∷ (b'\r' ∷ [], codes "\\r")
    ∷ (b'\n' ∷ [], codes "\\n")
    ∷ (codes ":", codes "\\c")
    ∷ []

-- `replacerForUnencodeValue`.
abbrev unencode_table : Table
unencode_table =
    (codes "\\r", b'\r' ∷ [])
    ∷ (codes "\\n", b'\n' ∷ [])
    ∷ (codes "\\c", codes ":")
    ∷ (codes "\\\\", codes "\\")
    ∷ []

unfoldable pub encode_value : Bytes → Bytes
unfolding replace match_at has_prefix
encode_value = replace encode_table 0

-- `unencodeValue`; its error is always nil.
unfoldable pub unencode_value : Bytes → Bytes
unfolding replace match_at has_prefix
unencode_value = replace unencode_table 0

encode_demo : encode_value (codes "a:b\\\n") ≡ codes "a\\cb\\\\\\n"
unfolding encode_value
encode_demo = refl

unencode_demo : unencode_value (codes "a\\cb\\\\\\n\\t\\") ≡ codes "a:b\\\n\\t\\"
unfolding unencode_value
unencode_demo = refl

-- What `encode_value` writes for one byte.
abbrev pub escape : ℕ → Bytes
escape c =
    if c == b'\\'
    then codes "\\\\"
    else if c == b'\r'
    then codes "\\r"
    else if c == b'\n'
    then codes "\\n"
    else if c == b':'
    then codes "\\c"
    else c ∷ []

pub encode_value-cons : (c : ℕ) (s : Bytes) → encode_value (c ∷ s) ≡ escape c ++ encode_value s
unfolding encode_value
encode_value-cons c s = ground arith

unencode_value-escape : (c : ℕ) (s : Bytes) → unencode_value (escape c ++ s) ≡ c ∷ unencode_value s
unfolding unencode_value
unencode_value-escape c s = ground arith
