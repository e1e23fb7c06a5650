-- ===== src/Frame/Header.antt =====
-- frame/header.go. A header is the list of its (key, value) entries in order; Header/Slice has the
-- flat slice that the code keeps, and proves that it behaves as this list.
pub mod Laws
pub mod Slice
use stomp.Prelude.{
  ℕ, suc, List, [], ◌∷◌, ◌++◌, Option, none, some, same, if◌then◌else◌, length, get_elem?, ◌-◌,
}
use stomp.Go.Result.{Result, ok, err, ◌>>=◌}
use stomp.Go.Number.{NumError, parse_uint}
use stomp.Frame.Key

abbrev pub Bytes : Type 0
Bytes = List ℕ

abbrev pub Entry : Type 0
Entry = Bytes × Bytes

abbrev pub Header : Type 0
Header = List Entry

unfoldable pub add : Header → Bytes → Bytes → Header
add h key value = h ++ (key, value) ∷ []

-- `AddHeader`, for a header that is not nil.
unfoldable pub add_header : Header → Header → Header
add_header h [] = h
add_header h ((key, value) ∷ other) = add_header (add h key value) other

-- `Set`: the first entry of the key gets the value, or a new entry goes to the end.
unfoldable pub set : Header → Bytes → Bytes → Header
set [] key value = (key, value) ∷ []
set ((k, v) ∷ h) key value = if same k key then (k, value) ∷ h else (k, v) ∷ set h key value

-- `Contains`: the first value of the key, `none` for `ok == false`.
unfoldable pub contains : Header → Bytes → Option Bytes
contains [] key = none
contains ((k, v) ∷ h) key = if same k key then some v else contains h key

-- What the program reads from a lookup whose `ok` it ignores.
abbrev pub or_empty : Option Bytes → Bytes
or_empty none = []
or_empty (some v) = v

unfoldable pub get : Header → Bytes → Bytes
get h key = or_empty (contains h key)

unfoldable pub get_all : Header → Bytes → List Bytes
get_all [] key = []
get_all ((k, v) ∷ h) key = if same k key then v ∷ get_all h key else get_all h key

-- `GetAt`; `none` is the panic of an index out of range.
unfoldable pub get_at : Header → ℕ → Option Entry
get_at h i = get_elem? h i

unfoldable pub del : Header → Bytes → Header
del [] key = []
del ((k, v) ∷ h) key = if same k key then del h key else (k, v) ∷ del h key

unfoldable pub len : Header → ℕ
len h = length h

-- `ContentLength`: no entry, a number below 2^32, or an error.
abbrev content_length_of : Option Bytes → Result NumError (Option ℕ)
content_length_of none = ok none
content_length_of (some text) = parse_uint 32 text >>= λ n. ok (some n)

unfoldable pub content_length : Header → Result NumError (Option ℕ)
content_length h = content_length_of (contains h Key.content_length)
