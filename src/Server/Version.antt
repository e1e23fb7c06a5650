-- ===== src/Server/Version.antt =====
-- `determineVersion` of server/client/frame.go, and version.go.
pub mod Laws
use stomp.Prelude.{
  ℕ, Bool, true, false, List, [], ◌∷◌, ◌++◌, Option, none, some, ltb, ◌==◌, same, codes, ◌&&◌, ◌||◌,
  not, if◌then◌else◌,
}
use stomp.Go.Result.{Result, ok, err}
use stomp.Go.Split.{split}
use stomp.Frame.Command
use stomp.Frame.Key
use stomp.Frame.Header.{Bytes, contains}
use stomp.Frame.Base.{Frame}
use stomp.Server.ClientError.{ClientError, unknown_version, not_connect_frame, missing_header}

abbrev pub v10 : Bytes
v10 = codes "1.0"

abbrev pub v11 : Bytes
v11 = codes "1.1"

abbrev pub v12 : Bytes
v12 = codes "1.2"

-- `CheckSupported`: true for a nil error.
unfoldable pub check_supported : Bytes → Bool
check_supported v = same v v10 || same v v11 || same v v12

-- `SupportsNack`.
unfoldable pub supports_nack : Bytes → Bool
supports_nack v = if same v v10 then false else (same v v11 || same v v12)

-- `<=` on strings.
unfoldable pub le_bytes : Bytes → Bytes → Bool
le_bytes [] t = true
le_bytes (c ∷ s) [] = false
le_bytes (c ∷ s) (d ∷ t) = ltb c d || (c == d && le_bytes s t)

insert_sorted : Bytes → List Bytes → List Bytes
insert_sorted v [] = v ∷ []
insert_sorted v (w ∷ l) = if le_bytes v w then v ∷ w ∷ l else w ∷ insert_sorted v l

-- sort.Strings.
unfoldable pub sort_strings : List Bytes → List Bytes
unfolding insert_sorted
sort_strings [] = []
sort_strings (v ∷ l) = insert_sorted v (sort_strings l)

-- The switch of the loop, with the version found so far; `none` stands for the error that the loop
-- starts with.
unfoldable pub next_version : Option Bytes → Bytes → Option Bytes
next_version found v =
    if same v v10
    then some v10
    else if same v v11
    then some v11
    else if same v v12
    then some v12
    else found

unfoldable pub last_known : Option Bytes → List Bytes → Option Bytes
unfolding next_version
last_known found [] = found
last_known found (v ∷ l) = last_known (next_version found v) l

abbrev pub or_unknown : Option Bytes → Result ClientError Bytes
or_unknown none = err unknown_version
or_unknown (some v) = ok v

-- With the accept-version entry, or without it.
accepted : Bool → Option Bytes → Result ClientError Bytes
unfolding last_known sort_strings split
accepted is_connect (some accept_version) =
    or_unknown (last_known none (sort_strings (split b',' accept_version)))
accepted is_connect none = if is_connect then ok v10 else err (missing_header Key.accept_version)

unfoldable pub determine_version : Frame → Result ClientError Bytes
unfolding accepted
determine_version f =
    let is_connect = same f.command Command.connect in
    if not is_connect && not (same f.command Command.stomp_connect)
    then err not_connect_frame
    else accepted is_connect (contains f.header Key.accept_version)
