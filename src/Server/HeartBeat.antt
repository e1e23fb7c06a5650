-- ===== src/Server/HeartBeat.antt =====
-- `getHeartBeat` of server/client/frame.go, and server/client/util.go.
pub mod Laws
use stomp.Prelude.{
  ℕ, zero, suc, ◌+◌, ◌-◌, ◌*◌, ◌/◌, ◌^◌, ◌≤◌, ◌<◌, ◌≡◌, refl, ◌≢◌, ◌∙◌, Bool, true, false, ◌&&◌,
  ◌||◌, not, List, [], ◌∷◌, ◌++◌, Option, none, some, ltb, leb, ◌==◌, same, if◌then◌else◌, length,
  arith, Bool-cases, inl, inr,
}
use stomp.Go.Result.{Result, ok, err, ◌>>=◌}
use stomp.Go.Number.{NumError, is_digit, parse_uint, parse_digits}
use stomp.Go.Split.{split, onto_first}
use stomp.Frame.Command
use stomp.Frame.Key
use stomp.Frame.Header.{Bytes, contains}
use stomp.Frame.Base.{Frame}
use stomp.Frame.HeartBeat.{first_two, millisecond}
use stomp.Server.ClientError.{ClientError, invalid_heart_beat, invalid_operation_for_frame}

abbrev pub max_heart_beat : ℕ
max_heart_beat = 999999999

-- `[0-9]{0,n}$` and `[0-9]{0,n},[0-9]{1,9}$`, the tails of the regular expression.
pub digits_upto : ℕ → Bytes → Bool
digits_upto n [] = true
digits_upto zero (c ∷ s) = false
digits_upto (suc n) (c ∷ s) = is_digit c && digits_upto n s

pub one_to_nine : Bytes → Bool
one_to_nine [] = false
one_to_nine (c ∷ s) = is_digit c && digits_upto 8 s

pub upto_and_comma : ℕ → Bytes → Bool
upto_and_comma n [] = false
upto_and_comma zero (c ∷ s) = c == b',' && one_to_nine s
upto_and_comma (suc n) (c ∷ s) =
    if c == b',' then one_to_nine s else is_digit c && upto_and_comma n s

-- `^[0-9]{1,9},[0-9]{1,9}$`
unfoldable pub heart_beat_regexp : Bytes → Bool
unfolding digits_upto one_to_nine upto_and_comma
heart_beat_regexp [] = false
heart_beat_regexp (c ∷ s) = is_digit c && upto_and_comma 8 s

-- `value, _ := strconv.ParseUint(s, 10, 32)`. An error leaves 0 for a syntax error and the largest
-- number for one that is out of range.
unfoldable pub value_of : Result NumError ℕ → ℕ
value_of (ok n) = n
value_of (err NumError.syntax) = 0
value_of (err NumError.range) = 2 ^ 32 - 1

unfoldable pub parse_pair : Bytes → ℕ × ℕ
unfolding value_of first_two
parse_pair s =
    let slice = first_two (split b',' s) in
    (value_of (parse_uint 32 slice.0), value_of (parse_uint 32 slice.1))

entry_heart_beat : Option Bytes → Result ClientError (ℕ × ℕ)
unfolding parse_pair
entry_heart_beat none = ok (0, 0)
entry_heart_beat (some s) =
    if not (heart_beat_regexp s) then err invalid_heart_beat else ok (parse_pair s)

unfoldable pub get_heart_beat : Frame → Result ClientError (ℕ × ℕ)
unfolding entry_heart_beat
get_heart_beat f =
    if not (same f.command Command.connect)
      && not (same f.command Command.stomp_connect)
      && not (same f.command Command.connected)
    then err invalid_operation_for_frame
    else entry_heart_beat (contains f.header Key.heart_beat)

-- `asMilliseconds` of a duration that is not negative and a maximum that is not negative.
unfoldable pub as_milliseconds : ℕ → ℕ → ℕ
as_milliseconds d max = let msec = d / millisecond in if ltb max msec then max else msec

-- The heart-beat that the server insists on: zero stays, and no shorter time than its own.
unfoldable pub at_least : ℕ → ℕ → ℕ
at_least min c = if ltb 0 c && ltb c min then min else c
