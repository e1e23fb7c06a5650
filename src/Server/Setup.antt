-- ===== src/Server/Setup.antt =====
-- server/server.go and the rest of server/processor.go: the server's parameters, the configuration that
-- its connections get, and the loop that accepts them.
use stomp.Prelude.{
  ℕ, zero, suc, ◌*◌, ◌^◌, ◌≤◌, ◌≡◌, refl, sym, ◌∙◌, ap, Bool, true, false, List, [], ◌∷◌, ◌++◌,
  Option, none, some, ◌==◌, same, codes, if◌then◌else◌, min, arith,
}
use native.Mathlib.Nat.{pow-succ'}
use stomp.Frame.Header.{Bytes}
use stomp.Frame.HeartBeat.{millisecond}
use stomp.Server.Conn.State.{Config}
use stomp.Server.Processor.{next_timeout}

abbrev pub default_addr : Bytes
default_addr = codes ":61613"

-- `DefaultHeartBeat`, a minute.
abbrev pub default_heart_beat : ℕ
default_heart_beat = 60000 * millisecond

-- The fields of `Server` that its connections depend on.
pub record Server : Type 0 where
  pub addr : Bytes
  pub authenticator : Option (Bytes → Bytes → Bool)
  pub heart_beat : ℕ

-- Where `ListenAndServe` listens.
unfoldable pub listen_addr : Server → Bytes
listen_addr s = if same s.addr [] then default_addr else s.addr

unfoldable pub heart_beat_of : Server → ℕ
heart_beat_of s = if s.heart_beat == 0 then default_heart_beat else s.heart_beat

unfoldable pub authenticate_of : Server → Bytes → Bytes → Bool
authenticate_of s login passcode = elim s.authenticator [
  | none ↦ true
  | some check ↦ check login passcode
]

-- `newConfig`, with what lies outside the program.
unfoldable pub config_of : Server → (Bytes → Bytes) → Bytes → Config
config_of s quote network_text = record {
  authenticate = authenticate_of s;
  heart_beat = heart_beat_of s;
  quote = quote;
  network_text = network_text;
}

-- What `Accept` gives: a connection, an error that is said to be temporary, or another one.
pub data Accept : Type 0 where
  connection temporary fatal : Accept

-- How many connections `Listen` made, how long it slept each time, in milliseconds and in order, and
-- whether it has returned.
pub record Listening : Type 0 where
  pub conns : ℕ
  pub pauses : List ℕ
  pub has_returned : Bool

unfoldable pub listen : ℕ → List Accept → Listening
listen timeout [] = record { conns = 0; pauses = []; has_returned = false }
listen timeout (connection ∷ l) = let rest = listen 0 l in record rest { conns = suc rest.conns }
listen timeout (temporary ∷ l) =
    let pause = next_timeout timeout in
    let rest = listen pause l in record rest { pauses = pause ∷ rest.pauses }
listen timeout (fatal ∷ l) = record { conns = 0; pauses = []; has_returned = true }

-- The pauses after so many temporary errors in a row: five milliseconds, doubled each time, and five
-- seconds at most.
abbrev pub back_off : ℕ → ℕ
back_off i = min 5000 (5 * 2 ^ i)

abbrev pub temporaries : ℕ → List Accept → List Accept
temporaries zero l = l
temporaries (suc n) l = temporary ∷ temporaries n l

abbrev pub back_offs : ℕ → ℕ → List ℕ
back_offs i zero = []
back_offs i (suc n) = back_off i ∷ back_offs (suc i) n

doubled : (p : ℕ) → 1 ≤ p → next_timeout (min 5000 (5 * p)) ≡ min 5000 (5 * (2 * p))
unfolding next_timeout
doubled p h = ground arith

pow_pos : (i : ℕ) → 1 ≤ 2 ^ i
pow_pos zero = omega arith
pow_pos (suc i) = omega (arith, pow_pos i, pow-succ' 2 i)

next_timeout-back_off : (i : ℕ) → next_timeout (back_off i) ≡ back_off (suc i)
next_timeout-back_off i =
    doubled (2 ^ i) (pow_pos i) ∙ ap (λ p. min 5000 (5 * p)) (sym (pow-succ' 2 i))

listen-from :
    (i n : ℕ) (l : List Accept)
    → (listen (back_off i) (temporaries n (connection ∷ l))).pauses
      ≡ back_offs (suc i) n ++ (listen 0 l).pauses
unfolding listen
listen-from i zero l = refl
listen-from i (suc n) l =
    rw (next_timeout-back_off i) (ap (λ r. back_off (suc i) ∷ r) (listen-from (suc i) n l))

-- A run of temporary errors from the start of the loop, or behind a connection, up to the next
-- connection: the first pause is five milliseconds, each is twice the one before and five seconds at
-- most, and the errors behind that connection start afresh.
pub listen-temporaries :
    (n : ℕ) (l : List Accept)
    → (listen 0 (temporaries n (connection ∷ l))).pauses ≡ back_offs 0 n ++ (listen 0 l).pauses
unfolding listen next_timeout
listen-temporaries zero l = refl
listen-temporaries (suc n) l = ap (λ r. 5 ∷ r) (listen-from 0 n l)
