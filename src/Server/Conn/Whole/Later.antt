-- ===== src/Server/Conn/Whole/Later.antt =====
-- What stays of a connection of server/client/conn.go once the handshake is over.
use stomp.Prelude.{◌≡◌, refl, sym, ◌∙◌, List, [], ◌++◌, append-nil, append_assoc}
use stomp.Server.Conn.State.{Request, Conn}

-- The connection is the one that it was, in the same state and of the same version and write timeout,
-- and what it asked for is still there, with more behind it.
pub record Later (b c : Conn) : Type 0 where
  pub number : c.number ≡ b.number
  pub state_func : c.state_func ≡ b.state_func
  pub version : c.version ≡ b.version
  pub write_timeout : c.write_timeout ≡ b.write_timeout
  pub requests : (more : List Request) × (c.requests ≡ b.requests ++ more)

pub Later-refl : (b : Conn) → Later b b
Later-refl b = record {
  number = refl;
  state_func = refl;
  version = refl;
  write_timeout = refl;
  requests = ([], sym (append-nil b.requests));
}

more-append :
    (b c : Conn) (r : List Request)
    → (more : List Request) × (c.requests ≡ b.requests ++ more)
    → (more : List Request) × (c.requests ++ r ≡ b.requests ++ more)
more-append b c r (more, e) = (more ++ r, rw e (append_assoc b.requests more r))

-- A connection that differs from a later one in the other fields, and has asked for more.
pub Later-asks :
    (b c d : Conn) (r : List Request)
    → Later b c
    → d.number ≡ c.number
    → d.state_func ≡ c.state_func
    → d.version ≡ c.version
    → d.write_timeout ≡ c.write_timeout
    → d.requests ≡ c.requests ++ r
    → Later b d
Later-asks b c d r l n s v t q =
    let (more, e) = more-append b c r l.requests in
    record {
      number = n ∙ l.number;
      state_func = s ∙ l.state_func;
      version = v ∙ l.version;
      write_timeout = t ∙ l.write_timeout;
      requests = (more, q ∙ e);
    }

-- The same where it has asked for nothing.
pub Later-keeps :
    (b c d : Conn)
    → Later b c
    → d.number ≡ c.number
    → d.state_func ≡ c.state_func
    → d.version ≡ c.version
    → d.write_timeout ≡ c.write_timeout
    → d.requests ≡ c.requests
    → Later b d
Later-keeps b c d l n s v t q = Later-asks b c d [] l n s v t (q ∙ sym (append-nil c.requests))

pub Later-trans : (a b c : Conn) → Later a b → Later b c → Later a c
Later-trans a b c l k =
    let (more, e) = k.requests in
    Later-asks a b c more l k.number k.state_func k.version k.write_timeout e
