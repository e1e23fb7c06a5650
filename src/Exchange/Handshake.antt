-- ===== src/Exchange/Handshake.antt =====
-- The handshake: `handleConnect` of server/client/conn.go against `Connect` of conn.go.
use stomp.Prelude.{
  ℕ, suc, ◌*◌, ◌≤◌, ◌≡◌, refl, ap, ◌∙◌, true, false, List, [], ◌∷◌, ◌++◌, none, some, same, codes,
  arith, Option-cases, inl, inr,
}
use stomp.Go.Result.{ok}
use stomp.Go.Int64.{format_int, is_negative, quot}
use stomp.Go.Number.{format_uint, parse_uint, parse_digits}
use stomp.Go.Split.{split, join}
use stomp.Frame.Command
use stomp.Frame.Key
use stomp.Frame.Header.{Bytes, contains, get, set}
use stomp.Frame.Base.{Frame, new}
use stomp.Frame.HeartBeat.{
  millisecond, max_milliseconds, show_heart_beat, parse_heart_beat-show_heart_beat,
}
use stomp.Server.Version.{
  v10, v11, v12, check_supported, last_known, or_unknown, determine_version, sort_strings, le_bytes,
}
use stomp.Server.HeartBeat.{
  heart_beat_regexp, max_heart_beat, get_heart_beat, as_milliseconds, at_least,
}
use stomp.Server.Version.Laws.{highest, determine_version_lem}
use stomp.Server.HeartBeat.Laws.{get_heart_beat_bounds}
use stomp.Server.Conn.State.{Config, Conn, connected, connected_op, write}
use stomp.Server.Conn.Connect.{handle_connect, connect_response}
use stomp.Server.Conn.Handshake.{handle_connect-Connected}
use stomp.Client.Options.{ConnOptions, default_options, new_conn_options, new_frame}
use stomp.Client.Connect.{
  ClientConn, connect, connect_frame, host_or, accept_response, connection, version_of,
  heart_beat_of, receive, timeouts,
}

highest-check_supported :
    (l : List Bytes) (v : Bytes) → or_unknown (highest none l) ≡ ok v → check_supported v ≡ true
unfolding check_supported same
highest-check_supported l v e = ground arith

determine_version-check_supported :
    (f : Frame) (v : Bytes) → determine_version f ≡ ok v → check_supported v ≡ true
unfolding determine_version check_supported same
determine_version-check_supported f v e =
    elim (Option-cases (contains f.header Key.accept_version)) [
      | inl n ↦ ground (arith, determine_version_lem f)
      | inr (l, n) ↦
          ground (arith, determine_version_lem f, highest-check_supported (split b',' l) v)
    ]

version_of_lem : (v : Bytes) (r : Frame) → check_supported v ≡ true → version_of v r ≡ ok v
unfolding version_of check_supported same
version_of_lem [] r h = absurd (ground arith)
version_of_lem (c ∷ s) r h = rw (h) refl

heart_beat_of_lem :
    (co : ConnOptions) (x y : ℕ) (r : Frame)
    → x ≤ max_milliseconds
    → y ≤ max_milliseconds
    → heart_beat_of co (some (show_heart_beat x y)) r
      ≡ ok (timeouts co (x * millisecond, y * millisecond))
unfolding heart_beat_of
heart_beat_of_lem co x y r hx hy = ground (arith, parse_heart_beat-show_heart_beat x y)

-- The client takes the server's response, with a version that it knows and heart-beats that fit.
accept-connect_response :
    (co : ConnOptions) (v : Bytes) (cx cy : ℕ)
    → check_supported v ≡ true
    → cx ≤ max_milliseconds
    → cy ≤ max_milliseconds
    → accept_response co (connect_response v cx cy)
      ≡ ok (
          connection co
            (connect_response v cx cy)
            v
            (timeouts co (cy * millisecond, cx * millisecond)))
unfolding accept_response connect_response same get contains new
accept-connect_response co v cx cy k hx hy =
    rw
      (
        version_of_lem v (connect_response v cx cy) k,
        heart_beat_of_lem co cy cx (connect_response v cx cy) hy hx,
      )
      refl

at_least_bound : (m x b : ℕ) → m ≤ b → x ≤ b → at_least m x ≤ b
unfolding at_least
at_least_bound m x b h k = ground arith

as_milliseconds_bound : (d b : ℕ) → as_milliseconds d b ≤ b
unfolding as_milliseconds
as_milliseconds_bound d b = ground arith

-- What the server's handshake wrote.
handle_connect-writes :
    (cfg : Config) (c c' : Conn) (f f' : Frame) (n : ℕ)
    → c.room ≡ suc n
    → handle_connect cfg c f ≡ ok (c', f', ok tt)
    → (cx cy : ℕ) × (cx ≤ max_heart_beat)
      × (cy ≤ max_heart_beat)
      × (c'.written ≡ c.written ++ some (connect_response c'.version cx cy) ∷ [])
unfolding handle_connect write
handle_connect-writes cfg c c' f f' n room e =
    let k = handle_connect-Connected cfg c c' f f' e in
    let (x, y, b, _) = k.beats in
    let m = as_milliseconds cfg.heart_beat max_heart_beat in
    let (bx, by) = get_heart_beat_bounds f x y b in
    let bm = as_milliseconds_bound cfg.heart_beat max_heart_beat in
    (
      at_least m x,
      at_least m y,
      at_least_bound m x _ bm bx,
      at_least_bound m y _ bm by,
      ground (arith, k.no_receipt, k.authentic, k.version, k.not_v10),
    )

-- If the server's handshake succeeds and the network takes its response, the response is one frame, and
-- the client, with whatever options, takes it: its connection is open, with the version that the server
-- keeps and the server's name.
pub handle_connect-accepted :
    (cfg : Config) (c c' : Conn) (f f' : Frame) (n : ℕ) (co : ConnOptions)
    → c.room ≡ suc n
    → handle_connect cfg c f ≡ ok (c', f', ok tt)
    → (r : Frame) × (conn : ClientConn) × (c'.written ≡ c.written ++ some r ∷ [])
      × (receive co (ok (some r)) ≡ ok conn)
      × (conn.version ≡ c'.version)
      × (conn.server ≡ codes "stompd/x.y.z")
      × (conn.closed ≡ false)
unfolding receive connect_response get contains new same
handle_connect-accepted cfg c c' f f' n co room e =
    let k = handle_connect-Connected cfg c c' f f' e in
    let (cx, cy, hx, hy, w) = handle_connect-writes cfg c c' f f' n room e in
    let r = connect_response c'.version cx cy in
    (
      r,
      connection co r c'.version (timeouts co (cy * millisecond, cx * millisecond)),
      w,
      accept-connect_response co c'.version cx cy
          (determine_version-check_supported f c'.version k.version) (omega arith) (omega arith),
      refl,
      refl,
      refl,
    )

-- The frame of a client with the options that come by themselves; `remote` is the host of its network
-- connection.
abbrev pub plain_options : Bytes → ConnOptions
plain_options remote = record default_options {
  host = host_or [] remote;
  accept_versions = v10 ∷ v11 ∷ v12 ∷ [];
}

abbrev plain_frame : Bytes → Frame
plain_frame host = new Command.connect (
    (Key.host, host)
    ∷ (Key.heart_beat, codes "60000,60000")
    ∷ (Key.accept_version, codes "1.0,1.1,1.2")
    ∷ [])

plain-new_frame :
    (remote : Bytes) → new_frame (plain_options remote) ≡ plain_frame (host_or [] remote)
unfolding new_frame host_or same new contains set format_int join is_negative quot format_uint
plain-new_frame [] = refl
plain-new_frame (c ∷ s) = refl

-- What the server reads in that frame.
plain_reads :
    (host : Bytes)
    → (determine_version (plain_frame host) ≡ ok v12)
      × (get_heart_beat (plain_frame host) ≡ ok (60000, 60000))
unfolding determine_version get_heart_beat sort_strings last_known split same contains new le_bytes
    heart_beat_regexp parse_uint parse_digits
plain_reads host = (refl, refl)

plain-handle_connect :
    (cfg : Config) (c : Conn) (n : ℕ) (host : Bytes)
    → cfg.authenticate [] [] ≡ true
    → c.room ≡ suc n
    → (c' : Conn) × (handle_connect cfg c (plain_frame host) ≡ ok (c', plain_frame host, ok tt))
unfolding handle_connect write contains same new
plain-handle_connect cfg c n host a room =
    let beat = at_least (as_milliseconds cfg.heart_beat max_heart_beat) 60000 in
    let c' : Conn = record c {
      version = v12;
      write_timeout = beat * millisecond;
      written = c.written ++ some (connect_response v12 beat beat) ∷ [];
      room = n;
      state_func = connected;
      requests = c.requests ++ connected_op c.number ∷ [];
    } in
    (c', ground (arith, plain_reads host))

-- A client that connects without options: the server, if it lets in a client without a login, takes its
-- frame, and the response that the server writes, if the network takes it, makes the client's Connect
-- return a connection; both ends then have version 1.2.
pub connect-handle_connect :
    (cfg : Config) (c : Conn) (n : ℕ) (remote : Bytes)
    → cfg.authenticate [] [] ≡ true
    → c.room ≡ suc n
    → (f : Frame) × (c' : Conn) × (r : Frame) × (conn : ClientConn) × (connect_frame [] remote
        ≡ ok (plain_options remote, f))
      × (handle_connect cfg c f ≡ ok (c', f, ok tt))
      × (c'.written ≡ c.written ++ some r ∷ [])
      × (connect [] remote (λ g. ok (ok (some r))) ≡ ok conn)
      × (c'.version ≡ v12)
      × (conn.version ≡ v12)
unfolding connect connect_frame new_conn_options
connect-handle_connect cfg c n remote a room =
    let host = host_or [] remote in
    let (c', h) = plain-handle_connect cfg c n host a room in
    let k = handle_connect-Connected cfg c c' (plain_frame host) (plain_frame host) h in
    let (r, conn, w, e, v, s, o) =
      handle_connect-accepted cfg c c' (plain_frame host) (plain_frame host) n
        (plain_options remote) room h in
    let version : c'.version ≡ v12 = ground (arith, k.version, plain_reads host) in
    (
      plain_frame host,
      c',
      r,
      conn,
      ap (λ f. ok (plain_options remote, f)) (plain-new_frame remote),
      h,
      w,
      e,
      version,
      v ∙ version,
    )
