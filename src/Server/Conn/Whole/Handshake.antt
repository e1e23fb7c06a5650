-- ===== src/Server/Conn/Whole/Handshake.antt =====
-- The handshake in the runs of a connection of server/client/conn.go.
use stomp.Prelude.{
  ℕ, ◌≡◌, refl, sym, ap, subst, ◌∙◌, true, false, List, [], ◌∷◌, ◌++◌, Option, some, arith, inl,
  inr, All, All-append, append_assoc, same,
}
use stomp.Go.Result.{ok, err, Result-cases}
use stomp.Frame.Header.{Bytes, contains, or_empty}
use stomp.Frame.Key
use stomp.Frame.Base.{Frame}
use stomp.Server.Version.{v10}
use stomp.Server.Conn.State.{Request, requeue_op, connected_op, connecting, connected, Config, Conn}
use stomp.Server.Conn.Connect.{handle_connect}
use stomp.Server.Conn.Handshake.{handle_connect-Connected}
use stomp.Server.Conn.Dispatch.{connecting_func, connected_func, run_state_func}
use stomp.Server.Conn.Loop.{on_read_channel, on_sub_channel}
use stomp.Server.Conn.Whole.{
  new_conn, Step, write_channel, read_channel, sub_channel, timer, upper_layer, Reach, started,
  step,
}
use stomp.Server.Conn.Whole.Later.{Later, Later-refl}
use stomp.Server.Conn.Whole.Handlers.{connected_func-Keeps}
use stomp.Server.Conn.Whole.Quiet.{
  Quiet, Quiet-Later, on_write_channel-Quiet, on_timer-Quiet, on_sub_channel-Later,
  on_sub_channel-requeue,
}

-- A request that gives a frame back.
abbrev pub IsRequeue : Request → Type 0
IsRequeue r = (o : Option Frame) × (r ≡ requeue_op o)

-- What a handshake leaves for good.
pub record Welcome (cfg : Config) (c : Conn) : Type 0 where
  pub authentic : (login passcode : Bytes) × (cfg.authenticate login passcode ≡ true)
  pub not_v10 : same c.version v10 ≡ false
  pub told :
      (before after : List Request) × (c.requests ≡ before ++ connected_op c.number ∷ after)
      × All IsRequeue before

-- Before the handshake, and after it.
pub data Phase (cfg : Config) (c : Conn) : Type 0 where
  early : c.state_func ≡ connecting → c.subs ≡ some [] → All IsRequeue c.requests → Phase cfg c
  late : c.state_func ≡ connected → Welcome cfg c → Phase cfg c

Welcome-Later : (cfg : Config) (c c' : Conn) → Welcome cfg c → Later c c' → Welcome cfg c'
Welcome-Later cfg c c' w l =
    let (before, after, e, back) = w.told in
    let (more, q) = l.requests in
    record {
      authentic = w.authentic;
      not_v10 = ap (λ v. same v v10) l.version ∙ w.not_v10;
      told = (
        before,
        after ++ more,
        q
            ∙ ap (λ r. r ++ more) e
            ∙ append_assoc before (connected_op c.number ∷ after) more
            ∙ ap (λ n. before ++ connected_op n ∷ (after ++ more)) (sym l.number),
        back,
      );
    }

Phase-Later :
    (cfg : Config) (c c' : Conn)
    → c.state_func ≡ connected
    → Welcome cfg c
    → Later c c'
    → Phase cfg c'
Phase-Later cfg c c' s w l = late (l.state_func ∙ s) (Welcome-Later cfg c c' w l)

Phase-Quiet : (cfg : Config) (c c' : Conn) → Phase cfg c → Quiet c c' → Phase cfg c'
Phase-Quiet cfg c c' (early s b r) q =
    early (q.state_func ∙ s) (q.subs ∙ b) (subst (All IsRequeue) (sym q.requests) r)
Phase-Quiet cfg c c' (late s w) q = Phase-Later cfg c c' s w (Quiet-Later c c c' (Later-refl c) q)

-- A frame that the loop goes on behind was accepted.
accepted :
    (cfg : Config) (c c' : Conn) (f : Frame)
    → on_read_channel cfg c f ≡ ok (c', true)
    → (g : Frame) × (run_state_func cfg c f ≡ ok (c', g, ok tt))
unfolding on_read_channel
accepted cfg c c' f e = elim (Result-cases (run_state_func cfg c f)) [
  | inr (p, q) ↦ absurd (ground arith)
  | inl ((d, g, ok tt), q) ↦ (g, ground arith)
  | inl ((d, g, err x), q) ↦ absurd (ground arith)
]

accepted_early :
    (cfg : Config) (c c' : Conn) (f g : Frame)
    → c.state_func ≡ connecting
    → run_state_func cfg c f ≡ ok (c', g, ok tt)
    → handle_connect cfg c f ≡ ok (c', g, ok tt)
unfolding run_state_func connecting_func
accepted_early cfg c c' f g s e = ground arith

Phase-read :
    (cfg : Config) (c c' : Conn) (f : Frame)
    → Phase cfg c
    → on_read_channel cfg c f ≡ ok (c', true)
    → Phase cfg c'
Phase-read cfg c c' f (early s b r) e =
    let (g, q) = accepted cfg c c' f e in
    let k = handle_connect-Connected cfg c c' f g (accepted_early cfg c c' f g s q) in
    late k.state (record {
      authentic = (
        or_empty (contains f.header Key.login),
        or_empty (contains f.header Key.passcode),
        k.authentic,
      );
      not_v10 = k.not_v10;
      told =
          (c.requests, [], k.told ∙ ap (λ n. c.requests ++ connected_op n ∷ []) (sym k.number), r);
    })
Phase-read cfg c c' f (late s w) e =
    let (g, q) = accepted cfg c c' f e in
    let runs : connected_func c f ≡ ok (c', g, ok tt) = unfold run_state_func in ground arith in
    Phase-Later cfg c c' s w (rw runs at (connected_func-Keeps c c f (Later-refl c)))

Phase-sub :
    (cfg : Config) (c c' : Conn) (r : ℕ)
    → Phase cfg c
    → on_sub_channel c r ≡ ok (c', true)
    → Phase cfg c'
Phase-sub cfg c c' r (early s b q) e =
    let back = requeue_op ((c.heap r).frame) in
    let c_eq : record c { requests = c.requests ++ back ∷ [] } ≡ c' =
      ground (arith, on_sub_channel-requeue c r b) in
    subst (Phase cfg) c_eq
      (early s b (All-append IsRequeue c.requests (back ∷ []) q (((c.heap r).frame, refl), tt)))
Phase-sub cfg c c' r (late s w) e = Phase-Later cfg c c' s w (on_sub_channel-Later c c' r true e)

Phase-Step : (cfg : Config) (c c' : Conn) → Phase cfg c → Step cfg c c' → Phase cfg c'
Phase-Step cfg c c' h (write_channel _ _ f e) =
    Phase-Quiet cfg c c' h (on_write_channel-Quiet c c' f true e)
Phase-Step cfg c c' h (read_channel _ _ f e) = Phase-read cfg c c' f h e
Phase-Step cfg c c' h (sub_channel _ _ r e) = Phase-sub cfg c c' r h e
Phase-Step cfg c c' h (timer _ _ e) = Phase-Quiet cfg c c' h (on_timer-Quiet c c' true e)
Phase-Step cfg c _ h (upper_layer _ heap next_sub) =
    Phase-Quiet cfg c (record c { heap = heap; next_sub = next_sub }) h
      (record {
        number = refl;
        state_func = refl;
        version = refl;
        write_timeout = refl;
        requests = refl;
        subs = refl;
      })

-- While the loop of a connection goes on, from its start and whatever its client sends: as long as the
-- connection is not connected it has no subscription, and has asked the upper layer for nothing but to
-- take frames back; once it is connected, some login and passcode were found authentic, its version is
-- not 1.0, and it told the upper layer of itself before all else that it asked for but such frames.
pub Reach-Phase : (cfg : Config) (c : Conn) → Reach cfg c → Phase cfg c
unfolding new_conn
Reach-Phase cfg _ (started number heap next_sub room) = early refl refl tt
Reach-Phase cfg c' (step c _ r s) = Phase-Step cfg c c' (Reach-Phase cfg c r) s
