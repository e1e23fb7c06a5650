-- ===== src/Server/Conn/Keeps/Dispatch.antt =====
-- An invariant of every handler is one of the state function `connected`.
use stomp.Prelude.{◌≡◌, true, same, one_of, [], ◌∷◌}
use stomp.Frame.Command
use stomp.Frame.Header.{Bytes}
use stomp.Frame.Base.{Frame}
use stomp.Server.ClientError.{unexpected_command, unknown_command}
use stomp.Server.Conn.State.{Conn, Handler, fail}
use stomp.Server.Conn.Connect.{handle_disconnect}
use stomp.Server.Conn.Transact.{handle_begin, handle_abort, handle_commit}
use stomp.Server.Conn.Subscribe.{handle_subscribe, handle_unsubscribe}
use stomp.Server.Conn.Ack.{handle_ack, handle_nack, handle_send}
use stomp.Server.Conn.Dispatch.{connected_with}
use stomp.Server.Conn.Keeps.{After, Keeps}
use stomp.Server.Conn.Keeps.Acks.{if-Keeps, if-Keeps_given}

-- The invariant of a handler that runs on frames of one command only.
abbrev pub KeepsOn {κ} : (Conn → Frame → Type κ) → Bytes → Handler (Unit {0}) → Type κ
KeepsOn P command m =
    (c : Conn) (f : Frame) → same f.command command ≡ true → P c f → After P (m c f)

-- Each handler with its own invariant.
pub record HandlersKeep {κ} (P : Conn → Frame → Type κ) (run : Handler (Unit {0})) : Type κ where
  pub disconnects : Keeps P handle_disconnect
  pub begins : Keeps P handle_begin
  pub aborts : Keeps P handle_abort
  pub commits : Keeps P (handle_commit run)
  pub subscribes : Keeps P handle_subscribe
  pub unsubscribes : Keeps P handle_unsubscribe
  pub sends : KeepsOn P Command.send handle_send
  pub acks : KeepsOn P Command.ack handle_ack
  pub nacks : KeepsOn P Command.nack handle_nack

pub connected_with-Keeps {κ} :
    (P : Conn → Frame → Type κ) (run : Handler (Unit {0}))
    → HandlersKeep P run
    → Keeps P (connected_with run)
unfolding connected_with
connected_with-Keeps P run h =
    if-Keeps P (λ f. one_of f.command (Command.connect ∷ Command.stomp_connect ∷ []))
      (fail unexpected_command) _ (λ c f p. p)
      (if-Keeps P (λ f. same f.command Command.disconnect) handle_disconnect _ h.disconnects
        (if-Keeps P (λ f. same f.command Command.begin) handle_begin _ h.begins
          (if-Keeps P (λ f. same f.command Command.abort) handle_abort _ h.aborts
            (if-Keeps P (λ f. same f.command Command.commit) (handle_commit run) _ h.commits
              (if-Keeps_given P (λ f. same f.command Command.send) handle_send _ h.sends
                (if-Keeps P (λ f. same f.command Command.subscribe) handle_subscribe _ h.subscribes
                  (if-Keeps P (λ f. same f.command Command.unsubscribe) handle_unsubscribe _
                    h.unsubscribes
                    (if-Keeps_given P (λ f. same f.command Command.ack) handle_ack _ h.acks
                      (if-Keeps_given P (λ f. same f.command Command.nack) handle_nack _ h.nacks
                        (if-Keeps P
                          (λ f.
                            one_of f.command
                              (Command.message ∷ Command.receipt ∷ Command.error ∷ []))
                          (fail unexpected_command) (fail unknown_command) (λ c f p. p)
                          (λ c f p. p)))))))))))
