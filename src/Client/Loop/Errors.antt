-- ===== src/Client/Loop/Errors.antt =====
-- `processLoop` and `sendError` of conn.go: what the channels of the map receive when the loop ends.
use stomp.Prelude.{
  codes, ℕ, ◌≡◌, refl, sym, subst, All, if◌then◌else◌, Bool, true, false, List, [], ◌∷◌, ◌++◌,
  append_assoc, append-nil, Option, none, some, same,
}
use stomp.Go.Map
use stomp.Go.Map.{Map}
use stomp.Frame.Command
use stomp.Frame.Key
use stomp.Frame.Header.{Bytes}
use stomp.Frame.Base.{Frame, new}
use stomp.Client.Loop.{
  Loop, Round, goes_on, returned, stuck, unread, member, send_on, close_chan, leave, send_and_close,
  on_frame,
}
use stomp.Client.Loop.Channels.{UsableMap, UsableMap-close}

-- The channels of the map, in its order.
abbrev pub chans : Map (Option ℕ) → List ℕ
chans [] = []
chans ((key, none) ∷ m) = chans m
chans ((key, some ch) ∷ m) = ch ∷ chans m

-- Each with the frame that it receives.
abbrev pub each : Frame → List ℕ → List (ℕ × Frame)
each f [] = []
each f (ch ∷ l) = (ch, f) ∷ each f l

abbrev pub closing_all : List ℕ → List ℕ → List ℕ
closing_all [] cl = cl
closing_all (ch ∷ l) cl = closing_all l (ch ∷ cl)

-- The channels in front of the first one at which nobody reads, and that one.
abbrev stop_if : Bool → ℕ → List ℕ × Option ℕ → List ℕ × Option ℕ
stop_if true ch rest = ([], some ch)
stop_if false ch rest = (ch ∷ rest.0, rest.1)

abbrev pub up_to_left : List ℕ → List ℕ → List ℕ × Option ℕ
up_to_left left [] = ([], none)
up_to_left left (ch ∷ l) = stop_if (member ch left) ch (up_to_left left l)

-- The loop goes on from here, or waits at that channel.
abbrev pub then_at : Option ℕ → Loop → (Loop → Round) → Round
then_at none l next = next l
then_at (some ch) l next = unread ch l

-- At each of these channels someone reads.
abbrev pub AreRead : List ℕ → List ℕ → Type 0
AreRead left = All (λ ch. member ch left ≡ false)

send_and_close_lem :
    (n : ℕ) (m : Map (Option ℕ)) (f : Frame) (l : Loop) (next : Loop → Round)
    → UsableMap n l.closed m
    → AreRead l.left (chans m)
    → send_and_close m f l next
      ≡ next
          (record l { sent = l.sent ++ each f (chans m); closed = closing_all (chans m) l.closed })
unfolding send_and_close send_on close_chan UsableMap
send_and_close_lem n [] f l next h k = rw (append-nil l.sent) refl
send_and_close_lem n ((key, none) ∷ m) f l next h k = absurd h
send_and_close_lem n ((key, some ch) ∷ m) f l next h k =
    rw
      (
        h.1,
        k.0,
        send_and_close_lem n m f
            (record l { sent = l.sent ++ (ch, f) ∷ []; closed = ch ∷ l.closed }) next
            (UsableMap-close n ch l.closed m h.2 h.3) k.1,
        append_assoc l.sent ((ch, f) ∷ []) (each f (chans m)),
      )
      refl

-- As long as each channel of the map is open and stands under one key, and someone reads at it, an ERROR
-- frame goes to each of them, in the order of the map, each is closed, and the connection is shut.
pub on_frame-error :
    (n : ℕ) (f : Frame) (l : Loop)
    → UsableMap n l.closed l.channels
    → AreRead l.left (chans l.channels)
    → f.command ≡ Command.error
    → on_frame f l
      ≡ returned (record l {
        sent = l.sent ++ each f (chans l.channels);
        closed = closing_all (chans l.channels) l.closed;
        conn_closed = true;
      })
unfolding on_frame same
on_frame-error n f l h k e =
    subst
      (λ c.
        on_frame (record f { command = c }) l
        ≡ returned (record l {
          sent = l.sent ++ each (record f { command = c }) (chans l.channels);
          closed = closing_all (chans l.channels) l.closed;
          conn_closed = true;
        }))
      (sym e) (send_and_close_lem n l.channels (record f { command = Command.error }) l _ h k)

-- What a RECEIPT frame does, by its receipt-id and by what stands under it.
abbrev pub receipt_outcome : Frame → Loop → Option Bytes → Round
receipt_outcome f l none =
    let reached = up_to_left l.left (chans l.channels) in
    then_at reached.1
      (record l {
        sent =
            l.sent
            ++ each (new Command.error ((Key.message, codes "missing receipt-id") ∷ [])) reached.0;
      })
      leave
receipt_outcome f l (some id) = elim (Map.lookup l.channels id) [
  | none ↦ goes_on l
  | some none ↦ stuck
  | some (some ch) ↦
      if member ch l.left
      then unread ch l
      else goes_on (record l {
        sent = l.sent ++ (ch, f) ∷ [];
        closed = ch ∷ l.closed;
        channels = Map.delete l.channels id;
      })
]
