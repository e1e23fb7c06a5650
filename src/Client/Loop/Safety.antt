-- ===== src/Client/Loop/Safety.antt =====
-- `processLoop` of conn.go: its sends and its closes of channels.
use stomp.Prelude.{
  ℕ, zero, suc, ◌+◌, ◌≤◌, ◌<◌, ◌≡◌, refl, sym, subst, Bool, true, false, List, [], ◌∷◌, ◌++◌,
  Option, none, some, same, if◌then◌else◌, arith, All, All-map, ◌==◌, Bool-cases, inl, inr,
}
use stomp.Go.Map
use stomp.Go.Map.{Map}
use stomp.Frame.Command
use stomp.Frame.Key
use stomp.Frame.Header.{Bytes, contains}
use stomp.Frame.Base.{Frame}
use stomp.Client.Connect.{WriteRequest}
use stomp.Client.Loop.{
  Loop, new_loop, Round, goes_on, returned, stuck, unread, panics, Event, read_timeout,
  write_timeout, read_closed, heart_beat, frame_read, write_closed, request, gives_up, member,
  send_on, close_chan, leave, send_each, send_error, send_and_close, receipt_by, receipt_for,
  message_by, message_for, on_frame, write_then, remember, drop_reply, subscribing, unsubscribing,
  on_request, round, rounds, reply_to_header,
}
use stomp.Client.Loop.Channels.{
  UsableMap, UsableMap-mono, UsableMap-close, UsableMap-lookup, lookup-open, UsableMap-drop,
  UsableMap-insert,
}

-- The request of a call: its channel, if it has one, is new; one with SUBSCRIBE has a channel, and no
-- receipt entry.
unfoldable pub IsRegular : ℕ → WriteRequest → Type 0
IsRegular n req = elim req.chan [
  | none ↦ same req.frame.command Command.subscribe ≡ false
  | some ch ↦
      (n ≤ ch)
      × (same req.frame.command Command.subscribe ≡ true
          → contains req.frame.header Key.receipt ≡ none)
]

-- The number behind those of an event's channel.
unfoldable pub after : ℕ → Event → ℕ
after n (request req) = elim req.chan [ none ↦ n | some ch ↦ ch + 1 ]
after n read_timeout = n
after n write_timeout = n
after n read_closed = n
after n heart_beat = n
after n (frame_read f) = n
after n write_closed = n
after n (gives_up ch) = n

remember-none :
    (ch : ℕ) (f : Frame) (l : Loop)
    → contains f.header Key.receipt ≡ none
    → remember (record { frame = f; chan = some ch }) l ≡ l
unfolding remember
remember-none ch f l e = rw (e, remember) refl

module _ (gone : List ℕ) where
  -- The channels that were closed and those of the map are below `n`; those of the map are open, and each
  -- stands under one key; those whose readers went away are among `gone`.
  pub IsUsable : ℕ → Loop → Type 0
  IsUsable n l =
      All (λ c. c < n) l.closed
      × UsableMap n l.closed l.channels
      × All (λ c. member c gone ≡ true) l.left

  -- The loop goes on as it should, has returned, or waits at one of the channels `gone`.
  pub Fine : ℕ → Round → Type 0
  unfolding IsUsable
  Fine n (goes_on l) = IsUsable n l
  Fine n (returned l) = Unit {0}
  Fine n stuck = ⊥
  Fine n (unread ch l) = member ch gone ≡ true
  Fine n (panics p) = ⊥

  unfoldable pub IsRegularEvent : ℕ → Event → Type 0
  unfolding IsRegular
  IsRegularEvent n (request req) = IsRegular n req
  IsRegularEvent n read_timeout = Unit {0}
  IsRegularEvent n write_timeout = Unit {0}
  IsRegularEvent n read_closed = Unit {0}
  IsRegularEvent n heart_beat = Unit {0}
  IsRegularEvent n (frame_read f) = Unit {0}
  IsRegularEvent n write_closed = Unit {0}
  IsRegularEvent n (gives_up ch) = member ch gone ≡ true

  member-All :
      (ch : ℕ) (l : List ℕ)
      → member ch l ≡ true
      → All (λ c. member c gone ≡ true) l
      → member ch gone ≡ true
  member-All ch [] e w = absurd (ground arith)
  member-All ch (c ∷ l) e w = elim (Bool-cases (c == ch)) [
    | inl hit ↦ let same_ch : c ≡ ch = ground arith in subst (λ k. member k gone ≡ true) same_ch w.0
    | inr miss ↦ member-All ch l (ground arith) w.1
  ]

  if_left-Fine :
      (n ch : ℕ) (l : Loop) (b : Bool) (y : Round)
      → member ch l.left ≡ b
      → All (λ c. member c gone ≡ true) l.left
      → Fine n y
      → Fine n (if b then unread ch l else y)
  unfolding Fine
  if_left-Fine n ch l true y e w h = member-All ch l.left e w
  if_left-Fine n ch l false y e w h = h

  -- A send on an open channel.
  send_on-Fine :
      (n ch : ℕ) (f : Frame) (l : Loop) (next : Loop → Round)
      → member ch l.closed ≡ false
      → All (λ c. member c gone ≡ true) l.left
      → Fine n (next (record l { sent = l.sent ++ (ch, f) ∷ [] }))
      → Fine n (send_on (some ch) f l next)
  unfolding send_on
  send_on-Fine n ch f l next e w h = rw e (if_left-Fine n ch l (member ch l.left) _ refl w h)

  send_each-Fine :
      (n : ℕ) (m : Map (Option ℕ)) (f : Frame) (l : Loop) (next : Loop → Round)
      → UsableMap n l.closed m
      → All (λ c. member c gone ≡ true) l.left
      → ((l' : Loop) → Fine n (next l'))
      → Fine n (send_each m f l next)
  unfolding send_each UsableMap
  send_each-Fine n [] f l next h w k = k l
  send_each-Fine n ((key, none) ∷ m) f l next h w k = absurd h
  send_each-Fine n ((key, some ch) ∷ m) f l next h w k =
      send_on-Fine n ch f l (λ l'. send_each m f l' next) h.1 w
        (send_each-Fine n m f (record l { sent = l.sent ++ (ch, f) ∷ [] }) next h.3 w k)

  send_and_close-Fine :
      (n : ℕ) (m : Map (Option ℕ)) (f : Frame) (l : Loop) (next : Loop → Round)
      → UsableMap n l.closed m
      → All (λ c. member c gone ≡ true) l.left
      → ((l' : Loop) → Fine n (next l'))
      → Fine n (send_and_close m f l next)
  unfolding send_and_close close_chan UsableMap
  send_and_close-Fine n [] f l next h w k = k l
  send_and_close-Fine n ((key, none) ∷ m) f l next h w k = absurd h
  send_and_close-Fine n ((key, some ch) ∷ m) f l next h w k =
      send_on-Fine n ch f l (λ l'. close_chan (some ch) l' (λ l''. send_and_close m f l'' next)) h.1
        w
        (rw (h.1) (send_and_close-Fine n m f _ next (UsableMap-close n ch l.closed m h.2 h.3) w k))

  send_error-Fine : (n : ℕ) (text : Bytes) (l : Loop) → IsUsable n l → Fine n (send_error text l)
  unfolding send_error IsUsable Fine
  send_error-Fine n text l h = send_each-Fine n l.channels _ l leave h.1 h.2 (λ l'. tt)

  elim-Fine :
      (n room : ℕ) (x : Round) (g : ℕ → Round)
      → Fine n x
      → ((k : ℕ) → Fine n (g k))
      → Fine n (elim room [ zero ↦ x | suc k ↦ g k ])
  elim-Fine n zero x g h k = h
  elim-Fine n (suc room) x g h k = k room

  if-Fine : (n : ℕ) (b : Bool) (x y : Round) → Fine n x → Fine n y → Fine n (if b then x else y)
  if-Fine n true x y h k = h
  if-Fine n false x y h k = k

  write_then-Fine :
      (n : ℕ) (failure : Bytes) (f : Option Frame) (l : Loop)
      → IsUsable n l
      → Fine n (write_then failure f l goes_on)
  unfolding write_then IsUsable Fine
  write_then-Fine n failure f l h = elim-Fine n l.room _ _ (send_error-Fine n failure l h) (λ k. h)

  receipt_by-Fine :
      (n : ℕ) (id : Bytes) (f : Frame) (l : Loop)
      → IsUsable n l
      → (o : Option (Option ℕ)) → Map.lookup l.channels id ≡ o
      → Fine n (receipt_by id f l o)
  unfolding receipt_by close_chan IsUsable Fine
  receipt_by-Fine n id f l h none e = h
  receipt_by-Fine n id f l h (some none) e =
      absurd (UsableMap-lookup n l.closed l.channels id h.1 e)
  receipt_by-Fine n id f l h (some (some ch)) e =
      let o = lookup-open n ch l.closed l.channels id h.1 e in
      send_on-Fine n ch f l
        (λ l'. close_chan (some ch) (record l' { channels = Map.delete l'.channels id }) goes_on)
        o.0 h.2 (rw (o.0) ((o.1, h.0), UsableMap-drop n ch l.closed l.channels id h.1 e, h.2))

  receipt_for-Fine :
      (n : ℕ) (f : Frame) (l : Loop)
      → IsUsable n l
      → (o : Option Bytes) → Fine n (receipt_for f l o)
  unfolding receipt_for
  receipt_for-Fine n f l h none = send_error-Fine n _ l h
  receipt_for-Fine n f l h (some id) = receipt_by-Fine n id f l h _ refl

  message_by-Fine :
      (n : ℕ) (id : Bytes) (f : Frame) (l : Loop)
      → IsUsable n l
      → (o : Option (Option ℕ)) → Map.lookup l.channels id ≡ o
      → Fine n (message_by f l o)
  unfolding message_by IsUsable Fine
  message_by-Fine n id f l h none e = h
  message_by-Fine n id f l h (some none) e =
      absurd (UsableMap-lookup n l.closed l.channels id h.1 e)
  message_by-Fine n id f l h (some (some ch)) e =
      send_on-Fine n ch f l goes_on (lookup-open n ch l.closed l.channels id h.1 e).0 h.2 h

  message_for-Fine :
      (n : ℕ) (f : Frame) (l : Loop)
      → IsUsable n l
      → (o : Option Bytes) → Fine n (message_for f l o)
  unfolding message_for Fine
  message_for-Fine n f l h none = h
  message_for-Fine n f l h (some id) = message_by-Fine n id f l h _ refl

  on_frame-Fine : (n : ℕ) (f : Frame) (l : Loop) → IsUsable n l → Fine n (on_frame f l)
  unfolding on_frame IsUsable Fine
  on_frame-Fine n f l h =
      if-Fine n (same f.command Command.receipt) _ _ (receipt_for-Fine n f l h _) (
        if-Fine n (same f.command Command.error) _ _
          (send_and_close-Fine n l.channels f l _ h.1 h.2 (λ l'. tt))
          (if-Fine n (same f.command Command.message) _ _ (message_for-Fine n f l h _) h))

  IsUsable-mono : (n n' : ℕ) (l : Loop) → n ≤ n' → IsUsable n l → IsUsable n' l
  unfolding IsUsable
  IsUsable-mono n n' l k h = (
    All-map (λ c. c < n) (λ c. c < n') l.closed (λ c x. omega arith) h.0,
    UsableMap-mono n n' l.closed l.channels k h.1,
    h.2,
  )

  -- A key that was not there, or whose channel is replaced.
  insert-IsUsable :
      (n ch : ℕ) (key : Bytes) (l : Loop)
      → n ≤ ch
      → IsUsable n l
      → IsUsable (ch + 1) (record l { channels = Map.insert l.channels key (some ch) })
  unfolding IsUsable
  insert-IsUsable n ch key l k h = (
    All-map (λ c. c < n) (λ c. c < ch + 1) l.closed (λ c x. omega arith) h.0,
    UsableMap-insert n ch l.closed l.channels key h.0 k h.1,
    h.2,
  )

  drop_reply-Fine :
      (n : ℕ) (reply_to : Bytes) (l : Loop)
      → IsUsable n l
      → (o : Option (Option ℕ)) → Map.lookup l.channels reply_to ≡ o
      → Fine n (drop_reply reply_to l o)
  unfolding drop_reply close_chan IsUsable Fine
  drop_reply-Fine n id l h none e = h
  drop_reply-Fine n id l h (some none) e = absurd (UsableMap-lookup n l.closed l.channels id h.1 e)
  drop_reply-Fine n id l h (some (some ch)) e =
      let o = lookup-open n ch l.closed l.channels id h.1 e in
      rw (o.0) ((o.1, h.0), UsableMap-drop n ch l.closed l.channels id h.1 e, h.2)

  unsubscribing-Fine :
      (n : ℕ) (failure : Bytes) (req : WriteRequest) (l : Loop)
      → IsUsable n l
      → (o : Option Bytes) → Fine n (unsubscribing failure req l o)
  unfolding unsubscribing
  unsubscribing-Fine n failure req l h none = write_then-Fine n failure _ l h
  unsubscribing-Fine n failure req l h (some reply_to) = drop_reply-Fine n reply_to l h _ refl

  subscribing-Fine :
      (n ch : ℕ) (failure : Bytes) (f : Frame) (l : Loop)
      → n ≤ ch
      → IsUsable n l
      → (o : Option Bytes)
      → Fine (ch + 1) (subscribing failure (record { frame = f; chan = some ch }) l o)
  unfolding subscribing Fine
  subscribing-Fine n ch failure f l k h (some reply_to) = insert-IsUsable n ch reply_to l k h
  subscribing-Fine n ch failure f l k h none =
      write_then-Fine (ch + 1) failure _ _ (insert-IsUsable n ch _ l k h)

  -- What follows the switch for a frame that is not SUBSCRIBE.
  other-Fine :
      (n : ℕ) (failure : Bytes) (req : WriteRequest) (l : Loop)
      → IsUsable n l
      → Fine n (
          if same req.frame.command Command.unsubscribe
          then unsubscribing failure req l (contains req.frame.header reply_to_header)
          else write_then failure (some req.frame) l goes_on)
  other-Fine n failure req l h =
      if-Fine n (same req.frame.command Command.unsubscribe) _ _
        (unsubscribing-Fine n failure req l h _) (write_then-Fine n failure _ l h)

  if_so-Fine :
      (n : ℕ) (b : Bool) (x y : Round)
      → (b ≡ true → Fine n x)
      → Fine n y
      → Fine n (if b then x else y)
  if_so-Fine n true x y h k = h refl
  if_so-Fine n false x y h k = k

  remember-IsUsable :
      (n ch : ℕ) (f : Frame) (l : Loop)
      → n ≤ ch
      → IsUsable n l
      → IsUsable (ch + 1) (remember (record { frame = f; chan = some ch }) l)
  unfolding remember
  remember-IsUsable n ch f l k h =
      elim (contains f.header Key.receipt)
        as (λ o. IsUsable (ch + 1) (elim o [
          | none ↦ l
          | some receipt ↦ record l { channels = Map.insert l.channels receipt (some ch) }
        ])) [
          | none ↦ IsUsable-mono n (ch + 1) l (omega arith) h
          | some receipt ↦ insert-IsUsable n ch receipt l k h
        ]

  on_request-Fine :
      (n : ℕ) (failure : Bytes) (f : Frame) (chan : Option ℕ) (l : Loop)
      → IsUsable n l
      → IsRegular n (record { frame = f; chan = chan })
      → Fine
          (after n (request (record { frame = f; chan = chan })))
          (on_request failure (record { frame = f; chan = chan }) l)
  unfolding on_request remember IsRegular after
  on_request-Fine n failure f none l h k =
      if_so-Fine n (same f.command Command.subscribe) _ _ (λ e. absurd (ground (arith, k, e)))
        (other-Fine n failure (record { frame = f; chan = none }) l h)
  on_request-Fine n failure f (some ch) l h k =
      let req : WriteRequest = record { frame = f; chan = some ch } in
      if_so-Fine (ch + 1) (same f.command Command.subscribe) _ _
        (λ e.
          subscribing-Fine n ch failure f (remember req l) k.0
            (subst (IsUsable n) (sym (remember-none ch f l (k.1 e))) h) _)
        (other-Fine (ch + 1) failure req (remember req l) (remember-IsUsable n ch f l k.0 h))

  -- A round that an event wakes up.
  pub round-Fine :
      (n : ℕ) (failure : Bytes) (l : Loop) (e : Event)
      → IsUsable n l
      → IsRegularEvent n e
      → Fine (after n e) (round failure l e)
  unfolding round Fine after IsRegularEvent
  round-Fine n failure l read_timeout h k = send_error-Fine n _ l h
  round-Fine n failure l write_timeout h k = write_then-Fine n failure none l h
  round-Fine n failure l read_closed h k = send_error-Fine n _ l h
  round-Fine n failure l heart_beat h k = h
  round-Fine n failure l (frame_read f) h k = on_frame-Fine n f l h
  round-Fine n failure l write_closed h k = send_error-Fine n _ l h
  round-Fine n failure l (gives_up ch) h k = unfold IsUsable in (h.0, h.1, (k, h.2))
  round-Fine n failure l (request req) h k = on_request-Fine n failure req.frame req.chan l h k

  -- The events of a connection whose calls make new channels, in the order of the requests.
  unfoldable pub AreRegular : ℕ → List Event → Type 0
  unfolding IsRegularEvent after
  AreRegular n [] = Unit {0}
  AreRegular n (e ∷ es) = IsRegularEvent n e × AreRegular (after n e) es

  -- What the loop may come to: it still waits for events, has returned, or waits to send on
  -- one of the channels `gone`.
  unfoldable pub IsAlive : Round → Type 0
  IsAlive (goes_on l) = Unit {0}
  IsAlive (returned l) = Unit {0}
  IsAlive stuck = ⊥
  IsAlive (unread ch l) = member ch gone ≡ true
  IsAlive (panics p) = ⊥

  rounds-next :
      (n : ℕ) (failure : Bytes) (es : List Event) (x : Round)
      → Fine n x
      → ((l : Loop) → IsUsable n l → IsAlive (rounds failure l es))
      → IsAlive (elim x [
        | goes_on l ↦ rounds failure l es
        | returned l ↦ returned l
        | stuck ↦ stuck
        | unread ch l ↦ unread ch l
        | panics p ↦ panics p
      ])
  unfolding Fine IsAlive
  rounds-next n failure es (goes_on l) h k = k l h
  rounds-next n failure es (returned l) h k = tt
  rounds-next n failure es stuck h k = h
  rounds-next n failure es (unread ch l) h k = h
  rounds-next n failure es (panics p) h k = h

  rounds_from-IsAlive :
      (n : ℕ) (failure : Bytes) (l : Loop) (es : List Event)
      → IsUsable n l
      → AreRegular n es
      → IsAlive (rounds failure l es)
  unfolding rounds AreRegular IsAlive
  rounds_from-IsAlive n failure l [] h k = tt
  rounds_from-IsAlive n failure l (e ∷ es) h k =
      rounds-next (after n e) failure es (round failure l e) (round-Fine n failure l e h k.0)
        (λ l' h'. rounds_from-IsAlive (after n e) failure l' es h' k.1)

  -- Whatever frames, timeouts and requests come to the loop of a new connection, and whichever of the
  -- channels `gone` lose their readers: it neither sends on a closed channel nor closes one twice, and it
  -- waits for ever only to send on one of those, as long as each request with a channel has a new one,
  -- each SUBSCRIBE request has a channel, and none of them has a receipt entry.
  pub new_loop-IsAlive :
      (failure : Bytes) (room : ℕ) (es : List Event)
      → AreRegular 0 es
      → IsAlive (rounds failure (new_loop room) es)
  unfolding new_loop IsUsable UsableMap
  new_loop-IsAlive failure room es h =
      rounds_from-IsAlive 0 failure (new_loop room) es (tt, tt, tt) h
