-- ===== src/Client/Frames.antt =====
-- The frames that the client makes: createSendFrame and createAckNackFrame of conn.go, and the options of
-- send_options.go and subscribe_options.go.
pub mod Acks
use stomp.Prelude.{
  ℕ, Bool, true, false, not, ◌&&◌, ◌||◌, List, [], ◌∷◌, Option, none, some, same, codes, length,
  if◌then◌else◌,
}
use stomp.Go.Result.{Result, ok, err, ◌>>=◌}
use stomp.Go.Number.{format_uint}
use stomp.Frame.Command
use stomp.Frame.Key
use stomp.Frame.Header.{Bytes, Header, contains, add}
use stomp.Frame.Base.{Frame, new, set, del}
use stomp.Server.Version.{v10, v11, v12, supports_nack}
use stomp.Client.Error.{
  Error, invalid_command, nack_not_supported, not_received_message, cannot_nack_auto_sub,
  missing_header, nil_option,
}
use stomp.Client.AckMode.{is_auto}
use stomp.Client.Id.{allocate_id}
use stomp.Client.Message.{Message, SubInfo}

-- What an option or a call gives: a result, and the counter of ids behind it.
abbrev pub WithIds : Type 0 → Type 0
WithIds A = ℕ → Result Error A × ℕ

-- An option changes the frame, may take an id, and may refuse.
abbrev pub FrameOpt : Type 0
FrameOpt = Frame → WithIds Frame

-- `SendOpt.Receipt`, `SendOpt.NoContentLength` and `SendOpt.Header`.
unfoldable pub receipt_opt : FrameOpt
receipt_opt f last =
    if not (same f.command Command.send)
    then (err invalid_command, last)
    else let id = allocate_id last in (ok (set f Key.receipt id.0), id.1)

unfoldable pub no_content_length_opt : FrameOpt
no_content_length_opt f last =
    if not (same f.command Command.send)
    then (err invalid_command, last)
    else (ok (del f Key.content_length), last)

unfoldable pub send_header_opt : Bytes → Bytes → FrameOpt
send_header_opt key value f last =
    if not (same f.command Command.send)
    then (err invalid_command, last)
    else (ok (record f { header = add f.header key value }), last)

-- `SubscribeOpt.Id` and `SubscribeOpt.Header`.
unfoldable pub id_opt : Bytes → FrameOpt
id_opt id f last =
    if not (same f.command Command.subscribe)
    then (err invalid_command, last)
    else (ok (set f Key.id id), last)

unfoldable pub subscribe_header_opt : Bytes → Bytes → FrameOpt
subscribe_header_opt key value f last =
    if not (same f.command Command.subscribe) && not (same f.command Command.unsubscribe)
    then (err invalid_command, last)
    else (ok (record f { header = add f.header key value }), last)

-- The loops over the options: a nil option is skipped, or refused by `Unsubscribe`.
unfoldable pub apply_opts : List (Option FrameOpt) → FrameOpt
apply_opts [] f last = (ok f, last)
apply_opts (none ∷ opts) f last = apply_opts opts f last
apply_opts (some opt ∷ opts) f last =
    let x = opt f last in elim x.0 [ err e ↦ (err e, x.1) | ok f' ↦ apply_opts opts f' x.1 ]

unfoldable pub apply_all_opts : List (Option FrameOpt) → FrameOpt
apply_all_opts [] f last = (ok f, last)
apply_all_opts (none ∷ opts) f last = (err nil_option, last)
apply_all_opts (some opt ∷ opts) f last =
    let x = opt f last in elim x.0 [ err e ↦ (err e, x.1) | ok f' ↦ apply_all_opts opts f' x.1 ]

-- The frame before the options.
unfoldable pub plain_send_frame : Bytes → Bytes → Bytes → Frame
plain_send_frame destination content_type body =
    let f = record (new Command.send ((Key.content_length, format_uint (length body)) ∷ [])) {
      body = body;
    } in
    let g = set f Key.destination destination in
    elim content_type [ [] ↦ g | c ∷ s ↦ set g Key.content_type (c ∷ s) ]

unfoldable pub create_send_frame : Bytes → Bytes → Bytes → List (Option FrameOpt) → WithIds Frame
unfolding apply_opts
create_send_frame destination content_type body opts =
    apply_opts opts (plain_send_frame destination content_type body)

-- An entry that is copied from the message, under a key of its own.
copy_entry : Bytes → Bytes → Header → Frame → Result Error Frame
copy_entry key from h f = elim (contains h from) [
  | none ↦ err (missing_header from)
  | some value ↦ ok (record f { header = add f.header key value })
]

-- The switch on the version.
refer : Bytes → SubInfo → Header → Frame → Result Error Frame
unfolding copy_entry
refer version sub h f =
    if same version v10 || same version v11
    then copy_entry Key.message_id Key.message_id h
        (record f { header = add f.header Key.subscription sub.id })
    else if same version v12
    then copy_entry Key.id Key.ack h f
    else ok f

-- With the header, the subscription and the connection of the message, where they are there.
ack_nack_of : Bytes → Bool → Option SubInfo → Option Header → Bool → Result Error (Option Frame)
unfolding refer
ack_nack_of version ack (some sub) (some h) true =
    if is_auto sub.ack_mode
    then (if ack then ok none else err cannot_nack_auto_sub)
    else refer version sub h (new (if ack then Command.ack else Command.nack) []) >>= λ f.
        ok (some f)
ack_nack_of version ack none h conn = err not_received_message
ack_nack_of version ack (some sub) none conn = err not_received_message
ack_nack_of version ack (some sub) (some h) false = err not_received_message

-- `none` is the nil frame: nothing is to be sent.
unfoldable pub create_ack_nack_frame : Bytes → Message → Bool → Result Error (Option Frame)
unfolding ack_nack_of
create_ack_nack_frame version msg ack =
    if not ack && not (supports_nack version)
    then err nack_not_supported
    else ack_nack_of version ack msg.subscription msg.header msg.conn
