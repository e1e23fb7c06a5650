-- ===== src/Server/Conn/Loop/Delivery.antt =====
-- How a message of a queue reaches the client.
use stomp.Prelude.{
  ℕ, suc, ◌+◌, ◌%◌, ◌^◌, ◌≡◌, refl, ◌∙◌, Bool, true, false, [], ◌∷◌, ◌++◌, none, some, same, arith,
  if◌then◌else◌,
}
use stomp.Go.Result.{ok}
use stomp.Go.Number.{format_uint}
use stomp.Frame.Command
use stomp.Frame.Key
use stomp.Frame.Header.{Bytes, contains}
use stomp.Frame.Header
use stomp.Frame.Header.Laws.{contains-set, contains-del}
use stomp.Frame.Base.{Frame, set, del}
use stomp.Server.Subscription.{Heap, store}
use stomp.Server.SubscriptionList
use stomp.Server.SubscriptionList.{mark}
use stomp.Server.Conn.State.{Conn, subscribe_op, write}
use stomp.Server.Conn.Subscribe.{lookup_sub}
use stomp.Server.Conn.Loop.{
  allocate_message_id, is_auto, deliver, after_write, sub_by, on_sub_channel,
}

-- The message with its number; a subscription that wants an acknowledgement gets it in the ack entry.
abbrev numbered : Frame → Bytes → Bool → Frame
numbered f n wants_ack =
    let g = set (set f Key.message_id n) Key.id n in
    if wants_ack then set g Key.ack n else del g Key.ack

numbered-message_id :
    (f : Frame) (n : Bytes) (b : Bool) → contains (numbered f n b).header Key.message_id ≡ some n
unfolding same
numbered-message_id f n true =
    contains-set (Header.set (Header.set f.header Key.message_id n) Key.id n) Key.ack n
      Key.message_id
    ∙ contains-set (Header.set f.header Key.message_id n) Key.id n Key.message_id
    ∙ contains-set f.header Key.message_id n Key.message_id
numbered-message_id f n false =
    contains-del (Header.set (Header.set f.header Key.message_id n) Key.id n) Key.ack Key.message_id
    ∙ contains-set (Header.set f.header Key.message_id n) Key.id n Key.message_id
    ∙ contains-set f.header Key.message_id n Key.message_id

numbered-subscription :
    (f : Frame) (n : Bytes) (b : Bool)
    → contains (numbered f n b).header Key.subscription ≡ contains f.header Key.subscription
unfolding same
numbered-subscription f n true =
    contains-set (Header.set (Header.set f.header Key.message_id n) Key.id n) Key.ack n
      Key.subscription
    ∙ contains-set (Header.set f.header Key.message_id n) Key.id n Key.subscription
    ∙ contains-set f.header Key.message_id n Key.subscription
numbered-subscription f n false =
    contains-del (Header.set (Header.set f.header Key.message_id n) Key.id n) Key.ack
      Key.subscription
    ∙ contains-set (Header.set f.header Key.message_id n) Key.id n Key.subscription
    ∙ contains-set f.header Key.message_id n Key.subscription

numbered-ack :
    (f : Frame) (n : Bytes) (b : Bool)
    → contains (numbered f n b).header Key.ack ≡ (if b then some n else none)
unfolding same
numbered-ack f n true =
    contains-set (Header.set (Header.set f.header Key.message_id n) Key.id n) Key.ack n Key.ack
numbered-ack f n false =
    contains-del (Header.set (Header.set f.header Key.message_id n) Key.id n) Key.ack Key.ack

-- The frame lies with the subscription, or none does.
abbrev kept : Heap → ℕ → Frame → Heap
kept h r g = store h r (record (h r) { frame = some g })

abbrev emptied : Heap → ℕ → Heap
emptied h r = store h r (record (h r) { frame = none })

-- What a message that went out has left: `g` is the frame on the network.
pub record Delivered (c : Conn) (r : ℕ) (f : Frame) (auto : Bool) : Type 0 where
  pub conn : Conn
  pub frame : Frame
  pub returns : on_sub_channel c r ≡ ok (conn, true)
  pub number : conn.last_msg_id ≡ (c.last_msg_id + 1) % 2 ^ 64
  pub written : conn.written ≡ c.written ++ some frame ∷ []
  pub body : frame.body ≡ f.body
  pub message_id : contains frame.header Key.message_id ≡ some (format_uint conn.last_msg_id)
  pub subscription : contains frame.header Key.subscription ≡ contains f.header Key.subscription
  pub ack :
      contains frame.header Key.ack ≡ (if auto then none else some (format_uint conn.last_msg_id))
  pub requests : conn.requests ≡ (if auto then c.requests ++ subscribe_op r ∷ [] else c.requests)
  pub sub_list : conn.sub_list ≡ (if auto then c.sub_list else c.sub_list ++ r ∷ [])
  pub pending : (conn.heap r).frame ≡ (if auto then none else some frame)

-- A MESSAGE frame that arrives with a subscription of the connection, which is in no list, while the
-- network takes a write: it is written with the next number as its message-id and with the
-- subscription entry and body that it had. In ack mode auto it has no ack entry, the frame leaves the
-- subscription, and the next message is requested; in every other mode the number is its ack entry
-- too, and the subscription keeps the frame and joins the end of the list.
pub on_sub_channel-Delivered :
    (c : Conn) (r x n : ℕ) (f : Frame) (auto : Bool)
    → lookup_sub c.subs (c.heap r).id ≡ some x
    → (c.heap r).frame ≡ some f
    → f.command ≡ Command.message
    → (c.heap r).in_list ≡ false
    → c.room ≡ suc n
    → same (c.heap r).ack Key.ack_auto ≡ auto
    → Delivered c r f auto
unfolding on_sub_channel sub_by deliver after_write is_auto write allocate_message_id
    SubscriptionList.add mark store same
on_sub_channel-Delivered c r x n f true known fr m free room a =
    let count = (c.last_msg_id + 1) % 2 ^ 64 in
    let g = numbered f (format_uint count) false in
    record {
      conn = record c {
        last_msg_id = count;
        heap = emptied (kept c.heap r g) r;
        requests = c.requests ++ subscribe_op r ∷ [];
        written = c.written ++ some g ∷ [];
        room = n;
      };
      frame = g;
      returns = ground arith;
      number = refl;
      written = refl;
      body = refl;
      message_id = numbered-message_id f (format_uint count) false;
      subscription = numbered-subscription f (format_uint count) false;
      ack = numbered-ack f (format_uint count) false;
      requests = refl;
      sub_list = refl;
      pending = ground arith;
    }
on_sub_channel-Delivered c r x n f false known fr m free room a =
    let count = (c.last_msg_id + 1) % 2 ^ 64 in
    let g = numbered f (format_uint count) true in
    record {
      conn = record c {
        last_msg_id = count;
        heap = mark (kept c.heap r g) r true;
        sub_list = c.sub_list ++ r ∷ [];
        written = c.written ++ some g ∷ [];
        room = n;
      };
      frame = g;
      returns = ground arith;
      number = refl;
      written = refl;
      body = refl;
      message_id = numbered-message_id f (format_uint count) true;
      subscription = numbered-subscription f (format_uint count) true;
      ack = numbered-ack f (format_uint count) true;
      requests = refl;
      sub_list = refl;
      pending = ground arith;
    }
