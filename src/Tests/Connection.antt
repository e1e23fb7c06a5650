-- ===== src/Tests/Connection.antt =====
-- The theorems on a connection: its transactions, the handshake, and its acknowledgements.
use stomp.Prelude.{
  ◌*◌, ◌≡◌, refl, ◌++◌, List, [], ◌∷◌, none, some, codes, same, inl, inr, if◌then◌else◌, ◌||◌,
  one_of,
}
use stomp.Go.Result.{ok, err}
use stomp.Go.Map
use stomp.Go.Split.{split}
use stomp.Go.Number.{parse_uint, parse_digits}
use stomp.Frame.Command
use stomp.Frame.Key
use stomp.Frame.Header.{contains}
use stomp.Frame.Base.{Frame}
use stomp.Server.ClientError.{missing_header, not_connect_frame}
use stomp.Server.SubscriptionList.Laws.{select, reject, visit}
use stomp.Server.TxStore.{TxStore, find, commit}
use stomp.Server.TxStore.Laws.{commit-Runs}
use stomp.Server.Version.{
  v10, v12, or_unknown, determine_version, sort_strings, last_known, le_bytes,
}
use stomp.Frame.HeartBeat.{millisecond}
use stomp.Server.Version.Laws.{highest, determine_version_lem}
use stomp.Server.HeartBeat.{
  heart_beat_regexp, parse_pair, get_heart_beat, value_of, as_milliseconds, at_least,
}
use stomp.Server.Conn.State.{Config, Conn, connected, connected_op, enqueue_op, write}
use stomp.Server.Conn.Connect.{handle_connect, connect_response}
use stomp.Server.Conn.Dispatch.{connecting_func, run_state_func}
use stomp.Server.Conn.Handshake.{Connected, handle_connect-Connected}
use stomp.Server.Conn.Ack.{acked, ack_subs}
use stomp.Server.Conn.MsgIds.{NoMsgIds, released, ack_subs-released}
use stomp.Server.Conn.MsgIds.Steps.{run_state_func-NoMsgIds}
use stomp.Server.Conn.State.{Request}
use stomp.Server.Conn.Transact.{commit_func}
use stomp.Server.Conn.Send.{send_receipt_immediately, in_transaction}
use stomp.Server.Conn.Ack.{enqueue_message, handle_send}
use stomp.Server.Conn.Dispatch.{connected_func, connected_with}
use stomp.Tests.Data.{hello, news, fresh}

abbrev open_tx : TxStore
open_tx = record { transactions = some ((codes "t", hello ∷ news ∷ []) ∷ []) }

open-find : find open_tx (codes "t") ≡ some (hello ∷ news ∷ [])
unfolding find Map.lookup same
open-find = refl

abbrev pub hi : Frame
hi = record {
  command = Command.connect;
  header =
      (Key.accept_version, codes "1.1,1.2")
      ∷ (Key.heart_beat, codes "100,200")
      ∷ (Key.login, codes "me")
      ∷ [];
  body = [];
}

determine_version_lem_example : determine_version hi ≡ (
    if same hi.command Command.connect || same hi.command Command.stomp_connect
    then elim (contains hi.header Key.accept_version) [
      | some versions ↦ or_unknown (highest none (split b',' versions))
      | none ↦
          if same hi.command Command.connect
          then ok v10
          else err (missing_header Key.accept_version)
    ]
    else err not_connect_frame)
determine_version_lem_example = determine_version_lem hi

abbrev pub config : Config
config = record {
  authenticate = λ login passcode. same login (codes "me");
  heart_beat = 60000000000;
  quote = λ s. s;
  network_text = codes "write failed";
}

-- Two frames wait for an acknowledgement.
abbrev busy : Conn
busy = record fresh { state_func = connected; sub_list = 3 ∷ 4 ∷ [] }

abbrev pub welcomed : Conn
welcomed = record fresh {
  state_func = connected;
  version = v12;
  write_timeout = 60000 * millisecond;
  requests = connected_op 7 ∷ [];
  written = some (connect_response v12 60000 60000) ∷ [];
  room = 8;
}

pub fresh-welcomed : handle_connect config fresh hi ≡ ok (welcomed, hi, ok tt)
unfolding handle_connect contains same determine_version split sort_strings last_known
    get_heart_beat heart_beat_regexp parse_pair value_of as_milliseconds at_least write parse_uint
    le_bytes parse_digits
fresh-welcomed = refl

handle_connect-Connected_example : Connected config fresh hi welcomed
handle_connect-Connected_example =
    handle_connect-Connected config fresh welcomed hi hi fresh-welcomed

busy-NoMsgIds : NoMsgIds busy.heap
busy-NoMsgIds r = refl

pub fresh-steps : run_state_func config fresh hi ≡ ok (welcomed, hi, ok tt)
unfolding run_state_func connecting_func same
fresh-steps = fresh-welcomed

run_state_func-NoMsgIds_example : NoMsgIds welcomed.heap
run_state_func-NoMsgIds_example =
    run_state_func-NoMsgIds config fresh welcomed hi hi (ok tt) busy-NoMsgIds fresh-steps

ack_subs-released_example :
    ack_subs 5 busy hello
    ≡ ok (
      record (visit acked (select (released busy.heap 5) (3 ∷ 4 ∷ [])) busy) {
        sub_list = reject (released busy.heap 5) (3 ∷ 4 ∷ []);
      },
      hello,
      ok tt,
    )
ack_subs-released_example =
    ack_subs-released busy hello 5 busy-NoMsgIds (inr (inl refl), (inr (inl refl), tt))

-- A connected client, and the requests behind a SEND.
abbrev idle_conn : Conn
idle_conn = record fresh { state_func = connected }

abbrev sent_on : Frame → Conn → Conn
sent_on f c = record c {
  requests = c.requests ++ enqueue_op (some (record f { command = Command.message })) ∷ [];
}

send-accepted :
    (rq : List Request)
    → (commit_func connected_func (record idle_conn { requests = rq }) hello
        ≡ ok (sent_on hello (record idle_conn { requests = rq }), none))
      × (commit_func connected_func (record idle_conn { requests = rq }) news
          ≡ ok (sent_on news (record idle_conn { requests = rq }), none))
unfolding connected_func connected_with handle_send send_receipt_immediately in_transaction
    enqueue_message contains same one_of
send-accepted rq = (refl, refl)

commit-Runs_example :
    (t : TxStore) × (commit open_tx (codes "t") (commit_func connected_func) idle_conn
      ≡ ok (t, sent_on news (sent_on hello idle_conn), none))
    × (find t (codes "t")
        ≡ (if same (codes "t") (codes "t") then none else find open_tx (codes "t")))
commit-Runs_example =
    commit-Runs open_tx (codes "t") (codes "t") (hello ∷ news ∷ []) (commit_func connected_func)
      idle_conn (sent_on news (sent_on hello idle_conn)) open-find
      (
        sent_on hello idle_conn,
        (send-accepted []).0,
        (
          sent_on news (sent_on hello idle_conn),
          (send-accepted (sent_on hello idle_conn).requests).1,
          refl,
        ),
      )
