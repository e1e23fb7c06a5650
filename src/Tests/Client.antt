-- ===== src/Tests/Client.antt =====
-- The theorems on a client's connection: its calls, its loop and its transactions.
use stomp.Prelude.{
  ◌+◌, ◌≡◌, ◌≢◌, refl, ◌∙◌, true, false, [], ◌∷◌, none, some, codes, same, if◌then◌else◌, arith,
  ltb, max, ◌-◌,
}
use stomp.Go.Result.{ok}
use stomp.Go.Number.{format_uint}
use stomp.Frame.Command
use stomp.Frame.Key
use stomp.Frame.Header
use stomp.Frame.Header.{Bytes, contains}
use stomp.Frame.Base.{Frame, new}
use stomp.Server.Version.{v12}
use stomp.Client.AckMode.{ack_client}
use stomp.Client.AckMode
use stomp.Client.Id.{allocate_id}
use stomp.Client.Frames.{receipt_opt, apply_opts, plain_send_frame, create_send_frame}
use stomp.Client.Options.{default_options}
use stomp.Client.Connect.{WriteRequest, connection, timeouts}
use stomp.Client.Connect.Timeouts.{timeouts_lem}
use stomp.Client.Calls.{
  Client, Env, returns, response, send_on_closed, perform, frame_call, must_disconnect_call, here,
  next, disconnect, send, must_disconnect, shut, close_net, subscribe,
}
use stomp.Client.Calls.Closed.{Refuses, closed_result, perform-ne-send_on_closed, perform-Refuses}
use stomp.Client.Calls.Outcomes.{
  queued, disconnect_outcome, disconnect_lem, receipt_reply_of, send_lem, send-receipt,
}
use stomp.Client.Loop.{Loop, new_loop}
use stomp.Client.Transaction.{Transaction, tx_perform, commit_call}
use stomp.Client.Transaction.Tagged.{Tags, tx_perform-Tags}
use stomp.Tests.Data.{hello}

abbrev receipt_1 : Frame
receipt_1 = new Command.receipt ((Key.receipt_id, codes "1") ∷ [])

abbrev client : Client
client = record {
  conn = connection default_options (new Command.connected []) v12 (0, 0);
  last_id = 0;
}

-- A write channel that takes the request, and the receipt as the answer.
abbrev answered : Env
answered = record { takes = true; answer = response receipt_1; close = none }

abbrev subscribe_request : WriteRequest
subscribe_request = record {
  frame =
      new Command.subscribe (
        (Key.destination, codes "/queue/a") ∷ (Key.ack, Key.ack_client) ∷ (Key.id, codes "1") ∷ []);
  chan = some 0;
}

abbrev subscribed : Client
subscribed = record client {
  conn = record client.conn { write_ch = subscribe_request ∷ []; next_chan = 1 };
  last_id = 1;
}

-- The loop takes the request, and then a message and an ERROR frame for it.
abbrev message_1 : Frame
message_1 = new Command.message ((Key.subscription, codes "1") ∷ [])

-- The channel 0 waits for the receipt 1, and the channel 1 for that of the id 2.
abbrev waiting_loop : Loop
waiting_loop = record (new_loop 5) { channels = (codes "1", some 0) ∷ (codes "2", some 1) ∷ [] }

abbrev failed : Frame
failed = new Command.error ((Key.message, codes "failed") ∷ [])

abbrev closed_client : Client
closed_client = record client {
  conn = record client.conn { write_closed = true; closed = true; net_closed = 1 };
}

client-closed : perform must_disconnect_call answered client ≡ returns none closed_client
unfolding perform must_disconnect shut close_net
client-closed = refl

perform-ne-send_on_closed_example :
    perform (frame_call hello) answered closed_client ≢ send_on_closed
perform-ne-send_on_closed_example =
    perform-ne-send_on_closed client closed_client (frame_call hello) answered refl
      (next here must_disconnect_call answered client-closed)

perform-Refuses_example :
    Refuses
      (closed_result (frame_call hello) v12)
      closed_client
      (perform (frame_call hello) answered closed_client)
perform-Refuses_example = perform-Refuses (frame_call hello) answered closed_client refl

disconnect_lem_example :
    disconnect answered client
    ≡ disconnect_outcome answered.close answered.answer (
        queued
          (new Command.disconnect ((Key.receipt, (allocate_id 0).0) ∷ []))
          (allocate_id 0).1
          client)
disconnect_lem_example = disconnect_lem answered client refl refl refl

abbrev confirmed : Frame
confirmed =
    record (new Command.send (
      (Key.content_length, codes "2")
      ∷ (Key.destination, codes "/queue/a")
      ∷ (Key.receipt, codes "1")
      ∷ [])) { body = codes "hi" }

create-confirmed :
    create_send_frame (codes "/queue/a") [] (codes "hi") (some receipt_opt ∷ []) 0
    ≡ (ok confirmed, 1)
unfolding create_send_frame apply_opts receipt_opt plain_send_frame allocate_id format_uint same
    contains Header.set new
create-confirmed = refl

confirmed-receipt : contains confirmed.header Key.receipt ≡ some (codes "1")
unfolding contains same new
confirmed-receipt = refl

receipt-answered :
    receipt_reply_of answered.answer (queued confirmed 1 client)
    ≡ returns none (queued confirmed 1 client)
unfolding same new
receipt-answered = refl

send-confirmed :
    send (codes "/queue/a") [] (codes "hi") (some receipt_opt ∷ []) answered client
    ≡ returns none (queued confirmed 1 client)
send-confirmed =
    send_lem (codes "/queue/a") [] (codes "hi") (some receipt_opt ∷ []) answered client confirmed
      (codes "1") 1 create-confirmed confirmed-receipt refl refl
    ∙ receipt-answered

send-receipt_example :
    (queued confirmed 1 client ≡ queued confirmed 1 client)
    × (g : Frame) × (answered.answer ≡ response g)
    × (same g.command Command.receipt ≡ true)
send-receipt_example =
    send-receipt (codes "/queue/a") [] (codes "hi") (some receipt_opt ∷ []) answered client
      (queued confirmed 1 client) confirmed (codes "1") 1 create-confirmed confirmed-receipt refl
      refl send-confirmed

abbrev open_transaction : Transaction
open_transaction = record { id = codes "9"; completed = false }

tx_perform-Tags_example :
    Tags (codes "9") [] (tx_perform (commit_call true) open_transaction answered client)
tx_perform-Tags_example = tx_perform-Tags (commit_call true) open_transaction answered client

timeouts_lem_example : timeouts default_options (70000000000, 30000000000) ≡ (
  (if ltb 0 (max 70000000000 60000000000) then max 70000000000 60000000000 + 5000000000 else 0),
  (if ltb 5000000000 30000000000 then 30000000000 - 5000000000 else 30000000000),
)
timeouts_lem_example =
    timeouts_lem default_options 70000000000 30000000000 (omega arith) (omega arith)
