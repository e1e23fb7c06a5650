-- ===== src/Server/Conn/Dispatch.antt =====
-- The state functions `connecting` and `connected` of server/client/conn.go.
use stomp.Prelude.{[], ◌∷◌, same, one_of, if◌then◌else◌, ◌||◌}
use stomp.Frame.Command
use stomp.Server.ClientError.{not_connected, unexpected_command, unknown_command}
use stomp.Server.Conn.State.{StateFunc, connecting, connected, Config, Handler, fail}
use stomp.Server.Conn.Connect.{handle_connect, handle_disconnect}
use stomp.Server.Conn.Transact.{handle_begin, handle_abort, handle_commit}
use stomp.Server.Conn.Subscribe.{handle_subscribe, handle_unsubscribe}
use stomp.Server.Conn.Ack.{handle_ack, handle_nack, handle_send}

unfoldable pub connecting_func : Config → Handler (Unit {0})
connecting_func cfg c f =
    if same f.command Command.connect || same f.command Command.stomp_connect
    then handle_connect cfg c f
    else fail not_connected c f

-- `connected`, with the state function that a commit calls for each frame of its transaction.
unfoldable pub connected_with : Handler (Unit {0}) → Handler (Unit {0})
connected_with run c f =
    if one_of f.command (Command.connect ∷ Command.stomp_connect ∷ [])
    then fail unexpected_command c f
    else if same f.command Command.disconnect
    then handle_disconnect c f
    else if same f.command Command.begin
    then handle_begin c f
    else if same f.command Command.abort
    then handle_abort c f
    else if same f.command Command.commit
    then handle_commit run c f
    else if same f.command Command.send
    then handle_send c f
    else if same f.command Command.subscribe
    then handle_subscribe c f
    else if same f.command Command.unsubscribe
    then handle_unsubscribe c f
    else if same f.command Command.ack
    then handle_ack c f
    else if same f.command Command.nack
    then handle_nack c f
    else if one_of f.command (Command.message ∷ Command.receipt ∷ Command.error ∷ [])
    then fail unexpected_command c f
    else fail unknown_command c f

-- A commit inside a commit: only SEND, ACK and NACK frames are added to a transaction, so it is not
-- reached.
nested : Handler (Unit {0})
nested = fail unknown_command

unfoldable pub connected_func : Handler (Unit {0})
unfolding nested
connected_func = connected_with (connected_with nested)

-- `c.stateFunc(c, f)`.
unfoldable pub run_in : StateFunc → Config → Handler (Unit {0})
run_in connecting cfg = connecting_func cfg
run_in connected cfg = connected_func

unfoldable pub run_state_func : Config → Handler (Unit {0})
unfolding run_in
run_state_func cfg c f = run_in c.state_func cfg c f
