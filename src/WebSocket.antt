-- ===== src/WebSocket.antt =====
-- hikyuu/httpd/HttpServer.cpp, class `WebSocketConnection`: the upgrade, the loop over the messages,
-- `send` and the start of `sendPing`. One timer serves the reads and the writes, and its handler
-- cancels the operations of the socket, also where it was itself cancelled. When a cancelled handler
-- runs, before an operation is done or after, depends on the threads and on where the handler of the
-- messages suspends; it is an input.
pub mod Orderly
pub mod Cancelled
pub mod Examples
use hku_rest.Prelude.{
  ℕ, suc, ◌-◌, Bool, true, false, not, ◌&&◌, ◌||◌, Option, none, some, List, [], ◌∷◌, ◌++◌, leb,
  if◌then◌else◌,
}
use hku_rest.Prelude.Text.{Text, codes, text_eq, before}
use hku_rest.Prelude.Dict.{find}
use hku_rest.Router.{WsRoutes, find_ws}
use hku_rest.Http.{Request}
use hku_rest.Messages.{validate_message}

-- A handler, by what its three coroutines send and whether they throw.
pub record WebSocketHandle : Type 0 where
  pub on_open : List Text × Bool
  pub on_message : Text → Bool → List Text × Bool
  pub on_close : List Text × Bool

-- A factory may give no handler.
abbrev pub Factory : Type 0
Factory = Option WebSocketHandle

-- The calls of the handler, and what was written.
pub data Event : Type 0 where
  opened closed : Event
  delivered : Text → Bool → Event
  sent : Text → Event

-- `waiting`: a wait on the timer is pending. `posted`: its handler is to run as cancelled. `closing`:
-- the asynchronous close has begun.
pub record WebSocketConnection : Type 0 where
  pub is_open : Bool
  pub closing : Bool
  pub ping_stopped : Bool
  pub waiting : Bool
  pub posted : Bool
  pub write_queue_size : ℕ
  pub shut_down : Bool
  pub trace : List Event

-- What a read meets: a whole message, a text or not, and whether a handler that was posted before
-- the read finds nothing to cancel, since the message is there already or since it ran before the read
-- began; an error; or the end of `sendPing`'s interval, while it waits.
pub data Incoming : Type 0 where
  message : Text → Bool → Bool → Incoming
  read_error ping_due : Incoming

abbrev pub max_write_queue_size : ℕ
max_write_queue_size = 3000

abbrev pub log : Event → WebSocketConnection → WebSocketConnection
log e w = record w { trace = w.trace ++ e ∷ [] }

-- `expires_after` cancels the wait before, `async_wait` begins one.
abbrev pub arm : WebSocketConnection → WebSocketConnection
arm w = record w { posted = w.posted || w.waiting; waiting = true }

-- `timer.cancel()`
abbrev pub disarm : WebSocketConnection → WebSocketConnection
disarm w = record w { posted = w.posted || w.waiting; waiting = false }

-- What was posted has run by the end of an operation: it cancels the operation, unless it finds
-- nothing to cancel.
abbrev pub is_cancelled : Bool → WebSocketConnection → Bool
is_cancelled done w = w.posted && not done

abbrev pub suspend : WebSocketConnection → WebSocketConnection
suspend w = record w { posted = false }

-- `sendPing` after its interval: it cancels the timer of the connection, and waits on it itself, until
-- the ping is sent.
abbrev pub send_ping : WebSocketConnection → WebSocketConnection
send_ping w = if not w.is_open || w.ping_stopped then w else arm (disarm w)

-- The posted handler ends the read that waits. Where no ping was sent, the read goes on.
abbrev pub ping_read : WebSocketConnection → Bool × WebSocketConnection
ping_read w =
    if is_cancelled false (send_ping w)
    then (true, disarm (suspend (send_ping w)))
    else (false, disarm (send_ping w))

pub close : WebSocketConnection → WebSocketConnection
close w = record w {
  ping_stopped = true;
  posted = w.posted || w.waiting;
  waiting = false;
  closing = w.closing || w.is_open;
  shut_down = true;
}

-- Whether a write is done before a posted handler runs, or begins after.
module _ (at_once : Text → Bool) where
  abbrev pub written : Bool → Text → WebSocketConnection → Bool × WebSocketConnection
  written cancelled text w =
      let w' = disarm (suspend w) in
      let done = record w' { write_queue_size = w'.write_queue_size - 1 } in
      if cancelled then (false, done) else (true, log (sent text) done)

  pub send : Text → WebSocketConnection → Bool × WebSocketConnection
  send text w =
      if not w.is_open
      then (false, w)
      else if leb max_write_queue_size w.write_queue_size
      then (false, w)
      else let w' = arm (record w { write_queue_size = suc w.write_queue_size }) in
        written (is_cancelled (at_once text) w') text w'

  pub send_all : List Text → WebSocketConnection → WebSocketConnection
  unfolding send
  send_all [] w = w
  send_all (text ∷ rest) w = send_all rest (send text w).1

  module _ (h : WebSocketHandle) where
    -- The answer says whether the loop ends.
    abbrev pub handle_message : Text → Bool → WebSocketConnection → Bool × WebSocketConnection
    handle_message text is_text w =
        if validate_message text is_text
        then (
          (h.on_message text is_text).1,
          send_all (h.on_message text is_text).0 (log (delivered text is_text) w),
        )
        else (false, w)

    abbrev pub receive : Incoming → WebSocketConnection → Bool × WebSocketConnection
    receive read_error w = (true, disarm w)
    receive (message text is_text ready) w = handle_message text is_text (disarm w)
    receive ping_due w = ping_read w

    abbrev pub is_ready : Incoming → Bool
    is_ready read_error = true
    is_ready (message text is_text ready) = ready
    is_ready ping_due = false

    -- One round of the loop.
    abbrev pub read_message : Incoming → WebSocketConnection → Bool × WebSocketConnection
    read_message e w =
        if is_cancelled (is_ready e) (arm w)
        then (true, disarm (suspend (arm w)))
        else receive e (suspend (arm w))

    -- After `onClose`, thrown or not. The stream may count as open still: what `onClose` sends is tried.
    abbrev pub finish : WebSocketConnection → WebSocketConnection
    finish w = close (send_all h.on_close.0 (log closed w))

    pub message_loop : List Incoming → WebSocketConnection → WebSocketConnection
    unfolding close send_all
    message_loop [] w = w
    message_loop (e ∷ rest) w =
        if (read_message e w).0
        then finish (read_message e w).1
        else message_loop rest (read_message e w).1

    abbrev pub start_loop : List Incoming → WebSocketConnection → WebSocketConnection
    start_loop es w =
        let greeted = send_all h.on_open.0 (log opened w) in
        if h.on_open.1 then close greeted else message_loop es greeted

  abbrev pub with_handle :
      Option Factory → List Incoming → WebSocketConnection → WebSocketConnection
  with_handle none es w = close w
  with_handle (some none) es w = close w
  with_handle (some (some h)) es w = start_loop h es w

  -- Beast's comparison without case, and whether the handshakes succeed.
  module _ (iequals : Text → Text → Bool) (routes : WsRoutes Factory) where
    abbrev pub is_websocket_field : Option Text → Bool
    is_websocket_field none = false
    is_websocket_field (some value) = iequals value (codes "websocket")

    abbrev pub is_upgrade : Request → Bool
    is_upgrade req =
        text_eq req.method (codes "GET") && is_websocket_field (find (codes "Upgrade") req.headers)

    abbrev pub upgrade : Bool → Request → List Incoming → WebSocketConnection → WebSocketConnection
    upgrade accepted req es w =
        if not (is_upgrade req)
        then close w
        else if not accepted
        then close w
        else with_handle (find_ws (before 63 req.target) routes) es (record w { is_open = true })

    abbrev pub upgrade_read :
        Bool → Option Request → List Incoming → WebSocketConnection → WebSocketConnection
    upgrade_read accepted none es w = close w
    upgrade_read accepted (some req) es w = upgrade accepted req es w

    pub read_loop :
        Bool → Option Request → Bool → List Incoming → WebSocketConnection → WebSocketConnection
    unfolding message_loop before find
    read_loop tls_ok req accepted es w = if tls_ok then upgrade_read accepted req es w else close w

abbrev pub new_connection : WebSocketConnection
new_connection = record {
  is_open = false;
  closing = false;
  ping_stopped = false;
  waiting = false;
  posted = false;
  write_queue_size = 0;
  shut_down = false;
  trace = [];
}
