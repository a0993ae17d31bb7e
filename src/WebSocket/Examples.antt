-- ===== src/WebSocket/Examples.antt =====
-- A `WebSocketConnection` of hikyuu/httpd/HttpServer.cpp with a handler that greets and echoes.
use hku_rest.Prelude.{map, ◌≡◌, refl, Bool, true, false, some, List, [], ◌∷◌, ◌++◌}
use hku_rest.Prelude.Text.{Text, codes, text_eq, before}
use hku_rest.Prelude.Dict.{find}
use hku_rest.Router.{find_ws, WsRoutes}
use hku_rest.Http.{Request}
use hku_rest.Messages.{validate_message}
use hku_rest.WebSocket.{
  WebSocketHandle, Factory, opened, closed, delivered, sent, WebSocketConnection, Incoming, message,
  ping_due, message_loop, read_loop, new_connection,
}
use hku_rest.WebSocket.Orderly.{Phase, IsAt, read_loop-IsAt}
use hku_rest.WebSocket.Cancelled.{deliveries, message_loop-deliveries, message_loop-ping_due}

abbrev echo : WebSocketHandle
echo = record {
  on_open = ([], false);
  on_message = λ text is_text. (text ∷ [], false);
  on_close = (codes "bye" ∷ [], false);
}

abbrev fits : Text → Bool
fits text = true

abbrev request : Request
request = record {
  method = codes "GET";
  target = codes "/ws?x=1";
  headers = (codes "Upgrade", codes "websocket") ∷ [];
  body = [];
  keep_alive = true;
}

abbrev routes : WsRoutes Factory
routes = (codes "/ws", some echo) ∷ []

abbrev incoming : List Incoming
incoming = message (codes "a") true false ∷ message (codes "b") true false ∷ []

abbrev opened_connection : WebSocketConnection
opened_connection = record new_connection { is_open = true; trace = opened ∷ [] }

-- The client's second message is lost, and the connection with it.
second_is_lost :
    (read_loop fits text_eq routes true (some request) true incoming new_connection).trace
    ≡ opened ∷ delivered (codes "a") true ∷ sent (codes "a") ∷ closed ∷ sent (codes "bye") ∷ []
unfolding read_loop message_loop find text_eq find_ws before validate_message
second_is_lost = refl

read_loop-IsAt_example :
    (p : Phase) × IsAt p
      (read_loop fits text_eq routes true (some request) true incoming new_connection)
read_loop-IsAt_example = read_loop-IsAt fits text_eq routes true true (some request) incoming

message_loop-deliveries_example :
    deliveries (message_loop fits echo incoming opened_connection).trace
    ≡ deliveries
        (message_loop fits echo (message (codes "a") true false ∷ []) opened_connection).trace
message_loop-deliveries_example =
    message_loop-deliveries fits echo (codes "a") (codes "b") true true false [] opened_connection

message_loop-ping_due_example :
    ((texts : List Text) × ((message_loop fits echo (ping_due ∷ incoming) opened_connection).trace
        ≡ opened_connection.trace ++ closed ∷ map sent texts))
    × ((message_loop fits echo (ping_due ∷ incoming) opened_connection).shut_down ≡ true)
message_loop-ping_due_example = message_loop-ping_due fits echo incoming opened_connection refl refl
