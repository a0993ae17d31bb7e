-- ===== src/Lib.antt =====
-- hku_rest: an asynchronous server library for HTTP, WebSocket and MCP, in C++ on Boost.Asio.
--
-- The program. A `Connection` (hikyuu/httpd/HttpServer.cpp) gets a permit from the
-- `ConnectionManager`, then reads one request after the other: the rate limiter may refuse it, the
-- `Router` finds its handler, the handler fills in a response (with the parameters that `HttpHandle`
-- parses from the query), and the response goes out. A WebSocket upgrade leaves that loop; its
-- messages pass a validator. The MCP handler keeps its sessions in a `SessionManager`.
--
-- The modules, each with its source and its state.
--
-- Connections: hikyuu/httpd/ConnectionManager.h. `Manager` holds the counters (`m_current_count`,
-- `m_waiting_count`, `m_next_permit_id`), the flag, the wait queue and the list that `shutdown`
-- collects, and every coroutine in `acquire` or `release` with the point that it has reached
-- (`Phase`). `step` is one atomic section of one of them: `check_shutdown`, `try_fast`, `enqueue`,
-- `dequeue`, `uncount` and `decide` are the parts of `acquire`, in this order, `release` and
-- `notify_one` those of `release`, `destroy` is `~Connection`; `raise_flag`, `drain`, `cancel_first`
-- and `reset_waiting` are those of `shutdown`. `run` takes any list of such sections, so any
-- interleaving. The counts are integers without a bound, and the limit is taken to fit an `int`; the
-- permit number has 32 bits and wraps. A timer is the index
-- of its coroutine; `cancel` resumes a wait that has begun and does nothing otherwise, as in Asio.
--
-- Router: hikyuu/httpd/Router.h and Router.cpp, both tables whole, over any type of handlers.
--
-- Query: hikyuu/httpd/HttpHandle.cpp, `getQueryParams` and `getQueryParam`, with the offsets and the
-- lengths that the loop keeps; a read behind the query is an outcome of its own (`fault`). The decoder
-- of escapes, `url_unescape`, is not in the repository and is a parameter.
--
-- Http: hikyuu/httpd/HttpServer.cpp. Http has `setResponseHeaders` and `setCorsHeaders`, Http.Serve
-- `Connection::readLoop` from the permit on (`read_loop`, `turn`, `serve`), `processHandle` and
-- `writeResponse`. A handler is a function from the request and the prepared response to what it
-- leaves behind; the routes are those of Router. The answer of the rate limiter and the success of a
-- write are inputs of a turn.
--
-- Chunks: hikyuu/httpd/HttpHandle.h and HttpHandle.cpp, `enableChunkedTransfer`, `writeChunk`,
-- `finishChunkedTransfer` and the two for synchronous use, with the bytes that they put on the socket.
-- The header that Beast prints and the numerals that `fmt` prints are parameters. Chunks.Decode is the
-- receiver, from RFC 9112.
--
-- Messages: hikyuu/httpd/HttpServer.cpp, `WebSocketConnection::validateWebSocketMessage`. The loop over
-- the message has the message's length for fuel, and every turn takes at least one byte. Messages.Utf8
-- is the encoding itself, as the description to compare with.
--
-- Sessions: hikyuu/mcp/SessionManager.h. `registerSession` gives up its lock in the middle, so it is
-- several sections (`register_enter`, `cleanup_expired_sessions`, `register_check`,
-- `register_finish`), which `register_session` puts together. JSON values are a parameter.
--
-- Mcp: hikyuu/mcp/McpHandle.cpp, `run` and the two functions that send a reply, on the state of Sessions
-- and Chunks. The JSON library (`JsonOps`), the methods of the service (`Dispatch`) and the two replies
-- as texts are parameters; of the response the body and one field are kept.
--
-- Mcp.Json, Mcp.Schema, Mcp.Catalog and Mcp.Service: hikyuu/mcp/McpService.cpp and McpService.h. A JSON
-- value is an element of a type with a view (`JsonView`), made by `JsonMaker`; Mcp.Value is one such type.
-- Schema holds the checks of a tool's description. Its two functions call each other by the type of a
-- member, and so do they here, on fuel; a value's size is enough. Catalog holds the state of the service
-- and the calls that register something, Service `dispatchMethod` as an implementation of `Dispatch`.
--
-- Http.Handle: hikyuu/httpd/HttpHandle.cpp, `operator()` as an implementation of the `Handler` of
-- Http.Serve, and what a handler reads of the fields, with `to_lower` and `split` as parameters.
--
-- Access: the access control of hikyuu/httpd/HttpServer.cpp and HttpServer.h. `inet_pton`, `stoi` and what
-- the machine makes of a shift by 32 are parameters.
--
-- Mqtt: hikyuu/mqtt/MqttBroker.cpp, the configuration, `start`, `stop`, `con_ioc_getter` and the accept
-- loops, each from a list of what it meets. Which ports are free, and what OpenSSL accepts, are parameters.
--
-- Mcp.History: `recordToolUsage` and `pushProgress` of hikyuu/mcp/McpHandle.cpp. Numbers are natural
-- numbers, and a stamp of the library's `Datetime` is a parameter.
--
-- WebSocket: hikyuu/httpd/HttpServer.cpp, class `WebSocketConnection`: `readLoop` on a list of what the
-- reads meet, `send`, `close` and the start of `sendPing`. Its one timer is a pending wait and a handler
-- that is posted; whether that runs before an operation is done, which the threads and the handler of the
-- messages decide, is an input of each. Both handshakes are inputs too. What other coroutines send through
-- the context is not among the events.
--
-- Tls and Server: the rest of the class `HttpServer` in hikyuu/httpd/HttpServer.cpp. Tls holds
-- `configureSsl` on a file system that is a parameter, with the callback that chooses the protocol, whose
-- loop has the length of the list for fuel. Server holds `start`, `stop` and `bind_io_context`, with the
-- managers of Connections for both kinds of connection, which their connections move on between the
-- calls, and Server.Accept the accept loops on what their
-- calls give.
--
-- RateLimit: hikyuu/httpd/RateLimit.h, RateLimit.cpp and the methods of `HttpServer` that change the
-- white lists. The numbers of type double are the parameter `Doubles`: operations, with three facts
-- about `<` and `-` that hold in IEEE 754. The counters are not bounded.
--
-- Prelude: tests, lists, texts (lists of bytes) and maps over the native numbers.
--
-- Not modelled: sockets, TLS, timers of the HTTP side, logging and reports, which are input and output;
-- tracing and compression in hikyuu/httpd/HttpHandle.cpp, the threads that run the server, the end of
-- a WebSocket's ping. hikyuu/httpd/WebSocketConnectionManager.h repeats ConnectionManager.h
-- and has no model of its own.
pub mod Prelude
pub mod Connections
pub mod Router
pub mod Query
pub mod Messages
pub mod Sessions
pub mod Http
pub mod RateLimit
pub mod Chunks
pub mod Mcp
pub mod Access
pub mod Mqtt
pub mod WebSocket
pub mod Tls
pub mod Server
