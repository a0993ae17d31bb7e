-- ===== src/Server.antt =====
-- hikyuu/httpd/HttpServer.cpp: `start`, `stop`, `bind_io_context` and the accept loops. An `io_context`
-- is a number; those that the server makes itself are counted, and so are those that it deletes.
pub mod Accept
pub mod Consistent
pub mod Stopped
pub mod Failed
pub mod Admitted
pub mod Examples
use hku_rest.Prelude.{
  ℕ, suc, ◌+◌, Bool, true, false, not, ◌&&◌, ◌||◌, Option, none, some, List, [], ◌∷◌, ◌++◌,
  if◌then◌else◌, drop, is_empty, map,
}
use hku_rest.Prelude.Text.{Text, codes}
use hku_rest.Connections.{
  Event, arrive, advance, expire, step, Manager, init, raise_flag, drain, cancel_first,
  reset_waiting,
}
use hku_rest.Tls.{SslConfig, SslContext, FileSystem, configure_ssl}

-- `acceptor`: none, or whether it is open. `spawned`: the accept loops, and which are for TLS.
pub record HttpServer : Type 0 where
  pub host : Text
  pub max_concurrent_connections : ℕ
  pub ws_max_concurrent_connections : ℕ
  pub ssl_config : SslConfig
  pub ssl_context : Option SslContext
  pub acceptor : Option Bool
  pub io_context : Option ℕ
  pub use_external_io : Bool
  pub io_stopped : Bool
  pub made : ℕ
  pub deleted : ℕ
  pub running : Bool
  pub connection_manager : Option Manager
  pub ws_connection_manager : Option Manager
  pub spawned : List Bool

-- What a coroutine of a connection does with its manager, or the timer that it waits on.
pub data Move : Type 0 where
  arrives : Move
  advances expires : ℕ → Move

-- Calls of the server's functions, and between them moves of its connections, and of its WebSockets.
pub data Call : Type 0 where
  start_call stop_call : Call
  connection_move ws_connection_move : Move → Call
  bind_call : ℕ → Call
  tls_call : SslConfig → Call

-- Every timer that was collected is cancelled.
abbrev pub cancel_all : List ℕ → Manager → Manager
unfolding cancel_first
cancel_all [] m = m
cancel_all (j ∷ js) m = cancel_all js (cancel_first (j ∷ js) m)

-- The four steps of the managers' `shutdown`, one after the other.
abbrev pub shutdown : Manager → Manager
unfolding raise_flag drain cancel_first reset_waiting
shutdown m =
    let drained = drain (raise_flag m) in reset_waiting (cancel_all drained.cancelling drained)

abbrev pub shut : Option Manager → Option Manager
shut none = none
shut (some m) = some (shutdown m)

abbrev pub event_of : Move → Event
event_of arrives = arrive
event_of (advances i) = advance i
event_of (expires i) = expire i

pub step_manager : Move → Option Manager → Option Manager
step_manager move none = none
step_manager move (some m) = some (step (event_of move) m)

abbrev pub close_acceptor : Option Bool → Option Bool
close_acceptor none = none
close_acceptor (some listening) = some false

abbrev pub is_open : Option Bool → Bool
is_open none = false
is_open (some listening) = listening

abbrev pub is_some {ℓ} : {A : Type ℓ} → Option A → Bool
is_some none = false
is_some (some x) = true

-- `delete m_io_context`, unless it is another's.
abbrev pub delete_io : HttpServer → HttpServer
delete_io s =
    if is_some s.io_context && not s.use_external_io
    then record s { io_context = none; io_stopped = false; deleted = suc s.deleted }
    else s

pub stop : HttpServer → HttpServer
stop s =
    if s.running
    then delete_io (record s {
      running = false;
      acceptor = close_acceptor s.acceptor;
      connection_manager = shut s.connection_manager;
      ws_connection_manager = shut s.ws_connection_manager;
      io_stopped = is_some s.io_context;
    })
    else s

pub bind_io_context : ℕ → HttpServer → HttpServer
bind_io_context io s =
    if is_some s.io_context then s else record s { io_context = some io; use_external_io = true }

abbrev pub set_tls : SslConfig → HttpServer → HttpServer
set_tls config s = record s { ssl_config = config }

-- What `new` gives the server.
abbrev pub make_io : HttpServer → HttpServer
make_io s =
    if s.use_external_io
    then s
    else record s { io_context = some s.made; io_stopped = false; made = suc s.made }

abbrev pub make_managers : HttpServer → HttpServer
unfolding init
make_managers s = record s {
  connection_manager = some (init s.max_concurrent_connections);
  ws_connection_manager = some (init s.ws_max_concurrent_connections);
}

-- Of the outside: whether the text of an address is one, whether a port is free of other programs,
-- the file system, and OpenSSL.
pub record Outside : Type 0 where
  pub is_address : Text → Bool
  pub port_is_free : Bool
  pub files : FileSystem
  pub loads : Text → Text → Bool

module _ (o : Outside) where
  -- The new acceptor is there before the old one goes, which holds the port while it is open.
  abbrev pub can_listen : HttpServer → Bool
  can_listen s = o.is_address s.host && (o.port_is_free && not (is_open s.acceptor))

  abbrev pub spawn : Bool → HttpServer → HttpServer
  spawn tls s = record s { spawned = s.spawned ++ tls ∷ []; running = true }

  -- The state that an exception leaves is the second component too.
  abbrev pub with_context : Option SslContext → HttpServer → Bool × HttpServer
  with_context none s = (false, s)
  with_context (some context) s = (true, spawn true (record s { ssl_context = some context }))

  abbrev pub serve : HttpServer → Bool × HttpServer
  unfolding configure_ssl
  serve s =
      if s.ssl_config.enabled
      then with_context (configure_ssl o.files o.loads s.ssl_config) s
      else (true, spawn false s)

  abbrev pub listen : HttpServer → Bool × HttpServer
  listen s = if can_listen s then serve (record s { acceptor = some true }) else (false, s)

  abbrev pub try_start : HttpServer → Bool × HttpServer
  try_start s = listen (make_io (make_managers s))

  -- An exception is caught, and then the server is stopped.
  abbrev pub finish_start : Bool × HttpServer → HttpServer
  unfolding stop
  finish_start r = if r.0 then r.1 else stop r.1

  pub start : HttpServer → HttpServer
  unfolding stop
  start s = if s.running then s else finish_start (try_start s)

  abbrev pub call : Call → HttpServer → HttpServer
  unfolding start stop bind_io_context step_manager
  call start_call s = start s
  call stop_call s = stop s
  call (connection_move move) s = record s {
    connection_manager = step_manager move s.connection_manager;
  }
  call (ws_connection_move move) s = record s {
    ws_connection_manager = step_manager move s.ws_connection_manager;
  }
  call (bind_call io) s = bind_io_context io s
  call (tls_call config) s = set_tls config s

-- The outside may be another one at each call.
abbrev pub run : List (Outside × Call) → HttpServer → HttpServer
run [] s = s
run ((o, c) ∷ rest) s = run rest (call o c s)

abbrev pub no_tls : SslConfig
no_tls = record { ca_key_file = []; password = []; verify_mode = 0; enabled = false }

abbrev pub new_server : Text → HttpServer
new_server host = record {
  host = host;
  max_concurrent_connections = 128;
  ws_max_concurrent_connections = 128;
  ssl_config = no_tls;
  ssl_context = none;
  acceptor = none;
  io_context = none;
  use_external_io = false;
  io_stopped = false;
  made = 0;
  deleted = 0;
  running = false;
  connection_manager = none;
  ws_connection_manager = none;
  spawned = [];
}
