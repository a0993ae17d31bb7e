-- ===== src/Mqtt.antt =====
-- hikyuu/mqtt/MqttBroker.cpp: the configuration, the life cycle and the accept loops of the broker,
-- built with TLS and WebSocket. The protocol itself is async_mqtt's.
pub mod Keeps
pub mod Restart
pub mod Fair
pub mod Accepts
pub mod Examples
use hku_rest.Prelude.{
  ℕ, zero, suc, ◌+◌, ◌-◌, ◌*◌, ◌%◌, ◌^◌, Bool, true, false, not, ◌&&◌, ◌||◌, Option, none, some,
  List, [], ◌∷◌, ◌++◌, ◌==◌, if◌then◌else◌, is_empty,
}
use hku_rest.Prelude.Text.{Text, codes}
use hku_rest.Connections.Ints.{ℤ, pos, negsuc}

-- `static_cast<uint16_t>` and `static_cast<std::size_t>` of an `int`.
abbrev pub cast_u16 : ℤ → ℕ
cast_u16 (pos n) = n % 65536
cast_u16 (negsuc n) = 65535 - n % 65536

abbrev pub cast_size : ℤ → ℕ
cast_size (pos n) = n
cast_size (negsuc n) = 2 ^ 64 - 1 - n

-- The parameters that are set.
pub record Parameter : Type 0 where
  pub mqtt_port : Option ℤ
  pub ws_port : Option ℤ
  pub tls_port : Option ℤ
  pub wss_port : Option ℤ
  pub iocs : Option ℤ
  pub threads_per_ioc : Option ℤ
  pub tcp_no_delay : Option Bool
  pub bulk_write : Option Bool
  pub read_buf_size : Option ℤ
  pub recv_buf_size : Option ℤ
  pub send_buf_size : Option ℤ
  pub auth_file : Option Text
  pub certificate : Option Text
  pub private_key : Option Text
  pub verify_file : Option Text
  pub verify_field : Option Text

pub record Config : Type 0 where
  pub mqtt_port : ℕ
  pub ws_port : ℕ
  pub tls_port : ℕ
  pub wss_port : ℕ
  pub num_iocs : ℕ
  pub threads_per_ioc : ℕ
  pub tcp_no_delay : Bool
  pub bulk_write : Bool
  pub read_buf_size : ℕ
  pub recv_buf_size : ℤ
  pub send_buf_size : ℤ
  pub auth_file : Text
  pub certificate : Text
  pub private_key : Text
  pub verify_file : Text
  pub verify_field : Text

abbrev pub or_default {ℓ} : {A : Type ℓ} → Option A → A → A
or_default none d = d
or_default (some x) d = x

abbrev pub cast_or : (ℤ → ℕ) → Option ℤ → ℕ → ℕ
cast_or cast none d = d
cast_or cast (some n) d = cast n

-- 0 asks for the number of cores, which the system may not know.
abbrev pub default_iocs : ℕ → ℕ → ℕ
default_iocs cores n = if n == 0 then if cores == 0 then 1 else cores else n

pub configure : ℕ → Parameter → Config
configure cores param = record {
  mqtt_port = cast_or cast_u16 param.mqtt_port 0;
  ws_port = cast_or cast_u16 param.ws_port 0;
  tls_port = cast_or cast_u16 param.tls_port 0;
  wss_port = cast_or cast_u16 param.wss_port 0;
  num_iocs = default_iocs cores (cast_or cast_size param.iocs 0);
  threads_per_ioc = cast_or cast_size param.threads_per_ioc 1;
  tcp_no_delay = or_default param.tcp_no_delay true;
  bulk_write = or_default param.bulk_write true;
  read_buf_size = cast_or cast_size param.read_buf_size 65536;
  recv_buf_size = or_default param.recv_buf_size (pos 0);
  send_buf_size = or_default param.send_buf_size (pos 0);
  auth_file = or_default param.auth_file [];
  certificate = or_default param.certificate [];
  private_key = or_default param.private_key [];
  verify_file = or_default param.verify_file [];
  verify_field = or_default param.verify_field (codes "CN");
}

-- A broker: `listeners` are the ports of the acceptors that are open. An acceptor belongs to its
-- coroutine, which stands still, with the port, once its `io_context` is stopped. `con_iocs_it` is an
-- index into the `con_iocs` contexts.
pub record Impl : Type 0 where
  pub config : Config
  pub running : Bool
  pub stop_requested : Bool
  pub accept_guarded : Bool
  pub accept_stopped : Bool
  pub con_iocs : ℕ
  pub guards : ℕ
  pub con_stopped : Bool
  pub con_threads : ℕ
  pub con_iocs_it : ℕ
  pub listeners : List ℕ

pub new_impl : ℕ → Parameter → Impl
unfolding configure
new_impl cores param = record {
  config = configure cores param;
  running = false;
  stop_requested = false;
  accept_guarded = true;
  accept_stopped = false;
  con_iocs = (configure cores param).num_iocs;
  guards = (configure cores param).num_iocs;
  con_stopped = false;
  con_threads = 0;
  con_iocs_it = 0;
  listeners = [];
}

abbrev pub elem : ℕ → List ℕ → Bool
elem p [] = false
elem p (q ∷ rest) = p == q || elem p rest

-- Whether `start` found the broker running, blocks in `run`, came back from it, or threw.
pub data Started : Type 0 where
  already_running blocked finished threw : Started

-- Which ports no other program holds, and whether OpenSSL takes the files of the configuration.
module _ (free : ℕ → Bool) (files_ok : Bool) where
  abbrev pub can_bind : ℕ → Impl → Bool
  can_bind port s = free port && not (elem port s.listeners)

  abbrev pub listen : ℕ → Impl → Impl
  listen port s = record s { listeners = port ∷ s.listeners }

  -- none if the acceptor throws.
  abbrev pub start_plain_listener : ℕ → Impl → Option Impl
  start_plain_listener port s =
      if port == 0 then some s else if can_bind port s then some (listen port s) else none

  abbrev pub has_files : Config → Bool
  has_files c = not (is_empty c.certificate || is_empty c.private_key)

  -- Here what is thrown is caught.
  abbrev pub start_secure_listener : ℕ → Impl → Impl
  start_secure_listener port s =
      if port == 0
      then s
      else if has_files s.config && (files_ok && can_bind port s)
      then listen port s
      else s

  -- The threads, and `run`, which returns at once if the context is stopped.
  abbrev pub run_contexts : Impl → Started × Impl
  run_contexts s = (
    if s.accept_stopped then finished else blocked,
    record s { con_threads = s.con_threads + s.con_iocs * s.config.threads_per_ioc },
  )

  abbrev pub start_secure : Impl → Started × Impl
  start_secure s =
      run_contexts
        (start_secure_listener s.config.wss_port (start_secure_listener s.config.tls_port s))

  abbrev pub after_ws : Impl → Option Impl → Started × Impl
  after_ws s none = (threw, record s { running = false })
  after_ws s (some s') = start_secure s'

  abbrev pub after_mqtt : Impl → Option Impl → Started × Impl
  after_mqtt s none = (threw, record s { running = false })
  after_mqtt s (some s') = after_ws s' (start_plain_listener s'.config.ws_port s')

  abbrev pub entered : Impl → Impl
  entered s = record s { running = true; stop_requested = false }

  pub start : Impl → Started × Impl
  start s =
      if s.running
      then (already_running, s)
      else after_mqtt (entered s) (start_plain_listener s.config.mqtt_port (entered s))

pub stop : Impl → Impl
stop s = if not s.running then s else record s {
  running = false;
  stop_requested = true;
  accept_guarded = false;
  guards = 0;
  accept_stopped = true;
  con_stopped = true;
  con_threads = 0;
}

-- The context for the next connection, by its index.
pub con_ioc_getter : Impl → ℕ × Impl
con_ioc_getter s = (
  s.con_iocs_it,
  record s { con_iocs_it = if suc s.con_iocs_it == s.con_iocs then 0 else suc s.con_iocs_it },
)

-- What an accept loop meets in one round: whether `stop` was requested before, and the connection, or
-- the error, of which some are for want of resources; for TLS, whether the handshake succeeds.
pub data Incoming : Type 0 where
  stopping : Incoming
  accept_error : Bool → Incoming
  connection : ℕ → Bool → Incoming

-- The connections that were handed to the broker, each with its context, the waits of one second, and
-- whether the loop has ended.
pub record Loop : Type 0 where
  pub impl : Impl
  pub handled : List (ℕ × ℕ)
  pub waits : ℕ
  pub ended : Bool

abbrev pub accept_one : Bool → Incoming → ℕ → Loop → Loop
accept_one secure stopping ioc l = record l { ended = true }
accept_one secure (accept_error scarce) ioc l =
    if scarce then record l { waits = suc l.waits } else l
accept_one secure (connection id handshake) ioc l =
    if secure && not handshake
    then record l { ended = true }
    else record l { handled = l.handled ++ (id, ioc) ∷ [] }

-- Each round takes a context first, but the test of `stop` comes before.
abbrev pub round : Bool → Incoming → Loop → Loop
round secure stopping l = record l { ended = true }
round secure (accept_error scarce) l =
    accept_one secure (accept_error scarce) (con_ioc_getter l.impl).0
      (record l { impl = (con_ioc_getter l.impl).1 })
round secure (connection id handshake) l =
    accept_one secure (connection id handshake) (con_ioc_getter l.impl).0
      (record l { impl = (con_ioc_getter l.impl).1 })

pub accept_loop : Bool → List Incoming → Loop → Loop
unfolding con_ioc_getter
accept_loop secure [] l = l
accept_loop secure (e ∷ rest) l = if l.ended then l else accept_loop secure rest (round secure e l)
