-- ===== src/Server/Examples.antt =====
-- A server that is started, stopped and started again, and what its accept loop gives.
use hku_rest.Prelude.{◌*◌, ◌≡◌, refl, Bool, true, false, some, none, List, [], ◌∷◌, All}
use hku_rest.Prelude.Text.{Text, codes, text_eq}
use hku_rest.Tls.{SslConfig, FileSystem, configure_ssl, check_key_file}
use hku_rest.Server.{
  HttpServer, Call, start_call, stop_call, bind_call, connection_move, arrives, advances, tls_call,
  Outside, start, stop, call, run, new_server, can_listen, bind_io_context,
}
use hku_rest.Server.Accept.{Socket, Arrival, arrived, accept_throws, Connection, do_accept}
use hku_rest.Server.Consistent.{IsConsistent, run-IsConsistent}
use hku_rest.Server.Stopped.{IsDead, run-IsDead}
use hku_rest.Server.Failed.{IsStuck, start-IsStuck_forever}
use hku_rest.Server.Admitted.{IsFrom, sockets, do_accept-IsFrom}

abbrev no_files : FileSystem
no_files = record {
  exists = λ file. false;
  opens = λ file. false;
  permissions = λ file. none;
  first_line = λ file. none;
}

abbrev outside : Outside
outside = record {
  is_address = λ host. true;
  port_is_free = true;
  files = no_files;
  loads = λ file password. true;
}

abbrev host : Text
host = codes "0.0.0.0"

abbrev bound_and_started : List (Outside × Call)
bound_and_started =
    (outside, bind_call 7)
    ∷ (outside, start_call)
    ∷ (outside, connection_move arrives)
    ∷ (outside, connection_move (advances 0))
    ∷ []

abbrev server : HttpServer
server = run bound_and_started (new_server host)

run-IsConsistent_example : IsConsistent server
run-IsConsistent_example = run-IsConsistent host bound_and_started

is_dead : IsDead (stop server)
unfolding call start stop bind_io_context hku_rest.Server.make_managers hku_rest.Server.serve
is_dead = (refl, refl, refl)

started_again : (run ((outside, start_call) ∷ []) (stop server)).running ≡ true
unfolding call start stop bind_io_context hku_rest.Server.make_managers hku_rest.Server.serve
started_again = refl

run-IsDead_example : IsDead (run ((outside, start_call) ∷ []) (stop server))
run-IsDead_example = run-IsDead ((outside, start_call) ∷ []) (stop server) is_dead

abbrev missing_key : SslConfig
missing_key = record {
  ca_key_file = codes "missing.pem";
  password = [];
  verify_mode = 0;
  enabled = true;
}

abbrev secured : HttpServer
secured = record (new_server host) { ssl_config = missing_key }

cannot_configure : configure_ssl no_files outside.loads missing_key ≡ none
unfolding configure_ssl check_key_file
cannot_configure = refl

abbrev repaired : Outside
repaired = record outside {
  files = record no_files {
    exists = λ file. true;
    opens = λ file. true;
    permissions = λ file. some (6 * 64);
  };
}

start-IsStuck_forever_example :
    IsStuck (run ((repaired, stop_call) ∷ (repaired, start_call) ∷ []) (start outside secured))
start-IsStuck_forever_example =
    start-IsStuck_forever outside secured ((repaired, stop_call) ∷ (repaired, start_call) ∷ []) refl
      refl refl cannot_configure

abbrev client : Socket
client = record {
  is_open = true;
  remote = some (codes "10.0.0.1");
  early = codes "GET / HTTP/1.1";
  ended = false;
  late = [];
}

abbrev only_client : Text → Bool
only_client ip = text_eq ip (codes "10.0.0.1")

abbrev arrivals : List Arrival
arrivals = arrived client ∷ accept_throws ∷ arrived client ∷ []

abbrev connection : Connection
connection = record {
  client_ip = codes "10.0.0.1";
  is_open = true;
  stream = codes "ET / HTTP/1.1";
  tls = false;
}

-- The probe takes the first letter of the method, and an accept that throws is the last one.
first_byte_is_lost : do_accept only_client true arrivals ≡ connection ∷ []
unfolding do_accept text_eq
first_byte_is_lost = refl

do_accept-IsFrom_example :
    All (IsFrom only_client true (sockets arrivals)) (do_accept only_client true arrivals)
do_accept-IsFrom_example = do_accept-IsFrom only_client true arrivals
