-- ===== src/Mqtt/Examples.antt =====
-- A broker of hikyuu/mqtt/MqttBroker.cpp with three contexts and its plain and secure ports.
use hku_rest.Prelude.{ℕ, ◌≡◌, ◌<◌, refl, Bool, true, false, some, none, List, [], ◌∷◌, arith}
use hku_rest.Prelude.Text.{codes}
use hku_rest.Connections.Ints.{pos}
use hku_rest.Mqtt.{
  Parameter, blocked, threw, new_impl, configure, start, stop, Incoming, accept_error, connection,
  Loop, accept_loop,
}
use hku_rest.Mqtt.Restart.{start_throws_again}
use hku_rest.Mqtt.Fair.{
  IsInPool, given, con_ioc_getter_once, starts, stops, takes, act_all, new_impl-IsInPool,
}
use hku_rest.Mqtt.Accepts.{ids, accept_loop-arrivals, accept_loop-welcome}

abbrev param : Parameter
param = record {
  mqtt_port = some (pos 1883);
  ws_port = none;
  tls_port = some (pos 8883);
  wss_port = none;
  iocs = some (pos 3);
  threads_per_ioc = none;
  tcp_no_delay = none;
  bulk_write = none;
  read_buf_size = none;
  recv_buf_size = none;
  send_buf_size = none;
  auth_file = none;
  certificate = some (codes "cert.pem");
  private_key = some (codes "key.pem");
  verify_file = none;
  verify_field = none;
}

abbrev all_free : ℕ → Bool
all_free port = true

starts_once : (start all_free true (new_impl 8 param)).0 ≡ blocked
unfolding start new_impl configure
starts_once = refl

-- The port 65536 is taken for none.
port_wraps : (configure 8 (record param { mqtt_port = some (pos 65536) })).mqtt_port ≡ 0
unfolding configure
port_wraps = refl

start_throws_again_case :
    (start all_free true (stop (start all_free true (new_impl 8 param)).1)).0 ≡ threw
unfolding new_impl configure
start_throws_again_case =
    start_throws_again all_free all_free true true (new_impl 8 param) refl (omega arith) refl

con_ioc_getter_once_example :
    (k : ℕ) × (k < 3)
    × (given k (new_impl 8 param) ≡ 2)
    × ((j : ℕ) → j < 3 → given j (new_impl 8 param) ≡ 2 → j ≡ k)
unfolding new_impl configure
con_ioc_getter_once_example = con_ioc_getter_once (new_impl 8 param) 2 (omega arith) (omega arith)

new_impl-IsInPool_case :
    IsInPool (act_all (starts all_free true ∷ takes ∷ stops ∷ takes ∷ []) (new_impl 8 param))
new_impl-IsInPool_case =
    new_impl-IsInPool 8 param (starts all_free true ∷ takes ∷ stops ∷ takes ∷ [])

abbrev fresh : Loop
fresh = record { impl = new_impl 8 param; handled = []; waits = 0; ended = false }

abbrev traffic : List Incoming
traffic = connection 1 true ∷ accept_error true ∷ connection 2 false ∷ connection 3 true ∷ []

accept_loop-arrivals_case : ids (accept_loop false traffic fresh).handled ≡ 1 ∷ 2 ∷ 3 ∷ []
accept_loop-arrivals_case = accept_loop-arrivals traffic fresh refl

accept_loop-welcome_example : ids (accept_loop true traffic fresh).handled ≡ 1 ∷ []
accept_loop-welcome_example = accept_loop-welcome traffic fresh refl
