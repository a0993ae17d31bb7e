-- ===== src/Server/Stopped.antt =====
-- What `stop` of hikyuu/httpd/HttpServer.cpp leaves of a running server.
use hku_rest.Prelude.{
  ◌<◌, ◌≢◌, ◌==◌, get_elem?, count_if-append, ◌++◌, ℕ, ◌≡◌, refl, Bool, true, false, not, ◌&&◌,
  if_either, Option, none, some, List, [], ◌∷◌, ◌++◌, arith,
}
use hku_rest.Prelude.Text.{Text}
use hku_rest.Tls.{SslContext, configure_ssl}
use hku_rest.Connections.Shutdown.{cancel_each, cancel_each-wakes}
use hku_rest.Connections.{
  occurs, suspended, Manager, raise_flag, drain, cancel_first, reset_waiting,
}
use hku_rest.Server.{
  HttpServer, cancel_all, Outside, start_call, stop_call, bind_call, connection_move,
  ws_connection_move, tls_call, bind_io_context, make_io, make_managers, can_listen, with_context,
  serve, listen, try_start, finish_start, call, shutdown, shut, is_open, is_some, close_acceptor,
  stop, start, run, Call,
}
use hku_rest.Server.Consistent.{IsConsistent, Serves}

-- What `shutdown` makes of a manager: it gives no more permits, has nobody in its queue and no timer
-- left to cancel, and of the coroutines that waited in the queue none is suspended.
abbrev pub IsShut : Option Manager → Option Manager → Type 0
IsShut (some m) (some m') =
    (m'.is_shutdown ≡ true)
    × (m'.wait_queue ≡ [])
    × (m'.cancelling ≡ [])
    × ((j : ℕ) → 0 < occurs j m.wait_queue → get_elem? m'.procs j ≢ some suspended)
IsShut _ _ = ⊥

cancel_all_lem :
    (js : List ℕ) (m : Manager)
    → m.cancelling ≡ js
    → cancel_all js m ≡ record m { cancelling = []; procs = cancel_each js m.procs }
unfolding cancel_each cancel_first
cancel_all_lem [] m e = ground arith
cancel_all_lem (j ∷ js) m e = cancel_all_lem js (cancel_first (j ∷ js) m) refl

shutdown-IsShut : (m : Manager) → IsShut (some m) (some (shutdown m))
unfolding shutdown raise_flag drain reset_waiting
shutdown-IsShut m =
    let js = m.cancelling ++ m.wait_queue in
    rw (cancel_all_lem js (drain (raise_flag m)) refl) (
      refl,
      refl,
      refl,
      λ j h.
          cancel_each-wakes js j m.procs
            (omega (arith, h, count_if-append (λ k. k == j) m.cancelling m.wait_queue)),
    )

shut-IsShut : (o : Option Manager) → Serves o → IsShut o (shut o)
shut-IsShut none k = absurd k
shut-IsShut (some m) k = shutdown-IsShut m

close_acceptor-closed : (a : Option Bool) → is_open a ≡ true → close_acceptor a ≡ some false
close_acceptor-closed none h = absurd (cc)
close_acceptor-closed (some b) h = refl

-- At rest, with an `io_context` if it was bound before.
abbrev pub IsRested : HttpServer → HttpServer → Type 0
IsRested s s' =
    (s'.running ≡ false)
    × (s'.acceptor ≡ some false)
    × (is_some s'.io_context ≡ s.use_external_io)
    × IsShut s.connection_manager s'.connection_manager
    × IsShut s.ws_connection_manager s'.ws_connection_manager

-- `stop` of a running server closes its acceptor, keeps an `io_context` just if that was bound, and
-- shuts both managers down.
pub stop-IsRested : (s : HttpServer) → IsConsistent s → s.running ≡ true → IsRested s (stop s)
unfolding stop
stop-IsRested s (k, e, l, n) t =
    let (a, i, m, w) = k t in
    let closed = close_acceptor-closed s.acceptor a in
    let m' = shut-IsShut s.connection_manager m in
    let w' = shut-IsShut s.ws_connection_manager w in
    if_either (IsRested s) s.running _ s
      (λ u.
        if_either (IsRested s) (is_some s.io_context && not s.use_external_io) _ _
          (λ d. (refl, closed, ground (arith, d), m', w'))
          (λ d. (refl, closed, ground (arith, d, i), m', w')))
      (λ f. absurd (cc))

-- A context that was bound, and is stopped.
abbrev pub IsDead : HttpServer → Type 0
IsDead s = (s.use_external_io ≡ true) × (is_some s.io_context ≡ true) × (s.io_stopped ≡ true)

stop-IsDead : (s : HttpServer) → IsDead s → IsDead (stop s)
unfolding stop
stop-IsDead s (e, i, d) =
    if_either IsDead s.running _ s
      (λ t.
        if_either IsDead (is_some s.io_context && not s.use_external_io) _ _
          (λ h. absurd (ground (arith, h, e))) (λ h. (e, i, i)))
      (λ f. (e, i, d))

not_both : {b : Bool} → b ≡ false → b ≡ true → ⊥
not_both f t = cc

bind_io_context-IsDead : (io : ℕ) (s : HttpServer) → IsDead s → IsDead (bind_io_context io s)
unfolding bind_io_context
bind_io_context-IsDead io s k =
    if_either IsDead (is_some s.io_context) s _ (λ t. k) (λ f. absurd (not_both f k.1))

module _ (o : Outside) where
  with_context-IsDead :
      (c : Option SslContext) (s : HttpServer) → IsDead s → IsDead (with_context o c s).1
  with_context-IsDead none s k = k
  with_context-IsDead (some c) s k = k

  listen-IsDead : (s : HttpServer) → IsDead s → IsDead (listen o s).1
  unfolding serve
  listen-IsDead s k =
      if_either (λ (r : Bool × HttpServer). IsDead r.1) (can_listen o s) _ _
        (λ t.
          if_either (λ (r : Bool × HttpServer). IsDead r.1) s.ssl_config.enabled _ _
            (λ u.
              with_context-IsDead (configure_ssl o.files o.loads s.ssl_config)
                (record s { acceptor = some true }) k)
            (λ u. k))
        (λ f. k)

  call-IsDead : (c : Call) (s : HttpServer) → IsDead s → IsDead (call o c s)
  unfolding call start make_managers finish_start
  call-IsDead start_call s k =
      let kept =
        if_either IsDead s.use_external_io (make_managers s) _ (λ t. k)
          (λ f. absurd (not_both f k.0)) in
      let listening = listen-IsDead (make_io (make_managers s)) kept in
      if_either IsDead s.running s _ (λ t. k)
        (λ f.
          if_either IsDead (try_start o s).0 _ _ (λ t. listening)
            (λ u. stop-IsDead (try_start o s).1 listening))
  call-IsDead stop_call s k = stop-IsDead s k
  call-IsDead (connection_move move) s k = k
  call-IsDead (ws_connection_move move) s k = k
  call-IsDead (bind_call io) s k = bind_io_context-IsDead io s k
  call-IsDead (tls_call config) s k = k

-- A bound `io_context` that was stopped stays bound and stopped, whatever is called after that, a start
-- included.
pub run-IsDead : (calls : List (Outside × Call)) (s : HttpServer) → IsDead s → IsDead (run calls s)
run-IsDead [] s k = k
run-IsDead ((o, c) ∷ rest) s k = run-IsDead rest (call o c s) (call-IsDead o c s k)
