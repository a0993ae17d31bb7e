-- ===== src/Server/Consistent.antt =====
-- What holds of the server of hikyuu/httpd/HttpServer.cpp while it runs, and after `stop`.
use hku_rest.Prelude.{
  ℕ, ◌≤◌, ◌<◌, ◌≡◌, ◌∙◌, refl, Bool, true, false, not, ◌&&◌, if_either, Option, none, some, List,
  [], ◌∷◌, arith,
}
use hku_rest.Prelude.Text.{Text}
use hku_rest.Connections.{Manager, init}
use hku_rest.Connections.Lemmas.{advance-flag, expire-flag, arrive-flag}
use hku_rest.Tls.{SslContext, configure_ssl}
use hku_rest.Server.{
  HttpServer, Call, start_call, stop_call, bind_call, connection_move, ws_connection_move, Move,
  arrives, advances, expires, step_manager, tls_call, Outside, is_open, is_some, stop,
  bind_io_context, make_io, make_managers, can_listen, with_context, serve, listen, try_start,
  finish_start, start, call, run, new_server,
}

-- A manager that gives permits.
abbrev pub Serves : Option Manager → Type 0
Serves none = ⊥
Serves (some m) = m.is_shutdown ≡ false

step_manager-Serves : (move : Move) (o : Option Manager) → Serves o → Serves (step_manager move o)
unfolding step_manager
step_manager-Serves move none k = k
step_manager-Serves arrives (some m) k = arrive-flag m ∙ k
step_manager-Serves (advances i) (some m) k = advance-flag i m ∙ k
step_manager-Serves (expires i) (some m) k = expire-flag i m ∙ k

-- What a running server has.
abbrev pub IsServing : HttpServer → Type 0
IsServing s =
    (is_open s.acceptor ≡ true)
    × (is_some s.io_context ≡ true)
    × Serves s.connection_manager
    × Serves s.ws_connection_manager

abbrev pub IsConsistent : HttpServer → Type 0
IsConsistent s =
    (s.running ≡ true → IsServing s)
    × (s.use_external_io ≡ true → is_some s.io_context ≡ true)
    × (s.deleted ≤ s.made)
    × (s.use_external_io ≡ false → is_some s.io_context ≡ true → s.deleted < s.made)

stop-IsConsistent : (s : HttpServer) → IsConsistent s → IsConsistent (stop s)
unfolding stop
stop-IsConsistent s (k, e, l, n) =
    if_either IsConsistent s.running _ s
      (λ t.
        if_either IsConsistent (is_some s.io_context && not s.use_external_io) _ _
          (λ d.
            let mine = n (ground (arith, d)) (ground (arith, d)) in
            (
              (λ h. absurd (cc)),
              (λ h. absurd (ground (arith, d, h))),
              omega arith,
              (λ h i. absurd (cc)),
            ))
          (λ d. ((λ h. absurd (cc)), e, l, n)))
      (λ f. (k, e, l, n))

pub io_of : (s : HttpServer) → IsServing s → is_some s.io_context ≡ true
io_of s (a, i, m, w) = i

not_both : {b : Bool} → b ≡ false → b ≡ true → ⊥
not_both f t = cc

bind_io_context-IsConsistent :
    (io : ℕ) (s : HttpServer) → IsConsistent s → IsConsistent (bind_io_context io s)
unfolding bind_io_context
bind_io_context-IsConsistent io s (k, e, l, n) =
    if_either IsConsistent (is_some s.io_context) s _ (λ t. (k, e, l, n))
      (λ f. ((λ h. absurd (not_both f (io_of s (k h)))), (λ h. refl), l, (λ h i. absurd (cc))))

-- What stands when the acceptor is to be opened.
abbrev pub IsPrepared : HttpServer → Type 0
IsPrepared s =
    (s.running ≡ false)
    × (is_some s.io_context ≡ true)
    × Serves s.connection_manager
    × Serves s.ws_connection_manager
    × (s.deleted ≤ s.made)
    × (s.use_external_io ≡ false → s.deleted < s.made)

prepared :
    (s : HttpServer) → s.running ≡ false → IsConsistent s → IsPrepared (make_io (make_managers s))
unfolding make_managers init
prepared s f (k, e, l, n) =
    if_either IsPrepared s.use_external_io (make_managers s) _
      (λ t. (f, e t, refl, refl, l, (λ h. absurd (cc))))
      (λ u. (f, refl, refl, refl, omega arith, (λ h. omega arith)))

IsPrepared-IsConsistent : (s : HttpServer) → IsPrepared s → IsConsistent s
IsPrepared-IsConsistent s (f, i, m, w, l, n) = ((λ h. absurd (cc)), (λ h. i), l, (λ h j. n h))

-- What a start leaves, before the exception is caught.
abbrev pub IsStarted : Bool × HttpServer → Type 0
IsStarted r = (r.1.running ≡ r.0) × (r.0 ≡ true → is_open r.1.acceptor ≡ true) × IsConsistent r.1

module _ (o : Outside) where
  with_context-IsStarted :
      (s : HttpServer)
      → is_open s.acceptor ≡ true
      → IsPrepared s
      → (c : Option SslContext) → IsStarted (with_context o c s)
  with_context-IsStarted s a (f, i, m, w, l, n) none =
      (f, (λ h. a), ((λ h. absurd (cc)), (λ h. i), l, (λ h j. n h)))
  with_context-IsStarted s a (f, i, m, w, l, n) (some c) =
      (refl, (λ h. a), ((λ h. (a, i, m, w)), (λ h. i), l, (λ h j. n h)))

  serve-IsStarted :
      (s : HttpServer) → is_open s.acceptor ≡ true → IsPrepared s → IsStarted (serve o s)
  unfolding serve
  serve-IsStarted s a (f, i, m, w, l, n) =
      if_either IsStarted s.ssl_config.enabled _ _
        (λ t.
          with_context-IsStarted s a (f, i, m, w, l, n)
            (configure_ssl o.files o.loads s.ssl_config))
        (λ g. (refl, (λ h. a), ((λ h. (a, i, m, w)), (λ h. i), l, (λ h j. n h))))

  listen-IsStarted : (s : HttpServer) → IsPrepared s → IsStarted (listen o s)
  listen-IsStarted s k =
      if_either IsStarted (can_listen o s) _ _
        (λ t. serve-IsStarted (record s { acceptor = some true }) refl k)
        (λ f. (k.0, (λ h. absurd (cc)), IsPrepared-IsConsistent s k))

  finish_start-IsConsistent :
      (r : Bool × HttpServer) → IsStarted r → IsConsistent (finish_start o r)
  unfolding finish_start
  finish_start-IsConsistent r (e, a, k) =
      if_either IsConsistent r.0 _ _ (λ t. k) (λ f. stop-IsConsistent r.1 k)

  call-IsConsistent : (c : Call) (s : HttpServer) → IsConsistent s → IsConsistent (call o c s)
  unfolding call start
  call-IsConsistent start_call s k =
      if_either IsConsistent s.running s _ (λ t. k)
        (λ f.
          finish_start-IsConsistent (try_start o s)
            (listen-IsStarted (make_io (make_managers s)) (prepared s f k)))
  call-IsConsistent stop_call s k = stop-IsConsistent s k
  call-IsConsistent (connection_move move) s (k, e, l, n) = (
    (λ h. let (a, i, m, w) = k h in (a, i, step_manager-Serves move s.connection_manager m, w)),
    e,
    l,
    n,
  )
  call-IsConsistent (ws_connection_move move) s (k, e, l, n) = (
    (λ h. let (a, i, m, w) = k h in (a, i, m, step_manager-Serves move s.ws_connection_manager w)),
    e,
    l,
    n,
  )
  call-IsConsistent (bind_call io) s k = bind_io_context-IsConsistent io s k
  call-IsConsistent (tls_call config) s k = k

run_keeps :
    (calls : List (Outside × Call)) (s : HttpServer) → IsConsistent s → IsConsistent (run calls s)
run_keeps [] s k = k
run_keeps ((o, c) ∷ rest) s k = run_keeps rest (call o c s) (call-IsConsistent o c s k)

-- After any calls of a new server and moves of its connections, with any files and ports, it has, while it is running, an open
-- acceptor, an `io_context` and two managers that give permits; an `io_context` that was bound is
-- still there, and no more of its own are deleted than were made.
pub run-IsConsistent :
    (host : Text) (calls : List (Outside × Call)) → IsConsistent (run calls (new_server host))
run-IsConsistent host calls =
    run_keeps calls (new_server host)
      ((λ h. absurd (cc)), (λ h. absurd (cc)), omega arith, (λ h i. absurd (cc)))
