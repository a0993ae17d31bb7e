-- ===== src/Server/Failed.antt =====
-- A start of hikyuu/httpd/HttpServer.cpp that fails after the port was opened.
use hku_rest.Prelude.{
  ℕ, ◌≡◌, ◌∙◌, refl, sym, ap, subst, Bool, true, false, if_either, none, some, List, [], ◌∷◌, arith,
}
use hku_rest.Tls.{configure_ssl}
use hku_rest.Server.{
  HttpServer, Call, start_call, stop_call, bind_call, connection_move, ws_connection_move, tls_call,
  Outside, is_some, stop, bind_io_context, make_io, make_managers, can_listen, with_context, serve,
  listen, finish_start, start, call, run,
}

-- Not running, and the port held.
abbrev pub IsStuck : HttpServer → Type 0
IsStuck s = (s.running ≡ false) × (s.acceptor ≡ some true)

stop-idle : (s : HttpServer) → s.running ≡ false → stop s ≡ s
unfolding stop
stop-idle s h = rw h refl

make_io-IsStuck : (s : HttpServer) → IsStuck s → IsStuck (make_io s)
make_io-IsStuck s k = if_either IsStuck s.use_external_io s _ (λ t. k) (λ f. k)

stop-IsStuck : (s : HttpServer) → IsStuck s → IsStuck (stop s)
stop-IsStuck s k = subst IsStuck (sym (stop-idle s k.0)) k

bind_io_context-IsStuck : (io : ℕ) (s : HttpServer) → IsStuck s → IsStuck (bind_io_context io s)
unfolding bind_io_context
bind_io_context-IsStuck io s k = if_either IsStuck (is_some s.io_context) s _ (λ t. k) (λ f. k)

module _ (o : Outside) where
  can_listen-held : (s : HttpServer) → s.acceptor ≡ some true → can_listen o s ≡ false
  can_listen-held s h = rw h (ground arith)

  listen-held : (s : HttpServer) → s.acceptor ≡ some true → listen o s ≡ (false, s)
  listen-held s h =
      if_either (λ (r : Bool × HttpServer). r ≡ (false, s)) (can_listen o s) _ (false, s)
        (λ t. absurd (ground (arith, t, can_listen-held s h))) (λ f. refl)

  start-IsStuck : (s : HttpServer) → IsStuck s → IsStuck (start o s)
  unfolding start make_managers
  start-IsStuck s k =
      let made = make_io-IsStuck (make_managers s) k in
      if_either IsStuck s.running s _ (λ t. k)
        (λ f.
          subst (λ r. IsStuck (finish_start o r)) (sym (listen-held _ made.1))
            (stop-IsStuck (make_io (make_managers s)) made))

  call-IsStuck : (c : Call) (s : HttpServer) → IsStuck s → IsStuck (call o c s)
  unfolding call
  call-IsStuck start_call s k = start-IsStuck s k
  call-IsStuck stop_call s k = stop-IsStuck s k
  call-IsStuck (connection_move move) s k = k
  call-IsStuck (ws_connection_move move) s k = k
  call-IsStuck (bind_call io) s k = bind_io_context-IsStuck io s k
  call-IsStuck (tls_call config) s k = k

run-IsStuck : (calls : List (Outside × Call)) (s : HttpServer) → IsStuck s → IsStuck (run calls s)
run-IsStuck [] s k = k
run-IsStuck ((o, c) ∷ rest) s k = run-IsStuck rest (call o c s) (call-IsStuck o c s k)

module _ (o : Outside) where
  listen-refused :
      (s : HttpServer)
      → can_listen o s ≡ true
      → s.ssl_config.enabled ≡ true
      → configure_ssl o.files o.loads s.ssl_config ≡ none
      → listen o s ≡ (false, record s { acceptor = some true })
  unfolding serve
  listen-refused s free tls refused =
      if_either (λ (r : Bool × HttpServer). r ≡ (false, record s { acceptor = some true }))
        (can_listen o s) _ (false, s)
        (λ t.
          if_either (λ (r : Bool × HttpServer). r ≡ (false, record s { acceptor = some true }))
            s.ssl_config.enabled _ _
            (λ u. ap (λ x. with_context o x (record s { acceptor = some true })) refused)
            (λ u. absurd (cc)))
        (λ f. absurd (cc))

  -- The fields that `make_io` leaves.
  make_io-same :
      (s : HttpServer)
      → ((make_io s).running ≡ s.running)
        × (can_listen o (make_io s) ≡ can_listen o s)
        × ((make_io s).ssl_config ≡ s.ssl_config)
  make_io-same s =
      if_either
        (λ (r : HttpServer).
          (r.running ≡ s.running)
          × (can_listen o r ≡ can_listen o s)
          × (r.ssl_config ≡ s.ssl_config))
        s.use_external_io s _ (λ t. (refl, refl, refl)) (λ f. (refl, refl, refl))

  -- After a start that could listen and then found that the TLS configuration cannot be used, the
  -- server holds its port and is not running, whatever is called after that, with whatever files and
  -- ports.
  pub start-IsStuck_forever :
      (s : HttpServer) (calls : List (Outside × Call))
      → s.running ≡ false
      → can_listen o s ≡ true
      → s.ssl_config.enabled ≡ true
      → configure_ssl o.files o.loads s.ssl_config ≡ none
      → IsStuck (run calls (start o s))
  unfolding start make_managers
  start-IsStuck_forever s calls idle free tls refused =
      let (r, l, c) = make_io-same (make_managers s) in
      let ready = make_io (make_managers s) in
      let failed =
        listen-refused ready (l ∙ free) (ap (λ k. k.enabled) c ∙ tls)
          (ap (configure_ssl o.files o.loads) c ∙ refused) in
      run-IsStuck calls _ (
        if_either IsStuck s.running s _ (λ t. absurd (cc))
          (λ f.
            subst (λ x. IsStuck (finish_start o x)) (sym failed)
              (stop-IsStuck (record ready { acceptor = some true }) (r ∙ idle, refl))))
