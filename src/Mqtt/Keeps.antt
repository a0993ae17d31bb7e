-- ===== src/Mqtt/Keeps.antt =====
-- What every part of `start` of hikyuu/mqtt/MqttBroker.cpp keeps, its whole keeps.
use hku_rest.Prelude.{if_either, ℕ, inl, inr, Bool, false, ◌&&◌, Bool-cases, ◌==◌}
use hku_rest.Mqtt.{
  Started, already_running, Impl, can_bind, listen, entered, start_plain_listener,
  start_secure_listener, has_files, start_secure, after_ws, after_mqtt, run_contexts, start,
}

module _ (P : Impl → Type 0) (free : ℕ → Bool) (files_ok : Bool)
    (on_listen : (q : ℕ) (s : Impl) → P s → P (listen free files_ok q s))
    (on_run : (s : Impl) → P s → P (run_contexts free files_ok s).1)
    (on_fail : (s : Impl) → P s → P (record s { running = false })) where
  secure-keeps : (q : ℕ) (s : Impl) → P s → P (start_secure_listener free files_ok q s)
  secure-keeps q s h = elim (Bool-cases (q == 0)) [
    | inl t ↦ rw t h
    | inr f ↦
        elim (Bool-cases
          (has_files free files_ok s.config && (files_ok && can_bind free files_ok q s))) [
            | inl t ↦ rw (f, t) (on_listen q s h)
            | inr g ↦ rw (f, g) h
          ]
  ]

  start_secure-keeps : (s : Impl) → P s → P (start_secure free files_ok s).1
  start_secure-keeps s h =
      let tls = secure-keeps s.config.tls_port s h in
      on_run _ (
        secure-keeps s.config.wss_port (start_secure_listener free files_ok s.config.tls_port s)
          tls)

  pub ws-keeps :
      (s : Impl)
      → P s
      → P (after_ws free files_ok s (start_plain_listener free files_ok s.config.ws_port s)).1
  ws-keeps s h = elim (Bool-cases (s.config.ws_port == 0)) [
    | inl t ↦ rw t (start_secure-keeps s h)
    | inr f ↦ elim (Bool-cases (can_bind free files_ok s.config.ws_port s)) [
      | inl t ↦
          rw (f, t)
            (start_secure-keeps (listen free files_ok s.config.ws_port s)
              (on_listen s.config.ws_port s h))
      | inr g ↦ rw (f, g) (on_fail s h)
    ]
  ]

  mqtt-keeps :
      (s : Impl)
      → P s
      → P (after_mqtt free files_ok s (start_plain_listener free files_ok s.config.mqtt_port s)).1
  mqtt-keeps s h = elim (Bool-cases (s.config.mqtt_port == 0)) [
    | inl t ↦ rw t (ws-keeps s h)
    | inr f ↦ elim (Bool-cases (can_bind free files_ok s.config.mqtt_port s)) [
      | inl t ↦
          rw (f, t)
            (ws-keeps (listen free files_ok s.config.mqtt_port s)
              (on_listen s.config.mqtt_port s h))
      | inr g ↦ rw (f, g) (on_fail s h)
    ]
  ]

  pub start-keeps :
      ((s : Impl) → P s → P (entered free files_ok s))
      → (s : Impl) → P s
      → P (start free files_ok s).1
  unfolding start
  start-keeps on_enter s h =
      if_either (λ (r : Started × Impl). P r.1) s.running (already_running, s) _ (λ t. h)
        (λ f. mqtt-keeps (entered free files_ok s) (on_enter s h))
