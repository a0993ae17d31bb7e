-- ===== src/Mqtt/Restart.antt =====
-- A broker of hikyuu/mqtt/MqttBroker.cpp starts once.
use hku_rest.Prelude.{ℕ, ◌≡◌, ◌≢◌, refl, inl, inr, Bool, true, false, ◌&&◌, Bool-cases, ◌==◌, arith}
use hku_rest.Mqtt.Keeps.{ws-keeps}
use hku_rest.Mqtt.{Impl, threw, elem, can_bind, listen, entered, start, stop}

-- The port is open, and it is that of the configuration.
abbrev Holds : ℕ → Impl → Type 0
Holds p s = (s.config.mqtt_port ≡ p) × (elem p s.listeners ≡ true)

module _ (free : ℕ → Bool) (files_ok : Bool) where
  listen-Holds : (p q : ℕ) (s : Impl) → Holds p s → Holds p (listen free files_ok q s)
  listen-Holds p q s h = (h.0, ground (arith, h.1))

  start-Holds :
      (s : Impl)
      → s.running ≡ false
      → s.config.mqtt_port ≢ 0
      → can_bind free files_ok s.config.mqtt_port s ≡ true
      → Holds s.config.mqtt_port (start free files_ok s).1
  unfolding start
  start-Holds s r n b =
      rw (r, nonzero s.config.mqtt_port n, b)
        (ws-keeps (Holds s.config.mqtt_port) free files_ok (listen-Holds s.config.mqtt_port)
          (λ s h. h) (λ s h. h) (listen free files_ok s.config.mqtt_port (entered free files_ok s))
          (refl, ground arith))
    where
      nonzero : (p : ℕ) → p ≢ 0 → (p == 0) ≡ false
      nonzero p n = ground arith

stop-Holds : (p : ℕ) (s : Impl) → Holds p s → Holds p (stop s) × ((stop s).running ≡ false)
unfolding stop
stop-Holds p s h = elim (Bool-cases s.running) [ inl t ↦ rw t (h, refl) | inr f ↦ rw f (h, refl) ]

module _ (free : ℕ → Bool) (files_ok : Bool) where
  Holds-throws :
      (p : ℕ) (s : Impl) → p ≢ 0 → Holds p s → s.running ≡ false → (start free files_ok s).0 ≡ threw
  unfolding start
  Holds-throws p s n h r = rw (r, h.0, nonzero p n, h.1, never (free p)) refl
    where
      nonzero : (p : ℕ) → p ≢ 0 → (p == 0) ≡ false
      nonzero p n = ground arith

      never : (b : Bool) → (b && false) ≡ false
      never true = refl
      never false = refl

-- A broker that was started once, with an MQTT port that it could open, cannot be started again: after
-- `stop`, and also where the first `start` threw at its WebSocket port, the next `start` throws,
-- whichever ports are free by then.
pub start_throws_again :
    (free free' : ℕ → Bool) (files_ok files_ok' : Bool) (s : Impl)
    → s.running ≡ false
    → s.config.mqtt_port ≢ 0
    → can_bind free files_ok s.config.mqtt_port s ≡ true
    → (start free' files_ok' (stop (start free files_ok s).1)).0 ≡ threw
start_throws_again free free' files_ok files_ok' s r n b =
    let held = start-Holds free files_ok s r n b in
    let (stopped, idle) = stop-Holds s.config.mqtt_port (start free files_ok s).1 held in
    Holds-throws free' files_ok' s.config.mqtt_port (stop (start free files_ok s).1) n stopped idle
