-- ===== src/RateLimit/Bucket.antt =====
-- The bucket of hikyuu/httpd/RateLimit.cpp never holds more than the burst size.
use hku_rest.Prelude.{
  ℕ, ◌-◌, ◌/◌, ◌^◌, ◌≡◌, ◌<◌, refl, Bool, true, false, Bool-cases, inl, inr, List, [], ◌∷◌, ◌++◌,
  ltb, if◌then◌else◌, All, arith,
}
use hku_rest.Prelude.Text.{Text}
use hku_rest.RateLimit.{
  Doubles, RateLimitConfig, RateLimiter, is_listed, all_listed, is_exempt, one, min_double, burst,
  new_limiter, default_limiter, refill, take_token, allow_request, update_config,
  update_config_preserve_whitelist, add_ip_whitelist, add_ips_whitelist, add_endpoint_whitelist, Op,
  call_allow, call_update, call_preserve, call_reset, call_add_ip, call_add_endpoint, call_add_ips,
  apply_op, apply_ops, push_ips,
}

module _ (F : Doubles) where
  -- The burst size is not less than the tokens.
  abbrev pub IsBounded : RateLimiter F → Type 0
  IsBounded l = F.lt (burst F l.config) l.tokens ≡ false

  min-bound : (a x : F.Double) → F.lt a (min_double F a x) ≡ false
  min-bound a x = elim (Bool-cases (F.lt x a)) [
    | inl t ↦ rw t (F.lt_asymmetric x a t)
    | inr f ↦ rw f (F.lt_irreflexive a)
  ]

  refill-IsBounded : (now : ℕ) (l : RateLimiter F) → IsBounded l → IsBounded (refill F now l)
  refill-IsBounded now l h = elim (Bool-cases (ltb 0 ((now - l.last_update) / 10 ^ 6))) [
    | inl t ↦ rw t (min-bound (burst F l.config) _)
    | inr f ↦ rw f h
  ]

  take_token-IsBounded :
      (now : ℕ) (l : RateLimiter F) → IsBounded l → IsBounded (take_token F now l).1
  take_token-IsBounded now l h = elim (Bool-cases (F.ge l.tokens (one F))) [
    | inl t ↦ rw t (F.lt-sub (burst F l.config) l.tokens h)
    | inr f ↦ rw f h
  ]

  preserve-IsBounded :
      (c : RateLimitConfig) (l : RateLimiter F)
      → (c.requests_per_second ≡ 0 → c.burst_size ≡ l.config.burst_size)
      → IsBounded l
      → IsBounded (update_config_preserve_whitelist F c l)
  unfolding update_config_preserve_whitelist
  preserve-IsBounded c l same h = elim (Bool-cases (ltb 0 c.requests_per_second)) [
    | inl t ↦ rw t (min-bound (burst F c) _)
    | inr f ↦ rw (f, same (ground arith)) h
  ]

  allow-IsBounded :
      (ip endpoint method : Text) (now : ℕ) (l : RateLimiter F)
      → IsBounded l
      → IsBounded (allow_request F ip endpoint method now l).1
  unfolding allow_request
  allow-IsBounded ip endpoint method now l h =
      elim (Bool-cases (is_exempt l.config ip endpoint method)) [
        | inl t ↦ rw t h
        | inr f ↦ rw f (take_token-IsBounded now (refill F now l) (refill-IsBounded now l h))
      ]

  update-IsBounded : (c : RateLimitConfig) (l : RateLimiter F) → IsBounded (update_config F c l)
  unfolding update_config
  update-IsBounded c l = elim (Bool-cases (ltb 0 l.config.requests_per_second)) [
    | inl t ↦ rw t (min-bound (burst F c) _)
    | inr f ↦ rw f (F.lt_irreflexive (burst F c))
  ]

  -- A call that keeps the whitelists and sets the rate to 0 leaves the burst size alone.
  abbrev pub IsSafe : Op → Type 0
  IsSafe (call_preserve c) = 0 < c.requests_per_second
  IsSafe _ = Unit

  add-IsBounded :
      (b : Bool) (c : RateLimitConfig) (l : RateLimiter F)
      → c.requests_per_second ≡ l.config.requests_per_second
      → c.burst_size ≡ l.config.burst_size
      → IsBounded l
      → IsBounded (if b then l else update_config_preserve_whitelist F c l)
  add-IsBounded true c l e e' h = h
  add-IsBounded false c l e e' h = preserve-IsBounded c l (λ z. e') h

  apply_op-IsBounded :
      (c : Op) (l : RateLimiter F) → IsSafe c → IsBounded l → IsBounded (apply_op F c l)
  unfolding apply_op add_ip_whitelist add_ips_whitelist add_endpoint_whitelist
  apply_op-IsBounded (call_allow ip endpoint method now) l s h =
      allow-IsBounded ip endpoint method now l h
  apply_op-IsBounded (call_update c) l s h = update-IsBounded c l
  apply_op-IsBounded (call_preserve c) l s h = preserve-IsBounded c l (λ z. absurd (omega arith)) h
  apply_op-IsBounded (call_reset now) l s h = F.lt_irreflexive (burst F l.config)
  apply_op-IsBounded (call_add_ip ip) l s h =
      add-IsBounded (is_listed ip l.config.ip_whitelist)
        (record l.config { ip_whitelist = l.config.ip_whitelist ++ ip ∷ [] }) l refl refl h
  apply_op-IsBounded (call_add_endpoint e) l s h =
      add-IsBounded (is_listed e l.config.endpoint_whitelist)
        (record l.config { endpoint_whitelist = l.config.endpoint_whitelist ++ e ∷ [] }) l refl refl
        h
  apply_op-IsBounded (call_add_ips ips) l s h =
      add-IsBounded (all_listed ips l.config.ip_whitelist)
        (record l.config { ip_whitelist = push_ips ips l.config.ip_whitelist }) l refl refl h

  apply_ops-kept :
      (cs : List Op) (l : RateLimiter F)
      → All IsSafe cs
      → IsBounded l
      → IsBounded (apply_ops F cs l)
  unfolding apply_ops
  apply_ops-kept [] l s h = h
  apply_ops-kept (c ∷ cs) l s h =
      apply_ops-kept cs (apply_op F c l) s.1 (apply_op-IsBounded c l s.0 h)

-- The limiter of a server starts with any number of tokens and takes any calls; from a call of
-- `updateConfig` on the burst size is not less than the tokens, if no later call of
-- `updateConfigPreserveWhitelist` sets the rate to 0. Of a limiter that is made from a configuration the
-- same holds from the start.
pub apply_ops-IsBounded :
    (F : Doubles) (tokens : F.Double) (c : RateLimitConfig) (now : ℕ) (before later : List Op)
    → All (IsSafe F) later
    → IsBounded F
        (apply_ops F later (update_config F c (apply_ops F before (default_limiter F tokens now))))
      × IsBounded F (apply_ops F later (new_limiter F c now))
apply_ops-IsBounded F tokens c now before later s = (
  apply_ops-kept F later (update_config F c (apply_ops F before (default_limiter F tokens now))) s
      (update-IsBounded F c (apply_ops F before (default_limiter F tokens now))),
  apply_ops-kept F later (new_limiter F c now) s (F.lt_irreflexive (burst F c)),
)
