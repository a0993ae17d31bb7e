-- ===== src/RateLimit/Examples.antt =====
-- The rate limiter of hikyuu/httpd/RateLimit.cpp with whole numbers for its tokens.
use hku_rest.Prelude.{ℕ, ◌+◌, ◌-◌, ◌*◌, ◌/◌, ◌≡◌, refl, true, false, [], ◌∷◌, ltb, leb, arith}
use hku_rest.Prelude.Text.{Text, codes, text_eq, ends_with, starts_with, drop_last}
use hku_rest.RateLimit.{
  Doubles, RateLimitConfig, RateLimiter, new_limiter, default_limiter, update_config, allow_request,
  add_ip_whitelist, add_ips_whitelist, add_endpoint_whitelist, Op, call_allow, call_preserve,
  apply_ops,
}
use hku_rest.RateLimit.Bucket.{IsBounded, apply_ops-IsBounded}
use hku_rest.RateLimit.Whitelist.{add_whitelist-config}

ltb_asymmetric : (a b : ℕ) → ltb a b ≡ true → ltb b a ≡ false
ltb_asymmetric a b h = ground arith

ltb_irreflexive : (a : ℕ) → ltb a a ≡ false
ltb_irreflexive a = ground arith

ltb-sub : (a b : ℕ) → ltb a b ≡ false → ltb a (b - 1) ≡ false
ltb-sub a b h = ground arith

abbrev whole_numbers : Doubles
whole_numbers = record {
  Double = ℕ;
  of_nat = λ n. n;
  add = λ a b. a + b;
  sub = λ a b. a - b;
  mul = λ a b. a * b;
  div = λ a b. a / b;
  lt = ltb;
  ge = λ a b. leb b a;
  lt_asymmetric = ltb_asymmetric;
  lt_irreflexive = ltb_irreflexive;
  lt-sub = ltb-sub;
}

-- Two requests at once, ten a second.
abbrev config : RateLimitConfig
config = record {
  enabled = true;
  requests_per_second = 10;
  burst_size = 2;
  window_seconds = 1;
  apply_to_all = true;
  per_ip = false;
  per_endpoint = false;
  ip_whitelist = [];
  endpoint_whitelist = codes "/static/*" ∷ [];
  method_whitelist = [];
}

abbrev ask : Text → Text → Op
ask ip endpoint = call_allow ip endpoint (codes "GET") 0

abbrev twice : RateLimiter whole_numbers
twice =
    apply_ops whole_numbers (ask (codes "a") (codes "/x") ∷ ask (codes "b") (codes "/x") ∷ [])
      (new_limiter whole_numbers config 0)

-- The third request is refused, whoever makes it, unless a pattern exempts its endpoint.
refuses_third :
    (allow_request whole_numbers (codes "c") (codes "/x") (codes "GET") 0 twice).0 ≡ false
unfolding allow_request apply_ops text_eq ends_with starts_with drop_last
refuses_third = refl

exempts_static :
    (allow_request whole_numbers (codes "c") (codes "/static/x") (codes "GET") 0 twice).0 ≡ true
unfolding allow_request apply_ops text_eq ends_with starts_with drop_last
exempts_static = refl

apply_ops-IsBounded_example :
    IsBounded whole_numbers (
      apply_ops whole_numbers (ask (codes "a") (codes "/x") ∷ call_preserve config ∷ []) (
        update_config whole_numbers config (
          apply_ops whole_numbers
            (ask (codes "a") (codes "/x") ∷ [])
            (default_limiter whole_numbers 1000 0))))
    × IsBounded whole_numbers (
        apply_ops whole_numbers
          (ask (codes "a") (codes "/x") ∷ call_preserve config ∷ [])
          (new_limiter whole_numbers config 0))
apply_ops-IsBounded_example =
    apply_ops-IsBounded whole_numbers 1000 config 0 (ask (codes "a") (codes "/x") ∷ [])
      (ask (codes "a") (codes "/x") ∷ call_preserve config ∷ []) (tt, (omega arith, tt))

add_whitelist-config_case :
    ((add_ip_whitelist whole_numbers (codes "10.0.0.1") twice).config ≡ twice.config)
    × (((add_ips_whitelist whole_numbers (codes "10.0.0.2" ∷ []) twice).config ≡ twice.config)
        × ((add_endpoint_whitelist whole_numbers (codes "/y") twice).config ≡ twice.config))
add_whitelist-config_case =
    add_whitelist-config whole_numbers (codes "10.0.0.1") (codes "/y") (codes "10.0.0.2" ∷ []) twice
