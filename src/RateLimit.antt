-- ===== src/RateLimit.antt =====
-- hikyuu/httpd/RateLimit.h and RateLimit.cpp, and the rate-limit methods of HttpServer.cpp: one
-- token bucket for all clients. Times are nanoseconds of the steady clock.
pub mod Bucket
pub mod Whitelist
pub mod Examples
use hku_rest.Prelude.{
  ℕ, ◌+◌, ◌-◌, ◌*◌, ◌/◌, ◌^◌, ◌≡◌, Bool, true, false, not, ◌&&◌, ◌||◌, List, [], ◌∷◌, ◌++◌, ltb,
  leb, if◌then◌else◌, is_empty,
}
use hku_rest.Prelude.Text.{Text, text_eq, starts_with, ends_with, drop_last}

-- The numbers of type `double`: the operations that the bucket uses, and what IEEE 754 says of `<`,
-- also for a value that is no number: it is asymmetric, and taking one away makes nothing larger.
pub record Doubles : Type 1 where
  pub Double : Type 0
  pub of_nat : ℕ → Double
  pub add : Double → Double → Double
  pub sub : Double → Double → Double
  pub mul : Double → Double → Double
  pub div : Double → Double → Double
  pub lt : Double → Double → Bool
  pub ge : Double → Double → Bool
  pub lt_asymmetric : (a b : Double) → lt a b ≡ true → lt b a ≡ false
  pub lt_irreflexive : (a : Double) → lt a a ≡ false
  pub lt-sub : (a b : Double) → lt a b ≡ false → lt a (sub b (of_nat 1)) ≡ false

pub record RateLimitConfig : Type 0 where
  pub enabled : Bool
  pub requests_per_second : ℕ
  pub burst_size : ℕ
  pub window_seconds : ℕ
  pub apply_to_all : Bool
  pub per_ip : Bool
  pub per_endpoint : Bool
  pub ip_whitelist : List Text
  pub endpoint_whitelist : List Text
  pub method_whitelist : List Text

abbrev pub default_config : RateLimitConfig
default_config = record {
  enabled = false;
  requests_per_second = 10;
  burst_size = 20;
  window_seconds = 1;
  apply_to_all = true;
  per_ip = false;
  per_endpoint = false;
  ip_whitelist = [];
  endpoint_whitelist = [];
  method_whitelist = [];
}

abbrev pub is_listed : Text → List Text → Bool
is_listed x [] = false
is_listed x (y ∷ ys) = text_eq x y || is_listed x ys

abbrev pub push_ips : List Text → List Text → List Text
push_ips [] listed = listed
push_ips (ip ∷ ips) listed =
    push_ips ips (if is_listed ip listed then listed else listed ++ ip ∷ [])

abbrev pub all_listed : List Text → List Text → Bool
all_listed [] listed = true
all_listed (ip ∷ ips) listed = is_listed ip listed && all_listed ips listed

-- The entry itself, or the prefix before its `*`. An empty entry, whose `back()` is undefined, counts
-- as one without `*`.
abbrev pub covers : Text → Text → Bool
covers entry endpoint =
    text_eq endpoint entry || ends_with b'*' entry && starts_with endpoint (drop_last entry)

abbrev pub is_covered : Text → List Text → Bool
is_covered endpoint [] = false
is_covered endpoint (y ∷ ys) = covers y endpoint || is_covered endpoint ys

pub is_exempt : RateLimitConfig → Text → Text → Text → Bool
is_exempt c ip endpoint method =
    not c.enabled
    || (not (is_empty ip) && is_listed ip c.ip_whitelist
        || (not (is_empty endpoint) && is_covered endpoint c.endpoint_whitelist
            || not (is_empty method) && is_listed method c.method_whitelist))

module _ (F : Doubles) where
  pub record RateLimitStats : Type 0 where
    pub total_requests : ℕ
    pub allowed_requests : ℕ
    pub rejected_requests : ℕ
    pub current_rate : F.Double
    pub last_update : ℕ

  pub record RateLimiter : Type 0 where
    pub config : RateLimitConfig
    pub tokens : F.Double
    pub last_update : ℕ
    pub stats : RateLimitStats

  abbrev pub one : F.Double
  one = F.of_nat 1

  -- `std::min(a, b)`
  abbrev pub min_double : F.Double → F.Double → F.Double
  min_double a b = if F.lt b a then b else a

  abbrev pub burst : RateLimitConfig → F.Double
  burst c = F.of_nat c.burst_size

  -- The default constructor, which leaves the tokens as the memory had them: `HttpServer` has such a
  -- limiter. `last_update` is then the epoch of the clock.
  abbrev pub default_limiter : F.Double → ℕ → RateLimiter
  default_limiter tokens now = record {
    config = default_config;
    tokens = tokens;
    last_update = 0;
    stats = record {
      total_requests = 0;
      allowed_requests = 0;
      rejected_requests = 0;
      current_rate = F.of_nat 0;
      last_update = now;
    };
  }

  abbrev pub new_limiter : RateLimitConfig → ℕ → RateLimiter
  new_limiter c now = record {
    config = c;
    tokens = burst c;
    last_update = now;
    stats = record {
      total_requests = 0;
      allowed_requests = 0;
      rejected_requests = 0;
      current_rate = F.of_nat 0;
      last_update = now;
    };
  }

  abbrev pub refill : ℕ → RateLimiter → RateLimiter
  refill now l =
      let elapsed = (now - l.last_update) / 10 ^ 6 in
      let added =
        F.mul (F.div (F.of_nat elapsed) (F.of_nat 1000)) (F.of_nat l.config.requests_per_second) in
      if ltb 0 elapsed
      then record l {
        tokens = min_double (burst l.config) (F.add l.tokens added);
        last_update = now;
      }
      else l

  -- The rate over a window that has run out, and the count for the next.
  abbrev pub close_window : ℕ → ℕ → RateLimitStats → RateLimitStats
  close_window now window s =
      let seconds = (now - s.last_update) / 10 ^ 9 in
      if leb window seconds
      then (record s {
        current_rate = F.div (F.of_nat s.allowed_requests) (F.of_nat seconds);
        last_update = now;
        allowed_requests = 0;
      })
      else s

  abbrev pub count_allowed : ℕ → RateLimiter → RateLimiter
  count_allowed now l = record l {
    tokens = F.sub l.tokens one;
    stats =
        close_window now l.config.window_seconds
          (record l.stats { allowed_requests = l.stats.allowed_requests + 1 });
  }

  abbrev pub count_rejected : RateLimiter → RateLimiter
  count_rejected l = record l {
    stats = record l.stats { rejected_requests = l.stats.rejected_requests + 1 };
  }

  -- The locked part of `allowRequest`, after the refill.
  abbrev pub take_token : ℕ → RateLimiter → Bool × RateLimiter
  take_token now l =
      let counted = record l {
        stats = record l.stats { total_requests = l.stats.total_requests + 1 };
      } in
      if F.ge l.tokens one
      then (true, count_allowed now counted)
      else (false, count_rejected counted)

  pub allow_request : Text → Text → Text → ℕ → RateLimiter → Bool × RateLimiter
  unfolding is_exempt
  allow_request ip endpoint method now l =
      if is_exempt l.config ip endpoint method then (true, l) else take_token now (refill now l)

  pub update_config : RateLimitConfig → RateLimiter → RateLimiter
  update_config c l =
      let ratio = F.div (F.of_nat c.requests_per_second) (F.of_nat l.config.requests_per_second) in
      record l {
        config = c;
        tokens =
            if ltb 0 l.config.requests_per_second
            then min_double (burst c) (F.mul l.tokens ratio)
            else burst c;
      }

  -- The ratio is taken after the new rate was stored, and between integers.
  pub update_config_preserve_whitelist : RateLimitConfig → RateLimiter → RateLimiter
  update_config_preserve_whitelist c l =
      let kept = record c {
        ip_whitelist = l.config.ip_whitelist;
        endpoint_whitelist = l.config.endpoint_whitelist;
        method_whitelist = l.config.method_whitelist;
      } in
      let ratio = F.of_nat (c.requests_per_second / kept.requests_per_second) in
      record l {
        config = kept;
        tokens =
            if ltb 0 c.requests_per_second
            then min_double (burst c) (F.mul l.tokens ratio)
            else l.tokens;
      }

  abbrev pub reset : ℕ → RateLimiter → RateLimiter
  reset now l = new_limiter l.config now

  -- `HttpServer::addRateLimitIpWhitelist`, for one address and for several.
  pub add_ip_whitelist : Text → RateLimiter → RateLimiter
  unfolding update_config_preserve_whitelist
  add_ip_whitelist ip l =
      if is_listed ip l.config.ip_whitelist
      then l
      else update_config_preserve_whitelist
          (record l.config { ip_whitelist = l.config.ip_whitelist ++ ip ∷ [] }) l

  pub add_ips_whitelist : List Text → RateLimiter → RateLimiter
  unfolding update_config_preserve_whitelist
  add_ips_whitelist ips l =
      if all_listed ips l.config.ip_whitelist
      then l
      else update_config_preserve_whitelist
          (record l.config { ip_whitelist = push_ips ips l.config.ip_whitelist }) l

  pub add_endpoint_whitelist : Text → RateLimiter → RateLimiter
  unfolding update_config_preserve_whitelist
  add_endpoint_whitelist endpoint l =
      if is_listed endpoint l.config.endpoint_whitelist
      then l
      else update_config_preserve_whitelist
          (record l.config { endpoint_whitelist = l.config.endpoint_whitelist ++ endpoint ∷ [] }) l

-- The calls on a limiter, each at its time.
pub data Op : Type 0 where
  call_allow : Text → Text → Text → ℕ → Op
  call_update call_preserve : RateLimitConfig → Op
  call_reset : ℕ → Op
  call_add_ip call_add_endpoint : Text → Op
  call_add_ips : List Text → Op

module _ (F : Doubles) where
  pub apply_op : Op → RateLimiter F → RateLimiter F
  unfolding allow_request update_config update_config_preserve_whitelist add_ip_whitelist
      add_ips_whitelist add_endpoint_whitelist
  apply_op (call_allow ip endpoint method now) l = (allow_request F ip endpoint method now l).1
  apply_op (call_update c) l = update_config F c l
  apply_op (call_preserve c) l = update_config_preserve_whitelist F c l
  apply_op (call_reset now) l = reset F now l
  apply_op (call_add_ip ip) l = add_ip_whitelist F ip l
  apply_op (call_add_endpoint endpoint) l = add_endpoint_whitelist F endpoint l
  apply_op (call_add_ips ips) l = add_ips_whitelist F ips l

  pub apply_ops : List Op → RateLimiter F → RateLimiter F
  unfolding apply_op
  apply_ops [] l = l
  apply_ops (c ∷ cs) l = apply_ops cs (apply_op c l)
