-- ===== src/RateLimit/Whitelist.antt =====
-- The methods of hikyuu/httpd/HttpServer.cpp that extend the white lists of the rate limiter.
use hku_rest.Prelude.{◌≡◌, refl, Bool-cases, inl, inr, List}
use hku_rest.Prelude.Text.{Text}
use hku_rest.RateLimit.{
  Doubles, RateLimiter, is_listed, all_listed, update_config_preserve_whitelist, add_ip_whitelist,
  add_ips_whitelist, add_endpoint_whitelist,
}

-- The methods that add an address, several addresses or an endpoint to a white list leave the
-- configuration as it was, whatever is added: the update keeps the old lists.
pub add_whitelist-config :
    (F : Doubles) (ip endpoint : Text) (ips : List Text) (l : RateLimiter F)
    → ((add_ip_whitelist F ip l).config ≡ l.config)
      × (((add_ips_whitelist F ips l).config ≡ l.config)
          × ((add_endpoint_whitelist F endpoint l).config ≡ l.config))
unfolding add_ip_whitelist add_ips_whitelist add_endpoint_whitelist update_config_preserve_whitelist
add_whitelist-config F ip endpoint ips l = (
  elim (Bool-cases (is_listed ip l.config.ip_whitelist)) [ inl t ↦ rw t refl | inr f ↦ rw f refl ],
  (
    elim (Bool-cases (all_listed ips l.config.ip_whitelist)) [
      | inl t ↦ rw t refl
      | inr f ↦ rw f refl
    ],
    elim (Bool-cases (is_listed endpoint l.config.endpoint_whitelist)) [
      | inl t ↦ rw t refl
      | inr f ↦ rw f refl
    ],
  ),
)
