-- ===== src/Access/Policy.antt =====
-- What `isIpAllowed` decides, whatever the lists hold.
use hku_rest.Prelude.{ℕ, true, false, not, Option, List, [], ◌∷◌, ◌≡◌, refl, ◌⊎◌, inr, arith}
use hku_rest.Prelude.Text.{Text, text_eq→eq, eq→text_eq}
use hku_rest.Connections.Ints.{ℤ}
use hku_rest.Access.{
  SubnetConfig, AccessControlConfig, is_ip_allowed, is_ip_in_subnet, in_ips, in_subnets,
}

abbrev pub Any {ℓ} : {A : Type ℓ} → (A → Type 0) → List A → Type 0
Any P [] = ⊥
Any P (x ∷ xs) = P x ⊎ Any P xs

module _ (inet_pton : Text → Option ℕ) (stoi : Text → Option ℤ) (undefined_shift : ℕ → ℕ → ℕ) where
  -- The address is in one of the two lists.
  abbrev pub IsListed : AccessControlConfig → Text → Type 0
  IsListed c ip =
      Any (λ allowed_ip. ip ≡ allowed_ip) c.allowed_ips
      ⊎ Any (λ s. is_ip_in_subnet inet_pton stoi undefined_shift ip s ≡ true) c.allowed_subnets

  in_ips_cases :
      (ip : Text) (ips : List Text)
      → ((in_ips inet_pton stoi undefined_shift ip ips ≡ true) × Any (λ a. ip ≡ a) ips)
        ⊎ ((in_ips inet_pton stoi undefined_shift ip ips ≡ false) × (Any (λ a. ip ≡ a) ips → ⊥))
  in_ips_cases ip [] = inr (refl, λ h. h)
  in_ips_cases ip (a ∷ ips) = ground (arith, in_ips_cases ip ips, text_eq→eq ip a, eq→text_eq ip a)

  in_subnets_cases :
      (ip : Text) (ss : List SubnetConfig)
      → ((in_subnets inet_pton stoi undefined_shift ip ss ≡ true)
          × Any (λ s. is_ip_in_subnet inet_pton stoi undefined_shift ip s ≡ true) ss)
        ⊎ ((in_subnets inet_pton stoi undefined_shift ip ss ≡ false)
            × (Any (λ s. is_ip_in_subnet inet_pton stoi undefined_shift ip s ≡ true) ss → ⊥))
  in_subnets_cases ip [] = inr (refl, λ h. h)
  in_subnets_cases ip (s ∷ ss) = ground (arith, in_subnets_cases ip ss)

  -- With access control on, a strict configuration lets exactly the listed addresses in, and any
  -- other exactly those that are not listed; with access control off, everyone comes in. That holds of
  -- empty lists too, whatever `default_allow` is.
  pub is_ip_allowed-IsListed :
      (c : AccessControlConfig) (ip : Text)
      → (c.enabled ≡ false → is_ip_allowed inet_pton stoi undefined_shift c ip ≡ true)
        × (c.enabled ≡ true
            → IsListed c ip
            → is_ip_allowed inet_pton stoi undefined_shift c ip ≡ c.strict_mode)
        × (c.enabled ≡ true
            → (IsListed c ip → ⊥)
            → is_ip_allowed inet_pton stoi undefined_shift c ip ≡ not c.strict_mode)
  unfolding is_ip_allowed
  is_ip_allowed-IsListed c ip =
      ground (arith, in_ips_cases ip c.allowed_ips, in_subnets_cases ip c.allowed_subnets)
