-- ===== src/Access/Examples.antt =====
-- The access control at concrete addresses.
use hku_rest.Prelude.{
  ℕ, true, false, Option, none, some, [], ◌∷◌, ◌++◌, ◌≡◌, refl, ◌^◌, ◌/◌, ◌-◌, ◌↔◌, not,
  if◌then◌else◌, arith,
}
use hku_rest.Prelude.Text.{Text, codes, text_eq}
use hku_rest.Connections.Ints.{ℤ, pos}
use hku_rest.Access.{AccessControlConfig, allow_subnets, deny_subnets, is_ip_in_cidr, is_ip_allowed}
use hku_rest.Access.Subnet.{is_ip_in_cidr-Leading}
use hku_rest.Access.Policy.{IsListed, is_ip_allowed-IsListed}

abbrev client : Text
client = codes "10.1.2.3"

abbrev office : Text
office = codes "10.1.0.0"

abbrev addresses : Text → Option ℕ
addresses s =
    if text_eq s client
    then some 0x0A010203
    else if text_eq s office
    then some 0x0A010000
    else if text_eq s (codes "0.0.0.0")
    then some 0
    else none

abbrev lengths : Text → Option ℤ
lengths s = if text_eq s (codes "16") then some (pos 16) else none

abbrev x86 : ℕ → ℕ → ℕ
x86 x k = x

abbrev closed : AccessControlConfig
closed = allow_subnets (codes "10.1.0.0/16" ∷ [])

is_ip_in_cidr-Leading_example :
    (is_ip_in_cidr addresses lengths x86 client (office ++ 47 ∷ codes "16") ≡ true)
    ↔ (0x0A010203 / 2 ^ (32 - 16) ≡ 0x0A010000 / 2 ^ (32 - 16))
unfolding text_eq
is_ip_in_cidr-Leading_example =
    is_ip_in_cidr-Leading addresses lengths x86 client office (codes "16") 0x0A010203 0x0A010000 16
      (ground arith) refl refl refl (omega arith) (omega arith) (omega arith) (omega arith)
      (omega arith) (omega arith)

in_office : is_ip_in_cidr addresses lengths x86 client (codes "10.1.0.0/16") ≡ true
unfolding is_ip_in_cidr text_eq
in_office = refl

is_ip_allowed-IsListed_example :
    (closed.enabled ≡ false → is_ip_allowed addresses lengths x86 closed client ≡ true)
    × (closed.enabled ≡ true
        → IsListed addresses lengths x86 closed client
        → is_ip_allowed addresses lengths x86 closed client ≡ closed.strict_mode)
    × (closed.enabled ≡ true
        → (IsListed addresses lengths x86 closed client → ⊥)
        → is_ip_allowed addresses lengths x86 closed client ≡ not closed.strict_mode)
is_ip_allowed-IsListed_example = is_ip_allowed-IsListed addresses lengths x86 closed client

let_in : is_ip_allowed addresses lengths x86 closed client ≡ true
unfolding is_ip_allowed is_ip_in_cidr
let_in = refl

-- The network 0.0.0.0 is refused: a list that denies it denies nobody.
denies_nobody :
    is_ip_allowed addresses lengths x86 (deny_subnets (codes "0.0.0.0/0" ∷ [])) client ≡ true
unfolding is_ip_allowed is_ip_in_cidr
denies_nobody = refl
