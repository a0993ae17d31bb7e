-- ===== src/Access.antt =====
-- hikyuu/httpd/HttpServer.cpp and HttpServer.h: which client addresses may connect. Addresses and masks
-- are 32-bit numbers in the host's order.
pub mod Subnet
pub mod Policy
pub mod Examples
use Prim.Native.Nat.{bit_and}
use hku_rest.Prelude.{
  ℕ, zero, suc, ◌-◌, ◌*◌, ◌%◌, ◌^◌, Bool, true, false, not, Option, none, some, List, [], ◌∷◌, ltb,
  ◌==◌, if◌then◌else◌, is_empty,
}
use hku_rest.Prelude.Text.{Text, text_eq, before, after}
use hku_rest.Connections.Ints.{ℤ, pos, negsuc}

pub record SubnetConfig : Type 0 where
  pub network_address : Text
  pub subnet_mask : Text
  pub cidr_notation : Text

pub record AccessControlConfig : Type 0 where
  pub enabled : Bool
  pub allowed_subnets : List SubnetConfig
  pub allowed_ips : List Text
  pub default_allow : Bool
  pub strict_mode : Bool

abbrev pub from_cidr : Text → SubnetConfig
from_cidr cidr = record { network_address = []; subnet_mask = []; cidr_notation = cidr }

abbrev pub from_cidrs : List Text → List SubnetConfig
from_cidrs [] = []
from_cidrs (cidr ∷ rest) = from_cidr cidr ∷ from_cidrs rest

abbrev pub default_config : AccessControlConfig
default_config = record {
  enabled = false;
  allowed_subnets = [];
  allowed_ips = [];
  default_allow = false;
  strict_mode = true;
}

abbrev pub allow_all : AccessControlConfig
allow_all = record default_config { default_allow = true }

abbrev pub allow_subnets : List Text → AccessControlConfig
allow_subnets subnets = record default_config {
  enabled = true;
  allowed_subnets = from_cidrs subnets;
}

abbrev pub allow_ips : List Text → AccessControlConfig
allow_ips ips = record default_config { enabled = true; allowed_ips = ips }

abbrev pub deny_subnets : List Text → AccessControlConfig
deny_subnets subnets = record default_config {
  enabled = true;
  default_allow = true;
  strict_mode = false;
  allowed_subnets = from_cidrs subnets;
}

abbrev pub deny_ips : List Text → AccessControlConfig
deny_ips ips = record default_config {
  enabled = true;
  default_allow = true;
  strict_mode = false;
  allowed_ips = ips;
}

abbrev pub ones : ℕ
ones = 0xFFFFFFFF

-- `~m` on 32 bits.
abbrev pub bit_not : ℕ → ℕ
bit_not m = ones - m

-- `inet_pton`, in the host's order, `stoi` (none where it throws), and what the machine makes of a
-- shift by 32 or more, which the language does not define.
module _ (inet_pton : Text → Option ℕ) (stoi : Text → Option ℤ) (undefined_shift : ℕ → ℕ → ℕ) where
  -- `x << k` on 32 bits.
  pub shl : ℕ → ℕ → ℕ
  shl x k = if ltb k 32 then x * 2 ^ k % 2 ^ 32 else undefined_shift x k

  abbrev pub or_zero : Option ℕ → ℕ
  or_zero none = 0
  or_zero (some a) = a

  abbrev pub ip_to_uint32 : Text → ℕ
  ip_to_uint32 ip = or_zero (inet_pton ip)

  pub mask_of : ℕ → ℕ
  unfolding shl
  mask_of prefix_len = if prefix_len == 32 then ones else bit_and (shl ones (32 - prefix_len)) ones

  pub corrected : ℕ → ℕ → ℕ
  corrected network mask =
      if bit_and network (bit_not mask) == 0 then network else bit_and network mask

  -- The network and the mask, if the text is accepted.
  abbrev pub with_prefix : ℕ → Option ℤ → Option (ℕ × ℕ)
  with_prefix network none = none
  with_prefix network (some (negsuc n)) = none
  with_prefix network (some (pos p)) =
      if ltb 32 p then none else some (corrected network (mask_of p), mask_of p)

  abbrev pub with_slash : Text → Option Text → Option (ℕ × ℕ)
  with_slash network_str none = none
  with_slash network_str (some prefix_str) =
      if ip_to_uint32 network_str == 0
      then none
      else with_prefix (ip_to_uint32 network_str) (stoi prefix_str)

  pub parse_cidr : Text → Option (ℕ × ℕ)
  unfolding mask_of corrected before after
  parse_cidr cidr = with_slash (before 47 cidr) (after 47 cidr)

  abbrev pub is_ip_in_network : ℕ → ℕ → ℕ → Bool
  is_ip_in_network ip network mask = bit_and ip mask == network

  abbrev pub in_parsed : ℕ → Option (ℕ × ℕ) → Bool
  in_parsed ip none = false
  in_parsed ip (some (network, mask)) = is_ip_in_network ip network mask

  pub is_ip_in_cidr : Text → Text → Bool
  unfolding parse_cidr
  is_ip_in_cidr ip cidr =
      if ip_to_uint32 ip == 0 then false else in_parsed (ip_to_uint32 ip) (parse_cidr cidr)

  pub is_ip_in_masked : Text → Text → Text → Bool
  is_ip_in_masked ip network_address subnet_mask =
      if ip_to_uint32 ip == 0
      then false
      else if ip_to_uint32 network_address == 0
      then false
      else if ip_to_uint32 subnet_mask == 0
      then false
      else is_ip_in_network (ip_to_uint32 ip) (ip_to_uint32 network_address)
          (ip_to_uint32 subnet_mask)

  pub is_ip_in_subnet : Text → SubnetConfig → Bool
  unfolding is_ip_in_cidr is_ip_in_masked
  is_ip_in_subnet ip s =
      if is_empty s.cidr_notation
      then is_ip_in_masked ip s.network_address s.subnet_mask
      else is_ip_in_cidr ip s.cidr_notation

  abbrev pub in_ips : Text → List Text → Bool
  in_ips ip [] = false
  in_ips ip (allowed_ip ∷ rest) = if text_eq ip allowed_ip then true else in_ips ip rest

  abbrev pub in_subnets : Text → List SubnetConfig → Bool
  in_subnets ip [] = false
  in_subnets ip (subnet ∷ rest) = if is_ip_in_subnet ip subnet then true else in_subnets ip rest

  pub is_ip_allowed : AccessControlConfig → Text → Bool
  unfolding is_ip_in_subnet text_eq
  is_ip_allowed c ip =
      if not c.enabled
      then true
      else if in_ips ip c.allowed_ips
      then c.strict_mode
      else if in_subnets ip c.allowed_subnets
      then c.strict_mode
      else not c.strict_mode
