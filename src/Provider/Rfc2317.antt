-- ===== src/Provider/Rfc2317.antt =====
-- `CidrToInAddr` of pkg/rfc2317/arpa.go. The functions that the file copies from Go's net package are
-- parameters, as net is.
use Prim.Native.Nat.{◌%◌, ◌/◌}
use external_dns.Prelude.{
  Bool, List, Option, Text, [], codes, eqb, false, if◌then◌else◌, is_nil, leb, ltb, none, not, some,
  split, split_n, true, ℕ, ◌&&◌, ◌++◌, ◌+◌, ◌-◌, ◌∷◌,
}

-- what net says of a text in CIDR notation: the address, the network's address, and the bits of the
-- mask
pub record Cidr : Type 0 where
  pub address : Text
  pub network : Text
  pub bits : ℕ
  pub total : ℕ

pub record Nets : Type 0 where
  -- `net.ParseIP`: the text of the address, and whether it is an IPv4 address
  pub parse_ip : Text → Option (Text × Bool)
  -- `net.ParseCIDR`, with `Mask.Size`
  pub parse_cidr : Text → Option Cidr
  -- `a.Equal(c.IP)` of the two addresses
  pub same_ip : Text → Text → Bool
  -- `reverseaddr` of the text of an address
  pub reverseaddr : Text → Option Text
  -- `fmt.Sprintf` of a number
  pub format_nat : ℕ → Text

-- an address is made a network of one
abbrev pub cidr_of : Text → Option (Text × Bool) → Text
cidr_of cidr none = cidr
cidr_of cidr (some (ip, true)) = ip ++ codes "/32"
cidr_of cidr (some (ip, false)) = cidr ++ codes "/128"

-- `strings.TrimRight` of dots
unfoldable pub trim_dots : Text → Text
trim_dots [] = []
trim_dots (c ∷ s) = let rest = trim_dots s in if is_nil rest && eqb c b'.' then [] else c ∷ rest

-- `parts[len(parts)-1]`
unfoldable pub last_text : List Text → Text
last_text [] = []
last_text (p ∷ []) = p
last_text (p ∷ q ∷ ps) = last_text (q ∷ ps)

abbrev pub trimmed : Text → ℕ → Text
trimmed base to_trim = last_text (split_n base b'.' (to_trim + 1))

-- a delegation without classes: the fourth part of the network's address and the second of the base;
-- `none` is a panic
abbrev pub classless : Text → List Text → List Text → Option Text
classless bits (a ∷ b ∷ c ∷ first ∷ fs) (p ∷ rest ∷ bs) =
    some (first ++ b'/' ∷ (bits ++ b'.' ∷ rest))
classless bits fparts bparts = none

pub data InAddr : Type 0 where
  zone_name : Text → InAddr
  in_addr_error : InAddr
  in_addr_panic : InAddr

abbrev pub or_in_addr_panic : Option Text → InAddr
or_in_addr_panic none = in_addr_panic
or_in_addr_panic (some name) = zone_name name

module _ (nets : Nets) where
  -- the zone of a network, by the reverse name of its address without the last dot
  unfoldable pub zone_of_network : Cidr → Text → InAddr
  unfolding last_text split split_n
  zone_of_network c base =
      if not (nets.same_ip c.address c.network)
      then in_addr_error
      else if eqb c.bits 0
      then in_addr_error
      else if eqb c.total 32 && (leb 25 c.bits && ltb c.bits 32)
      then or_in_addr_panic
          (classless (nets.format_nat c.bits) (split c.network b'.') (split_n base b'.' 2))
      else if eqb c.total 32
      then (if not (eqb (c.bits % 8) 0)
          then in_addr_error
          else zone_name (trimmed base ((c.total - c.bits) / 8)))
      else if eqb c.total 128
      then (if not (eqb (c.bits % 4) 0)
          then in_addr_error
          else zone_name (trimmed base ((c.total - c.bits) / 4)))
      else in_addr_error

  abbrev pub with_base : Cidr → Option Text → InAddr
  with_base c none = in_addr_error
  with_base c (some base) = zone_of_network c (trim_dots base)

  abbrev pub with_cidr : Option Cidr → InAddr
  with_cidr none = in_addr_error
  with_cidr (some c) = with_base c (nets.reverseaddr c.address)

  -- `CidrToInAddr`
  unfoldable pub cidr_to_in_addr : Text → InAddr
  unfolding zone_of_network trim_dots
  cidr_to_in_addr cidr = with_cidr (nets.parse_cidr (cidr_of cidr (nets.parse_ip cidr)))
