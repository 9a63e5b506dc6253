-- ===== src/Source/Library.antt =====
-- What source/ takes from net, net/netip and k8s.io/utils/set: an interface with the documented facts
-- that the theorems use.
use external_dns.Prelude.{
  Bool, List, Option, Text, any, int_eq, length, nat_eq, some, text_eq, ℕ, ℤ, ◌≡◌,
}
use external_dns.Endpoint.Net.{Net}

pub record Library ⦃net : Net⦄ : Type 1 where
  -- `Addr.Is4`, `Addr.Is6`
  pub is4 : net.Addr → Bool
  pub is6 : net.Addr → Bool
  -- `Addr.As16`, `netip.AddrFromSlice`
  pub as16 : net.Addr → List ℕ
  pub addr_from_slice : List ℕ → Option net.Addr
  pub as16_length : (a : net.Addr) → length (as16 a) ≡ 16
  pub addr_from_four : (b : List ℕ) → length b ≡ 4 → (a : net.Addr) × (addr_from_slice b ≡ some a)
  -- `netip.ParsePrefix`, `Prefix.Bits`, `Prefix.Contains`
  pub Prefix : Type 0
  pub parse_prefix : Text → Option Prefix
  pub bits : Prefix → ℤ
  pub contains : Prefix → net.Addr → Bool
  -- the network that `net.ParseCIDR` returns, `net.ParseIP`, and `IPNet.Contains`, which takes nil
  pub IpNet : Type 0
  pub Ip : Type 0
  pub parse_cidr : Text → Option IpNet
  pub parse_ip : Text → Option Ip
  pub net_contains : IpNet → Option Ip → Bool
  -- `set.New(targets...).SortedList()`
  pub sorted_set : List Text → List Text
  pub any_sorted_set : (p : Text → Bool) (ts : List Text) → any p (sorted_set ts) ≡ any p ts
