-- ===== src/Source/Nat64.antt =====
-- source/wrappers/nat64source.go.
use mathlib.Core.Option
use external_dns.Prelude.{
  List, Option, Text, [], any, if◌then◌else◌, int_eq, nat_eq, none, not, pos, some, suc, text_eq,
  zero, ℕ, ◌++◌, ◌==◌, ◌∷◌,
}
use external_dns.Endpoint.Net.{Net}
use external_dns.Endpoint.Types.{Endpoint, Targets, record_type_a, record_type_aaaa}
use external_dns.Source.Library.{Library}

-- `ipBytes[12:16]`
unfoldable pub drop_bytes : ℕ → List ℕ → List ℕ
drop_bytes zero bs = bs
drop_bytes (suc n) [] = []
drop_bytes (suc n) (b ∷ bs) = drop_bytes n bs

module _ ⦃net : Net⦄ (library : Library) where
  open library use {Prefix}

  abbrev pub add_prefix : Option Prefix → Option (List Prefix) → Option (List Prefix)
  add_prefix none rest = none
  add_prefix (some p) rest =
      if not (library.bits p == pos 96) then none else Option.map (λ ps. p ∷ ps) rest

  -- the loop of `NewNAT64Source`; `none` is an error
  unfoldable pub new_nat64_source : List Text → Option (List Prefix)
  new_nat64_source [] = some []
  new_nat64_source (p ∷ ps) = add_prefix (library.parse_prefix p) (new_nat64_source ps)

  -- the last four bytes of an address as an IPv4 address
  unfoldable pub embedded : net.Addr → Option net.Addr
  unfolding drop_bytes
  embedded ip = library.addr_from_slice (drop_bytes 12 (library.as16 ip))

  abbrev pub add_v4 : Option net.Addr → Option Targets → Option Targets
  add_v4 none rest = none
  add_v4 (some v4) rest = Option.map (λ ts. net.addr_string v4 ∷ ts) rest

  abbrev pub translate : List Prefix → Option net.Addr → Option Targets → Option Targets
  translate prefixes none rest = none
  translate prefixes (some ip) rest =
      if any (λ p. library.contains p ip) prefixes then add_v4 (embedded ip) rest else rest

  -- the loop over the targets; `none` is an error
  unfoldable pub v4_targets : List Prefix → Targets → Option Targets
  unfolding embedded any
  v4_targets prefixes [] = some []
  v4_targets prefixes (t ∷ ts) = translate prefixes (net.parse_addr t) (v4_targets prefixes ts)

  abbrev pub add_translated :
      Endpoint → Option Targets → Option (List Endpoint) → Option (List Endpoint)
  add_translated ep none rest = none
  add_translated ep (some []) rest = rest
  add_translated ep (some (t ∷ ts)) rest =
      Option.map (λ eps. record ep { targets = t ∷ ts; record_type = record_type_a } ∷ eps) rest

  -- the loop over the endpoints: `additionalEndpoints`
  unfoldable pub translated : List Prefix → List Endpoint → Option (List Endpoint)
  unfolding v4_targets
  translated prefixes [] = some []
  translated prefixes (ep ∷ eps) =
      let rest = translated prefixes eps in
      if not (ep.record_type == record_type_aaaa)
      then rest
      else add_translated ep (v4_targets prefixes ep.targets) rest

  -- `nat64Source.Endpoints`
  unfoldable pub nat64_endpoints : List Prefix → List Endpoint → Option (List Endpoint)
  unfolding translated
  nat64_endpoints prefixes eps = Option.map (λ more. eps ++ more) (translated prefixes eps)
