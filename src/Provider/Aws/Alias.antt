-- ===== src/Provider/Aws/Alias.antt =====
-- `canonicalHostedZone`, `useAlias`, `isAWSAlias` and `cleanZoneID` of provider/aws/aws.go.
use external_dns.Prelude.{
  Bool, List, Option, Text, [], any, codes, false, has_suffix, if◌then◌else◌, int_eq, is_nil, join,
  lookup, nat_eq, none, not, some, split, text_eq, trim_prefix, ◌&&◌, ◌==◌, ◌||◌, ◌∷◌,
}
use external_dns.Endpoint.Properties.{
  get_bool_provider_specific_property, get_provider_specific_property,
}
use external_dns.Endpoint.Types.{
  Endpoint, Targets, or_empty, record_type_a, record_type_aaaa, record_type_cname,
}
use external_dns.Provider.Aws.CanonicalZones.{canonical_hosted_zones}
use external_dns.Provider.Aws.Types.{
  provider_specific_alias, provider_specific_target_hosted_zone, same_zone_alias,
}

-- the loop of `canonicalHostedZone` over the suffixes with at least two parts, the shortest first
unfoldable pub zone_of_parts : List Text → Option Text
unfolding join lookup
zone_of_parts [] = none
zone_of_parts (p ∷ []) = none
zone_of_parts (p ∷ q ∷ ps) = elim (zone_of_parts (q ∷ ps)) [
  | some zone ↦ some zone
  | none ↦ lookup (join (p ∷ q ∷ ps) b'.') canonical_hosted_zones
]

-- the empty text where there is none
unfoldable pub canonical_hosted_zone : Text → Text
unfolding zone_of_parts has_suffix split
canonical_hosted_zone hostname =
    if any (λ s. has_suffix hostname s)
      (codes "aws.com"
        ∷ codes "aws.com.cn"
        ∷ codes "tor.com"
        ∷ codes "ont.com"
        ∷ codes "ont.net"
        ∷ [])
    then or_empty (zone_of_parts (split hostname b'.'))
    else []

abbrev pub first_is_canonical : Targets → Bool
first_is_canonical [] = false
first_is_canonical (t ∷ ts) = not (is_nil (canonical_hosted_zone t))

unfoldable pub use_alias : Endpoint → Bool → Bool
unfolding canonical_hosted_zone
use_alias ep prefer_cname =
    if prefer_cname
    then false
    else if ep.record_type == record_type_cname
    then first_is_canonical ep.targets
    else false

abbrev pub alias_value : Option Bool → Bool
alias_value none = false
alias_value (some b) = b

-- `isAlias, _ := ep.GetBoolProviderSpecificProperty(providerSpecificAlias)`
unfoldable pub has_alias : Endpoint → Bool
unfolding get_bool_provider_specific_property
has_alias ep = alias_value (get_bool_provider_specific_property provider_specific_alias ep)

abbrev pub zone_or_same : Text → Text
zone_or_same zone = if not (is_nil zone) then zone else same_zone_alias

abbrev pub alias_zone : Option Text → Targets → Text
alias_zone known [] = []
alias_zone (some zone) (t ∷ ts) = zone
alias_zone none (t ∷ ts) = zone_or_same (canonical_hosted_zone t)

-- the zone of the alias's target, or the empty text
unfoldable pub is_aws_alias : Endpoint → Text
unfolding has_alias canonical_hosted_zone get_provider_specific_property
is_aws_alias ep =
    if has_alias ep && (ep.record_type == record_type_a || ep.record_type == record_type_aaaa)
    then alias_zone (get_provider_specific_property provider_specific_target_hosted_zone ep)
        ep.targets
    else []

unfoldable pub clean_zone_id : Text → Text
unfolding trim_prefix
clean_zone_id id = trim_prefix id (codes "/hostedzone/")
