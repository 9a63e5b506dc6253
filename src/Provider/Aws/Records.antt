-- ===== src/Provider/Aws/Records.antt =====
-- `Records` of provider/aws/aws.go: the record sets of the zones as endpoints.
use external_dns.Prelude.{
  Bool, List, Option, Text, [], codes, eqb, false, has_prefix, if◌then◌else◌, int_eq, is_nil, leb,
  nat_eq, none, not, pos, some, text_eq, trim_prefix, true, ℕ, ℤ, ◌&&◌, ◌++◌, ◌==◌, ◌||◌, ◌∷◌,
}
use external_dns.Endpoint.Create.{new_endpoint_with_ttl}
use external_dns.Endpoint.Properties.{set_provider_specific_property}
use external_dns.Endpoint.Types.{
  Endpoint, or_empty, record_type_cname, record_type_mx, record_type_naptr,
}
use external_dns.Provider.Aws.Types.{
  AliasTarget, GeoLocation, GeoProximityLocation, Numbers, ResourceRecordSet, default_ttl,
  format_bool, provider_specific_alias, provider_specific_evaluate_target_health,
  provider_specific_failover, provider_specific_geo_proximity_location_aws_region,
  provider_specific_geo_proximity_location_bias,
  provider_specific_geo_proximity_location_coordinates,
  provider_specific_geo_proximity_location_local_zone_group,
  provider_specific_geolocation_continent_code, provider_specific_geolocation_country_code,
  provider_specific_geolocation_subdivision_code, provider_specific_health_check_id,
  provider_specific_multi_value_answer, provider_specific_region, provider_specific_weight,
}
use external_dns.Provider.ZoneFilters.{supported_record_type}
use external_dns.Source.Wrappers.{Fetched, fetch_error, fetch_panic, fetched, fetched_then}

-- `strings.Replace` of the first occurrence
unfoldable pub replace_once : Text → Text → Text → Text
unfolding has_prefix trim_prefix
replace_once [] old new_text = []
replace_once (c ∷ s) old new_text =
    let rest = replace_once s old new_text in
    if has_prefix (c ∷ s) old then new_text ++ trim_prefix (c ∷ s) old else c ∷ rest

unfoldable pub wildcard_unescape : Text → Text
unfolding replace_once
wildcard_unescape s = replace_once s (codes "\\052") (codes "*")

abbrev pub is_digit_to : ℕ → ℕ → Bool
is_digit_to last c = leb b'0' c && leb c last

-- a backslash, a digit up to 3 and two digits up to 7 at the start
abbrev pub is_octal_start : Text → Bool
is_octal_start (b ∷ d ∷ e ∷ f ∷ s) =
    eqb b b'\\' && (is_digit_to b'3' d && (is_digit_to b'7' e && is_digit_to b'7' f))
is_octal_start _ = false

unfoldable pub contains_octal_sequence : Text → Bool
contains_octal_sequence [] = false
contains_octal_sequence (c ∷ s) =
    let rest = contains_octal_sequence s in if is_octal_start (c ∷ s) then true else rest

abbrev pub text_or : Text → Option Text → Text
text_or input none = input
text_or input (some result) = result

-- `convertOctalToAscii`
unfoldable pub convert_octal_to_ascii : (Text → Option Text) → Text → Text
unfolding contains_octal_sequence
convert_octal_to_ascii unquote input =
    if not (contains_octal_sequence input)
    then input
    else text_or input (unquote (b'"' ∷ input ++ b'"' ∷ []))

-- `SupportedRecordType` of the provider
unfoldable pub aws_supported_record_type : Text → Bool
unfolding supported_record_type
aws_supported_record_type record_type =
    if record_type == record_type_mx || record_type == record_type_naptr
    then true
    else supported_record_type record_type

-- sets a property where there is a value
abbrev pub with_some : Text → Option Text → Endpoint → Endpoint
with_some k none ep = ep
with_some k (some v) ep = set_provider_specific_property k v ep

abbrev pub with_text : Text → Text → Endpoint → Endpoint
with_text k v ep = if is_nil v then ep else set_provider_specific_property k v ep

abbrev pub zero_or : Option ℤ → ℤ
zero_or none = pos 0
zero_or (some n) = n

module _ (numbers : Numbers) where
  open numbers use {format_int, unquote}

  abbrev pub with_number : Text → Option ℤ → Endpoint → Endpoint
  with_number k none ep = ep
  with_number k (some n) ep = set_provider_specific_property k (format_int n) ep

  abbrev pub with_coordinates : Option (Text × Text) → Endpoint → Endpoint
  with_coordinates none ep = ep
  with_coordinates (some (lat, long)) ep =
      set_provider_specific_property provider_specific_geo_proximity_location_coordinates
        (lat ++ b',' ∷ long) ep

  unfoldable pub handle_geo_proximity_location_record : GeoProximityLocation → Endpoint → Endpoint
  unfolding set_provider_specific_property
  handle_geo_proximity_location_record g ep =
      with_text provider_specific_geo_proximity_location_local_zone_group
        (or_empty g.local_zone_group)
        (with_coordinates g.coordinates (
          with_number provider_specific_geo_proximity_location_bias g.bias (
            with_text provider_specific_geo_proximity_location_aws_region (or_empty g.aws_region)
              ep)))

  abbrev pub with_country : GeoLocation → Option Text → Endpoint → Endpoint
  with_country g (some continent) ep =
      set_provider_specific_property provider_specific_geolocation_continent_code continent ep
  with_country g none ep =
      with_some provider_specific_geolocation_subdivision_code g.subdivision_code
        (with_some provider_specific_geolocation_country_code g.country_code ep)

  -- the last cases of the switch on the routing policy
  abbrev pub with_location : Option GeoLocation → Option GeoProximityLocation → Endpoint → Endpoint
  with_location (some g) proximity ep = with_country g g.continent_code ep
  with_location none (some g) ep = handle_geo_proximity_location_record g ep
  with_location none none ep = ep

  abbrev pub answers_many : Option Bool → Bool
  answers_many none = false
  answers_many (some b) = b

  abbrev pub with_policy : ResourceRecordSet → Option ℤ → Endpoint → Endpoint
  with_policy r (some weight) ep =
      set_provider_specific_property provider_specific_weight (format_int weight) ep
  with_policy r none ep =
      if not (is_nil r.region)
      then set_provider_specific_property provider_specific_region r.region ep
      else if not (is_nil r.failover)
      then set_provider_specific_property provider_specific_failover r.failover ep
      else if answers_many r.multi_value_answer
      then set_provider_specific_property provider_specific_multi_value_answer [] ep
      else with_location r.geo_location r.geo_proximity_location ep

  abbrev pub with_set : ResourceRecordSet → Option Text → Endpoint → Endpoint
  with_set r none ep = ep
  with_set r (some id) ep = with_policy r r.weight (record ep { set_identifier = id })

  -- the body of the loop over the new endpoints
  unfoldable pub with_routing : ResourceRecordSet → Endpoint → Endpoint
  unfolding handle_geo_proximity_location_record set_provider_specific_property
  with_routing r ep =
      with_some provider_specific_health_check_id r.health_check_id (with_set r r.set_identifier ep)

  -- the endpoint of the values; a nil endpoint, of a name with a label that is too long, panics
  abbrev pub value_endpoint : Text → ResourceRecordSet → Option Endpoint → Option (List Endpoint)
  value_endpoint name r none = none
  value_endpoint name r (some ep) = some (
      (if r.rr_type == record_type_cname
        then set_provider_specific_property provider_specific_alias (codes "false") ep
        else ep)
      ∷ [])

  abbrev pub of_values : Text → ResourceRecordSet → List Text → Option (List Endpoint)
  of_values name r [] = some []
  of_values name r (v ∷ vs) =
      value_endpoint name r (new_endpoint_with_ttl name r.rr_type (zero_or r.ttl) (v ∷ vs))

  abbrev pub alias_endpoint : Bool → Option Endpoint → Option (List Endpoint)
  alias_endpoint health none = none
  alias_endpoint health (some ep) = some (
      set_provider_specific_property provider_specific_alias (codes "true") (
        set_provider_specific_property provider_specific_evaluate_target_health (format_bool health)
          ep)
      ∷ [])

  abbrev pub alias_ttl : ℤ → ℤ
  alias_ttl ttl = if ttl == pos 0 then default_ttl else ttl

  abbrev pub of_alias : Text → ResourceRecordSet → Option AliasTarget → Option (List Endpoint)
  of_alias name r none = some []
  of_alias name r (some a) =
      alias_endpoint a.evaluate_target_health
        (new_endpoint_with_ttl name r.rr_type (alias_ttl (zero_or r.ttl)) (a.dns_name ∷ []))

  abbrev pub both_lists : Option (List Endpoint) → Option (List Endpoint) → Option (List Endpoint)
  both_lists none more = none
  both_lists (some eps) none = none
  both_lists (some eps) (some more) = some (eps ++ more)

  unfoldable pub routed : ResourceRecordSet → List Endpoint → List Endpoint
  unfolding with_routing
  routed r [] = []
  routed r (ep ∷ eps) = with_routing r ep ∷ routed r eps

  abbrev pub routed_if : ResourceRecordSet → Option (List Endpoint) → Option (List Endpoint)
  routed_if r none = none
  routed_if r (some eps) = some (routed r eps)

  -- the body of the loop over the record sets; `none` is a panic
  unfoldable pub endpoints_of_set : ResourceRecordSet → Option (List Endpoint)
  unfolding aws_supported_record_type convert_octal_to_ascii wildcard_unescape new_endpoint_with_ttl
      routed set_provider_specific_property
  endpoints_of_set r =
      let name = convert_octal_to_ascii unquote (wildcard_unescape r.name) in
      if not (aws_supported_record_type r.rr_type)
      then some []
      else routed_if r
          (both_lists (of_values name r r.resource_records) (of_alias name r r.alias_target))

  unfoldable pub endpoints_of_sets : List ResourceRecordSet → Option (List Endpoint)
  unfolding endpoints_of_set
  endpoints_of_sets [] = some []
  endpoints_of_sets (r ∷ rs) = both_lists (endpoints_of_set r) (endpoints_of_sets rs)

  -- the loop over the pages of a zone; `fetch_error` is an error of `NextPage`
  unfoldable pub endpoints_of_pages :
      List (Option (List ResourceRecordSet)) → Fetched (List Endpoint)
  unfolding endpoints_of_sets
  endpoints_of_pages [] = fetched []
  endpoints_of_pages (none ∷ pages) = fetch_error
  endpoints_of_pages (some rs ∷ pages) =
      fetched_then (or_panic (endpoints_of_sets rs))
        λ eps. fetched_then (endpoints_of_pages pages) λ more. fetched (eps ++ more)
    where
      or_panic : Option (List Endpoint) → Fetched (List Endpoint)
      or_panic none = fetch_panic
      or_panic (some eps) = fetched eps

  -- the loop over the zones, by the pages that are listed for each
  unfoldable pub aws_records :
      List (List (Option (List ResourceRecordSet))) → Fetched (List Endpoint)
  unfolding endpoints_of_pages
  aws_records [] = fetched []
  aws_records (pages ∷ zones) =
      fetched_then (endpoints_of_pages pages)
        λ eps. fetched_then (aws_records zones) λ more. fetched (eps ++ more)
