-- ===== src/Provider/Aws/Adjust.antt =====
-- `AdjustEndpoints` of provider/aws/aws.go.
use external_dns.Prelude.{
  Bool, List, Option, Text, [], codes, false, if◌then◌else◌, int_eq, is_nil, nat_eq, none, not,
  some, text_eq, true, ◌++◌, ◌==◌, ◌||◌, ◌∷◌,
}
use external_dns.Endpoint.Properties.{
  delete_provider_specific_property, get_bool_provider_specific_property,
  get_provider_specific_property, set_provider_specific_property,
}
use external_dns.Endpoint.Types.{
  Endpoint, is_configured, record_type_a, record_type_aaaa, record_type_cname,
}
use external_dns.Provider.Aws.Alias.{has_alias, use_alias}
use external_dns.Provider.Aws.Types.{
  AwsProvider, default_ttl, format_bool, provider_specific_alias,
  provider_specific_evaluate_target_health, provider_specific_geo_proximity_location_aws_region,
  provider_specific_geo_proximity_location_bias,
  provider_specific_geo_proximity_location_coordinates,
  provider_specific_geo_proximity_location_local_zone_group,
}

-- the value of the health property, or the provider's default
abbrev pub health_or : Option Bool → Bool → Text
health_or (some enable) default = format_bool enable
health_or none default = format_bool default

abbrev pub with_default_ttl : Endpoint → Endpoint
with_default_ttl ep =
    if is_configured ep.record_ttl then record ep { record_ttl = default_ttl } else ep

unfoldable pub adjust_alias_record : AwsProvider → Endpoint → Endpoint
unfolding get_bool_provider_specific_property set_provider_specific_property
adjust_alias_record p ep =
    set_provider_specific_property provider_specific_evaluate_target_health
      (health_or (get_bool_provider_specific_property provider_specific_evaluate_target_health ep)
        p.evaluate_target_health)
      (with_default_ttl ep)

unfoldable pub without_alias : Endpoint → Endpoint
unfolding delete_provider_specific_property
without_alias ep =
    delete_provider_specific_property provider_specific_evaluate_target_health
      (delete_provider_specific_property provider_specific_alias ep)

unfoldable pub adjust_a_and_aaaa_record : AwsProvider → Endpoint → Endpoint
unfolding has_alias adjust_alias_record without_alias
adjust_a_and_aaaa_record p ep = if has_alias ep then adjust_alias_record p ep else without_alias ep

abbrev pub as_alias : AwsProvider → Endpoint → Endpoint
as_alias p ep = adjust_alias_record p (record ep { record_type = record_type_a })

abbrev pub as_plain_cname : Endpoint → Endpoint
as_plain_cname ep = delete_provider_specific_property provider_specific_evaluate_target_health ep

-- by the alias property, if it is there
abbrev pub adjust_cname_by : AwsProvider → Endpoint → Option Bool → Endpoint
adjust_cname_by p ep (some true) = as_alias p ep
adjust_cname_by p ep (some false) =
    as_plain_cname (set_provider_specific_property provider_specific_alias (codes "false") ep)
adjust_cname_by p ep none =
    let is_alias = use_alias ep p.prefer_cname in
    let ep' = set_provider_specific_property provider_specific_alias (format_bool is_alias) ep in
    if is_alias then as_alias p ep' else as_plain_cname ep'

unfoldable pub adjust_cname_record : AwsProvider → Endpoint → Endpoint
unfolding get_bool_provider_specific_property set_provider_specific_property
    delete_provider_specific_property use_alias adjust_alias_record
adjust_cname_record p ep =
    adjust_cname_by p ep (get_bool_provider_specific_property provider_specific_alias ep)

unfoldable pub adjust_other_record : AwsProvider → Endpoint → Endpoint
unfolding has_alias adjust_alias_record without_alias delete_provider_specific_property
adjust_other_record p ep =
    if has_alias ep
    then delete_provider_specific_property provider_specific_alias (adjust_alias_record p ep)
    else without_alias ep

abbrev pub is_set : Option Text → Bool
is_set none = false
is_set (some v) = true

unfoldable pub adjust_geo_proximity_location_endpoint : Endpoint → Endpoint
unfolding get_provider_specific_property set_provider_specific_property
adjust_geo_proximity_location_endpoint ep =
    let has = (λ (k : Text). is_set (get_provider_specific_property k ep)) in
    if is_nil ep.set_identifier
    then ep
    else if has provider_specific_geo_proximity_location_aws_region
        || (has provider_specific_geo_proximity_location_local_zone_group
            || has provider_specific_geo_proximity_location_coordinates)
    then (if not (has provider_specific_geo_proximity_location_bias)
        then set_provider_specific_property provider_specific_geo_proximity_location_bias
            (codes "0") ep
        else ep)
    else ep

-- the AAAA counterpart of an alias
abbrev pub aaaa_of : Endpoint → Option Endpoint
aaaa_of ep = if has_alias ep then some (record ep { record_type = record_type_aaaa }) else none

-- `adjustEndpointAndNewAaaaIfNeeded`: the endpoint as it is left, and its AAAA counterpart
unfoldable pub adjust_endpoint_and_new_aaaa_if_needed :
    AwsProvider → Endpoint → Endpoint × Option Endpoint
unfolding adjust_a_and_aaaa_record adjust_cname_record adjust_other_record
    adjust_geo_proximity_location_endpoint has_alias
adjust_endpoint_and_new_aaaa_if_needed p ep =
    if ep.record_type == record_type_a || ep.record_type == record_type_aaaa
    then (adjust_geo_proximity_location_endpoint (adjust_a_and_aaaa_record p ep), none)
    else if ep.record_type == record_type_cname
    then (let ep' = adjust_geo_proximity_location_endpoint (adjust_cname_record p ep) in
        (ep', aaaa_of ep'))
    else (adjust_geo_proximity_location_endpoint (adjust_other_record p ep), none)

abbrev pub add_aaaa : Option Endpoint → List Endpoint → List Endpoint
add_aaaa none more = more
add_aaaa (some aaaa) more = aaaa ∷ more

-- the loop of `AdjustEndpoints`: the endpoints, and the AAAA counterparts
unfoldable pub adjust_all : AwsProvider → List Endpoint → List Endpoint × List Endpoint
unfolding adjust_endpoint_and_new_aaaa_if_needed
adjust_all p [] = ([], [])
adjust_all p (ep ∷ eps) =
    let (ep', aaaa) = adjust_endpoint_and_new_aaaa_if_needed p ep in
    let (eps', more) = adjust_all p eps in (ep' ∷ eps', add_aaaa aaaa more)

unfoldable pub adjust_endpoints : AwsProvider → List Endpoint → List Endpoint
unfolding adjust_all
adjust_endpoints p eps = let (eps', more) = adjust_all p eps in eps' ++ more
