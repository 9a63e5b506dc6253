-- ===== src/Provider/Aws/Change.antt =====
-- `newChange` of provider/aws/aws.go, with the locations that it sets.
use mathlib.Core.Option
use external_dns.Prelude.{
  Bool, List, Option, Text, [], false, if◌then◌else◌, int_eq, is_nil, length, nat_eq, negsuc, none,
  not, pos, some, split, suc, text_eq, true, zero, ℕ, ℤ, ◌&&◌, ◌*◌, ◌+◌, ◌==◌, ◌∷◌,
}
use external_dns.Endpoint.Properties.{
  get_bool_provider_specific_property, get_provider_specific_property,
}
use external_dns.Endpoint.Types.{
  Endpoint, Targets, Ttl, is_configured, or_empty, owned_record_label_key, read_label,
}
use external_dns.Plan.Rows.{at}
use external_dns.Provider.Aws.Alias.{clean_zone_id, is_aws_alias}
use external_dns.Provider.Aws.Types.{
  AliasTarget, AwsProvider, GeoLocation, GeoProximityLocation, Numbers, ResourceRecordSet,
  Route53Change, Route53Changes, action_upsert, default_ttl,
  provider_specific_evaluate_target_health, provider_specific_failover,
  provider_specific_geo_proximity_location_aws_region,
  provider_specific_geo_proximity_location_bias,
  provider_specific_geo_proximity_location_coordinates,
  provider_specific_geo_proximity_location_local_zone_group,
  provider_specific_geolocation_continent_code, provider_specific_geolocation_country_code,
  provider_specific_geolocation_subdivision_code, provider_specific_health_check_id,
  provider_specific_multi_value_answer, provider_specific_region, provider_specific_weight,
}

unfoldable pub total_length : List Text → ℕ
total_length [] = 0
total_length (t ∷ ts) = length t + total_length ts

module _ (numbers : Numbers) where
  open numbers use {Float, parse_int, parse_float, float_ltb, of_int}

  -- a number that does not parse is 0
  abbrev pub parsed : Option ℤ → ℤ
  parsed none = pos 0
  parsed (some n) = n

  -- a coordinate between the bounds
  abbrev pub between : ℤ → Option Float → Bool
  between bound none = false
  between bound (some x) =
      not (float_ltb x (of_int (negate bound))) && not (float_ltb (of_int bound) x)
    where
      negate : ℤ → ℤ
      negate (pos zero) = pos 0
      negate (pos (suc n)) = negsuc n
      negate (negsuc n) = pos (suc n)

  -- whether `validateCoordinates` returns no error
  unfoldable pub validate_coordinates : Text → Text → Bool
  validate_coordinates lat long =
      between (pos 90) (parse_float lat) && between (pos 180) (parse_float long)

  abbrev pub coordinates_of_parts : List Text → Option (Text × Text)
  coordinates_of_parts (latitude ∷ longitude ∷ []) =
      if validate_coordinates latitude longitude then some (latitude, longitude) else none
  coordinates_of_parts _ = none

  -- `withCoordinates`
  unfoldable pub coordinates_of : Option Text → Option (Text × Text)
  unfolding validate_coordinates split
  coordinates_of none = none
  coordinates_of (some prop) = coordinates_of_parts (split prop b',')

  abbrev pub nothing : {A : Type 0} → Option A → Bool
  nothing none = true
  nothing (some v) = false

  -- `build`: nil where nothing is set
  abbrev pub build_location : GeoProximityLocation → Option GeoProximityLocation
  build_location g =
      if nothing g.aws_region
        && (nothing g.local_zone_group && (nothing g.bias && nothing g.coordinates))
      then none
      else some g

  -- `withChangeForGeoProximityEndpoint`
  unfoldable pub geo_proximity_of : Endpoint → Option GeoProximityLocation
  unfolding coordinates_of get_provider_specific_property
  geo_proximity_of ep = build_location (record {
    aws_region =
        get_provider_specific_property provider_specific_geo_proximity_location_aws_region ep;
    local_zone_group =
        get_provider_specific_property provider_specific_geo_proximity_location_local_zone_group ep;
    bias =
        Option.map (λ prop. parsed (parse_int prop 32))
          (get_provider_specific_property provider_specific_geo_proximity_location_bias ep);
    coordinates =
        coordinates_of
          (get_provider_specific_property provider_specific_geo_proximity_location_coordinates ep);
  })

  abbrev pub geo_location_by : Option Text → Option Text → Option Text → Option GeoLocation
  geo_location_by (some continent) country subdivision =
      some
        (record { continent_code = some continent; country_code = none; subdivision_code = none })
  geo_location_by none none none = none
  geo_location_by none country subdivision =
      some
        (record { continent_code = none; country_code = country; subdivision_code = subdivision })

  unfoldable pub geo_location_of : Endpoint → Option GeoLocation
  unfolding get_provider_specific_property
  geo_location_of ep =
      geo_location_by
        (get_provider_specific_property provider_specific_geolocation_continent_code ep)
        (get_provider_specific_property provider_specific_geolocation_country_code ep)
        (get_provider_specific_property provider_specific_geolocation_subdivision_code ep)

  abbrev pub health_of : Option Bool → Bool → Bool
  health_of none default = default
  health_of (some prop) default = prop

  -- the alias target, where the endpoint is an alias of a zone
  abbrev pub alias_target_of : AwsProvider → Endpoint → Text → Targets → Option AliasTarget
  alias_target_of p ep [] targets = none
  alias_target_of p ep (c ∷ zone) [] = none
  alias_target_of p ep (c ∷ zone) (t ∷ ts) = some (record {
    dns_name = t;
    hosted_zone_id = clean_zone_id (c ∷ zone);
    evaluate_target_health =
        health_of (get_bool_provider_specific_property provider_specific_evaluate_target_health ep)
          p.evaluate_target_health;
  })

  abbrev pub ttl_of : Ttl → ℤ
  ttl_of ttl = if not (is_configured ttl) then default_ttl else ttl

  -- the values of the record, or its alias target
  abbrev pub record_set_of : Endpoint → Option AliasTarget → ResourceRecordSet
  record_set_of ep alias = record {
    name = ep.dns_name;
    rr_type = ep.record_type;
    alias_target = alias;
    ttl = if is_alias alias then none else some (ttl_of ep.record_ttl);
    resource_records = if is_alias alias then [] else ep.targets;
    set_identifier = if not (is_nil ep.set_identifier) then some ep.set_identifier else none;
    weight =
        Option.map (λ prop. parsed (parse_int prop 64))
          (get_provider_specific_property provider_specific_weight ep);
    region = or_empty (get_provider_specific_property provider_specific_region ep);
    failover = or_empty (get_provider_specific_property provider_specific_failover ep);
    multi_value_answer =
        Option.map (λ prop. true)
          (get_provider_specific_property provider_specific_multi_value_answer ep);
    geo_location = geo_location_of ep;
    geo_proximity_location = geo_proximity_of ep;
    health_check_id = get_provider_specific_property provider_specific_health_check_id ep;
  }
    where
      is_alias : Option AliasTarget → Bool
      is_alias none = false
      is_alias (some a) = true

  -- the bytes and the number of values
  abbrev pub sizes_of : Endpoint → Option AliasTarget → ℕ × ℕ
  sizes_of ep (some a) = (length a.dns_name, 1)
  sizes_of ep none = (total_length ep.targets, length ep.targets)

  abbrev pub counted : Text → ℕ → ℕ
  counted action n = if action == action_upsert then n * 2 else n

  -- `newChange`; `at` is the address of the allocation
  unfoldable pub new_change : AwsProvider → ℕ → Text → Endpoint → Route53Change
  unfolding is_aws_alias clean_zone_id total_length geo_location_of geo_proximity_of
      get_bool_provider_specific_property get_provider_specific_property
  new_change p at action ep =
      let alias = alias_target_of p ep (is_aws_alias ep) ep.targets in
      let (bytes, values) = sizes_of ep alias in
      record {
        address = at;
        action = action;
        record_set = record_set_of ep alias;
        owned_record = or_empty (read_label owned_record_label_key ep.labels);
        size_bytes = counted action bytes;
        size_values = counted action values;
      }

  -- `newChanges`: the next free address comes back
  unfoldable pub new_changes : AwsProvider → ℕ → Text → List Endpoint → Route53Changes × ℕ
  unfolding new_change
  new_changes p at action [] = ([], at)
  new_changes p at action (ep ∷ eps) =
      let (cs, free) = new_changes p (suc at) action eps in (new_change p at action ep ∷ cs, free)
