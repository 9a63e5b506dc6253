-- ===== src/Provider/Aws/Types.antt =====
-- The data of provider/aws/aws.go, and the parts of Route 53's types that it uses.
use external_dns.Prelude.{Bool, List, Map, Option, Text, codes, false, pos, true, ℕ, ℤ}

-- `route53types.ChangeAction` is a string
abbrev pub action_create : Text
action_create = codes "CREATE"

abbrev pub action_delete : Text
action_delete = codes "DELETE"

abbrev pub action_upsert : Text
action_upsert = codes "UPSERT"

pub record AliasTarget : Type 0 where
  pub dns_name : Text
  pub hosted_zone_id : Text
  pub evaluate_target_health : Bool

pub record GeoLocation : Type 0 where
  pub continent_code : Option Text
  pub country_code : Option Text
  pub subdivision_code : Option Text

pub record GeoProximityLocation : Type 0 where
  pub aws_region : Option Text
  pub local_zone_group : Option Text
  pub bias : Option ℤ
  -- the latitude and the longitude
  pub coordinates : Option (Text × Text)

pub record ResourceRecordSet : Type 0 where
  pub name : Text
  pub rr_type : Text
  pub alias_target : Option AliasTarget
  pub ttl : Option ℤ
  pub resource_records : List Text
  pub set_identifier : Option Text
  pub weight : Option ℤ
  pub region : Text
  pub failover : Text
  pub multi_value_answer : Option Bool
  pub geo_location : Option GeoLocation
  pub geo_proximity_location : Option GeoProximityLocation
  pub health_check_id : Option Text

-- `Route53Change`, with the address of the allocation, which tells pointers apart
pub record Route53Change : Type 0 where
  pub address : ℕ
  pub action : Text
  pub record_set : ResourceRecordSet
  pub owned_record : Text
  pub size_bytes : ℕ
  pub size_values : ℕ

abbrev pub Route53Changes : Type 0
Route53Changes = List Route53Change

-- `route53types.HostedZone` with the profile: `private_zone` is `none` where the zone has no config
pub record ProfiledZone : Type 0 where
  pub profile : Text
  pub id : Text
  pub name : Text
  pub private_zone : Option Bool

pub record AwsProvider : Type 0 where
  pub dry_run : Bool
  pub batch_change_size : ℕ
  pub batch_change_size_bytes : ℕ
  pub batch_change_size_values : ℕ
  pub evaluate_target_health : Bool
  pub prefer_cname : Bool
  -- `failedChangesQueue`
  pub failed_changes_queue : Map Text Route53Changes

-- what strconv parses
pub record Numbers : Type 1 where
  -- `strconv.ParseInt` with base 10 and a number of bits
  pub parse_int : Text → ℕ → Option ℤ
  pub Float : Type 0
  pub parse_float : Text → Option Float
  pub float_ltb : Float → Float → Bool
  pub of_int : ℤ → Float
  -- `fmt.Sprintf` of a number with the verb d, and `strconv.Unquote`
  pub format_int : ℤ → Text
  pub unquote : Text → Option Text

abbrev pub default_ttl : ℤ
default_ttl = pos 300

abbrev pub provider_specific_alias : Text
provider_specific_alias = codes "alias"

abbrev pub provider_specific_target_hosted_zone : Text
provider_specific_target_hosted_zone = codes "aws/target-hosted-zone"

abbrev pub provider_specific_evaluate_target_health : Text
provider_specific_evaluate_target_health = codes "aws/evaluate-target-health"

abbrev pub provider_specific_weight : Text
provider_specific_weight = codes "aws/weight"

abbrev pub provider_specific_region : Text
provider_specific_region = codes "aws/region"

abbrev pub provider_specific_failover : Text
provider_specific_failover = codes "aws/failover"

abbrev pub provider_specific_geolocation_continent_code : Text
provider_specific_geolocation_continent_code = codes "aws/geolocation-continent-code"

abbrev pub provider_specific_geolocation_country_code : Text
provider_specific_geolocation_country_code = codes "aws/geolocation-country-code"

abbrev pub provider_specific_geolocation_subdivision_code : Text
provider_specific_geolocation_subdivision_code = codes "aws/geolocation-subdivision-code"

abbrev pub provider_specific_geo_proximity_location_aws_region : Text
provider_specific_geo_proximity_location_aws_region = codes "aws/geoproximity-region"

abbrev pub provider_specific_geo_proximity_location_bias : Text
provider_specific_geo_proximity_location_bias = codes "aws/geoproximity-bias"

abbrev pub provider_specific_geo_proximity_location_coordinates : Text
provider_specific_geo_proximity_location_coordinates = codes "aws/geoproximity-coordinates"

abbrev pub provider_specific_geo_proximity_location_local_zone_group : Text
provider_specific_geo_proximity_location_local_zone_group =
    codes "aws/geoproximity-local-zone-group"

abbrev pub provider_specific_multi_value_answer : Text
provider_specific_multi_value_answer = codes "aws/multi-value-answer"

abbrev pub provider_specific_health_check_id : Text
provider_specific_health_check_id = codes "aws/health-check-id"

abbrev pub same_zone_alias : Text
same_zone_alias = codes "same-zone"

abbrev pub format_bool : Bool → Text
format_bool true = codes "true"
format_bool false = codes "false"
