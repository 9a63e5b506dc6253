-- ===== src/Tests/AwsTests.antt =====
-- provider/aws at a few changes, and the sequences of calls of the in-memory provider.
use external_dns.Prelude.{
  All, List, Map, Option, Text, [], any, arith, codes, false, int_eq, keep, length, ltb, nat_eq,
  none, refl, some, text_beq, text_eq, true, ℕ, ◌∷◌, ◌≡◌,
}
use external_dns.Plan.Types.{Changes, no_changes}
use external_dns.Provider.Aws.Batch.{batch_change_set}
use external_dns.Provider.Aws.BatchLaws.{InLimits, batch_change_set-InLimits}
use external_dns.Provider.Aws.Change.{new_change}
use external_dns.Provider.Aws.QueueLaws.{combined_changes-fresh}
use external_dns.Provider.Aws.Submit.{combined_changes, find_changes_in_queue, limits_of}
use external_dns.Provider.Aws.Types.{
  AliasTarget, AwsProvider, Numbers, ProfiledZone, Route53Change, Route53Changes, action_create,
}
use external_dns.Provider.Aws.ZoneLaws.{
  IsBestPublic, is_private_of, suitable_zones-IsBestPublic, zones_in,
}
use external_dns.Provider.Aws.Zones.{HostedZones, changes_by_zone, suitable_zones, with_public}
use external_dns.Provider.InMemory.{Zones}
use external_dns.Provider.RefineLaws.{StoreRun, client_run, client_run-StoreRun, store_of}
use external_dns.Registry.Txt.{record_key_eq}
use external_dns.Tests.Samples.{record_of, sample_changes, sample_net}

abbrev no_numbers : Numbers
no_numbers = record {
  parse_int = λ t n. none;
  Float = ℕ;
  parse_float = λ t. none;
  float_ltb = λ x y. ltb x y;
  of_int = λ n. 0;
  format_int = λ n. [];
  unquote = λ t. none;
}

abbrev sample_aws : AwsProvider
sample_aws = record {
  dry_run = false;
  batch_change_size = 2;
  batch_change_size_bytes = 100;
  batch_change_size_values = 10;
  evaluate_target_health = true;
  prefer_cname = false;
  failed_changes_queue = [];
}

abbrev sample_combined : Route53Changes
unfolding combined_changes
sample_combined = (combined_changes no_numbers sample_aws 5 sample_changes).0

batch_change_set-InLimits_example :
    All (InLimits (limits_of sample_aws)) (batch_change_set (limits_of sample_aws) sample_combined)
batch_change_set-InLimits_example = batch_change_set-InLimits (limits_of sample_aws) sample_combined

-- three changes in batches of at most two
two_batches : length (batch_change_set (limits_of sample_aws) sample_combined) ≡ 2
unfolding batch_change_set combined_changes text_beq any
two_batches = refl

abbrev queued : Route53Changes
unfolding combined_changes
queued = (combined_changes no_numbers sample_aws 0 sample_changes).0

combined_changes-fresh_example :
    find_changes_in_queue (combined_changes no_numbers sample_aws 5 sample_changes).0 queued
    ≡ ([], (combined_changes no_numbers sample_aws 5 sample_changes).0)
unfolding combined_changes text_beq any
combined_changes-fresh_example =
    combined_changes-fresh no_numbers sample_aws 5 sample_changes queued
      (omega arith, (omega arith, (omega arith, tt)))

abbrev private_zone_named : Text → ProfiledZone
private_zone_named id = record {
  profile = [];
  id = id;
  name = codes "example.org.";
  private_zone = some true;
}

abbrev alias_change : Route53Change
unfolding new_change
alias_change =
    new_change no_numbers sample_aws 0 action_create
      (record (record_of (codes "d.example.org") (codes "e.example.org") (some [])) {
        provider_specific = record { name = codes "alias"; value = codes "true" } ∷ [];
      })

abbrev zone_of_alias : Option AliasTarget → Text
zone_of_alias none = []
zone_of_alias (some a) = a.hosted_zone_id

-- the zones of the aliases that the zones are told, and the bytes that are counted
abbrev told : Map Text Route53Changes → List (Text × Text × ℕ)
told [] = []
told ((id, []) ∷ zones) = told zones
told ((id, c ∷ cs) ∷ zones) =
    (id, zone_of_alias c.record_set.alias_target, c.size_bytes) ∷ told zones

-- an alias in the zone of its record goes to two private zones of the name: the second is told the
-- zone of the first, and neither copy has a size
alias_of_first_zone :
    told
      (changes_by_zone
        (λ t. false)
        ((codes "Z1", private_zone_named (codes "Z1"))
          ∷ (codes "Z2", private_zone_named (codes "Z2"))
          ∷ [])
        1
        (alias_change ∷ [])).0
    ≡ (codes "Z2", codes "Z1", 0) ∷ (codes "Z1", codes "Z1", 0) ∷ []
unfolding changes_by_zone new_change text_beq any
alias_of_first_zone = refl

abbrev one_zone : Zones
one_zone = (codes "example.org", []) ∷ []

abbrev just_create : Changes
just_create = record no_changes { create = sample_changes.create }

-- the second call creates what is there
abbrev two_calls : List (Text × Changes)
two_calls = (codes "example.org", just_create) ∷ (codes "example.org", just_create) ∷ []

client_run-StoreRun_example :
    StoreRun two_calls (store_of one_zone) (store_of (client_run two_calls one_zone))
client_run-StoreRun_example = client_run-StoreRun two_calls one_zone

one_accepted :
    client_run two_calls one_zone ≡ client_run ((codes "example.org", just_create) ∷ []) one_zone
unfolding client_run text_beq
one_accepted = refl

abbrev public_zone_named : Text → ProfiledZone
public_zone_named name = record { profile = []; id = name; name = name; private_zone = none }

-- a private zone, and three public ones, of which two cover the host
abbrev some_zones : HostedZones
some_zones =
    (codes "Z1", private_zone_named (codes "Z1"))
    ∷ (codes "Z2", public_zone_named (codes "org."))
    ∷ (codes "Z3", public_zone_named (codes "example.org."))
    ∷ (codes "Z4", public_zone_named (codes "example.com."))
    ∷ []

suitable_zones-IsBestPublic_example :
    (best : Option ProfiledZone) × (suitable_zones (codes "www.example.org.") some_zones
      ≡ with_public (keep (is_private_of (codes "www.example.org.")) (zones_in some_zones)) best)
    × IsBestPublic (codes "www.example.org.") (zones_in some_zones) best
suitable_zones-IsBestPublic_example =
    suitable_zones-IsBestPublic (codes "www.example.org.") some_zones

two_suitable :
    suitable_zones (codes "www.example.org.") some_zones
    ≡ private_zone_named (codes "Z1") ∷ public_zone_named (codes "example.org.") ∷ []
unfolding suitable_zones text_beq
two_suitable = refl
