-- ===== src/Provider/Aws/Zones.antt =====
-- The zones of a change: `suitableZones` and `changesByZone` of provider/aws/aws.go.
use external_dns.Prelude.{
  Bool, List, Map, Option, Text, [], false, has_suffix, if◌then◌else◌, insert, int_eq, is_nil, keep,
  length, lookup, ltb, nat_eq, none, not, snoc, some, suc, text_eq, trim_suffix, true, ℕ, ◌==◌,
  ◌||◌, ◌∷◌,
}
use external_dns.Plan.Rows.{at}
use external_dns.Provider.Aws.Alias.{clean_zone_id}
use external_dns.Provider.Aws.Batch.{append_change}
use external_dns.Provider.Aws.Types.{
  AliasTarget, ProfiledZone, Route53Change, Route53Changes, same_zone_alias,
}

abbrev pub HostedZones : Type 0
HostedZones = Map Text ProfiledZone

unfoldable pub covers_host : Text → ProfiledZone → Bool
unfolding has_suffix
covers_host hostname z = z.name == hostname || has_suffix hostname (b'.' ∷ z.name)

abbrev pub is_private : ProfiledZone → Bool
is_private z = is_true z.private_zone
  where
    is_true : Option Bool → Bool
    is_true none = false
    is_true (some b) = b

abbrev pub better_public : ProfiledZone → Option ProfiledZone → Option ProfiledZone
better_public z none = some z
better_public z (some best) = if ltb (length best.name) (length z.name) then some z else some best

abbrev pub with_public : List ProfiledZone → Option ProfiledZone → List ProfiledZone
with_public zones none = zones
with_public zones (some z) = snoc zones z

-- the loop of `suitableZones`, in the order of the map, which Go leaves open
unfoldable pub suitable_from :
    Text → HostedZones → List ProfiledZone → Option ProfiledZone → List ProfiledZone
unfolding covers_host
suitable_from hostname [] matching public = with_public matching public
suitable_from hostname ((id, z) ∷ zones) matching public = elim (covers_host hostname z) [
  | false ↦ suitable_from hostname zones matching public
  | true ↦ elim (is_private z) [
    | false ↦ suitable_from hostname zones matching (better_public z public)
    | true ↦ suitable_from hostname zones (snoc matching z) public
  ]
]

unfoldable pub suitable_zones : Text → HostedZones → List ProfiledZone
unfolding suitable_from
suitable_zones hostname zones = suitable_from hostname zones [] none

abbrev pub in_same_zone : Option AliasTarget → Bool
in_same_zone none = false
in_same_zone (some a) = a.hosted_zone_id == same_zone_alias

abbrev pub with_alias_zone : Text → Option AliasTarget → Option AliasTarget
with_alias_zone zone none = none
with_alias_zone zone (some a) = some (record a { hosted_zone_id = zone })

-- the copy of a change whose alias is in the zone: a new allocation with the action and the record
-- set only
unfoldable pub localized : ℕ → Route53Change → ProfiledZone → Route53Change
unfolding clean_zone_id
localized at c z = record {
  address = at;
  action = c.action;
  record_set = record c.record_set {
    alias_target = with_alias_zone (clean_zone_id z.id) c.record_set.alias_target;
  };
  owned_record = [];
  size_bytes = 0;
  size_values = 0;
}

-- the loop over the zones of a change: the variable of the change is written in the loop
unfoldable pub add_to_zones :
    ℕ → Route53Change → List ProfiledZone → Map Text Route53Changes → Map Text Route53Changes × ℕ
unfolding localized insert lookup
add_to_zones at c [] changes = (changes, at)
add_to_zones at c (z ∷ zones) changes = elim (in_same_zone c.record_set.alias_target) [
  | false ↦ add_to_zones at c zones (append_change z.id c changes)
  | true ↦
      add_to_zones (suc at) (localized at c z) zones (append_change z.id (localized at c z) changes)
]

module _ (is_ip : Text → Bool) where
  -- `provider.EnsureTrailingDot`; `is_ip` is whether `net.ParseIP` returns an address
  unfoldable pub ensure_trailing_dot : Text → Text
  unfolding trim_suffix
  ensure_trailing_dot hostname =
      if is_ip hostname then hostname else snoc (trim_suffix hostname (b'.' ∷ [])) b'.'

  -- the loop over the changes
  unfoldable pub separate :
      HostedZones → ℕ → Route53Changes → Map Text Route53Changes → Map Text Route53Changes × ℕ
  unfolding add_to_zones suitable_zones ensure_trailing_dot
  separate zones at [] changes = (changes, at)
  separate zones at (c ∷ cs) changes =
      let (changes', at') =
        add_to_zones at c (suitable_zones (ensure_trailing_dot c.record_set.name) zones) changes in
      separate zones at' cs changes'

  abbrev pub has_change : Text × Route53Changes → Bool
  has_change (id, cs) = not (is_nil cs)

  -- `changesByZone`: an entry for every zone at first, and none for a zone without changes at last
  unfoldable pub changes_by_zone : HostedZones → ℕ → Route53Changes → Map Text Route53Changes × ℕ
  unfolding separate keep insert
  changes_by_zone zones at cs =
      let (changes, free) = separate zones at cs (empty_sets zones) in
      (keep has_change changes, free)
    where
      empty_sets : HostedZones → Map Text Route53Changes
      empty_sets [] = []
      empty_sets ((id, z) ∷ zs) = insert z.id [] (empty_sets zs)
