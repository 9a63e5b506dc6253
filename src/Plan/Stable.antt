-- ===== src/Plan/Stable.antt =====
-- Records that are already as desired: `appendEndpointUpdates` and its tests, plan/plan.go.
use mathlib.Core.List.{append-nil, append_assoc}
use external_dns.Prelude.{
  All, Map, Text, [], ap, arith, false, insert, int_beq_iff, int_eq, lookup, nat_eq, none, refl,
  remove, same_refl, sym, text_beq_iff, text_eq, true, ◌++◌, ◌∙◌, ◌∷◌, ◌≡◌, ◌≢◌,
}
use external_dns.Endpoint.Net.{Net}
use external_dns.Endpoint.PropertyLaws.{HasDistinctNames, NoName}
use external_dns.Endpoint.Targets.{same, same_from, sort_targets}
use external_dns.Endpoint.Types.{Endpoint, ProviderSpecific, ProviderSpecificProperty, Targets}
use external_dns.Plan.Calculate.{
  append_if_changed, is_old_owner_id_set_and_different, properties_differ, property_map,
  should_update_provider_specific, should_update_ttl,
}
use external_dns.Plan.Types.{Changes}

module _ ⦃net : Net⦄ where
  same_from_refl : (t : Targets) → same_from t t ≡ true
  unfolding same_from
  same_from_refl [] = refl
  same_from_refl (e ∷ t) = rw (net.equal_fold_refl e) (same_from_refl t)

  -- `Same` finds every list of targets the same as itself, and leaves it sorted.
  pub same_targets_refl : (t : Targets) → same t t ≡ (true, sort_targets t, sort_targets t)
  unfolding same
  same_targets_refl t = ground (arith, same_from_refl (sort_targets t))

abbrev pairs : ProviderSpecific → Map Text ProviderSpecificProperty
pairs [] = []
pairs (p ∷ ps) = (p.name, p) ∷ pairs ps

abbrev Absent : Map Text ProviderSpecificProperty → ProviderSpecificProperty → Type 0
Absent m p = lookup p.name m ≡ none

insert-absent :
    (k : Text) (p : ProviderSpecificProperty) (m : Map Text ProviderSpecificProperty)
    → lookup k m ≡ none
    → insert k p m ≡ m ++ (k, p) ∷ []
unfolding lookup insert
insert-absent k p [] h = refl
insert-absent k p ((j, q) ∷ m) h = ground (arith, insert-absent k p m)

lookup-snoc_ne :
    (k j : Text) (p : ProviderSpecificProperty) (m : Map Text ProviderSpecificProperty)
    → k ≢ j
    → lookup k m ≡ none
    → lookup k (m ++ (j, p) ∷ []) ≡ none
unfolding lookup
lookup-snoc_ne k j p [] ne h = ground (arith, text_beq_iff j k, ne)
lookup-snoc_ne k j p ((i, q) ∷ m) ne h = ground (arith, lookup-snoc_ne k j p m ne)

Absent-snoc :
    (p : ProviderSpecificProperty) (m : Map Text ProviderSpecificProperty) (ps : ProviderSpecific)
    → NoName p.name ps
    → All (Absent m) ps
    → All (Absent (m ++ (p.name, p) ∷ [])) ps
Absent-snoc p m [] ne h = tt
Absent-snoc p m (q ∷ ps) (ne, nes) (hq, h) =
    (lookup-snoc_ne q.name p.name p m ne hq, Absent-snoc p m ps nes h)

property_map-pairs :
    (ps : ProviderSpecific) (m : Map Text ProviderSpecificProperty)
    → HasDistinctNames ps
    → All (Absent m) ps
    → property_map ps m ≡ m ++ pairs ps
unfolding property_map
property_map-pairs [] m d h = sym (append-nil m)
property_map-pairs (p ∷ ps) m (n, d) (hp, h) =
    ap (property_map ps) (insert-absent p.name p m hp)
    ∙ property_map-pairs ps (m ++ (p.name, p) ∷ []) d (Absent-snoc p m ps n h)
    ∙ append_assoc m ((p.name, p) ∷ []) (pairs ps)

remove-pairs : (k : Text) (ps : ProviderSpecific) → NoName k ps → remove k (pairs ps) ≡ pairs ps
unfolding remove
remove-pairs k [] h = refl
remove-pairs k (p ∷ ps) (ne, h) = ground (arith, text_beq_iff p.name k, ne, remove-pairs k ps h)

properties_differ-pairs :
    (ps : ProviderSpecific) → HasDistinctNames ps → properties_differ (pairs ps) ps ≡ false
unfolding properties_differ lookup remove
properties_differ-pairs [] d = refl
properties_differ-pairs (p ∷ ps) (n, d) = ground (
  arith,
  same_refl p.name,
  same_refl p.value,
  ap (λ m. properties_differ m ps) (remove-pairs p.name ps n),
  properties_differ-pairs ps d,
)

All-Absent : (ps : ProviderSpecific) → All (Absent []) ps
unfolding lookup
All-Absent [] = tt
All-Absent (p ∷ ps) = (refl, All-Absent ps)

-- Two endpoints with the same properties, of different names, need no update for them.
should_update_provider_specific-same :
    (desired current : Endpoint)
    → desired.provider_specific ≡ current.provider_specific
    → HasDistinctNames current.provider_specific
    → should_update_provider_specific desired current ≡ false
unfolding should_update_provider_specific
should_update_provider_specific-same desired current e d =
    rw (e, property_map-pairs current.provider_specific [] d (All-Absent current.provider_specific))
      (properties_differ-pairs current.provider_specific d)

-- the targets, the TTL and the properties are the same
pub record IsUpToDate (desired current : Endpoint) : Type 0 where
  pub targets : desired.targets ≡ current.targets
  pub record_ttl : desired.record_ttl ≡ current.record_ttl
  pub provider_specific : desired.provider_specific ≡ current.provider_specific
  pub distinct : HasDistinctNames current.provider_specific

should_update_ttl-same :
    (desired current : Endpoint)
    → desired.record_ttl ≡ current.record_ttl
    → should_update_ttl desired current ≡ false
unfolding should_update_ttl
should_update_ttl-same desired current e =
    ground (arith, int_beq_iff desired.record_ttl current.record_ttl, e)

-- A record whose replacement has its targets, TTL and properties, these under different names, is
-- not updated, unless an old owner is set that does not own it.
pub append_if_changed-IsUpToDate :
    ⦃net : Net⦄ (old_owner_id : Text) (changes : Changes) (current update : Endpoint)
    → IsUpToDate update current
    → is_old_owner_id_set_and_different old_owner_id current ≡ false
    → append_if_changed old_owner_id changes current update ≡ changes
unfolding append_if_changed is_old_owner_id_set_and_different
append_if_changed-IsUpToDate old_owner_id changes current update u o =
    let us = sort_targets current.targets in
    rw
      (
        should_update_ttl-same update current u.record_ttl,
        u.targets,
        same_targets_refl current.targets,
      )
      (rw (
        should_update_provider_specific-same (record update { targets = us })
            (record current { targets = us }) u.provider_specific u.distinct,
        o,
      ))
