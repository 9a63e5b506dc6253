-- ===== src/Plan/Types.antt =====
-- The data of plan/plan.go: changes, the keys and rows of the plan table.
use external_dns.Prelude.{
  All, Bool, Comparable, List, Map, Option, Text, [], arith, if◌then◌else◌, int_eq, is_nil, nat_eq,
  not, text_beq_iff, text_eq, true, ◌&&◌, ◌==◌, ◌||◌, ◌↔◌, ◌≡◌,
}
use external_dns.Endpoint.Types.{Endpoint}

pub record Changes : Type 0 where
  pub create : List Endpoint
  pub update_old : List Endpoint
  pub update_new : List Endpoint
  pub delete : List Endpoint

abbrev pub no_changes : Changes
no_changes = record { create = []; update_old = []; update_new = []; delete = [] }

-- `Changes.HasChanges`; `cmp.Equal` of the two update lists is a parameter: go-cmp is a library
unfoldable pub has_changes : (List Endpoint → List Endpoint → Bool) → Changes → Bool
has_changes equal c =
    if not (is_nil c.create) || not (is_nil c.delete)
    then true
    else not (equal c.update_new c.update_old)

pub record PlanKey : Type 0 where
  pub dns_name : Text
  pub set_identifier : Text

abbrev pub plan_key_beq : PlanKey → PlanKey → Bool
plan_key_beq k j = k.dns_name == j.dns_name && k.set_identifier == j.set_identifier

pub plan_key_beq_iff : (k j : PlanKey) → (plan_key_beq k j ≡ true) ↔ (k ≡ j)
plan_key_beq_iff k j =
    ground
      (arith, text_beq_iff k.dns_name j.dns_name, text_beq_iff k.set_identifier j.set_identifier)

instance abbrev pub plan_key_eq : Comparable PlanKey
plan_key_eq = record { equals = plan_key_beq; equals_iff = plan_key_beq_iff }

-- `current` is nil where no current record has the type
pub record DomainEndpoints : Type 0 where
  pub current : Option Endpoint
  pub candidates : List Endpoint

pub record PlanTableRow : Type 0 where
  pub current : List Endpoint
  pub candidates : List Endpoint
  pub records : Map Text DomainEndpoints

abbrev pub PlanTable : Type 0
PlanTable = Map PlanKey PlanTableRow

-- Go ranges over a map in an order of its own: each loop over the plan table and over the records of
-- a row visits the entries of the map, in an order that this interface leaves open.
pub record Ranges : Type 1 where
  pub rows : PlanTable → List (PlanKey × PlanTableRow)
  pub records : Map Text DomainEndpoints → List (Text × DomainEndpoints)
  pub rows-All : (P : PlanKey × PlanTableRow → Type 0) (t : PlanTable) → All P t → All P (rows t)
  pub records-All :
      (P : Text × DomainEndpoints → Type 0) (m : Map Text DomainEndpoints)
      → All P m
      → All P (records m)
