-- ===== src/Plan/Table.antt =====
-- `planTable` of plan/plan.go: the rows by DNS name and set identifier, the records of a row by type.
use external_dns.Prelude.{
  Comparable, List, Map, [], if◌then◌else◌, insert, int_eq, lookup, nat_eq, none, some, text_eq,
  ◌++◌, ◌==◌, ◌∷◌,
}
use external_dns.Endpoint.Net.{Net}
use external_dns.Endpoint.Types.{Endpoint}
use external_dns.Idna.{normalize_dns_name}
use external_dns.Plan.Types.{DomainEndpoints, PlanKey, PlanTable, PlanTableRow, plan_key_eq}

abbrev pub empty_row : PlanTableRow
empty_row = record { current = []; candidates = []; records = [] }

abbrev pub empty_records : DomainEndpoints
empty_records = record { current = none; candidates = [] }

-- `if _, ok := m[k]; !ok { m[k] = v }`
unfoldable pub ensure {ℓ κ} :
    {K : Type ℓ} {V : Type κ} ⦃e : Comparable K⦄ → K → V → Map K V → Map K V
ensure k v m = elim (lookup k m) [ none ↦ insert k v m | some w ↦ m ]

-- a write through the pointer `m[k]`: a Go map has one entry for a key
unfoldable pub adjust {ℓ κ} :
    {K : Type ℓ} {V : Type κ} ⦃e : Comparable K⦄ → K → (V → V) → Map K V → Map K V
adjust k f [] = []
adjust k f ((j, v) ∷ m) = (j, (if j == k then f v else v)) ∷ adjust k f m

module _ ⦃net : Net⦄ where
  unfoldable pub plan_key : Endpoint → PlanKey
  unfolding normalize_dns_name
  plan_key e = record {
    dns_name = normalize_dns_name e.dns_name;
    set_identifier = e.set_identifier;
  }

  -- `newPlanKey`: the key is `plan_key e`, and the row and its records of the type are there
  unfoldable pub new_plan_key : Endpoint → PlanTable → PlanTable
  unfolding plan_key ensure adjust
  new_plan_key e t =
      adjust (plan_key e)
        (λ row. record row { records = ensure e.record_type empty_records row.records })
        (ensure (plan_key e) empty_row t)

  unfoldable pub row_add_current : Endpoint → PlanTableRow → PlanTableRow
  unfolding adjust
  row_add_current e row = record row {
    current = row.current ++ e ∷ [];
    records = adjust e.record_type (λ d. record d { current = some e }) row.records;
  }

  unfoldable pub row_add_candidate : Endpoint → PlanTableRow → PlanTableRow
  unfolding adjust
  row_add_candidate e row = record row {
    candidates = row.candidates ++ e ∷ [];
    records =
        adjust e.record_type (λ d. record d { candidates = d.candidates ++ e ∷ [] }) row.records;
  }

  unfoldable pub add_current : Endpoint → PlanTable → PlanTable
  unfolding new_plan_key row_add_current
  add_current e t = adjust (plan_key e) (row_add_current e) (new_plan_key e t)

  unfoldable pub add_candidate : Endpoint → PlanTable → PlanTable
  unfolding new_plan_key row_add_candidate
  add_candidate e t = adjust (plan_key e) (row_add_candidate e) (new_plan_key e t)

  -- the two loops of `Calculate` that fill the table
  unfoldable pub add_all_current : List Endpoint → PlanTable → PlanTable
  unfolding add_current
  add_all_current [] t = t
  add_all_current (e ∷ es) t = add_all_current es (add_current e t)

  unfoldable pub add_all_candidates : List Endpoint → PlanTable → PlanTable
  unfolding add_candidate
  add_all_candidates [] t = t
  add_all_candidates (e ∷ es) t = add_all_candidates es (add_candidate e t)
