-- ===== src/Plan/Outcome.antt =====
-- From the rows of the plan table to the changes of `Calculate`: what holds of every row's records
-- holds of the changes, through the policies and the last filter by owner.
use external_dns.Prelude.{
  All, All-append, All-map, List, Text, [], ap, arith, if-both, if-cases, int_eq, is_nil, keep,
  nat_eq, not, sym, text_eq, true, ◌∙◌, ◌∷◌, ◌≡◌,
}
use external_dns.Endpoint.Net.{Net}
use external_dns.Endpoint.OwnerLaws.{All-filter_endpoints, All-remove_duplicates}
use external_dns.Endpoint.Types.{Endpoint}
use external_dns.Plan.Calculate.{
  Plan, all_owned, append_some, append_taken_dns_name_changes, calculate_changes,
  calculate_plan_table_row_changes, create_candidates, filter_by_owner, owners_match, row_step,
  rows_from,
}
use external_dns.Plan.Conflict.{resolve_create}
use external_dns.Plan.Content.{Content, content}
use external_dns.Plan.Keyed.{
  AllKeyed, Carries, Keyed, RecordsCarry, append_some-Keyed, resolve_create-Keyed,
  resolve_record_types-Carries, row_changes_from-Carries,
}
use external_dns.Plan.Policy.{
  Policy, apply, apply_all, create_only_policy, sync_policy, upsert_only_policy,
}
use external_dns.Plan.Rows.{RowHolds, TableHolds, at}
use external_dns.Plan.Types.{
  Changes, DomainEndpoints, PlanKey, PlanTable, PlanTableRow, Ranges, no_changes, plan_key_eq,
}

-- Three predicates on what a record says: of the current records that a change removes
-- or replaces, of the replacements, and of the records that are new.
pub record Outcome (C D E : Content → Type 0) (c : Changes) : Type 0 where
  pub create : AllKeyed E c.create
  pub update_old : AllKeyed C c.update_old
  pub update_new : AllKeyed D c.update_new
  pub delete : AllKeyed C c.delete

module _ (C D E : Content → Type 0) where
  apply-Outcome : (pol : Policy) (c : Changes) → Outcome C D E c → Outcome C D E (apply pol c)
  unfolding apply
  apply-Outcome sync_policy c h = h
  apply-Outcome upsert_only_policy c h = record {
    create = h.create;
    update_old = h.update_old;
    update_new = h.update_new;
    delete = tt;
  }
  apply-Outcome create_only_policy c h = record {
    create = h.create;
    update_old = tt;
    update_new = tt;
    delete = tt;
  }

  apply_all-Outcome :
      (pols : List Policy) (c : Changes) → Outcome C D E c → Outcome C D E (apply_all pols c)
  unfolding apply_all
  apply_all-Outcome [] c h = h
  apply_all-Outcome (pol ∷ pols) c h = apply_all-Outcome pols (apply pol c) (apply-Outcome pol c h)

  filter_by_owner-Outcome :
      ⦃net : Net⦄ (ranges : Ranges) (p : Plan) (c : Changes)
      → Outcome C D E c
      → Outcome C D E (filter_by_owner ranges p c)
  unfolding filter_by_owner
  filter_by_owner-Outcome ranges p c h =
      if-both (Outcome C D E) (not (is_nil p.owner_id)) _ _
        (record {
          create = h.create;
          update_old = All-filter_endpoints (Keyed C) p.owner_id c.update_old h.update_old;
          update_new = All-filter_endpoints (Keyed D) p.owner_id c.update_new h.update_new;
          delete =
              All-remove_duplicates (Keyed C) _
                (All-filter_endpoints (Keyed C) p.owner_id c.delete h.delete);
        })
        h

module _ ⦃net : Net⦄ (ranges : Ranges) (p : Plan) (cs : List Endpoint)
    (C D : PlanKey → Content → Type 0) (C' D' E' : Content → Type 0)
    (to_C : (k : PlanKey) (j : Content) → C k j → C' j)
    (to_D : (k : PlanKey) (j : Content) → D k j → D' j)
    (to_E : (k : PlanKey) (j : Content)
      → owners_match p.owner_id (keep (at k) cs) ≡ true
      → D k j
      → E' j) where
  create_candidates-Keyed :
      (k : PlanKey) (create : List Endpoint) (ds : List (Text × DomainEndpoints))
      → owners_match p.owner_id (keep (at k) cs) ≡ true
      → AllKeyed E' create
      → All (RecordsCarry (C k) (D k)) ds
      → AllKeyed E' (create_candidates ranges p create ds)
  unfolding create_candidates
  create_candidates-Keyed k create [] may h hs = h
  create_candidates-Keyed k create ((record_type, d) ∷ ds) may h (hd, hs) =
      create_candidates-Keyed k (append_some (resolve_create d.candidates) create) ds may
        (append_some-Keyed E' (resolve_create d.candidates) create
          (resolve_create-Keyed E' d.candidates
            (All-map (Keyed (D k)) (Keyed E') (λ e. to_E k (content e) may) d.candidates hd.1))
          h)
        hs

  taken-Outcome :
      (k : PlanKey) (row : PlanTableRow) (c : Changes)
      → RowHolds C D cs (k, row)
      → Outcome C' D' E' c
      → Outcome C' D' E' (append_taken_dns_name_changes ranges p c row)
  unfolding append_taken_dns_name_changes calculate_plan_table_row_changes
  taken-Outcome k row c hr h =
      let rc = calculate_plan_table_row_changes ranges p row in
      let carried : Carries (C k) (D k) rc =
        row_changes_from-Carries (C k) (D k) p.old_owner_id no_changes _
          (record { create = tt; update_old = tt; update_new = tt; delete = tt })
          (ranges.records-All (RecordsCarry (C k) (D k)) _
            (resolve_record_types-Carries (C k) (D k) row hr.records_carry)) in
      record {
        create = if-both (AllKeyed E') (is_nil rc.create) c.create _ h.create (
            if-cases (AllKeyed E') (owners_match p.owner_id row.current) _ c.create
              (λ may. All-append (Keyed E') c.create rc.create h.create (
                All-map (Keyed (D k)) (Keyed E')
                  (λ e.
                    to_E k (content e) (ap (owners_match p.owner_id) (sym hr.current_lists) ∙ may))
                  rc.create carried.create))
              (λ _. h.create));
        update_old = All-append (Keyed C') c.update_old rc.update_old h.update_old (
            All-map (Keyed (C k)) (Keyed C') (λ e. to_C k (content e)) rc.update_old
              carried.update_old);
        update_new = All-append (Keyed D') c.update_new rc.update_new h.update_new (
            All-map (Keyed (D k)) (Keyed D') (λ e. to_D k (content e)) rc.update_new
              carried.update_new);
        delete =
            All-append (Keyed C') c.delete rc.delete h.delete
              (All-map (Keyed (C k)) (Keyed C') (λ e. to_C k (content e)) rc.delete carried.delete);
      }

  -- a name without current records is free
  free_row :
      (k : PlanKey) (row : PlanTableRow)
      → RowHolds C D cs (k, row)
      → is_nil row.current ≡ true
      → owners_match p.owner_id (keep (at k) cs) ≡ true
  unfolding owners_match all_owned
  free_row k row hr free = rw (← hr.current_lists) (ground (arith, free))

  row_step-Outcome :
      (k : PlanKey) (row : PlanTableRow) (c : Changes)
      → RowHolds C D cs (k, row)
      → Outcome C' D' E' c
      → Outcome C' D' E' (row_step ranges p c row)
  unfolding row_step
  row_step-Outcome k row c hr h =
      if-cases (Outcome C' D' E') (is_nil row.current) _ _
        (λ free. record {
          create = create_candidates-Keyed k c.create _ (free_row k row hr free) h.create (
              ranges.records-All (RecordsCarry (C k) (D k)) _
                (resolve_record_types-Carries (C k) (D k) row hr.records_carry));
          update_old = h.update_old;
          update_new = h.update_new;
          delete = h.delete;
        })
        (λ _.
          if-both (Outcome C' D' E') (is_nil row.candidates) _ _
            (record {
              create = h.create;
              update_old = h.update_old;
              update_new = h.update_new;
              delete = All-append (Keyed C') c.delete row.current h.delete (
                  All-map (Keyed (C k)) (Keyed C') (λ e. to_C k (content e)) row.current
                    hr.current_carry);
            })
            (taken-Outcome k row c hr h))

  rows_from-Outcome :
      (c : Changes) (rows : List (PlanKey × PlanTableRow))
      → All (RowHolds C D cs) rows
      → Outcome C' D' E' c
      → Outcome C' D' E' (rows_from ranges p c rows)
  unfolding rows_from
  rows_from-Outcome c [] hs h = h
  rows_from-Outcome c ((k, row) ∷ rows) (hr, hs) h =
      rows_from-Outcome (row_step ranges p c row) rows hs (row_step-Outcome k row c hr h)

  pub calculate_changes-Outcome :
      (t : PlanTable) → TableHolds C D cs t → Outcome C' D' E' (calculate_changes ranges p t)
  unfolding calculate_changes
  calculate_changes-Outcome t h = filter_by_owner-Outcome C' D' E' ranges p _ (
      apply_all-Outcome C' D' E' p.policies _ (
        rows_from-Outcome no_changes (ranges.rows t)
          (ranges.rows-All (RowHolds C D cs) t h.rows_hold)
          (record { create = tt; update_old = tt; update_new = tt; delete = tt })))
