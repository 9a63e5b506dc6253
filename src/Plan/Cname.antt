-- ===== src/Plan/Cname.antt =====
-- CNAME candidates beside candidates of other types (RFC 1034 3.6.2): `ResolveRecordTypes` of
-- plan/conflict.go over the rows that `Calculate` builds.
use external_dns.Prelude.{
  All, All-append, All-map, Bool, Bool-cases, List, Map, Text, [], any, any-append, arith, false,
  if-cases, inl, inr, int_eq, is_nil, leb, leb→le, length, nat_eq, not, refl, text_eq, true, ◌&&◌,
  ◌++◌, ◌==◌, ◌∷◌, ◌≡◌,
}
use external_dns.Endpoint.Net.{Net}
use external_dns.Endpoint.Types.{Endpoint, record_type_cname}
use external_dns.Plan.Calculate.{Plan, plan_table}
use external_dns.Plan.Conflict.{drop_cname, is_cname, is_other, resolve_record_types}
use external_dns.Plan.Rows.{All-adjust, All-ensure}
use external_dns.Plan.Safety.{current_in_scope, desired_in_scope}
use external_dns.Plan.Table.{
  add_all_candidates, add_all_current, add_candidate, add_current, empty_records, empty_row, ensure,
  new_plan_key, plan_key, row_add_candidate, row_add_current,
}
use external_dns.Plan.Types.{DomainEndpoints, PlanKey, PlanTable, PlanTableRow, Ranges, plan_key_eq}

-- the candidates of the records have their type, and are candidates of the row
pub record Fits (row : PlanTableRow) (r : Text × DomainEndpoints) : Type 0 where
  pub typed : All (λ c. c.record_type ≡ r.0) r.1.candidates
  pub listed : (b : Endpoint → Bool) → any b r.1.candidates ≡ true → any b row.candidates ≡ true

abbrev pub RowFits : PlanKey × PlanTableRow → Type 0
RowFits kr = All (Fits kr.1) kr.1.records

ensured-Fits :
    (row : PlanTableRow) (t : Text)
    → All (Fits row) row.records
    → All (Fits row) (ensure t empty_records row.records)
unfolding any
ensured-Fits row t h =
    All-ensure (Fits row) t empty_records row.records
      (λ _. record { typed = tt; listed = λ b e. cc }) h

module _ ⦃net : Net⦄ where
  new_plan_key-Fits :
      (e : Endpoint) (t : PlanTable) → All RowFits t → All RowFits (new_plan_key e t)
  unfolding new_plan_key
  new_plan_key-Fits e t h =
      All-adjust RowFits RowFits (plan_key e) _ _
        (λ row hr.
          All-map (Fits row) _ (λ r f. record { typed = f.typed; listed = f.listed }) _
            (ensured-Fits row e.record_type hr))
        (λ j row _ hr. hr) (All-ensure RowFits (plan_key e) empty_row t (λ _. tt) h)

  add_current-Fits : (e : Endpoint) (t : PlanTable) → All RowFits t → All RowFits (add_current e t)
  unfolding add_current row_add_current
  add_current-Fits e t h =
      All-adjust RowFits RowFits (plan_key e) _ _
        (λ row hr.
          All-adjust (Fits row) (Fits (row_add_current e row)) e.record_type _ row.records
            (λ d f. record { typed = f.typed; listed = f.listed })
            (λ j d _ f. record { typed = f.typed; listed = f.listed }) hr)
        (λ j row _ hr. hr) (new_plan_key-Fits e t h)

  any-snoc_mono :
      (b : Endpoint → Bool) (xs ys : List Endpoint) (e : Endpoint)
      → (any b xs ≡ true → any b ys ≡ true)
      → any b (xs ++ e ∷ []) ≡ true
      → any b (ys ++ e ∷ []) ≡ true
  any-snoc_mono b xs ys e f h =
      ground (arith, any-append b xs (e ∷ []), any-append b ys (e ∷ []), f)

  any-snoc :
      (b : Endpoint → Bool) (ys : List Endpoint) (e : Endpoint)
      → any b ys ≡ true
      → any b (ys ++ e ∷ []) ≡ true
  any-snoc b ys e h = ground (arith, any-append b ys (e ∷ []))

  add_candidate-Fits :
      (e : Endpoint) (t : PlanTable) → All RowFits t → All RowFits (add_candidate e t)
  unfolding add_candidate row_add_candidate
  add_candidate-Fits e t h =
      All-adjust RowFits RowFits (plan_key e) _ _
        (λ row hr.
          All-adjust (Fits row) (Fits (row_add_candidate e row)) e.record_type _ row.records
            (λ d f. record {
              typed =
                  All-append (λ c. c.record_type ≡ e.record_type) d.candidates (e ∷ []) f.typed
                    (refl, tt);
              listed = λ b. any-snoc_mono b d.candidates row.candidates e (f.listed b);
            })
            (λ j d _ f. record {
              typed = f.typed;
              listed = λ b a. any-snoc b row.candidates e (f.listed b a);
            })
            hr)
        (λ j row _ hr. hr) (new_plan_key-Fits e t h)

  add_all_current-Fits :
      (es : List Endpoint) (t : PlanTable) → All RowFits t → All RowFits (add_all_current es t)
  unfolding add_all_current
  add_all_current-Fits [] t h = h
  add_all_current-Fits (e ∷ es) t h =
      add_all_current-Fits es (add_current e t) (add_current-Fits e t h)

  add_all_candidates-Fits :
      (es : List Endpoint) (t : PlanTable) → All RowFits t → All RowFits (add_all_candidates es t)
  unfolding add_all_candidates
  add_all_candidates-Fits [] t h = h
  add_all_candidates-Fits (e ∷ es) t h =
      add_all_candidates-Fits es (add_candidate e t) (add_candidate-Fits e t h)

-- records of type CNAME, or of another type, that have candidates
abbrev pub wants_cname : Text × DomainEndpoints → Bool
wants_cname r = r.0 == record_type_cname && not (is_nil r.1.candidates)

abbrev pub wants_other : Text × DomainEndpoints → Bool
wants_other r = not (r.0 == record_type_cname) && not (is_nil r.1.candidates)

typed-cname :
    (r : Text × DomainEndpoints)
    → All (λ c. c.record_type ≡ r.0) r.1.candidates
    → wants_cname r ≡ true
    → any is_cname r.1.candidates ≡ true
unfolding any
typed-cname (t, d) h w = typed_in d.candidates h w
  where
    typed_in :
        (cs : List Endpoint)
        → All (λ c. c.record_type ≡ t) cs
        → (t == record_type_cname && not (is_nil cs)) ≡ true
        → any is_cname cs ≡ true
    typed_in [] h w = ground (arith, w)
    typed_in (c ∷ cs) (e, h) w = rw e (ground (arith, w))

typed-other :
    (r : Text × DomainEndpoints)
    → All (λ c. c.record_type ≡ r.0) r.1.candidates
    → wants_other r ≡ true
    → any is_other r.1.candidates ≡ true
unfolding any
typed-other (t, d) h w = typed_in d.candidates h w
  where
    typed_in :
        (cs : List Endpoint)
        → All (λ c. c.record_type ≡ t) cs
        → (not (t == record_type_cname) && not (is_nil cs)) ≡ true
        → any is_other cs ≡ true
    typed_in [] h w = ground (arith, w)
    typed_in (c ∷ cs) (e, h) w = rw e (ground (arith, w))

listed-cname :
    (row : PlanTableRow) (ds : List (Text × DomainEndpoints))
    → All (Fits row) ds
    → any wants_cname ds ≡ true
    → any is_cname row.candidates ≡ true
unfolding any
listed-cname row [] h w = cc
listed-cname row (r ∷ ds) (f, h) w = elim (Bool-cases (wants_cname r)) [
  | inl t ↦ f.listed is_cname (typed-cname r f.typed t)
  | inr n ↦ listed-cname row ds h (rw n at w)
]

listed-other :
    (row : PlanTableRow) (ds : List (Text × DomainEndpoints))
    → All (Fits row) ds
    → any wants_other ds ≡ true
    → any is_other row.candidates ≡ true
unfolding any
listed-other row [] h w = cc
listed-other row (r ∷ ds) (f, h) w = elim (Bool-cases (wants_other r)) [
  | inl t ↦ f.listed is_other (typed-other r f.typed t)
  | inr n ↦ listed-other row ds h (rw n at w)
]

drop_cname-none : (m : Map Text DomainEndpoints) → any wants_cname (drop_cname m) ≡ false
unfolding any drop_cname
drop_cname-none [] = refl
drop_cname-none ((t, d) ∷ m) = ground (arith, drop_cname-none m)

single-no_conflict :
    (cs : List Endpoint) → leb (length cs) 1 ≡ true → (any is_cname cs && any is_other cs) ≡ false
unfolding any
single-no_conflict [] h = refl
single-no_conflict (c ∷ []) h = ground arith
single-no_conflict (c ∷ d ∷ cs) h = absurd (omega (arith, leb→le (length (c ∷ d ∷ cs)) 1 h))

-- Not both a CNAME and another type have candidates.
abbrev pub NoConflict : Map Text DomainEndpoints → Type 0
NoConflict ds = (any wants_cname ds && any wants_other ds) ≡ false

resolve-NoConflict :
    (row : PlanTableRow) → All (Fits row) row.records → NoConflict (resolve_record_types row)
unfolding resolve_record_types
resolve-NoConflict row h =
    let agreed : (any is_cname row.candidates && any is_other row.candidates) ≡ false
        → NoConflict row.records =
      λ e. ground (arith, e, listed-cname row row.records h, listed-other row row.records h) in
    if-cases NoConflict (leb (length row.candidates) 1) row.records _
      (λ few. agreed (single-no_conflict row.candidates few))
      (λ _.
        if-cases NoConflict (any is_cname row.candidates && any is_other row.candidates) _
          row.records (λ _. rw (drop_cname-none row.records)) agreed)

-- In every row of the plan table of any plan, once record types are resolved, candidates of type
-- CNAME and candidates of other types do not stand together.
pub plan_table-NoConflict :
    ⦃net : Net⦄ (ranges : Ranges) (p : Plan)
    → All (λ kr. NoConflict (resolve_record_types kr.1)) (plan_table ranges p)
unfolding plan_table
plan_table-NoConflict ranges p =
    All-map RowFits (λ kr. NoConflict (resolve_record_types kr.1))
      (λ kr h. resolve-NoConflict kr.1 h) (plan_table ranges p)
      (add_all_candidates-Fits (desired_in_scope p) (add_all_current (current_in_scope p) [])
        (add_all_current-Fits (current_in_scope p) [] tt))
