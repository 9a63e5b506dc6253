-- ===== src/Plan/Keyed.antt =====
-- Facts about what an endpoint says outlast the conflict resolution and the updates of
-- plan/conflict.go and plan/plan.go, which sort its targets and write its labels only.
use mathlib.Core.Path.{subst}
use external_dns.Prelude.{
  All, All-append, All-reverse, Bool-cases, List, Map, Option, Text, [], any, if-both,
  if◌then◌else◌, inl, inr, int_eq, leb, length, nat_eq, none, not, some, sym, text_eq, ◌&&◌, ◌==◌,
  ◌||◌, ◌∷◌,
}
use external_dns.Endpoint.Net.{Net}
use external_dns.Endpoint.Targets.{is_less, same}
use external_dns.Endpoint.Types.{
  Endpoint, or_empty, read_label, record_type_cname, resource_label_key,
}
use external_dns.Plan.Calculate.{
  append_endpoint_updates, append_if_changed, append_some, append_update, inherit_owner,
  is_old_owner_id_set_and_different, record_changes, row_changes_from,
  should_update_provider_specific, should_update_ttl,
}
use external_dns.Plan.Conflict.{
  drop_cname, find_resource, is_cname, is_other, less, or_else, resolve_create, resolve_min,
  resolve_record_types, resolve_update, sift_candidate, sort_candidates,
}
use external_dns.Plan.Content.{
  Content, content, content-targets, count_target-is_less, count_target-same,
}
use external_dns.Plan.Types.{Changes, DomainEndpoints, PlanTableRow}

abbrev pub Keyed : (Content → Type 0) → Endpoint → Type 0
Keyed Q e = Q (content e)

abbrev pub Held : (Endpoint → Type 0) → Option Endpoint → Type 0
Held P none = Unit
Held P (some e) = P e

abbrev pub AllKeyed : (Content → Type 0) → List Endpoint → Type 0
AllKeyed Q = All (Keyed Q)

module _ ⦃net : Net⦄ (Q : Content → Type 0) where
  less-Keyed :
      (x y : Endpoint) → Keyed Q x → Keyed Q y → Keyed Q (less x y).1 × Keyed Q (less x y).2
  unfolding less
  less-Keyed x y hx hy =
      let kept = count_target-is_less x.targets y.targets in
      (
        subst Q (sym (content-targets x (is_less x.targets y.targets).1 kept.0)) hx,
        subst Q (sym (content-targets y (is_less x.targets y.targets).2 kept.1)) hy,
      )

  resolve_min-Keyed :
      (min : Endpoint) (eps : List Endpoint)
      → Keyed Q min
      → AllKeyed Q eps
      → Keyed Q (resolve_min min eps)
  unfolding resolve_min
  resolve_min-Keyed min [] hm h = hm
  resolve_min-Keyed min (ep ∷ eps) hm (he, h) =
      let r = less ep min in
      let hr = less-Keyed ep min he hm in
      resolve_min-Keyed (if r.0 then r.1 else r.2) eps (if-both (Keyed Q) r.0 r.1 r.2 hr.0 hr.1) h

  pub resolve_create-Keyed :
      (eps : List Endpoint) → AllKeyed Q eps → Held (Keyed Q) (resolve_create eps)
  unfolding resolve_create
  resolve_create-Keyed [] h = tt
  resolve_create-Keyed (ep ∷ eps) (he, h) = resolve_min-Keyed ep eps he h

  sift-Keyed :
      (x : Endpoint) (before : List Endpoint)
      → Keyed Q x
      → AllKeyed Q before
      → AllKeyed Q (sift_candidate x before)
  unfolding sift_candidate
  sift-Keyed x [] hx h = (hx, tt)
  sift-Keyed x (y ∷ before) hx (hy, h) =
      let r = less x y in
      let hr = less-Keyed x y hx hy in
      if-both (AllKeyed Q) r.0 (r.2 ∷ sift_candidate r.1 before) (r.1 ∷ r.2 ∷ before)
        (hr.1, sift-Keyed r.1 before hr.0 h) (hr.0, (hr.1, h))

  sort_candidates-Keyed :
      (before eps : List Endpoint)
      → AllKeyed Q before
      → AllKeyed Q eps
      → AllKeyed Q (sort_candidates before eps)
  unfolding sort_candidates
  sort_candidates-Keyed before [] hb h = All-reverse (Keyed Q) before hb
  sort_candidates-Keyed before (x ∷ xs) hb (hx, h) =
      sort_candidates-Keyed (sift_candidate x before) xs (sift-Keyed x before hx hb) h

  find_resource-Keyed :
      (resource : Text) (eps : List Endpoint)
      → AllKeyed Q eps
      → Held (Keyed Q) (find_resource resource eps)
  unfolding find_resource
  find_resource-Keyed resource [] h = tt
  find_resource-Keyed resource (ep ∷ eps) (he, h) =
      elim (Bool-cases (or_empty (read_label resource_label_key ep.labels) == resource)) [
        | inl t ↦ rw t he
        | inr f ↦ rw f (find_resource-Keyed resource eps h)
      ]

  or_else-Held :
      (o r : Option Endpoint) → Held (Keyed Q) o → Held (Keyed Q) r → Held (Keyed Q) (or_else o r)
  or_else-Held none r ho hr = hr
  or_else-Held (some e) r ho hr = ho

  pub resolve_update-Keyed :
      (current : Endpoint) (eps : List Endpoint)
      → AllKeyed Q eps
      → Held (Keyed Q) (resolve_update current eps)
  unfolding resolve_update
  resolve_update-Keyed current eps h =
      let sorted = sort_candidates [] eps in
      let hs = sort_candidates-Keyed [] eps tt h in
      or_else-Held (find_resource (or_empty (read_label resource_label_key current.labels)) sorted)
        (resolve_create sorted) (find_resource-Keyed _ sorted hs) (resolve_create-Keyed sorted hs)

-- `update_old` and `delete` hold current records, `create` and `update_new` desired ones.
pub record Carries (C D : Content → Type 0) (c : Changes) : Type 0 where
  pub create : AllKeyed D c.create
  pub update_old : AllKeyed C c.update_old
  pub update_new : AllKeyed D c.update_new
  pub delete : AllKeyed C c.delete

-- what the records of a row hold
abbrev pub RecordsCarry : (C D : Content → Type 0) → Text × DomainEndpoints → Type 0
RecordsCarry C D r = Held (Keyed C) r.1.current × AllKeyed D r.1.candidates

pub append_some-Keyed :
    (Q : Content → Type 0) (o : Option Endpoint) (eps : List Endpoint)
    → Held (Keyed Q) o
    → AllKeyed Q eps
    → AllKeyed Q (append_some o eps)
append_some-Keyed Q none eps ho h = h
append_some-Keyed Q (some e) eps ho h = All-append (Keyed Q) eps (e ∷ []) h (ho, tt)

module _ ⦃net : Net⦄ (C D : Content → Type 0) (old_owner_id : Text) where
  append_update-Carries :
      (c : Changes) (current update : Endpoint)
      → Carries C D c
      → Keyed C current
      → Keyed D update
      → Carries C D (append_update c current update)
  unfolding append_update inherit_owner
  append_update-Carries c current update h hc hu = record {
    create = h.create;
    update_old = All-append (Keyed C) c.update_old _ h.update_old (hc, tt);
    update_new = All-append (Keyed D) c.update_new _ h.update_new (hu, tt);
    delete = h.delete;
  }

  append_if_changed-Carries :
      (c : Changes) (current update : Endpoint)
      → Carries C D c
      → Keyed C current
      → Keyed D update
      → Carries C D (append_if_changed old_owner_id c current update)
  unfolding append_if_changed
  append_if_changed-Carries c current update h hc hu =
      let r = same update.targets current.targets in
      let kept = count_target-same update.targets current.targets in
      let update' = record update { targets = r.1 } in
      let current' = record current { targets = r.2 } in
      let changed =
        not r.0
        || (should_update_provider_specific update' current'
            || is_old_owner_id_set_and_different old_owner_id current') in
      if-both (Carries C D) (should_update_ttl update current) (append_update c current update)
        (if changed then append_update c current' update' else c)
        (append_update-Carries c current update h hc hu)
        (if-both (Carries C D) changed (append_update c current' update') c
          (append_update-Carries c current' update' h
            (subst C (sym (content-targets current r.2 kept.1)) hc)
            (subst D (sym (content-targets update r.1 kept.0)) hu))
          h)

  replaced-Carries :
      (c : Changes) (current : Endpoint) (o : Option Endpoint)
      → Carries C D c
      → Keyed C current
      → Held (Keyed D) o
      → Carries C D
          (elim o [ none ↦ c | some update ↦ append_if_changed old_owner_id c current update ])
  replaced-Carries c current none h hc ho = h
  replaced-Carries c current (some update) h hc ho =
      append_if_changed-Carries c current update h hc ho

  record_changes-Carries :
      (c : Changes) (current : Option Endpoint) (candidates : List Endpoint)
      → Carries C D c
      → Held (Keyed C) current
      → AllKeyed D candidates
      → Carries C D (record_changes old_owner_id c current candidates)
  unfolding record_changes append_endpoint_updates
  record_changes-Carries c (some current) [] h hc hd = record {
    create = h.create;
    update_old = h.update_old;
    update_new = h.update_new;
    delete = All-append (Keyed C) c.delete (current ∷ []) h.delete (hc, tt);
  }
  record_changes-Carries c none (x ∷ xs) h hc hd = record {
    create =
        append_some-Keyed D (resolve_create (x ∷ xs)) c.create (resolve_create-Keyed D (x ∷ xs) hd)
          h.create;
    update_old = h.update_old;
    update_new = h.update_new;
    delete = h.delete;
  }
  record_changes-Carries c (some current) (x ∷ xs) h hc hd =
      replaced-Carries c current (resolve_update current (x ∷ xs)) h hc
        (resolve_update-Keyed D current (x ∷ xs) hd)
  record_changes-Carries c none [] h hc hd = h

  pub row_changes_from-Carries :
      (c : Changes) (ds : List (Text × DomainEndpoints))
      → Carries C D c
      → All (RecordsCarry C D) ds
      → Carries C D (row_changes_from old_owner_id c ds)
  unfolding row_changes_from
  row_changes_from-Carries c [] h hs = h
  row_changes_from-Carries c ((record_type, d) ∷ ds) h (hd, hs) =
      row_changes_from-Carries (record_changes old_owner_id c d.current d.candidates) ds
        (record_changes-Carries c d.current d.candidates h hd.0 hd.1) hs

pub drop_cname-Carries :
    (C D : Content → Type 0) (m : Map Text DomainEndpoints)
    → All (RecordsCarry C D) m
    → All (RecordsCarry C D) (drop_cname m)
unfolding drop_cname
drop_cname-Carries C D [] h = tt
drop_cname-Carries C D ((record_type, recs) ∷ m) (hr, h) =
    elim (Bool-cases (record_type == record_type_cname)) [
      | inl t ↦ rw t ((hr.0, tt), drop_cname-Carries C D m h)
      | inr f ↦ rw f (hr, drop_cname-Carries C D m h)
    ]

pub resolve_record_types-Carries :
    (C D : Content → Type 0) (row : PlanTableRow)
    → All (RecordsCarry C D) row.records
    → All (RecordsCarry C D) (resolve_record_types row)
unfolding resolve_record_types
resolve_record_types-Carries C D row h = elim (Bool-cases (leb (length row.candidates) 1)) [
  | inl t ↦ rw t h
  | inr f ↦ rw f (elim (Bool-cases (any is_cname row.candidates && any is_other row.candidates)) [
    | inl t ↦ rw t (drop_cname-Carries C D row.records h)
    | inr g ↦ rw g h
  ])
]
