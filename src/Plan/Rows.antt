-- ===== src/Plan/Rows.antt =====
-- What the plan table holds after the two loops of `Calculate` that fill it: in each row the current
-- records of its key, in their order, and records that carry the facts known of what was added.
use mathlib.Core.Path.{subst}
use mathlib.Core.List.{append-nil, append_assoc}
use external_dns.Prelude.{
  All, All-append, Bool, Comparable, List, Map, Option-cases, [], ap, arith, if-both, if-cases, inl,
  inr, insert, int_eq, keep, keep-append, lookup, lookup-insert, nat_eq, ne→differ, none, refl,
  same_refl, same→eq, sym, text_eq, ◌++◌, ◌==◌, ◌∙◌, ◌∷◌, ◌≡◌, ◌≢◌,
}
use external_dns.Endpoint.Net.{Net}
use external_dns.Endpoint.Types.{Endpoint}
use external_dns.Plan.Content.{Content, content}
use external_dns.Plan.Keyed.{AllKeyed, Keyed, RecordsCarry}
use external_dns.Plan.Table.{
  add_all_candidates, add_all_current, add_candidate, add_current, adjust, empty_records, empty_row,
  ensure, new_plan_key, plan_key, row_add_candidate, row_add_current,
}
use external_dns.Plan.Types.{PlanKey, PlanTable, PlanTableRow, plan_key_eq}

module _ {ℓ κ} {K : Type ℓ} {V : Type κ} ⦃e : Comparable K⦄ where
  pub All-adjust {μ} :
      (P Q : K × V → Type μ) (k : K) (f : V → V) (m : Map K V)
      → ((v : V) → P (k, v) → Q (k, f v))
      → ((j : K) (v : V) → j ≢ k → P (j, v) → Q (j, v))
      → All P m
      → All Q (adjust k f m)
  unfolding adjust
  All-adjust P Q k f [] at_key there h = tt
  All-adjust P Q k f ((j, v) ∷ m) at_key there (hv, h) = (
    if-cases (λ w. Q (j, w)) (j == k) (f v) v
        (λ t.
          subst (λ i. Q (i, f v)) (sym (same→eq j k t))
            (at_key v (subst (λ i. P (i, v)) (same→eq j k t) hv)))
        (λ d. there j v (λ q. cc (d, (e.equals_iff j k).1 q)) hv),
    All-adjust P Q k f m at_key there h,
  )

  All-insert {μ} :
      (P : K × V → Type μ) (k : K) (v : V) (m : Map K V) → P (k, v) → All P m → All P (insert k v m)
  unfolding insert
  All-insert P k v [] hv h = (hv, tt)
  All-insert P k v ((j, w) ∷ m) hv (hw, h) =
      if-both (All P) (j == k) ((k, v) ∷ m) ((j, w) ∷ insert k v m) (hv, h)
        (hw, All-insert P k v m hv h)

  pub All-ensure {μ} :
      (P : K × V → Type μ) (k : K) (v : V) (m : Map K V)
      → (lookup k m ≡ none → P (k, v))
      → All P m
      → All P (ensure k v m)
  unfolding ensure
  All-ensure P k v m hv h = elim (Option-cases (lookup k m)) [
    | inl absent ↦ rw (absent, ensure) (All-insert P k v m (hv absent) h)
    | inr (w, found) ↦ rw (found, ensure) h
  ]

  lookup-adjust_none :
      (j k : K) (f : V → V) (m : Map K V) → lookup j (adjust k f m) ≡ none → lookup j m ≡ none
  unfolding lookup adjust
  lookup-adjust_none j k f [] h = refl
  lookup-adjust_none j k f ((i, v) ∷ m) h = ground (arith, lookup-adjust_none j k f m)

  lookup-ensure-none :
      (j k : K) (v : V) (m : Map K V)
      → lookup j (ensure k v m) ≡ none
      → (lookup j m ≡ none) × (k ≢ j)
  unfolding ensure
  lookup-ensure-none j k v m h = ground (arith, lookup-insert k j v m, e.equals_iff k j)

abbrev pub at : ⦃net : Net⦄ → PlanKey → Endpoint → Bool
at k e = plan_key e == k

-- a fact of an endpoint that may depend on its place in the plan table
abbrev pub Placed : ⦃net : Net⦄ → (PlanKey → Content → Type 0) → Endpoint → Type 0
Placed Q e = Q (plan_key e) (content e)

module _ ⦃net : Net⦄ (C D : PlanKey → Content → Type 0) where
  pub record RowHolds (cs : List Endpoint) (r : PlanKey × PlanTableRow) : Type 0 where
    pub current_lists : r.1.current ≡ keep (at r.0) cs
    pub current_carry : AllKeyed (C r.0) r.1.current
    pub records_carry : All (RecordsCarry (C r.0) (D r.0)) r.1.records

  pub record TableHolds (cs : List Endpoint) (t : PlanTable) : Type 0 where
    pub rows_hold : All (RowHolds cs) t
    pub none_left : (k : PlanKey) → lookup k t ≡ none → keep (at k) cs ≡ []

  new_plan_key-Holds :
      (cs : List Endpoint) (e : Endpoint) (t : PlanTable)
      → TableHolds cs t
      → TableHolds cs (new_plan_key e t)
  unfolding new_plan_key
  new_plan_key-Holds cs e t h = record {
    rows_hold =
        All-adjust (RowHolds cs) (RowHolds cs) (plan_key e) _ _
          (λ row hr. record {
            current_lists = hr.current_lists;
            current_carry = hr.current_carry;
            records_carry =
                All-ensure (RecordsCarry (C (plan_key e)) (D (plan_key e))) e.record_type
                  empty_records row.records (λ _. (tt, tt)) hr.records_carry;
          })
          (λ j row _ hr. hr)
          (All-ensure (RowHolds cs) (plan_key e) empty_row t
            (λ absent. record {
              current_lists = sym (h.none_left (plan_key e) absent);
              current_carry = tt;
              records_carry = tt;
            })
            h.rows_hold);
    none_left = λ k absent.
        h.none_left k
          (lookup-ensure-none k (plan_key e) empty_row t
            (lookup-adjust_none k (plan_key e) _ _ absent)).0;
  }

  new_plan_key-has :
      (k : PlanKey) (e : Endpoint) (t : PlanTable)
      → lookup k (new_plan_key e t) ≡ none
      → plan_key e ≢ k
  unfolding new_plan_key
  new_plan_key-has k e t absent =
      (lookup-ensure-none k (plan_key e) empty_row t
        (lookup-adjust_none k (plan_key e) _ _ absent)).1

  keep-at_self :
      (cs : List Endpoint) (e : Endpoint)
      → keep (at (plan_key e)) (cs ++ e ∷ []) ≡ keep (at (plan_key e)) cs ++ e ∷ []
  unfolding keep
  keep-at_self cs e = rw (keep-append (at (plan_key e)) cs (e ∷ []), same_refl (plan_key e))

  keep-at_other :
      (cs : List Endpoint) (e : Endpoint) (k : PlanKey)
      → plan_key e ≢ k
      → keep (at k) (cs ++ e ∷ []) ≡ keep (at k) cs
  unfolding keep
  keep-at_other cs e k h =
      rw (keep-append (at k) cs (e ∷ []), ne→differ (plan_key e) k h) (append-nil (keep (at k) cs))

  pub add_current-Holds :
      (cs : List Endpoint) (e : Endpoint) (t : PlanTable)
      → C (plan_key e) (content e)
      → TableHolds cs t
      → TableHolds (cs ++ e ∷ []) (add_current e t)
  unfolding add_current row_add_current
  add_current-Holds cs e t he h = record {
    rows_hold =
        All-adjust (RowHolds cs) (RowHolds (cs ++ e ∷ [])) (plan_key e) _ _
          (λ row hr. record {
            current_lists = ap (λ l. l ++ e ∷ []) hr.current_lists ∙ sym (keep-at_self cs e);
            current_carry =
                All-append (Keyed (C (plan_key e))) row.current (e ∷ []) hr.current_carry (he, tt);
            records_carry =
                All-adjust (RecordsCarry (C (plan_key e)) (D (plan_key e))) _ e.record_type _
                  row.records (λ d hd. (he, hd.1)) (λ j d _ hd. hd) hr.records_carry;
          })
          (λ j row ne hr. record {
            current_lists = hr.current_lists ∙ sym (keep-at_other cs e j (λ q. ne (sym q)));
            current_carry = hr.current_carry;
            records_carry = hr.records_carry;
          })
          (new_plan_key-Holds cs e t h).rows_hold;
    none_left = λ k absent.
        let gone = lookup-adjust_none k (plan_key e) _ _ absent in
        keep-at_other cs e k (new_plan_key-has k e t gone)
        ∙ (new_plan_key-Holds cs e t h).none_left k gone;
  }

  pub add_candidate-Holds :
      (cs : List Endpoint) (e : Endpoint) (t : PlanTable)
      → D (plan_key e) (content e)
      → TableHolds cs t
      → TableHolds cs (add_candidate e t)
  unfolding add_candidate row_add_candidate
  add_candidate-Holds cs e t he h = record {
    rows_hold =
        All-adjust (RowHolds cs) (RowHolds cs) (plan_key e) _ _
          (λ row hr. record {
            current_lists = hr.current_lists;
            current_carry = hr.current_carry;
            records_carry =
                All-adjust (RecordsCarry (C (plan_key e)) (D (plan_key e))) _ e.record_type _
                  row.records
                  (λ d hd.
                    (hd.0, All-append (Keyed (D (plan_key e))) d.candidates (e ∷ []) hd.1 (he, tt)))
                  (λ j d _ hd. hd) hr.records_carry;
          })
          (λ j row _ hr. hr) (new_plan_key-Holds cs e t h).rows_hold;
    none_left = λ k absent.
        (new_plan_key-Holds cs e t h).none_left k (lookup-adjust_none k (plan_key e) _ _ absent);
  }

  add_all_current-Holds :
      (cs es : List Endpoint) (t : PlanTable)
      → All (Placed C) es
      → TableHolds cs t
      → TableHolds (cs ++ es) (add_all_current es t)
  unfolding add_all_current
  add_all_current-Holds cs [] t hs h = rw append-nil h
  add_all_current-Holds cs (e ∷ es) t (he, hs) h =
      subst (λ l. TableHolds l (add_all_current es (add_current e t))) (append_assoc cs (e ∷ []) es)
        (add_all_current-Holds (cs ++ e ∷ []) es (add_current e t) hs
          (add_current-Holds cs e t he h))

  add_all_candidates-Holds :
      (cs es : List Endpoint) (t : PlanTable)
      → All (Placed D) es
      → TableHolds cs t
      → TableHolds cs (add_all_candidates es t)
  unfolding add_all_candidates
  add_all_candidates-Holds cs [] t hs h = h
  add_all_candidates-Holds cs (e ∷ es) t (he, hs) h =
      add_all_candidates-Holds cs es (add_candidate e t) hs (add_candidate-Holds cs e t he h)

  pub filled-Holds :
      (cs ds : List Endpoint)
      → All (Placed C) cs
      → All (Placed D) ds
      → TableHolds cs (add_all_candidates ds (add_all_current cs []))
  unfolding keep
  filled-Holds cs ds hc hd =
      add_all_candidates-Holds cs ds _ hd
        (add_all_current-Holds [] cs [] hc (record { rows_hold = tt; none_left = λ k _. refl }))
