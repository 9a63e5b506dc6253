-- ===== src/Provider/AcceptLaws.antt =====
-- Exactly which batches `validateChangeBatch` of provider/inmemory/inmemory.go accepts, by what a zone
-- holds under each key.
use external_dns.Prelude.{
  All, All-map, All-unit, Bool, Bool-cases, List, Option, Option-cases, Text, [], ap, arith, false,
  inl, inr, insert, int_eq, lookup, nat_eq, refl, same_refl, same→eq, some, sym, text_eq, true,
  ◌==◌, ◌∙◌, ◌∷◌, ◌≡◌,
}
use external_dns.Endpoint.OwnerLaws.{FreshKey, HasDistinctKeys, seen}
use external_dns.Endpoint.Types.{Endpoint, EndpointKey, Targets, key, key_beq_iff, key_eq}
use external_dns.Plan.Types.{Changes}
use external_dns.Provider.BatchLaws.{
  IsAbsent, IsApart, IsPresent, check_creates-Checked, check_updates-Checked, seen-insert,
  validate_zone-IsBatch,
}
use external_dns.Provider.InMemory.{
  Mesh, Zone, check_creates, check_deletes, check_old, check_olds, check_updates, err,
  first_differs, ok, present, record_not_found, update_mesh, validate_zone,
}
use external_dns.Provider.InMemoryLaws.{>>=-eq-ok, ok-injective}

-- What a zone holds.
abbrev pub View : Type 0
View = EndpointKey → Option Endpoint

-- The view holds, under the key of the record, a record with the same first target.
pub record FirstSame (view : View) (e : Endpoint) : Type 0 where
  pub held : Endpoint
  pub found : view (key e) ≡ some held
  pub target : Text
  pub held_rest : Targets
  pub rest : Targets
  pub held_first : held.targets ≡ target ∷ held_rest
  pub first : e.targets ≡ target ∷ rest

pub record Allowed (view : View) (c : Changes) : Type 0 where
  pub creates_absent : All (λ e. present (view (key e)) ≡ false) c.create
  pub updates_present : All (λ e. present (view (key e)) ≡ true) c.update_new
  pub olds_same : All (FirstSame view) c.update_old
  pub deletes_same : All (FirstSame view) c.delete
  pub creates_distinct : HasDistinctKeys c.create
  pub updates_distinct : HasDistinctKeys c.update_new
  pub deletes_distinct : HasDistinctKeys c.delete
  pub updates_apart : All (IsApart c.create) c.update_new
  pub deletes_apart : All (λ e. IsApart c.create e × IsApart c.update_new e) c.delete

abbrev pub view_of : Zone → View
view_of zone k = lookup k zone

abbrev Unseen : Mesh → Endpoint → Type 0
Unseen mesh e = seen (key e) mesh ≡ false

later-Unseen :
    (e : Endpoint) (mesh : Mesh) (es : List Endpoint)
    → All (FreshKey (key e)) es
    → All (Unseen mesh) es
    → All (Unseen (insert (key e) tt mesh)) es
later-Unseen e mesh [] hf h = tt
later-Unseen e mesh (f ∷ es) (ne, hf) (hu, h) = (
  ground (arith, seen-insert e mesh (key f), key_beq_iff (key e) (key f), ne, hu),
  later-Unseen e mesh es hf h,
)

update_mesh-Unseen :
    (e : Endpoint) (mesh : Mesh) → Unseen mesh e → update_mesh e mesh ≡ ok (insert (key e) tt mesh)
unfolding update_mesh
update_mesh-Unseen e mesh h = rw h refl

check_creates-passes :
    (zone : Zone) (es : List Endpoint) (mesh : Mesh)
    → All (IsAbsent zone) es
    → All (Unseen mesh) es
    → HasDistinctKeys es
    → (m : Mesh) × (check_creates zone es mesh ≡ ok m)
unfolding check_creates
check_creates-passes zone [] mesh ha hu hd = (mesh, refl)
check_creates-passes zone (e ∷ es) mesh (a, ha) (u, hu) (f, hd) =
    let (m, r) =
      check_creates-passes zone es (insert (key e) tt mesh) ha (later-Unseen e mesh es f hu) hd in
    (m, rw (a, update_mesh-Unseen e mesh u) r)

check_updates-passes :
    (zone : Zone) (es : List Endpoint) (mesh : Mesh)
    → All (IsPresent zone) es
    → All (Unseen mesh) es
    → HasDistinctKeys es
    → (m : Mesh) × (check_updates zone es mesh ≡ ok m)
unfolding check_updates
check_updates-passes zone [] mesh ha hu hd = (mesh, refl)
check_updates-passes zone (e ∷ es) mesh (a, ha) (u, hu) (f, hd) =
    let (m, r) =
      check_updates-passes zone es (insert (key e) tt mesh) ha (later-Unseen e mesh es f hu) hd in
    (m, rw (a, update_mesh-Unseen e mesh u) r)

check_old-passes :
    (zone : Zone) (e : Endpoint) → FirstSame (view_of zone) e → check_old zone e ≡ ok true
unfolding check_old
check_old-passes zone e s = rw (s.found, s.held_first, s.first, same_refl s.target) refl

check_olds-passes :
    (zone : Zone) (es : List Endpoint)
    → All (FirstSame (view_of zone)) es
    → check_olds zone es ≡ ok true
unfolding check_olds
check_olds-passes zone [] h = refl
check_olds-passes zone (e ∷ es) (s, h) =
    rw (check_old-passes zone e s) (check_olds-passes zone es h)

check_deletes-passes :
    (zone : Zone) (es : List Endpoint) (mesh : Mesh)
    → All (FirstSame (view_of zone)) es
    → All (Unseen mesh) es
    → HasDistinctKeys es
    → (m : Mesh) × (check_deletes zone es mesh ≡ ok m)
unfolding check_deletes
check_deletes-passes zone [] mesh ha hu hd = (mesh, refl)
check_deletes-passes zone (e ∷ es) mesh (a, ha) (u, hu) (f, hd) =
    let (m, r) =
      check_deletes-passes zone es (insert (key e) tt mesh) ha (later-Unseen e mesh es f hu) hd in
    (m, rw (check_old-passes zone e a, update_mesh-Unseen e mesh u) r)

-- conversely, what passes has the same first target
first_differs-same :
    (ts us : Targets)
    → first_differs ts us ≡ ok false
    → (t : Text) × (ts' : Targets) × (us' : Targets) × (ts ≡ t ∷ ts') × (us ≡ t ∷ us')
first_differs-same [] us h = cc
first_differs-same (t ∷ ts) [] h = cc
first_differs-same (t ∷ ts) (u ∷ us) h = elim (Bool-cases (t == u)) [
  | inl e ↦ (t, ts, us, refl, ap (λ v. v ∷ us) (sym (same→eq t u e)))
  | inr f ↦
      let bad : true ≡ false = ok-injective true false (rw f at h) in absurd (ground (arith, bad))
]

check_old-FirstSame :
    (zone : Zone) (e : Endpoint) (b : Bool) → check_old zone e ≡ ok b → FirstSame (view_of zone) e
unfolding check_old
check_old-FirstSame zone e b h = elim (Option-cases (lookup (key e) zone)) [
  | inl none_there ↦ let bad : err record_not_found ≡ ok b = rw none_there at h in cc bad
  | inr (held, found) ↦
      let (differs, d, r) = >>=-eq-ok (first_differs held.targets e.targets) _ b (rw found at h) in
      elim (Bool-cases differs) [
        | inl t ↦ let bad : err record_not_found ≡ ok b = rw t at r in cc bad
        | inr f ↦
            let (target, held_rest, rest, p, q) =
              first_differs-same held.targets e.targets (d ∙ ap (λ x. ok x) f) in
            record {
              held = held;
              found = found;
              target = target;
              held_rest = held_rest;
              rest = rest;
              held_first = p;
              first = q;
            }
      ]
]

check_olds-FirstSame :
    (zone : Zone) (es : List Endpoint) (b : Bool)
    → check_olds zone es ≡ ok b
    → All (FirstSame (view_of zone)) es
unfolding check_olds
check_olds-FirstSame zone [] b h = tt
check_olds-FirstSame zone (e ∷ es) b h =
    let (x, o, r) = >>=-eq-ok (check_old zone e) _ b h in
    (check_old-FirstSame zone e x o, check_olds-FirstSame zone es b r)

check_deletes-FirstSame :
    (zone : Zone) (es : List Endpoint) (mesh m : Mesh)
    → check_deletes zone es mesh ≡ ok m
    → All (FirstSame (view_of zone)) es
unfolding check_deletes
check_deletes-FirstSame zone [] mesh m h = tt
check_deletes-FirstSame zone (e ∷ es) mesh m h =
    let (x, o, r) = >>=-eq-ok (check_old zone e) _ m h in
    let (n, u, d) = >>=-eq-ok (update_mesh e mesh) (λ n. check_deletes zone es n) m r in
    (check_old-FirstSame zone e x o, check_deletes-FirstSame zone es n m d)

pub validate_zone-Allowed :
    (zone : Zone) (c : Changes) (m : Mesh) → validate_zone zone c ≡ ok m → Allowed (view_of zone) c
unfolding validate_zone
validate_zone-Allowed zone c m h =
    let b = validate_zone-IsBatch zone c m h in
    let (x, _, creates_done) = >>=-eq-ok (check_creates zone c.create []) _ m h in
    let (y, _, updates_done) = >>=-eq-ok (check_updates zone c.update_new x) _ m creates_done in
    let (z, olds, deletes) = >>=-eq-ok (check_olds zone c.update_old) _ m updates_done in
    record {
      creates_absent = b.creates_absent;
      updates_present = b.updates_present;
      olds_same = check_olds-FirstSame zone c.update_old z olds;
      deletes_same = check_deletes-FirstSame zone c.delete y m deletes;
      creates_distinct = b.creates_distinct;
      updates_distinct = b.updates_distinct;
      deletes_distinct = b.deletes_distinct;
      updates_apart = b.updates_apart;
      deletes_apart = b.deletes_apart;
    }

pub validate_zone-passes :
    (zone : Zone) (c : Changes)
    → Allowed (view_of zone) c
    → (m : Mesh) × (validate_zone zone c ≡ ok m)
unfolding validate_zone lookup
validate_zone-passes zone c a =
    let (x, created) =
      check_creates-passes zone c.create [] a.creates_absent
        (All-map (λ e. Unit {0}) (Unseen []) (λ e _. refl) c.create (All-unit c.create))
        a.creates_distinct in
    let creates = check_creates-Checked zone c.create [] x created in
    let (y, updated) =
      check_updates-passes zone c.update_new x a.updates_present
        (All-map (IsApart c.create) (Unseen x) (λ e h. ground (arith, creates.collected (key e), h))
          c.update_new a.updates_apart)
        a.updates_distinct in
    let updates = check_updates-Checked zone c.update_new x y updated in
    let (z, deleted) =
      check_deletes-passes zone c.delete y a.deletes_same
        (All-map (λ e. IsApart c.create e × IsApart c.update_new e) (Unseen y)
          (λ e h. ground (arith, creates.collected (key e), updates.collected (key e), h.0, h.1))
          c.delete a.deletes_apart)
        a.deletes_distinct in
    (z, rw (created, updated, check_olds-passes zone c.update_old a.olds_same) deleted)
