-- ===== src/Provider/BatchLaws.antt =====
-- The batches that `validateChangeBatch` of provider/inmemory/inmemory.go accepts.
use mathlib.Core.Path.{subst}
use external_dns.Prelude.{
  All, All-map, Bool, Bool-cases, List, [], any, ap, arith, false, if◌then◌else◌, inl, inr, insert,
  int_eq, lookup, lookup-insert, nat_eq, refl, sym, text_eq, true, ◌∷◌, ◌≡◌,
}
use external_dns.Endpoint.Owner.{is_visited}
use external_dns.Endpoint.OwnerLaws.{FreshKey, HasDistinctKeys, has_key, seen}
use external_dns.Endpoint.Types.{Endpoint, EndpointKey, key, key_beq_iff, key_eq}
use external_dns.Plan.Types.{Changes}
use external_dns.Provider.InMemory.{
  Mesh, Zone, check_creates, check_deletes, check_old, check_olds, check_updates,
  duplicate_record_found, err, ok, present, record_already_exists, record_not_found, update_mesh,
  validate_zone,
}
use external_dns.Provider.InMemoryLaws.{>>=-eq-ok, ok-injective}

update_mesh-ok :
    (e : Endpoint) (mesh m : Mesh)
    → update_mesh e mesh ≡ ok m
    → (seen (key e) mesh ≡ false) × (m ≡ insert (key e) tt mesh)
unfolding update_mesh
update_mesh-ok e mesh m h = elim (Bool-cases (is_visited (lookup (key e) mesh))) [
  | inl t ↦ let bad : err duplicate_record_found ≡ ok m = rw t at h in cc bad
  | inr f ↦
      let good : ok (insert (key e) tt mesh) ≡ ok m = rw f at h in (f, sym (ok-injective _ m good))
]

pub seen-insert :
    (e : Endpoint) (mesh : Mesh) (k : EndpointKey)
    → seen k (insert (key e) tt mesh) ≡ (if has_key k e then true else seen k mesh)
seen-insert e mesh k = ground (arith, lookup-insert (key e) k tt mesh)

-- what a loop with the set `mesh` has checked
pub record Checked (Q : Endpoint → Type 0) (mesh m : Mesh) (es : List Endpoint) : Type 0 where
  pub each : All Q es
  pub new : All (λ e. seen (key e) mesh ≡ false) es
  pub distinct : HasDistinctKeys es
  pub collected : (k : EndpointKey) → seen k m ≡ (if any (has_key k) es then true else seen k mesh)

unseen-later :
    (e : Endpoint) (mesh : Mesh) (es : List Endpoint)
    → All (λ f. seen (key f) (insert (key e) tt mesh) ≡ false) es
    → All (FreshKey (key e)) es × All (λ f. seen (key f) mesh ≡ false) es
unseen-later e mesh [] h = (tt, tt)
unseen-later e mesh (f ∷ es) (hf, h) =
    let r = unseen-later e mesh es h in
    (
      (λ q. ground (arith, seen-insert e mesh (key f), hf, key_beq_iff (key e) (key f), q), r.0),
      (ground (arith, seen-insert e mesh (key f), hf), r.1),
    )

Checked-nil : (Q : Endpoint → Type 0) (mesh : Mesh) → Checked Q mesh mesh []
unfolding any
Checked-nil Q mesh = record { each = tt; new = tt; distinct = tt; collected = λ k. refl }

Checked-cons :
    (Q : Endpoint → Type 0) (e : Endpoint) (mesh m m' : Mesh) (es : List Endpoint)
    → Q e
    → update_mesh e mesh ≡ ok m
    → Checked Q m m' es
    → Checked Q mesh m' (e ∷ es)
unfolding any
Checked-cons Q e mesh m m' es q h c =
    let u = update_mesh-ok e mesh m h in
    let r = unseen-later e mesh es (subst (λ n. All (λ f. seen (key f) n ≡ false) es) u.1 c.new) in
    record {
      each = (q, c.each);
      new = (u.0, r.1);
      distinct = (r.0, c.distinct);
      collected = λ k. ground (arith, c.collected k, seen-insert e mesh k, ap (seen k) u.1);
    }

abbrev pub IsAbsent : Zone → Endpoint → Type 0
IsAbsent zone e = present (lookup (key e) zone) ≡ false

abbrev pub IsPresent : Zone → Endpoint → Type 0
IsPresent zone e = present (lookup (key e) zone) ≡ true

pub check_creates-Checked :
    (zone : Zone) (es : List Endpoint) (mesh m : Mesh)
    → check_creates zone es mesh ≡ ok m
    → Checked (IsAbsent zone) mesh m es
unfolding check_creates
check_creates-Checked zone [] mesh m h =
    subst (λ n. Checked (IsAbsent zone) mesh n []) (ok-injective mesh m h) (Checked-nil _ mesh)
check_creates-Checked zone (e ∷ es) mesh m h = elim (Bool-cases (present (lookup (key e) zone))) [
  | inl t ↦ let bad : err record_already_exists ≡ ok m = rw t at h in cc bad
  | inr f ↦
      let r = >>=-eq-ok (update_mesh e mesh) (λ n. check_creates zone es n) m (rw f at h) in
      Checked-cons (IsAbsent zone) e mesh r.0 m es f r.1 (check_creates-Checked zone es r.0 m r.2)
]

pub check_updates-Checked :
    (zone : Zone) (es : List Endpoint) (mesh m : Mesh)
    → check_updates zone es mesh ≡ ok m
    → Checked (IsPresent zone) mesh m es
unfolding check_updates
check_updates-Checked zone [] mesh m h =
    subst (λ n. Checked (IsPresent zone) mesh n []) (ok-injective mesh m h) (Checked-nil _ mesh)
check_updates-Checked zone (e ∷ es) mesh m h = elim (Bool-cases (present (lookup (key e) zone))) [
  | inr f ↦ let bad : err record_not_found ≡ ok m = rw f at h in cc bad
  | inl t ↦
      let r = >>=-eq-ok (update_mesh e mesh) (λ n. check_updates zone es n) m (rw t at h) in
      Checked-cons (IsPresent zone) e mesh r.0 m es t r.1 (check_updates-Checked zone es r.0 m r.2)
]

check_old-IsPresent :
    (zone : Zone) (e : Endpoint) (b : Bool) → check_old zone e ≡ ok b → IsPresent zone e
unfolding check_old
check_old-IsPresent zone e b h = ground (arith, h)

check_deletes-Checked :
    (zone : Zone) (es : List Endpoint) (mesh m : Mesh)
    → check_deletes zone es mesh ≡ ok m
    → Checked (IsPresent zone) mesh m es
unfolding check_deletes
check_deletes-Checked zone [] mesh m h =
    subst (λ n. Checked (IsPresent zone) mesh n []) (ok-injective mesh m h) (Checked-nil _ mesh)
check_deletes-Checked zone (e ∷ es) mesh m h =
    let o = >>=-eq-ok (check_old zone e) _ m h in
    let r = >>=-eq-ok (update_mesh e mesh) (λ n. check_deletes zone es n) m o.2 in
    Checked-cons (IsPresent zone) e mesh r.0 m es (check_old-IsPresent zone e o.0 o.1) r.1
      (check_deletes-Checked zone es r.0 m r.2)

abbrev pub IsApart : List Endpoint → Endpoint → Type 0
IsApart es e = any (has_key (key e)) es ≡ false

pub record IsBatch (zone : Zone) (c : Changes) : Type 0 where
  pub creates_absent : All (IsAbsent zone) c.create
  pub updates_present : All (IsPresent zone) c.update_new
  pub deletes_present : All (IsPresent zone) c.delete
  pub creates_distinct : HasDistinctKeys c.create
  pub updates_distinct : HasDistinctKeys c.update_new
  pub deletes_distinct : HasDistinctKeys c.delete
  pub updates_apart : All (IsApart c.create) c.update_new
  pub deletes_apart : All (λ e. IsApart c.create e × IsApart c.update_new e) c.delete

-- A batch that is accepted creates only keys that the zone lacks, updates and deletes only keys that
-- it has, and names no key twice, in one of the three lists or in two of them.
pub validate_zone-IsBatch :
    (zone : Zone) (c : Changes) (m : Mesh) → validate_zone zone c ≡ ok m → IsBatch zone c
unfolding validate_zone lookup
validate_zone-IsBatch zone c m h =
    let a = >>=-eq-ok (check_creates zone c.create []) _ m h in
    let b = >>=-eq-ok (check_updates zone c.update_new a.0) _ m a.2 in
    let o = >>=-eq-ok (check_olds zone c.update_old) _ m b.2 in
    let creates = check_creates-Checked zone c.create [] a.0 a.1 in
    let updates = check_updates-Checked zone c.update_new a.0 b.0 b.1 in
    let deletes = check_deletes-Checked zone c.delete b.0 m o.2 in
    record {
      creates_absent = creates.each;
      updates_present = updates.each;
      deletes_present = deletes.each;
      creates_distinct = creates.distinct;
      updates_distinct = updates.distinct;
      deletes_distinct = deletes.distinct;
      updates_apart =
          All-map (λ e. seen (key e) a.0 ≡ false) (IsApart c.create)
            (λ e f. ground (arith, creates.collected (key e), f)) c.update_new updates.new;
      deletes_apart =
          All-map (λ e. seen (key e) b.0 ≡ false) (λ e. IsApart c.create e × IsApart c.update_new e)
            (λ e f. (
              ground (arith, updates.collected (key e), creates.collected (key e), f),
              ground (arith, updates.collected (key e), f),
            ))
            c.delete deletes.new;
    }
