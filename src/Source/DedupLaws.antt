-- ===== src/Source/DedupLaws.antt =====
-- What `dedupSource.Endpoints` of source/wrappers/dedupsource.go keeps.
use mathlib.Core.Path.{subst}
use external_dns.Prelude.{
  All, All-map, Bool, Bool-cases, List, Map, Option, Text, [], any, arith, false, if-both,
  if◌then◌else◌, inl, inr, insert, int_eq, lookup, lookup-insert, nat_eq, none, refl, same_refl,
  some, sym, text_eq, true, ◌==◌, ◌∷◌, ◌≡◌,
}
use external_dns.Endpoint.Net.{Net}
use external_dns.Endpoint.Owner.{is_visited}
use external_dns.Endpoint.Types.{Endpoint}
use external_dns.Endpoint.Validate.{check_endpoint}
use external_dns.Source.Library.{Library}
use external_dns.Source.Wrappers.{dedup_from, identifier, normalize_targets}

module _ ⦃net : Net⦄ (library : Library) where
  -- No two endpoints have one identifier.
  abbrev pub HasDistinctIds : List Endpoint → Type 0
  HasDistinctIds [] = Unit
  HasDistinctIds (e ∷ es) =
      (any (λ f. identifier library e == identifier library f) es ≡ false) × HasDistinctIds es

  -- An endpoint that is there and valid has its identifier among the results.
  abbrev pub Represented : List Endpoint → Option Endpoint → Type 0
  Represented results none = Unit
  Represented results (some ep) =
      (if check_endpoint ep
        then any (λ e. identifier library e == identifier library (normalize_targets library ep))
            results
        else true)
      ≡ true

  abbrev is_collected : Map Text (Unit {0}) → Text → Bool
  is_collected collected id = is_visited (lookup id collected)

  is_collected-insert :
      (id other : Text) (collected : Map Text (Unit {0}))
      → is_collected (insert id tt collected) other
        ≡ (if id == other then true else is_collected collected other)
  is_collected-insert id other collected = elim (Bool-cases (id == other)) [
    | inl e ↦ rw (lookup-insert id other tt collected, e) refl
    | inr e ↦ rw (lookup-insert id other tt collected, e) refl
  ]

  new_ids :
      (collected : Map Text (Unit {0})) (eps : List (Option Endpoint))
      → All
          (λ e. is_collected collected (identifier library e) ≡ false)
          (dedup_from library collected eps)
  unfolding dedup_from
  new_ids collected [] = tt
  new_ids collected (none ∷ eps) = new_ids collected eps
  new_ids collected (some ep ∷ eps) = elim (Bool-cases (check_endpoint ep)) [
    | inr c ↦ rw (c, dedup_from) (new_ids collected eps)
    | inl c ↦
        let id = identifier library (normalize_targets library ep) in
        elim (Bool-cases (is_collected collected id)) [
          | inl v ↦ rw (c, v, dedup_from) (new_ids collected eps)
          | inr v ↦
              rw (c, v, dedup_from)
                (
                  v,
                  All-map _ _
                      (λ e h.
                        ground (arith, h, is_collected-insert id (identifier library e) collected))
                      _ (new_ids (insert id tt collected) eps),
                )
        ]
  ]

  none_has :
      (id : Text) (collected : Map Text (Unit {0})) (es : List Endpoint)
      → All (λ e. is_collected (insert id tt collected) (identifier library e) ≡ false) es
      → any (λ e. id == identifier library e) es ≡ false
  unfolding any
  none_has id collected [] h = refl
  none_has id collected (e ∷ es) (he, h) = ground (
    arith,
    he,
    is_collected-insert id (identifier library e) collected,
    none_has id collected es h,
  )

  distinct_ids :
      (collected : Map Text (Unit {0})) (eps : List (Option Endpoint))
      → HasDistinctIds (dedup_from library collected eps)
  unfolding dedup_from
  distinct_ids collected [] = tt
  distinct_ids collected (none ∷ eps) = distinct_ids collected eps
  distinct_ids collected (some ep ∷ eps) = elim (Bool-cases (check_endpoint ep)) [
    | inr c ↦ rw (c, dedup_from) (distinct_ids collected eps)
    | inl c ↦
        let id = identifier library (normalize_targets library ep) in
        elim (Bool-cases (is_collected collected id)) [
          | inl v ↦ rw (c, v, dedup_from) (distinct_ids collected eps)
          | inr v ↦
              rw (c, v, dedup_from)
                (
                  none_has id collected _ (new_ids (insert id tt collected) eps),
                  distinct_ids (insert id tt collected) eps,
                )
        ]
  ]

  abbrev found_id : Text → List Endpoint → Bool
  found_id id es = any (λ e. identifier library e == id) es

  -- its identifier is among the results or was collected before
  abbrev KnownId : Map Text (Unit {0}) → List Endpoint → Option Endpoint → Type 0
  KnownId collected results none = Unit
  KnownId collected results (some ep) =
      (if check_endpoint ep
        then (if found_id (identifier library (normalize_targets library ep)) results
            then true
            else is_collected collected (identifier library (normalize_targets library ep)))
        else true)
      ≡ true

  later-KnownId :
      (collected : Map Text (Unit {0})) (r : Endpoint) (results : List Endpoint)
      (o : Option Endpoint)
      → KnownId (insert (identifier library r) tt collected) results o
      → KnownId collected (r ∷ results) o
  unfolding any
  later-KnownId collected r results none h = tt
  later-KnownId collected r results (some ep) h =
      let id = identifier library (normalize_targets library ep) in
      ground (arith, h, is_collected-insert (identifier library r) id collected)

  dedup_from-invalid :
      (collected : Map Text (Unit {0})) (ep : Endpoint) (eps : List (Option Endpoint))
      → check_endpoint ep ≡ false
      → dedup_from library collected (some ep ∷ eps) ≡ dedup_from library collected eps
  unfolding dedup_from
  dedup_from-invalid collected ep eps c = rw (c, dedup_from) refl

  dedup_from-collected :
      (collected : Map Text (Unit {0})) (ep : Endpoint) (eps : List (Option Endpoint))
      → check_endpoint ep ≡ true
      → is_collected collected (identifier library (normalize_targets library ep)) ≡ true
      → dedup_from library collected (some ep ∷ eps) ≡ dedup_from library collected eps
  unfolding dedup_from
  dedup_from-collected collected ep eps c v = rw (c, v, dedup_from) refl

  dedup_from-new :
      (collected : Map Text (Unit {0})) (ep : Endpoint) (eps : List (Option Endpoint))
      → check_endpoint ep ≡ true
      → is_collected collected (identifier library (normalize_targets library ep)) ≡ false
      → dedup_from library collected (some ep ∷ eps)
        ≡ normalize_targets library ep
          ∷ dedup_from library
              (insert (identifier library (normalize_targets library ep)) tt collected)
              eps
  unfolding dedup_from
  dedup_from-new collected ep eps c v = rw (c, v, dedup_from) refl

  each-KnownId :
      (collected : Map Text (Unit {0})) (eps : List (Option Endpoint))
      → All (KnownId collected (dedup_from library collected eps)) eps
  unfolding any dedup_from
  each-KnownId collected [] = tt
  each-KnownId collected (none ∷ eps) = (tt, each-KnownId collected eps)
  each-KnownId collected (some ep ∷ eps) =
      let ep' = normalize_targets library ep in
      let id = identifier library ep' in
      let P = λ (results : List Endpoint). All (KnownId collected results) (some ep ∷ eps) in
      elim (Bool-cases (check_endpoint ep)) [
        | inr c ↦
            subst P (sym (dedup_from-invalid collected ep eps c))
              (rw c refl, each-KnownId collected eps)
        | inl c ↦ elim (Bool-cases (is_collected collected id)) [
          | inl v ↦ subst P (sym (dedup_from-collected collected ep eps c v)) (
            rw (c, v) (if-both (λ b. b ≡ true) _ true true refl refl),
            each-KnownId collected eps,
          )
          | inr v ↦ subst P (sym (dedup_from-new collected ep eps c v)) (
            rw (c, same_refl id) refl,
            All-map _ _ (λ o h. later-KnownId collected ep' _ o h) eps
                (each-KnownId (insert id tt collected) eps),
          )
        ]
      ]

  Represented-known :
      (results : List Endpoint) (o : Option Endpoint) → KnownId [] results o → Represented results o
  unfolding lookup
  Represented-known results none h = tt
  Represented-known results (some ep) h = ground (arith, h)

  -- The identifiers that `dedupSource` returns (type, name, set identifier and targets) are distinct,
  -- and every endpoint of the source that is not nil and is valid has its identifier among them, with
  -- the targets as a sorted set where there are several.
  pub dedup_from-Represented :
      (eps : List (Option Endpoint))
      → HasDistinctIds (dedup_from library [] eps)
        × All (Represented (dedup_from library [] eps)) eps
  dedup_from-Represented eps = (
    distinct_ids [] eps,
    All-map _ _ (λ o h. Represented-known (dedup_from library [] eps) o h) eps
        (each-KnownId [] eps),
  )
