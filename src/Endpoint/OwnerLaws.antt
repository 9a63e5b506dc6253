-- ===== src/Endpoint/OwnerLaws.antt =====
-- Ownership filters keep what holds of every endpoint, and leave owned endpoints with distinct keys.
use external_dns.Prelude.{
  All, Bool, Bool-cases, List, Map, Option, Option-cases, Text, [], ap, arith, false, if-both,
  if-cases, if◌then◌else◌, inl, inr, insert, int_eq, lookup, lookup-insert, lookup-insert_self,
  nat_eq, none, refl, some, text_eq, true, ◌==◌, ◌∷◌, ◌≡◌, ◌≢◌,
}
use external_dns.Endpoint.Owner.{
  filter_endpoints_by_owner_id, is_owned_by, is_visited, remove_duplicates, remove_from,
}
use external_dns.Endpoint.Types.{
  Endpoint, EndpointKey, key, key_beq_iff, key_eq, owner_label_key, read_label,
}

module _ {ℓ} (P : Endpoint → Type ℓ) where
  pub All-filter_endpoints :
      (owner_id : Text) (eps : List Endpoint)
      → All P eps
      → All P (filter_endpoints_by_owner_id owner_id eps)
  unfolding filter_endpoints_by_owner_id
  All-filter_endpoints owner_id [] h = tt
  All-filter_endpoints owner_id (ep ∷ eps) (hp, h) =
      let ih = All-filter_endpoints owner_id eps h in
      elim (Option-cases (read_label owner_label_key ep.labels)) [
        | inl e ↦ rw (e, filter_endpoints_by_owner_id) ih
        | inr (o, e) ↦
            rw (e, filter_endpoints_by_owner_id) (if-both (All P) (o == owner_id) _ _ (hp, ih) ih)
      ]

  remove_from-All :
      (visited : Map EndpointKey (Unit {0})) (eps : List Endpoint)
      → All P eps
      → All P (remove_from visited eps)
  unfolding remove_from
  remove_from-All visited [] h = tt
  remove_from-All visited (ep ∷ eps) (hp, h) =
      elim (Bool-cases (is_visited (lookup (key ep) visited))) [
        | inl e ↦ rw (e, remove_from) (remove_from-All visited eps h)
        | inr e ↦ rw (e, remove_from) (hp, remove_from-All (insert (key ep) tt visited) eps h)
      ]

  pub All-remove_duplicates : (eps : List Endpoint) → All P eps → All P (remove_duplicates eps)
  unfolding remove_duplicates
  All-remove_duplicates eps h = remove_from-All [] eps h

abbrev pub IsOwned : Text → Endpoint → Type 0
IsOwned owner_id e = is_owned_by owner_id e ≡ true

pub filter_endpoints-IsOwned :
    (owner_id : Text) (eps : List Endpoint)
    → All (IsOwned owner_id) (filter_endpoints_by_owner_id owner_id eps)
unfolding filter_endpoints_by_owner_id is_owned_by
filter_endpoints-IsOwned owner_id [] = tt
filter_endpoints-IsOwned owner_id (ep ∷ eps) =
    let ih = filter_endpoints-IsOwned owner_id eps in
    elim (Option-cases (read_label owner_label_key ep.labels)) [
      | inl e ↦ rw (e, filter_endpoints_by_owner_id) ih
      | inr (o, e) ↦
          rw (e, filter_endpoints_by_owner_id)
            (if-cases (All (IsOwned owner_id)) (o == owner_id) _ _ (λ t. (rw e t, ih)) (λ _. ih))
    ]

-- No two endpoints of the list have one key.
abbrev pub FreshKey : EndpointKey → Endpoint → Type 0
FreshKey k e = key e ≢ k

abbrev pub HasDistinctKeys : List Endpoint → Type 0
HasDistinctKeys [] = Unit
HasDistinctKeys (e ∷ es) = All (FreshKey (key e)) es × HasDistinctKeys es

remove_from-fresh :
    (k : EndpointKey) (visited : Map EndpointKey (Unit {0})) (eps : List Endpoint)
    → lookup k visited ≡ some tt
    → All (FreshKey k) (remove_from visited eps)
unfolding remove_from
remove_from-fresh k visited [] h = tt
remove_from-fresh k visited (ep ∷ eps) h =
    elim (Bool-cases (is_visited (lookup (key ep) visited))) [
      | inl e ↦ rw (e, remove_from) (remove_from-fresh k visited eps h)
      | inr e ↦
          rw (e, remove_from)
            (
              λ q. cc (e, h, ap (λ j. is_visited (lookup j visited)) q),
              remove_from-fresh k (insert (key ep) tt visited) eps
                  (ground (arith, lookup-insert (key ep) k tt visited, h)),
            )
    ]

remove_from-HasDistinctKeys :
    (visited : Map EndpointKey (Unit {0})) (eps : List Endpoint)
    → HasDistinctKeys (remove_from visited eps)
unfolding remove_from
remove_from-HasDistinctKeys visited [] = tt
remove_from-HasDistinctKeys visited (ep ∷ eps) =
    elim (Bool-cases (is_visited (lookup (key ep) visited))) [
      | inl e ↦ rw (e, remove_from) (remove_from-HasDistinctKeys visited eps)
      | inr e ↦
          let later = insert (key ep) tt visited in
          rw (e, remove_from)
            (
              remove_from-fresh (key ep) later eps (lookup-insert_self (key ep) tt visited),
              remove_from-HasDistinctKeys later eps,
            )
    ]

pub remove_duplicates-HasDistinctKeys :
    (eps : List Endpoint) → HasDistinctKeys (remove_duplicates eps)
unfolding remove_duplicates
remove_duplicates-HasDistinctKeys eps = remove_from-HasDistinctKeys [] eps

abbrev pub has_key : EndpointKey → Endpoint → Bool
has_key k e = key e == k

abbrev pub seen : EndpointKey → Map EndpointKey (Unit {0}) → Bool
seen k visited = is_visited (lookup k visited)

-- the first endpoint of the list that has the key
unfoldable pub first_of : EndpointKey → List Endpoint → Option Endpoint
first_of k [] = none
first_of k (e ∷ es) = let rest = first_of k es in if has_key k e then some e else rest

-- The second list has one endpoint for each key of the first, which is the first one there.
pub record IsFirstOfEach (eps kept : List Endpoint) : Type 0 where
  pub distinct : HasDistinctKeys kept
  pub firsts : (k : EndpointKey) → first_of k kept ≡ first_of k eps

remove_from-firsts :
    (k : EndpointKey) (visited : Map EndpointKey (Unit {0})) (eps : List Endpoint)
    → seen k visited ≡ false
    → first_of k (remove_from visited eps) ≡ first_of k eps
unfolding remove_from first_of
remove_from-firsts k visited [] h = refl
remove_from-firsts k visited (ep ∷ eps) h = elim (Bool-cases (seen (key ep) visited)) [
  | inl e ↦
      rw (e, remove_from)
        (ground (arith, remove_from-firsts k visited eps, key_beq_iff (key ep) k, e, h))
  | inr e ↦
      rw (e, remove_from)
        (ground (
          arith,
          remove_from-firsts k (insert (key ep) tt visited) eps,
          lookup-insert (key ep) k tt visited,
          h,
        ))
]

-- `RemoveDuplicates` leaves no key twice, and under each key that was there the first endpoint.
pub remove_duplicates-IsFirstOfEach :
    (eps : List Endpoint) → IsFirstOfEach eps (remove_duplicates eps)
unfolding remove_duplicates lookup
remove_duplicates-IsFirstOfEach eps = record {
  distinct = remove_duplicates-HasDistinctKeys eps;
  firsts = λ k. remove_from-firsts k [] eps refl;
}
