-- ===== src/Endpoint/Owner.antt =====
-- `IsOwnedBy`, `FilterEndpointsByOwnerID` and `RemoveDuplicates` of endpoint/endpoint.go.
use external_dns.Prelude.{
  Bool, List, Map, Option, Text, [], false, if◌then◌else◌, insert, int_eq, lookup, nat_eq, none,
  some, text_eq, true, ◌==◌, ◌∷◌,
}
use external_dns.Endpoint.Types.{Endpoint, EndpointKey, key, key_eq, owner_label_key, read_label}

abbrev pub owner_is : Text → Option Text → Bool
owner_is owner_id none = false
owner_is owner_id (some owner) = owner == owner_id

unfoldable pub is_owned_by : Text → Endpoint → Bool
is_owned_by owner_id e = owner_is owner_id (read_label owner_label_key e.labels)

-- the three cases of the loop's switch skip or keep as `IsOwnedBy` says
unfoldable pub filter_endpoints_by_owner_id : Text → List Endpoint → List Endpoint
unfolding is_owned_by
filter_endpoints_by_owner_id owner_id [] = []
filter_endpoints_by_owner_id owner_id (ep ∷ eps) =
    let rest = filter_endpoints_by_owner_id owner_id eps in
    elim (read_label owner_label_key ep.labels) [
      | none ↦ rest
      | some owner ↦ if owner == owner_id then ep ∷ rest else rest
    ]

abbrev pub is_visited : Option (Unit {0}) → Bool
is_visited none = false
is_visited (some u) = true

-- the loop of `RemoveDuplicates` with the set `visited`
unfoldable pub remove_from : Map EndpointKey (Unit {0}) → List Endpoint → List Endpoint
remove_from visited [] = []
remove_from visited (ep ∷ eps) = elim (is_visited (lookup (key ep) visited)) [
  | true ↦ remove_from visited eps
  | false ↦ ep ∷ remove_from (insert (key ep) tt visited) eps
]

unfoldable pub remove_duplicates : List Endpoint → List Endpoint
unfolding remove_from
remove_duplicates eps = remove_from [] eps
