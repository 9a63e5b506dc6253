-- ===== src/Plan/Conflict.antt =====
-- plan/conflict.go: which candidate takes a name. `less` sorts the targets of both endpoints in
-- place, so an endpoint comes back with its targets as the comparisons left them.
use mathlib.Core.List.{reverse}
use external_dns.Prelude.{
  Bool, List, Map, Option, Text, [], any, if◌then◌else◌, int_eq, leb, length, nat_eq, none, not,
  some, text_eq, ◌&&◌, ◌==◌, ◌∷◌,
}
use external_dns.Endpoint.Net.{Net}
use external_dns.Endpoint.Targets.{is_less}
use external_dns.Endpoint.Types.{
  Endpoint, or_empty, read_label, record_type_cname, resource_label_key,
}
use external_dns.Plan.Types.{DomainEndpoints, PlanTableRow}

module _ ⦃net : Net⦄ where
  unfoldable pub less : Endpoint → Endpoint → Bool × Endpoint × Endpoint
  unfolding is_less
  less x y =
      let (b, xs, ys) = is_less x.targets y.targets in
      (b, record x { targets = xs }, record y { targets = ys })

  -- the loop of `ResolveCreate` once `minE` is set
  unfoldable pub resolve_min : Endpoint → List Endpoint → Endpoint
  unfolding less
  resolve_min min [] = min
  resolve_min min (ep ∷ eps) =
      let (b, ep', min') = less ep min in resolve_min (if b then ep' else min') eps

  -- `ResolveCreate`; nil for no candidates
  unfoldable pub resolve_create : List Endpoint → Option Endpoint
  unfolding resolve_min
  resolve_create [] = none
  resolve_create (ep ∷ eps) = some (resolve_min ep eps)

  -- `sort.SliceStable` of the candidates by `less`: an insertion sort up to 20 elements
  unfoldable pub sift_candidate : Endpoint → List Endpoint → List Endpoint
  unfolding less
  sift_candidate x [] = x ∷ []
  sift_candidate x (y ∷ before) =
      let (b, x', y') = less x y in if b then y' ∷ sift_candidate x' before else x' ∷ y' ∷ before

  unfoldable pub sort_candidates : List Endpoint → List Endpoint → List Endpoint
  unfolding sift_candidate
  sort_candidates before [] = reverse before
  sort_candidates before (x ∷ xs) = sort_candidates (sift_candidate x before) xs

  -- the loop of `ResolveUpdate`: the first candidate of the resource
  unfoldable pub find_resource : Text → List Endpoint → Option Endpoint
  find_resource resource [] = none
  find_resource resource (ep ∷ eps) =
      if or_empty (read_label resource_label_key ep.labels) == resource
      then some ep
      else find_resource resource eps

  abbrev pub or_else : Option Endpoint → Option Endpoint → Option Endpoint
  or_else none o = o
  or_else (some ep) o = some ep

  unfoldable pub resolve_update : Endpoint → List Endpoint → Option Endpoint
  unfolding sort_candidates find_resource resolve_create
  resolve_update current candidates =
      let sorted = sort_candidates [] candidates in
      or_else (find_resource (or_empty (read_label resource_label_key current.labels)) sorted)
        (resolve_create sorted)

abbrev pub is_cname : Endpoint → Bool
is_cname c = c.record_type == record_type_cname

abbrev pub is_other : Endpoint → Bool
is_other c = not (c.record_type == record_type_cname)

unfoldable pub drop_cname : Map Text DomainEndpoints → Map Text DomainEndpoints
drop_cname [] = []
drop_cname ((record_type, recs) ∷ m) =
    (
      record_type,
      (if record_type == record_type_cname then record recs { candidates = [] } else recs),
    )
    ∷ drop_cname m

-- `ResolveRecordTypes`
unfoldable pub resolve_record_types : PlanTableRow → Map Text DomainEndpoints
unfolding drop_cname any
resolve_record_types row =
    if leb (length row.candidates) 1
    then row.records
    else if any is_cname row.candidates && any is_other row.candidates
    then drop_cname row.records
    else row.records
