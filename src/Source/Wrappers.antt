-- ===== src/Source/Wrappers.antt =====
-- source/wrappers/multisource.go, dedupsource.go and post_processor.go. A source is what its
-- `Endpoints` returns, where a pointer may be nil.
use external_dns.Prelude.{
  Bool, List, Map, Option, Text, [], false, if◌then◌else◌, insert, int_eq, int_ltb, is_nil, join,
  length, lookup, ltb, nat_eq, none, not, pos, some, text_eq, true, ℤ, ◌++◌, ◌||◌, ◌∷◌,
}
use external_dns.Endpoint.Net.{Net}
use external_dns.Endpoint.Owner.{is_visited}
use external_dns.Endpoint.Properties.{with_min_ttl}
use external_dns.Endpoint.Types.{Endpoint, Targets}
use external_dns.Endpoint.Validate.{check_endpoint}
use external_dns.Source.Hostname.{endpoints_for_hostname}
use external_dns.Source.Library.{Library}

pub data Fetched (A : Type 0) : Type 0 where
  fetched : A → Fetched A
  -- the error of a source
  fetch_error : Fetched A
  -- a nil pointer that is dereferenced
  fetch_panic : Fetched A

abbrev pub fetched_then : {A B : Type 0} → Fetched A → (A → Fetched B) → Fetched B
fetched_then (fetched a) f = f a
fetched_then fetch_error f = fetch_error
fetched_then fetch_panic f = fetch_panic

unfoldable pub some_each : List Endpoint → List (Option Endpoint)
some_each [] = []
some_each (e ∷ es) = some e ∷ some_each es

-- `e.Labels = ep.Labels` for each
unfoldable pub with_labels_of : Endpoint → List Endpoint → List Endpoint
with_labels_of ep [] = []
with_labels_of ep (e ∷ es) = record e { labels = ep.labels } ∷ with_labels_of ep es

module _ ⦃net : Net⦄ (library : Library) where
  -- one endpoint of a source where there are default targets
  unfoldable pub default_one : Targets → Bool → Endpoint → List (Option Endpoint)
  unfolding endpoints_for_hostname with_labels_of some_each
  default_one defaults force ep =
      if force || is_nil ep.targets
      then some_each (
          with_labels_of ep (
            endpoints_for_hostname library ep.dns_name defaults ep.record_ttl ep.provider_specific
              ep.set_identifier []))
      else some ep ∷ []

  -- the loop over the endpoints of a source
  unfoldable pub default_all :
      Targets → Bool → List (Option Endpoint) → Fetched (List (Option Endpoint))
  unfolding default_one
  default_all defaults force [] = fetched []
  default_all defaults force (none ∷ eps) = fetch_panic
  default_all defaults force (some ep ∷ eps) =
      fetched_then (default_all defaults force eps)
        λ rest. fetched (default_one defaults force ep ++ rest)

  abbrev pub multi_child :
      Targets → Bool → List (Option Endpoint) → Fetched (List (Option Endpoint))
  multi_child defaults force eps =
      if is_nil defaults then fetched eps else default_all defaults force eps

  -- `multiSource.Endpoints`
  unfoldable pub multi_endpoints :
      Targets → Bool → List (Fetched (List (Option Endpoint))) → Fetched (List (Option Endpoint))
  unfolding default_all
  multi_endpoints defaults force [] = fetched []
  multi_endpoints defaults force (child ∷ children) =
      fetched_then (fetched_then child λ eps. multi_child defaults force eps)
        λ eps. fetched_then (multi_endpoints defaults force children) λ rest. fetched (eps ++ rest)

  -- the targets of an endpoint as `dedupSource` leaves them
  unfoldable pub normalize_targets : Endpoint → Endpoint
  normalize_targets ep =
      if ltb 1 (length ep.targets)
      then record ep { targets = library.sorted_set ep.targets }
      else ep

  -- `Targets.String`
  unfoldable pub targets_string : Targets → Text
  unfolding join
  targets_string t = join t b';'

  unfoldable pub identifier : Endpoint → Text
  unfolding targets_string join
  identifier ep =
      join (ep.record_type ∷ ep.dns_name ∷ ep.set_identifier ∷ targets_string ep.targets ∷ []) b'/'

  -- the loop of `dedupSource.Endpoints` with the map `collected`
  unfoldable pub dedup_from : Map Text (Unit {0}) → List (Option Endpoint) → List Endpoint
  unfolding check_endpoint normalize_targets identifier insert lookup
  dedup_from collected [] = []
  dedup_from collected (none ∷ eps) = dedup_from collected eps
  dedup_from collected (some ep ∷ eps) = elim (check_endpoint ep) [
    | false ↦ dedup_from collected eps
    | true ↦
        let ep' = normalize_targets ep in
        elim (is_visited (lookup (identifier ep') collected)) [
          | true ↦ dedup_from collected eps
          | false ↦ ep' ∷ dedup_from (insert (identifier ep') tt collected) eps
        ]
  ]

  -- `dedupSource.Endpoints`
  unfoldable pub dedup_endpoints : Fetched (List (Option Endpoint)) → Fetched (List Endpoint)
  unfolding dedup_from
  dedup_endpoints source = fetched_then source λ eps. fetched (dedup_from [] eps)

pub record PostProcessorConfig : Type 0 where
  pub ttl : ℤ
  pub is_configured_ttl : Bool

-- `NewPostProcessor` with the option `WithTTL`; `seconds` is `int64(ttl.Seconds())`
unfoldable pub with_ttl_option : ℤ → PostProcessorConfig
with_ttl_option seconds =
    if int_ltb (pos 0) seconds
    then record { ttl = seconds; is_configured_ttl = true }
    else record { ttl = pos 0; is_configured_ttl = false }

unfoldable pub min_ttl_all : ℤ → List Endpoint → List Endpoint
unfolding with_min_ttl
min_ttl_all ttl [] = []
min_ttl_all ttl (ep ∷ eps) = with_min_ttl ttl ep ∷ min_ttl_all ttl eps

-- `postProcessor.Endpoints`, of endpoints that are not nil
unfoldable pub post_process : PostProcessorConfig → List Endpoint → List Endpoint
unfolding min_ttl_all
post_process cfg eps = if not cfg.is_configured_ttl then eps else min_ttl_all cfg.ttl eps
