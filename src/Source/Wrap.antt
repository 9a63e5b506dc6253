-- ===== src/Source/Wrap.antt =====
-- `WrapSources` of source/wrappers/types.go: the wrappers in their order, as what the wrapped source
-- then returns.
use external_dns.Prelude.{Bool, List, Option, Text, if◌then◌else◌, is_nil, none, not, some, ℤ}
use external_dns.Endpoint.Net.{Net}
use external_dns.Endpoint.Types.{Endpoint, Targets}
use external_dns.Source.Library.{Library}
use external_dns.Source.Nat64.{nat64_endpoints, new_nat64_source}
use external_dns.Source.TargetFilter.{new_target_net_filter, target_filter_endpoints}
use external_dns.Source.Wrappers.{
  Fetched, dedup_endpoints, fetch_error, fetched, fetched_then, multi_endpoints, post_process,
  with_ttl_option,
}

pub record Config : Type 0 where
  pub default_targets : Targets
  pub force_default_targets : Bool
  pub nat64_networks : List Text
  pub target_net_filter : List Text
  pub exclude_target_nets : List Text
  -- `int64(minTTL.Seconds())`
  pub min_ttl : ℤ

abbrev pub or_error : Option (List Endpoint) → Fetched (List Endpoint)
or_error none = fetch_error
or_error (some eps) = fetched eps

module _ ⦃net : Net⦄ (library : Library) where
  abbrev pub with_nat64 : List library.Prefix → Bool → List Endpoint → Fetched (List Endpoint)
  with_nat64 prefixes enabled eps =
      if enabled then or_error (nat64_endpoints library prefixes eps) else fetched eps

  -- what stands behind the deduplication
  unfoldable pub behind_dedup :
      Config → List library.Prefix → Fetched (List Endpoint) → Fetched (List Endpoint)
  unfolding nat64_endpoints target_filter_endpoints new_target_net_filter post_process
      with_ttl_option
  behind_dedup opts prefixes source =
      fetched_then
        (fetched_then source λ eps. with_nat64 prefixes (not (is_nil opts.nat64_networks)) eps)
        λ eps. fetched (
          post_process (with_ttl_option opts.min_ttl) (
            target_filter_endpoints library
              (new_target_net_filter library opts.target_net_filter opts.exclude_target_nets) eps))

  abbrev pub wrapped :
      Config
      → Option (List library.Prefix)
      → List (Fetched (List (Option Endpoint)))
      → Option (Fetched (List Endpoint))
  wrapped opts none children = none
  wrapped opts (some prefixes) children = some (
      behind_dedup opts prefixes (
        dedup_endpoints library
          (multi_endpoints library opts.default_targets opts.force_default_targets children)))

  -- `WrapSources` and `Endpoints` of the source that it returns; `none` is the error of `WrapSources`
  unfoldable pub wrap_sources :
      Config → List (Fetched (List (Option Endpoint))) → Option (Fetched (List Endpoint))
  unfolding behind_dedup dedup_endpoints multi_endpoints new_nat64_source
  wrap_sources opts children = wrapped opts (new_nat64_source library opts.nat64_networks) children
