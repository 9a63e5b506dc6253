-- ===== src/Source/TargetFilter.antt =====
-- endpoint/target_filter.go and source/wrappers/targetfiltersource.go.
use external_dns.Prelude.{
  Bool, List, Option, Text, [], any, false, if◌then◌else◌, int_eq, is_nil, keep, nat_eq, none, not,
  some, text_eq, trim_space, true, ◌&&◌, ◌||◌, ◌∷◌,
}
use external_dns.Endpoint.Net.{Net}
use external_dns.Endpoint.Types.{Endpoint, Targets}
use external_dns.Source.Library.{Library}

module _ ⦃net : Net⦄ (library : Library) where
  -- `TargetNetFilter`
  pub record TargetNetFilter : Type 0 where
    pub filter_nets : List library.IpNet
    pub exclude_nets : List library.IpNet

  abbrev pub add_net : Option library.IpNet → List library.IpNet → List library.IpNet
  add_net none fs = fs
  add_net (some filter_net) fs = filter_net ∷ fs

  -- a text that is no network is left out
  unfoldable pub prepare_target_filters : List Text → List library.IpNet
  unfolding trim_space
  prepare_target_filters [] = []
  prepare_target_filters (f ∷ fs) =
      add_net (library.parse_cidr (trim_space f)) (prepare_target_filters fs)

  unfoldable pub new_target_net_filter : List Text → List Text → TargetNetFilter
  unfolding prepare_target_filters
  new_target_net_filter target_nets excluded = record {
    filter_nets = prepare_target_filters target_nets;
    exclude_nets = prepare_target_filters excluded;
  }

  unfoldable pub match_target_net_filter : List library.IpNet → Text → Bool → Bool
  unfolding any
  match_target_net_filter filters target emptyval =
      if is_nil filters
      then emptyval
      else any (λ f. library.net_contains f (library.parse_ip target)) filters

  unfoldable pub match_target : TargetNetFilter → Text → Bool
  unfolding match_target_net_filter
  match_target tf target =
      match_target_net_filter tf.filter_nets target true
      && not (match_target_net_filter tf.exclude_nets target false)

  unfoldable pub is_enabled : TargetNetFilter → Bool
  is_enabled tf = not (is_nil tf.filter_nets) || not (is_nil tf.exclude_nets)

  abbrev pub keep_filtered : Endpoint → Targets → List Endpoint → List Endpoint
  keep_filtered ep [] rest = rest
  keep_filtered ep (t ∷ ts) rest = record ep { targets = t ∷ ts } ∷ rest

  -- the loop of `targetFilterSource.Endpoints`: the body keeps the targets that match
  unfoldable pub filter_all : TargetNetFilter → List Endpoint → List Endpoint
  unfolding match_target keep
  filter_all tf [] = []
  filter_all tf (ep ∷ eps) =
      keep_filtered ep (keep (λ t. match_target tf t) ep.targets) (filter_all tf eps)

  -- `targetFilterSource.Endpoints`
  unfoldable pub target_filter_endpoints : TargetNetFilter → List Endpoint → List Endpoint
  unfolding filter_all is_enabled
  target_filter_endpoints tf eps = if not (is_enabled tf) then eps else filter_all tf eps
