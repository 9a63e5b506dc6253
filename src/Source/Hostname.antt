-- ===== src/Source/Hostname.antt =====
-- `EndpointsForHostname` of source/endpoints.go, and source/utils.go.
use mathlib.Core.List.{map}
use external_dns.Prelude.{
  Bool, List, Map, Option, Text, [], false, if◌then◌else◌, insert, int_eq, is_nil, keep, lookup,
  nat_eq, none, not, some, split, text_eq, true, ◌++◌, ◌==◌, ◌∷◌,
}
use external_dns.Endpoint.Create.{new_endpoint_with_ttl}
use external_dns.Endpoint.Net.{Net}
use external_dns.Endpoint.Properties.{write_label}
use external_dns.Endpoint.Targets.{sort_targets}
use external_dns.Endpoint.Types.{
  Endpoint, EndpointKey, Labels, ProviderSpecific, Targets, Ttl, key_eq, record_type_a,
  record_type_aaaa, record_type_cname, resource_label_key,
}
use external_dns.Source.Library.{Library}

module _ ⦃net : Net⦄ (library : Library) where
  abbrev pub type_of_addr : Option net.Addr → Text
  type_of_addr none = record_type_cname
  type_of_addr (some ip) =
      if library.is4 ip
      then record_type_a
      else if library.is6 ip
      then record_type_aaaa
      else record_type_cname

  unfoldable pub suitable_type : Text → Text
  suitable_type target = type_of_addr (net.parse_addr target)

  -- the targets of a type in the switch of `EndpointsForHostname`, whose default is CNAME
  unfoldable pub targets_of : Text → Targets → Targets
  unfolding suitable_type keep
  targets_of record_type targets = keep (λ t. suitable_type t == record_type) targets

  abbrev pub with_resource : Text → Option Labels → Option Labels
  with_resource resource labels =
      if not (is_nil resource) then write_label resource_label_key resource labels else labels

  abbrev pub as_listed : ProviderSpecific → Text → Text → Option Endpoint → List Endpoint
  as_listed properties id resource none = []
  as_listed properties id resource (some ep) =
      record ep {
        provider_specific = properties;
        set_identifier = id;
        labels = with_resource resource ep.labels;
      }
      ∷ []

  -- the endpoint of one type, where there are targets for it
  unfoldable pub endpoint_of_type :
      Text → Ttl → ProviderSpecific → Text → Text → Text → Targets → List Endpoint
  unfolding new_endpoint_with_ttl
  endpoint_of_type hostname ttl properties id resource record_type targets =
      if is_nil targets
      then []
      else as_listed properties id resource (new_endpoint_with_ttl hostname record_type ttl targets)

  -- `EndpointsForHostname`
  unfoldable pub endpoints_for_hostname :
      Text → Targets → Ttl → ProviderSpecific → Text → Text → List Endpoint
  unfolding endpoint_of_type targets_of
  endpoints_for_hostname hostname targets ttl properties id resource =
      let of_type : Text → List Endpoint = (λ record_type.
        endpoint_of_type hostname ttl properties id resource record_type
          (targets_of record_type targets)) in
      of_type record_type_a ++ of_type record_type_aaaa ++ of_type record_type_cname

abbrev pub parts_of_ingress : List Text → Option (Text × Text)
parts_of_ingress (namespace ∷ name ∷ []) = some (namespace, name)
parts_of_ingress (name ∷ []) = some ([], name)
parts_of_ingress _ = none

-- `ParseIngress`: the namespace and the name; `none` is the error
unfoldable pub parse_ingress : Text → Option (Text × Text)
unfolding split
parse_ingress ingress = parts_of_ingress (split ingress b'/')

abbrev pub label_is : Text → Option Text → Bool
label_is v none = false
label_is v (some lbl) = lbl == v

-- `MatchesServiceSelector`
unfoldable pub matches_service_selector : Labels → Labels → Bool
unfolding lookup
matches_service_selector [] svc_selector = true
matches_service_selector ((k, v) ∷ selector) svc_selector =
    let rest = matches_service_selector selector svc_selector in
    if label_is v (lookup k svc_selector) then rest else false

-- the key of `MergeEndpoints`
abbrev pub merge_key : Endpoint → EndpointKey
merge_key ep = record {
  dns_name = ep.dns_name;
  record_type = ep.record_type;
  set_identifier = [];
  record_ttl = ep.record_ttl;
}

abbrev pub with_existing :
    Endpoint → Option Endpoint → Map EndpointKey Endpoint → Map EndpointKey Endpoint
with_existing ep none m = insert (merge_key ep) ep m
with_existing ep (some existing) m =
    insert (merge_key ep) (record existing { targets = existing.targets ++ ep.targets }) m

-- the first loop of `MergeEndpoints`
unfoldable pub merge_into : List Endpoint → Map EndpointKey Endpoint → Map EndpointKey Endpoint
unfolding insert lookup
merge_into [] m = m
merge_into (ep ∷ eps) m = merge_into eps (with_existing ep (lookup (merge_key ep) m) m)

-- `MergeEndpoints`, in the order of the map, which Go leaves open; `sort.Sort` is insertion sort,
-- which Go runs up to 12 targets
unfoldable pub merge_endpoints : ⦃net : Net⦄ → List Endpoint → List Endpoint
unfolding merge_into sort_targets
merge_endpoints eps =
    map (λ (e : EndpointKey × Endpoint). record e.1 { targets = sort_targets e.1.targets })
      (merge_into eps [])

-- the parts of a service that `EndpointTargetsFromServices` reads
pub record KubeService : Type 0 where
  pub selector : Labels
  pub external_ips : List Text
  -- the IP and the host name of each entry of the load balancer
  pub ingress : List (Text × Text)

-- the loop over the load balancer
unfoldable pub balancer_targets : List (Text × Text) → Targets
balancer_targets [] = []
balancer_targets ((ip, hostname) ∷ lbs) =
    let rest = balancer_targets lbs in
    if not (is_nil ip) then ip ∷ rest else if not (is_nil hostname) then hostname ∷ rest else rest

unfoldable pub service_targets : Labels → KubeService → Targets
unfolding matches_service_selector balancer_targets
service_targets selector service =
    if not (matches_service_selector selector service.selector)
    then []
    else if not (is_nil service.external_ips)
    then service.external_ips
    else balancer_targets service.ingress

-- the loop over the services
unfoldable pub targets_of_services : Labels → List KubeService → Targets
unfolding service_targets
targets_of_services selector [] = []
targets_of_services selector (s ∷ ss) =
    service_targets selector s ++ targets_of_services selector ss

-- `EndpointTargetsFromServices`: the services that the lister returns, `none` for its error
unfoldable pub endpoint_targets_from_services :
    ⦃net : Net⦄ → Library → Labels → Option (List KubeService) → Option Targets
unfolding targets_of_services
endpoint_targets_from_services library selector none = none
endpoint_targets_from_services library selector (some services) =
    some (library.sorted_set (targets_of_services selector services))
