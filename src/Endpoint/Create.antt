-- ===== src/Endpoint/Create.antt =====
-- `NewEndpoint` and `NewEndpointWithTTL` of endpoint/endpoint.go; nil is `none`.
use mathlib.Core.List.{map}
use external_dns.Prelude.{
  Bool, Option, Text, [], any, codes, if◌then◌else◌, int_eq, length, ltb, nat_eq, none, pos, some,
  split, text_eq, trim_suffix, ◌==◌, ◌||◌,
}
use external_dns.Endpoint.Types.{
  Endpoint, Targets, Ttl, key_eq, record_type_naptr, record_type_srv, record_type_txt,
}

abbrev pub dot : Text
dot = codes "."

-- the record types whose targets keep a trailing dot
unfoldable pub keeps_dot : Text → Bool
keeps_dot record_type =
    record_type == record_type_txt
    || (record_type == record_type_naptr || record_type == record_type_srv)

unfoldable pub clean_target : Text → Text → Text
unfolding keeps_dot
clean_target record_type target = if keeps_dot record_type then target else trim_suffix target dot

abbrev pub is_long_label : Text → Bool
is_long_label label = ltb 63 (length label)

unfoldable pub new_endpoint_with_ttl : Text → Text → Ttl → Targets → Option Endpoint
unfolding clean_target
new_endpoint_with_ttl dns_name record_type ttl targets =
    if any is_long_label (split dns_name b'.')
    then none
    else some (record {
      dns_name = trim_suffix dns_name dot;
      targets = map (clean_target record_type) targets;
      record_type = record_type;
      set_identifier = [];
      record_ttl = ttl;
      labels = some [];
      provider_specific = [];
      ref_object = none;
    })

unfoldable pub new_endpoint : Text → Text → Targets → Option Endpoint
unfolding new_endpoint_with_ttl
new_endpoint dns_name record_type targets =
    new_endpoint_with_ttl dns_name record_type (pos 0) targets
