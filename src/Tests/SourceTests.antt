-- ===== src/Tests/SourceTests.antt =====
-- source/ at two sources with a duplicate.
use external_dns.Prelude.{
  All, Bool, List, Option, Text, [], codes, false, has_prefix, int_eq, nat_eq, none, pos, refl,
  some, text_beq, text_eq, true, ◌∷◌, ◌≡◌,
}
use external_dns.Endpoint.Types.{Endpoint}
use external_dns.Registry.GenerateLaws.{Whenever}
use external_dns.Registry.Txt.{record_key_eq}
use external_dns.Source.DedupLaws.{HasDistinctIds, Represented, dedup_from-Represented}
use external_dns.Source.Library.{Library}
use external_dns.Source.TargetFilter.{is_enabled, new_target_net_filter}
use external_dns.Source.Wrap.{Config, wrap_sources}
use external_dns.Source.WrapLaws.{IsReady, WhenFetched, filter_of, wrap_sources-IsReady}
use external_dns.Source.Wrappers.{dedup_from, fetched}
use external_dns.Tests.Samples.{record_of, sample_net}

-- networks are prefixes of texts here, and the set is the list
abbrev sample_library : Library
sample_library = record {
  is4 = λ a. true;
  is6 = λ a. false;
  as16 = λ a. 0 ∷ 0 ∷ 0 ∷ 0 ∷ 0 ∷ 0 ∷ 0 ∷ 0 ∷ 0 ∷ 0 ∷ 0 ∷ 0 ∷ 1 ∷ 2 ∷ 3 ∷ 4 ∷ [];
  addr_from_slice = λ b. some tt;
  as16_length = λ a. refl;
  addr_from_four = λ b h. (tt, refl);
  Prefix = Text;
  parse_prefix = λ t. some t;
  bits = λ p. pos 96;
  contains = λ p a. true;
  IpNet = Text;
  Ip = Text;
  parse_cidr = λ t. some t;
  parse_ip = λ t. some t;
  net_contains = λ n o. prefix_of n o;
  sorted_set = λ ts. ts;
  any_sorted_set = λ p ts. refl;
}
  where
    prefix_of : Text → Option Text → Bool
    prefix_of n none = false
    prefix_of n (some t) = has_prefix t n

abbrev first_record : Endpoint
first_record = record_of (codes "a.example.org") (codes "1.1.1.1") (some [])

abbrev second_record : Endpoint
second_record = record_of (codes "b.example.org") (codes "2.2.2.2") (some [])

abbrev sample_endpoints : List (Option Endpoint)
sample_endpoints = some first_record ∷ none ∷ some second_record ∷ some first_record ∷ []

dedup_from-Represented_example :
    HasDistinctIds sample_library (dedup_from sample_library [] sample_endpoints)
    × All
        (Represented sample_library (dedup_from sample_library [] sample_endpoints))
        sample_endpoints
dedup_from-Represented_example = dedup_from-Represented sample_library sample_endpoints

without_duplicates :
    dedup_from sample_library [] sample_endpoints ≡ first_record ∷ second_record ∷ []
unfolding dedup_from text_beq
without_duplicates = refl

abbrev sample_config : Config
sample_config = record {
  default_targets = [];
  force_default_targets = false;
  nat64_networks = [];
  target_net_filter = codes "1." ∷ [];
  exclude_target_nets = [];
  min_ttl = pos 60;
}

wrap_sources-IsReady_example :
    Whenever
      (WhenFetched sample_library
        (All (IsReady sample_library (filter_of sample_library sample_config))))
      (wrap_sources sample_library sample_config (fetched sample_endpoints ∷ []))
unfolding new_target_net_filter is_enabled
wrap_sources-IsReady_example =
    wrap_sources-IsReady sample_library sample_config (fetched sample_endpoints ∷ []) refl refl

only_first :
    wrap_sources sample_library sample_config (fetched sample_endpoints ∷ [])
    ≡ some (fetched (record first_record { record_ttl = pos 60 } ∷ []))
unfolding wrap_sources text_beq has_prefix
only_first = refl
