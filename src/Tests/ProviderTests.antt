-- ===== src/Tests/ProviderTests.antt =====
-- provider/ at sample zones, and a cache that is read twice.
use external_dns.Prelude.{
  Bool, List, Option, Text, [], codes, false, insert, int_eq, lookup, nat_eq, not, refl, some,
  text_beq, text_eq, ℕ, ◌&&◌, ◌+◌, ◌∷◌, ◌≡◌, ◌≢◌, ◌≤◌,
}
use external_dns.Endpoint.Types.{Endpoint, EndpointKey, key, key_eq}
use external_dns.Provider.BatchLaws.{IsBatch, validate_zone-IsBatch}
use external_dns.Provider.Cached.{CachedProvider, cached_records, new_cached_provider}
use external_dns.Provider.CachedLaws.{cached_records-fresh, read, start, wait}
use external_dns.Provider.Difference.{difference}
use external_dns.Provider.DifferenceLaws.{difference-listed_in, listed_in}
use external_dns.Provider.InMemory.{Zone, Zones, client_apply_changes, validate_zone, write_changes}
use external_dns.Provider.InMemoryLaws.{
  after_batch, client_apply_changes-after_batch, zone_or_empty,
}
use external_dns.Provider.ZoneFinder.{ZoneIdName, find_zone, unicode_name}
use external_dns.Provider.ZoneLaws.{IsFound, IsLongest, find_zone-IsLongest}
use external_dns.Registry.Txt.{record_key_eq}
use external_dns.Tests.Samples.{me, owned, record_of, sample_changes, sample_net}

abbrev zone_name : Text
zone_name = codes "example.org"

abbrev held : Endpoint
held = record_of (codes "b.example.org") (codes "2.2.2.2") (owned me)

abbrev updated : Endpoint
updated = record_of (codes "a.example.org") (codes "1.1.1.1") (owned me)

abbrev sample_zone : Zone
sample_zone = (key held, held) ∷ (key updated, updated) ∷ []

abbrev sample_zones : Zones
sample_zones = (zone_name, sample_zone) ∷ (codes "example.com", []) ∷ []

validate_zone-IsBatch_example : IsBatch sample_zone sample_changes
unfolding validate_zone text_beq
validate_zone-IsBatch_example = validate_zone-IsBatch sample_zone sample_changes _ refl

abbrev after : Zones
unfolding write_changes
after = insert zone_name (write_changes sample_changes sample_zone) sample_zones

client_apply_changes-after_batch_example :
    ((k : EndpointKey)
      → lookup k (zone_or_empty (lookup zone_name (after)))
        ≡ after_batch sample_changes (zone_or_empty (lookup zone_name sample_zones)) k)
    × ((other : Text) → other ≢ zone_name → lookup other (after) ≡ lookup other sample_zones)
unfolding client_apply_changes text_beq insert
client_apply_changes-after_batch_example =
    client_apply_changes-after_batch sample_zones after zone_name sample_changes refl

abbrev sample_zone_names : ZoneIdName
sample_zone_names =
    (codes "1", codes "example.org")
    ∷ (codes "2", codes "sub.example.org")
    ∷ (codes "3", codes "example.com")
    ∷ []

find_zone-IsLongest_example :
    IsFound
      (unicode_name (codes "a.sub.example.org"))
      ([], [])
      sample_zone_names
      (find_zone sample_zone_names (codes "a.sub.example.org"))
    × IsLongest
        (unicode_name (codes "a.sub.example.org"))
        (find_zone sample_zone_names (codes "a.sub.example.org")).1
        sample_zone_names
find_zone-IsLongest_example = find_zone-IsLongest sample_zone_names (codes "a.sub.example.org")

found_zone :
    find_zone sample_zone_names (codes "a.sub.example.org") ≡ (codes "2", codes "sub.example.org")
unfolding find_zone
found_zone = refl

-- the provider holds one record from the start
abbrev world : ℕ → Option (List Endpoint)
world t = some (held ∷ [])

abbrev no_equal : List Endpoint → List Endpoint → Bool
no_equal xs ys = false

abbrev read_once : CachedProvider
read_once = record { refresh_delay = 60; last_read = 10; cache = some (held ∷ []) }

cached_records-fresh_example : (t : ℕ) × (world t ≡ some (held ∷ [])) × (t ≤ 30) × (30 ≤ t + 60)
unfolding cached_records new_cached_provider
cached_records-fresh_example =
    cached_records-fresh world no_equal 30 read_once (held ∷ [])
      (wait 10 20 read_once (read 10 (new_cached_provider 60) (start 60 10))) refl

abbrev current_texts : List Text
current_texts = codes "a" ∷ codes "b" ∷ []

abbrev desired_texts : List Text
desired_texts = codes "b" ∷ codes "c" ∷ []

difference-listed_in_example :
    (listed_in (codes "c") (difference current_texts desired_texts).to_remove
      ≡ (listed_in (codes "c") current_texts && not (listed_in (codes "c") desired_texts)))
    × (listed_in (codes "c") (difference current_texts desired_texts).to_leave
        ≡ (listed_in (codes "c") current_texts && listed_in (codes "c") desired_texts))
    × (listed_in (codes "c") current_texts ≡ false
        → listed_in (codes "c") (difference current_texts desired_texts).to_add
          ≡ listed_in (codes "c") desired_texts)
difference-listed_in_example = difference-listed_in current_texts desired_texts (codes "c")
