-- ===== src/Tests/EndpointTests.antt =====
-- endpoint/ at sample labels, properties and endpoints.
use external_dns.Prelude.{
  List, Text, [], arith, codes, false, if◌then◌else◌, int_eq, lookup, nat_eq, none, pos, refl, some,
  text_beq, text_eq, text_ltb, true, ◌++◌, ◌==◌, ◌↔◌, ◌∷◌, ◌≡◌, ◌⊎◌,
}
use external_dns.Endpoint.Create.{new_endpoint_with_ttl}
use external_dns.Endpoint.CreateLaws.{HasShortLabels, new_endpoint_with_ttl-HasShortLabels}
use external_dns.Endpoint.DomainFilter.{DomainFilter, match, normalize_domain}
use external_dns.Endpoint.FilterLaws.{IsUnderOne, match-IsUnderOne}
use external_dns.Endpoint.LabelLaws.{new_labels_from_string_plain-serialize_plain}
use external_dns.Endpoint.Labels.{
  new_labels_from_string_plain, serialize_plain, txt_encryption_nonce,
}
use external_dns.Endpoint.Owner.{remove_duplicates}
use external_dns.Endpoint.OwnerLaws.{IsFirstOfEach, remove_duplicates-IsFirstOfEach}
use external_dns.Endpoint.Properties.{
  delete_provider_specific_property, get_provider_specific_property, set_provider_specific_property,
}
use external_dns.Endpoint.PropertyLaws.{
  HasDistinctNames, get_provider_specific_property-delete, get_provider_specific_property-set,
  set_provider_specific_property-HasDistinctNames,
}
use external_dns.Endpoint.Types.{
  Endpoint, Labels, owner_label_key, record_type_a, resource_label_key,
}
use external_dns.Registry.Txt.{record_key_eq}
use external_dns.Tests.Samples.{me, record_of, sample_current, sample_net}

abbrev sample_labels : Labels
sample_labels = (owner_label_key, me) ∷ (resource_label_key, codes "ingress/default/app") ∷ []

new_labels_from_string_plain-serialize_plain_example :
    (m : Labels) × (new_labels_from_string_plain (serialize_plain sample_labels true) ≡ some m)
    × ((j : Text)
        → lookup j m ≡ (if j == txt_encryption_nonce then none else lookup j sample_labels))
new_labels_from_string_plain-serialize_plain_example =
    new_labels_from_string_plain-serialize_plain sample_labels true (omega arith)

serialized :
    serialize_plain sample_labels true
    ≡ codes
        "\"heritage=external-dns,external-dns/owner=me,external-dns/resource=ingress/default/app\""
unfolding serialize_plain text_ltb text_beq
serialized = refl

abbrev with_properties : Endpoint
with_properties = record (record_of (codes "a.example.org") (codes "1.1.1.1") none) {
  provider_specific =
      record { name = codes "alias"; value = codes "true" }
      ∷ record { name = codes "weight"; value = codes "10" }
      ∷ [];
}

get_provider_specific_property-set_example :
    get_provider_specific_property
      (codes "weight")
      (set_provider_specific_property (codes "alias") (codes "false") with_properties)
    ≡ get_provider_specific_property (codes "weight") with_properties
unfolding get_provider_specific_property text_beq
get_provider_specific_property-set_example =
    get_provider_specific_property-set (codes "alias") (codes "weight") (codes "false")
      with_properties

get_provider_specific_property-delete_example :
    get_provider_specific_property
      (codes "alias")
      (delete_provider_specific_property (codes "alias") with_properties)
    ≡ none
unfolding text_beq
get_provider_specific_property-delete_example =
    get_provider_specific_property-delete (codes "alias") (codes "alias") with_properties
      (((λ e. cc), tt), (tt, tt))

set_provider_specific_property-HasDistinctNames_example :
    HasDistinctNames
      (set_provider_specific_property
        (codes "alias")
        (codes "false")
        with_properties).provider_specific
set_provider_specific_property-HasDistinctNames_example =
    set_provider_specific_property-HasDistinctNames (codes "alias") (codes "false") with_properties
      (((λ e. cc), tt), (tt, tt))

abbrev repeated : List Endpoint
repeated = sample_current ++ sample_current

remove_duplicates-IsFirstOfEach_example : IsFirstOfEach repeated (remove_duplicates repeated)
remove_duplicates-IsFirstOfEach_example = remove_duplicates-IsFirstOfEach repeated

new_endpoint_with_ttl-HasShortLabels_example :
    (HasShortLabels (codes "a.example.org")
      → (e : Endpoint) × (new_endpoint_with_ttl
            (codes "a.example.org")
            record_type_a
            (pos 0)
            (codes "1.1.1.1" ∷ [])
          ≡ some e))
    × ((e : Endpoint)
        → new_endpoint_with_ttl (codes "a.example.org") record_type_a (pos 0) (codes "1.1.1.1" ∷ [])
          ≡ some e
        → HasShortLabels (codes "a.example.org"))
new_endpoint_with_ttl-HasShortLabels_example =
    new_endpoint_with_ttl-HasShortLabels (codes "a.example.org") record_type_a (pos 0)
      (codes "1.1.1.1" ∷ [])

abbrev sample_filter : DomainFilter
sample_filter = record {
  filters = codes "example.org" ∷ [];
  exclude = codes "private.example.org" ∷ [];
  regex = none;
  regex_exclusion = none;
}

match-IsUnderOne_example : (match (some sample_filter) (codes "a.private.example.org") ≡ true) ↔ (
    ((sample_filter.filters ≡ [])
      ⊎ IsUnderOne (normalize_domain (codes "a.private.example.org")) sample_filter.filters)
    × (IsUnderOne (normalize_domain (codes "a.private.example.org")) sample_filter.exclude → ⊥))
match-IsUnderOne_example = match-IsUnderOne sample_filter (codes "a.private.example.org") refl

refused_name : match (some sample_filter) (codes "a.private.example.org") ≡ false
unfolding match
refused_name = refl
