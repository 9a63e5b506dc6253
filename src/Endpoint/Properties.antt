-- ===== src/Endpoint/Properties.antt =====
-- Provider-specific properties, labels and setters of an endpoint (endpoint/endpoint.go).
use external_dns.Prelude.{
  Bool, Option, Text, [], codes, if◌then◌else◌, insert, int_eq, int_ltb, nat_eq, none, not, pos,
  some, text_eq, ℤ, ◌&&◌, ◌==◌, ◌∷◌,
}
use external_dns.Endpoint.Types.{
  Endpoint, Labels, ObjectReference, ProviderSpecific, is_configured, key_eq, owner_label_key,
  read_label,
}

-- the loop of `GetProviderSpecificProperty`
unfoldable pub get_property : Text → ProviderSpecific → Option Text
get_property k [] = none
get_property k (p ∷ ps) = if p.name == k then some p.value else get_property k ps

-- the loop of `SetProviderSpecificProperty`
unfoldable pub set_property : Text → Text → ProviderSpecific → ProviderSpecific
set_property k v [] = record { name = k; value = v } ∷ []
set_property k v (p ∷ ps) =
    if p.name == k then record { name = k; value = v } ∷ ps else p ∷ set_property k v ps

-- the loop of `DeleteProviderSpecificProperty`: the first property of the name goes
unfoldable pub delete_property : Text → ProviderSpecific → ProviderSpecific
delete_property k [] = []
delete_property k (p ∷ ps) = if p.name == k then ps else p ∷ delete_property k ps

unfoldable pub get_provider_specific_property : Text → Endpoint → Option Text
unfolding get_property
get_provider_specific_property k e = get_property k e.provider_specific

unfoldable pub set_provider_specific_property : Text → Text → Endpoint → Endpoint
unfolding set_property
set_provider_specific_property k v e = record e {
  provider_specific = set_property k v e.provider_specific;
}

unfoldable pub delete_provider_specific_property : Text → Endpoint → Endpoint
unfolding delete_property
delete_provider_specific_property k e = record e {
  provider_specific = delete_property k e.provider_specific;
}

abbrev read_bool : Option Text → Option Bool
read_bool none = none
read_bool (some prop) = some (prop == codes "true")

-- `GetBoolProviderSpecificProperty`: `none` is a property that is not there; any value but "true"
-- is false
unfoldable pub get_bool_provider_specific_property : Text → Endpoint → Option Bool
unfolding get_provider_specific_property
get_bool_provider_specific_property k e = read_bool (get_provider_specific_property k e)

unfoldable pub with_set_identifier : Text → Endpoint → Endpoint
with_set_identifier id e = record e { set_identifier = id }

-- a nil map is replaced by an empty one before the write
abbrev pub write_label : Text → Text → Option Labels → Option Labels
write_label k v none = some (insert k v [])
write_label k v (some labels) = some (insert k v labels)

unfoldable pub with_label : Text → Text → Endpoint → Endpoint
with_label k v e = record e { labels = write_label k v e.labels }

unfoldable pub with_ref_object : Option ObjectReference → Endpoint → Endpoint
with_ref_object obj e = record e { ref_object = obj }

unfoldable pub with_min_ttl : ℤ → Endpoint → Endpoint
with_min_ttl ttl e =
    if not (is_configured e.record_ttl) && int_ltb (pos 0) ttl
    then record e { record_ttl = ttl }
    else e

abbrev owner_or : Option Text → Text → Text
owner_or none id = id
owner_or (some owner) id = owner

unfoldable pub get_owner : Endpoint → Text
get_owner e = owner_or (read_label owner_label_key e.labels) e.set_identifier
