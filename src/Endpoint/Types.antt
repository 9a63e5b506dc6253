-- ===== src/Endpoint/Types.antt =====
-- The data of endpoint/endpoint.go and endpoint/labels.go: record types, endpoints and keys.
use external_dns.Prelude.{
  Bool, Comparable, List, Map, Option, Text, [], arith, codes, int_beq_iff, int_eq, int_ltb, lookup,
  nat_eq, none, pos, some, text_beq_iff, text_eq, true, ℤ, ◌&&◌, ◌==◌, ◌↔◌, ◌≡◌,
}

abbrev pub record_type_a : Text
record_type_a = codes "A"

abbrev pub record_type_aaaa : Text
record_type_aaaa = codes "AAAA"

abbrev pub record_type_cname : Text
record_type_cname = codes "CNAME"

abbrev pub record_type_txt : Text
record_type_txt = codes "TXT"

abbrev pub record_type_srv : Text
record_type_srv = codes "SRV"

abbrev pub record_type_ns : Text
record_type_ns = codes "NS"

abbrev pub record_type_ptr : Text
record_type_ptr = codes "PTR"

abbrev pub record_type_mx : Text
record_type_mx = codes "MX"

abbrev pub record_type_naptr : Text
record_type_naptr = codes "NAPTR"

abbrev pub owner_label_key : Text
owner_label_key = codes "owner"

abbrev pub resource_label_key : Text
resource_label_key = codes "resource"

abbrev pub owned_record_label_key : Text
owned_record_label_key = codes "ownedRecord"

-- `type TTL int64`
abbrev pub Ttl : Type 0
Ttl = ℤ

-- `TTL.IsConfigured`
abbrev pub is_configured : Ttl → Bool
is_configured ttl = int_ltb (pos 0) ttl

abbrev pub Targets : Type 0
Targets = List Text

pub record ProviderSpecificProperty : Type 0 where
  pub name : Text
  pub value : Text

abbrev pub ProviderSpecific : Type 0
ProviderSpecific = List ProviderSpecificProperty

-- `type Labels map[string]string`; the nil map is `none` where an endpoint holds one.
abbrev pub Labels : Type 0
Labels = Map Text Text

pub record ObjectReference : Type 0 where
  pub kind : Text
  pub api_version : Text
  pub namespace : Text
  pub name : Text
  pub uid : Text
  pub source : Text

pub record Endpoint : Type 0 where
  pub dns_name : Text
  pub targets : Targets
  pub record_type : Text
  pub set_identifier : Text
  pub record_ttl : Ttl
  pub labels : Option Labels
  pub provider_specific : ProviderSpecific
  pub ref_object : Option ObjectReference

pub record EndpointKey : Type 0 where
  pub dns_name : Text
  pub record_type : Text
  pub set_identifier : Text
  pub record_ttl : Ttl

abbrev pub key_beq : EndpointKey → EndpointKey → Bool
key_beq k j =
    k.dns_name == j.dns_name
    && (k.record_type == j.record_type
        && (k.set_identifier == j.set_identifier && k.record_ttl == j.record_ttl))

pub key_beq_iff : (k j : EndpointKey) → (key_beq k j ≡ true) ↔ (k ≡ j)
key_beq_iff k j = ground (
  arith,
  text_beq_iff k.dns_name j.dns_name,
  text_beq_iff k.record_type j.record_type,
  text_beq_iff k.set_identifier j.set_identifier,
  int_beq_iff k.record_ttl j.record_ttl,
)

instance abbrev pub key_eq : Comparable EndpointKey
key_eq = record { equals = key_beq; equals_iff = key_beq_iff }

-- `Endpoint.Key`: the TTL stays at its zero value
abbrev pub key : Endpoint → EndpointKey
key e = record {
  dns_name = e.dns_name;
  record_type = e.record_type;
  set_identifier = e.set_identifier;
  record_ttl = pos 0;
}

-- `e.Labels[k]` with its second result: a read of the nil map finds nothing
abbrev pub read_label : Text → Option Labels → Option Text
read_label k none = none
read_label k (some labels) = lookup k labels

-- `e.Labels[k]` with one result: a missing label reads as the empty text
abbrev pub or_empty : Option Text → Text
or_empty none = []
or_empty (some v) = v
