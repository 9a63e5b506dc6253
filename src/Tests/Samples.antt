-- ===== src/Tests/Samples.antt =====
-- The inputs of the tests.
use external_dns.Prelude.{
  List, Option, Text, [], codes, false, has_suffix, int_eq, nat_eq, none, pos, same_refl, some,
  text_eq, to_lower, true, ◌==◌, ◌∷◌,
}
use external_dns.Endpoint.Net.{Net}
use external_dns.Endpoint.Types.{
  Endpoint, Labels, owner_label_key, record_type_a, record_type_cname,
}
use external_dns.Plan.Calculate.{Plan}
use external_dns.Plan.Policy.{Policy}
use external_dns.Plan.Types.{Changes, Ranges}

-- names are ASCII here, and no target is an address
instance abbrev pub sample_net : Net
sample_net = record {
  Addr = Unit {0};
  parse_addr = λ s. none;
  addr_string = λ u. [];
  addr_less = λ u v. false;
  equal_fold = λ s t. s == t;
  equal_fold_refl = λ s. same_refl s;
  to_ascii = λ s. to_lower s;
  to_unicode = λ s. (s, true);
}

-- the maps in the order of their entries
abbrev pub in_order : Ranges
in_order = record {
  rows = λ t. t;
  records = λ m. m;
  rows-All = λ P t h. h;
  records-All = λ P m h. h;
}

abbrev pub me : Text
me = codes "me"

abbrev pub record_of : Text → Text → Option Labels → Endpoint
record_of name target labels = record {
  dns_name = name;
  targets = target ∷ [];
  record_type = record_type_a;
  set_identifier = [];
  record_ttl = pos 0;
  labels = labels;
  provider_specific = [];
  ref_object = none;
}

abbrev pub owned : Text → Option Labels
owned owner = some ((owner_label_key, owner) ∷ [])

-- mine and changed, mine and gone, another's and gone
abbrev pub sample_current : List Endpoint
sample_current =
    record_of (codes "a.example.org") (codes "1.1.1.1") (owned me)
    ∷ record_of (codes "b.example.org") (codes "2.2.2.2") (owned me)
    ∷ record_of (codes "c.example.org") (codes "3.3.3.3") (owned (codes "you"))
    ∷ []

-- changed, new, another's
abbrev pub sample_desired : List Endpoint
sample_desired =
    record_of (codes "a.example.org") (codes "9.9.9.9") (some [])
    ∷ record_of (codes "d.example.org") (codes "4.4.4.4") (some [])
    ∷ record_of (codes "c.example.org") (codes "5.5.5.5") (some [])
    ∷ []

abbrev pub sample_plan : List Policy → Plan
sample_plan policies = record {
  current = sample_current;
  desired = sample_desired;
  policies = policies;
  changes = none;
  domain_filter = some (λ s. has_suffix s (codes "example.org")) ∷ [];
  managed_records = record_type_a ∷ record_type_cname ∷ [];
  exclude_records = [];
  owner_id = me;
  old_owner_id = [];
}

-- create d, update a, delete b
abbrev pub sample_changes : Changes
sample_changes = record {
  create = record_of (codes "d.example.org") (codes "4.4.4.4") (some []) ∷ [];
  update_old = record_of (codes "a.example.org") (codes "1.1.1.1") (owned me) ∷ [];
  update_new = record_of (codes "a.example.org") (codes "9.9.9.9") (owned me) ∷ [];
  delete = record_of (codes "b.example.org") (codes "2.2.2.2") (owned me) ∷ [];
}
