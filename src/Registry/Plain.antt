-- ===== src/Registry/Plain.antt =====
-- registry/awssd/registry.go, registry/noop/registry.go and the choice of a registry in
-- registry/registry.go.
use external_dns.Prelude.{
  List, Option, Text, [], codes, false, if◌then◌else◌, insert, int_eq, is_nil, nat_eq, none, some,
  text_eq, ◌==◌, ◌∷◌,
}
use external_dns.Endpoint.Labels.{new_labels_from_string_plain, serialize_plain}
use external_dns.Endpoint.Owner.{filter_endpoints_by_owner_id}
use external_dns.Endpoint.Types.{Endpoint, or_empty, owner_label_key, read_label}
use external_dns.Plan.Types.{Changes}
use external_dns.Registry.Generate.{labels_or_nil}

abbrev pub awssd_description_label : Text
awssd_description_label = codes "aws-sd-description"

-- `NewAWSSDRegistry`: the owner, or an error
unfoldable pub new_awssd_registry : Text → Option Text
new_awssd_registry owner_id = if is_nil owner_id then none else some owner_id

-- the body of the loop of `Records`: a description that is not ours leaves no labels
unfoldable pub describe_record : Endpoint → Endpoint
unfolding new_labels_from_string_plain
describe_record r = record r {
  labels = some (
      labels_or_nil
        (new_labels_from_string_plain (or_empty (read_label awssd_description_label r.labels))));
}

unfoldable pub describe_all : List Endpoint → List Endpoint
unfolding describe_record
describe_all [] = []
describe_all (r ∷ rs) = describe_record r ∷ describe_all rs

-- `AWSSDRegistry.Records`: `none` is the provider's error
unfoldable pub awssd_records : Option (List Endpoint) → Option (List Endpoint)
unfolding describe_all
awssd_records none = none
awssd_records (some rs) = some (describe_all rs)

-- the body of the loop of `updateLabels`
unfoldable pub update_label : Text → Endpoint → Endpoint
unfolding serialize_plain insert
update_label owner_id ep =
    let labels = insert owner_label_key owner_id (labels_or_nil ep.labels) in
    record ep {
      labels = some (insert awssd_description_label (serialize_plain labels false) labels);
    }

unfoldable pub update_labels : Text → List Endpoint → List Endpoint
unfolding update_label
update_labels owner_id [] = []
update_labels owner_id (ep ∷ eps) = update_label owner_id ep ∷ update_labels owner_id eps

-- `AWSSDRegistry.ApplyChanges`: the changes that the provider is handed
unfoldable pub awssd_apply_changes : Text → Changes → Changes
unfolding update_labels filter_endpoints_by_owner_id
awssd_apply_changes owner_id c = record {
  create = update_labels owner_id c.create;
  update_old = update_labels owner_id (filter_endpoints_by_owner_id owner_id c.update_old);
  update_new = update_labels owner_id (filter_endpoints_by_owner_id owner_id c.update_new);
  delete = update_labels owner_id (filter_endpoints_by_owner_id owner_id c.delete);
}

-- `NoopRegistry.ApplyChanges`: the provider is handed the changes as they are
abbrev pub noop_apply_changes : Changes → Changes
noop_apply_changes c = c

pub data RegistryKind : Type 0 where
  dynamodb_kind noop_kind txt_kind awssd_kind : RegistryKind

-- the switch of `SelectRegistry`; `none` is an unknown registry
unfoldable pub select_kind : Text → Option RegistryKind
select_kind name =
    if name == codes "dynamodb"
    then some dynamodb_kind
    else if name == codes "noop"
    then some noop_kind
    else if name == codes "txt"
    then some txt_kind
    else if name == codes "aws-sd"
    then some awssd_kind
    else none
