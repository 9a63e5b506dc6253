-- ===== src/Registry/Apply.antt =====
-- `TXTRegistry.ApplyChanges` of registry/txt/registry.go: the changes that the provider is handed.
use external_dns.Prelude.{
  Bool, List, Option, [], if◌then◌else◌, int_eq, ltb, nat_eq, none, some, text_eq, ◌&&◌, ◌++◌, ◌==◌,
  ◌∷◌,
}
use external_dns.Endpoint.Labels.{Cipher}
use external_dns.Endpoint.Net.{Net}
use external_dns.Endpoint.Owner.{filter_endpoints_by_owner_id}
use external_dns.Endpoint.Properties.{write_label}
use external_dns.Endpoint.Targets.{same}
use external_dns.Endpoint.Types.{Endpoint, owner_label_key}
use external_dns.Plan.Types.{Changes}
use external_dns.Registry.Generate.{generate_txt_record, generate_txt_record_with_filter}
use external_dns.Registry.Txt.{TxtRegistry, is_absent}

unfoldable pub add_to_cache : Endpoint → Option (List Endpoint) → Option (List Endpoint)
add_to_cache ep none = none
add_to_cache ep (some eps) = some (eps ++ ep ∷ [])

-- the state of a loop: the registry, the endpoints of the changes so far, the TXT records for them
pub record Applying : Type 0 where
  pub registry : TxtRegistry
  pub endpoints : List Endpoint
  pub txts : List Endpoint

module _ ⦃net : Net⦄ where
  -- the loop of `removeFromCache`: `Same` sorts the targets of the entry and of the endpoint
  unfoldable pub remove_entry : Endpoint → List Endpoint → Endpoint × List Endpoint
  unfolding same
  remove_entry ep [] = (ep, [])
  remove_entry ep (e ∷ es) =
      let next = remove_entry ep es in
      if e.dns_name == ep.dns_name
        && (e.record_type == ep.record_type && e.set_identifier == ep.set_identifier)
      then (let (b, ets, pts) = same e.targets ep.targets in
          let ep' = record ep { targets = pts } in
          let after = remove_entry ep' es in
          if b then (ep', es) else (after.0, record e { targets = ets } ∷ after.1))
      else (next.0, e ∷ next.1)

  unfoldable pub remove_from_cache :
      Endpoint → Option (List Endpoint) → Endpoint × Option (List Endpoint)
  unfolding remove_entry
  remove_from_cache ep none = (ep, none)
  remove_from_cache ep (some eps) = let (ep', eps') = remove_entry ep eps in (ep', some eps')

abbrev pub with_cache : TxtRegistry → Option (List Endpoint) → TxtRegistry
with_cache im cache = record im { records_cache = cache }

-- what a loop does when the TXT records of an endpoint are there
abbrev pub cache_if : Bool → TxtRegistry → Option (List Endpoint) → TxtRegistry
cache_if caching im cache = if caching then with_cache im cache else im

abbrev pub uses_cache : TxtRegistry → Bool
uses_cache im = ltb 0 im.cache_interval

unfoldable pub add_step : Applying → Option (Endpoint × List Endpoint) → Option Applying
unfolding add_to_cache
add_step s none = none
add_step s (some (r, txts)) = some (record {
  registry = cache_if (uses_cache s.registry) s.registry (add_to_cache r s.registry.records_cache);
  endpoints = s.endpoints ++ r ∷ [];
  txts = s.txts ++ txts;
})

-- `r.Labels[OwnerLabelKey] = im.ownerID`
unfoldable pub claim : TxtRegistry → Endpoint → Endpoint
claim im r = record r { labels = write_label owner_label_key im.owner_id r.labels }

-- the loop over `Create`
unfoldable pub apply_creates : Cipher → Applying → List Endpoint → Option Applying
unfolding claim generate_txt_record_with_filter add_step
apply_creates cipher s [] = some s
apply_creates cipher s (r ∷ rs) =
    elim (add_step s (
      generate_txt_record_with_filter cipher s.registry (is_absent s.registry.existing_txts)
        (claim s.registry r))) [ none ↦ none | some s' ↦ apply_creates cipher s' rs ]

-- the loop over `UpdateNew`
unfoldable pub apply_updates_new : Cipher → Applying → List Endpoint → Option Applying
unfolding generate_txt_record add_step
apply_updates_new cipher s [] = some s
apply_updates_new cipher s (r ∷ rs) = elim (add_step s (generate_txt_record cipher s.registry r)) [
  | none ↦ none
  | some s' ↦ apply_updates_new cipher s' rs
]

module _ ⦃net : Net⦄ where
  unfoldable pub remove_step : Applying → Option (Endpoint × List Endpoint) → Option Applying
  unfolding remove_from_cache
  remove_step s none = none
  remove_step s (some (r, txts)) =
      let removed = remove_from_cache r s.registry.records_cache in
      some (record {
        registry = cache_if (uses_cache s.registry) s.registry removed.1;
        endpoints = s.endpoints ++ (if uses_cache s.registry then removed.0 else r) ∷ [];
        txts = s.txts ++ txts;
      })

  -- the loops over `Delete` and `UpdateOld`, which do the same
  unfoldable pub apply_removals : Cipher → Applying → List Endpoint → Option Applying
  unfolding generate_txt_record remove_step
  apply_removals cipher s [] = some s
  apply_removals cipher s (r ∷ rs) =
      elim (remove_step s (generate_txt_record cipher s.registry r)) [
        | none ↦ none
        | some s' ↦ apply_removals cipher s' rs
      ]

abbrev pub begin : TxtRegistry → Applying
begin im = record { registry = im; endpoints = []; txts = [] }

-- a loop appends its TXT records behind the endpoints that it ranges over
abbrev pub all_records : Applying → List Endpoint
all_records s = s.endpoints ++ s.txts

abbrev pub option_bind {ℓ κ} : {A : Type ℓ} {B : Type κ} → Option A → (A → Option B) → Option B
option_bind none f = none
option_bind (some a) f = f a

-- `ApplyChanges`: the changes that the provider is handed, and the registry afterwards; `none` is
-- the fatal end of the process
unfoldable pub apply_changes :
    ⦃net : Net⦄ → Cipher → TxtRegistry → Changes → Option (Changes × TxtRegistry)
unfolding apply_creates apply_removals apply_updates_new filter_endpoints_by_owner_id
apply_changes cipher im c = option_bind (apply_creates cipher (begin im) c.create) λ created.
    option_bind
      (apply_removals cipher (begin created.registry)
        (filter_endpoints_by_owner_id im.owner_id c.delete))
      λ deleted.
        option_bind
          (apply_removals cipher (begin deleted.registry)
            (filter_endpoints_by_owner_id im.owner_id c.update_old))
          λ old.
            option_bind
              (apply_updates_new cipher (begin old.registry)
                (filter_endpoints_by_owner_id im.owner_id c.update_new))
              λ new. some (
                record {
                  create = all_records created;
                  update_old = all_records old;
                  update_new = all_records new;
                  delete = all_records deleted;
                },
                new.registry,
              )
