-- ===== src/Registry/ApplyLaws.antt =====
-- What `TXTRegistry.ApplyChanges` of registry/txt/registry.go hands to the provider.
use mathlib.Core.Path.{subst}
use external_dns.Prelude.{
  All, All-append, Bool, List, Option, Text, [], false, if-both, int_eq, nat_eq, none, refl, some,
  sym, text_eq, true, ◌&&◌, ◌==◌, ◌∙◌, ◌∷◌, ◌≡◌,
}
use external_dns.Endpoint.Labels.{Cipher}
use external_dns.Endpoint.Net.{Net}
use external_dns.Endpoint.Owner.{is_owned_by}
use external_dns.Endpoint.OwnerLaws.{IsOwned, filter_endpoints-IsOwned}
use external_dns.Endpoint.Targets.{same}
use external_dns.Endpoint.Types.{Endpoint}
use external_dns.Plan.Types.{Changes}
use external_dns.Registry.Apply.{
  Applying, add_step, apply_changes, apply_creates, apply_removals, apply_updates_new, begin,
  cache_if, claim, option_bind, remove_entry, remove_from_cache, remove_step, uses_cache,
}
use external_dns.Registry.Generate.{generate_txt_record, generate_txt_record_with_filter}
use external_dns.Registry.GenerateLaws.{
  IsOwnedOrTxt, Whenever, generate_txt_record-IsOwned, written-IsOwned,
}
use external_dns.Registry.Txt.{TxtRegistry}

-- The state of a loop that has kept the owner and met only owned endpoints and TXT records.
pub record Kept (owner_id : Text) (s : Applying) : Type 0 where
  pub owner : s.registry.owner_id ≡ owner_id
  pub endpoints : All (IsOwnedOrTxt owner_id) s.endpoints
  pub txts : All (IsOwnedOrTxt owner_id) s.txts

-- The endpoint and its TXT records are owned or TXT records.
abbrev pub Generated : Text → Endpoint × List Endpoint → Type 0
Generated owner_id g = IsOwnedOrTxt owner_id g.0 × All (IsOwnedOrTxt owner_id) g.1

cache_if-owner :
    (b : Bool) (im : TxtRegistry) (cache : Option (List Endpoint))
    → (cache_if b im cache).owner_id ≡ im.owner_id
cache_if-owner true im cache = refl
cache_if-owner false im cache = refl

add_step-Kept :
    (owner_id : Text) (s : Applying) (o : Option (Endpoint × List Endpoint))
    → Kept owner_id s
    → Whenever (Generated owner_id) o
    → Whenever (Kept owner_id) (add_step s o)
unfolding add_step
add_step-Kept owner_id s none k g = tt
add_step-Kept owner_id s (some (r, txts)) k (own, new) = record {
  owner = cache_if-owner _ s.registry _ ∙ k.owner;
  endpoints = All-append _ s.endpoints (r ∷ []) k.endpoints (own, tt);
  txts = All-append _ s.txts txts k.txts new;
}

next_step-Kept :
    (owner_id : Text) (o : Option Applying) (f : Applying → Option Applying)
    → ((s : Applying) → Kept owner_id s → Whenever (Kept owner_id) (f s))
    → Whenever (Kept owner_id) o
    → Whenever (Kept owner_id) (elim o [ none ↦ none | some s ↦ f s ])
next_step-Kept owner_id none f h k = tt
next_step-Kept owner_id (some s) f h k = h s k

generate-Kept :
    (cipher : Cipher) (owner_id : Text) (s : Applying) (accept : Endpoint → Bool) (r : Endpoint)
    → Kept owner_id s
    → IsOwned owner_id r
    → Whenever (Generated owner_id) (generate_txt_record_with_filter cipher s.registry accept r)
generate-Kept cipher owner_id s accept r k own =
    subst (λ i. Whenever (Generated i) (generate_txt_record_with_filter cipher s.registry accept r))
      k.owner
      (generate_txt_record-IsOwned cipher s.registry accept r
        (subst (λ i. IsOwned i r) (sym k.owner) own))

claim-IsOwned :
    (owner_id : Text) (s : Applying) (r : Endpoint)
    → Kept owner_id s
    → IsOwned owner_id (claim s.registry r)
unfolding claim
claim-IsOwned owner_id s r k =
    subst (λ i. IsOwned i (claim s.registry r)) k.owner (written-IsOwned s.registry.owner_id r)

apply_creates-Kept :
    (cipher : Cipher) (owner_id : Text) (rs : List Endpoint) (s : Applying)
    → Kept owner_id s
    → Whenever (Kept owner_id) (apply_creates cipher s rs)
unfolding apply_creates
apply_creates-Kept cipher owner_id [] s k = k
apply_creates-Kept cipher owner_id (r ∷ rs) s k =
    next_step-Kept owner_id _ _ (λ s' k'. apply_creates-Kept cipher owner_id rs s' k')
      (add_step-Kept owner_id s _ k
        (generate-Kept cipher owner_id s _ (claim s.registry r) k (claim-IsOwned owner_id s r k)))

apply_updates_new-Kept :
    (cipher : Cipher) (owner_id : Text) (rs : List Endpoint) (s : Applying)
    → All (IsOwned owner_id) rs
    → Kept owner_id s
    → Whenever (Kept owner_id) (apply_updates_new cipher s rs)
unfolding apply_updates_new generate_txt_record
apply_updates_new-Kept cipher owner_id [] s h k = k
apply_updates_new-Kept cipher owner_id (r ∷ rs) s (own, h) k =
    next_step-Kept owner_id _ _ (λ s' k'. apply_updates_new-Kept cipher owner_id rs s' h k')
      (add_step-Kept owner_id s _ k (generate-Kept cipher owner_id s (λ ep. true) r k own))

module _ ⦃net : Net⦄ where
  remove_entry-IsOwnedOrTxt :
      (owner_id : Text) (es : List Endpoint) (r : Endpoint)
      → IsOwnedOrTxt owner_id r
      → IsOwnedOrTxt owner_id (remove_entry r es).0
  unfolding remove_entry is_owned_by
  remove_entry-IsOwnedOrTxt owner_id [] r h = h
  remove_entry-IsOwnedOrTxt owner_id (e ∷ es) r h =
      let pts = (same e.targets r.targets).2 in
      let P = λ (p : Endpoint × List Endpoint). IsOwnedOrTxt owner_id p.0 in
      if-both P
        (e.dns_name == r.dns_name
          && (e.record_type == r.record_type && e.set_identifier == r.set_identifier))
        _ (_, e ∷ (remove_entry r es).1)
        (if-both P (same e.targets r.targets).0 (_, es) _ h
          (remove_entry-IsOwnedOrTxt owner_id es (record r { targets = pts }) h))
        (remove_entry-IsOwnedOrTxt owner_id es r h)

  remove_from_cache-IsOwnedOrTxt :
      (owner_id : Text) (r : Endpoint) (cache : Option (List Endpoint))
      → IsOwnedOrTxt owner_id r
      → IsOwnedOrTxt owner_id (remove_from_cache r cache).0
  unfolding remove_from_cache
  remove_from_cache-IsOwnedOrTxt owner_id r none h = h
  remove_from_cache-IsOwnedOrTxt owner_id r (some es) h = remove_entry-IsOwnedOrTxt owner_id es r h

  remove_step-Kept :
      (owner_id : Text) (s : Applying) (o : Option (Endpoint × List Endpoint))
      → Kept owner_id s
      → Whenever (Generated owner_id) o
      → Whenever (Kept owner_id) (remove_step s o)
  unfolding remove_step
  remove_step-Kept owner_id s none k g = tt
  remove_step-Kept owner_id s (some (r, txts)) k (own, new) = record {
    owner = cache_if-owner _ s.registry _ ∙ k.owner;
    endpoints = All-append _ s.endpoints (_ ∷ []) k.endpoints (
      if-both (IsOwnedOrTxt owner_id) (uses_cache s.registry) _ r
          (remove_from_cache-IsOwnedOrTxt owner_id r s.registry.records_cache own) own,
      tt,
    );
    txts = All-append _ s.txts txts k.txts new;
  }

  apply_removals-Kept :
      (cipher : Cipher) (owner_id : Text) (rs : List Endpoint) (s : Applying)
      → All (IsOwned owner_id) rs
      → Kept owner_id s
      → Whenever (Kept owner_id) (apply_removals cipher s rs)
  unfolding apply_removals generate_txt_record
  apply_removals-Kept cipher owner_id [] s h k = k
  apply_removals-Kept cipher owner_id (r ∷ rs) s (own, h) k =
      next_step-Kept owner_id _ _ (λ s' k'. apply_removals-Kept cipher owner_id rs s' h k')
        (remove_step-Kept owner_id s _ k (generate-Kept cipher owner_id s (λ ep. true) r k own))

begin-Kept :
    (owner_id : Text) (im : TxtRegistry) → im.owner_id ≡ owner_id → Kept owner_id (begin im)
begin-Kept owner_id im e = record { owner = e; endpoints = tt; txts = tt }

pub Whenever-bind :
    {A B : Type 0} (P : A → Type 0) (Q : B → Type 0) (f : A → Option B) (o : Option A)
    → ((x : A) → P x → Whenever Q (f x))
    → Whenever P o
    → Whenever Q (option_bind o f)
Whenever-bind P Q f none h k = tt
Whenever-bind P Q f (some x) h k = h x k

-- Every record of the changes is owned or a TXT record.
pub record Handed (owner_id : Text) (c : Changes) : Type 0 where
  pub create : All (IsOwnedOrTxt owner_id) c.create
  pub update_old : All (IsOwnedOrTxt owner_id) c.update_old
  pub update_new : All (IsOwnedOrTxt owner_id) c.update_new
  pub delete : All (IsOwnedOrTxt owner_id) c.delete

-- Every record that the TXT registry hands to the provider, to be created, updated or deleted,
-- carries the owner label of the registry or is a TXT record.
pub apply_changes-Handed :
    ⦃net : Net⦄ (cipher : Cipher) (im : TxtRegistry) (c : Changes)
    → Whenever (λ r. Handed im.owner_id r.0) (apply_changes cipher im c)
unfolding apply_changes
apply_changes-Handed cipher im c =
    let id = im.owner_id in
    let all = λ (s : Applying) (k : Kept id s).
      All-append (IsOwnedOrTxt id) s.endpoints s.txts k.endpoints k.txts in
    Whenever-bind (Kept id) _ _ _
      (λ created kc.
        Whenever-bind (Kept id) _ _ _
          (λ deleted kd.
            Whenever-bind (Kept id) _ _ _
              (λ old ko.
                Whenever-bind (Kept id) _ _ _
                  (λ new kn. record {
                    create = all created kc;
                    update_old = all old ko;
                    update_new = all new kn;
                    delete = all deleted kd;
                  })
                  (apply_updates_new-Kept cipher id _ _ (filter_endpoints-IsOwned id c.update_new)
                    (begin-Kept id old.registry ko.owner)))
              (apply_removals-Kept cipher id _ _ (filter_endpoints-IsOwned id c.update_old)
                (begin-Kept id deleted.registry kd.owner)))
          (apply_removals-Kept cipher id _ _ (filter_endpoints-IsOwned id c.delete)
            (begin-Kept id created.registry kc.owner)))
      (apply_creates-Kept cipher id c.create (begin im) (begin-Kept id im refl))
