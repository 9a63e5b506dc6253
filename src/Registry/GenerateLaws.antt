-- ===== src/Registry/GenerateLaws.antt =====
-- The owner of what `generateTXTRecordWithFilter` of registry/txt/registry.go leaves and adds.
use mathlib.Core.Path.{subst}
use external_dns.Prelude.{
  All, Bool, List, Option, Text, [], any, false, if-both, inl, inr, int_eq, is_nil, lookup,
  lookup-insert, lookup-insert_self, nat_eq, none, not, refl, same_refl, some, split, sym, text_beq,
  text_eq, true, ◌&&◌, ◌==◌, ◌∙◌, ◌∷◌, ◌≡◌, ◌⊎◌,
}
use external_dns.Endpoint.Create.{is_long_label, new_endpoint, new_endpoint_with_ttl}
use external_dns.Endpoint.Labels.{
  Cipher, as_sealed, ensure_nonce, seal, serialize, serialize_plain, txt_encryption_nonce,
  with_known_nonce, with_new_nonce,
}
use external_dns.Endpoint.Owner.{is_owned_by, owner_is}
use external_dns.Endpoint.OwnerLaws.{IsOwned}
use external_dns.Endpoint.Properties.{write_label}
use external_dns.Endpoint.Types.{
  Endpoint, Labels, or_empty, owner_label_key, read_label, record_type_txt,
}
use external_dns.Registry.Generate.{
  beside, filtered, generate_txt_record_with_filter, generated, labels_or_nil, migrate_owner,
  txt_record,
}
use external_dns.Registry.Txt.{TxtRegistry}

-- What the result is, if there is one, has `P`.
abbrev pub Whenever : {A : Type 0} → (A → Type 0) → Option A → Type 0
Whenever P none = Unit
Whenever P (some x) = P x

-- The labels have the same owner.
abbrev pub SameOwner : Labels → Labels → Type 0
SameOwner m l = lookup owner_label_key l ≡ lookup owner_label_key m

new_nonce-SameOwner :
    (m : Labels) (o : Option Text) → Whenever (λ r. SameOwner m r.1) (with_new_nonce m o)
unfolding lookup text_beq
new_nonce-SameOwner m none = tt
new_nonce-SameOwner m (some nonce) = lookup-insert txt_encryption_nonce owner_label_key nonce m

ensure_nonce-SameOwner :
    (cipher : Cipher) (m : Labels) (o : Option Text)
    → Whenever (λ r. SameOwner m r.1) (with_known_nonce cipher m o)
ensure_nonce-SameOwner cipher m none = new_nonce-SameOwner m cipher.generate_nonce
ensure_nonce-SameOwner cipher m (some nonce) = refl

as_sealed-SameOwner :
    (quoted : Bool) (m l : Labels) (o : Option Text)
    → SameOwner m l
    → Whenever (λ r. SameOwner m r.1) (as_sealed quoted l o)
as_sealed-SameOwner quoted m l none h = tt
as_sealed-SameOwner quoted m l (some sealed) h = h

seal-SameOwner :
    (cipher : Cipher) (quoted : Bool) (aes_key : Text) (m : Labels) (o : Option (Text × Labels))
    → Whenever (λ r. SameOwner m r.1) o
    → Whenever (λ r. SameOwner m r.1) (seal cipher quoted aes_key o)
seal-SameOwner cipher quoted aes_key m none h = tt
seal-SameOwner cipher quoted aes_key m (some (nonce, l)) h =
    as_sealed-SameOwner quoted m l (cipher.encrypt_text (serialize_plain l false) aes_key nonce) h

serialize-SameOwner :
    (cipher : Cipher) (m : Labels) (quoted encrypt : Bool) (aes_key : Text)
    → Whenever (λ r. SameOwner m r.1) (serialize cipher m quoted encrypt aes_key)
unfolding serialize ensure_nonce
serialize-SameOwner cipher m quoted false aes_key = refl
serialize-SameOwner cipher m quoted true aes_key =
    seal-SameOwner cipher quoted aes_key m (ensure_nonce cipher m)
      (ensure_nonce-SameOwner cipher m (lookup txt_encryption_nonce m))

-- The endpoint carries the owner's label, or it is a TXT record.
abbrev pub IsOwnedOrTxt : Text → Endpoint → Type 0
IsOwnedOrTxt owner_id e = IsOwned owner_id e ⊎ (e.record_type ≡ record_type_txt)

new_endpoint-IsTxt :
    (name : Text) (targets : List Text)
    → Whenever (λ e. e.record_type ≡ record_type_txt) (new_endpoint name record_type_txt targets)
unfolding new_endpoint new_endpoint_with_ttl
new_endpoint-IsTxt name targets =
    if-both (Whenever (λ e. e.record_type ≡ record_type_txt)) (any is_long_label (split name b'.'))
      none (some _) tt refl

beside-IsTxt :
    (owner_id : Text) (r : Endpoint) (accept : Endpoint → Bool) (o : Option Endpoint)
    → Whenever (λ e. e.record_type ≡ record_type_txt) o
    → All (IsOwnedOrTxt owner_id) (filtered accept (beside r o))
beside-IsTxt owner_id r accept none h = tt
beside-IsTxt owner_id r accept (some txt) h =
    if-both (All (IsOwnedOrTxt owner_id)) (accept _) _ [] (inr h, tt) tt

read-write :
    (owner_id : Text) (o : Option Labels)
    → read_label owner_label_key (write_label owner_label_key owner_id o) ≡ some owner_id
read-write owner_id none = lookup-insert_self owner_label_key owner_id []
read-write owner_id (some m) = lookup-insert_self owner_label_key owner_id m

-- An endpoint whose owner label is written is owned.
pub written-IsOwned :
    (owner_id : Text) (r : Endpoint)
    → IsOwned owner_id (record r { labels = write_label owner_label_key owner_id r.labels })
unfolding is_owned_by
written-IsOwned owner_id r =
    subst (λ o. owner_is owner_id o ≡ true) (sym (read-write owner_id r.labels))
      (same_refl owner_id)

migrate_owner-IsOwned :
    (im : TxtRegistry) (r : Endpoint)
    → IsOwned im.owner_id r
    → IsOwned im.owner_id (migrate_owner im r)
unfolding migrate_owner
migrate_owner-IsOwned im r h =
    if-both (IsOwned im.owner_id)
      (not (is_nil im.old_owner_id)
        && or_empty (read_label owner_label_key r.labels) == im.old_owner_id)
      _ r (written-IsOwned im.owner_id r) h

lookup-labels :
    (o : Option Labels) → lookup owner_label_key (labels_or_nil o) ≡ read_label owner_label_key o
unfolding lookup
lookup-labels none = refl
lookup-labels (some m) = refl

generated-IsOwned :
    (im : TxtRegistry) (accept : Endpoint → Bool) (r : Endpoint) (o : Option (Text × Labels))
    → IsOwned im.owner_id r
    → Whenever (λ g. SameOwner (labels_or_nil r.labels) g.1) o
    → Whenever
        (λ g. IsOwnedOrTxt im.owner_id g.0 × All (IsOwnedOrTxt im.owner_id) g.1)
        (generated im accept r o)
unfolding generated txt_record is_owned_by
generated-IsOwned im accept r none h same_owner = tt
generated-IsOwned im accept r (some (text, l)) h same_owner = (
  inl (subst (λ o. owner_is im.owner_id o ≡ true) (sym (same_owner ∙ lookup-labels r.labels)) h),
  beside-IsTxt im.owner_id r accept _ (new_endpoint-IsTxt _ (text ∷ [])),
)

-- An owned endpoint stays owned, and what comes with it is TXT records.
pub generate_txt_record-IsOwned :
    (cipher : Cipher) (im : TxtRegistry) (accept : Endpoint → Bool) (r : Endpoint)
    → IsOwned im.owner_id r
    → Whenever
        (λ g. IsOwnedOrTxt im.owner_id g.0 × All (IsOwnedOrTxt im.owner_id) g.1)
        (generate_txt_record_with_filter cipher im accept r)
unfolding generate_txt_record_with_filter
generate_txt_record-IsOwned cipher im accept r h =
    generated-IsOwned im accept (migrate_owner im r) _ (migrate_owner-IsOwned im r h)
      (serialize-SameOwner cipher _ true im.txt_encrypt_enabled im.txt_encrypt_aes_key)
