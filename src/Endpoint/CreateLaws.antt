-- ===== src/Endpoint/CreateLaws.antt =====
-- The endpoints that `NewEndpointWithTTL` of endpoint/endpoint.go returns.
use external_dns.Prelude.{
  All, Bool, List, Text, [], any, arith, false, if◌then◌else◌, length, none, refl, some, split,
  true, ◌∷◌, ◌≡◌, ◌≤◌,
}
use external_dns.Endpoint.Create.{is_long_label, new_endpoint_with_ttl}
use external_dns.Endpoint.Types.{Endpoint, Targets, Ttl}

-- Every label of the name has at most 63 bytes.
abbrev pub HasShortLabels : Text → Type 0
HasShortLabels name = All (λ label. length label ≤ 63) (split name b'.')

short_labels : (ls : List Text) → any is_long_label ls ≡ false → All (λ label. length label ≤ 63) ls
unfolding any
short_labels [] h = tt
short_labels (l ∷ ls) h = (ground arith, short_labels ls (ground arith))

pub no_long_label :
    (ls : List Text) → All (λ label. length label ≤ 63) ls → any is_long_label ls ≡ false
unfolding any
no_long_label [] h = refl
no_long_label (l ∷ ls) (hl, h) = ground (arith, no_long_label ls h)

else_branch :
    (b : Bool) (x : Endpoint) → b ≡ false → (e : Endpoint) × ((if b then none else some x) ≡ some e)
else_branch true x h = cc
else_branch false x h = (x, refl)

else_taken : (b : Bool) (x e : Endpoint) → (if b then none else some x) ≡ some e → b ≡ false
else_taken true x e h = cc
else_taken false x e h = refl

-- `NewEndpointWithTTL` returns an endpoint exactly for a name whose labels have at most 63 bytes.
pub new_endpoint_with_ttl-HasShortLabels :
    (name record_type : Text) (ttl : Ttl) (targets : Targets)
    → (HasShortLabels name
        → (e : Endpoint) × (new_endpoint_with_ttl name record_type ttl targets ≡ some e))
      × ((e : Endpoint)
          → new_endpoint_with_ttl name record_type ttl targets ≡ some e
          → HasShortLabels name)
unfolding new_endpoint_with_ttl
new_endpoint_with_ttl-HasShortLabels name record_type ttl targets = (
  λ h. else_branch (any is_long_label (split name b'.')) _ (no_long_label (split name b'.') h),
  λ e h. short_labels (split name b'.') (else_taken (any is_long_label (split name b'.')) _ e h),
)
