-- ===== src/Endpoint/PropertyLaws.antt =====
-- The provider-specific properties of an endpoint: what a read gives after a write or a deletion.
use mathlib.Core.Path.{subst}
use external_dns.Prelude.{
  All, Text, [], ap, arith, if-both, if-cases, if◌then◌else◌, int_eq, nat_eq, none, refl, same→eq,
  some, sym, text_beq_iff, text_eq, ◌==◌, ◌∷◌, ◌≡◌, ◌≢◌,
}
use external_dns.Endpoint.Properties.{
  delete_property, delete_provider_specific_property, get_property, get_provider_specific_property,
  set_property, set_provider_specific_property,
}
use external_dns.Endpoint.Types.{Endpoint, ProviderSpecific}

abbrev pub NoName : Text → ProviderSpecific → Type 0
NoName k = All (λ p. p.name ≢ k)

-- the properties of a list have different names
abbrev pub HasDistinctNames : ProviderSpecific → Type 0
HasDistinctNames [] = Unit
HasDistinctNames (p ∷ ps) = NoName p.name ps × HasDistinctNames ps

get-set :
    (k j v : Text) (ps : ProviderSpecific)
    → get_property j (set_property k v ps) ≡ (if k == j then some v else get_property j ps)
unfolding get_property set_property
get-set k j v [] = ground (arith, text_beq_iff k j)
get-set k j v (p ∷ ps) =
    ground (arith, get-set k j v ps, text_beq_iff p.name k, text_beq_iff p.name j, text_beq_iff k j)

-- A property that was set is read back, and the other properties read as before.
pub get_provider_specific_property-set :
    (k j v : Text) (e : Endpoint)
    → get_provider_specific_property j (set_provider_specific_property k v e)
      ≡ (if k == j then some v else get_provider_specific_property j e)
unfolding get_provider_specific_property set_provider_specific_property
get_provider_specific_property-set k j v e = get-set k j v e.provider_specific

NoName-set :
    (k n v : Text) (ps : ProviderSpecific) → k ≢ n → NoName n ps → NoName n (set_property k v ps)
unfolding set_property
NoName-set k n v [] ne h = (ne, tt)
NoName-set k n v (p ∷ ps) ne (hp, h) =
    if-both (NoName n) (p.name == k) _ _ (ne, h) (hp, NoName-set k n v ps ne h)

set-HasDistinctNames :
    (k v : Text) (ps : ProviderSpecific)
    → HasDistinctNames ps
    → HasDistinctNames (set_property k v ps)
unfolding set_property
set-HasDistinctNames k v [] h = (tt, tt)
set-HasDistinctNames k v (p ∷ ps) (hp, h) =
    if-cases HasDistinctNames (p.name == k) _ _
      (λ t. (subst (λ n. NoName n ps) (same→eq p.name k t) hp, h))
      (λ f. (
        NoName-set k p.name v ps (λ q. cc (f, (text_beq_iff p.name k).1 (sym q))) hp,
        set-HasDistinctNames k v ps h,
      ))

-- Setting a property never makes a second one of its name.
pub set_provider_specific_property-HasDistinctNames :
    (k v : Text) (e : Endpoint)
    → HasDistinctNames e.provider_specific
    → HasDistinctNames (set_provider_specific_property k v e).provider_specific
unfolding set_provider_specific_property
set_provider_specific_property-HasDistinctNames k v e = set-HasDistinctNames k v e.provider_specific

get-NoName : (k : Text) (ps : ProviderSpecific) → NoName k ps → get_property k ps ≡ none
unfolding get_property
get-NoName k [] h = refl
get-NoName k (p ∷ ps) (hp, h) = ground (arith, text_beq_iff p.name k, get-NoName k ps h)

get-delete :
    (k j : Text) (ps : ProviderSpecific)
    → HasDistinctNames ps
    → get_property j (delete_property k ps) ≡ (if k == j then none else get_property j ps)
unfolding get_property delete_property
get-delete k j [] h = ground arith
get-delete k j (p ∷ ps) (hp, h) =
    if-cases (λ qs. get_property j qs ≡ (if k == j then none else get_property j (p ∷ ps)))
      (p.name == k) ps (p ∷ delete_property k ps)
      (λ t. ground (
        arith,
        text_beq_iff p.name k,
        text_beq_iff p.name j,
        text_beq_iff k j,
        get-NoName k ps (subst (λ n. NoName n ps) (same→eq p.name k t) hp),
        ap (λ n. get_property n ps) (same→eq p.name k t),
      ))
      (λ f. ground (
        arith,
        f,
        text_beq_iff p.name j,
        text_beq_iff p.name k,
        text_beq_iff k j,
        get-delete k j ps h,
      ))

-- Where names are distinct, a deleted property is gone and the others read as before.
pub get_provider_specific_property-delete :
    (k j : Text) (e : Endpoint)
    → HasDistinctNames e.provider_specific
    → get_provider_specific_property j (delete_provider_specific_property k e)
      ≡ (if k == j then none else get_provider_specific_property j e)
unfolding get_provider_specific_property delete_provider_specific_property
get_provider_specific_property-delete k j e = get-delete k j e.provider_specific
