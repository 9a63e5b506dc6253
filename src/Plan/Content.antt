-- ===== src/Plan/Content.antt =====
-- What an endpoint says, all but its labels and the order of its targets, which the comparisons of
-- plan/conflict.go and plan/plan.go sort in place.
use mathlib.Core.Path.{fun_ext}
use mathlib.Core.List.{reverse, reverse-append}
use external_dns.Prelude.{
  Bool, Text, [], ap, arith, eqb, if-both, if◌then◌else◌, int_eq, length, ltb, nat_eq, refl, suc,
  text_eq, ℕ, ◌++◌, ◌+◌, ◌==◌, ◌∷◌, ◌≡◌,
}
use external_dns.Endpoint.Net.{Net}
use external_dns.Endpoint.Targets.{
  insertion_sort, is_less, same, sift, sort_from, sort_targets, target_less,
}
use external_dns.Endpoint.Types.{Endpoint, ProviderSpecific, Targets, Ttl}
use external_dns.Plan.Conflict.{less}

pub record Content : Type 0 where
  pub dns_name : Text
  pub record_type : Text
  pub set_identifier : Text
  pub record_ttl : Ttl
  pub provider_specific : ProviderSpecific
  -- how often a target is listed
  pub target_count : Text → ℕ

unfoldable pub count_target : Targets → Text → ℕ
count_target [] t = 0
count_target (u ∷ us) t = let rest = count_target us t in if u == t then suc rest else rest

abbrev pub content : Endpoint → Content
content e = record {
  dns_name = e.dns_name;
  record_type = e.record_type;
  set_identifier = e.set_identifier;
  record_ttl = e.record_ttl;
  provider_specific = e.provider_specific;
  target_count = count_target e.targets;
}

count_target-append :
    (xs ys : Targets) (t : Text) → count_target (xs ++ ys) t ≡ count_target xs t + count_target ys t
unfolding count_target
count_target-append [] ys t = omega arith
count_target-append (x ∷ xs) ys t = ground (arith, count_target-append xs ys t)

count_target-reverse : (xs : Targets) (t : Text) → count_target (reverse xs) t ≡ count_target xs t
unfolding count_target
count_target-reverse [] t = refl
count_target-reverse (x ∷ xs) t =
    rw (reverse-append (x ∷ []) xs)
      (ground (arith, count_target-append (reverse xs) (x ∷ []) t, count_target-reverse xs t))

count_target-sift :
    (less : Text → Text → Bool) (x : Text) (before : Targets) (t : Text)
    → count_target (sift less x before) t ≡ count_target (x ∷ before) t
unfolding count_target sift
count_target-sift less x [] t = refl
count_target-sift less x (y ∷ before) t = ground (arith, count_target-sift less x before t)

count_target-sort_from :
    (less : Text → Text → Bool) (before xs : Targets) (t : Text)
    → count_target (sort_from less before xs) t ≡ count_target before t + count_target xs t
unfolding count_target sort_from
count_target-sort_from less before [] t = ground (arith, count_target-reverse before t)
count_target-sort_from less before (x ∷ xs) t = ground (
  arith,
  count_target-sort_from less (sift less x before) xs t,
  count_target-sift less x before t,
)

sorted_count :
    ⦃net : Net⦄ (ts : Targets) (t : Text) → count_target (sort_targets ts) t ≡ count_target ts t
unfolding count_target sort_targets insertion_sort
sorted_count ts t = ground (arith, count_target-sort_from target_less [] ts t)

pub count_target-sort_targets :
    ⦃net : Net⦄ (ts : Targets) → count_target (sort_targets ts) ≡ count_target ts
count_target-sort_targets ts = fun_ext (sorted_count ts)

-- an answer beside two lists that list the same targets
abbrev KeepsCounts : Targets → Targets → Bool × Targets × Targets → Type 0
KeepsCounts t o r = (count_target r.1 ≡ count_target t) × (count_target r.2 ≡ count_target o)

pub count_target-is_less :
    ⦃net : Net⦄ (t o : Targets)
    → (count_target (is_less t o).1 ≡ count_target t)
      × (count_target (is_less t o).2 ≡ count_target o)
unfolding is_less
count_target-is_less t o =
    if-both (KeepsCounts t o) (ltb (length t) (length o)) _ _ (refl, refl)
      (if-both (KeepsCounts t o) (ltb (length o) (length t)) _ _ (refl, refl)
        (count_target-sort_targets t, count_target-sort_targets o))

pub count_target-same :
    ⦃net : Net⦄ (t o : Targets)
    → (count_target (same t o).1 ≡ count_target t) × (count_target (same t o).2 ≡ count_target o)
unfolding same
count_target-same t o =
    if-both (KeepsCounts t o) (eqb (length t) (length o)) _ _
      (count_target-sort_targets t, count_target-sort_targets o) (refl, refl)

-- targets that are listed as often leave what the endpoint says
pub content-targets :
    (e : Endpoint) (ts : Targets)
    → count_target ts ≡ count_target e.targets
    → content (record e { targets = ts }) ≡ content e
content-targets e ts h = ap (λ c. record (content e) { target_count = c }) h
