-- ===== src/Endpoint/FilterLaws.antt =====
-- What a domain filter of endpoint/domain_filter.go without regular expressions matches.
use external_dns.Prelude.{
  Bool, Bool-cases, List, Text, [], and-true, any, ap, arith, count_byte, cut_prefix, eqb, eqb_iff,
  false, has_prefix, has_prefix-append, has_suffix, has_suffix-append, has_suffix-eq, inl, inr,
  int_eq, is_nil, is_nil-true, nat_eq, not, refl, same_refl, same→eq, some, sym, text_eq, true,
  ◌&&◌, ◌++◌, ◌==◌, ◌||◌, ◌↔◌, ◌∙◌, ◌∷◌, ◌≡◌, ◌≢◌, ◌⊎◌,
}
use external_dns.Endpoint.Create.{dot}
use external_dns.Endpoint.DomainFilter.{
  DomainFilter, any_filter_matches, filter_matches, is_set, match, match_filter, normalize_domain,
}
use external_dns.Endpoint.Net.{Net}

-- The name is the domain or ends in a dot and the domain; or the domain begins with a dot and the
-- name ends in it.
abbrev pub under : Text → Text → Bool
under name domain =
    (name == domain || has_suffix name (b'.' ∷ domain))
    || (has_prefix domain dot && has_suffix name domain)

-- One of the domains, which is not empty, has the name under it.
abbrev pub under_any : Text → List Text → Bool
under_any name domains = any (λ domain. not (is_nil domain) && under name domain) domains

-- the count of dots that `matchFilter` compares first is that of equal names
filter_matches-under : ⦃net : Net⦄ (name f : Text) → filter_matches name f ≡ under name f
unfolding filter_matches
filter_matches-under name f = elim (Bool-cases (name == f)) [
  | inl e ↦
      let same_count : eqb (count_byte b'.' name) (count_byte b'.' f) ≡ true =
        (eqb_iff (count_byte b'.' name) (count_byte b'.' f)).1
          (ap (λ s. count_byte b'.' s) (same→eq name f e)) in
      ground (arith, e, same_count)
  | inr e ↦ ground (arith, e)
]

any_filter_matches-under :
    ⦃net : Net⦄ (name : Text) (fs : List Text) → any_filter_matches name fs ≡ under_any name fs
unfolding any_filter_matches any
any_filter_matches-under name [] = refl
any_filter_matches-under name (f ∷ fs) =
    ground (arith, filter_matches-under name f, any_filter_matches-under name fs)

included-under :
    ⦃net : Net⦄ (fs : List Text) (domain : Text)
    → match_filter fs domain true ≡ (is_nil fs || under_any (normalize_domain domain) fs)
unfolding match_filter
included-under [] domain = refl
included-under (f ∷ fs) domain = any_filter_matches-under (normalize_domain domain) (f ∷ fs)

excluded-under :
    ⦃net : Net⦄ (fs : List Text) (domain : Text)
    → match_filter fs domain false ≡ under_any (normalize_domain domain) fs
unfolding match_filter any
excluded-under [] domain = refl
excluded-under (f ∷ fs) domain = any_filter_matches-under (normalize_domain domain) (f ∷ fs)

match-under :
    ⦃net : Net⦄ (df : DomainFilter) (domain : Text)
    → (is_set df.regex || is_set df.regex_exclusion) ≡ false
    → match (some df) domain ≡ (
        (is_nil df.filters || under_any (normalize_domain domain) df.filters)
        && not (under_any (normalize_domain domain) df.exclude))
unfolding match
match-under df domain plain =
    rw (plain, included-under df.filters domain, excluded-under df.exclude domain)

-- The name is the domain or lies below it; a domain that begins with a dot has the names that end in
-- it.
pub data IsUnder (name domain : Text) : Type 0 where
  itself : name ≡ domain → IsUnder name domain
  below : (host : Text) → name ≡ host ++ b'.' ∷ domain → IsUnder name domain
  dotted :
      (host parent : Text) → domain ≡ b'.' ∷ parent → name ≡ host ++ domain → IsUnder name domain

has_dot-eq :
    (domain : Text) → has_prefix domain dot ≡ true → (parent : Text) × (domain ≡ b'.' ∷ parent)
unfolding has_prefix cut_prefix
has_dot-eq [] h = cc
has_dot-eq (c ∷ s) h = (s, ground (arith, eqb_iff c b'.', h))

not_nil : (d : Text) → d ≢ [] → is_nil d ≡ false
not_nil [] n = absurd (n refl)
not_nil (c ∷ d) n = refl

nil_name : (d : Text) → d ≡ [] → not (is_nil d) ≡ true → ⊥
nil_name d e h = absurd (ground (arith, e, h))

or-true : (b : Bool) → ((b || true) && not false) ≡ true
or-true b = ground arith

under-IsUnder : (name domain : Text) → under name domain ≡ true → IsUnder name domain
under-IsUnder name domain h = elim (Bool-cases (name == domain)) [
  | inl e ↦ itself (same→eq name domain e)
  | inr e ↦ elim (Bool-cases (has_suffix name (b'.' ∷ domain))) [
    | inl s ↦ let (host, q) = has_suffix-eq name (b'.' ∷ domain) s in below host q
    | inr s ↦
        let (starts, ends) =
          and-true (has_prefix domain dot) (has_suffix name domain) (ground (arith, e, s, h)) in
        let (parent, p) = has_dot-eq domain starts in
        let (host, q) = has_suffix-eq name domain ends in dotted host parent p q
  ]
]

IsUnder-under : (name domain : Text) → IsUnder name domain → under name domain ≡ true
IsUnder-under name domain (itself e) =
    let t : (name == domain) ≡ true = rw e (same_refl domain) in ground (arith, t)
IsUnder-under name domain (below host e) =
    let t : has_suffix name (b'.' ∷ domain) ≡ true =
      rw e (has_suffix-append host (b'.' ∷ domain)) in
    ground (arith, t)
IsUnder-under name domain (dotted host parent p e) =
    let t : has_suffix name domain ≡ true = rw e (has_suffix-append host domain) in
    let d : has_prefix domain dot ≡ true = rw p (has_prefix-append dot parent) in
    ground (arith, t, d)

-- One of the domains, which is not empty, has the name under it.
abbrev pub IsUnderOne : Text → List Text → Type 0
IsUnderOne name [] = ⊥
IsUnderOne name (d ∷ ds) = ((d ≢ []) × IsUnder name d) ⊎ IsUnderOne name ds

under_any-IsUnderOne :
    (name : Text) (ds : List Text) → (under_any name ds ≡ true) ↔ IsUnderOne name ds
unfolding any
under_any-IsUnderOne name [] = ((λ h. absurd (ground (arith, h))), λ h. absurd h)
under_any-IsUnderOne name (d ∷ ds) =
    let (to, from) = under_any-IsUnderOne name ds in
    (
      λ h. elim (Bool-cases (not (is_nil d) && under name d)) [
        | inl t ↦
            let (some_name, u) = and-true (not (is_nil d)) (under name d) t in
            inl ((λ e. absurd (nil_name d e some_name)), under-IsUnder name d u)
        | inr f ↦ inr (to (ground (arith, f, h)))
      ],
      λ h. elim h [
        | inl (n, u) ↦ let t = IsUnder-under name d u in let e = not_nil d n in ground (arith, t, e)
        | inr rest ↦ let t = from rest in ground (arith, t)
      ],
    )

-- A filter without regular expressions matches a name exactly if, once it is normalised, it is one of
-- the filter's domains or below one, or there are no domains, and it is neither one of the excluded
-- domains nor below one. Empty domains do not count, and a domain that begins with a dot has the
-- names that end in it.
pub match-IsUnderOne :
    ⦃net : Net⦄ (df : DomainFilter) (domain : Text)
    → (is_set df.regex || is_set df.regex_exclusion) ≡ false
    → (match (some df) domain ≡ true) ↔ (
        ((df.filters ≡ []) ⊎ IsUnderOne (normalize_domain domain) df.filters)
        × (IsUnderOne (normalize_domain domain) df.exclude → ⊥))
match-IsUnderOne df domain plain =
    let name = normalize_domain domain in
    let (to, from) = under_any-IsUnderOne name df.filters in
    let (to_excluded, from_excluded) = under_any-IsUnderOne name df.exclude in
    let eq = match-under df domain plain in
    (
      λ h.
          let (inside, outside) =
            and-true (is_nil df.filters || under_any name df.filters)
              (not (under_any name df.exclude)) (sym eq ∙ h) in
          (
            elim (Bool-cases (is_nil df.filters)) [
              | inl n ↦ inl (is_nil-true df.filters n)
              | inr f ↦ inr (to (ground (arith, f, inside)))
            ],
            λ u. let t = from_excluded u in ground (arith, t, outside),
          ),
      λ h.
          let out : under_any name df.exclude ≡ false =
            elim (Bool-cases (under_any name df.exclude)) [
              | inl t ↦ absurd (h.1 (to_excluded t))
              | inr f ↦ f
            ] in
          eq ∙ elim h.0 [
            | inl n ↦ rw (n, out) refl
            | inr u ↦ rw (from u, out) (or-true (is_nil df.filters))
          ],
    )
