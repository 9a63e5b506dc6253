-- ===== src/Endpoint/DomainFilter.antt =====
-- endpoint/domain_filter.go. A regular expression is the pair of its source and its matcher; the
-- matcher, the regexp package and idna are not modelled.
use external_dns.Prelude.{
  Bool, List, Option, Text, [], count_byte, eqb, false, has_prefix, has_suffix, if◌then◌else◌,
  int_eq, is_nil, nat_eq, none, not, some, text_eq, trim_space, trim_suffix, true, ◌&&◌, ◌++◌, ◌==◌,
  ◌||◌, ◌∷◌,
}
use external_dns.Endpoint.Create.{dot}
use external_dns.Endpoint.Net.{Net}

pub record Regex : Type 0 where
  pub source : Text
  pub matches : Text → Bool

pub record DomainFilter : Type 0 where
  pub filters : List Text
  pub exclude : List Text
  pub regex : Option Regex
  pub regex_exclusion : Option Regex

-- a filter behind `DomainFilterInterface`; nil is `none`
abbrev pub MatchAllDomainFilters : Type 0
MatchAllDomainFilters = List (Option (Text → Bool))

-- `MatchAllDomainFilters.Match`
unfoldable pub match_all : MatchAllDomainFilters → Text → Bool
match_all [] domain = true
match_all (none ∷ fs) domain = match_all fs domain
match_all (some f ∷ fs) domain = if f domain then match_all fs domain else false

-- `regex != nil && regex.String() != ""`
abbrev pub is_set : Option Regex → Bool
is_set none = false
is_set (some r) = not (is_nil r.source)

abbrev run_regex : Option Regex → Text → Bool
run_regex none s = false
run_regex (some r) s = r.matches s

module _ ⦃net : Net⦄ where
  -- `normalizeDomain`: an error of the conversion is only logged
  unfoldable pub normalize_domain : Text → Text
  unfolding trim_suffix
  normalize_domain domain = (net.to_unicode (trim_suffix domain dot)).0

  unfoldable pub prepare_filters : List Text → List Text
  unfolding normalize_domain trim_space
  prepare_filters [] = []
  prepare_filters (f ∷ fs) =
      let domain = normalize_domain (trim_space f) in
      if not (is_nil domain) then domain ∷ prepare_filters fs else prepare_filters fs

  unfoldable pub new_domain_filter_with_exclusions : List Text → List Text → DomainFilter
  unfolding prepare_filters
  new_domain_filter_with_exclusions fs excluded = record {
    filters = prepare_filters fs;
    exclude = prepare_filters excluded;
    regex = none;
    regex_exclusion = none;
  }

  unfoldable pub new_domain_filter : List Text → DomainFilter
  unfolding prepare_filters
  new_domain_filter fs = record {
    filters = prepare_filters fs;
    exclude = [];
    regex = none;
    regex_exclusion = none;
  }

  -- the three cases of the switch of `matchFilter`
  unfoldable pub filter_matches : Text → Text → Bool
  unfolding has_prefix has_suffix count_byte
  filter_matches stripped f =
      (has_prefix f dot && has_suffix stripped f)
      || ((eqb (count_byte b'.' stripped) (count_byte b'.' f) && stripped == f)
          || has_suffix stripped (dot ++ f))

  unfoldable pub any_filter_matches : Text → List Text → Bool
  unfolding filter_matches
  any_filter_matches stripped [] = false
  any_filter_matches stripped (f ∷ fs) =
      let rest = any_filter_matches stripped fs in
      if is_nil f then rest else if filter_matches stripped f then true else rest

  unfoldable pub match_filter : List Text → Text → Bool → Bool
  unfolding any_filter_matches normalize_domain
  match_filter fs domain emptyval =
      if is_nil fs then emptyval else any_filter_matches (normalize_domain domain) fs

  unfoldable pub match_regex : Option Regex → Option Regex → Text → Bool
  unfolding normalize_domain
  match_regex regex negative_regex domain =
      let stripped = normalize_domain domain in
      if is_set negative_regex && run_regex negative_regex stripped
      then false
      else if is_set regex
      then run_regex regex stripped
      else true

  abbrev match_configured : DomainFilter → Text → Bool
  match_configured df domain =
      if is_set df.regex || is_set df.regex_exclusion
      then match_regex df.regex df.regex_exclusion domain
      else match_filter df.filters domain true && not (match_filter df.exclude domain false)

  -- `DomainFilter.Match`: the nil filter matches everything
  unfoldable pub match : Option DomainFilter → Text → Bool
  unfolding match_regex match_filter
  match none domain = true
  match (some df) domain = match_configured df domain

  unfoldable pub is_filter_configured : Option DomainFilter → Bool
  is_filter_configured none = false
  is_filter_configured (some df) =
      if is_set df.regex
      then true
      else if is_set df.regex_exclusion
      then true
      else not (is_nil df.filters) || not (is_nil df.exclude)

  -- the loop of `MatchParent`
  unfoldable pub any_below : Text → List Text → Bool
  unfolding has_prefix has_suffix
  any_below stripped [] = false
  any_below stripped (f ∷ fs) =
      let rest = any_below stripped fs in
      if is_nil f || has_prefix f dot
      then rest
      else if has_suffix f (dot ++ stripped)
      then true
      else rest

  unfoldable pub match_parent : Option DomainFilter → Text → Bool
  unfolding match_filter any_below
  match_parent none domain = true
  match_parent (some df) domain =
      if match_filter df.exclude domain false
      then false
      else if is_nil df.filters
      then true
      else any_below (normalize_domain domain) df.filters
