-- ===== src/Source/WrapLaws.antt =====
-- What the source that `WrapSources` of source/wrappers/types.go makes returns.
use external_dns.Prelude.{
  All, All-keep_test, Bool-cases, List, Option, [], arith, inl, inr, int_ltb, length, none, pos,
  some, true, ℤ, ◌<◌, ◌∷◌, ◌≡◌,
}
use external_dns.Endpoint.Net.{Net}
use external_dns.Endpoint.Properties.{with_min_ttl}
use external_dns.Endpoint.Types.{Endpoint, Targets, is_configured}
use external_dns.Registry.GenerateLaws.{Whenever}
use external_dns.Source.Library.{Library}
use external_dns.Source.Nat64.{new_nat64_source}
use external_dns.Source.TargetFilter.{
  TargetNetFilter, filter_all, is_enabled, keep_filtered, match_target, new_target_net_filter,
  target_filter_endpoints,
}
use external_dns.Source.Wrap.{Config, behind_dedup, wrap_sources, wrapped}
use external_dns.Source.Wrappers.{
  Fetched, fetch_error, fetch_panic, fetched, fetched_then, min_ttl_all, post_process,
  with_ttl_option,
}

module _ ⦃net : Net⦄ (library : Library) where
  abbrev pub filter_of : Config → TargetNetFilter library
  filter_of opts = new_target_net_filter library opts.target_net_filter opts.exclude_target_nets

  -- There are targets, and each passes the filter.
  abbrev pub Passes : TargetNetFilter library → Endpoint → Type 0
  Passes tf e = All (λ t. match_target library tf t ≡ true) e.targets × (0 < length e.targets)

  -- The endpoint passes the filter, and its TTL is configured.
  abbrev pub IsReady : TargetNetFilter library → Endpoint → Type 0
  IsReady tf e = Passes tf e × (is_configured e.record_ttl ≡ true)

  keep_filtered-Passes :
      (tf : TargetNetFilter library) (ep : Endpoint) (ts : Targets) (rest : List Endpoint)
      → All (λ t. match_target library tf t ≡ true) ts
      → All (Passes tf) rest
      → All (Passes tf) (keep_filtered library ep ts rest)
  keep_filtered-Passes tf ep [] rest hts h = h
  keep_filtered-Passes tf ep (t ∷ ts) rest hts h = ((hts, omega arith), h)

  filter_all-Passes :
      (tf : TargetNetFilter library) (eps : List Endpoint)
      → All (Passes tf) (filter_all library tf eps)
  unfolding filter_all
  filter_all-Passes tf [] = tt
  filter_all-Passes tf (ep ∷ eps) =
      keep_filtered-Passes tf ep _ _
        (All-keep_test (λ t. match_target library tf t ≡ true) (λ t. match_target library tf t)
          (λ t h. h) ep.targets)
        (filter_all-Passes tf eps)

  with_min_ttl-IsReady :
      (tf : TargetNetFilter library) (ttl : ℤ) (e : Endpoint)
      → int_ltb (pos 0) ttl ≡ true
      → Passes tf e
      → IsReady tf (with_min_ttl ttl e)
  unfolding with_min_ttl
  with_min_ttl-IsReady tf ttl e positive h = elim (Bool-cases (is_configured e.record_ttl)) [
    | inl c ↦ rw c (h, c)
    | inr c ↦ rw (c, positive) (h, positive)
  ]

  min_ttl_all-IsReady :
      (tf : TargetNetFilter library) (ttl : ℤ) (es : List Endpoint)
      → int_ltb (pos 0) ttl ≡ true
      → All (Passes tf) es
      → All (IsReady tf) (min_ttl_all ttl es)
  unfolding min_ttl_all
  min_ttl_all-IsReady tf ttl [] positive h = tt
  min_ttl_all-IsReady tf ttl (e ∷ es) positive (he, h) =
      (with_min_ttl-IsReady tf ttl e positive he, min_ttl_all-IsReady tf ttl es positive h)

  -- What is fetched has `P`.
  abbrev pub WhenFetched : (List Endpoint → Type 0) → Fetched (List Endpoint) → Type 0
  WhenFetched P (fetched eps) = P eps
  WhenFetched P fetch_error = Unit
  WhenFetched P fetch_panic = Unit

  WhenFetched-then :
      (P : List Endpoint → Type 0) (r : Fetched (List Endpoint)) (f : List Endpoint → List Endpoint)
      → ((eps : List Endpoint) → P (f eps))
      → WhenFetched P (fetched_then r λ eps. fetched (f eps))
  WhenFetched-then P (fetched eps) f h = h eps
  WhenFetched-then P fetch_error f h = tt
  WhenFetched-then P fetch_panic f h = tt

  processed-IsReady :
      (opts : Config) (eps : List Endpoint)
      → is_enabled library (filter_of opts) ≡ true
      → int_ltb (pos 0) opts.min_ttl ≡ true
      → All (IsReady (filter_of opts)) (
          post_process
            (with_ttl_option opts.min_ttl)
            (target_filter_endpoints library (filter_of opts) eps))
  unfolding post_process with_ttl_option target_filter_endpoints
  processed-IsReady opts eps enabled positive =
      rw (enabled, positive)
        (min_ttl_all-IsReady (filter_of opts) opts.min_ttl _ positive
          (filter_all-Passes (filter_of opts) eps))

  wrapped-IsReady :
      (opts : Config) (o : Option (List library.Prefix))
      (children : List (Fetched (List (Option Endpoint))))
      → is_enabled library (filter_of opts) ≡ true
      → int_ltb (pos 0) opts.min_ttl ≡ true
      → Whenever (WhenFetched (All (IsReady (filter_of opts)))) (wrapped library opts o children)
  unfolding behind_dedup
  wrapped-IsReady opts none children enabled positive = tt
  wrapped-IsReady opts (some prefixes) children enabled positive =
      WhenFetched-then (All (IsReady (filter_of opts))) _ _
        (λ eps. processed-IsReady opts eps enabled positive)

  -- Where target networks are given and the minimal TTL is positive, every endpoint that the wrapped
  -- sources return, the translated ones too, has targets, all of which pass the target filter, and a
  -- configured TTL.
  pub wrap_sources-IsReady :
      (opts : Config) (children : List (Fetched (List (Option Endpoint))))
      → is_enabled library (filter_of opts) ≡ true
      → int_ltb (pos 0) opts.min_ttl ≡ true
      → Whenever (WhenFetched (All (IsReady (filter_of opts)))) (wrap_sources library opts children)
  unfolding wrap_sources
  wrap_sources-IsReady opts children enabled positive =
      wrapped-IsReady opts (new_nat64_source library opts.nat64_networks) children enabled positive
