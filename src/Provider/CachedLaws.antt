-- ===== src/Provider/CachedLaws.antt =====
-- How old the records of provider/cached_provider.go may be.
use mathlib.Core.Path.{subst}
use external_dns.Prelude.{
  Bool, List, Option, arith, false, if-both, if-cases, ltb, none, not, refl, some, true, ℕ, ◌+◌,
  ◌∙◌, ◌≡◌, ◌≤◌,
}
use external_dns.Endpoint.Types.{Endpoint}
use external_dns.Plan.Types.{Changes, has_changes}
use external_dns.Provider.Cached.{
  CachedProvider, cached_apply, cached_records, need_refresh, new_cached_provider, refreshed, reset,
}

-- The states that a cached provider reaches: its wrapped provider returns `world t` at time t, and
-- the index is the time so far.
pub data Reaches (world : ℕ → Option (List Endpoint)) (equal : List Endpoint → List Endpoint → Bool)
    : ℕ → CachedProvider → Type 0 where
  start : (delay now : ℕ) → Reaches world equal now (new_cached_provider delay)
  wait : (t d : ℕ) (c : CachedProvider) → Reaches world equal t c → Reaches world equal (t + d) c
  read :
      (t : ℕ) (c : CachedProvider)
      → Reaches world equal t c
      → Reaches world equal t (cached_records c t (world t)).1
  apply :
      (t : ℕ) (c : CachedProvider) (changes : Changes)
      → Reaches world equal t c
      → Reaches world equal t (cached_apply equal c changes).1

-- The cache is empty, or what the wrapped provider returned at the time of the last read, which is
-- not in the future.
pub record IsFaithful (world : ℕ → Option (List Endpoint)) (t : ℕ) (c : CachedProvider)
    : Type 0 where
  pub past : c.last_read ≤ t
  pub held : (eps : List Endpoint) → c.cache ≡ some eps → world c.last_read ≡ some eps

refreshed-IsFaithful :
    (world : ℕ → Option (List Endpoint)) (t : ℕ) (c : CachedProvider)
    → IsFaithful world t c
    → (fetch : Option (List Endpoint)) → world t ≡ fetch
    → IsFaithful world t (refreshed c t fetch).1
refreshed-IsFaithful world t c h none e = record { past = h.past; held = λ eps f. cc }
refreshed-IsFaithful world t c h (some eps') e = record {
  past = omega arith;
  held = λ eps f. e ∙ f;
}

cached_records-IsFaithful :
    (world : ℕ → Option (List Endpoint)) (t : ℕ) (c : CachedProvider)
    → IsFaithful world t c
    → IsFaithful world t (cached_records c t (world t)).1
unfolding cached_records
cached_records-IsFaithful world t c h =
    if-both {A = Option (List Endpoint) × CachedProvider} (λ r. IsFaithful world t r.1)
      (need_refresh c t) _ _ (refreshed-IsFaithful world t c h (world t) refl) h

cached_apply-IsFaithful :
    (world : ℕ → Option (List Endpoint)) (t : ℕ) (c : CachedProvider)
    → (equal : List Endpoint → List Endpoint → Bool) (changes : Changes) → IsFaithful world t c
    → IsFaithful world t (cached_apply equal c changes).1
unfolding cached_apply reset
cached_apply-IsFaithful world t c equal changes h =
    if-both {A = Option Changes × CachedProvider} (λ r. IsFaithful world t r.1)
      (not (has_changes equal changes)) (none, c) (some changes, reset c) h
      (record { past = omega arith; held = λ eps f. cc })

Reaches-IsFaithful :
    (world : ℕ → Option (List Endpoint)) (equal : List Endpoint → List Endpoint → Bool)
    → (now : ℕ) (c : CachedProvider) → Reaches world equal now c
    → IsFaithful world now c
unfolding new_cached_provider
Reaches-IsFaithful world equal now c (start delay t) = record {
  past = omega arith;
  held = λ eps f. cc;
}
Reaches-IsFaithful world equal now c (wait t d c' r) =
    let ih = Reaches-IsFaithful world equal t c' r in
    record { past = (let past = ih.past in omega arith); held = ih.held }
Reaches-IsFaithful world equal now c (read t c' r) =
    cached_records-IsFaithful world t c' (Reaches-IsFaithful world equal t c' r)
Reaches-IsFaithful world equal now c (apply t c' changes r) =
    cached_apply-IsFaithful world t c' equal changes (Reaches-IsFaithful world equal t c' r)

refreshed-eq :
    (c : CachedProvider) (now : ℕ) (fetch : Option (List Endpoint)) (eps : List Endpoint)
    → (refreshed c now fetch).0 ≡ some eps
    → fetch ≡ some eps
refreshed-eq c now none eps h = h
refreshed-eq c now (some e) eps h = h

kept-eq :
    (c : CachedProvider) (now : ℕ) (eps : List Endpoint)
    → c.cache ≡ some eps
    → need_refresh c now ≡ false
    → now ≤ c.last_read + c.refresh_delay
unfolding need_refresh
kept-eq c now eps e h =
    let fresh : ltb (c.last_read + c.refresh_delay) now ≡ false =
      subst
        (λ o. elim o [ none ↦ true | some eps ↦ ltb (c.last_read + c.refresh_delay) now ] ≡ false) e
        h in
    ground arith

-- Whatever a read returns, after any reads, waits and changes, the wrapped provider returned at a
-- time that is not more than the delay ago.
pub cached_records-fresh :
    (world : ℕ → Option (List Endpoint)) (equal : List Endpoint → List Endpoint → Bool)
    → (now : ℕ) (c : CachedProvider) (eps : List Endpoint) → Reaches world equal now c
    → (cached_records c now (world now)).0 ≡ some eps
    → (t : ℕ) × (world t ≡ some eps) × (t ≤ now) × (now ≤ t + c.refresh_delay)
unfolding cached_records
cached_records-fresh world equal now c eps reached =
    let h = Reaches-IsFaithful world equal now c reached in
    if-cases {A = Option (List Endpoint) × CachedProvider}
      (λ r.
        r.0 ≡ some eps → (t : ℕ) × (world t ≡ some eps) × (t ≤ now) × (now ≤ t + c.refresh_delay))
      (need_refresh c now) _ _
      (λ _ e. (now, refreshed-eq c now (world now) eps e, omega arith, omega arith))
      (λ stale e. (c.last_read, h.held eps e, h.past, kept-eq c now eps e stale))
