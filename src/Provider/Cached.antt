-- ===== src/Provider/Cached.antt =====
-- provider/cached_provider.go: a cache of the records in front of a provider. Time is a number; the
-- wrapped provider is what its `Records` and `ApplyChanges` return. The metrics are not modelled.
use external_dns.Prelude.{Bool, List, Option, if◌then◌else◌, ltb, none, not, some, true, ℕ, ◌+◌}
use external_dns.Endpoint.Types.{Endpoint}
use external_dns.Plan.Types.{Changes, has_changes}

pub record CachedProvider : Type 0 where
  pub refresh_delay : ℕ
  pub last_read : ℕ
  pub cache : Option (List Endpoint)

unfoldable pub new_cached_provider : ℕ → CachedProvider
new_cached_provider delay = record { refresh_delay = delay; last_read = 0; cache = none }

-- `needRefresh`
unfoldable pub need_refresh : CachedProvider → ℕ → Bool
need_refresh c now = elim c.cache [
  | none ↦ true
  | some eps ↦ ltb (c.last_read + c.refresh_delay) now
]

abbrev pub refreshed :
    CachedProvider → ℕ → Option (List Endpoint) → Option (List Endpoint) × CachedProvider
refreshed c now none = (none, record c { cache = none })
refreshed c now (some eps) = (some eps, record c { cache = some eps; last_read = now })

-- `Records`: `fetch` is what the wrapped provider returns if it is asked, `none` its error; the
-- result is the records or the error, and the provider afterwards
unfoldable pub cached_records :
    CachedProvider → ℕ → Option (List Endpoint) → Option (List Endpoint) × CachedProvider
unfolding need_refresh
cached_records c now fetch = if need_refresh c now then refreshed c now fetch else (c.cache, c)

unfoldable pub reset : CachedProvider → CachedProvider
reset c = record c { cache = none; last_read = 0 }

-- `ApplyChanges`, where `equal` is the `cmp.Equal` of `HasChanges`: the changes that are passed on,
-- if they are, and the provider afterwards
unfoldable pub cached_apply :
    (List Endpoint → List Endpoint → Bool)
    → CachedProvider
    → Changes
    → Option Changes × CachedProvider
unfolding reset has_changes
cached_apply equal c changes =
    if not (has_changes equal changes) then (none, c) else (some changes, reset c)
