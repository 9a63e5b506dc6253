-- ===== src/Provider.antt =====
-- provider/: the in-memory provider, the cache in front of a provider, and the shared helpers.
pub mod Difference
pub mod ZoneFilters
pub mod Rfc2317
pub mod ZoneFinder
pub mod Cached
pub mod InMemory
pub mod InMemoryLaws
pub mod RefineLaws
pub mod BatchLaws
pub mod AcceptLaws
pub mod CachedLaws
pub mod ZoneLaws
pub mod DifferenceLaws
pub mod Aws
