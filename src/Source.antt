-- ===== src/Source.antt =====
-- source/: the endpoints of a host name, and the wrappers around the sources.
pub mod Library
pub mod Hostname
pub mod Wrappers
pub mod TargetFilter
pub mod Nat64
pub mod Wrap
pub mod DedupLaws
pub mod WrapLaws
