-- ===== src/Endpoint.antt =====
-- endpoint/: DNS records as endpoints, their targets, labels, properties and filters.
pub mod Types
pub mod Net
pub mod Targets
pub mod Create
pub mod Labels
pub mod LabelLaws
pub mod SortLaws
pub mod Properties
pub mod PropertyLaws
pub mod Owner
pub mod OwnerLaws
pub mod Validate
pub mod DomainFilter
pub mod CreateLaws
pub mod FilterLaws
pub mod ValidateLaws
