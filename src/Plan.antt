-- ===== src/Plan.antt =====
-- plan/: the changes that move the current records towards the desired ones.
pub mod Types
pub mod Policy
pub mod Table
pub mod Conflict
pub mod Calculate
pub mod Keyed
pub mod Rows
pub mod Outcome
pub mod Safety
pub mod PolicyLaws
pub mod Cname
pub mod Stable
pub mod Content
