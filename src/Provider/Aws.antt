-- ===== src/Provider/Aws.antt =====
-- provider/aws/aws.go: the provider of Route 53.
pub mod CanonicalZones
pub mod Types
pub mod Alias
pub mod Adjust
pub mod Change
pub mod Batch
pub mod BatchLaws
pub mod Zones
pub mod Submit
pub mod Records
pub mod Hosted
pub mod QueueLaws
pub mod ZoneLaws
