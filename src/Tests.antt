-- ===== src/Tests.antt =====
-- The theorems at concrete inputs, and runs of the code.
mod Samples
pub mod PlanTests
pub mod ControllerTests
pub mod RegistryTests
pub mod DynamoTests
pub mod SourceTests
pub mod AwsTests
pub mod EndpointTests
pub mod ProviderTests
