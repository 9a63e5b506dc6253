-- ===== src/Registry/Dynamo.antt =====
-- registry/dynamodb/registry.go: ownership of records in a DynamoDB table.
pub mod Types
pub mod Keys
pub mod Statements
pub mod Execute
pub mod Read
pub mod Records
pub mod KeyLaws
pub mod ExecuteRule
pub mod ExecuteLaws
pub mod Loops
pub mod Handlers
pub mod Apply
pub mod OwnerLaws
pub mod HandlerLaws
pub mod HandedLaws
pub mod SafeLaws
pub mod NoPanic
pub mod OrphanLaws
