-- ===== src/Registry.antt =====
-- registry/: who owns which record.
pub mod Mapper
pub mod MapperLaws
pub mod Txt
pub mod Generate
pub mod Records
pub mod Apply
pub mod GenerateLaws
pub mod ApplyLaws
pub mod TxtLaws
pub mod ReadBack
pub mod Dynamo
pub mod Plain
