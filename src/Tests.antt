-- ===== src/Tests.antt =====
-- The development at concrete inputs.
mod Fixtures
mod Graph
mod Runs
mod Parsing
mod Orchestration
mod Providers
mod Provisioning
mod Names
mod Files
