-- ===== src/Bus.antt =====
-- internal/bus: the bus of a single process.
pub mod Memory
pub mod Accounts
pub mod Redis
pub mod RedisLink
pub mod RedisParts
pub mod RedisIssue
pub mod RedisApply
pub mod RedisBackoff
pub mod RedisRuns
pub mod RedisSettles
mod Examples
mod RedisExamples
