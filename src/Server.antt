-- ===== src/Server.antt =====
-- internal/server: the client-event rate limit, and the registry that stands between a connection and
-- the hub.
pub mod Rates
pub mod Limiter
pub mod Front
pub mod FrontLaws
pub mod Login
pub mod Permitted
pub mod PermittedRun
pub mod PermittedActs
mod PermittedExamples
pub mod Gateway
pub mod Admission
pub mod AdmissionLaws
pub mod RatesLaws
pub mod LimiterLaws
mod Examples
mod WriterExamples
mod FrontExamples
mod RateExamples
