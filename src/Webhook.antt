-- ===== src/Webhook.antt =====
-- internal/webhook: the connect webhook, from its answers and attempts to the call and its cache.
pub mod Expiry
pub mod Cache
pub mod CacheLaws
pub mod ExpiryLaws
pub mod Answer
pub mod Attempts
pub mod Build
pub mod Slots
pub mod Calls
pub mod CallsLaws
pub mod Forwarded
pub mod ForwardedLaws
pub mod SlotsLaws
pub mod SlotsEnd
pub mod AnswerParts
pub mod AnswerLaws
pub mod AttemptsLaws
mod Examples
mod CallExamples
