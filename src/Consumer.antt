-- ===== src/Consumer.antt =====
-- internal/consumer: every message of the bus, fanned out or applied as a control message.
pub mod Messages
pub mod Accounting
mod Examples
