-- ===== src/Delivery.antt =====
-- The delivery of desk packs to Telegram: packages/delivery.
pub mod Config
pub mod Dedupe
pub mod Gates
pub mod Inbound
pub mod Format
pub mod Payload
pub mod Telegram
pub mod Deliver
mod Tests
