-- ===== src/Engine.antt =====
-- class Engine of relay/core.py: the checks between an interpreted alert and an order.
pub mod Guards
pub mod Pricing
pub mod Plan
pub mod Dispatch
pub mod Expiry
pub mod Episode
pub mod Backed
