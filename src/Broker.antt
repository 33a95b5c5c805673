-- ===== src/Broker.antt =====
-- The broker side of the relay (relay/broker.py).
pub mod Budget
pub mod Paper
