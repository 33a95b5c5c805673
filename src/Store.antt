-- ===== src/Store.antt =====
-- class Store of relay/core.py: the SQLite ledger of messages, events, orders and positions.
pub mod Rows
pub mod State
pub mod Intake
pub mod Claims
pub mod Outcomes
pub mod Orders
pub mod Fills
pub mod Lifecycle
