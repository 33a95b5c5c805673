-- ===== src/Broker/Paper.antt =====
-- The simulated broker, `PaperBroker` of relay/broker.py. A contract's key is the contract itself,
-- and texts that the code parses are here what they are parsed to.
pub mod Quotes
pub mod Orders
