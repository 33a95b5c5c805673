-- ===== src/Tests.antt =====
-- Concrete runs of the models, and the theorems applied to them.
mod Ledger
mod Intake
mod Planning
mod Management
mod Broker
mod Stops
mod Execution
mod Recovery
mod Rounds
mod Handling
mod Expiring
mod Monitoring
mod AccountCache
