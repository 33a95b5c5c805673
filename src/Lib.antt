-- ===== src/Lib.antt =====
-- The order ledger and the decision controls of the relay, a program that turns option alerts of two
-- Discord channels into broker orders.
--
-- Parts and files.
--   Store, class Store of relay/core.py. Store/Rows: the tables' rows. Store/State: the tables and
--     the queries over them. Store/Orders: reserve, arm_entry_deadline, persist_active_order_body,
--     save_stop_request, mark_unknown, reject_before_submission, _sync_order_event and what a
--     restart does. Store/Fills: apply_result; a call returns the error that it raises, if any, and
--     the store that it leaves. Store/Lifecycle: all order writes as a step relation.
--     Store/Intake: observe, with record_episode of relay/episodes.py. Store/Claims: begin_evaluation,
--     claim_evaluation and finish_evaluation.
--   Sizing: entry_size, entry_chase_evaluation and entry_chase_within_cap of relay/core.py.
--   Engine, class Engine of relay/core.py. Engine/Guards: the checks that its methods share, such as
--     _unchanged, fresh, origin and check_exit_profit. Engine/Pricing: the quotes, the account
--     snapshot and the prices of an order. Engine/Plan: plan, which turns a decision into
--     the order that reserve then writes. What the broker, the watches and the clock answer is a record
--     of arguments, and the two SHA-256 digests are parameters.
--     Engine/Dispatch: verify_dispatch, the checks between the plan and the submission. Engine/Expiry:
--     resolve_expiry. Engine/Episode: guard_position_episode.
--   Episodes, resolve_episode of relay/episodes.py: the entry that a management comment is about. The
--     reader of free text, deterministic_management, is a parameter.
--   Broker, relay/broker.py. Broker/Budget: the request budget of an account, one operation under its
--     lock at a time. Broker/Paper: the simulated broker, its quotes and its orders.
--   Stops, class StopLoss of relay/stops.py, as calls that read and write the ledger. Stops/Cancel:
--     cancel and before_exit. Stops/Arm and Stops/Place: arm, after_exit and restore. Stops/Update and
--     Stops/Maintain: update and maintain.
--   Execution, execute_decision of relay/core.py: the plan, the stops, the dispatch checks, the
--     reservation and the submission as one call on the ledger. Other tasks may write between its
--     steps. Store/Outcomes: Store.record.
--   Handling, handle of relay/core.py: a message from its arrival to its outcome. It composes the
--     intake, the claims, the episodes and the execution; other tasks write while the model works and
--     while the engine's lock is awaited.
--     Handling/Writes: its writes as steps of any relation on ledgers, which two theorems share.
--   Recovery, relay/recovery.py: the reconciliation of one order, and when the next round is due.
--     Recovery/Round: a round over all orders and stops. Recovery/Guard: exit_guard, the checks of an
--     exit that was missed and is made up for.
--   Expiry, ExpiryExits of relay/expiry.py: options that expire in the money are sold in the last hour.
--   Monitor, relay/monitor_contract.py: the validation of a position monitor's plan, from a JSON value.
--   Account, AccountCache of relay/account.py: when the displayed account values are read again.
--   Tests: concrete runs of all of these.
--   Base: shared notation, lists, errors, and Decimal values.
--
-- Conventions. Identifiers, source groups, revisions and opaque texts are numbers, since the code
-- only compares them. Times are microseconds. Python's Decimal is an exact fraction: the rounding of
-- a quotient to 28 digits is left out. A write in a transaction that raises changes nothing. A list
-- stands for a table with its newest row first.
--
-- Not modelled: SQLite itself and its files, the network clients, the browser, the model prompts, the
-- dashboard and the telemetry; what comes from them is an argument of the functions. Of
-- relay/recovery.py the scans for missed alerts, and of relay/expiry.py the body of the exit's guard,
-- are left out.
pub mod Base
pub mod Store
pub mod Account
pub mod Broker
pub mod Engine
pub mod Episodes
pub mod Execution
pub mod Expiry
pub mod Handling
pub mod Monitor
pub mod Recovery
pub mod Sizing
pub mod Stops
pub mod Tests
