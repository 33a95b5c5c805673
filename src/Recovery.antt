-- ===== src/Recovery.antt =====
-- The reconciliation of orders by RecoveryEvaluator of relay/recovery.py: `_entry_cancel_due`,
-- `_reconcile_order`, `_has_urgent_orders` and the time of the next round.
pub mod Answered
pub mod Pace
pub mod Guard
pub mod Round
pub mod Seen
pub mod Moves
pub mod Kept
use discord_option_tailer.Base.{
  Bool, Except, List, Option, [], any, false, if◌then◌else◌, is_some, leb, max, min, none, not, ok,
  raise, some, true, ℕ, ◌&&◌, ◌-◌, ◌||◌, ◌∷◌,
}
use discord_option_tailer.Engine.Guards.{Mode}
use discord_option_tailer.Stops.{Act, StopError, failed, order_error, refuses, ◌▷◌}
use discord_option_tailer.Stops.Arm.{is_shadow}
use discord_option_tailer.Store.Fills.{BrokerResult, apply_result}
use discord_option_tailer.Store.Orders.{OrderError, persist_active_order_body}
use discord_option_tailer.Store.Rows.{Body, Order, Status, is_entry, pending, submitting, unknown}
use discord_option_tailer.Store.State.{Store}

-- `_entry_cancel_due`
unfoldable pub entry_cancel_due : Order → ℕ → Bool
entry_cancel_due o now =
    is_entry o.action
    && (elim o.body.cancellation.entry_cancel_at [ none ↦ false | some at ↦ leb at now ])

-- What the call reads: `status_text` and `state_text` are the texts of a broker's answer, `timeout` is
-- the text "entry_timeout", and a reply is `none` where the call raises.
pub record ReconcileWorld : Type 0 where
  pub mode : Mode
  pub observe_only : Bool
  pub can_cancel : Bool
  pub now : ℕ
  pub requested_at : ℕ
  pub timeout : ℕ
  pub status_text : BrokerResult → Option ℕ
  pub state_text : BrokerResult → Option ℕ
  pub cancel_reply : Option BrokerResult
  pub status_reply : Option BrokerResult

abbrev pub asks_cancel : ReconcileWorld → Body → Body
asks_cancel w body = record body {
  cancellation = record (body.cancellation) {
    cancel_reason = some w.timeout;
    cancel_requested_at = some w.requested_at;
    cancel_result_status = none;
    cancel_result_broker_state = none;
  };
}

abbrev pub notes_answer : ReconcileWorld → BrokerResult → Body → Body
notes_answer w r body = record body {
  cancellation = record (body.cancellation) {
    cancel_result_status = w.status_text r;
    cancel_result_broker_state = w.state_text r;
  };
}

-- `apply_result` as a step of a call that may raise.
unfoldable pub take_result : ℕ → BrokerResult → Act (Unit {0})
take_result k r s =
    let a = apply_result k r s in
    if is_some a.error then (raise failed, a.store) else (ok tt, a.store)

abbrev pub writes_body : Except OrderError Store → Act (Unit {0})
writes_body (raise e) s = (raise (order_error e), s)
writes_body (ok t) s = (ok tt, t)

unfoldable pub persist : ℕ → Body → Act (Unit {0})
persist k body s = writes_body (persist_active_order_body k body s) s

unfoldable pub take_cancel : ReconcileWorld → ℕ → Body → Option BrokerResult → Act (Unit {0})
take_cancel w k body none = refuses failed
take_cancel w k body (some r) = persist k (notes_answer w r body) ▷ (λ _. take_result k r)

-- The cancellation of an expired entry: what it raises is dropped, with the writes made so far.
unfoldable pub cancel_expired : ReconcileWorld → Order → Act (Unit {0})
cancel_expired w o =
    persist o.id (asks_cancel w o.body)
    ▷ (λ _. take_cancel w o.id (asks_cancel w o.body) w.cancel_reply)

unfoldable pub ask_status : ReconcileWorld → ℕ → Option BrokerResult → Act (Unit {0})
ask_status w k none = refuses failed
ask_status w k (some r) = take_result k r

abbrev pub or_status :
    ReconcileWorld → ℕ → Except StopError (Unit {0}) × Store → Except StopError (Unit {0}) × Store
or_status w k (ok _, t) = (ok tt, t)
or_status w k (raise e, t) = ask_status w k w.status_reply t

unfoldable pub is_canceling : ReconcileWorld → Order → Bool
is_canceling w o =
    not w.observe_only && (not (is_shadow w.mode) && (entry_cancel_due o w.now && w.can_cancel))

-- `_reconcile_order`, for a row of the ledger.
unfoldable pub reconcile_order : ReconcileWorld → Order → Act (Unit {0})
reconcile_order w o s =
    if is_canceling w o
    then or_status w o.id (cancel_expired w o s)
    else ask_status w o.id w.status_reply s

abbrev pub is_doubtful : Status → Bool
is_doubtful unknown = true
is_doubtful submitting = true
is_doubtful pending = true
is_doubtful _ = false

-- `_has_urgent_orders`, for the rows that it reads: orders that have not ended.
unfoldable pub has_urgent : ℕ → List Order → Bool
has_urgent now os = any (λ o. is_doubtful o.status || entry_cancel_due o now) os

-- The time until the next round, from the same rows: half a minute at most.
unfoldable pub deadline_delay : ℕ → Order → ℕ
deadline_delay now o =
    if is_entry o.action
    then (elim o.body.cancellation.entry_cancel_at [
      | none ↦ 30000000
      | some at ↦ max 50000 (at - now)
    ])
    else 30000000

unfoldable pub order_delay : ℕ → Order → ℕ
order_delay now o = min (if is_doubtful o.status then 1000000 else 30000000) (deadline_delay now o)

unfoldable pub next_delay : ℕ → List Order → ℕ
next_delay now [] = 30000000
next_delay now (o ∷ os) = min (order_delay now o) (next_delay now os)
