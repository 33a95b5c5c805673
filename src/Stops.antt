-- ===== src/Stops.antt =====
-- Protective stops, class StopLoss of relay/stops.py: a call reads and writes the ledger, and what the
-- broker answers is an argument. A call that raises leaves what it has written so far.
pub mod Cancel
pub mod Arm
pub mod Place
pub mod Kept
pub mod Unarmed
pub mod Moves
pub mod Clear
pub mod Maintain
pub mod Update
use discord_option_tailer.Base.{
  Bool, Except, List, Option, false, find, not, ok, raise, select, true, update, ℕ, ◌&&◌, ◌==◌,
}
use discord_option_tailer.Engine.Guards.{Hold, is_retry}
use discord_option_tailer.Store.Orders.{OrderError, duplicate_id, no_position, or_else}
use discord_option_tailer.Store.Rows.{
  Contract, Order, Position, StopNote, StopRequest, StopStatus, engine_refused, is_terminal,
  is_update_stop, operation_failed, same_contract, stop_note,
}
use discord_option_tailer.Store.State.{Store, find_position, order_at, positions}

pub data StopError : Type 0 where
  engine_hold : Hold → StopError
  retry_later stop_hold : StopNote → StopError
  order_hold : OrderError → StopError
  failed : StopError

-- RetryHold, and Hold of which it is a kind.
abbrev pub is_retry_error : StopError → Bool
is_retry_error (retry_later n) = true
is_retry_error (engine_hold h) = is_retry h
is_retry_error _ = false

abbrev pub note_of : StopError → StopNote
note_of (retry_later n) = n
note_of (stop_hold n) = n
note_of (engine_hold h) = engine_refused
note_of (order_hold e) = engine_refused
note_of failed = operation_failed

-- What the ledger's order writes raise: a Hold, but for SQLite's refusal of a second row with an ID and
-- for a position that is not there.
abbrev pub order_error : OrderError → StopError
order_error duplicate_id = failed
order_error no_position = failed
order_error e = order_hold e

-- A call on the ledger.
abbrev pub Act : Type 0 → Type 0
Act A = Store → Except StopError A × Store

infixl 5 ◌▷◌
abbrev pub ◌▷◌ : {A B : Type 0} → Act A → (A → Act B) → Act B
◌▷◌ m k s = let (r, t) = m s in elim r [ ok a ↦ k a t | raise e ↦ (raise e, t) ]

abbrev pub returns : {A : Type 0} → A → Act A
returns a s = (ok a, s)

abbrev pub refuses : {A : Type 0} → StopError → Act A
refuses e s = (raise e, s)

-- A check of the engine, which only reads.
abbrev pub checks : {A : Type 0} → Except Hold A → Act A
checks (ok a) s = (ok a, s)
checks (raise h) s = (raise (engine_hold h), s)

-- `owned`: only rows that hold contracts count.
abbrev pub owned : ℕ → Contract → Store → Option Position
owned g c s = find_position g c (positions s)

-- `active_orders`
unfoldable pub is_active_stop : ℕ → Contract → Order → Bool
is_active_stop g c o = order_at g c o && (is_update_stop o.action && not (is_terminal o.status))

unfoldable pub active_orders : ℕ → Contract → Store → List Order
active_orders g c s = select (is_active_stop g c) s.orders

abbrev pub is_stop_of : ℕ → Contract → StopRequest → Bool
is_stop_of g c r = r.source_group == g && same_contract r.contract c

-- `get`
abbrev pub get_stop : ℕ → Contract → Store → Option StopRequest
get_stop g c s = find (is_stop_of g c) s.stop_requests

pub record StopResult : Type 0 where
  pub status : StopStatus
  pub note : StopNote
  pub order_id : Option ℕ

-- UPDATE stop_requests SET ... WHERE source_group=? AND contract=?
abbrev pub update_stop_row : ℕ → Contract → (StopRequest → StopRequest) → Store → Store
update_stop_row g c f s = record s { stop_requests = update (is_stop_of g c) f s.stop_requests }

-- `state`: COALESCE keeps the order of the row where none is given.
unfoldable pub set_state : StopRequest → StopStatus → StopNote → Option ℕ → Act StopResult
set_state row status note order s = (
  ok (record { status = status; note = note; order_id = or_else order row.order_id }),
  update_stop_row row.source_group row.contract
      (λ r. record r {
        status = status;
        reason = stop_note note;
        order_id = or_else order r.order_id;
      })
      s,
)
