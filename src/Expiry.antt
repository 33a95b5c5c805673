-- ===== src/Expiry.antt =====
-- Expiry exits, class ExpiryExits of relay/expiry.py: what the relay owns of an option that expires
-- today in the money is sold in the last hour of the session. The guard of the exit is an argument, with
-- what it answers each time; `expiry_exit` and the diagnostics of the decision are left out.
pub mod Apart
use discord_option_tailer.Base.Decimal
use discord_option_tailer.Base.{
  Bool, Except, List, Option, [], false, find, if◌then◌else◌, is_some, leb, length, none, not, ok,
  raise, raise_if, select, some, true, ℕ, ◌&&◌, ◌+◌, ◌==◌, ◌>>=◌, ◌>>◌, ◌∷◌,
}
use discord_option_tailer.Base.Decimal.{Decimal, of_ℕ}
use discord_option_tailer.Engine.Guards.{
  check_quote_age, exchange_closed, exit_pending, no_entry_to_exit, paid, session_unavailable,
  wrong_quote,
}
use discord_option_tailer.Execution.{Digests, ExecutionWorld, execute_decision}
use discord_option_tailer.Handling.{failure_state}
use discord_option_tailer.Recovery.Guard.{last_made}
use discord_option_tailer.Sizing.{Risk}
use discord_option_tailer.Stops.{Act, StopError, engine_hold, refuses, ◌▷◌}
use discord_option_tailer.Stops.Arm.{engine_check, settles}
use discord_option_tailer.Store.Intake.{first_event, is_event_of}
use discord_option_tailer.Store.Outcomes.{record_outcome}
use discord_option_tailer.Store.Rows.{
  Contract, Decision, EventState, Order, Position, Submission, call, close, context, detail, held,
  put, rejected, same_status,
}
use discord_option_tailer.Store.State.{Message, Store, find_position, is_acquired_entry, positions}

pub record Underlying : Type 0 where
  pub symbol : ℕ
  pub timestamp : Option ℕ
  pub price : Option Decimal

-- What the check of one position reads beside the ledger: `session` is the open and the close of the
-- exchange, `none` where they are not known, `underlying` the broker's underlying_quote and `julianday`
-- SQLite's.
pub record ExitWorld : Type 0 where
  pub risk : Risk
  pub session : Option (ℕ × ℕ)
  pub now : ℕ
  pub julianday : ℕ → ℕ
  pub quoted_at : ℕ
  pub underlying : Except StopError Underlying
  pub execution : ExecutionWorld
  pub words : Option Submission
  pub text : ℕ

unfoldable pub is_in_money : Contract → Decimal → Bool
is_in_money c price = elim c.option_type [
  | call ↦ Decimal.lt c.strike price
  | put ↦ Decimal.lt price c.strike
]

-- `underlying`: whether the option is in the money.
unfoldable pub read_underlying : ExitWorld → Contract → Except StopError Bool
read_underlying w c = do
  q ← w.underlying
  engine_check (check_quote_age w.risk q.timestamp w.quoted_at)
  raise_if (not (q.symbol == c.symbol)) (engine_hold wrong_quote)
  price ← engine_check (paid q.price)
  strike ← engine_check (paid (some c.strike))
  ok (is_in_money c price)

unfoldable pub check_session : ExitWorld → Except StopError (Unit {0})
check_session w = elim w.session [
  | none ↦ raise (engine_hold session_unavailable)
  | some (opens, closes) ↦ raise_if (leb closes w.now) (engine_hold exchange_closed)
]

-- `entry`
unfoldable pub entry_order : ExitWorld → Position → Store → Option Order
entry_order w p s =
    last_made w.julianday (select (is_acquired_entry p.source_group p.contract) s.orders)

abbrev pub order_id_or_none : Option Order → Option ℕ
order_id_or_none none = none
order_id_or_none (some o) = some o.id

-- An order of the event that never left.
unfoldable pub never_left : Order → Bool
never_left o =
    same_status o.status rejected && (not (is_some o.broker_id) && o.filled_quantity == 0)

unfoldable pub failed_attempts : ℕ → List Order → ℕ
failed_attempts k os = length (select (λ o. o.message_id == k && never_left o) os)

-- The event's message is no Discord message: it has no channel and no author.
unfoldable pub exit_message : ℕ → ℕ → Position → ℕ → Message
exit_message k revision p now = record {
  id = k;
  channel_id = 0;
  author_id = 0;
  source_group = p.source_group;
  timestamp = now;
  edited_timestamp = none;
  revision = revision;
  content = 0;
  transport_revision = none;
  media = 0;
  reply_to = none;
  declares = false;
}

-- INSERT OR IGNORE INTO events
unfoldable pub add_event : Message → ℕ → Store → Store
add_event m text s = if is_some (find (is_event_of m.id m.revision) s.events) then s else record s {
  events =
      record (first_event m m.timestamp s.events) { state = held; reason = detail text } ∷ s.events;
}

abbrev pub exit_decision : Position → Decision
exit_decision p = record {
  action = close;
  contract = some p.contract;
  quantity = none;
  fraction = none;
  alert_price = none;
  stop_price = none;
  ambiguous = some false;
  confidence = some (of_ℕ 1);
  origin_message_id = none;
  evidence = [];
  by_rules = false;
  profit_only = some false;
}

abbrev pub is_held_state : EventState → Bool
is_held_state held = true
is_held_state _ = false

abbrev pub notes_exit : ExitWorld → Message → Decision → EventState → Store → Store
notes_exit w m d state s = record_outcome m state (detail w.text) (some d) w.words s

-- A result that is held is recorded once more.
unfoldable pub report_exit : ExitWorld → Message → Decision → EventState → Act EventState
report_exit w m d state s =
    if is_held_state state then (ok held, notes_exit w m d held s) else (ok state, s)

unfoldable pub end_exit :
    ExitWorld → Message → Decision → Except StopError EventState × Store → Store
end_exit w m d (ok state, t) = t
end_exit w m d (raise e, t) = notes_exit w m d (failure_state e) t

abbrev pub in_window : Option (ℕ × ℕ) → ℕ → Bool
in_window none now = true
in_window (some (opens, closes)) now = leb closes (now + 3600000000)

abbrev pub expires_on : ℕ → Position → Bool
expires_on today p = p.contract.expiry == today

-- `event_id` and `event_revision` are the digest of a position with its entry, and the revision's text
-- with the number of the attempts that never left. `others` is what other tasks write during the
-- execution, and `reconcile` a round of reconciliation.
module _ (h : Digests) (others : ℕ → Store → Store) (reconcile : Store → Store)
    (event_id : ℕ → Contract → Option ℕ → ℕ) (event_revision : ℕ → ℕ) where
  unfoldable pub sell_expiring : ExitWorld → Message → Decision → Act EventState
  sell_expiring w m d =
      execute_decision h others w.execution m d ▷ (λ state. report_exit w m d state)

  -- An order of the event that reached the broker, or may have, is never replaced.
  unfoldable pub exit_once : ExitWorld → Message → Decision → Option Order → Act EventState
  exit_once w m d none = sell_expiring w m d
  exit_once w m d (some o) =
      if never_left o then sell_expiring w m d else refuses (engine_hold exit_pending)

  unfoldable pub exit_in_money : ExitWorld → Message → Decision → Bool → Act EventState
  exit_in_money w m d itm s =
      if itm
      then exit_once w m d (find (λ o. o.message_id == m.id) s.orders) s
      else (ok context, notes_exit w m d context s)

  unfoldable pub exit_entry : ExitWorld → Message → Position → Option Order → Act EventState
  exit_entry w m p none = refuses (engine_hold no_entry_to_exit)
  exit_entry w m p (some e) =
      settles (check_session w >> read_underlying w p.contract)
      ▷ (λ itm. exit_in_money w m (exit_decision p) itm)

  unfoldable pub event_of : ExitWorld → Position → Store → Message
  event_of w p s =
      let k = event_id p.source_group p.contract (order_id_or_none (entry_order w p s)) in
      exit_message k (event_revision (failed_attempts k s.orders)) p w.now

  unfoldable pub exit_owned : ExitWorld → Position → Store → Store
  exit_owned w p s =
      let m = event_of w p s in
      end_exit w m (exit_decision p) (exit_entry w m p (entry_order w p s) (add_event m w.text s))

  unfoldable pub exit_current : ExitWorld → Option Position → Store → Store
  exit_current w none s = s
  exit_current w (some p) s = exit_owned w p s

  unfoldable pub exit_positions : (Position → ExitWorld) → List Position → Store → Store
  exit_positions of_position [] s = s
  exit_positions of_position (p ∷ ps) s =
      exit_positions of_position ps
        (exit_current (of_position p) (find_position p.source_group p.contract (positions s)) s)

  unfoldable pub exit_all : (Position → ExitWorld) → List Position → Store → Store
  exit_all of_position [] s = s
  exit_all of_position (p ∷ ps) s = exit_positions of_position (p ∷ ps) (reconcile s)

  -- `check`, with the positions that expire today: before the last hour nothing is done.
  unfoldable pub check_expiring :
      Bool → ℕ → Option (ℕ × ℕ) → ℕ → (Position → ExitWorld) → Store → Store
  check_expiring observe_only today session now of_position s =
      if not observe_only && in_window session now
      then exit_all of_position (select (expires_on today) (positions s)) s
      else s
