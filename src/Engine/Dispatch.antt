-- ===== src/Engine/Dispatch.antt =====
-- `Engine.verify_dispatch` of relay/core.py: the intent is checked again before an order is
-- submitted, once before and once after the source is verified. The trace of the checks and the
-- diagnostics that it writes into the order's body are left out.
pub mod Reviewed
use discord_option_tailer.Base.Decimal
use discord_option_tailer.Base.{
  Bool, Except, List, Option, [], false, guarded, if◌then◌else◌, leb, ltb, need, none, not, ok,
  raise_if, same_option, some, true, ℕ, ◌&&◌, ◌==◌, ◌>>=◌, ◌>>◌, ◌||◌, ◌∷◌,
}
use discord_option_tailer.Base.Decimal.{Decimal, of_ℕ}
use discord_option_tailer.Engine.Guards.{
  Binding, Claim, Hold, Memory, OrderColumns, PositionColumns, bad_spread, capacity_fell,
  chase_exceeded, check_execution_mode, check_exit_profit, check_quote_age, fresh,
  kill_switch_present, only_close, only_exit, origin, paid, restricted, session_changed,
  source_unverified, unchanged, watch_changed, window_elapsed, wrong_quote,
}
use discord_option_tailer.Engine.Plan.{is_close}
use discord_option_tailer.Engine.Pricing.{
  PlanGuard, Quote, Snapshot, expiry_guard, is_contract, is_expiry, is_wide, ordinary,
  recovery_guard, round_down, sizes,
}
use discord_option_tailer.Sizing.{Risk, entry_chase_evaluation, entry_chase_within_cap, entry_size}
use discord_option_tailer.Store.Rows.{Body, Contract, Decision, is_buy, is_exit}
use discord_option_tailer.Store.State.{Message, Store}

-- What one round of checks reads. `snapshot` and `quote` are there once the broker has reviewed the
-- order; `order_quote_at` and `order_account_at` are the times that the plan wrote into the order.
pub record Round : Type 0 where
  pub binding : Binding
  pub risk : Risk
  pub memory : Memory
  pub now : ℕ
  pub kill_switch : Bool
  pub watch_matches : Bool
  pub claim : Option Claim
  pub quote : Option Quote
  pub snapshot : Option Snapshot
  pub order_quote_at : Option ℕ
  pub order_account_at : Option ℕ

-- An elapsed validity window of a prepared entry.
abbrev pub is_elapsed : ℕ → Body → Bool
is_elapsed now b =
    b.prepared_entry
    && (elim b.cancellation.entry_cancel_at [ none ↦ false | some at ↦ leb at now ])

unfoldable pub readiness_guards : Round → Body → List (Bool × Hold)
readiness_guards r b =
    (r.kill_switch, kill_switch_present)
    ∷ (is_elapsed r.now b, window_elapsed)
    ∷ (b.prepared_entry && not r.watch_matches, watch_changed)
    ∷ []

-- The quote of a review, or else the one that the plan was made with; a prepared entry has neither.
unfoldable pub check_order_quote : Round → Body → Except Hold (Unit {0})
check_order_quote r b = elim r.quote [
  | some q ↦ check_quote_age r.risk q.timestamp r.now
  | none ↦ if b.prepared_entry then ok tt else check_quote_age r.risk r.order_quote_at r.now
]

unfoldable pub check_snapshot_age : Round → Except Hold (Unit {0})
check_snapshot_age r = elim r.snapshot [
  | some x ↦ check_quote_age r.risk x.timestamp r.now
  | none ↦ check_quote_age r.risk r.order_account_at r.now
]

-- The bound account is compared in every mode here.
unfoldable pub session_guards : Round → Snapshot → List (Bool × Hold)
session_guards r x =
    (not (same_option x.account_id r.binding.account) || not x.market_open, session_changed)
    ∷ (x.restrictions, restricted)
    ∷ []

abbrev pub chase_limit : Risk → Decimal → Decimal
chase_limit risk alert = Decimal.mul alert (Decimal.add (of_ℕ 1) risk.max_chase_fraction)

-- "entry_chase": the limit price is within the cap, and so is the ask unless the entry is prepared.
unfoldable pub check_review_chase : Risk → Decision → Body → Decimal → Except Hold (Unit {0})
check_review_chase risk d b ask = do
  evaluation ←
      sizes (
        entry_chase_evaluation (some ask) d.alert_price b.limit_price
          (some risk.max_chase_fraction))
  price ← paid b.limit_price
  alert ← paid d.alert_price
  raise_if (not (Decimal.le price (chase_limit risk alert))) chase_exceeded
  raise_if (not b.prepared_entry && not (entry_chase_within_cap evaluation)) chase_exceeded

-- "entry_capacity"
unfoldable pub check_capacity :
    Risk → Message → Decision → Contract → Body → Snapshot → Except Hold (Unit {0})
check_capacity risk m d c b x = do
  z ← sizes (entry_size risk x.account c.symbol d.confidence b.limit_price m.source_group)
  raise_if (ltb z.quantity b.quantity) capacity_fell

unfoldable pub check_review_exit :
    Risk → Message → Decision → Contract → Body → Quote → Decimal → Store → Except Hold (Unit {0})
check_review_exit risk m d c b q bid s = do
  tick ← paid q.tick_size
  check_exit_profit risk m d c b.quantity (some (round_down bid tick)) b.limit_price s

-- What the reviewed quote and account must still allow.
unfoldable pub check_side :
    Risk
    → Message
    → Decision
    → Contract
    → Body
    → Quote
    → Snapshot
    → Decimal
    → Decimal
    → Store
    → Except Hold (Unit {0})
check_side risk m d c b q x bid ask s =
    if is_buy b.side
    then (check_review_chase risk d b ask >> check_capacity risk m d c b x)
    else check_review_exit risk m d c b q bid s

unfoldable pub check_review :
    Round
    → PlanGuard
    → Message
    → Decision
    → Contract
    → Body
    → Snapshot
    → Store
    → Except Hold (Unit {0})
check_review r guard m d c b x s = do
  guarded (session_guards r x) (ok tt)
  q ← need r.quote wrong_quote
  raise_if (not (is_contract c q.contract && q.tradable)) wrong_quote
  bid ← paid q.bid
  ask ← paid q.ask
  raise_if (Decimal.lt ask bid || (not (is_expiry guard) && is_wide r.risk bid ask)) bad_spread
  check_side r.risk m d c b q x bid ask s

unfoldable pub review :
    Round → PlanGuard → Message → Decision → Contract → Body → Store → Except Hold (Unit {0})
review r guard m d c b s = elim r.snapshot [
  | none ↦ ok tt
  | some x ↦ check_review r guard m d c b x s
]

-- What the source's verification is asked and answers: whether the caller asks for it, whether the
-- configuration requires it, the message that is verified, and `verify_current`, which refuses every
-- message where it is not set.
pub record Verification : Type 0 where
  pub asked : Bool
  pub configured : Bool
  pub message : Message
  pub confirms : Message → Bool

abbrev pub is_recovery : PlanGuard → Bool
is_recovery (recovery_guard result) = true
is_recovery _ = false

-- The recovery guard runs once more, for the latest message ID.
abbrev pub rerun : PlanGuard → Except Hold (Unit {0})
rerun (recovery_guard result) = result
rerun _ = ok tt

unfoldable pub verify_messages :
    Verification → PlanGuard → Message → Decision → Memory → Store → Except Hold (Unit {0})
verify_messages v guard m d mem s = do
  rerun guard
  raise_if (not (v.confirms v.message)) source_unverified
  o ← origin m d mem s
  raise_if (is_recovery guard && (not (o.id == v.message.id) && not (v.confirms o)))
      source_unverified

unfoldable pub verify_source :
    Verification → PlanGuard → Message → Decision → Memory → Store → Except Hold (Unit {0})
verify_source v guard m d mem s =
    if v.asked && (not (is_expiry guard) && (is_recovery guard || v.configured))
    then verify_messages v guard m d mem s
    else ok tt

module _ (digest : List PositionColumns × List OrderColumns → ℕ) where
  -- The intent: a fresh, unchanged message and origin, or the guard that stands in for them.
  unfoldable pub check_intent :
      Round → PlanGuard → Message → Decision → Body → Store → Except Hold (Unit {0})
  check_intent r ordinary m d b s = do
    fresh r.risk m r.now
    o ← origin m d r.memory s
    fresh r.risk o r.now
    unchanged digest r.claim m r.memory s
  check_intent r (recovery_guard result) m d b s =
      raise_if (not (is_exit d.action) || is_buy b.side) only_close >> result
  check_intent r (expiry_guard result) m d b s =
      raise_if (not (is_close d.action) || is_buy b.side) only_exit >> result

  -- `current`
  unfoldable pub current :
      Round → PlanGuard → Message → Decision → Contract → Body → Store → Except Hold (Unit {0})
  current r guard m d c b s = do
    check_intent r guard m d b s
    check_execution_mode r.binding
    guarded (readiness_guards r b) (ok tt)
    check_order_quote r b
    check_snapshot_age r
    review r guard m d c b s

  -- `verify_dispatch`. Its second round reads the memory and the store as they are by then, and a guard
  -- may answer otherwise each of the three times that it runs.
  unfoldable pub verify_dispatch :
      Round
      → Store
      → Verification
      → Round
      → Store
      → PlanGuard
      → PlanGuard
      → PlanGuard
      → Message
      → Decision
      → Contract
      → Body
      → Except Hold (Unit {0})
  verify_dispatch r s v r' s' guard asked guard' m d c b = do
    current r guard m d c b s
    verify_source v asked m d r'.memory s'
    current r' guard' m d c b s'
