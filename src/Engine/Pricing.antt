-- ===== src/Engine/Pricing.antt =====
-- What `Engine.plan` of relay/core.py reads of the broker, the watches and the clock, and the price
-- and the account checks that it makes with it.
use discord_option_tailer.Base.Decimal
use discord_option_tailer.Base.{
  Bool, Except, List, Option, [], false, guarded, if◌then◌else◌, none, not, ok, raise, raise_if,
  same_option, some, true, ℕ, ◌&&◌, ◌>>=◌, ◌>>◌, ◌||◌, ◌∷◌,
}
use discord_option_tailer.Base.Decimal.{Decimal, is_zero, of_ℕ}
use discord_option_tailer.Engine.Guards.{
  Binding, Hold, Memory, bad_prepared, bad_spread, chase_exceeded, check_quote_age, is_live,
  is_paper, market_closed, not_standard, paid, restricted, sizing_failed, wrong_account,
  wrong_quote, zero_price,
}
use discord_option_tailer.Sizing.{
  Account, ChaseEvaluation, Risk, SizeError, entry_chase_evaluation, entry_chase_within_cap,
}
use discord_option_tailer.Store.Rows.{Contract, Decision, is_entry, same_contract}

-- A quote, or an entry that the watches prepared. `standard` says whether multiplier, currency and
-- asset type are 100, USD and equity_option; `contract` is `none` where it is no contract.
pub record Quote : Type 0 where
  pub contract : Option Contract
  pub tradable : Bool
  pub standard : Bool
  pub timestamp : Option ℕ
  pub bid : Option Decimal
  pub ask : Option Decimal
  pub tick_size : Option Decimal

-- `broker.snapshot()`
pub record Snapshot : Type 0 where
  pub account_id : Option ℕ
  pub restrictions : Bool
  pub market_open : Bool
  pub timestamp : Option ℕ
  pub account : Account

-- The guard that the caller passes, with its answer: of a recovery, of an expiry exit, or none.
pub data PlanGuard : Type 0 where
  ordinary : PlanGuard
  recovery_guard expiry_guard : Except Hold (Unit {0}) → PlanGuard

abbrev pub is_expiry : PlanGuard → Bool
is_expiry (expiry_guard r) = true
is_expiry _ = false

-- What the engine reads while it plans. `prepare` is the broker's prepared_entry, `watched` whether a
-- watch matches, `today` the date in New York, and the last three are the times of the later checks.
pub record Surroundings : Type 0 where
  pub binding : Binding
  pub risk : Risk
  pub memory : Memory
  pub now : ℕ
  pub today : ℕ
  pub watched : Bool
  pub prepare : Contract → Decimal → Option Quote
  pub quote : Quote
  pub snapshot : Snapshot
  pub quoted_at : ℕ
  pub snapshot_checked_at : ℕ
  pub planned_at : ℕ

abbrev pub round_down : Decimal → Decimal → Decimal
round_down price tick = Decimal.mul (of_ℕ (Decimal.floor (Decimal.div price tick))) tick

abbrev pub round_up : Decimal → Decimal → Decimal
round_up price tick = Decimal.mul (of_ℕ (Decimal.ceiling (Decimal.div price tick))) tick

abbrev pub is_contract : Contract → Option Contract → Bool
is_contract c none = false
is_contract c (some e) = same_contract e c

-- The price of an entry that the watches prepared: the chase ceiling in whole ticks, asked twice since
-- the tick depends on the price.
unfoldable pub prepared_price :
    Surroundings → Decision → Contract → Except Hold (Option (Quote × Decimal))
prepared_price w d c = do
  alert ← paid d.alert_price
  let ceiling = Decimal.mul alert (Decimal.add (of_ℕ 1) w.risk.max_chase_fraction)
  elim (w.prepare c ceiling) [
    | none ↦ ok none
    | some q ↦ do
      raise_if (not (is_contract c q.contract && (q.tradable && q.standard))) bad_prepared
      tick ← paid q.tick_size
      let capped = round_down ceiling tick
      elim (w.prepare c capped) [
        | none ↦ ok none
        | some r ↦ do
          finer ← paid r.tick_size
          let price = round_down capped finer
          raise_if (is_zero price || Decimal.lt ceiling price) chase_exceeded
          ok (some (r, price))
      ]
  ]

unfoldable pub choose_prepared :
    Surroundings → Decision → Contract → Except Hold (Option (Quote × Decimal))
choose_prepared w d c =
    if is_live w.binding.mode && (is_entry d.action && w.watched)
    then prepared_price w d c
    else ok none

abbrev pub sizes : {A : Type 0} → Except SizeError A → Except Hold A
sizes (ok a) = ok a
sizes (raise e) = raise sizing_failed

unfoldable pub check_cap : Except Hold ChaseEvaluation → Except Hold (Unit {0})
check_cap result = do e ← result; raise_if (not (entry_chase_within_cap e)) chase_exceeded

-- The chase limit of an entry.
unfoldable pub check_chase : Surroundings → Decision → Decimal → Decimal → Except Hold (Unit {0})
check_chase w d ask price =
    if is_entry d.action
    then check_cap (
        sizes (
          entry_chase_evaluation (some ask) d.alert_price (some price)
            (some w.risk.max_chase_fraction)))
    else ok tt

abbrev pub is_wide : Risk → Decimal → Decimal → Bool
is_wide risk bid ask = Decimal.lt risk.max_spread_fraction (Decimal.div (Decimal.sub ask bid) ask)

-- `checked_quote` for a fresh quote.
unfoldable pub fresh_quote :
    Surroundings → PlanGuard → Decision → Contract → Except Hold (Quote × Decimal)
fresh_quote w guard d c = do
  raise_if (not (is_contract c w.quote.contract && w.quote.tradable)) wrong_quote
  raise_if (not w.quote.standard) not_standard
  check_quote_age w.risk w.quote.timestamp w.quoted_at
  bid ← paid w.quote.bid
  ask ← paid w.quote.ask
  tick ← paid w.quote.tick_size
  raise_if
      (Decimal.lt ask tick
        || (Decimal.lt ask bid || (not (is_expiry guard) && is_wide w.risk bid ask)))
      bad_spread
  let price = if is_entry d.action then round_up ask tick else round_down bid tick
  raise_if (is_zero price) zero_price
  check_chase w d ask price
  ok (w.quote, price)

unfoldable pub snapshot_guards : Surroundings → List (Bool × Hold)
snapshot_guards w =
    (
      not (is_paper w.binding.mode) && not (same_option w.snapshot.account_id w.binding.account),
      wrong_account,
    )
    ∷ (w.snapshot.restrictions, restricted)
    ∷ (not w.snapshot.market_open, market_closed)
    ∷ []

unfoldable pub check_snapshot : Surroundings → Except Hold (Unit {0})
check_snapshot w =
    guarded (snapshot_guards w) (check_quote_age w.risk w.snapshot.timestamp w.snapshot_checked_at)

-- `checked_quote`: the prepared entry where there is one.
unfoldable pub choose_price :
    Surroundings
    → PlanGuard
    → Decision
    → Contract
    → Option (Quote × Decimal)
    → Except Hold (Quote × Decimal)
choose_price w guard d c (some prepared) = ok prepared
choose_price w guard d c none = fresh_quote w guard d c
