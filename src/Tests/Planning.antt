-- ===== src/Tests/Planning.antt =====
-- Runs of the planner (relay/core.py): an entry of two contracts and the trim of a position of three.
use discord_option_tailer.Base.Decimal
use discord_option_tailer.Base.{Except, [], false, none, ok, refl, some, true, ℕ, ◌∷◌, ◌≡◌}
use discord_option_tailer.Base.Decimal.{Decimal, of_ℕ}
use discord_option_tailer.Engine.Dispatch.{
  Round, Verification, check_intent, check_order_quote, check_review, check_review_exit, check_side,
  check_snapshot_age, current, readiness_guards, review, session_guards, verify_dispatch,
  verify_source,
}
use discord_option_tailer.Engine.Dispatch.Reviewed.{IsReviewed, verify_dispatch-IsReviewed}
use discord_option_tailer.Engine.Guards.{
  Binding, Hold, check_entry_lifetime, check_execution_mode, check_exit_profit, check_quote_age,
  claim_guards, find_origin, fresh, get_or, is_profitable, is_stale, latest_known, latest_stored,
  message_guards, origin, paid, paper, unchanged,
}
use discord_option_tailer.Engine.Plan.{
  Planned, admission_guards, check_exit, check_guard, check_lifetime, decision_guards, is_duplicate,
  order_body, plan, plan_order, planned_quantity, recheck_quote, sale_quantity, trim_quantity,
  wanted_quantity,
}
use discord_option_tailer.Engine.Plan.Safe.{IsSafe, plan-IsSafe}
use discord_option_tailer.Engine.Pricing.{
  Quote, Surroundings, check_cap, check_chase, check_snapshot, choose_prepared, choose_price,
  fresh_quote, ordinary, snapshot_guards,
}
use discord_option_tailer.Sizing.{
  Account, Risk, Size, above_zero, allocate, budget_of, chase_ceiling, confidence_allocation_cap,
  confidence_cap, deviation_percent, entry_chase_evaluation, entry_chase_within_cap, entry_size,
  exposure_of, exposure_values, find_stats, limits_of, per_contract, read_exposures, risk_fraction,
  sized, total_exposure,
}
use discord_option_tailer.Sizing.Affordable.{IsGranted, entry_size-IsGranted}
use discord_option_tailer.Store.Rows.{Decision, reduce, same_contract}
use discord_option_tailer.Store.State.{
  Message, Store, is_acquired_entry, order_at, position_at, positions, unresolved,
}
use discord_option_tailer.Tests.Ledger.{empty_store, open_decision, option_contract, signal}

abbrev pub hundredths : ℕ → Decimal
hundredths n = record { num = n; den_pred = 99 }

abbrev pub cautious : Risk
cautious = record {
  min_confidence = hundredths 80;
  entry_risk_min_fraction = hundredths 1;
  entry_risk_max_fraction = hundredths 5;
  fractional_kelly = hundredths 25;
  max_position_fraction = hundredths 10;
  max_total_exposure_fraction = hundredths 50;
  buying_power_reserve_fraction = hundredths 10;
  fee_reserve_per_contract = of_ℕ 1;
  max_spread_fraction = hundredths 20;
  max_chase_fraction = hundredths 10;
  max_signal_age = 60000000;
  max_quote_age = 10000000;
  duplicate_window = 300000000;
  allow_same_day_expiry = false;
  strategy_stats = [];
}

abbrev pub cash_account : Account
cash_account = record {
  equity = some (of_ℕ 10000);
  buying_power = some (of_ℕ 9000);
  exposures = some [];
}

abbrev pub paper_binding : Binding
paper_binding = record {
  mode = paper;
  account = none;
  config_mode = paper;
  config_account = none;
  enable_live_orders = false;
}

abbrev book_quote : Quote
book_quote = record {
  contract = some option_contract;
  tradable = true;
  standard = true;
  timestamp = some 2000;
  bid = some (hundredths 140);
  ask = some (hundredths 150);
  tick_size = some (hundredths 5);
}

abbrev pub around : Surroundings
around = record {
  binding = paper_binding;
  risk = cautious;
  memory = record { observations = []; source_latest = [] };
  now = 2000;
  today = 20400;
  watched = false;
  prepare = λ c ceiling. none;
  quote = book_quote;
  snapshot = record {
    account_id = none;
    restrictions = false;
    market_open = true;
    timestamp = some 2000;
    account = cash_account;
  };
  quoted_at = 2100;
  snapshot_checked_at = 2100;
  planned_at = 2200;
}

-- Opens all that a run of the planner computes with.
unfoldable pub planned_run : Surroundings → Message → Decision → Store → Except Hold Planned
unfolding plan check_execution_mode decision_guards check_lifetime check_entry_lifetime check_guard
    fresh is_stale admission_guards is_duplicate unresolved wanted_quantity sale_quantity
    trim_quantity positions position_at same_contract plan_order choose_prepared choose_price
    fresh_quote check_quote_age paid check_chase check_cap entry_chase_evaluation above_zero
    deviation_percent entry_chase_within_cap chase_ceiling check_snapshot snapshot_guards
    planned_quantity entry_size read_exposures exposure_values risk_fraction find_stats
    confidence_cap limits_of exposure_of total_exposure budget_of per_contract allocate sized
    recheck_quote check_exit check_exit_profit is_profitable order_body order_at is_acquired_entry
    Decimal.le Decimal.lt Decimal.eq Decimal.mul Decimal.sub Decimal.div Decimal.add Decimal.floor
    Decimal.ceiling
planned_run w m d s = plan (λ m d c. 77) w ordinary m d s

abbrev trim : Decision
trim = record open_decision { action = reduce; alert_price = none; stop_price = none }

abbrev holds_three : Store
holds_three = record empty_store {
  positions =
      record { source_group = 3; contract = option_contract; quantity = 3; average_price = of_ℕ 1 }
      ∷ [];
}

-- Half of three contracts is two, at the bid in whole ticks.
abbrev trimmed : Planned
trimmed = record {
  contract = option_contract;
  body = order_body trim 2 (hundredths 140) false 77;
  sizing = none;
}

trim_run : plan (λ m d c. 77) around ordinary signal trim holds_three ≡ ok trimmed
unfolding planned_run
trim_run = refl

plan-IsSafe_example : IsSafe signal trim holds_three trimmed
plan-IsSafe_example =
    plan-IsSafe (λ m d c. 77) around ordinary signal trim holds_three trimmed trim_run

-- Five percent of the equity holds three contracts at 1.50 and a fee.
abbrev three_contracts : Size
three_contracts = record {
  quantity = 3;
  method = confidence_allocation_cap;
  limits = record {
    strategy_risk = record { num = 1000000000000; den_pred = 1999999999 };
    symbol_concentration = hundredths 100000;
    total_option_exposure = hundredths 500000;
    buying_power_reserve = hundredths 800000;
  };
  budget = record { num = 1000000000000; den_pred = 1999999999 };
  premium_risk = hundredths 15100;
  minimum_contract_fallback = false;
}

size_run :
    entry_size cautious cash_account 7 (some (of_ℕ 1)) (some (hundredths 150)) 3
    ≡ ok three_contracts
unfolding planned_run
size_run = refl

entry_size-IsGranted_example :
    IsGranted cautious cash_account 7 (some (of_ℕ 1)) (some (hundredths 150)) 3 three_contracts
entry_size-IsGranted_example =
    entry_size-IsGranted cautious cash_account 7 (some (of_ℕ 1)) (some (hundredths 150)) 3
      three_contracts size_run

-- The trim is reviewed by the broker and verified once more: the message is its own origin.
abbrev pub first_round : Round
first_round = record {
  binding = paper_binding;
  risk = cautious;
  memory = around.memory;
  now = 2300;
  kill_switch = false;
  watch_matches = false;
  claim = none;
  quote = none;
  snapshot = none;
  order_quote_at = some 2000;
  order_account_at = some 2000;
}

abbrev last_round : Round
last_round = record first_round { quote = some book_quote; snapshot = some around.snapshot }

abbrev pub nobody_asks : Verification
nobody_asks = record { asked = false; configured = false; message = signal; confirms = λ m. false }

dispatch_run :
    verify_dispatch
      (λ rows. 0)
      first_round
      holds_three
      nobody_asks
      last_round
      holds_three
      ordinary
      ordinary
      ordinary
      signal
      trim
      option_contract
      trimmed.body
    ≡ ok tt
unfolding planned_run verify_dispatch current check_intent origin find_origin unchanged claim_guards
    message_guards latest_known latest_stored get_or readiness_guards check_order_quote
    check_snapshot_age review check_review session_guards check_side check_review_exit verify_source
dispatch_run = refl

verify_dispatch-IsReviewed_example :
    IsReviewed ordinary signal trim option_contract trimmed.body last_round holds_three
verify_dispatch-IsReviewed_example =
    verify_dispatch-IsReviewed (λ rows. 0) first_round holds_three nobody_asks last_round
      holds_three ordinary ordinary ordinary signal trim option_contract trimmed.body dispatch_run
