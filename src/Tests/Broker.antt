-- ===== src/Tests/Broker.antt =====
-- Runs of the request budget and of the paper broker (relay/broker.py).
use discord_option_tailer.Base.Decimal
use discord_option_tailer.Base.{
  Bool, List, [], arith, false, map, none, ok, refl, some, true, ℕ, ◌∷◌, ◌≡◌, ◌≤◌,
}
use discord_option_tailer.Base.Decimal.{Decimal, of_ℕ}
use discord_option_tailer.Broker.Budget.{
  BudgetOp, ReadBudget, acquire_round, admit, arrive, arrives, asks, background_delay, budget_step,
  delay_of, drop_old, granted, is_throttled, leave, leaves, new_budget, pause, prune, rate_limited,
  sleeps, until_room,
}
use discord_option_tailer.Broker.Budget.Progress.{acquire_round-served}
use discord_option_tailer.Broker.Budget.Window.{count_in, sent, sent_bounded}
use discord_option_tailer.Broker.Paper.Orders.{
  PaperBroker, PaperOrder, PaperRequest, add_holding, body_of, cancel_order, check_holdings,
  crosses, fill, fill_buy, fill_sale, filled_order, gfd, gtc, kept, limit_order, market_order,
  merge, order_status, place, prices_of, reserved_by, restore_positions, same_body, sell_from,
  stop_order, submit, unset, value,
}
use discord_option_tailer.Broker.Paper.Orders.Covered.{
  IsCovered, PaperOp, cancels, paper_run, paper_run-IsCovered, paper_step, submits,
}
use discord_option_tailer.Broker.Paper.Orders.Repeated.{submit-submit}
use discord_option_tailer.Broker.Paper.Quotes.{Fixture, keyed, quote, read_quote, single}
use discord_option_tailer.Store.Rows.{buy, closing, opening, same_contract, sell}
use discord_option_tailer.Tests.Ledger.{option_contract}
use discord_option_tailer.Tests.Planning.{hundredths}

-- Two requests of the foreground and one of the background, and then a minute later.
abbrev some_requests : List (ℕ × BudgetOp)
some_requests =
    (5000000, arrives false)
    ∷ (5000000, asks false true 5000000)
    ∷ (5100000, leaves false)
    ∷ (5200000, asks true true 5200000)
    ∷ (6000000, is_throttled none 500000)
    ∷ (70000000, asks false true 70000000)
    ∷ []

-- Opens all that a run of the budget computes with.
budget_run : Bool → List (ℕ × BudgetOp) → ReadBudget → List ℕ
unfolding sent budget_step acquire_round arrive leave rate_limited pause prune drop_old delay_of
    until_room background_delay admit count_in
budget_run only ops b = sent only ops b

requests_run : sent false some_requests (new_budget 0) ≡ 5000000 ∷ 5200000 ∷ 70000000 ∷ []
unfolding budget_run
requests_run = refl

sent_bounded_example : count_in 4000000 (sent false some_requests (new_budget 0)) ≤ 90
sent_bounded_example =
    sent_bounded false 0 4000000 some_requests
      (omega arith, (omega arith, (omega arith, (omega arith, (omega arith, (omega arith, tt))))))

-- A budget whose background tokens are used up.
abbrev used_up : ReadBudget
used_up = record (new_budget 0) { background_tokens = 0; background_refill_at = 1000 }

told_to_sleep : acquire_round true true 1000 1000 used_up ≡ (sleeps 1000000, used_up)
unfolding budget_run
told_to_sleep = refl

acquire_round-served_example : (acquire_round true false 1000 1001000 used_up).0 ≡ granted
acquire_round-served_example =
    acquire_round-served true false 1000 1000 1001000 1000000 used_up used_up
      (record { all_requests = omega arith; of_background = omega arith }) (λ _. refl) told_to_sleep
      (omega arith)

abbrev fixture : Fixture
fixture = record {
  contract = some option_contract;
  bid = some (hundredths 140);
  ask = some (hundredths 150);
  tick_size = some (hundredths 5);
  zoned = true;
  standard = true;
  tradable = some true;
}

abbrev new_account : PaperBroker
new_account = record {
  income = of_ℕ 10000;
  outlay = of_ℕ 0;
  fee_reserve = of_ℕ 1;
  market_open = true;
  fixtures = some (fixture ∷ []);
  positions = [];
  orders = [];
}

abbrev buy_two : PaperRequest
buy_two = record {
  id = some 1;
  contract = some option_contract;
  quantity = 2;
  side = buy;
  effect = opening;
  order_type = limit_order;
  limit_price = value (hundredths 150);
  stop_price = unset;
  time_in_force = none;
}

abbrev stop_two : PaperRequest
stop_two = record buy_two {
  id = some 2;
  side = sell;
  effect = closing;
  order_type = stop_order;
  limit_price = unset;
  stop_price = value (hundredths 100);
  time_in_force = some gtc;
}

abbrev sell_one : PaperRequest
sell_one = record stop_two {
  id = some 3;
  quantity = 1;
  order_type = market_order;
  stop_price = unset;
  time_in_force = none;
}

-- The sale of one more than the stop leaves is refused, until the stop is canceled.
abbrev trades : List PaperOp
trades =
    submits buy_two
    ∷ submits stop_two
    ∷ submits sell_one
    ∷ cancels 2 none none
    ∷ submits sell_one
    ∷ []

-- Opens all that a run of the paper broker computes with.
broker_run : List PaperOp → PaperBroker → PaperBroker
unfolding paper_run paper_step submit cancel_order order_status body_of prices_of same_body place
    check_holdings reserved_by crosses fill fill_buy fill_sale sell_from restore_positions merge
    add_holding quote keyed single read_quote same_contract Decimal.lt Decimal.le Decimal.eq
    Decimal.add Decimal.mul
broker_run ops p = paper_run ops p

trades_run : map (λ h. h.quantity) (paper_run trades new_account).positions ≡ 1 ∷ []
unfolding broker_run
trades_run = refl

new_account-IsCovered : IsCovered new_account
new_account-IsCovered c = omega arith

paper_run-IsCovered_example : IsCovered (paper_run trades new_account)
paper_run-IsCovered_example = paper_run-IsCovered trades new_account new_account-IsCovered

abbrev bought_order : PaperOrder
bought_order =
    kept 1
      (record {
        contract = option_contract;
        side = buy;
        effect = opening;
        quantity = 2;
        order_type = limit_order;
        limit_price = some (hundredths 150);
        stop_price = none;
        time_in_force = gfd;
      })
      filled_order 2 (some (hundredths 150))

after_buy : PaperBroker
after_buy = paper_run (submits buy_two ∷ []) new_account

first_submit : submit buy_two new_account ≡ ok (bought_order, after_buy)
unfolding broker_run after_buy
first_submit = refl

submit-submit_example : submit buy_two after_buy ≡ ok (bought_order, after_buy)
submit-submit_example = submit-submit buy_two new_account bought_order after_buy first_submit
