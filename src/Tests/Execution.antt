-- ===== src/Tests/Execution.antt =====
-- Runs of `execute_decision` (relay/core.py) with the paper broker: an entry fills and is protected.
use discord_option_tailer.Base.{Except, [], false, none, ok, refl, some, true, ℕ, ◌≡◌}
use discord_option_tailer.Engine.Dispatch.{
  check_intent, check_order_quote, check_snapshot_age, current, readiness_guards, review,
  verify_dispatch, verify_source,
}
use discord_option_tailer.Engine.Guards.{
  claim_guards, find_origin, get_or, latest_known, latest_stored, message_guards, origin, unchanged,
}
use discord_option_tailer.Engine.Pricing.{ordinary}
use discord_option_tailer.Execution.{
  Digests, DispatchCheck, ExecutionWorld, after_check, check_dispatch, check_start, conclude,
  conclude_refusal, execute_checked, execute_decision, execute_planned, make_way, protect, records,
  reserve_planned, review_order, submit_order, submit_reserved,
}
use discord_option_tailer.Execution.Kept.{execute_decision-IsKept}
use discord_option_tailer.Stops.{StopError}
use discord_option_tailer.Stops.Arm.{answered}
use discord_option_tailer.Stops.Place.{after_exit, after_found, restore, restore_found}
use discord_option_tailer.Store.Fills.Balance.{IsBalanced}
use discord_option_tailer.Store.Intake.{record_episode}
use discord_option_tailer.Store.Lifecycle.Soundness.{AreSound}
use discord_option_tailer.Store.Orders.{entry_of, put_stop, save_stop_request, stored_price}
use discord_option_tailer.Store.Outcomes.{record_outcome}
use discord_option_tailer.Store.Rows.{Decision, EventState, Order, filled, is_terminal, paper_order}
use discord_option_tailer.Store.State.{Store, find_order, held_quantity}
use discord_option_tailer.Tests.Ledger.{
  empty-IsBalanced, empty_store, fills, open_decision, option_contract, report, signal,
}
use discord_option_tailer.Tests.Planning.{around, first_round, hundredths, nobody_asks, planned_run}
use discord_option_tailer.Tests.Stops.{digest, scene, stops_run}

abbrev pub digests : Digests
digests = record {
  fingerprint = λ m d c. 77;
  inventory_digest = λ columns. 0;
  stop_order = digest;
  client_order = λ m. 1;
}

abbrev pub nobody : ℕ → Store → Store
nobody n s = s

abbrev check_before : DispatchCheck
check_before = record {
  first = first_round;
  second = first_round;
  source = nobody_asks;
  first_guard = ordinary;
  asked_guard = ordinary;
  second_guard = ordinary;
}

abbrev pub setting : ExecutionWorld
setting = record {
  around = around;
  start_guard = ordinary;
  plan_guard = ordinary;
  kill_switch = false;
  replies = λ k. [];
  before = check_before;
  reviewed = none;
  reply = answered (report filled 3 (hundredths 150));
  stop_world = scene;
  restore_world = scene;
  reserved_at = 2300;
  dispatched_at = 2400;
  words = none;
  reason_text = 0;
}

-- Opens all that a run of `execute_decision` computes with.
unfoldable pub executed : Decision → Store → Except StopError EventState × Store
unfolding execute_decision execute_checked check_start execute_planned make_way check_dispatch
    reserve_planned submit_reserved submit_order review_order after_check conclude conclude_refusal
    protect records record_outcome record_episode after_exit after_found restore restore_found
    stops_run planned_run fills verify_dispatch current check_intent readiness_guards
    check_order_quote check_snapshot_age review verify_source unchanged claim_guards message_guards
    latest_known latest_stored origin find_origin put_stop save_stop_request stored_price entry_of
    get_or
executed d s = execute_decision digests nobody setting signal d s

abbrev after_entry : Store
after_entry = (execute_decision digests nobody setting signal open_decision empty_store).1

entry_run :
    (execute_decision digests nobody setting signal open_decision empty_store).0 ≡ ok paper_order
unfolding executed
entry_run = refl

owned_run : held_quantity 3 option_contract after_entry.positions ≡ 3
unfolding executed
owned_run = refl

execute_decision-IsKept_example :
    IsBalanced after_entry
    × AreSound after_entry
    × ((k : ℕ) (o : Order)
        → find_order k empty_store ≡ some o
        → is_terminal o.status ≡ true
        → (o' : Order) × (find_order k after_entry ≡ some o')
          × (o'.status ≡ o.status)
          × (o'.filled_quantity ≡ o.filled_quantity))
execute_decision-IsKept_example =
    execute_decision-IsKept digests nobody (λ n s. (refl, refl)) setting signal open_decision
      empty_store empty-IsBalanced tt
