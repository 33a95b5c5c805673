-- ===== src/Tests/Rounds.antt =====
-- Runs of a round of reconciliation and of the guard of a missed exit (relay/recovery.py).
use discord_option_tailer.Base.{[], false, none, ok, refl, some, true, ℕ, ◌++◌, ◌+◌, ◌/◌, ◌∷◌, ◌≡◌}
use discord_option_tailer.Engine.Guards.{
  Channel, channel_allows_author, find_origin, get_or, origin,
}
use discord_option_tailer.Recovery.{
  ask_status, deadline_delay, entry_cancel_due, has_urgent, is_canceling, next_delay, order_delay,
  reconcile_order, take_result,
}
use discord_option_tailer.Recovery.Guard.{
  ExitGuard, GuardWorld, context_rows, current_entry, drop_rows, exit_context, is_background,
  is_eligible, is_signal_source, is_truncated, last_made, latest_first, owned_guards, positions_of,
  put_message, run_guard, same_positions, same_signature, source_guards,
}
use discord_option_tailer.Recovery.Guard.Replay.{IsOpenExit, run_guard-IsOpenExit}
use discord_option_tailer.Recovery.Kept.{reconcile_orders_once-IsKept}
use discord_option_tailer.Recovery.Round.{
  RoundWorld, Schedule, first_rows, is_skipped, largest, maintain_stops, newest_open, numbered,
  open_orders, reconcile_due, reconcile_orders_once, reconcile_row, reconcile_rows, round_rows,
}
use discord_option_tailer.Stops.Maintain.{MaintainWorld}
use discord_option_tailer.Store.Fills.Balance.{IsBalanced}
use discord_option_tailer.Store.Lifecycle.{Reach, here, next, reserved}
use discord_option_tailer.Store.Lifecycle.Accounts.{Reach-IsBalanced}
use discord_option_tailer.Store.Lifecycle.Key.{HaveKeys, Reach-HaveKeys}
use discord_option_tailer.Store.Lifecycle.Soundness.{AreSound, Reach-AreSound}
use discord_option_tailer.Store.Rows.{Decision, Order, close, is_terminal, same_contract}
use discord_option_tailer.Store.State.{
  Message, Store, find_order, is_acquired_entry, order_at, position_at, positions,
}
use discord_option_tailer.Tests.Ledger.{
  after_whole, empty-IsBalanced, empty_store, entry_body, filled_row, fills, half_fill,
  open_decision, option_contract, reserve_run, reserved_store, signal,
}
use discord_option_tailer.Tests.Planning.{around}
use discord_option_tailer.Tests.Recovery.{late}
use discord_option_tailer.Tests.Stops.{digest, scene}

abbrev keeps_stops : MaintainWorld
keeps_stops = record { arming = λ r. scene; words = λ r. none; same_text = λ a b. true }

abbrev round : RoundWorld
round = record {
  force = false;
  observe_only = true;
  of_order = λ o. record late { status_reply = some half_fill };
  stops = keeps_stops;
  started_at = 5;
  now = 6000;
  later = 7000;
  ended_at = 8;
}

abbrev unscheduled : Schedule
unscheduled = record { next_at = 0; seen = 0 }

abbrev reserve_moves : Reach empty_store reserved_store
reserve_moves =
    next here (reserved signal open_decision option_contract 1 entry_body 2000 reserve_run)

-- The one order gets the broker's answer, and the next round is due in half a minute.
round_run :
    (reconcile_orders_once digest round unscheduled reserved_store).0
    ≡ ok (1, record { next_at = 30000008; seen = 1 })
unfolding fills reconcile_orders_once is_skipped newest_open open_orders first_rows has_urgent
    reconcile_due round_rows numbered reconcile_rows reconcile_row reconcile_order is_canceling
    entry_cancel_due ask_status take_result maintain_stops next_delay order_delay deadline_delay
    largest
round_run = refl

reconcile_orders_once-IsKept_example :
    let t = (reconcile_orders_once digest round unscheduled reserved_store).1 in
    HaveKeys t.orders
    × IsBalanced t
    × AreSound t
    × ((k : ℕ) (o : Order)
        → find_order k reserved_store ≡ some o
        → (o' : Order) × (find_order k t ≡ some o')
          × (o'.body.side ≡ o.body.side)
          × (o'.body.quantity ≡ o.body.quantity))
    × ((k : ℕ) (o : Order)
        → find_order k reserved_store ≡ some o
        → is_terminal o.status ≡ true
        → (o' : Order) × (find_order k t ≡ some o')
          × (o'.status ≡ o.status)
          × (o'.filled_quantity ≡ o.filled_quantity))
reconcile_orders_once-IsKept_example =
    reconcile_orders_once-IsKept digest round unscheduled reserved_store
      (Reach-HaveKeys {s = empty_store} tt reserve_moves)
      (Reach-IsBalanced empty-IsBalanced reserve_moves)
      (Reach-AreSound {s = empty_store} tt reserve_moves)

-- The same order with one that is placed after the round.
abbrev with_new_order : Store
with_new_order = record reserved_store { orders = reserved_store.orders ++ reserved_store.orders }

abbrev with_message : Store
with_message = record after_whole { messages = signal ∷ [] }

abbrev sell_all : Decision
sell_all = record open_decision { action = close; alert_price = none; stop_price = none }

abbrev signals_channel : Channel
signals_channel = record { id = 1; source_group = 3; authors = some []; for_signals = true }

abbrev watch : GuardWorld
watch = record {
  channel_of = λ k. some signals_channel;
  came_in = λ m. true;
  origin_of = λ o. o.message_id + 1000;
  memory = around.memory;
  kill_switch = false;
  now = 3000;
  julianday = λ at. at / 1000;
}

-- An exit of a later message, whose origin is that message.
abbrev missed_message : Message
missed_message = record signal { id = 101; timestamp = 2500; revision = 12 }

abbrev missed : ExitGuard
missed = record {
  contract = option_contract;
  entry = filled_row;
  origin = missed_message;
  signed = (100, 11) ∷ [];
  latest_id = 101;
  order_id = 2;
  owned = positions with_message;
}

abbrev missed_decision : Decision
missed_decision = record sell_all { origin_message_id = some 101; evidence = 101 ∷ [] }

abbrev with_exit : Store
with_exit = record after_whole { messages = missed_message ∷ signal ∷ [] }

guard_run : run_guard watch missed missed_message missed_decision with_exit ≡ ok 101
unfolding fills run_guard is_eligible is_signal_source channel_allows_author source_guards
    exit_context context_rows latest_first put_message first_rows drop_rows is_background
    is_truncated same_signature origin find_origin get_or owned_guards current_entry last_made
    is_acquired_entry order_at positions positions_of same_positions filled_row same_contract
    position_at
guard_run = refl

run_guard-IsOpenExit_example : IsOpenExit watch missed missed_message missed_decision with_exit
run_guard-IsOpenExit_example =
    run_guard-IsOpenExit watch missed missed_message missed_decision with_exit 101 guard_run
