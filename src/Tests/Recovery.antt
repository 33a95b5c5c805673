-- ===== src/Tests/Recovery.antt =====
-- Runs of the reconciliation (relay/recovery.py): an entry whose deadline has passed is canceled.
use discord_option_tailer.Base.{[], false, none, ok, refl, some, true, ◌∷◌, ◌≡◌, ◌≤◌, ◌⊎◌}
use discord_option_tailer.Engine.Guards.{paper}
use discord_option_tailer.Recovery.{
  ReconcileWorld, cancel_expired, entry_cancel_due, has_urgent, is_canceling, next_delay, persist,
  reconcile_order, take_cancel, take_result,
}
use discord_option_tailer.Recovery.Answered.{IsAnswered, reconcile_order-IsAnswered}
use discord_option_tailer.Recovery.Pace.{next_delay_bounded}
use discord_option_tailer.Store.Fills.{BrokerResult}
use discord_option_tailer.Store.Orders.{new_order, persist_active_order_body}
use discord_option_tailer.Store.Rows.{Order, canceled, opened}
use discord_option_tailer.Store.State.{Store}
use discord_option_tailer.Tests.Ledger.{
  empty_store, entry_body, fills, no_words, open_decision, option_contract, signal,
}

abbrev timed_row : Order
timed_row = record (new_order signal open_decision option_contract 1 entry_body 2000) {
  status = opened;
  broker_id = some 900;
  body = record entry_body {
    prepared_entry = true;
    cancellation = record (entry_body.cancellation) { entry_cancel_at = some 5000 };
  };
}

abbrev timed_store : Store
timed_store = record empty_store { orders = timed_row ∷ [] }

abbrev canceled_entry : BrokerResult
canceled_entry = record {
  id = some 900;
  status = some canceled;
  filled_quantity = some 0;
  fill_price = none;
  words = no_words;
}

abbrev pub late : ReconcileWorld
late = record {
  mode = paper;
  observe_only = false;
  can_cancel = true;
  now = 6000;
  requested_at = 6000;
  timeout = 1;
  status_text = λ r. some 2;
  state_text = λ r. none;
  cancel_reply = some canceled_entry;
  status_reply = none;
}

after_cancel : Store
after_cancel = (reconcile_order late timed_row timed_store).1

canceled_run : reconcile_order late timed_row timed_store ≡ (ok tt, after_cancel)
unfolding fills reconcile_order is_canceling entry_cancel_due cancel_expired persist
    persist_active_order_body take_cancel take_result after_cancel
canceled_run = refl

reconcile_order-IsAnswered_example :
    ((entry_cancel_due timed_row 6000 ≡ true) × IsAnswered 1 (some canceled_entry) after_cancel)
    ⊎ IsAnswered 1 none after_cancel
unfolding new_order
reconcile_order-IsAnswered_example =
    reconcile_order-IsAnswered late timed_row timed_store after_cancel canceled_run

next_delay_bounded_example :
    (50000 ≤ next_delay 6000 (timed_row ∷ []))
    × (next_delay 6000 (timed_row ∷ []) ≤ 30000000)
    × (has_urgent 6000 (timed_row ∷ []) ≡ true → next_delay 6000 (timed_row ∷ []) ≤ 1000000)
next_delay_bounded_example = next_delay_bounded 6000 (timed_row ∷ [])
