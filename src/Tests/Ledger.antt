-- ===== src/Tests/Ledger.antt =====
-- Runs of the ledger (relay/core.py): an entry of two contracts that fills in two reports, a repeat
-- of the last one, a report that breaks the limit and a restart.
use discord_option_tailer.Base.Decimal
use discord_option_tailer.Base.{List, [], false, none, ok, refl, some, true, ℕ, ◌∷◌, ◌≡◌}
use discord_option_tailer.Base.Decimal.{Decimal, of_ℕ}
use discord_option_tailer.Store.Fills.{
  Applied, BrokerResult, acknowledge, apply_result, bought_average, breaks_limit, changes_identity,
  check_count, check_fill, check_total, commit_fill, count_guards, is_inconsistent, is_market_stop,
  limit_of, moved_position, moved_positions, positive_price, price_of_fill, settle_result,
  total_guards, violates_limit,
}
use discord_option_tailer.Store.Fills.Accepted.{Refused, apply_result-Refused}
use discord_option_tailer.Store.Fills.Balance.{IsBalanced}
use discord_option_tailer.Store.Fills.Repeats.{apply_result_idempotent}
use discord_option_tailer.Store.Lifecycle.{Reach, applied, here, next, reserved, restarted}
use discord_option_tailer.Store.Lifecycle.Accounts.{Reach-IsBalanced}
use discord_option_tailer.Store.Lifecycle.Endings.{Reach-KeepsEndings}
use discord_option_tailer.Store.Lifecycle.Soundness.{AreSound, Reach-AreSound}
use discord_option_tailer.Store.Orders.{
  entry_of, new_order, put_stop, reconciliation_of, reserve, restart, save_stop_request,
  stored_price, sync_order_event, with_stop,
}
use discord_option_tailer.Store.Rows.{
  Body, Cancellation, Contract, Decision, Order, Status, StopRequest, Submission, absent,
  awaiting_placement, breakeven, buy, call, entry, filled, opening, partially_filled, same_contract,
  stop_pending,
}
use discord_option_tailer.Store.State.{
  Message, Store, drop_position, find_order, held_quantity, position_at, put_position,
}

abbrev pub option_contract : Contract
option_contract = record {
  symbol = 7;
  expiry = 20418;
  strike = record { num = 5; den_pred = 0 };
  option_type = call;
}

abbrev pub no_cancellation : Cancellation
no_cancellation = record {
  cancel_reason = none;
  cancel_requested_at = none;
  entry_cancel_at = none;
  cancel_result_status = none;
  cancel_result_broker_state = none;
}

-- A buy of two contracts at 1.50 at most.
abbrev pub entry_body : Body
entry_body = record {
  side = buy;
  position_effect = opening;
  quantity = 2;
  limit_price = some (record { num = 3; den_pred = 1 });
  order_type = none;
  prepared_entry = false;
  cancel_window = absent;
  cancellation = no_cancellation;
  broker_submission = none;
  signal_fingerprint = none;
  requested_stop = none;
}

abbrev pub signal : Message
signal = record {
  id = 100;
  channel_id = 1;
  author_id = 2;
  source_group = 3;
  timestamp = 1000;
  edited_timestamp = none;
  revision = 11;
  content = 0;
  transport_revision = none;
  media = 0;
  reply_to = none;
  declares = true;
}

abbrev pub open_decision : Decision
open_decision = record {
  action = entry;
  contract = some option_contract;
  quantity = none;
  fraction = none;
  alert_price = some (record { num = 3; den_pred = 1 });
  stop_price = some breakeven;
  ambiguous = some false;
  confidence = some (of_ℕ 1);
  origin_message_id = some 100;
  evidence = 100 ∷ [];
  by_rules = true;
  profit_only = some false;
}

abbrev pub empty_store : Store
empty_store = record {
  messages = [];
  generations = [];
  events = [];
  attempts = [];
  orders = [];
  positions = [];
  stop_requests = [];
  episodes = [];
}

abbrev pub no_words : Submission
no_words = record { broker_state = none; status_recognized = none }

abbrev pub report : Status → ℕ → Decimal → BrokerResult
report st n price = record {
  id = some 900;
  status = some st;
  filled_quantity = some n;
  fill_price = some price;
  words = no_words;
}

abbrev pub half_fill : BrokerResult
half_fill = report partially_filled 1 (of_ℕ 1)

abbrev whole_fill : BrokerResult
whole_fill = report filled 2 (record { num = 5; den_pred = 3 })

-- 1.75 a contract, above the limit.
abbrev dear_fill : BrokerResult
dear_fill = report filled 2 (record { num = 7; den_pred = 3 })

unfoldable pub stop_of_signal : List StopRequest
stop_of_signal =
    record {
      source_group = 3;
      contract = option_contract;
      message_id = 100;
      decision = open_decision;
      stop_price = breakeven;
      entry_id = 1;
      generation = 0;
      order_id = none;
      status = stop_pending;
      reason = awaiting_placement;
    }
    ∷ []

unfoldable pub reserved_store : Store
reserved_store = record empty_store {
  orders = new_order signal open_decision option_contract 1 entry_body 2000 ∷ [];
  stop_requests = stop_of_signal;
}

pub reserve_run :
    reserve signal open_decision option_contract 1 entry_body 2000 empty_store ≡ ok reserved_store
unfolding reserve with_stop save_stop_request stored_price entry_of put_stop reserved_store
    stop_of_signal
reserve_run = refl

abbrev pub after_half : Store
after_half = (apply_result 1 half_fill reserved_store).store

abbrev pub after_whole : Store
after_whole = (apply_result 1 whole_fill after_half).store

-- Opens all that a run of `apply_result` computes with.
unfoldable pub fills : ℕ → BrokerResult → Store → Applied
unfolding apply_result settle_result drop_position check_fill check_count count_guards check_total
    total_guards price_of_fill limit_of is_market_stop positive_price breaks_limit is_inconsistent
    commit_fill moved_positions moved_position bought_average held_quantity position_at put_position
    same_contract acknowledge changes_identity sync_order_event reconciliation_of reserved_store
    new_order Decimal.lt Decimal.eq Decimal.mul Decimal.sub Decimal.div Decimal.add
fills k r s = apply_result k r s

half_taken : (apply_result 1 half_fill reserved_store).error ≡ none
unfolding fills
half_taken = refl

whole_taken : (apply_result 1 whole_fill after_half).error ≡ none
unfolding fills
whole_taken = refl

whole_position : held_quantity 3 option_contract after_whole.positions ≡ 2
unfolding fills
whole_position = refl

-- One contract for 1 and both for 2.50 make 1.50 for the second: the limit holds.
dear_refused : (apply_result 1 dear_fill after_half).error ≡ some violates_limit
unfolding fills
dear_refused = refl

pub empty-IsBalanced : IsBalanced empty_store
unfolding held_quantity
empty-IsBalanced g c = refl

pub whole_run : Reach empty_store after_whole
whole_run =
    next
      (next
        (next here (reserved signal open_decision option_contract 1 entry_body 2000 reserve_run))
        (applied reserved_store 1 half_fill))
      (applied after_half 1 whole_fill)

Reach-IsBalanced_example : IsBalanced after_whole
Reach-IsBalanced_example = Reach-IsBalanced empty-IsBalanced whole_run

Reach-AreSound_example : AreSound after_whole
Reach-AreSound_example = Reach-AreSound {s = empty_store} tt whole_run

apply_result_idempotent_example :
    apply_result 1 half_fill after_half ≡ record { error = none; store = after_half }
apply_result_idempotent_example = apply_result_idempotent 1 half_fill reserved_store half_taken

apply_result-Refused_example :
    Refused 1 dear_fill after_half (apply_result 1 dear_fill after_half).store
apply_result-Refused_example = apply_result-Refused 1 dear_fill after_half dear_refused

unfoldable pub filled_row : Order
filled_row = record (new_order signal open_decision option_contract 1 entry_body 2000) {
  status = filled;
  broker_id = some 900;
  filled_quantity = 2;
  filled_notional = record { num = 10; den_pred = 3 };
}

pub filled_found : find_order 1 after_whole ≡ some filled_row
unfolding fills filled_row
filled_found = refl

-- The filled entry through a restart and a late answer.
Reach-KeepsEndings_example :
    (o' : Order) × (find_order 1 (apply_result 1 half_fill (restart after_whole)).store ≡ some o')
    × (o'.status ≡ filled)
    × (o'.filled_quantity ≡ 2)
unfolding filled_row
Reach-KeepsEndings_example =
    Reach-KeepsEndings
      (next (next here (restarted after_whole)) (applied (restart after_whole) 1 half_fill)) 1
      filled_row filled_found refl
