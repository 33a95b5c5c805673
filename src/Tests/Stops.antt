-- ===== src/Tests/Stops.antt =====
-- Runs of the protective stops (relay/stops.py): a stop is placed behind a filled entry, and gives way
-- to an exit.
use discord_option_tailer.Base.Decimal
use discord_option_tailer.Base.{Option, [], false, none, ok, refl, some, true, ℕ, ◌+◌, ◌∷◌, ◌≡◌}
use discord_option_tailer.Base.Decimal.{Decimal, of_ℕ}
use discord_option_tailer.Engine.Guards.{
  check_execution_mode, check_quote_age, is_stale, money, paid,
}
use discord_option_tailer.Stops.{Act, StopResult, active_orders, is_active_stop, set_state}
use discord_option_tailer.Stops.Arm.{
  ArmWorld, StopQuote, answered, arm_result, at_its_price, is_covering, protecting, review_stop,
  stop_body, stop_price_of, stop_terms, stop_tick, submitted_stop, take_answer, take_refusal,
}
use discord_option_tailer.Stops.Cancel.{
  Replies, before_exit, cancel, cancel_all, cancel_one, check_unfilled, clear_active, clear_stops,
  poll, rearm_found, rearm_later, take_reply,
}
use discord_option_tailer.Stops.Clear.{IsClear, before_exit-IsClear}
use discord_option_tailer.Stops.Place.{
  arm, arm_entry, arm_for, arm_owned, arm_unowned, check_protecting, fix_price, keep_or_replace,
  place_again, place_reserved, place_stop, price_and_swap, replace_stop, reserve_stop, swap_stop,
  try_arm,
}
use discord_option_tailer.Stops.Unarmed.{arm-SameBook, may_place}
use discord_option_tailer.Store.Fills.{BrokerResult}
use discord_option_tailer.Store.Orders.{reserve, with_stop}
use discord_option_tailer.Store.Rows.{
  StopRequest, at_price, awaiting_placement, canceled, now_active, opened, stop_active,
  stop_pending,
}
use discord_option_tailer.Store.State.{
  Store, blocks_orders, is_acquired_entry, is_standing_stop, order_at, positions, unresolved,
}
use discord_option_tailer.Tests.Ledger.{
  after_whole, fills, no_words, open_decision, option_contract, signal, stop_of_signal,
}
use discord_option_tailer.Tests.Planning.{around, cautious, hundredths, paper_binding}

abbrev stop_quote : StopQuote
stop_quote = record {
  contract = some option_contract;
  tradable = true;
  standard = true;
  timestamp = some 3000;
  bid = some (hundredths 140);
  ask = some (hundredths 150);
  tick_size = some (hundredths 5);
  min_ticks = none;
}

abbrev installs : BrokerResult
installs = record {
  id = some 901;
  status = some opened;
  filled_quantity = some 0;
  fill_price = none;
  words = no_words;
}

abbrev canceled_reply : BrokerResult
canceled_reply = record installs { status = some canceled }

abbrev pub scene : ArmWorld
scene = record {
  binding = paper_binding;
  risk = cautious;
  kill_switch = false;
  review_kill_switch = false;
  today = 20400;
  message = signal;
  quote = stop_quote;
  snapshot = around.snapshot;
  guard = ok tt;
  own_guard = ok tt;
  replies = λ k. [];
  reviewed = none;
  reply = answered installs;
  quoted_at = 3000;
  snapshot_checked_at = 3000;
  reserved_at = 3100;
  reviewed_at = 3100;
}

abbrev wanted_stop : StopRequest
wanted_stop = record {
  source_group = 3;
  contract = option_contract;
  message_id = 100;
  decision = open_decision;
  stop_price = at_price (some (of_ℕ 1));
  entry_id = 1;
  generation = 0;
  order_id = none;
  status = stop_pending;
  reason = awaiting_placement;
}

abbrev pub digest : ℕ → ℕ → ℕ → ℕ
digest m revision generation = 40 + generation

-- Opens all that a run of `arm` and `before_exit` computes with.
unfoldable pub stops_run : ArmWorld → Option StopRequest → Act StopResult
unfolding arm try_arm arm_for arm_owned arm_unowned arm_entry check_protecting keep_or_replace
    replace_stop price_and_swap swap_stop place_again place_stop place_reserved reserve_stop reserve
    with_stop fix_price stop_terms stop_tick stop_price_of protecting is_covering at_its_price
    stop_body submitted_stop review_stop take_answer take_refusal arm_result set_state cancel
    cancel_all cancel_one poll take_reply active_orders is_active_stop positions unresolved
    blocks_orders is_standing_stop is_acquired_entry order_at check_execution_mode check_quote_age
    is_stale paid money Decimal.ceiling Decimal.le fills before_exit clear_active clear_stops
    rearm_later rearm_found check_unfilled
stops_run w row = arm digest w row

abbrev protected : Store
protected = (arm digest scene (some wanted_stop) after_whole).1

placed_run :
    (arm digest scene (some wanted_stop) after_whole).0
    ≡ ok (record { status = stop_active; note = now_active; order_id = some 41 })
unfolding stops_run
placed_run = refl

paused_run : may_place (record scene { kill_switch = true }) wanted_stop after_whole ≡ false
unfolding fills may_place is_acquired_entry order_at positions
paused_run = refl

arm-SameBook_example :
    let t = (arm digest (record scene { kill_switch = true }) (some wanted_stop) after_whole).1 in
    (t.orders ≡ after_whole.orders) × (t.positions ≡ after_whole.positions)
arm-SameBook_example =
    arm-SameBook digest (record scene { kill_switch = true }) wanted_stop after_whole paused_run

abbrev cancels_at_once : ℕ → Replies
cancels_at_once k = some canceled_reply ∷ []

abbrev unprotected : Store
unprotected = (before_exit paper_binding false cancels_at_once 3 option_contract protected).1

exit_run :
    before_exit paper_binding false cancels_at_once 3 option_contract protected
    ≡ (ok tt, unprotected)
unfolding stops_run stop_of_signal
exit_run = refl

before_exit-IsClear_example : IsClear 3 option_contract protected unprotected
before_exit-IsClear_example =
    before_exit-IsClear paper_binding false cancels_at_once 3 option_contract protected unprotected
      exit_run
