-- ===== src/Tests/Handling.antt =====
-- Runs of `handle` (relay/core.py).
use discord_option_tailer.Base.Decimal
use discord_option_tailer.Base.{Bool, List, [], false, none, ok, refl, some, suc, true, ℕ, ◌∷◌, ◌≡◌}
use discord_option_tailer.Base.Decimal.{Decimal}
use discord_option_tailer.Engine.Episode.{guard_position_episode, is_admitted}
use discord_option_tailer.Engine.Expiry.{
  ExpiryWorld, IsResolved, changes_option, resolve_expiry, resolve_expiry-IsResolved,
  resolve_nearest, resolved_contract, warmed_contract,
}
use discord_option_tailer.Engine.Guards.{
  Channel, OrderColumns, PositionColumns, channel_allows_author, claim_guards, find_origin, get_or,
  inventory, latest_known, latest_stored, message_guards, origin, position_generation, unchanged,
}
use discord_option_tailer.Episodes.{resolve_episode}
use discord_option_tailer.Handling.{
  HandleWorld, act_if_current, act_on, admitted_episode, check_arrival, check_still, claim_and_act,
  concludes, ends_as, evaluate, evaluate_if_current, evaluate_observed, execute_any, for_channel,
  handle, handle_observed, handle_trusted, interprets, is_context, notes, observed_now,
  resolved_for, take_interpretation, under_lock,
}
use discord_option_tailer.Handling.Apart.{handle-SameTrades, may_trade, may_trade_for, may_trade_in}
use discord_option_tailer.Handling.Kept.{handle-IsKept}
use discord_option_tailer.Stops.Update.{UpdateWorld, update_protection}
use discord_option_tailer.Stops.Update.Apart.{may_move, update_protection-SameTrades}
use discord_option_tailer.Store.Claims.{begin_evaluation, claim_evaluation, finish_evaluation}
use discord_option_tailer.Store.Fills.Balance.{IsBalanced}
use discord_option_tailer.Store.Intake.{
  drop_message, is_event_of, next_generation, observe, record_episode, refresh_media,
  source_generation, store_revision,
}
use discord_option_tailer.Store.Lifecycle.{Reach, here, next, noted}
use discord_option_tailer.Store.Lifecycle.Key.{HaveKeys}
use discord_option_tailer.Store.Lifecycle.Soundness.{AreSound}
use discord_option_tailer.Store.Outcomes.{record_outcome}
use discord_option_tailer.Store.Rows.{
  Decision, Order, at_price, is_terminal, paper_order, same_contract, update_stop,
}
use discord_option_tailer.Store.State.{Message, Store, find_order}
use discord_option_tailer.Tests.Execution.{digests, executed, nobody, setting}
use discord_option_tailer.Tests.Ledger.{
  after_whole, empty-IsBalanced, empty_store, fills, open_decision, option_contract, signal,
  whole_run,
}
use discord_option_tailer.Tests.Planning.{around, hundredths}
use discord_option_tailer.Tests.Stops.{digest, scene}

abbrev update_scene : UpdateWorld
update_scene = record {
  binding = around.binding;
  risk = around.risk;
  kill_switch = false;
  memory = around.memory;
  verified_memory = around.memory;
  claim = none;
  now = 2000;
  guarded_at = 2000;
  verified_at = 2100;
  needs_source = false;
  confirms = λ m. false;
  arming = scene;
  restoring_world = scene;
  words = none;
  reason_text = 0;
}

abbrev move_decision : Decision
move_decision = record open_decision {
  action = update_stop;
  stop_price = some (at_price (some (hundredths 100)));
  alert_price = none;
}

abbrev update_scene_digest : List PositionColumns × List OrderColumns → ℕ
update_scene_digest columns = 0

abbrev with_signal : Store
with_signal = record after_whole { messages = signal ∷ [] }

with_signal_moves : Reach empty_store with_signal
with_signal_moves = next whole_run (noted refl refl)

update_protection-SameTrades_example :
    let t =
      (update_protection digest update_scene_digest
        (λ s. s)
        (record update_scene { kill_switch = true })
        signal
        move_decision
        with_signal).1 in
    (t.orders ≡ with_signal.orders)
    × (t.positions ≡ with_signal.positions)
    × (t.stop_requests ≡ with_signal.stop_requests)
unfolding may_move
update_protection-SameTrades_example =
    update_protection-SameTrades digest update_scene_digest (λ s. s) (λ s. (refl, refl, refl))
      (record update_scene { kill_switch = true }) signal move_decision with_signal refl

abbrev listed_channel : Channel
listed_channel = record { id = 1; source_group = 3; authors = some []; for_signals = true }

abbrev no_default : ExpiryWorld
no_default = record {
  defaults = false;
  day_of = λ at. 20418;
  now = 2000;
  watched = none;
  prepared = λ c ceiling. false;
  nearest = λ c. ok c;
}

abbrev arrival : HandleWorld
arrival = record {
  channel_of = λ k. some listed_channel;
  is_valid = true;
  live = true;
  already = none;
  analyze_history = false;
  has_interpreter = true;
  risk = around.risk;
  memory = around.memory;
  locked_memory = around.memory;
  kill_switch = false;
  observed_at = 1500;
  starts_at = 1600;
  locked_at = 1900;
  attempt_id = 1;
  names_option = true;
  interpretation = interprets open_decision;
  stops_waiting = false;
  expiry = no_default;
  monitored = none;
  execution = setting;
  change = update_scene;
  words = none;
  text = 0;
}

abbrev nothing_manages : Message → Bool
nothing_manages m = false

abbrev order_name : ℕ → ℕ → ℕ
order_name k r = 1

-- A live alert becomes a paper order; posted again, it is a duplicate.
handled_run :
    (handle nothing_manages order_name digests nobody nobody arrival signal empty_store).0
    ≡ ends_as paper_order
unfolding executed handle for_channel channel_allows_author handle_trusted observed_now observe
    store_revision record_episode is_event_of next_generation drop_message handle_observed
    evaluate_observed is_context check_arrival unchanged claim_guards message_guards latest_known
    latest_stored get_or evaluate_if_current admitted_episode resolve_episode begin_evaluation
    source_generation position_generation inventory evaluate notes record_outcome
    take_interpretation guard_position_episode is_admitted under_lock check_still act_if_current
    claim_and_act claim_evaluation resolve_expiry resolved_for act_on execute_any concludes
    finish_evaluation
handled_run = refl

handle-IsKept_example :
    let t =
      (handle nothing_manages order_name digests nobody nobody arrival signal empty_store).1 in
    HaveKeys t.orders
    × IsBalanced t
    × AreSound t
    × ((k : ℕ) (o : Order)
        → find_order k empty_store ≡ some o
        → is_terminal o.status ≡ true
        → (o' : Order) × (find_order k t ≡ some o')
          × (o'.status ≡ o.status)
          × (o'.filled_quantity ≡ o.filled_quantity))
handle-IsKept_example =
    handle-IsKept nothing_manages order_name digests nobody nobody (λ n s. here)
      (λ n s. (refl, refl)) arrival signal empty_store tt empty-IsBalanced tt

abbrev edited_signal : Message
edited_signal = record signal { edited_timestamp = some 1200 }

edited_apart :
    may_trade nothing_manages order_name digests nobody nobody arrival edited_signal with_signal
    ≡ false
unfolding fills may_trade may_trade_for may_trade_in observed_now observe store_revision
    channel_allows_author record_episode is_event_of refresh_media
edited_apart = refl

handle-SameTrades_example :
    let t =
      (handle nothing_manages order_name digests nobody nobody arrival edited_signal
        with_signal).1 in
    (t.orders ≡ after_whole.orders)
    × (t.positions ≡ after_whole.positions)
    × (t.stop_requests ≡ after_whole.stop_requests)
handle-SameTrades_example =
    handle-SameTrades nothing_manages order_name digests nobody nobody (λ n s. (refl, refl, refl))
      (λ n s. (refl, refl, refl)) arrival edited_signal with_signal edited_apart

-- The broker lists the option for the day after.
abbrev defaulted : ExpiryWorld
defaulted = record no_default {
  defaults = true;
  nearest = λ c. ok (record c { expiry = suc c.expiry });
}

abbrev next_day : Decision
next_day = record open_decision { contract = some (record option_contract { expiry = 20419 }) }

resolved_run :
    resolve_expiry defaulted around.risk around.memory signal open_decision empty_store
    ≡ ok next_day
unfolding resolve_expiry resolve_nearest warmed_contract resolved_contract changes_option origin
    find_origin get_or same_contract Decimal.eq
resolved_run = refl

resolve_expiry-IsResolved_example : IsResolved defaulted open_decision option_contract next_day
resolve_expiry-IsResolved_example =
    resolve_expiry-IsResolved defaulted around.risk around.memory signal open_decision next_day
      option_contract empty_store refl refl resolved_run
