-- ===== src/Stops/Arm.antt =====
-- What `_arm` of relay/stops.py reads, its checks and prices, the order that it places and the end of
-- its submission.
use discord_option_tailer.Base.Decimal
use discord_option_tailer.Base.{
  Bool, Except, List, Option, [], false, if◌then◌else◌, is_some, need, none, not, ok, raise,
  raise_if, same_option, some, true, ℕ, ◌&&◌, ◌+◌, ◌==◌, ◌>>=◌, ◌>>◌, ◌||◌, ◌∷◌,
}
use discord_option_tailer.Base.Decimal.{Decimal}
use discord_option_tailer.Engine.Guards.{
  Binding, Hold, Mode, check_execution_mode, check_quote_age, is_live, is_paper, money, paid,
  shadow,
}
use discord_option_tailer.Engine.Pricing.{Snapshot, is_contract, round_up}
use discord_option_tailer.Sizing.{Risk}
use discord_option_tailer.Stops.{
  Act, StopError, StopResult, engine_hold, order_error, owned, retry_later, set_state, stop_hold,
}
use discord_option_tailer.Stops.Cancel.{Replies, is_over}
use discord_option_tailer.Store.Fills.{BrokerResult, apply_result}
use discord_option_tailer.Store.Orders.{OrderError, mark_unknown, reject_before_submission}
use discord_option_tailer.Store.Rows.{
  Body, Contract, Order, OrderType, Position, Status, StopPrice, StopRequest, absent, at_price,
  breakeven, closing, filled, held_early, is_stop_market, level_reached, market, no_remaining,
  no_stop_entry, not_protecting, now_active, paused, quote_unfit, restricted_account, sell,
  session_closed, source_unconfirmed, spread_invalid, stop_active, stop_blocked, stop_complete,
  stop_market, stop_pending, submission_uncertain,
}
use discord_option_tailer.Store.State.{Message, Store, is_standing, is_stop_order, latest_entry}

pub record Ticks : Type 0 where
  pub cutoff_price : Option Decimal
  pub above_tick : Option Decimal
  pub below_tick : Option Decimal

-- The quote of a stop; the fields are those of the engine's quotes, and `min_ticks`.
pub record StopQuote : Type 0 where
  pub contract : Option Contract
  pub tradable : Bool
  pub standard : Bool
  pub timestamp : Option ℕ
  pub bid : Option Decimal
  pub ask : Option Decimal
  pub tick_size : Option Decimal
  pub min_ticks : Option Ticks

-- What the submission comes to: a hold before the order left, with whether the source's guard made
-- it, any other exception, or the broker's answer.
pub data Submitted : Type 0 where
  refused_early : Bool → Submitted
  broke_off : Submitted
  answered : BrokerResult → Submitted

-- What the call reads beside the ledger. `message` is the JSON of the request's row, `guard` and
-- `own_guard` are the answers of `source_guard` before the cancellation and in the broker's review
-- (an answer where there is no guard), `reviewed` is what the review passes to `before_submit`, and
-- the last four are the times of the checks and the reservation.
pub record ArmWorld : Type 0 where
  pub binding : Binding
  pub risk : Risk
  pub kill_switch : Bool
  pub review_kill_switch : Bool
  pub today : ℕ
  pub message : Message
  pub quote : StopQuote
  pub snapshot : Snapshot
  pub guard : Except Hold (Unit {0})
  pub own_guard : Except Hold (Unit {0})
  pub replies : ℕ → Replies
  pub reviewed : Option (Snapshot × StopQuote)
  pub reply : Submitted
  pub quoted_at : ℕ
  pub snapshot_checked_at : ℕ
  pub reserved_at : ℕ
  pub reviewed_at : ℕ

abbrev pub is_shadow : Mode → Bool
is_shadow shadow = true
is_shadow _ = false

abbrev pub engine_check : {A : Type 0} → Except Hold A → Except StopError A
engine_check (ok a) = ok a
engine_check (raise h) = raise (engine_hold h)

abbrev pub settles : {A : Type 0} → Except StopError A → Act A
settles r s = (r, s)

-- The price that the request asks for: "breakeven" is the average that was paid.
unfoldable pub stop_price_of : StopPrice → Position → Except Hold Decimal
stop_price_of breakeven p = paid (some p.average_price)
stop_price_of (at_price v) p = paid v

-- The order that already protects the position: the only active one, standing at the broker for all
-- that is owned, at the price.
unfoldable pub is_covering : Position → Order → Bool
is_covering p o =
    is_standing o.status
    && (is_stop_order o.body.order_type && o.body.quantity == p.quantity + o.filled_quantity)

unfoldable pub at_its_price : Order → Decimal → Except Hold (Option Order)
at_its_price o price = do
  requested ← money o.body.requested_stop
  ok (if Decimal.eq requested price then some o else none)

unfoldable pub protecting : Decimal → Position → List Order → Except Hold (Option Order)
protecting price p [] = ok none
protecting price p (o ∷ []) = if is_covering p o then at_its_price o price else ok none
protecting price p (o ∷ o' ∷ os) = ok none

unfoldable pub stop_tick : Decimal → StopQuote → Except Hold Decimal
stop_tick price q = elim q.min_ticks [
  | none ↦ paid q.tick_size
  | some t ↦ do
    cutoff ← money t.cutoff_price
    paid (if Decimal.le cutoff price then t.above_tick else t.below_tick)
]

abbrev pub is_restricted : Binding → Snapshot → Bool
is_restricted b sn =
    sn.restrictions || (not (is_paper b.mode) && not (same_option sn.account_id b.account))

-- The price in whole ticks, rounded up, and the type of the order: at the market where the bid has
-- reached the level.
unfoldable pub stop_terms : ArmWorld → Contract → Decimal → Except StopError (Decimal × OrderType)
stop_terms w c price = do
  engine_check (check_quote_age w.risk w.quote.timestamp w.quoted_at)
  engine_check (check_quote_age w.risk w.snapshot.timestamp w.snapshot_checked_at)
  raise_if (not w.snapshot.market_open) (retry_later session_closed)
  raise_if (is_restricted w.binding w.snapshot) (stop_hold restricted_account)
  raise_if (not (is_contract c w.quote.contract && (w.quote.tradable && w.quote.standard)))
      (stop_hold quote_unfit)
  bid ← engine_check (paid w.quote.bid)
  ask ← engine_check (paid w.quote.ask)
  raise_if (Decimal.lt ask bid) (stop_hold spread_invalid)
  tick ← engine_check (stop_tick price w.quote)
  let level = round_up price tick
  ok (level, if Decimal.le bid level then market else stop_market)

abbrev pub price_text : StopPrice → Option Decimal
price_text breakeven = none
price_text (at_price v) = v

-- The order's body. The keys that the ledger does not read are left out, its rounded level among them.
unfoldable pub stop_body : StopRequest → ℕ → OrderType → Body
stop_body r quantity type = record {
  side = sell;
  position_effect = closing;
  quantity = quantity;
  limit_price = none;
  order_type = some type;
  prepared_entry = false;
  cancel_window = absent;
  cancellation = record {
    cancel_reason = none;
    cancel_requested_at = none;
    entry_cancel_at = none;
    cancel_result_status = none;
    cancel_result_broker_state = none;
  };
  broker_submission = none;
  signal_fingerprint = none;
  requested_stop = price_text r.stop_price;
}

-- `before_submit`, up to the guard of the source.
unfoldable pub review_stop :
    ArmWorld → StopRequest → ℕ → Snapshot → StopQuote → Store → Except StopError (Unit {0})
review_stop w r quantity sn q s = do
  engine_check (check_execution_mode w.binding)
  raise_if w.review_kill_switch (stop_hold paused)
  p ← need (owned r.source_group r.contract s) (stop_hold no_remaining)
  e ← need (latest_entry r.source_group r.contract s) (stop_hold no_stop_entry)
  raise_if (not (p.quantity == quantity) || not (e.id == r.entry_id)) (stop_hold no_remaining)
  engine_check (check_quote_age w.risk q.timestamp w.reviewed_at)
  engine_check (check_quote_age w.risk sn.timestamp w.reviewed_at)
  raise_if
      (not (same_option sn.account_id w.binding.account)
        || (not sn.market_open || (sn.restrictions || not (is_contract r.contract q.contract))))
      (stop_hold restricted_account)

abbrev pub after_review :
    Except StopError (Unit {0}) → Except Hold (Unit {0}) → Submitted → Submitted
after_review (raise e) guard reply = refused_early false
after_review (ok _) (raise h) reply = refused_early true
after_review (ok _) (ok _) reply = reply

-- `broker.submit` with `before_submit`, which a live broker calls in its review.
unfoldable pub submitted_stop : ArmWorld → StopRequest → ℕ → Store → Submitted
submitted_stop w r quantity s = if not (is_live w.binding.mode) then w.reply else elim w.reviewed [
  | none ↦ w.reply
  | some (sn, q) ↦ after_review (review_stop w r quantity sn q s) w.own_guard w.reply
]

abbrev pub is_sold : Option Status → Bool
is_sold (some filled) = true
is_sold _ = false

abbrev pub stands : Option Status → Bool
stands none = false
stands (some st) = is_standing st

-- The end of `_arm`, from the status of the broker's answer.
unfoldable pub arm_result : StopRequest → ℕ → OrderType → Option Status → Act StopResult
arm_result r k type st =
    if is_sold st
    then set_state r stop_complete level_reached (some k)
    else if stands st && is_stop_market type
    then set_state r stop_active now_active (some k)
    else set_state r (if is_over st then stop_blocked else stop_pending) not_protecting (some k)

-- The order never left, and is rejected in the ledger.
unfoldable pub take_refusal : Bool → Except OrderError Store → Act StopResult
take_refusal by_source (raise e) s = (raise (order_error e), s)
take_refusal by_source (ok t) s =
    (raise (if by_source then stop_hold source_unconfirmed else retry_later held_early), t)

unfoldable pub take_answer : StopRequest → ℕ → OrderType → Submitted → Act StopResult
take_answer r k type (refused_early by_source) s =
    take_refusal by_source (reject_before_submission k s) s
take_answer r k type broke_off s = (raise (stop_hold submission_uncertain), mark_unknown k s)
take_answer r k type (answered reply) s =
    let a = apply_result k reply s in
    if is_some a.error
    then (raise (stop_hold submission_uncertain), mark_unknown k a.store)
    else arm_result r k type reply.status a.store
