-- ===== src/Stops/Place.antt =====
-- `arm` and `_arm` of relay/stops.py, with `after_exit` and `restore`, which call them.
use discord_option_tailer.Base.{
  Bool, Except, Option, false, if◌then◌else◌, ltb, none, not, ok, raise, raise_if, some, suc, true,
  ℕ, ◌==◌, ◌||◌,
}
use discord_option_tailer.Base.Decimal.{Decimal}
use discord_option_tailer.Engine.Guards.{check_execution_mode}
use discord_option_tailer.Stops.{
  Act, StopError, StopResult, active_orders, checks, failed, get_stop, is_retry_error, note_of,
  order_error, owned, refuses, retry_later, returns, set_state, stop_hold, update_stop_row, ◌▷◌,
}
use discord_option_tailer.Stops.Arm.{
  ArmWorld, engine_check, is_shadow, protecting, settles, stop_body, stop_price_of, stop_terms,
  submitted_stop, take_answer,
}
use discord_option_tailer.Stops.Cancel.{cancel}
use discord_option_tailer.Store.Orders.{OrderError, reserve}
use discord_option_tailer.Store.Rows.{
  Body, Contract, Order, OrderType, Position, StopPrice, StopRequest, StopStatus, at_price,
  breakeven, closed_by_stop, contract_expired, entry_unreconciled, filled_in_replacement,
  is_terminal, no_remaining, no_stop_entry, now_active, order_in_flight, paused, stop_active,
  stop_blocked, stop_complete, stop_pending, submission_pending, update_stop,
}
use discord_option_tailer.Store.State.{Store, find_order, latest_entry, unresolved}

-- A request at breakeven keeps the price that it came to.
unfoldable pub fix_price : StopRequest → Decimal → StopPrice → Act (Option StopRequest)
fix_price row price (at_price v) s = (ok (some row), s)
fix_price row price breakeven s =
    let t =
      update_stop_row row.source_group row.contract
        (λ x. record x { stop_price = at_price (some price) }) s in
    (ok (get_stop row.source_group row.contract t), t)

unfoldable pub arm_unowned : StopRequest → Option Order → Act StopResult
arm_unowned row none = set_state row stop_complete no_remaining none
arm_unowned row (some e) =
    if is_terminal e.status
    then set_state row stop_complete no_remaining none
    else refuses (retry_later entry_unreconciled)

abbrev pub catches :
    StopRequest → Except StopError StopResult × Store → Except StopError StopResult × Store
catches row (ok r, t) = (ok r, t)
catches row (raise e, t) =
    set_state row (if is_retry_error e then stop_pending else stop_blocked) (note_of e) none t

abbrev pub nothing_left : StopResult
nothing_left = record { status = stop_complete; note = no_remaining; order_id = none }

abbrev pub is_stop_pending : StopStatus → Bool
is_stop_pending stop_pending = true
is_stop_pending _ = false

-- `order_digest` is the SHA-256 of the message, its revision and the stop's generation.
module _ (order_digest : ℕ → ℕ → ℕ → ℕ) where
  -- The transaction that reserves the order, under a generation of its own.
  unfoldable pub reserve_stop : ArmWorld → StopRequest → ℕ → Body → Store → Except OrderError Store
  reserve_stop w r k body s =
      reserve w.message (record (r.decision) { action = update_stop }) r.contract k body
        w.reserved_at
        (update_stop_row r.source_group r.contract (λ x. record x { generation = suc r.generation })
          s)

  unfoldable pub place_reserved :
      ArmWorld → StopRequest → ℕ → OrderType → ℕ → Except OrderError Store → Act StopResult
  place_reserved w r quantity type k (raise e) s = (raise (order_error e), s)
  place_reserved w r quantity type k (ok t) s =
      (set_state r stop_pending submission_pending (some k)
          ▷ (λ _ u. take_answer r k type (submitted_stop w r quantity u) u))
        t

  unfoldable pub place_stop : ArmWorld → StopRequest → ℕ → OrderType → Act StopResult
  place_stop w r quantity type s =
      let k = order_digest w.message.id w.message.revision (suc r.generation) in
      place_reserved w r quantity type k (reserve_stop w r k (stop_body r quantity type) s) s

  -- After the cancellation. The row is `none` if it is gone, which every use of it makes an error.
  unfoldable pub place_again :
      ArmWorld → Option StopRequest → Position → OrderType → Option Position → Act StopResult
  place_again w none before type none = refuses failed
  place_again w (some r) before type none = set_state r stop_complete closed_by_stop none
  place_again w none before type (some p) =
      if not (p.quantity == before.quantity)
      then refuses (retry_later filled_in_replacement)
      else refuses failed
  place_again w (some r) before type (some p) =
      if not (p.quantity == before.quantity)
      then refuses (retry_later filled_in_replacement)
      else place_stop w r p.quantity type

  -- From the source's guard on: the old orders go before the new one comes.
  unfoldable pub swap_stop :
      ArmWorld → StopRequest → Position → Option StopRequest → OrderType → Act StopResult
  swap_stop w row p row' type =
      settles (engine_check w.guard)
      ▷ (λ _. cancel w.replies row.source_group row.contract)
      ▷ (λ _ s. place_again w row' p type (owned row.source_group row.contract s) s)

  unfoldable pub price_and_swap :
      ArmWorld → StopRequest → Position → Decimal → Option StopRequest → Act StopResult
  price_and_swap w row p price row' =
      settles (stop_terms w row.contract price) ▷ (λ terms. swap_stop w row p row' terms.1)

  unfoldable pub replace_stop : ArmWorld → StopRequest → Position → Decimal → Act StopResult
  replace_stop w row p price s =
      (settles (raise_if (ltb 0 (unresolved s)) (retry_later order_in_flight))
          ▷ (λ _. fix_price row price row.stop_price)
          ▷ (λ row'. price_and_swap w row p price row'))
        s

  unfoldable pub keep_or_replace :
      ArmWorld → StopRequest → Position → Decimal → Option Order → Act StopResult
  keep_or_replace w row p price (some o) = set_state row stop_active now_active (some o.id)
  keep_or_replace w row p price none = replace_stop w row p price

  unfoldable pub check_protecting : ArmWorld → StopRequest → Position → Decimal → Act StopResult
  check_protecting w row p price s =
      (settles (engine_check (protecting price p (active_orders row.source_group row.contract s)))
          ▷ (λ o. keep_or_replace w row p price o))
        s

  unfoldable pub arm_entry : ArmWorld → StopRequest → Position → Act StopResult
  arm_entry w row p =
      if ltb row.contract.expiry w.today
      then set_state row stop_complete contract_expired none
      else (settles (engine_check (stop_price_of row.stop_price p))
          ▷ (λ price. check_protecting w row p price))

  unfoldable pub arm_owned : ArmWorld → StopRequest → Position → Option Order → Act StopResult
  arm_owned w row p none = refuses (stop_hold no_stop_entry)
  arm_owned w row p (some e) =
      if not (e.id == row.entry_id)
      then set_state row stop_complete no_remaining none
      else (checks (check_execution_mode w.binding)
          ▷ (λ _.
              settles (raise_if (is_shadow w.binding.mode || w.kill_switch) (retry_later paused)))
          ▷ (λ _. arm_entry w row p))

  unfoldable pub arm_for : ArmWorld → StopRequest → Option Position → Act StopResult
  arm_for w row none s = arm_unowned row (find_order row.entry_id s) s
  arm_for w row (some p) s = arm_owned w row p (latest_entry row.source_group row.contract s) s

  -- `_arm`
  unfoldable pub try_arm : ArmWorld → StopRequest → Act StopResult
  try_arm w row s = arm_for w row (owned row.source_group row.contract s) s

  -- `arm`
  unfoldable pub arm : ArmWorld → Option StopRequest → Act StopResult
  arm w none s = (ok nothing_left, s)
  arm w (some row) s = catches row (try_arm w row s)

  unfoldable pub after_found :
      ArmWorld → Option StopPrice → Option StopRequest → Act (Option StopResult)
  after_found w price none = returns (elim price [ some v ↦ some nothing_left | none ↦ none ])
  after_found w price (some row) = arm w (some row) ▷ (λ r. returns (some r))

  -- `after_exit`, for the contract of the decision: `none` is a decision without a stop price.
  unfoldable pub after_exit : ArmWorld → ℕ → Contract → Option StopPrice → Act (Option StopResult)
  after_exit w g c price s = after_found w price (get_stop g c s) s

  unfoldable pub restore_found : ArmWorld → Option StopRequest → Act (Unit {0})
  restore_found w none = returns tt
  restore_found w (some row) =
      if is_stop_pending row.status then (arm w (some row) ▷ (λ _. returns tt)) else returns tt

  -- `restore`
  unfoldable pub restore : ArmWorld → ℕ → Contract → Act (Unit {0})
  restore w g c s = restore_found w (get_stop g c s) s
