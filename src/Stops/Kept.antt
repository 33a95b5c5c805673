-- ===== src/Stops/Kept.antt =====
-- The ledger through `arm` (relay/stops.py).
use discord_option_tailer.Base.{
  Bool, Bool-cases, Except, Option, false, if◌then◌else◌, inl, inr, is_some, ltb, none, not, ok,
  raise, raise_if, refl, some, true, ℕ, ◌&&◌, ◌==◌, ◌||◌, ◌≡◌,
}
use discord_option_tailer.Base.Decimal.{Decimal}
use discord_option_tailer.Engine.Guards.{check_execution_mode}
use discord_option_tailer.Stops.{
  Act, StopError, StopResult, active_orders, checks, get_stop, is_retry_error, note_of, owned,
  retry_later, returns, set_state, ◌▷◌,
}
use discord_option_tailer.Stops.Arm.{
  ArmWorld, Submitted, answered, arm_result, broke_off, engine_check, is_shadow, is_sold,
  protecting, refused_early, settles, stands, stop_body, stop_price_of, stop_terms, submitted_stop,
  take_answer, take_refusal,
}
use discord_option_tailer.Stops.Cancel.{cancel, is_over}
use discord_option_tailer.Stops.Moves.{
  Moves, Reach-trans, bind-Moves, cancel-Moves, checks-Moves, set_state-Moves,
}
use discord_option_tailer.Stops.Place.{
  after_exit, after_found, arm, arm_entry, arm_for, arm_owned, arm_unowned, catches,
  check_protecting, fix_price, is_stop_pending, keep_or_replace, place_again, place_reserved,
  place_stop, price_and_swap, replace_stop, reserve_stop, restore, restore_found, swap_stop,
  try_arm,
}
use discord_option_tailer.Store.Fills.{apply_result}
use discord_option_tailer.Store.Lifecycle.{
  Reach, applied, here, marked, next, noted, rejected_early, reserved,
}
use discord_option_tailer.Store.Orders.{OrderError, reject_before_submission}
use discord_option_tailer.Store.Rows.{
  Contract, Order, OrderType, Position, Status, StopPrice, StopRequest, at_price, breakeven,
  closed_by_stop, contract_expired, is_stop_market, is_terminal, level_reached, no_remaining,
  not_protecting, now_active, order_in_flight, paused, stop_active, stop_blocked, stop_complete,
  stop_pending, submission_pending,
}
use discord_option_tailer.Store.State.{Store, find_order, unresolved}

pub settles-Moves : {A : Type 0} (r : Except StopError A) → Moves (settles r)
settles-Moves r s = here

pub if-Moves :
    {A : Type 0} (b : Bool) (m n : Act A) → Moves m → Moves n → Moves (if b then m else n)
if-Moves true m n p q = p
if-Moves false m n p q = q

arm_result-Moves :
    (r : StopRequest) (k : ℕ) (type : OrderType) (st : Option Status)
    → Moves (arm_result r k type st)
unfolding arm_result
arm_result-Moves r k type st =
    if-Moves (is_sold st) _ _ (set_state-Moves r stop_complete level_reached (some k)) (
      if-Moves (stands st && is_stop_market type) _ _
        (set_state-Moves r stop_active now_active (some k))
        (set_state-Moves r (if is_over st then stop_blocked else stop_pending) not_protecting
          (some k)))

refused_early-Moves :
    (b : Bool) (k : ℕ) (s : Store) (x : Except OrderError Store)
    → reject_before_submission k s ≡ x
    → Reach s (take_refusal b x s).1
unfolding take_refusal
refused_early-Moves b k s (raise e) h = here
refused_early-Moves b k s (ok t) h = next here (rejected_early k h)

take_answer-Moves :
    (r : StopRequest) (k : ℕ) (type : OrderType) (reply : Submitted)
    → Moves (take_answer r k type reply)
unfolding take_answer
take_answer-Moves r k type (refused_early b) s = refused_early-Moves b k s _ refl
take_answer-Moves r k type broke_off s = next here (marked s k)
take_answer-Moves r k type (answered reply) s =
    elim (Bool-cases (is_some (apply_result k reply s).error)) [
      | inl e ↦ rw e (next (next here (applied s k reply)) (marked _ k))
      | inr e ↦
          rw e
            (Reach-trans (next here (applied s k reply)) (arm_result-Moves r k type reply.status _))
    ]

arm_unowned-Moves : (row : StopRequest) (e : Option Order) → Moves (arm_unowned row e)
unfolding arm_unowned
arm_unowned-Moves row none = set_state-Moves row stop_complete no_remaining none
arm_unowned-Moves row (some e) =
    if-Moves (is_terminal e.status) _ _ (set_state-Moves row stop_complete no_remaining none)
      (λ _. here)

module _ (order_digest : ℕ → ℕ → ℕ → ℕ) where
  placed-Moves :
      (w : ArmWorld) (r : StopRequest) (quantity : ℕ) (type : OrderType) (k : ℕ) (s : Store)
      (x : Except OrderError Store)
      → reserve_stop order_digest w r k (stop_body r quantity type) s ≡ x
      → Reach s (place_reserved order_digest w r quantity type k x s).1
  unfolding place_reserved reserve_stop
  placed-Moves w r quantity type k s (raise e) h = here
  placed-Moves w r quantity type k s (ok t) h =
      Reach-trans (next (next here (noted refl refl)) (reserved _ _ _ k _ _ h)) (
        bind-Moves (set_state r stop_pending submission_pending (some k))
          (λ _ u. take_answer r k type (submitted_stop w r quantity u) u)
          (set_state-Moves r stop_pending submission_pending (some k))
          (λ _ u. take_answer-Moves r k type (submitted_stop w r quantity u) u) t)

  place_stop-Moves :
      (w : ArmWorld) (r : StopRequest) (quantity : ℕ) (type : OrderType)
      → Moves (place_stop order_digest w r quantity type)
  unfolding place_stop
  place_stop-Moves w r quantity type s = placed-Moves w r quantity type _ s _ refl

  place_again-Moves :
      (w : ArmWorld) (row : Option StopRequest) (before : Position) (type : OrderType)
      (p : Option Position)
      → Moves (place_again order_digest w row before type p)
  unfolding place_again
  place_again-Moves w none before type none = λ _. here
  place_again-Moves w (some r) before type none =
      set_state-Moves r stop_complete closed_by_stop none
  place_again-Moves w none before type (some p) =
      if-Moves (not (p.quantity == before.quantity)) _ _ (λ _. here) (λ _. here)
  place_again-Moves w (some r) before type (some p) =
      if-Moves (not (p.quantity == before.quantity)) _ _ (λ _. here)
        (place_stop-Moves w r p.quantity type)

  fix_price-Moves :
      (row : StopRequest) (price : Decimal) (v : StopPrice) → Moves (fix_price row price v)
  unfolding fix_price
  fix_price-Moves row price (at_price v) s = here
  fix_price-Moves row price breakeven s = next here (noted refl refl)

  swap_stop-Moves :
      (w : ArmWorld) (row : StopRequest) (p : Position) (row' : Option StopRequest)
      (type : OrderType)
      → Moves (swap_stop order_digest w row p row' type)
  unfolding swap_stop
  swap_stop-Moves w row p row' type =
      let guard_ok : Act (Unit {0}) = settles (engine_check w.guard) in
      let clear : Unit {0} → Act (Unit {0}) = λ _. cancel w.replies row.source_group row.contract in
      let place : Unit {0} → Act StopResult =
        λ _ s. place_again order_digest w row' p type (owned row.source_group row.contract s) s in
      bind-Moves (guard_ok ▷ clear) place
        (bind-Moves guard_ok clear (settles-Moves (engine_check w.guard))
          (λ _. cancel-Moves w.replies row.source_group row.contract))
        (λ _ s. place_again-Moves w row' p type (owned row.source_group row.contract s) s)

  price_and_swap-Moves :
      (w : ArmWorld) (row : StopRequest) (p : Position) (price : Decimal)
      (row' : Option StopRequest)
      → Moves (price_and_swap order_digest w row p price row')
  unfolding price_and_swap
  price_and_swap-Moves w row p price row' =
      let terms = stop_terms w row.contract price in
      bind-Moves (settles terms) (λ t. swap_stop order_digest w row p row' t.1)
        (settles-Moves terms) (λ t. swap_stop-Moves w row p row' t.1)

  replace_stop-Moves :
      (w : ArmWorld) (row : StopRequest) (p : Position) (price : Decimal)
      → Moves (replace_stop order_digest w row p price)
  unfolding replace_stop
  replace_stop-Moves w row p price s =
      let test : Except StopError (Unit {0}) =
        raise_if (ltb 0 (unresolved s)) (retry_later order_in_flight) in
      let quiet : Act (Unit {0}) = settles test in
      let fixed : Unit {0} → Act (Option StopRequest) = λ _. fix_price row price row.stop_price in
      let swap : Option StopRequest → Act StopResult =
        λ row'. price_and_swap order_digest w row p price row' in
      bind-Moves (quiet ▷ fixed) swap
        (bind-Moves quiet fixed (settles-Moves test)
          (λ _. fix_price-Moves row price row.stop_price))
        (λ row'. price_and_swap-Moves w row p price row') s

  keep_or_replace-Moves :
      (w : ArmWorld) (row : StopRequest) (p : Position) (price : Decimal) (o : Option Order)
      → Moves (keep_or_replace order_digest w row p price o)
  unfolding keep_or_replace
  keep_or_replace-Moves w row p price (some o) =
      set_state-Moves row stop_active now_active (some o.id)
  keep_or_replace-Moves w row p price none = replace_stop-Moves w row p price

  check_protecting-Moves :
      (w : ArmWorld) (row : StopRequest) (p : Position) (price : Decimal)
      → Moves (check_protecting order_digest w row p price)
  unfolding check_protecting
  check_protecting-Moves w row p price s =
      let found =
        engine_check (protecting price p (active_orders row.source_group row.contract s)) in
      bind-Moves (settles found) (λ o. keep_or_replace order_digest w row p price o)
        (settles-Moves found) (λ o. keep_or_replace-Moves w row p price o) s

  arm_entry-Moves :
      (w : ArmWorld) (row : StopRequest) (p : Position) → Moves (arm_entry order_digest w row p)
  unfolding arm_entry
  arm_entry-Moves w row p =
      let priced : Act Decimal = settles (engine_check (stop_price_of row.stop_price p)) in
      let later : Decimal → Act StopResult = λ price. check_protecting order_digest w row p price in
      if-Moves (ltb row.contract.expiry w.today) _ (priced ▷ later)
        (set_state-Moves row stop_complete contract_expired none)
        (bind-Moves priced later (settles-Moves (engine_check (stop_price_of row.stop_price p)))
          (λ price. check_protecting-Moves w row p price))

  arm_owned-Moves :
      (w : ArmWorld) (row : StopRequest) (p : Position) (e : Option Order)
      → Moves (arm_owned order_digest w row p e)
  unfolding arm_owned
  arm_owned-Moves w row p none = λ _. here
  arm_owned-Moves w row p (some e) =
      let mode : Act (Unit {0}) = checks (check_execution_mode w.binding) in
      let running : Unit {0} → Act (Unit {0}) =
        λ _. settles (raise_if (is_shadow w.binding.mode || w.kill_switch) (retry_later paused)) in
      if-Moves (not (e.id == row.entry_id)) _
        (mode ▷ running ▷ (λ _. arm_entry order_digest w row p))
        (set_state-Moves row stop_complete no_remaining none)
        (bind-Moves (mode ▷ running) (λ _. arm_entry order_digest w row p)
          (bind-Moves mode running (checks-Moves _) (λ _.
            settles-Moves
              (raise_if (is_shadow w.binding.mode || w.kill_switch) (retry_later paused))))
          (λ _. arm_entry-Moves w row p))

  arm_for-Moves :
      (w : ArmWorld) (row : StopRequest) (p : Option Position)
      → Moves (arm_for order_digest w row p)
  unfolding arm_for arm_unowned
  arm_for-Moves w row (some p) s = arm_owned-Moves w row p _ s
  arm_for-Moves w row none s = arm_unowned-Moves row (find_order row.entry_id s) s

  catches-Reach :
      (row : StopRequest) (s : Store) (x : Except StopError StopResult × Store)
      → Reach s x.1
      → Reach s (catches row x).1
  catches-Reach row s (ok r, t) moved = moved
  catches-Reach row s (raise e, t) moved = Reach-trans moved (
      set_state-Moves row (if is_retry_error e then stop_pending else stop_blocked) (note_of e) none
        t)

  pub arm-Moves : (w : ArmWorld) (row : Option StopRequest) → Moves (arm order_digest w row)
  unfolding arm try_arm
  arm-Moves w none s = here
  arm-Moves w (some row) s =
      catches-Reach row s _ (arm_for-Moves w row (owned row.source_group row.contract s) s)

  after_found-Moves :
      (w : ArmWorld) (price : Option StopPrice) (row : Option StopRequest)
      → Moves (after_found order_digest w price row)
  unfolding after_found
  after_found-Moves w price none = λ _. here
  after_found-Moves w price (some row) =
      bind-Moves (arm order_digest w (some row)) (λ r. returns (some r)) (arm-Moves w (some row))
        (λ _ _. here)

  pub after_exit-Moves :
      (w : ArmWorld) (g : ℕ) (c : Contract) (price : Option StopPrice)
      → Moves (after_exit order_digest w g c price)
  unfolding after_exit
  after_exit-Moves w g c price s = after_found-Moves w price (get_stop g c s) s

  restore_found-Moves :
      (w : ArmWorld) (row : Option StopRequest) → Moves (restore_found order_digest w row)
  unfolding restore_found
  restore_found-Moves w none = λ _. here
  restore_found-Moves w (some row) =
      if-Moves (is_stop_pending row.status) _ _
        (bind-Moves (arm order_digest w (some row)) (λ _. returns tt) (arm-Moves w (some row))
          (λ _ _. here))
        (λ _. here)

  pub restore-Moves : (w : ArmWorld) (g : ℕ) (c : Contract) → Moves (restore order_digest w g c)
  unfolding restore
  restore-Moves w g c s = restore_found-Moves w (get_stop g c s) s
