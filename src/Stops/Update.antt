-- ===== src/Stops/Update.antt =====
-- `update` of relay/stops.py: an instruction that only moves the protective stop. The timings and the
-- `stop_evaluation` of the decision are left out.
pub mod Apart
pub mod Kept
use discord_option_tailer.Base.{
  Bool, Except, List, Option, [], guarded, if◌then◌else◌, is_some, need, none, not, ok, raise,
  raise_if, some, ℕ, ◌&&◌, ◌==◌, ◌>>=◌, ◌>>◌, ◌||◌, ◌∷◌,
}
use discord_option_tailer.Base.Decimal.{Decimal}
use discord_option_tailer.Engine.Guards.{
  Binding, Claim, Hold, Memory, Mode, OrderColumns, PositionColumns, ambiguous_action, bad_quantity,
  check_entry_lifetime, check_execution_mode, fresh, is_paper, is_true, kill_switch_present,
  no_contract, nothing_owned, origin, paid, source_unverified, unchanged,
}
use discord_option_tailer.Engine.Plan.{is_sure}
use discord_option_tailer.Sizing.{Risk}
use discord_option_tailer.Stops.{
  Act, StopError, StopResult, checks, engine_hold, failed, get_stop, order_error, owned, returns,
  update_stop_row, ◌▷◌,
}
use discord_option_tailer.Stops.Arm.{ArmWorld, engine_check, is_shadow, settles}
use discord_option_tailer.Stops.Maintain.{is_protected}
use discord_option_tailer.Stops.Place.{arm}
use discord_option_tailer.Store.Orders.{OrderError, owns_nothing, save_stop_request}
use discord_option_tailer.Store.Outcomes.{record_outcome}
use discord_option_tailer.Store.Rows.{
  Contract, Decision, EventState, Position, StopPrice, StopRequest, StopStatus, Submission,
  at_price, breakeven, broker_order, detail, held, paper_order, restoring, shadow_order, stop_note,
  stop_pending,
}
use discord_option_tailer.Store.State.{Message, Store, find_position, unresolved}

-- What the call reads beside the ledger. `guarded_at` and `verified_at` are the times of the source
-- guard's checks before and after `verify_current`, which refuses every message where it is not set,
-- and `verified_memory` is what the reader has seen by the second. `arming` and `restoring_world` are
-- what the two calls of `arm` read, the former with the source guard's later answers.
pub record UpdateWorld : Type 0 where
  pub binding : Binding
  pub risk : Risk
  pub kill_switch : Bool
  pub memory : Memory
  pub verified_memory : Memory
  pub claim : Option Claim
  pub now : ℕ
  pub guarded_at : ℕ
  pub verified_at : ℕ
  pub needs_source : Bool
  pub confirms : Message → Bool
  pub arming : ArmWorld
  pub restoring_world : ArmWorld
  pub words : Option Submission
  pub reason_text : ℕ

unfoldable pub update_guards : UpdateWorld → Decision → List (Bool × Hold)
update_guards w d =
    (w.kill_switch, kill_switch_present)
    ∷ (
      not (is_some d.ambiguous) || (is_true d.ambiguous || not (is_sure w.risk d.confidence)),
      ambiguous_action,
    )
    ∷ (is_some d.quantity || is_some d.fraction, bad_quantity)
    ∷ []

abbrev pub wanted_stop : Decision → StopPrice
wanted_stop d = elim d.stop_price [ some p ↦ p | none ↦ at_price none ]

abbrev pub saved : Except OrderError Store → Act (Unit {0})
saved (raise e) s = (raise (order_error e), s)
saved (ok t) s = (ok tt, t)

-- `request`: the row that was written, `none` where nothing is owned.
unfoldable pub request : Message → Decision → Contract → Act (Option StopRequest)
request m d c s =
    (saved (save_stop_request m d c (wanted_stop d) none s) ▷ (λ _ t. (
      ok (
          if owns_nothing (find_position m.source_group c s.positions)
          then none
          else get_stop m.source_group c t),
      t,
    )))
      s

-- The price that a proposal of shadow mode names; an entry that is gone by then is an error.
unfoldable pub proposed_price : StopPrice → Option Position → Except StopError Decimal
proposed_price (at_price v) p = engine_check (paid v)
proposed_price breakeven none = raise failed
proposed_price breakeven (some p) = engine_check (paid (some p.average_price))

unfoldable pub propose_stop : UpdateWorld → Message → Decision → Contract → Act EventState
propose_stop w m d c s =
    (settles (proposed_price (wanted_stop d) (owned m.source_group c s)) ▷ (λ _ t.
        (ok shadow_order, record_outcome m shadow_order (detail w.reason_text) (some d) w.words t)))
      s

unfoldable pub previous_stop : StopRequest → StopRequest → StopRequest
previous_stop p r = record r {
  message_id = p.message_id;
  decision = p.decision;
  stop_price = p.stop_price;
  entry_id = p.entry_id;
  status = stop_pending;
  reason = stop_note restoring;
}

abbrev pub put_back : StopRequest → Store → Store
put_back p s = update_stop_row p.source_group p.contract (previous_stop p) s

abbrev pub update_state : Mode → StopStatus → EventState
update_state mode status =
    if not (is_protected status) then held else if is_paper mode then paper_order else broker_order

unfoldable pub report_update : UpdateWorld → Message → Decision → StopResult → Act EventState
report_update w m d r s =
    let state = update_state w.binding.mode r.status in
    (ok state, record_outcome m state (stop_note r.note) (some d) w.words s)

-- `others` is what other tasks write while the source is verified.
module _ (order_digest : ℕ → ℕ → ℕ → ℕ)
    (inventory_digest : List PositionColumns × List OrderColumns → ℕ) (others : Store → Store) where
  unfoldable pub check_update : UpdateWorld → Message → Decision → Store → Except Hold Contract
  check_update w m d s = do
    check_execution_mode w.binding
    guarded (update_guards w d) (ok tt)
    fresh w.risk m w.now
    o ← origin m d w.memory s
    fresh w.risk o w.now
    unchanged inventory_digest w.claim m w.memory s
    c ← need d.contract no_contract
    raise_if (not (is_some (owned m.source_group c s))) nothing_owned
    check_entry_lifetime m d c w.memory s
    ok c

  unfoldable pub confirm_source : UpdateWorld → Message → Act (Unit {0})
  confirm_source w m s =
      if w.needs_source
      then (if w.confirms m then ok tt else raise (engine_hold source_unverified), others s)
      else (ok tt, s)

  -- `source_guard`, as it runs first.
  unfoldable pub source_guard : UpdateWorld → Message → Act (Unit {0})
  source_guard w m s =
      (checks (fresh w.risk m w.guarded_at >> unchanged inventory_digest w.claim m w.memory s)
          ▷ (λ _. confirm_source w m)
          ▷ (λ _ t.
              checks
                (fresh w.risk m w.verified_at
                  >> unchanged inventory_digest w.claim m w.verified_memory t)
                t))
        s

  unfoldable pub restore_previous : UpdateWorld → Option StopRequest → StopResult → Act (Unit {0})
  restore_previous w none r s = (ok tt, s)
  restore_previous w (some p) r s =
      if not (is_protected r.status) && unresolved s == 0
      then (arm order_digest w.restoring_world (get_stop p.source_group p.contract (put_back p s))
            ▷ (λ _. returns tt))
          (put_back p s)
      else (ok tt, s)

  unfoldable pub move_stop : UpdateWorld → Message → Decision → Contract → Act EventState
  move_stop w m d c s =
      let previous = get_stop m.source_group c s in
      (request m d c
          ▷ (λ row. arm order_digest w.arming row)
          ▷ (λ r. restore_previous w previous r ▷ (λ _. report_update w m d r)))
        s

  unfoldable pub update_checked : UpdateWorld → Message → Decision → Contract → Act EventState
  update_checked w m d c =
      if is_shadow w.binding.mode then propose_stop w m d c else move_stop w m d c

  -- `update`
  unfoldable pub update_protection : UpdateWorld → Message → Decision → Act EventState
  update_protection w m d s =
      (checks (check_update w m d s) ▷ (λ c. source_guard w m ▷ (λ _. update_checked w m d c))) s
