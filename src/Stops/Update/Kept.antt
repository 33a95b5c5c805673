-- ===== src/Stops/Update/Kept.antt =====
-- The ledger through `update` (relay/stops.py).
use discord_option_tailer.Base.{
  Bool-cases, Except, List, Option, if◌then◌else◌, inl, inr, none, not, ok, raise, refl, some, ℕ,
  ◌&&◌, ◌==◌, ◌>>◌, ◌≡◌,
}
use discord_option_tailer.Engine.Guards.{OrderColumns, PositionColumns, fresh, unchanged}
use discord_option_tailer.Stops.{Act, StopResult, checks, get_stop, owned, returns, ◌▷◌}
use discord_option_tailer.Stops.Arm.{is_shadow, settles}
use discord_option_tailer.Stops.Kept.{arm-Moves, if-Moves, settles-Moves}
use discord_option_tailer.Stops.Maintain.{is_protected}
use discord_option_tailer.Stops.Moves.{Moves, Reach-trans, after_first, bind-Moves, checks-Moves}
use discord_option_tailer.Stops.Place.{arm}
use discord_option_tailer.Stops.Update.{
  UpdateWorld, check_update, confirm_source, move_stop, propose_stop, proposed_price, put_back,
  report_update, request, restore_previous, saved, source_guard, update_checked, update_protection,
  update_state, wanted_stop,
}
use discord_option_tailer.Store.Lifecycle.{Reach, here, next, noted}
use discord_option_tailer.Store.Orders.{OrderError, owns_nothing, save_stop_request}
use discord_option_tailer.Store.Orders.Writes.{save_stop_request-orders}
use discord_option_tailer.Store.Outcomes.{record_outcome, record_outcome-keeps}
use discord_option_tailer.Store.Rows.{
  Contract, Decision, EventState, Reason, StopRequest, Submission, detail, shadow_order, stop_note,
}
use discord_option_tailer.Store.State.{Message, Store, find_position, unresolved}

saved-Reach :
    (m : Message) (d : Decision) (c : Contract) (s : Store) (x : Except OrderError Store)
    → save_stop_request m d c (wanted_stop d) none s ≡ x
    → Reach s (saved x s).1
saved-Reach m d c s (raise e) h = here
saved-Reach m d c s (ok t) h =
    let (os, ps, es) = save_stop_request-orders m d c (wanted_stop d) none s t h in
    next here (noted os ps)

request-Moves : (m : Message) (d : Decision) (c : Contract) → Moves (request m d c)
unfolding request
request-Moves m d c s =
    let write : Act (Unit {0}) = saved (save_stop_request m d c (wanted_stop d) none s) in
    after_first
      (λ _ t. (
        ok (
            if owns_nothing (find_position m.source_group c s.positions)
            then none
            else get_stop m.source_group c t),
        t,
      ))
      s (write s) (saved-Reach m d c s _ refl) (λ _ t. here)

notes_outcome :
    (m : Message) (state : EventState) (why : Reason) (d : Decision) (words : Option Submission)
    (s : Store)
    → Reach s (record_outcome m state why (some d) words s)
notes_outcome m state why d words s =
    let (os, ps) = record_outcome-keeps m state why (some d) words s in next here (noted os ps)

propose_stop-Moves :
    (w : UpdateWorld) (m : Message) (d : Decision) (c : Contract) → Moves (propose_stop w m d c)
unfolding propose_stop
propose_stop-Moves w m d c s =
    let price = proposed_price (wanted_stop d) (owned m.source_group c s) in
    after_first
      (λ _ t.
        (ok shadow_order, record_outcome m shadow_order (detail w.reason_text) (some d) w.words t))
      s (settles price s) (settles-Moves price s)
      (λ _ t. notes_outcome m shadow_order (detail w.reason_text) d w.words t)

report_update-Moves :
    (w : UpdateWorld) (m : Message) (d : Decision) (r : StopResult) → Moves (report_update w m d r)
unfolding report_update
report_update-Moves w m d r s =
    notes_outcome m (update_state w.binding.mode r.status) (stop_note r.note) d w.words s

module _ (order_digest : ℕ → ℕ → ℕ → ℕ)
    (inventory_digest : List PositionColumns × List OrderColumns → ℕ) (others : Store → Store)
    (quiet : (s : Store) → Reach s (others s)) where
  confirm_source-Moves :
      (w : UpdateWorld) (m : Message)
      → Moves (confirm_source order_digest inventory_digest others w m)
  unfolding confirm_source
  confirm_source-Moves w m s = elim (Bool-cases w.needs_source) [
    | inl e ↦ rw e (quiet s)
    | inr e ↦ rw e here
  ]

  restore_previous-Moves :
      (w : UpdateWorld) (p : Option StopRequest) (r : StopResult)
      → Moves (restore_previous order_digest inventory_digest others w p r)
  unfolding restore_previous
  restore_previous-Moves w none r s = here
  restore_previous-Moves w (some p) r s =
      elim (Bool-cases (not (is_protected r.status) && unresolved s == 0)) [
        | inr e ↦ rw e here
        | inl e ↦
            let u = put_back p s in
            let row = get_stop p.source_group p.contract u in
            let ends : StopResult → Act (Unit {0}) = λ _. returns tt in
            rw e (
              Reach-trans (next here (noted refl refl)) (
                bind-Moves (arm order_digest w.restoring_world row) ends
                  (arm-Moves order_digest w.restoring_world row) (λ _ _. here) u))
      ]

  move_stop-Moves :
      (w : UpdateWorld) (m : Message) (d : Decision) (c : Contract)
      → Moves (move_stop order_digest inventory_digest others w m d c)
  unfolding move_stop
  move_stop-Moves w m d c s =
      let previous = get_stop m.source_group c s in
      let arms : Option StopRequest → Act StopResult = λ row. arm order_digest w.arming row in
      let restores : StopResult → Act (Unit {0}) =
        λ r. restore_previous order_digest inventory_digest others w previous r in
      let ends : StopResult → Act EventState = λ r. restores r ▷ (λ _. report_update w m d r) in
      bind-Moves (request m d c ▷ arms) ends
        (bind-Moves (request m d c) arms (request-Moves m d c)
          (λ row. arm-Moves order_digest w.arming row))
        (λ r.
          bind-Moves (restores r) (λ _. report_update w m d r) (restore_previous-Moves w previous r)
            (λ _. report_update-Moves w m d r))
        s

  update_checked-Moves :
      (w : UpdateWorld) (m : Message) (d : Decision) (c : Contract)
      → Moves (update_checked order_digest inventory_digest others w m d c)
  unfolding update_checked
  update_checked-Moves w m d c =
      if-Moves (is_shadow w.binding.mode) _ _ (propose_stop-Moves w m d c) (move_stop-Moves w m d c)

  source_guard-Moves :
      (w : UpdateWorld) (m : Message)
      → Moves (source_guard order_digest inventory_digest others w m)
  unfolding source_guard
  source_guard-Moves w m s =
      let first = fresh w.risk m w.guarded_at >> unchanged inventory_digest w.claim m w.memory s in
      let confirm : Unit {0} → Act (Unit {0}) =
        λ _. confirm_source order_digest inventory_digest others w m in
      let second : Unit {0} → Act (Unit {0}) = λ _ t.
        checks
          (fresh w.risk m w.verified_at >> unchanged inventory_digest w.claim m w.verified_memory t)
          t in
      bind-Moves (checks first ▷ confirm) second
        (bind-Moves (checks first) confirm (checks-Moves first) (λ _. confirm_source-Moves w m))
        (λ _ t. checks-Moves _ t) s

  pub update_protection-Moves :
      (w : UpdateWorld) (m : Message) (d : Decision)
      → Moves (update_protection order_digest inventory_digest others w m d)
  unfolding update_protection
  update_protection-Moves w m d s =
      let test = check_update order_digest inventory_digest others w m d s in
      let guard_source : Act (Unit {0}) = source_guard order_digest inventory_digest others w m in
      let change : Contract → Act EventState =
        λ c. guard_source ▷ (λ _. update_checked order_digest inventory_digest others w m d c) in
      bind-Moves (checks test) change (checks-Moves test)
        (λ c.
          bind-Moves guard_source (λ _. update_checked order_digest inventory_digest others w m d c)
            (source_guard-Moves w m) (λ _. update_checked-Moves w m d c))
        s
