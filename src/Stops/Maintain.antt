-- ===== src/Stops/Maintain.antt =====
-- `maintain` of relay/stops.py: the pending and the active requests are armed again, in turn, after the
-- orders have been reconciled.
use discord_option_tailer.Base.{
  Bool, Bool-cases, List, Option, [], false, if◌then◌else◌, inl, inr, none, ok, select, some, true,
  ℕ, ◌&&◌, ◌∷◌,
}
use discord_option_tailer.Stops.{Act, StopResult, returns, set_state, ◌▷◌}
use discord_option_tailer.Stops.Arm.{ArmWorld, is_sold}
use discord_option_tailer.Stops.Kept.{arm-Moves}
use discord_option_tailer.Stops.Moves.{Moves, bind-Moves, set_state-Moves}
use discord_option_tailer.Stops.Place.{arm}
use discord_option_tailer.Store.Lifecycle.{here, next, noted}
use discord_option_tailer.Store.Outcomes.{record_outcome, record_outcome-keeps}
use discord_option_tailer.Store.Rows.{
  Order, Reason, StopRequest, StopStatus, Submission, broker_order, held, protection_filled,
  stop_active, stop_blocked, stop_complete, stop_note, stop_pending,
}
use discord_option_tailer.Store.State.{Store, find_order}

unfoldable pub same_stop_status : StopStatus → StopStatus → Bool
same_stop_status stop_pending stop_pending = true
same_stop_status stop_active stop_active = true
same_stop_status stop_blocked stop_blocked = true
same_stop_status stop_complete stop_complete = true
same_stop_status _ _ = false

abbrev pub is_maintained : StopStatus → Bool
is_maintained stop_pending = true
is_maintained stop_active = true
is_maintained _ = false

-- In force, or no longer needed.
abbrev pub is_protected : StopStatus → Bool
is_protected stop_active = true
is_protected stop_complete = true
is_protected _ = false

-- What the call reads beside the ledger: for each request what arming it reads and the submission
-- words of its decision's JSON, and whether two texts are the same, since a reason stands for more
-- than one text.
pub record MaintainWorld : Type 0 where
  pub arming : StopRequest → ArmWorld
  pub words : StopRequest → Option Submission
  pub same_text : Reason → Reason → Bool

unfoldable pub is_unchanged_stop : MaintainWorld → StopRequest → StopResult → Bool
is_unchanged_stop w row r =
    same_stop_status r.status row.status && w.same_text (stop_note r.note) row.reason

unfoldable pub report_stop : MaintainWorld → StopRequest → StopResult → Act (Unit {0})
report_stop w row r s = if is_unchanged_stop w row r then (ok tt, s) else (
  ok tt,
  record_outcome ((w.arming row).message) (if is_protected r.status then broker_order else held)
      (stop_note r.note) (some row.decision) (w.words row) s,
)

-- The order of a request that has sold what it protects.
unfoldable pub is_sold_order : Option Order → Bool
is_sold_order none = false
is_sold_order (some o) = is_sold (some o.status)

abbrev pub order_of : StopRequest → Store → Option Order
order_of row s = elim row.order_id [ none ↦ none | some k ↦ find_order k s ]

report_stop-Moves :
    (w : MaintainWorld) (row : StopRequest) (r : StopResult) → Moves (report_stop w row r)
unfolding report_stop
report_stop-Moves w row r s = elim (Bool-cases (is_unchanged_stop w row r)) [
  | inl e ↦ rw e here
  | inr e ↦
      let state = if is_protected r.status then broker_order else held in
      let (os, ps) =
        record_outcome-keeps ((w.arming row).message) state (stop_note r.note) (some row.decision)
          (w.words row) s in
      rw e (next here (noted os ps))
]

module _ (order_digest : ℕ → ℕ → ℕ → ℕ) where
  unfoldable pub maintain_row : MaintainWorld → StopRequest → Act (Unit {0})
  maintain_row w row s =
      if is_sold_order (order_of row s)
      then (set_state row stop_complete protection_filled none ▷ (λ _. returns tt)) s
      else (arm order_digest (w.arming row) (some row) ▷ (λ r. report_stop w row r)) s

  unfoldable pub maintain_rows : MaintainWorld → List StopRequest → Act (Unit {0})
  maintain_rows w [] = returns tt
  maintain_rows w (row ∷ rows) = maintain_row w row ▷ (λ _. maintain_rows w rows)

  -- The rows are those that the ledger has at the start.
  unfoldable pub maintain : MaintainWorld → Act (Unit {0})
  maintain w s = maintain_rows w (select (λ r. is_maintained r.status) s.stop_requests) s

  maintain_row-Moves : (w : MaintainWorld) (row : StopRequest) → Moves (maintain_row w row)
  unfolding maintain_row
  maintain_row-Moves w row s = elim (Bool-cases (is_sold_order (order_of row s))) [
    | inl e ↦
        let ends : StopResult → Act (Unit {0}) = λ _. returns tt in
        rw e (
          bind-Moves (set_state row stop_complete protection_filled none) ends
            (set_state-Moves row stop_complete protection_filled none) (λ _ _. here) s)
    | inr e ↦ rw e (
        bind-Moves (arm order_digest (w.arming row) (some row)) (λ r. report_stop w row r)
          (arm-Moves order_digest (w.arming row) (some row)) (λ r. report_stop-Moves w row r) s)
  ]

  maintain_rows-Moves : (w : MaintainWorld) (rows : List StopRequest) → Moves (maintain_rows w rows)
  unfolding maintain_rows
  maintain_rows-Moves w [] s = here
  maintain_rows-Moves w (row ∷ rows) s =
      bind-Moves (maintain_row w row) (λ _. maintain_rows w rows) (maintain_row-Moves w row)
        (λ _. maintain_rows-Moves w rows) s

  pub maintain-Moves : (w : MaintainWorld) → Moves (maintain w)
  unfolding maintain
  maintain-Moves w s =
      maintain_rows-Moves w (select (λ r. is_maintained r.status) s.stop_requests) s
