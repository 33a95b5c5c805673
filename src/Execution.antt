-- ===== src/Execution.antt =====
-- `execute_decision` and `_execute_decision` of relay/core.py, from a decision to its outcome, for any
-- action but UPDATE_STOP: the plan, the stops that make way for an exit, the dispatch checks, the
-- reservation, the submission and the stops after it. The diagnostics and timings are left out.
pub mod Kept
use discord_option_tailer.Base.{
  Bool, Except, List, Option, false, if◌then◌else◌, is_some, none, not, ok, raise, some, ℕ, ◌&&◌,
  ◌>>=◌, ◌>>◌, ◌||◌,
}
use discord_option_tailer.Engine.Dispatch.{Round, Verification, verify_dispatch}
use discord_option_tailer.Engine.Guards.{
  Hold, Mode, OrderColumns, PositionColumns, fresh, is_live, is_paper, origin,
}
use discord_option_tailer.Engine.Plan.{Planned, plan}
use discord_option_tailer.Engine.Pricing.{
  PlanGuard, Surroundings, expiry_guard, ordinary, recovery_guard,
}
use discord_option_tailer.Stops.{Act, StopError, checks, order_error, returns, ◌▷◌}
use discord_option_tailer.Stops.Arm.{
  ArmWorld, Submitted, answered, broke_off, is_shadow, refused_early,
}
use discord_option_tailer.Stops.Cancel.{Replies, before_exit}
use discord_option_tailer.Stops.Place.{after_exit, restore}
use discord_option_tailer.Store.Fills.{apply_result}
use discord_option_tailer.Store.Orders.{
  OrderError, arm_entry_deadline, mark_unknown, reject_before_submission, reserve,
}
use discord_option_tailer.Store.Outcomes.{record_outcome}
use discord_option_tailer.Store.Rows.{
  Contract, Decision, EventState, Submission, broker_order, detail, held, is_exit, paper_order,
  shadow_order, unknown_order,
}
use discord_option_tailer.Store.State.{Message, Store}

-- The SHA-256 digests.
pub record Digests : Type 0 where
  pub fingerprint : Message → Decision → Contract → ℕ
  pub inventory_digest : List PositionColumns × List OrderColumns → ℕ
  pub stop_order : ℕ → ℕ → ℕ → ℕ
  pub client_order : Message → ℕ

-- What one call of `verify_dispatch` reads, and what its guard answers each time.
pub record DispatchCheck : Type 0 where
  pub first : Round
  pub second : Round
  pub source : Verification
  pub first_guard : PlanGuard
  pub asked_guard : PlanGuard
  pub second_guard : PlanGuard

-- What the call reads beside the ledger: `reviewed` is there if the broker's review comes to call
-- `before_submit`, `reply` is what the submission comes to, and `words` and `reason_text` are of the
-- event that is written.
pub record ExecutionWorld : Type 0 where
  pub around : Surroundings
  pub start_guard : PlanGuard
  pub plan_guard : PlanGuard
  pub kill_switch : Bool
  pub replies : ℕ → Replies
  pub before : DispatchCheck
  pub reviewed : Option DispatchCheck
  pub reply : Submitted
  pub stop_world : ArmWorld
  pub restore_world : ArmWorld
  pub reserved_at : ℕ
  pub dispatched_at : ℕ
  pub words : Option Submission
  pub reason_text : ℕ

-- The guard of an expiry exit stands in for the origin, that of a recovery for the freshness.
unfoldable pub check_start :
    PlanGuard → Surroundings → Message → Decision → Store → Except Hold (Unit {0})
check_start (expiry_guard answer) w m d s = answer
check_start ordinary w m d s = do o ← origin m d w.memory s; fresh w.risk o w.now
check_start (recovery_guard answer) w m d s = do o ← origin m d w.memory s; answer

abbrev pub reads : {A : Type 0} → (Store → Except Hold A) → Act A
reads f s = checks (f s) s

unfoldable pub records : ExecutionWorld → Message → Decision → EventState → Act EventState
records w m d state s = (ok state, record_outcome m state (detail w.reason_text) (some d) w.words s)

abbrev pub armed_reply : Submitted → Except OrderError (Option ℕ × Store) → Act Submitted
armed_reply reply (raise e) s = (ok (refused_early false), s)
armed_reply reply (ok (at, t)) s = (ok reply, t)

abbrev pub order_state : Mode → EventState
order_state mode = if is_paper mode then paper_order else broker_order

-- Between two of its own reads and writes, other tasks may write: `others n` is what they do at the
-- n-th such place.
module _ (h : Digests) (others : ℕ → Store → Store) where
  abbrev pub others_write : ℕ → Act (Unit {0})
  others_write n s = (ok tt, others n s)

  -- `verify_dispatch`, whose second round reads the ledger as it is by then.
  unfoldable pub check_dispatch : ℕ → DispatchCheck → Message → Decision → Planned → Act (Unit {0})
  check_dispatch n v m d p s =
      let t = others n s in
      checks
        (verify_dispatch h.inventory_digest v.first s v.source v.second t v.first_guard
          v.asked_guard v.second_guard m d p.contract p.body)
        t

  -- `before_submit`: whatever it raises holds the order before it leaves.
  unfoldable pub after_check :
      ExecutionWorld → ℕ → Planned → Except StopError (Unit {0}) → Act Submitted
  after_check w k p (raise e) s = (ok (refused_early false), s)
  after_check w k p (ok _) s = armed_reply w.reply (arm_entry_deadline k p.body w.dispatched_at s) s

  unfoldable pub review_order :
      ExecutionWorld → Message → Decision → Planned → ℕ → Option DispatchCheck → Act Submitted
  review_order w m d p k none s = (ok w.reply, s)
  review_order w m d p k (some v) s =
      let (r, t) = check_dispatch 6 v m d p s in after_check w k p r t

  -- `broker.submit`, which a live broker has reviewed.
  unfoldable pub submit_order : ExecutionWorld → Message → Decision → Planned → ℕ → Act Submitted
  submit_order w m d p k =
      if is_live w.around.binding.mode then review_order w m d p k w.reviewed else returns w.reply

  unfoldable pub protect : ExecutionWorld → Message → Decision → Contract → Act (Unit {0})
  protect w m d c =
      if is_exit d.action || is_some d.stop_price
      then (after_exit h.stop_order w.stop_world m.source_group c d.stop_price ▷ (λ _. returns tt))
      else returns tt

  unfoldable pub conclude_refusal :
      ExecutionWorld → Message → Decision → Except OrderError Store → Act EventState
  conclude_refusal w m d (raise e) s = (raise (order_error e), s)
  conclude_refusal w m d (ok t) s = records w m d held t

  -- What the submission comes to, in the ledger.
  unfoldable pub conclude :
      ExecutionWorld → Message → Decision → Contract → ℕ → Submitted → Act EventState
  conclude w m d c k (refused_early _) s = conclude_refusal w m d (reject_before_submission k s) s
  conclude w m d c k broke_off s = records w m d unknown_order (mark_unknown k s)
  conclude w m d c k (answered r) s =
      let a = apply_result k r s in
      if is_some a.error
      then records w m d unknown_order (mark_unknown k a.store)
      else (protect w m d c ▷ (λ _. records w m d (order_state w.around.binding.mode))) a.store

  unfoldable pub submit_reserved :
      ExecutionWorld → Message → Decision → Planned → ℕ → Except OrderError Store → Act EventState
  submit_reserved w m d p k (raise e) s = (raise (order_error e), s)
  submit_reserved w m d p k (ok t) s =
      (others_write 5
          ▷ (λ _. submit_order w m d p k)
          ▷ (λ reply. others_write 7 ▷ (λ _. conclude w m d p.contract k reply)))
        t

  unfoldable pub reserve_planned : ExecutionWorld → Message → Decision → Planned → Act EventState
  reserve_planned w m d p s =
      let k = h.client_order m in
      submit_reserved w m d p k (reserve m d p.contract k p.body w.reserved_at s) s

  -- The stops of the contract make way for an exit.
  unfoldable pub make_way : ExecutionWorld → Message → Decision → Planned → Act (Unit {0})
  make_way w m d p =
      if is_exit d.action && not (is_shadow w.around.binding.mode)
      then before_exit w.around.binding w.kill_switch w.replies m.source_group p.contract
      else returns tt

  unfoldable pub execute_planned : ExecutionWorld → Message → Decision → Planned → Act EventState
  execute_planned w m d p =
      make_way w m d p ▷ (λ _. others_write 3) ▷ (λ _. check_dispatch 4 w.before m d p) ▷ (λ _.
        if is_shadow w.around.binding.mode
        then records w m d shadow_order
        else reserve_planned w m d p)

  -- `_execute_decision`
  unfoldable pub execute_checked : ExecutionWorld → Message → Decision → Act EventState
  execute_checked w m d =
      others_write 0
      ▷ (λ _. reads (check_start w.start_guard w.around m d))
      ▷ (λ _. others_write 1)
      ▷ (λ _. reads (plan h.fingerprint w.around w.plan_guard m d))
      ▷ (λ p. others_write 2 ▷ (λ _. execute_planned w m d p))

  abbrev pub restore_after :
      ExecutionWorld
      → Message
      → Decision
      → Except StopError EventState × Store
      → Except StopError EventState × Store
  restore_after w m d (r, t) =
      if is_exit d.action && not (is_shadow w.around.binding.mode)
      then elim d.contract [
        | none ↦ (r, t)
        | some c ↦ (r, (restore h.stop_order w.restore_world m.source_group c t).1)
      ]
      else (r, t)

  -- `execute_decision`: a stop that an exit displaced is restored even if the exit raised.
  unfoldable pub execute_decision : ExecutionWorld → Message → Decision → Act EventState
  execute_decision w m d s = restore_after w m d (execute_checked w m d s)
