-- ===== src/Execution/Kept.antt =====
-- The ledger through `execute_decision` (relay/core.py).
use discord_option_tailer.Base.{
  Bool-cases, Except, Option, Option-cases, ap, arith, if◌then◌else◌, inl, inr, is_some, none, not,
  ok, raise, refl, some, subst, sym, true, ℕ, ◌&&◌, ◌||◌, ◌≡◌,
}
use discord_option_tailer.Engine.Dispatch.{verify_dispatch}
use discord_option_tailer.Engine.Guards.{Hold, is_live}
use discord_option_tailer.Engine.Plan.{Planned, plan}
use discord_option_tailer.Execution.{
  Digests, DispatchCheck, ExecutionWorld, after_check, armed_reply, check_dispatch, check_start,
  conclude, conclude_refusal, execute_checked, execute_decision, execute_planned, make_way,
  order_state, others_write, protect, reads, records, reserve_planned, restore_after, review_order,
  submit_order, submit_reserved,
}
use discord_option_tailer.Stops.{Act, StopError, checks, engine_hold, returns, ◌▷◌}
use discord_option_tailer.Stops.Arm.{Submitted, answered, broke_off, is_shadow, refused_early}
use discord_option_tailer.Stops.Clear.{before_exit-Moves}
use discord_option_tailer.Stops.Kept.{after_exit-Moves, if-Moves, restore-Moves}
use discord_option_tailer.Stops.Moves.{Moves, Reach-trans, after_first, bind-Moves, checks-Moves}
use discord_option_tailer.Stops.Place.{after_exit}
use discord_option_tailer.Store.Fills.{apply_result}
use discord_option_tailer.Store.Fills.Balance.{IsBalanced}
use discord_option_tailer.Store.Lifecycle.{
  KeepsTrade, Reach, applied, armed, here, marked, next, noted, rejected_early, reserved,
}
use discord_option_tailer.Store.Lifecycle.Accounts.{Reach-IsBalanced}
use discord_option_tailer.Store.Lifecycle.Endings.{Reach-KeepsEndings}
use discord_option_tailer.Store.Lifecycle.Soundness.{AreSound, Reach-AreSound}
use discord_option_tailer.Store.Orders.{
  OrderError, arm_entry_deadline, new_order, reject_before_submission, reserve,
}
use discord_option_tailer.Store.Orders.Writes.{reserve-ok}
use discord_option_tailer.Store.Outcomes.{record_outcome-keeps}
use discord_option_tailer.Store.Rows.{
  Body, Contract, Decision, EventState, Order, detail, held, is_exit, is_terminal, shadow_order,
  unknown_order,
}
use discord_option_tailer.Store.State.{Message, Store, find_order}

records-Moves :
    (w : ExecutionWorld) (m : Message) (d : Decision) (state : EventState)
    → Moves (records w m d state)
unfolding records
records-Moves w m d state s =
    let (os, ps) = record_outcome-keeps m state (detail w.reason_text) (some d) w.words s in
    next here (noted os ps)

concluded_refusal-Moves :
    (h : Digests) (others : ℕ → Store → Store) (w : ExecutionWorld) (m : Message) (d : Decision)
    (k : ℕ) (s : Store) (x : Except OrderError Store)
    → reject_before_submission k s ≡ x
    → Reach s (conclude_refusal h others w m d x s).1
unfolding conclude_refusal
concluded_refusal-Moves h others w m d k s (raise e) eq = here
concluded_refusal-Moves h others w m d k s (ok t) eq =
    Reach-trans (next here (rejected_early k eq)) (records-Moves w m d held t)

-- The row of the order still has the body that it was reserved with.
HoldsBody : ℕ → Body → Store → Type 0
HoldsBody k body s = (o : Order) × (find_order k s ≡ some o) × (o.body ≡ body)

found_once : (x : Option Order) (o o' : Order) → x ≡ some o → x ≡ some o' → o ≡ o'
found_once x o o' h h' = cc

HoldsBody-KeepsTrade : (k : ℕ) (body : Body) (s : Store) → HoldsBody k body s → KeepsTrade k body s
unfolding HoldsBody
HoldsBody-KeepsTrade k body s (o, found, bodied) o' found' =
    let same_row : o ≡ o' = found_once (find_order k s) o o' found found' in
    subst (λ x. (body.side ≡ x.body.side) × (body.quantity ≡ x.body.quantity)) same_row
      (ap (λ b. b.side) (sym bodied), ap (λ b. b.quantity) (sym bodied))

HoldsBody-kept :
    (k : ℕ) (body : Body) (s t : Store)
    → t.orders ≡ s.orders
    → HoldsBody k body s
    → HoldsBody k body t
unfolding HoldsBody
HoldsBody-kept k body s t os (o, found, bodied) = (o, rw os found, bodied)

reserved-HoldsBody :
    (m : Message) (d : Decision) (c : Contract) (k : ℕ) (body : Body) (now : ℕ) (s t : Store)
    → reserve m d c k body now s ≡ ok t
    → HoldsBody k body t
unfolding HoldsBody new_order
reserved-HoldsBody m d c k body now s t eq =
    let (_, os, _) = reserve-ok m d c k body now s t eq in
    (new_order m d c k body now, rw os (ground arith), refl)

armed_reply-Reach :
    (reply : Submitted) (k : ℕ) (body : Body) (now : ℕ) (s : Store)
    (x : Except OrderError (Option ℕ × Store))
    → HoldsBody k body s
    → arm_entry_deadline k body now s ≡ x
    → Reach s (armed_reply reply x s).1
armed_reply-Reach reply k body now s (raise e) bodied eq = here
armed_reply-Reach reply k body now s (ok (at, t)) bodied eq =
    next here (armed k body now at (HoldsBody-KeepsTrade k body s bodied) eq)

-- What other tasks write leaves orders and positions alone: `execute_decision` runs under the lock of
-- the engine, which every writer of orders takes.
abbrev pub AreQuiet : (ℕ → Store → Store) → Type 0
AreQuiet others =
    (n : ℕ) (s : Store) → ((others n s).orders ≡ s.orders) × ((others n s).positions ≡ s.positions)

module _ (h : Digests) (others : ℕ → Store → Store) (quiet : AreQuiet others) where
  others_write-Moves : (n : ℕ) → Moves (others_write h others n)
  others_write-Moves n s = next here (noted (quiet n s).0 (quiet n s).1)

  check_dispatch-Moves :
      (n : ℕ) (v : DispatchCheck) (m : Message) (d : Decision) (p : Planned)
      → Moves (check_dispatch h others n v m d p)
  unfolding check_dispatch
  check_dispatch-Moves n v m d p s =
      Reach-trans (others_write-Moves n s) (checks-Moves _ (others n s))

  after_check-Reach :
      (w : ExecutionWorld) (k : ℕ) (p : Planned) (r : Except StopError (Unit {0})) (s : Store)
      → HoldsBody k p.body s
      → Reach s (after_check h others w k p r s).1
  unfolding after_check
  after_check-Reach w k p (raise e) s bodied = here
  after_check-Reach w k p (ok _) s bodied =
      armed_reply-Reach w.reply k p.body w.dispatched_at s _ bodied refl

  checked-Reach :
      (w : ExecutionWorld) (k : ℕ) (p : Planned) (answer : Except Hold (Unit {0})) (t : Store)
      → HoldsBody k p.body t
      → Reach t (after_check h others w k p (checks answer t).0 (checks answer t).1).1
  checked-Reach w k p (ok _) t bodied = after_check-Reach w k p (ok tt) t bodied
  checked-Reach w k p (raise e) t bodied = after_check-Reach w k p (raise (engine_hold e)) t bodied

  review_order-Reach :
      (w : ExecutionWorld) (m : Message) (d : Decision) (p : Planned) (k : ℕ)
      (v : Option DispatchCheck) (s : Store)
      → HoldsBody k p.body s
      → Reach s (review_order h others w m d p k v s).1
  unfolding review_order check_dispatch
  review_order-Reach w m d p k none s bodied = here
  review_order-Reach w m d p k (some v) s bodied =
      let t = others 6 s in
      Reach-trans (others_write-Moves 6 s) (
        checked-Reach w k p
          (verify_dispatch h.inventory_digest v.first s v.source v.second t v.first_guard
            v.asked_guard v.second_guard m d p.contract p.body)
          t (HoldsBody-kept k p.body s t (quiet 6 s).0 bodied))

  submit_order-Reach :
      (w : ExecutionWorld) (m : Message) (d : Decision) (p : Planned) (k : ℕ) (s : Store)
      → HoldsBody k p.body s
      → Reach s (submit_order h others w m d p k s).1
  unfolding submit_order
  submit_order-Reach w m d p k s bodied = elim (Bool-cases (is_live w.around.binding.mode)) [
    | inl e ↦ rw e (review_order-Reach w m d p k w.reviewed s bodied)
    | inr e ↦ rw e here
  ]

  protect-Moves :
      (w : ExecutionWorld) (m : Message) (d : Decision) (c : Contract)
      → Moves (protect h others w m d c)
  unfolding protect
  protect-Moves w m d c =
      if-Moves (is_exit d.action || is_some d.stop_price) _ _
        (bind-Moves (after_exit h.stop_order w.stop_world m.source_group c d.stop_price)
          (λ _. returns tt)
          (after_exit-Moves h.stop_order w.stop_world m.source_group c d.stop_price) (λ _ _. here))
        (λ _. here)

  conclude-Moves :
      (w : ExecutionWorld) (m : Message) (d : Decision) (c : Contract) (k : ℕ) (reply : Submitted)
      → Moves (conclude h others w m d c k reply)
  unfolding conclude
  conclude-Moves w m d c k (refused_early b) s = concluded_refusal-Moves h others w m d k s _ refl
  conclude-Moves w m d c k broke_off s =
      Reach-trans (next here (marked s k)) (records-Moves w m d unknown_order _)
  conclude-Moves w m d c k (answered r) s =
      let u = (apply_result k r s).store in
      let recorded : Act EventState = records w m d (order_state w.around.binding.mode) in
      elim (Bool-cases (is_some (apply_result k r s).error)) [
        | inl e ↦ rw e (
            Reach-trans (next (next here (applied s k r)) (marked u k))
              (records-Moves w m d unknown_order _))
        | inr e ↦ rw e (
            Reach-trans (next here (applied s k r)) (
              bind-Moves (protect h others w m d c) (λ _. recorded) (protect-Moves w m d c)
                (λ _. records-Moves w m d (order_state w.around.binding.mode)) u))
      ]

  reserved_order-Moves :
      (w : ExecutionWorld) (m : Message) (d : Decision) (p : Planned) (k : ℕ) (s : Store)
      (x : Except OrderError Store)
      → reserve m d p.contract k p.body w.reserved_at s ≡ x
      → Reach s (submit_reserved h others w m d p k x s).1
  unfolding submit_reserved
  reserved_order-Moves w m d p k s (raise e) eq = here
  reserved_order-Moves w m d p k s (ok t) eq =
      let bodied = reserved-HoldsBody m d p.contract k p.body w.reserved_at s t eq in
      let sent : Unit {0} → Act Submitted = λ _. submit_order h others w m d p k in
      let finish : Submitted → Act EventState =
        λ reply. others_write h others 7 ▷ (λ _. conclude h others w m d p.contract k reply) in
      Reach-trans (next here (reserved m d p.contract k p.body w.reserved_at eq)) (
        after_first finish t ((others_write h others 5 ▷ sent) t)
          (Reach-trans (others_write-Moves 5 t) (
            submit_order-Reach w m d p k (others 5 t)
              (HoldsBody-kept k p.body t (others 5 t) (quiet 5 t).0 bodied)))
          (λ reply.
            bind-Moves (others_write h others 7) (λ _. conclude h others w m d p.contract k reply)
              (others_write-Moves 7) (λ _. conclude-Moves w m d p.contract k reply)))

  reserve_planned-Moves :
      (w : ExecutionWorld) (m : Message) (d : Decision) (p : Planned)
      → Moves (reserve_planned h others w m d p)
  unfolding reserve_planned
  reserve_planned-Moves w m d p s = reserved_order-Moves w m d p (h.client_order m) s _ refl

  make_way-Moves :
      (w : ExecutionWorld) (m : Message) (d : Decision) (p : Planned)
      → Moves (make_way h others w m d p)
  unfolding make_way
  make_way-Moves w m d p =
      if-Moves (is_exit d.action && not (is_shadow w.around.binding.mode)) _ _
        (before_exit-Moves w.around.binding w.kill_switch w.replies m.source_group p.contract)
        (λ _. here)

  execute_planned-Moves :
      (w : ExecutionWorld) (m : Message) (d : Decision) (p : Planned)
      → Moves (execute_planned h others w m d p)
  unfolding execute_planned
  execute_planned-Moves w m d p =
      let way : Act (Unit {0}) = make_way h others w m d p in
      let wait : Unit {0} → Act (Unit {0}) = λ _. others_write h others 3 in
      let checked : Unit {0} → Act (Unit {0}) = λ _. check_dispatch h others 4 w.before m d p in
      let last : Unit {0} → Act EventState = λ _.
        if is_shadow w.around.binding.mode
        then records w m d shadow_order
        else reserve_planned h others w m d p in
      bind-Moves (way ▷ wait ▷ checked) last
        (bind-Moves (way ▷ wait) checked
          (bind-Moves way wait (make_way-Moves w m d p) (λ _. others_write-Moves 3))
          (λ _. check_dispatch-Moves 4 w.before m d p))
        (λ _.
          if-Moves (is_shadow w.around.binding.mode) _ _ (records-Moves w m d shadow_order)
            (reserve_planned-Moves w m d p))

  execute_checked-Moves :
      (w : ExecutionWorld) (m : Message) (d : Decision) → Moves (execute_checked h others w m d)
  unfolding execute_checked
  execute_checked-Moves w m d =
      let start : Unit {0} → Act (Unit {0}) = λ _. reads (check_start w.start_guard w.around m d) in
      let planning : Unit {0} → Act Planned =
        λ _. reads (plan h.fingerprint w.around w.plan_guard m d) in
      let before : Act (Unit {0}) = others_write h others 0 in
      let between : Unit {0} → Act (Unit {0}) = λ _. others_write h others 1 in
      let later : Planned → Act EventState =
        λ p. others_write h others 2 ▷ (λ _. execute_planned h others w m d p) in
      bind-Moves (before ▷ start ▷ between ▷ planning) later
        (bind-Moves (before ▷ start ▷ between) planning
          (bind-Moves (before ▷ start) between
            (bind-Moves before start (others_write-Moves 0)
              (λ _ s. checks-Moves (check_start w.start_guard w.around m d s) s))
            (λ _. others_write-Moves 1))
          (λ _ s. checks-Moves (plan h.fingerprint w.around w.plan_guard m d s) s))
        (λ p.
          bind-Moves (others_write h others 2) (λ _. execute_planned h others w m d p)
            (others_write-Moves 2) (λ _. execute_planned-Moves w m d p))

  restored-Reach :
      (w : ExecutionWorld) (m : Message) (d : Decision) (s : Store)
      (x : Except StopError EventState × Store)
      → Reach s x.1
      → Reach s (restore_after h others w m d x).1
  restored-Reach w m d s (r, t) moved =
      elim (Bool-cases (is_exit d.action && not (is_shadow w.around.binding.mode))) [
        | inr e ↦ rw e moved
        | inl e ↦ elim (Option-cases d.contract) [
          | inl none_named ↦ rw e (rw none_named moved)
          | inr (c, named) ↦ rw e (
              rw named
                (Reach-trans moved (restore-Moves h.stop_order w.restore_world m.source_group c t)))
        ]
      ]

  pub execute_decision-Moves :
      (w : ExecutionWorld) (m : Message) (d : Decision) → Moves (execute_decision h others w m d)
  unfolding execute_decision
  execute_decision-Moves w m d s = restored-Reach w m d s _ (execute_checked-Moves w m d s)

  -- Whatever the market, the guards, the broker and the other tasks do, so long as the other tasks
  -- leave orders and positions alone, execute_decision keeps a ledger balanced and sound, and keeps the
  -- status and the filled quantity of every order that had ended.
  pub execute_decision-IsKept :
      (w : ExecutionWorld) (m : Message) (d : Decision) (s : Store)
      → IsBalanced s
      → AreSound s
      → let t = (execute_decision h others w m d s).1 in
        IsBalanced t
        × AreSound t
        × ((k : ℕ) (o : Order)
            → find_order k s ≡ some o
            → is_terminal o.status ≡ true
            → (o' : Order) × (find_order k t ≡ some o')
              × (o'.status ≡ o.status)
              × (o'.filled_quantity ≡ o.filled_quantity))
  execute_decision-IsKept w m d s balanced sound =
      let moved = execute_decision-Moves w m d s in
      (
        Reach-IsBalanced balanced moved,
        Reach-AreSound sound moved,
        λ k o found over. Reach-KeepsEndings moved k o found over,
      )
