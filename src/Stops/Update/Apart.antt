-- ===== src/Stops/Update/Apart.antt =====
-- When `update` of relay/stops.py leaves the trades and the stops alone.
use discord_option_tailer.Base.{
  Bool, Bool-cases, Except, Except-cases, List, Option, arith, bind_ok, false, guarded,
  guarded-eq-ok, inl, inr, is_some, need, none, not, ok, raise, raise_if, refl, some, true, ℕ, ◌&&◌,
  ◌>>◌, ◌||◌, ◌∙◌, ◌≡◌,
}
use discord_option_tailer.Engine.Guards.{
  Hold, OrderColumns, PositionColumns, check_execution_mode, fresh, is_true, no_contract,
  nothing_owned, origin, unchanged,
}
use discord_option_tailer.Engine.Plan.{is_sure}
use discord_option_tailer.Handling.Writes.{SameTrades, record_outcome-SameTrades}
use discord_option_tailer.Stops.{Act, StopError, checks, owned, ◌▷◌}
use discord_option_tailer.Stops.Arm.{is_shadow, settles}
use discord_option_tailer.Stops.Update.{
  UpdateWorld, check_update, confirm_source, propose_stop, proposed_price, source_guard,
  update_checked, update_guards, update_protection, wanted_stop,
}
use discord_option_tailer.Store.Outcomes.{record_outcome}
use discord_option_tailer.Store.Rows.{Contract, Decision, EventState, detail, shadow_order}
use discord_option_tailer.Store.State.{Message, Store}

-- What an instruction needs to touch the stop.
unfoldable pub owns_named : Message → Decision → Store → Bool
owns_named m d s = elim d.contract [ none ↦ false | some c ↦ is_some (owned m.source_group c s) ]

unfoldable pub may_move : UpdateWorld → Message → Decision → Store → Bool
may_move w m d s =
    not w.kill_switch
    && ((is_some d.ambiguous && (not (is_true d.ambiguous) && is_sure w.risk d.confidence))
        && (not (is_some d.quantity || is_some d.fraction)
            && (owns_named m d s
                && (not (is_shadow w.binding.mode) && (not w.needs_source || w.confirms m)))))

-- Steps that leave the trades alone, one after another.
follows :
    {A B : Type 0} (k : A → Act B) (s : Store) (x : Except StopError A × Store)
    → SameTrades s x.1
    → ((a : A) (t : Store) → x ≡ (ok a, t) → SameTrades t (k a t).1)
    → SameTrades s (((λ (_ : Store). x) ▷ k) s).1
follows k s (ok a, t) (os, ps, rs) h =
    let (os', ps', rs') = h a t refl in (os' ∙ os, ps' ∙ ps, rs' ∙ rs)
follows k s (raise e, t) same h = same

checks-SameTrades : {A : Type 0} (r : Except Hold A) (s : Store) → SameTrades s (checks r s).1
checks-SameTrades (ok a) s = (refl, refl, refl)
checks-SameTrades (raise e) s = (refl, refl, refl)

checks-ok :
    {A : Type 0} (r : Except Hold A) (a : A) (s t : Store)
    → checks r s ≡ (ok a, t)
    → (r ≡ ok a) × (t ≡ s)
checks-ok (ok a) b s t h = grind arith
checks-ok (raise e) b s t h = absurd (grind arith)

propose_stop-SameTrades :
    (w : UpdateWorld) (m : Message) (d : Decision) (c : Contract) (s : Store)
    → SameTrades s (propose_stop w m d c s).1
unfolding propose_stop
propose_stop-SameTrades w m d c s =
    let price = proposed_price (wanted_stop d) (owned m.source_group c s) in
    follows
      (λ _ t.
        (ok shadow_order, record_outcome m shadow_order (detail w.reason_text) (some d) w.words t))
      s (settles price s) (refl, refl, refl)
      (λ _ t h. record_outcome-SameTrades m shadow_order (detail w.reason_text) (some d) w.words t)

need-some : (o : Option Contract) (c : Contract) → need {E = Hold} o no_contract ≡ ok c → o ≡ some c
need-some none c h = cc
need-some (some b) c h = cc

unguarded :
    (w : UpdateWorld) (d : Decision) {u : Unit {0}}
    → guarded (update_guards w d) (ok tt) ≡ ok u
    → (w.kill_switch ≡ false)
      × ((not (is_some d.ambiguous) || (is_true d.ambiguous || not (is_sure w.risk d.confidence)))
          ≡ false)
      × ((is_some d.quantity || is_some d.fraction) ≡ false)
unfolding update_guards
unguarded w d h = let g = (guarded-eq-ok (update_guards w d) (ok tt) h).0 in (g.0, g.1.0, g.1.1.0)

raise_if-passes : (b : Bool) (e : Hold) (u : Unit {0}) → raise_if b e ≡ ok u → b ≡ false
raise_if-passes true e u h = absurd (grind arith)
raise_if-passes false e u h = refl

module _ (order_digest : ℕ → ℕ → ℕ → ℕ)
    (inventory_digest : List PositionColumns × List OrderColumns → ℕ) (others : Store → Store)
    (quiet : (s : Store) → SameTrades s (others s)) where
  check_update-permits :
      (w : UpdateWorld) (m : Message) (d : Decision) (s : Store) (c : Contract)
      → check_update order_digest inventory_digest others w m d s ≡ ok c
      → may_move w m d s ≡ (not (is_shadow w.binding.mode) && (not w.needs_source || w.confirms m))
  unfolding check_update may_move update_guards owns_named
  check_update-permits w m d s c h = bind_ok (check_execution_mode w.binding) _ h λ _ e1 h1.
      bind_ok (guarded (update_guards w d) (ok tt)) _ h1 λ _ e2 h2.
        bind_ok (fresh w.risk m w.now) _ h2 λ _ e3 h3.
          bind_ok (origin m d w.memory s) _ h3 λ o e4 h4.
            bind_ok (fresh w.risk o w.now) _ h4 λ _ e5 h5.
              bind_ok (unchanged inventory_digest w.claim m w.memory s) _ h5 λ _ e6 h6.
                bind_ok (need d.contract no_contract) _ h6 λ c0 e7 h7.
                  bind_ok (raise_if (not (is_some (owned m.source_group c0 s))) nothing_owned) _ h7
                    λ u e8 h8.
                      let named = need-some d.contract c0 e7 in
                      let held = raise_if-passes _ nothing_owned u e8 in
                      let (g1, g2, g3) = unguarded w d e2 in rw named (ground arith)

  confirm_source-SameTrades :
      (w : UpdateWorld) (m : Message) (s : Store)
      → SameTrades s (confirm_source order_digest inventory_digest others w m s).1
  unfolding confirm_source
  confirm_source-SameTrades w m s = elim (Bool-cases w.needs_source) [
    | inl e ↦ rw e (quiet s)
    | inr e ↦ rw e (refl, refl, refl)
  ]

  source_guard-SameTrades :
      (w : UpdateWorld) (m : Message) (s : Store)
      → SameTrades s (source_guard order_digest inventory_digest others w m s).1
  unfolding source_guard
  source_guard-SameTrades w m s =
      let first = fresh w.risk m w.guarded_at >> unchanged inventory_digest w.claim m w.memory s in
      let confirm : Unit {0} → Act (Unit {0}) =
        λ _. confirm_source order_digest inventory_digest others w m in
      let second : Unit {0} → Act (Unit {0}) = λ _ t.
        checks
          (fresh w.risk m w.verified_at >> unchanged inventory_digest w.claim m w.verified_memory t)
          t in
      follows second s ((checks first ▷ confirm) s)
        (follows confirm s (checks first s) (checks-SameTrades first s)
          (λ _ t _. confirm_source-SameTrades w m t))
        (λ _ t _. checks-SameTrades _ t)

  source_guard-confirms :
      (w : UpdateWorld) (m : Message) (s t : Store) (u : Unit {0})
      → source_guard order_digest inventory_digest others w m s ≡ (ok u, t)
      → (not w.needs_source || w.confirms m) ≡ true
  unfolding source_guard confirm_source
  source_guard-confirms w m s t u h = elim (Bool-cases w.needs_source) [
    | inr e ↦ ground arith
    | inl e ↦ elim (Bool-cases (w.confirms m)) [
      | inl verified ↦ ground arith
      | inr unverified ↦
          let first =
            fresh w.risk m w.guarded_at >> unchanged inventory_digest w.claim m w.memory s in
          elim (Except-cases first) [
            | inl (a, run) ↦ absurd (grind arith)
            | inr (x, run) ↦ absurd (grind arith)
          ]
    ]
  ]

  update_checked-SameTrades :
      (w : UpdateWorld) (m : Message) (d : Decision) (c : Contract) (s : Store)
      → is_shadow w.binding.mode ≡ true
      → SameTrades s (update_checked order_digest inventory_digest others w m d c s).1
  unfolding update_checked
  update_checked-SameTrades w m d c s e = rw e (propose_stop-SameTrades w m d c s)

  -- An instruction to move the stop changes no order, no position and no stop request while the kill
  -- switch is there, when it is ambiguous or not sure, names a quantity or a fraction, or is about a
  -- contract that its source does not own, in shadow mode, and when the source's message has to be
  -- confirmed and is not, provided that other tasks change none while the source is verified.
  pub update_protection-SameTrades :
      (w : UpdateWorld) (m : Message) (d : Decision) (s : Store)
      → may_move w m d s ≡ false
      → let t = (update_protection order_digest inventory_digest others w m d s).1 in
        (t.orders ≡ s.orders) × (t.positions ≡ s.positions) × (t.stop_requests ≡ s.stop_requests)
  unfolding update_protection
  update_protection-SameTrades w m d s apart =
      let test = check_update order_digest inventory_digest others w m d s in
      let guard_source : Act (Unit {0}) = source_guard order_digest inventory_digest others w m in
      let change : Contract → Act EventState =
        λ c. guard_source ▷ (λ _. update_checked order_digest inventory_digest others w m d c) in
      follows change s (checks test s) (checks-SameTrades test s) (λ c t passed.
        follows (λ _. update_checked order_digest inventory_digest others w m d c) t
          (guard_source t) (source_guard-SameTrades w m t)
          (λ u v guarded_run.
            let permits = check_update-permits w m d s c (checks-ok test c s t passed).0 in
            let confirmed = source_guard-confirms w m t v u guarded_run in
            update_checked-SameTrades w m d c v (ground arith)))
