-- ===== src/Stops/Unarmed.antt =====
-- When `arm` of relay/stops.py touches no order.
use discord_option_tailer.Base.{
  Bool, Bool-cases, Except, Option, Option-cases, arith, false, if◌then◌else◌, inl, inr, ltb, none,
  not, ok, raise, raise_if, refl, some, true, ℕ, ◌&&◌, ◌==◌, ◌||◌, ◌∙◌, ◌≡◌,
}
use discord_option_tailer.Engine.Guards.{Hold, check_execution_mode}
use discord_option_tailer.Stops.{
  StopError, StopResult, checks, is_retry_error, note_of, owned, retry_later, set_state, ◌▷◌,
}
use discord_option_tailer.Stops.Arm.{ArmWorld, is_shadow, settles}
use discord_option_tailer.Stops.Place.{
  arm, arm_entry, arm_for, arm_owned, arm_unowned, catches, try_arm,
}
use discord_option_tailer.Store.Rows.{
  Order, Position, StopNote, StopRequest, StopStatus, contract_expired, is_terminal, no_remaining,
  paused, stop_blocked, stop_complete, stop_pending,
}
use discord_option_tailer.Store.State.{Store, find_order, latest_entry}

-- What a stop order needs: the source owns the contract through the entry that the request protects, the
-- relay trades, and the option has not expired.
unfoldable pub may_place : ArmWorld → StopRequest → Store → Bool
may_place w row s = elim (owned row.source_group row.contract s) [
  | none ↦ false
  | some p ↦ elim (latest_entry row.source_group row.contract s) [
    | none ↦ false
    | some e ↦
        e.id == row.entry_id
        && (not (is_shadow w.binding.mode || w.kill_switch)
            && not (ltb row.contract.expiry w.today))
  ]
]

abbrev SameBook : Store → Store → Type 0
SameBook s t = (t.orders ≡ s.orders) × (t.positions ≡ s.positions)

set_state-SameBook :
    (r : StopRequest) (status : StopStatus) (note : StopNote) (k : Option ℕ) (s : Store)
    → SameBook s (set_state r status note k s).1
unfolding set_state
set_state-SameBook r status note k s = ground arith

catches-SameBook :
    (row : StopRequest) (s : Store) (x : Except StopError StopResult × Store)
    → SameBook s x.1
    → SameBook s (catches row x).1
catches-SameBook row s (ok r, t) same = same
catches-SameBook row s (raise e, t) (os, ps) =
    let (os', ps') =
      set_state-SameBook row (if is_retry_error e then stop_pending else stop_blocked) (note_of e)
        none t in
    (os' ∙ os, ps' ∙ ps)

module _ (order_digest : ℕ → ℕ → ℕ → ℕ) where
  arm_entry-SameBook :
      (w : ArmWorld) (row : StopRequest) (p : Position) (s : Store)
      → ltb row.contract.expiry w.today ≡ true
      → SameBook s (arm_entry order_digest w row p s).1
  unfolding arm_entry
  arm_entry-SameBook w row p s over =
      rw over (set_state-SameBook row stop_complete contract_expired none s)

  -- After the check of the mode.
  allowed-SameBook :
      (w : ArmWorld) (row : StopRequest) (p : Position) (s : Store) (x : Except Hold (Unit {0}))
      → (not (is_shadow w.binding.mode || w.kill_switch) && not (ltb row.contract.expiry w.today))
        ≡ false
      → SameBook s
          ((checks x
              ▷ (λ _.
                  settles
                    (raise_if (is_shadow w.binding.mode || w.kill_switch) (retry_later paused)))
              ▷ (λ _. arm_entry order_digest w row p))
            s).1
  allowed-SameBook w row p s (raise e) barred = (refl, refl)
  allowed-SameBook w row p s (ok u) barred =
      elim (Bool-cases (is_shadow w.binding.mode || w.kill_switch)) [
        | inl e ↦ rw e (refl, refl)
        | inr e ↦ rw e (arm_entry-SameBook w row p s (ground arith))
      ]

  arm_owned-SameBook :
      (w : ArmWorld) (row : StopRequest) (p : Position) (e : Order) (s : Store)
      → (e.id == row.entry_id
          && (not (is_shadow w.binding.mode || w.kill_switch)
              && not (ltb row.contract.expiry w.today)))
        ≡ false
      → SameBook s (arm_owned order_digest w row p (some e) s).1
  unfolding arm_owned
  arm_owned-SameBook w row p e s barred = elim (Bool-cases (e.id == row.entry_id)) [
    | inr other ↦ rw other (set_state-SameBook row stop_complete no_remaining none s)
    | inl same ↦
        rw same (allowed-SameBook w row p s (check_execution_mode w.binding) (ground arith))
  ]

  arm_unowned-SameBook :
      (row : StopRequest) (o : Option Order) (s : Store) → SameBook s (arm_unowned row o s).1
  unfolding arm_unowned
  arm_unowned-SameBook row none s = set_state-SameBook row stop_complete no_remaining none s
  arm_unowned-SameBook row (some e) s = elim (Bool-cases (is_terminal e.status)) [
    | inl over ↦ rw over (set_state-SameBook row stop_complete no_remaining none s)
    | inr open_still ↦ rw open_still (refl, refl)
  ]

  arm_for-SameBook :
      (w : ArmWorld) (row : StopRequest) (s : Store)
      → may_place w row s ≡ false
      → SameBook s (arm_for order_digest w row (owned row.source_group row.contract s) s).1
  unfolding arm_for may_place arm_owned
  arm_for-SameBook w row s barred = elim (Option-cases (owned row.source_group row.contract s)) [
    | inl nothing ↦ rw nothing (arm_unowned-SameBook row (find_order row.entry_id s) s)
    | inr (p, found) ↦ elim (Option-cases (latest_entry row.source_group row.contract s)) [
      | inl no_entry ↦ rw found (rw no_entry (refl, refl))
      | inr (e, latest) ↦ rw found (rw latest (arm_owned-SameBook w row p e s (ground arith)))
    ]
  ]

  -- Arming a protective stop neither places nor cancels an order, and changes no position, while nothing
  -- is owned of the contract, when its latest acquired entry is not the one that the request
  -- protects, in shadow mode, while the kill switch is there, and once the option has expired.
  pub arm-SameBook :
      (w : ArmWorld) (row : StopRequest) (s : Store)
      → may_place w row s ≡ false
      → let t = (arm order_digest w (some row) s).1 in
        (t.orders ≡ s.orders) × (t.positions ≡ s.positions)
  unfolding arm try_arm
  arm-SameBook w row s barred =
      catches-SameBook row s (arm_for order_digest w row (owned row.source_group row.contract s) s)
        (arm_for-SameBook w row s barred)
