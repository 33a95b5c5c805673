-- ===== src/Engine/Plan.antt =====
-- `Engine.plan` of relay/core.py: from a decision to the order that is reserved and submitted. What
-- the broker, the watches and the clock answer are arguments; the diagnostics that the code writes
-- into the decision are left out.
pub mod Safe
use discord_option_tailer.Base.Decimal
use discord_option_tailer.Base.{
  Bool, Except, List, Option, [], false, find, guarded, if◌then◌else◌, is_some, ltb, need, none,
  not, ok, raise, raise_if, same_option, some, true, ℕ, ◌&&◌, ◌+◌, ◌==◌, ◌>>=◌, ◌>>◌, ◌||◌, ◌∷◌,
}
use discord_option_tailer.Base.Decimal.{Decimal, is_zero, of_ℕ}
use discord_option_tailer.Engine.Guards.{
  Hold, adding_disabled, ambiguous_action, bad_action, bad_quantity, bad_trim, check_entry_lifetime,
  check_execution_mode, check_exit_profit, check_quote_age, duplicate_signal, expired_contract,
  fresh, is_true, low_confidence, no_contract, nothing_owned, only_close, only_exit, oversell,
  same_day_disabled, unresolved_order,
}
use discord_option_tailer.Engine.Pricing.{
  PlanGuard, Quote, Surroundings, check_snapshot, choose_prepared, choose_price, expiry_guard,
  is_expiry, ordinary, recovery_guard, sizes,
}
use discord_option_tailer.Sizing.{Risk, Size, entry_size}
use discord_option_tailer.Store.Rows.{
  Action, Body, Cancellation, Contract, Decision, Effect, Order, Side, absent, buy, close, closing,
  is_entry, is_exit, lasting, opening, sell,
}
use discord_option_tailer.Store.State.{
  Message, Store, find_position, order_at, positions, unresolved,
}

abbrev pub is_sure : Risk → Option Decimal → Bool
is_sure risk none = false
is_sure risk (some c) = Decimal.le risk.min_confidence c && Decimal.le c (of_ℕ 1)

abbrev pub is_trade : Action → Bool
is_trade a = is_entry a || is_exit a

unfoldable pub decision_guards : Risk → Decision → List (Bool × Hold)
decision_guards risk d =
    (not (is_some d.ambiguous) || is_true d.ambiguous, ambiguous_action)
    ∷ (not (is_sure risk d.confidence), low_confidence)
    ∷ (not (is_trade d.action), bad_action)
    ∷ []

abbrev pub is_close : Action → Bool
is_close close = true
is_close _ = false

-- The freshness of the message, or the guard that stands in for it.
unfoldable pub check_guard : Surroundings → PlanGuard → Message → Decision → Except Hold (Unit {0})
check_guard w ordinary m d = fresh w.risk m w.now
check_guard w (recovery_guard r) m d = if is_exit d.action then r else raise only_close
check_guard w (expiry_guard r) m d = if is_close d.action then r else raise only_exit

-- The last order of the source and contract was reserved for the same alert a moment ago.
unfoldable pub is_duplicate : Risk → ℕ → ℕ → Option Order → Bool
is_duplicate risk now fingerprint none = false
is_duplicate risk now fingerprint (some o) =
    same_option o.body.signal_fingerprint (some fingerprint)
    && ltb now (o.created_at + risk.duplicate_window)

unfoldable pub admission_guards :
    Surroundings → PlanGuard → Message → Decision → Contract → ℕ → Store → List (Bool × Hold)
admission_guards w guard m d c fingerprint s =
    (ltb c.expiry w.today, expired_contract)
    ∷ (
      is_entry d.action && (c.expiry == w.today && not w.risk.allow_same_day_expiry),
      same_day_disabled,
    )
    ∷ (ltb 0 (unresolved s), unresolved_order)
    ∷ (
      not (is_expiry guard)
          && is_duplicate w.risk w.now fingerprint (find (order_at m.source_group c) s.orders),
      duplicate_signal,
    )
    ∷ []

-- The contracts of the source that the relay owns: the first of its positions that fits.
abbrev pub owned_quantity : ℕ → Contract → Store → ℕ
owned_quantity g c s = elim (find_position g c (positions s)) [ none ↦ 0 | some p ↦ p.quantity ]

abbrev pub is_fraction : Decimal → Bool
is_fraction f = not (is_zero f) && Decimal.le f (of_ℕ 1)

-- A trim is of the quantity or the fraction that is named, and of a half where neither is.
unfoldable pub trim_quantity : Decision → ℕ → Except Hold ℕ
trim_quantity d owned = elim d.quantity [
  | some n ↦ ok n
  | none ↦ elim d.fraction [
    | none ↦ ok (Decimal.ceiling (Decimal.div (of_ℕ owned) (of_ℕ 2)))
    | some f ↦
        if is_fraction f then ok (Decimal.ceiling (Decimal.mul (of_ℕ owned) f)) else raise bad_trim
  ]
]

unfoldable pub sale_quantity : Decision → ℕ → Except Hold ℕ
sale_quantity d owned = do
  raise_if (owned == 0) nothing_owned
  n ← if is_close d.action then ok owned else trim_quantity d owned
  raise_if (ltb owned n) oversell
  raise_if (n == 0) bad_quantity
  ok n

-- `none` leaves the quantity of an entry to `entry_size`.
unfoldable pub wanted_quantity : Decision → ℕ → Except Hold (Option ℕ)
wanted_quantity d owned =
    if is_entry d.action
    then (raise_if (ltb 0 owned) adding_disabled >> ok none)
    else (sale_quantity d owned >>= λ n. ok (some n))

-- The planned order: its contract, its body, and the size of an entry.
pub record Planned : Type 0 where
  pub contract : Contract
  pub body : Body
  pub sizing : Option Size

-- The quantity of an entry is `entry_size`'s, that of a sale is the wanted one.
unfoldable pub planned_quantity :
    Surroundings
    → Message
    → Decision
    → Contract
    → Decimal
    → Option ℕ
    → Except Hold (ℕ × Option Size)
planned_quantity w m d c price (some n) = ok (n, none)
planned_quantity w m d c price none = do
  z ← sizes (entry_size w.risk w.snapshot.account c.symbol d.confidence (some price) m.source_group)
  ok (z.quantity, some z)

abbrev pub side_of : Decision → Side
side_of d = if is_entry d.action then buy else sell

abbrev pub effect_of : Decision → Effect
effect_of d = if is_entry d.action then opening else closing

abbrev pub no_cancellation : Cancellation
no_cancellation = record {
  cancel_reason = none;
  cancel_requested_at = none;
  entry_cancel_at = none;
  cancel_result_status = none;
  cancel_result_broker_state = none;
}

unfoldable pub order_body : Decision → ℕ → Decimal → Bool → ℕ → Body
order_body d quantity price is_prepared fingerprint = record {
  side = side_of d;
  position_effect = effect_of d;
  quantity = quantity;
  limit_price = some price;
  order_type = none;
  prepared_entry = is_prepared;
  cancel_window = if is_prepared then lasting 3000000 else absent;
  cancellation = no_cancellation;
  broker_submission = none;
  signal_fingerprint = some fingerprint;
  requested_stop = none;
}

-- The exit's profit is checked against the price that the order's limit is.
unfoldable pub check_exit :
    Surroundings → Message → Decision → Contract → ℕ → Decimal → Store → Except Hold (Unit {0})
check_exit w m d c quantity price s =
    if is_entry d.action
    then ok tt
    else check_exit_profit w.risk m d c quantity (some price) (some price) s

-- `check_entry_lifetime` is for exits that no expiry asks for.
unfoldable pub check_lifetime :
    Surroundings → PlanGuard → Message → Decision → Contract → Store → Except Hold (Unit {0})
check_lifetime w guard m d c s =
    if is_entry d.action || is_expiry guard then ok tt else check_entry_lifetime m d c w.memory s

-- A fresh quote's age is checked once more after the reads.
unfoldable pub recheck_quote : Surroundings → Bool → Quote → Except Hold (Unit {0})
recheck_quote w is_prepared q =
    if is_prepared then ok tt else check_quote_age w.risk q.timestamp w.planned_at

-- From the checked decision on: `fingerprint` is the SHA-256 of the alert's words.
unfoldable pub plan_order :
    Surroundings
    → PlanGuard
    → Message
    → Decision
    → Contract
    → ℕ
    → Option ℕ
    → Store
    → Except Hold Planned
plan_order w guard m d c fingerprint wanted s = do
  prepared ← choose_prepared w d c
  (quote, price) ← choose_price w guard d c prepared
  check_snapshot w
  (quantity, sizing) ← planned_quantity w m d c price wanted
  recheck_quote w (is_some prepared) quote
  check_exit w m d c quantity price s
  ok (record {
    contract = c;
    body = order_body d quantity price (is_some prepared) fingerprint;
    sizing = sizing;
  })

-- `plan`
module _ (fingerprint_of : Message → Decision → Contract → ℕ) where
  unfoldable pub plan : Surroundings → PlanGuard → Message → Decision → Store → Except Hold Planned
  plan w guard m d s = do
    check_execution_mode w.binding
    guarded (decision_guards w.risk d) (ok tt)
    c ← need d.contract no_contract
    check_lifetime w guard m d c s
    check_guard w guard m d
    guarded (admission_guards w guard m d c (fingerprint_of m d c) s) (ok tt)
    wanted ← wanted_quantity d (owned_quantity m.source_group c s)
    plan_order w guard m d c (fingerprint_of m d c) wanted s
