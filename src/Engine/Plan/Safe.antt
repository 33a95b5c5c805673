-- ===== src/Engine/Plan/Safe.antt =====
-- The order that `Engine.plan` (relay/core.py) returns, against the ledger that it was planned on.
use discord_option_tailer.Base.{
  Bool, Bool-cases, Except, Option, arith, bind_ok, false, guarded, guarded-eq-ok, if◌then◌else◌,
  inl, inr, is_some, need, none, ok, raise, raise_if, refl, some, true, ℕ, ◌==◌, ◌≡◌, ◌≤◌,
}
use discord_option_tailer.Base.Decimal.{Decimal}
use discord_option_tailer.Engine.Guards.{Hold, check_execution_mode, no_contract, nothing_owned}
use discord_option_tailer.Engine.Plan.{
  Planned, admission_guards, check_exit, check_guard, check_lifetime, decision_guards, is_close,
  order_body, owned_quantity, plan, plan_order, planned_quantity, recheck_quote, sale_quantity,
  trim_quantity, wanted_quantity,
}
use discord_option_tailer.Engine.Pricing.{
  PlanGuard, Surroundings, check_snapshot, choose_prepared, choose_price, sizes,
}
use discord_option_tailer.Sizing.{Size, SizeError, entry_size}
use discord_option_tailer.Sizing.Affordable.{entry_size-IsGranted}
use discord_option_tailer.Store.Rows.{
  Body, Contract, Decision, buy, closing, is_entry, opening, sell,
}
use discord_option_tailer.Store.State.{Message, Store, unresolved}

abbrev SideFits : Bool → Body → Type 0
SideFits true b = (b.side ≡ buy) × (b.position_effect ≡ opening)
SideFits false b = (b.side ≡ sell) × (b.position_effect ≡ closing)

-- The order is for the decision's contract, no other order was unresolved, it is for a contract at
-- least, a buy only where the source owned none of it, and a sale of no more than it owned.
pub record IsSafe (m : Message) (d : Decision) (s : Store) (p : Planned) : Type 0 where
  pub contract_lem : d.contract ≡ some p.contract
  pub nothing_unresolved : unresolved s ≡ 0
  pub at_least_one : 1 ≤ p.body.quantity
  pub side_lem : SideFits (is_entry d.action) p.body
  pub entry_lem : is_entry d.action ≡ true → owned_quantity m.source_group p.contract s ≡ 0
  pub exit_lem :
      is_entry d.action ≡ false → p.body.quantity ≤ owned_quantity m.source_group p.contract s

-- The wanted quantity: of an entry, none and nothing owned, of a sale, no more than owned.
abbrev WantedFits : Bool → ℕ → Option ℕ → Type 0
WantedFits true owned w = (w ≡ none) × (owned ≡ 0)
WantedFits false owned w = (n : ℕ) × (w ≡ some n) × (1 ≤ n) × (n ≤ owned)

sale_quantity-fits :
    (d : Decision) (owned n : ℕ) → sale_quantity d owned ≡ ok n → (1 ≤ n) × (n ≤ owned)
unfolding sale_quantity
sale_quantity-fits d owned n h = bind_ok (raise_if (owned == 0) nothing_owned) _ h λ _ e1 h1.
    bind_ok (if is_close d.action then ok owned else trim_quantity d owned) _ h1
      λ k e2 h2. ground arith

wanted_quantity-WantedFits :
    (d : Decision) (owned : ℕ) (w : Option ℕ)
    → wanted_quantity d owned ≡ ok w
    → WantedFits (is_entry d.action) owned w
unfolding wanted_quantity
wanted_quantity-WantedFits d owned w h = elim (Bool-cases (is_entry d.action)) [
  | inl e ↦ rw e (ground arith)
  | inr e ↦ rw e (
      bind_ok (sale_quantity d owned) _ (rw e at h) λ n e1 h1.
        let (low, high) = sale_quantity-fits d owned n e1 in (n, ground arith, low, high))
]

pub sizes-eq-ok : {A : Type 0} (r : Except SizeError A) (a : A) → sizes r ≡ ok a → r ≡ ok a
sizes-eq-ok (ok b) a h = cc
sizes-eq-ok (raise e) a h = cc

planned_quantity-fits :
    (w : Surroundings) (m : Message) (d : Decision) (c : Contract) (price : Decimal)
    (wanted : Option ℕ) (q : ℕ × Option Size)
    → planned_quantity w m d c price wanted ≡ ok q
    → (wanted ≡ none → 1 ≤ q.0) × ((n : ℕ) → wanted ≡ some n → q.0 ≡ n)
unfolding planned_quantity
planned_quantity-fits w m d c price (some n) q h = (λ e. ground arith, λ k e. ground arith)
planned_quantity-fits w m d c price none q h =
    let call =
      entry_size w.risk w.snapshot.account c.symbol d.confidence (some price) m.source_group in
    bind_ok (sizes call) _ h λ z e1 h1.
      let granted =
        entry_size-IsGranted w.risk w.snapshot.account c.symbol d.confidence (some price)
          m.source_group z (sizes-eq-ok call z e1) in
      let low = granted.affordable.at_least_one in (λ e. ground arith, λ k e. cc)

order_body-SideFits :
    (d : Decision) (quantity : ℕ) (price : Decimal) (is_prepared : Bool) (fingerprint : ℕ)
    → SideFits (is_entry d.action) (order_body d quantity price is_prepared fingerprint)
unfolding order_body
order_body-SideFits d quantity price is_prepared fingerprint =
    elim (Bool-cases (is_entry d.action)) [ inl e ↦ rw e (refl, refl) | inr e ↦ rw e (refl, refl) ]

admission_guards-quiet :
    (w : Surroundings) (guard : PlanGuard) (m : Message) (d : Decision) (c : Contract)
    (fingerprint : ℕ) (s : Store) {u : Unit {0}}
    → guarded (admission_guards w guard m d c fingerprint s) (ok tt) ≡ ok u
    → unresolved s ≡ 0
unfolding admission_guards
admission_guards-quiet w guard m d c fingerprint s h =
    let (_, (_, (e, _))) =
      (guarded-eq-ok (admission_guards w guard m d c fingerprint s) (ok tt) h).0 in
    ground arith

plan_order-fits :
    (w : Surroundings) (guard : PlanGuard) (m : Message) (d : Decision) (c : Contract)
    (fingerprint : ℕ) (wanted : Option ℕ) (s : Store) (p : Planned)
    → plan_order w guard m d c fingerprint wanted s ≡ ok p
    → (p.contract ≡ c)
      × (SideFits (is_entry d.action) p.body)
      × (wanted ≡ none → 1 ≤ p.body.quantity)
      × ((n : ℕ) → wanted ≡ some n → p.body.quantity ≡ n)
unfolding plan_order order_body
plan_order-fits w guard m d c fingerprint wanted s p h =
    bind_ok (choose_prepared w d c) _ h λ prepared e1 h1.
      bind_ok (choose_price w guard d c prepared) _ h1 λ (quote, price) e2 h2.
        bind_ok (check_snapshot w) _ h2 λ _ e3 h3.
          bind_ok (planned_quantity w m d c price wanted) _ h3 λ (quantity, sizing) e4 h4.
            let (low, kept) = planned_quantity-fits w m d c price wanted (quantity, sizing) e4 in
            bind_ok (recheck_quote w (is_some prepared) quote) _ h4 λ _ e5 h5.
              bind_ok (check_exit w m d c quantity price s) _ h5 λ _ e6 h6.
                let body : p.body ≡ order_body d quantity price (is_some prepared) fingerprint =
                  ground arith in
                rw body (
                  ground arith,
                  order_body-SideFits d quantity price (is_some prepared) fingerprint,
                  low,
                  kept,
                )

quantity_fits :
    (b : Bool) (owned : ℕ) (w : Option ℕ) (q : ℕ)
    → WantedFits b owned w
    → (w ≡ none → 1 ≤ q)
    → ((n : ℕ) → w ≡ some n → q ≡ n)
    → (1 ≤ q) × (b ≡ true → owned ≡ 0) × (b ≡ false → q ≤ owned)
quantity_fits true owned w q (e, z) low kept = (low e, λ _. z, λ f. cc)
quantity_fits false owned w q (n, e, one, bound) low kept =
    let q_n = kept n e in (omega arith, λ f. cc, λ _. omega arith)

need-some : (o : Option Contract) (c : Contract) → need {E = Hold} o no_contract ≡ ok c → o ≡ some c
need-some none c h = cc
need-some (some a) c h = cc

fits-IsSafe :
    (m : Message) (d : Decision) (c : Contract) (s : Store) (p : Planned) (wanted : Option ℕ)
    → need d.contract no_contract ≡ ok c
    → unresolved s ≡ 0
    → WantedFits (is_entry d.action) (owned_quantity m.source_group c s) wanted
    → (p.contract ≡ c)
      × (SideFits (is_entry d.action) p.body)
      × (wanted ≡ none → 1 ≤ p.body.quantity)
      × ((n : ℕ) → wanted ≡ some n → p.body.quantity ≡ n)
    → IsSafe m d s p
fits-IsSafe m d c s p wanted named quiet fits (for_c, side, low, kept) =
    let owned = owned_quantity m.source_group c s in
    let (one, flat, bound) =
      quantity_fits (is_entry d.action) owned wanted p.body.quantity fits low kept in
    record {
      contract_lem = rw for_c (need-some d.contract c named);
      nothing_unresolved = quiet;
      at_least_one = one;
      side_lem = side;
      entry_lem = rw for_c flat;
      exit_lem = rw for_c bound;
    }

-- Whatever the quote, the snapshot, the watches and the guard are, an order that plan returns is for
-- the decision's contract and for one contract at least, and was planned with no order unresolved. It
-- is an opening buy where the decision is an entry, which needs that the source owns none of the
-- contract, and a closing sale of no more than the source owns otherwise.
pub plan-IsSafe :
    (fingerprint_of : Message → Decision → Contract → ℕ) (w : Surroundings) (guard : PlanGuard)
    (m : Message) (d : Decision) (s : Store) (p : Planned)
    → plan fingerprint_of w guard m d s ≡ ok p
    → IsSafe m d s p
unfolding plan
plan-IsSafe fingerprint_of w guard m d s p h =
    bind_ok (check_execution_mode w.binding) _ h λ _ e1 h1.
      bind_ok (guarded (decision_guards w.risk d) (ok tt)) _ h1 λ _ e2 h2.
        bind_ok (need d.contract no_contract) _ h2 λ c e3 h3.
          bind_ok (check_lifetime w guard m d c s) _ h3 λ _ e4 h4.
            bind_ok (check_guard w guard m d) _ h4 λ _ e5 h5.
              let tests = admission_guards w guard m d c (fingerprint_of m d c) s in
              bind_ok (guarded tests (ok tt)) _ h5 λ _ e6 h6.
                let owned = owned_quantity m.source_group c s in
                bind_ok (wanted_quantity d owned) _ h6 λ wanted e7 h7.
                  let quiet = admission_guards-quiet w guard m d c (fingerprint_of m d c) s e6 in
                  let fits = wanted_quantity-WantedFits d owned wanted e7 in
                  let order = plan_order-fits w guard m d c (fingerprint_of m d c) wanted s p h7 in
                  fits-IsSafe m d c s p wanted e3 quiet fits order
