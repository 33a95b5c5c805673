-- ===== src/Sizing/Affordable.antt =====
-- What a size of `entry_size` (relay/core.py) costs, against the limits and the cash.
use discord_option_tailer.Base.Decimal
use discord_option_tailer.Base.{
  All, All-imp, Bool-cases, List, Option, [], ap, arith, bind_ok, false, find, inl, inr, max, need,
  none, not, ok, raise_if, refl, some, subst, true, ℕ, ◌&&◌, ◌==◌, ◌∷◌, ◌≡◌, ◌≤◌,
}
use discord_option_tailer.Base.Decimal.{Decimal, is_zero, minimum, of_ℕ}
use discord_option_tailer.Base.Decimal.Order.{
  Le, Le-add_left, Le-add_right, Le_trans, floor-div-Le, minimum-Le_left, minimum-Le_right,
  same_scale,
}
use discord_option_tailer.Sizing.{
  Account, Limits, Method, Risk, Size, SizeError, above_zero, allocate, bad_value, budget_of,
  confidence_out_of_range, entry_size, exposure_of, fractions_unordered, limits_of, per_contract,
  read_exposures, risk_fraction, sized, total_exposure,
}

-- The least of the limits is below each of them.
budget_of-Le :
    (l : Limits)
    → Le (budget_of l) l.strategy_risk
      × Le (budget_of l) l.symbol_concentration
      × Le (budget_of l) l.total_option_exposure
      × Le (budget_of l) l.buying_power_reserve
unfolding budget_of
budget_of-Le l =
    let rest = minimum l.total_option_exposure l.buying_power_reserve in
    let inner = minimum l.symbol_concentration rest in
    let all_limits = minimum l.strategy_risk inner in
    let to_inner = minimum-Le_right l.strategy_risk inner in
    let to_rest =
      Le_trans all_limits inner rest to_inner (minimum-Le_right l.symbol_concentration rest) in
    (
      minimum-Le_left l.strategy_risk inner,
      Le_trans all_limits inner l.symbol_concentration to_inner
          (minimum-Le_left l.symbol_concentration rest),
      Le_trans all_limits rest l.total_option_exposure to_rest
          (minimum-Le_left l.total_option_exposure l.buying_power_reserve),
      Le_trans all_limits rest l.buying_power_reserve to_rest
          (minimum-Le_right l.total_option_exposure l.buying_power_reserve),
    )

-- The cost of a number of contracts with their fee reserves.
abbrev pub cost : Size → Decimal
cost z = Decimal.mul (of_ℕ z.quantity) z.premium_risk

-- What a size that is granted promises.
pub record IsAffordable (z : Size) : Type 0 where
  pub at_least_one : 1 ≤ z.quantity
  pub within_cash : Le (cost z) z.limits.buying_power_reserve
  pub single_fallback : z.minimum_contract_fallback ≡ true → z.quantity ≡ 1
  pub within_limits :
      z.minimum_contract_fallback ≡ false
      → Le (cost z) z.limits.strategy_risk
        × Le (cost z) z.limits.symbol_concentration
        × Le (cost z) z.limits.total_option_exposure

one-mul-Le : (a b : Decimal) → Decimal.lt b a ≡ false → Le (Decimal.mul (of_ℕ 1) a) b
unfolding Decimal.lt Decimal.mul
one-mul-Le a b h = rw same_scale (ground arith)

sized-IsAffordable :
    (method : Method) (l : Limits) (unit : Decimal)
    → Decimal.lt l.buying_power_reserve unit ≡ false
    → IsAffordable (sized method l unit)
unfolding sized
sized-IsAffordable method l unit h =
    let q = Decimal.floor (Decimal.div (budget_of l) unit) in
    let paid = floor-div-Le (budget_of l) unit in
    let (risk, symbol, total, cash) = budget_of-Le l in
    elim (Bool-cases (q == 0)) [
      | inl nothing ↦
          let one : max 1 q ≡ 1 = ground arith in
          record {
            at_least_one = omega arith;
            within_cash = rw one (one-mul-Le unit l.buying_power_reserve h);
            single_fallback = λ e. one;
            within_limits = λ e. absurd (ground arith);
          }
      | inr some_contracts ↦
          let all_q : max 1 q ≡ q = ground arith in
          let within = λ (limit : Decimal) (below : Le (budget_of l) limit).
            Le_trans (Decimal.mul (of_ℕ q) unit) (budget_of l) limit paid below in
          record {
            at_least_one = omega arith;
            within_cash = rw all_q (within l.buying_power_reserve cash);
            single_fallback = λ e. absurd (ground arith);
            within_limits = λ e. rw all_q (
              within l.strategy_risk risk,
              within l.symbol_concentration symbol,
              within l.total_option_exposure total,
            );
          }
    ]

allocate-IsAffordable :
    (method : Method) (l : Limits) (unit : Decimal) (z : Size)
    → allocate method l unit ≡ ok z
    → IsAffordable z
unfolding allocate
allocate-IsAffordable method l unit z h =
    elim (Bool-cases (Decimal.lt l.buying_power_reserve unit)) [
      | inl short ↦ absurd (ground arith)
      | inr enough ↦ subst IsAffordable (ground arith) (sized-IsAffordable method l unit enough)
    ]

above_zero-some :
    (o : Option Decimal) (d : Decimal) → above_zero o ≡ ok d → (o ≡ some d) × (is_zero d ≡ false)
unfolding above_zero
above_zero-some none d h = cc
above_zero-some (some e) d h = ground arith

need-some :
    (o : Option Decimal) (d : Decimal) → need {E = SizeError} o bad_value ≡ ok d → o ≡ some d
need-some none d h = cc
need-some (some e) d h = cc

-- The value that is held of a symbol, 0 where there is none.
abbrev pub held_value : Option (ℕ × Decimal) → Decimal
held_value none = of_ℕ 0
held_value (some (symbol, v)) = v

exposure_of-find :
    (symbol : ℕ) (values : List (ℕ × Decimal))
    → exposure_of symbol values ≡ held_value (find (λ e. e.0 == symbol) values)
unfolding exposure_of
exposure_of-find symbol [] = refl
exposure_of-find symbol ((j, v) ∷ values) = elim (Bool-cases (j == symbol)) [
  | inl e ↦ rw e refl
  | inr e ↦ rw e (exposure_of-find symbol values)
]

-- Every exposure is within their sum.
total_exposure-Le : (values : List (ℕ × Decimal)) → All (λ e. Le e.1 (total_exposure values)) values
unfolding total_exposure
total_exposure-Le [] = tt
total_exposure-Le ((j, v) ∷ values) = (
  Le-add_left v (total_exposure values),
  All-imp
      (λ e below.
        Le_trans e.1 (total_exposure values) (Decimal.add v (total_exposure values)) below
          (Le-add_right v (total_exposure values)))
      values (total_exposure-Le values),
)

-- The size, and the money that it may spend: `values` are the exposures by symbol, and `total` is
-- no less than any of them.
pub record IsGranted (risk : Risk) (account : Account) (symbol : ℕ)
    (confidence price : Option Decimal) (group : ℕ) (z : Size) : Type 0 where
  pub equity : Decimal
  pub buying_power : Decimal
  pub values : List (ℕ × Decimal)
  pub total : Decimal
  pub sure : Decimal
  pub fraction : Decimal
  pub limit_price : Decimal
  pub equity_lem : account.equity ≡ some equity
  pub buying_power_lem : account.buying_power ≡ some buying_power
  pub values_lem : read_exposures account.exposures ≡ ok values
  pub sure_lem : confidence ≡ some sure
  pub price_lem : price ≡ some limit_price
  pub fraction_lem : risk_fraction risk sure group ≡ ok (z.method, fraction)
  pub contract_risk :
      z.premium_risk
      ≡ Decimal.add (Decimal.mul limit_price (of_ℕ 100)) risk.fee_reserve_per_contract
  pub strategy : z.limits.strategy_risk ≡ Decimal.mul equity fraction
  pub concentration :
      z.limits.symbol_concentration
      ≡ Decimal.sub
          (Decimal.mul equity risk.max_position_fraction)
          (held_value (find (λ e. e.0 == symbol) values))
  pub total_limit :
      z.limits.total_option_exposure
      ≡ Decimal.sub (Decimal.mul equity risk.max_total_exposure_fraction) total
  pub total_lem : All (λ e. Le e.1 total) values
  pub cash :
      z.limits.buying_power_reserve
      ≡ Decimal.sub buying_power (Decimal.mul equity risk.buying_power_reserve_fraction)
  pub affordable : IsAffordable z

allocate-parts :
    (method : Method) (l : Limits) (unit : Decimal) (z : Size)
    → allocate method l unit ≡ ok z
    → (z.limits ≡ l) × (z.premium_risk ≡ unit) × (z.method ≡ method)
unfolding allocate sized
allocate-parts method l unit z h = (ground arith, ground arith, ground arith)

-- What is granted, from the values that were read and the last step.
granted :
    (risk : Risk) (account : Account) (symbol : ℕ) (confidence price : Option Decimal) (group : ℕ)
    (z : Size) (equity power sure fraction unit_price : Decimal) (values : List (ℕ × Decimal))
    (method : Method)
    → above_zero account.equity ≡ ok equity
    → need account.buying_power bad_value ≡ ok power
    → read_exposures account.exposures ≡ ok values
    → above_zero confidence ≡ ok sure
    → risk_fraction risk sure group ≡ ok (method, fraction)
    → above_zero price ≡ ok unit_price
    → allocate method
        (limits_of risk equity power values symbol fraction)
        (per_contract risk unit_price)
      ≡ ok z
    → IsGranted risk account symbol confidence price group z
unfolding limits_of per_contract
granted risk account symbol confidence price group z equity power sure fraction unit_price values
      method e1 e2 e3 e4 e5 e6 h =
    let l = limits_of risk equity power values symbol fraction in
    let unit = per_contract risk unit_price in
    let (limits, cost_same, method_same) = allocate-parts method l unit z h in
    record {
      equity = equity;
      buying_power = power;
      values = values;
      total = total_exposure values;
      sure = sure;
      fraction = fraction;
      limit_price = unit_price;
      equity_lem = (above_zero-some account.equity equity e1).0;
      buying_power_lem = need-some account.buying_power power e2;
      values_lem = e3;
      sure_lem = (above_zero-some confidence sure e4).0;
      price_lem = (above_zero-some price unit_price e6).0;
      fraction_lem = rw method_same e5;
      contract_risk = cost_same;
      strategy = rw limits refl;
      concentration = rw limits (
          ap (λ v. Decimal.sub (Decimal.mul equity risk.max_position_fraction) v)
            (exposure_of-find symbol values));
      total_limit = rw limits refl;
      total_lem = total_exposure-Le values;
      cash = rw limits refl;
      affordable = allocate-IsAffordable method l unit z h;
    }

-- A size that entry_size grants is one contract at least, and what it costs, a hundred times the limit
-- price and the fee reserve for each contract, is no more than the buying power less the reserved
-- share of the equity. A contract that the budget does not hold is granted alone. Every other size
-- keeps three more limits: the equity's share that risk_fraction gives the strategy, the share of
-- one symbol less what is held of it, and the share of all options less a total that no
-- exposure exceeds.
pub entry_size-IsGranted :
    (risk : Risk) (account : Account) (symbol : ℕ) (confidence price : Option Decimal) (group : ℕ)
    (z : Size)
    → entry_size risk account symbol confidence price group ≡ ok z
    → IsGranted risk account symbol confidence price group z
unfolding entry_size
entry_size-IsGranted risk account symbol confidence price group z h =
    bind_ok (above_zero account.equity) _ h λ equity e1 h1.
      bind_ok (need account.buying_power bad_value) _ h1 λ power e2 h2.
        bind_ok (read_exposures account.exposures) _ h2 λ exposures e3 h3.
          bind_ok (above_zero confidence) _ h3 λ sure e4 h4.
            bind_ok (above_zero (some risk.min_confidence)) _ h4 λ least e5 h5.
              bind_ok
                (raise_if (not (Decimal.le least sure && Decimal.le sure (of_ℕ 1)))
                  confidence_out_of_range)
                _ h5
                λ u6 e6 h6.
                  bind_ok (above_zero (some risk.entry_risk_min_fraction)) _ h6 λ low e7 h7.
                    bind_ok (above_zero (some risk.entry_risk_max_fraction)) _ h7 λ high e8 h8.
                      bind_ok
                        (raise_if (not (Decimal.le low high && Decimal.le high (of_ℕ 1)))
                          fractions_unordered)
                        _ h8
                        λ u9 e9 h9.
                          bind_ok (risk_fraction risk sure group) _ h9 λ (method, fraction) e10 h10.
                            bind_ok (above_zero (some risk.max_position_fraction)) _ h10
                              λ part e11 h11.
                                bind_ok (above_zero (some risk.max_total_exposure_fraction)) _ h11
                                  λ total e12 h12.
                                    bind_ok (above_zero price) _ h12 λ unit_price e13 h13.
                                      granted risk account symbol confidence price group z equity
                                        power sure fraction unit_price exposures method e1 e2 e3 e4
                                        e10 e13 h13
