-- ===== src/Sizing.antt =====
-- The sizing of an entry and its chase limit: `entry_size`, `entry_chase_evaluation` and
-- `entry_chase_within_cap` of relay/core.py.
pub mod Affordable
use discord_option_tailer.Base.Decimal
use discord_option_tailer.Base.{
  Bool, Except, List, Option, [], any, false, if◌then◌else◌, max, need, none, not, ok, raise,
  raise_if, some, true, ℕ, ◌&&◌, ◌==◌, ◌>>=◌, ◌>>◌, ◌∷◌,
}
use discord_option_tailer.Base.Decimal.{Decimal, is_zero, minimum, of_ℕ}

-- Calibrated statistics of a source group.
pub record Stats : Type 0 where
  pub calibrated : Bool
  pub win_probability : Option Decimal
  pub payoff_ratio : Option Decimal

-- The `risk` section of the configuration. `load_config` has made each value a number.
pub record Risk : Type 0 where
  pub min_confidence : Decimal
  pub entry_risk_min_fraction : Decimal
  pub entry_risk_max_fraction : Decimal
  pub fractional_kelly : Decimal
  pub max_position_fraction : Decimal
  pub max_total_exposure_fraction : Decimal
  pub buying_power_reserve_fraction : Decimal
  pub fee_reserve_per_contract : Decimal
  pub max_spread_fraction : Decimal
  pub max_chase_fraction : Decimal
  pub max_signal_age : ℕ
  pub max_quote_age : ℕ
  pub duplicate_window : ℕ
  pub allow_same_day_expiry : Bool
  pub strategy_stats : List (ℕ × Stats)

-- An entry of `option_exposure_by_symbol`: its symbol, whether that is well formed, and its value.
pub record Exposure : Type 0 where
  pub symbol : ℕ
  pub is_symbol : Bool
  pub value : Option Decimal

-- The account snapshot. `none` is a missing value, or one that `money` refuses.
pub record Account : Type 0 where
  pub equity : Option Decimal
  pub buying_power : Option Decimal
  pub exposures : Option (List Exposure)

pub data SizeError : Type 0 where
  bad_value exposure_missing bad_symbol confidence_out_of_range fractions_unordered : SizeError
  uncalibrated certain_win no_edge unaffordable : SizeError

pub data Method : Type 0 where
  confidence_allocation_cap fractional_kelly_method : Method

-- `money(value, positive=True)`
unfoldable pub above_zero : Option Decimal → Except SizeError Decimal
above_zero none = raise bad_value
above_zero (some d) = if is_zero d then raise bad_value else ok d

unfoldable pub exposure_values : List Exposure → Except SizeError (List (ℕ × Decimal))
exposure_values [] = ok []
exposure_values (e ∷ es) = do
  v ← need e.value bad_value
  vs ← exposure_values es
  ok ((e.symbol, v) ∷ vs)

-- `exposures.get(symbol, Decimal(0))`, and the sum of the values. A dictionary has one entry a symbol.
unfoldable pub exposure_of : ℕ → List (ℕ × Decimal) → Decimal
exposure_of k [] = of_ℕ 0
exposure_of k ((j, v) ∷ es) = if j == k then v else exposure_of k es

unfoldable pub total_exposure : List (ℕ × Decimal) → Decimal
total_exposure [] = of_ℕ 0
total_exposure ((j, v) ∷ es) = Decimal.add v (total_exposure es)

unfoldable pub read_exposures : Option (List Exposure) → Except SizeError (List (ℕ × Decimal))
read_exposures none = raise exposure_missing
read_exposures (some es) =
    if any (λ e. not e.is_symbol) es then raise bad_symbol else exposure_values es

-- The share of equity that the confidence alone allows.
unfoldable pub confidence_cap : Risk → Decimal → Decimal
confidence_cap risk confidence =
    let scale =
      if Decimal.lt risk.min_confidence (of_ℕ 1)
      then Decimal.div (Decimal.sub confidence risk.min_confidence)
          (Decimal.sub (of_ℕ 1) risk.min_confidence)
      else of_ℕ 1 in
    Decimal.add risk.entry_risk_min_fraction
      (Decimal.mul (Decimal.sub risk.entry_risk_max_fraction risk.entry_risk_min_fraction) scale)

unfoldable pub find_stats : ℕ → List (ℕ × Stats) → Option Stats
find_stats k [] = none
find_stats k ((j, v) ∷ es) = if j == k then some v else find_stats k es

-- Kelly's edge, p - (1 - p) / payoff, scaled; an edge that is not positive is refused.
unfoldable pub kelly_fraction : Risk → Decimal → Decimal → Stats → Except SizeError Decimal
kelly_fraction risk confidence cap_fraction stats = do
  raise_if (not stats.calibrated) uncalibrated
  p ← above_zero stats.win_probability
  payoff ← above_zero stats.payoff_ratio
  raise_if (Decimal.le (of_ℕ 1) p) certain_win
  let loss = Decimal.div (Decimal.sub (of_ℕ 1) p) payoff
  raise_if (Decimal.le p loss) no_edge
  kelly ← above_zero (some risk.fractional_kelly)
  ok (minimum cap_fraction (Decimal.mul (Decimal.mul (Decimal.sub p loss) kelly) confidence))

unfoldable pub risk_fraction : Risk → Decimal → ℕ → Except SizeError (Method × Decimal)
risk_fraction risk confidence group = elim (find_stats group risk.strategy_stats) [
  | none ↦ ok (confidence_allocation_cap, confidence_cap risk confidence)
  | some stats ↦ do
    f ← kelly_fraction risk confidence (confidence_cap risk confidence) stats
    ok (fractional_kelly_method, f)
]

-- The four limits, each 0 where the code's is negative: the code takes the larger of 0 and the
-- least of them. Which of two negative limits binds is a diagnostic that is left out.
pub record Limits : Type 0 where
  pub strategy_risk : Decimal
  pub symbol_concentration : Decimal
  pub total_option_exposure : Decimal
  pub buying_power_reserve : Decimal

unfoldable pub limits_of : Risk → Decimal → Decimal → List (ℕ × Decimal) → ℕ → Decimal → Limits
limits_of risk equity buying_power exposures symbol fraction = record {
  strategy_risk = Decimal.mul equity fraction;
  symbol_concentration =
      Decimal.sub (Decimal.mul equity risk.max_position_fraction) (exposure_of symbol exposures);
  total_option_exposure =
      Decimal.sub (Decimal.mul equity risk.max_total_exposure_fraction) (total_exposure exposures);
  buying_power_reserve =
      Decimal.sub buying_power (Decimal.mul equity risk.buying_power_reserve_fraction);
}

unfoldable pub budget_of : Limits → Decimal
budget_of l =
    minimum l.strategy_risk
      (minimum l.symbol_concentration (minimum l.total_option_exposure l.buying_power_reserve))

-- The premium of one contract with its fee reserve.
unfoldable pub per_contract : Risk → Decimal → Decimal
per_contract risk price = Decimal.add (Decimal.mul price (of_ℕ 100)) risk.fee_reserve_per_contract

pub record Size : Type 0 where
  pub quantity : ℕ
  pub method : Method
  pub limits : Limits
  pub budget : Decimal
  pub premium_risk : Decimal
  pub minimum_contract_fallback : Bool

-- The whole contracts that the budget holds, and one where it holds none but the cash does.
unfoldable pub sized : Method → Limits → Decimal → Size
sized method l unit =
    let quantity = Decimal.floor (Decimal.div (budget_of l) unit) in
    record {
      quantity = max 1 quantity;
      method = method;
      limits = l;
      budget = budget_of l;
      premium_risk = unit;
      minimum_contract_fallback = quantity == 0;
    }

unfoldable pub allocate : Method → Limits → Decimal → Except SizeError Size
allocate method l unit =
    if Decimal.lt l.buying_power_reserve unit then raise unaffordable else ok (sized method l unit)

unfoldable pub entry_size :
    Risk → Account → ℕ → Option Decimal → Option Decimal → ℕ → Except SizeError Size
entry_size risk account symbol confidence limit_price group = do
  equity ← above_zero account.equity
  buying_power ← need account.buying_power bad_value
  exposures ← read_exposures account.exposures
  sure ← above_zero confidence
  least ← above_zero (some risk.min_confidence)
  raise_if (not (Decimal.le least sure && Decimal.le sure (of_ℕ 1))) confidence_out_of_range
  low ← above_zero (some risk.entry_risk_min_fraction)
  high ← above_zero (some risk.entry_risk_max_fraction)
  raise_if (not (Decimal.le low high && Decimal.le high (of_ℕ 1))) fractions_unordered
  (method, fraction) ← risk_fraction risk sure group
  position_fraction ← above_zero (some risk.max_position_fraction)
  total_fraction ← above_zero (some risk.max_total_exposure_fraction)
  price ← above_zero limit_price
  allocate method (limits_of risk equity buying_power exposures symbol fraction)
      (per_contract risk price)

-- A signed percentage, and the diagnostics of the chase check.
pub record Percent : Type 0 where
  pub negative : Bool
  pub size : Decimal

pub record ChaseEvaluation : Type 0 where
  pub ask : Decimal
  pub reference_price : Decimal
  pub ask_deviation_percent : Percent
  pub limit_price : Decimal
  pub limit_deviation_percent : Percent
  pub max_chase_percent : Decimal

unfoldable pub deviation_percent : Decimal → Decimal → Percent
deviation_percent price reference =
    let part = λ (d : Decimal). Decimal.mul (Decimal.div d reference) (of_ℕ 100) in
    if Decimal.lt price reference
    then record { negative = true; size = part (Decimal.sub reference price) }
    else record { negative = false; size = part (Decimal.sub price reference) }

unfoldable pub entry_chase_evaluation :
    Option Decimal
    → Option Decimal
    → Option Decimal
    → Option Decimal
    → Except SizeError ChaseEvaluation
entry_chase_evaluation ask reference price max_chase = do
  a ← above_zero ask
  r ← above_zero reference
  p ← above_zero price
  chase ← need max_chase bad_value
  ok (record {
    ask = a;
    reference_price = r;
    ask_deviation_percent = deviation_percent a r;
    limit_price = p;
    limit_deviation_percent = deviation_percent p r;
    max_chase_percent = Decimal.mul chase (of_ℕ 100);
  })

unfoldable pub chase_ceiling : ChaseEvaluation → Decimal
chase_ceiling e =
    Decimal.mul e.reference_price
      (Decimal.add (of_ℕ 1) (Decimal.div e.max_chase_percent (of_ℕ 100)))

unfoldable pub entry_chase_within_cap : ChaseEvaluation → Bool
entry_chase_within_cap e =
    Decimal.le e.ask (chase_ceiling e) && Decimal.le e.limit_price (chase_ceiling e)
