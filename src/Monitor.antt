-- ===== src/Monitor.antt =====
-- `validate_monitor_plan` of relay/monitor_contract.py, from a JSON value to a plan.
pub mod Valid
use discord_option_tailer.Base.{
  Bool, Except, List, Option, [], false, if◌then◌else◌, leb, length, ltb, need, none, not, ok,
  raise, raise_if, some, suc, true, ℕ, ◌&&◌, ◌*◌, ◌+◌, ◌==◌, ◌>>=◌, ◌>>◌, ◌^◌, ◌||◌, ◌∷◌,
}
use discord_option_tailer.Store.Rows.{Text}

pub data PlanField : Type 0 where
  duration_field interval_field reassess_field conditions_field : PlanField

pub data ConditionField : Type 0 where
  metric_field comparison_field threshold_field : ConditionField

-- `METRICS`
pub data Metric : Type 0 where
  bid_metric ask_metric underlying_metric return_metric quantity_metric : Metric

pub data Comparison : Type 0 where
  lte_comparison gte_comparison : Comparison

-- `SYMBOLS`
pub data Symbol : Type 0 where
  day_low day_high entry_premium : Symbol

-- A string: those that the code knows by name, and any other.
pub data Word : Type 0 where
  plan_word : PlanField → Word
  condition_word : ConditionField → Word
  metric_word : Metric → Word
  comparison_word : Comparison → Word
  symbol_word : Symbol → Word
  other_word : Text → Word

-- A JSON value. An integer that is not negative has a constructor of its own, since the code refuses
-- every other number alike. A dictionary has each key once.
mutual
  pub data Json : Type 0 where
    null_value other_number : Json
    boolean : Bool → Json
    integer : ℕ → Json
    string : Word → Json
    array : Jsons → Json
    dictionary : Fields → Json

  pub data Jsons : Type 0 where
    no_values : Jsons
    one_more : Json → Jsons → Jsons

  pub data Fields : Type 0 where
    no_fields : Fields
    one_field : Word → Json → Fields → Fields

pub data PlanError : Type 0 where
  bad_fields bad_duration bad_interval bad_reassess bad_conditions bad_condition_fields : PlanError
  unknown_metric unknown_comparison incompatible_symbol bad_threshold nothing_to_watch : PlanError

pub data Threshold : Type 0 where
  symbolic : Symbol → Threshold
  decimal_text : Text → Threshold

pub record Condition : Type 0 where
  pub metric : Metric
  pub comparison : Comparison
  pub threshold : Threshold

pub record MonitorPlan : Type 0 where
  pub duration : ℕ
  pub interval : ℕ
  pub reassess : Option ℕ
  pub conditions : List Condition

abbrev pub same_plan_field : PlanField → PlanField → Bool
same_plan_field duration_field duration_field = true
same_plan_field interval_field interval_field = true
same_plan_field reassess_field reassess_field = true
same_plan_field conditions_field conditions_field = true
same_plan_field _ _ = false

abbrev pub same_condition_field : ConditionField → ConditionField → Bool
same_condition_field metric_field metric_field = true
same_condition_field comparison_field comparison_field = true
same_condition_field threshold_field threshold_field = true
same_condition_field _ _ = false

abbrev pub is_plan_word : PlanField → Word → Bool
is_plan_word f (plan_word g) = same_plan_field g f
is_plan_word f _ = false

abbrev pub is_condition_word : ConditionField → Word → Bool
is_condition_word f (condition_word g) = same_condition_field g f
is_condition_word f _ = false

unfoldable pub get_field : (Word → Bool) → Fields → Option Json
get_field is_key no_fields = none
get_field is_key (one_field w v fs) = if is_key w then some v else get_field is_key fs

unfoldable pub count_fields : Fields → ℕ
count_fields no_fields = 0
count_fields (one_field w v fs) = suc (count_fields fs)

abbrev pub in_range : ℕ → ℕ → ℕ → Bool
in_range low high n = leb low n && leb n high

unfoldable pub read_integer : ℕ → ℕ → PlanError → Json → Except PlanError ℕ
read_integer low high e (integer n) = raise_if (not (in_range low high n)) e >> ok n
read_integer low high e _ = raise e

unfoldable pub read_reassess : ℕ → ℕ → Json → Except PlanError (Option ℕ)
read_reassess low high null_value = ok none
read_reassess low high v = do n ← read_integer low high bad_reassess v; ok (some n)

unfoldable pub read_metric : Json → Except PlanError Metric
read_metric (string (metric_word m)) = ok m
read_metric _ = raise unknown_metric

unfoldable pub read_comparison : Json → Except PlanError Comparison
read_comparison (string (comparison_word c)) = ok c
read_comparison _ = raise unknown_comparison

-- `_SYMBOL_METRICS`
unfoldable pub is_compatible : Symbol → Metric → Bool
is_compatible day_low underlying_metric = true
is_compatible day_high underlying_metric = true
is_compatible entry_premium bid_metric = true
is_compatible entry_premium ask_metric = true
is_compatible _ _ = false

abbrev pub is_empty : List ℕ → Bool
is_empty [] = true
is_empty _ = false

abbrev pub is_sign : ℕ → Bool
is_sign c = c == 43 || c == 45

unfoldable pub number_of : ℕ → List ℕ → ℕ
number_of acc [] = acc
number_of acc (v ∷ vs) = number_of (acc * 10 + v) vs

-- At most 10^12 once `abs` has rounded to 28 digits, to the even neighbour of two: 13 digits before
-- the point leave 15 after it, so that a part up to 5 / 10^16 is rounded away.
unfoldable pub rounds_away : List ℕ → Bool
rounds_away part = leb (number_of 0 part * 10 ^ 16) (5 * 10 ^ length part)

unfoldable pub within_max : List ℕ → List ℕ → Bool
within_max whole part =
    ltb (number_of 0 whole) (10 ^ 12) || (number_of 0 whole == 10 ^ 12 && rounds_away part)

-- `digit_value` is the value of a character that is a decimal digit in Unicode.
module _ (digit_value : ℕ → Option ℕ) where
  unfoldable pub split_digits : Text → List ℕ × Text
  split_digits [] = ([], [])
  split_digits (c ∷ cs) =
      let (vs, rest) = split_digits cs in
      elim (digit_value c) [ none ↦ ([], c ∷ cs) | some v ↦ (v ∷ vs, rest) ]

  abbrev pub after_point : List ℕ → Text → Bool
  after_point whole cs =
      let (part, rest) = split_digits cs in
      is_empty rest && (not (is_empty whole && is_empty part) && within_max whole part)

  unfoldable pub is_unsigned : Text → Bool
  is_unsigned t =
      let (whole, rest) = split_digits t in
      elim rest [
        | [] ↦ not (is_empty whole) && within_max whole []
        | c ∷ cs ↦ c == 46 && after_point whole cs
      ]

  abbrev pub without_sign : Text → Text
  without_sign [] = []
  without_sign (c ∷ cs) = if is_sign c then cs else c ∷ cs

  -- `_decimal_string`
  unfoldable pub is_decimal_string : Text → Bool
  is_decimal_string t = leb (length t) 64 && is_unsigned (without_sign t)

  unfoldable pub read_threshold : Metric → Json → Except PlanError Threshold
  read_threshold m (string (symbol_word y)) =
      raise_if (not (is_compatible y m)) incompatible_symbol >> ok (symbolic y)
  read_threshold m (string (other_word t)) =
      raise_if (not (is_decimal_string t)) bad_threshold >> ok (decimal_text t)
  read_threshold m _ = raise bad_threshold

  unfoldable pub read_condition : Json → Except PlanError Condition
  read_condition (dictionary fs) = do
    raise_if (not (count_fields fs == 3)) bad_condition_fields
    metric ← need (get_field (is_condition_word metric_field) fs) bad_condition_fields
    comparison ← need (get_field (is_condition_word comparison_field) fs) bad_condition_fields
    threshold ← need (get_field (is_condition_word threshold_field) fs) bad_condition_fields
    m ← read_metric metric
    c ← read_comparison comparison
    y ← read_threshold m threshold
    ok (record { metric = m; comparison = c; threshold = y })
  read_condition _ = raise bad_condition_fields

  unfoldable pub read_conditions : Jsons → Except PlanError (List Condition)
  read_conditions no_values = ok []
  read_conditions (one_more v vs) = do c ← read_condition v; cs ← read_conditions vs; ok (c ∷ cs)

  unfoldable pub count_values : Jsons → ℕ
  count_values no_values = 0
  count_values (one_more v vs) = suc (count_values vs)

  unfoldable pub read_list : Json → Except PlanError (List Condition)
  read_list (array vs) = raise_if (ltb 8 (count_values vs)) bad_conditions >> read_conditions vs
  read_list _ = raise bad_conditions

  abbrev pub has_nothing : List Condition → Option ℕ → Bool
  has_nothing [] none = true
  has_nothing _ _ = false

  unfoldable pub read_plan : Json → Json → Json → Json → Except PlanError MonitorPlan
  read_plan duration interval reassess conditions = do
    d ← read_integer 30 604800 bad_duration duration
    i ← read_integer 5 300 bad_interval interval
    r ← read_reassess i d reassess
    cs ← read_list conditions
    raise_if (has_nothing cs r) nothing_to_watch
    ok (record { duration = d; interval = i; reassess = r; conditions = cs })

  -- `validate_monitor_plan`
  unfoldable pub validate_monitor_plan : Json → Except PlanError MonitorPlan
  validate_monitor_plan (dictionary fs) = do
    raise_if (not (count_fields fs == 4)) bad_fields
    duration ← need (get_field (is_plan_word duration_field) fs) bad_fields
    interval ← need (get_field (is_plan_word interval_field) fs) bad_fields
    reassess ← need (get_field (is_plan_word reassess_field) fs) bad_fields
    conditions ← need (get_field (is_plan_word conditions_field) fs) bad_fields
    read_plan duration interval reassess conditions
  validate_monitor_plan _ = raise bad_fields
