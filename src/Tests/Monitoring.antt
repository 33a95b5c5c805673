-- ===== src/Tests/Monitoring.antt =====
-- Runs of `validate_monitor_plan` (relay/monitor_contract.py).
use discord_option_tailer.Base.{
  Except, Option, [], arith, if◌then◌else◌, none, ok, raise, refl, some, ℕ, ◌-◌, ◌∷◌, ◌≡◌,
}
use discord_option_tailer.Monitor.{
  Json, MonitorPlan, PlanError, bad_threshold, bid_metric, count_fields, count_values, day_low,
  decimal_text, get_field, gte_comparison, in_range, is_compatible, is_decimal_string, is_unsigned,
  lte_comparison, number_of, other_word, read_comparison, read_condition, read_conditions,
  read_integer, read_list, read_metric, read_plan, read_reassess, read_threshold, rounds_away,
  split_digits, string, symbolic, underlying_metric, validate_monitor_plan, within_max,
}
use discord_option_tailer.Monitor.Valid.{
  IsValid, encode_conditions, encode_plan, validate_monitor_plan-IsValid,
  validate_monitor_plan-encode_plan,
}
use discord_option_tailer.Store.Rows.{Text}

abbrev ascii_digit : ℕ → Option ℕ
ascii_digit c = if in_range 48 57 c then some (c - 48) else none

-- "1.25" and "1.2.5".
abbrev price_words : Text
price_words = 49 ∷ 46 ∷ 50 ∷ 53 ∷ []

abbrev two_points : Text
two_points = 49 ∷ 46 ∷ 50 ∷ 46 ∷ 53 ∷ []

abbrev watch_plan : MonitorPlan
watch_plan = record {
  duration = 3600;
  interval = 15;
  reassess = some 600;
  conditions =
      record {
        metric = bid_metric;
        comparison = gte_comparison;
        threshold = decimal_text price_words;
      }
      ∷ record {
        metric = underlying_metric;
        comparison = lte_comparison;
        threshold = symbolic day_low;
      }
      ∷ [];
}

-- Opens all that a run of the validation computes with.
validated : Json → Except PlanError MonitorPlan
unfolding validate_monitor_plan read_plan read_list read_conditions read_condition read_threshold
    read_metric read_comparison read_reassess read_integer get_field count_fields count_values
    is_compatible is_decimal_string is_unsigned split_digits rounds_away within_max number_of
    encode_plan encode_conditions
validated v = validate_monitor_plan ascii_digit v

plan_run : validate_monitor_plan ascii_digit (encode_plan watch_plan) ≡ ok watch_plan
unfolding validated
plan_run = refl

bad_price_run :
    read_threshold ascii_digit bid_metric (string (other_word two_points)) ≡ raise bad_threshold
unfolding validated
bad_price_run = refl

watch_plan-IsValid : IsValid ascii_digit watch_plan
unfolding validated
watch_plan-IsValid = record {
  duration_lem = refl;
  interval_lem = refl;
  reassess_lem = λ n e. ground (arith, e);
  few = omega arith;
  fitting = (refl, (refl, tt));
  watches = refl;
}

validate_monitor_plan-encode_plan_example :
    validate_monitor_plan ascii_digit (encode_plan watch_plan) ≡ ok watch_plan
validate_monitor_plan-encode_plan_example =
    validate_monitor_plan-encode_plan ascii_digit watch_plan watch_plan-IsValid

validate_monitor_plan-IsValid_example : IsValid ascii_digit watch_plan
validate_monitor_plan-IsValid_example =
    validate_monitor_plan-IsValid ascii_digit (encode_plan watch_plan) watch_plan plan_run
