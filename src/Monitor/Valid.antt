-- ===== src/Monitor/Valid.antt =====
-- Which plans are valid, and the dictionary that `validate_monitor_plan` of relay/monitor_contract.py
-- returns for one.
use discord_option_tailer.Base.{
  All, List, Option, [], arith, bind_ok, false, length, ltb, need, none, not, ok, raise_if, refl,
  some, subst, suc, true, ℕ, ◌==◌, ◌∷◌, ◌≡◌, ◌≤◌,
}
use discord_option_tailer.Monitor.{
  Condition, Json, Jsons, Metric, MonitorPlan, PlanError, Threshold, array, bad_condition_fields,
  bad_conditions, bad_duration, bad_fields, bad_interval, comparison_field, comparison_word,
  condition_word, conditions_field, count_fields, count_values, decimal_text, dictionary,
  duration_field, get_field, has_nothing, in_range, integer, interval_field, is_compatible,
  is_condition_word, is_decimal_string, is_plan_word, metric_field, metric_word, no_fields,
  no_values, nothing_to_watch, null_value, one_field, one_more, other_word, plan_word,
  read_comparison, read_condition, read_conditions, read_integer, read_list, read_metric, read_plan,
  read_reassess, read_threshold, reassess_field, string, symbol_word, symbolic, threshold_field,
  validate_monitor_plan,
}

abbrev pub encode_threshold : Threshold → Json
encode_threshold (symbolic y) = string (symbol_word y)
encode_threshold (decimal_text t) = string (other_word t)

abbrev pub encode_condition : Condition → Json
encode_condition c = dictionary (
    one_field (condition_word metric_field) (string (metric_word c.metric)) (
      one_field (condition_word comparison_field) (string (comparison_word c.comparison))
        (one_field (condition_word threshold_field) (encode_threshold c.threshold) no_fields)))

unfoldable pub encode_conditions : List Condition → Jsons
encode_conditions [] = no_values
encode_conditions (c ∷ cs) = one_more (encode_condition c) (encode_conditions cs)

abbrev pub encode_reassess : Option ℕ → Json
encode_reassess none = null_value
encode_reassess (some n) = integer n

-- The dictionary that the code returns.
unfoldable pub encode_plan : MonitorPlan → Json
encode_plan p = dictionary (
    one_field (plan_word duration_field) (integer p.duration) (
      one_field (plan_word interval_field) (integer p.interval) (
        one_field (plan_word reassess_field) (encode_reassess p.reassess) (
          one_field (plan_word conditions_field) (array (encode_conditions p.conditions))
            no_fields))))

module _ (digit_value : ℕ → Option ℕ) where
  abbrev pub FitsMetric : Metric → Threshold → Type 0
  FitsMetric m (symbolic y) = is_compatible y m ≡ true
  FitsMetric m (decimal_text t) = is_decimal_string digit_value t ≡ true

  abbrev pub IsFitting : Condition → Type 0
  IsFitting c = FitsMetric c.metric c.threshold

  -- Its times are in their ranges, at most eight conditions have thresholds that fit their metrics,
  -- and there is a condition or a timer.
  pub record IsValid (p : MonitorPlan) : Type 0 where
    pub duration_lem : in_range 30 604800 p.duration ≡ true
    pub interval_lem : in_range 5 300 p.interval ≡ true
    pub reassess_lem : (n : ℕ) → p.reassess ≡ some n → in_range p.interval p.duration n ≡ true
    pub few : length p.conditions ≤ 8
    pub fitting : All IsFitting p.conditions
    pub watches : has_nothing digit_value p.conditions p.reassess ≡ false

  read_integer-ok :
      (low high n : ℕ) (e : PlanError) (v : Json)
      → read_integer low high e v ≡ ok n
      → in_range low high n ≡ true
  unfolding read_integer
  read_integer-ok low high n e v h = ground arith

  read_reassess-ok :
      (low high : ℕ) (v : Json) (r : Option ℕ) (n : ℕ)
      → read_reassess low high v ≡ ok r
      → r ≡ some n
      → in_range low high n ≡ true
  unfolding read_reassess read_integer
  read_reassess-ok low high v r n h e = ground arith

  read_threshold-ok :
      (m : Metric) (v : Json) (y : Threshold)
      → read_threshold digit_value m v ≡ ok y
      → FitsMetric m y
  unfolding read_threshold
  read_threshold-ok m v y h = ground arith

  read_condition-ok : (v : Json) (c : Condition) → read_condition digit_value v ≡ ok c → IsFitting c
  unfolding read_condition
  read_condition-ok (dictionary fs) c h =
      bind_ok (raise_if (not (count_fields fs == 3)) bad_condition_fields) _ h λ _ e1 h1.
        bind_ok (need (get_field (is_condition_word metric_field) fs) bad_condition_fields) _ h1
          λ metric e2 h2.
            bind_ok (need (get_field (is_condition_word comparison_field) fs) bad_condition_fields)
              _ h2
              λ comparison e3 h3.
                bind_ok
                  (need (get_field (is_condition_word threshold_field) fs) bad_condition_fields) _
                  h3
                  λ threshold e4 h4. bind_ok (read_metric metric) _ h4 λ m e5 h5.
                    bind_ok (read_comparison comparison) _ h5 λ k e6 h6.
                      bind_ok (read_threshold digit_value m threshold) _ h6 λ y e7 h7.
                        let read_back : record { metric = m; comparison = k; threshold = y } ≡ c =
                          ground arith in
                        subst IsFitting read_back (read_threshold-ok m threshold y e7)
  read_condition-ok v c h = cc

  read_conditions-ok :
      (vs : Jsons) (cs : List Condition)
      → read_conditions digit_value vs ≡ ok cs
      → All IsFitting cs × (length cs ≡ count_values digit_value vs)
  unfolding read_conditions count_values
  read_conditions-ok no_values cs h =
      let empty_list : [] ≡ cs = ground arith in
      subst (λ x. All IsFitting x × (length x ≡ 0)) empty_list (tt, refl)
  read_conditions-ok (one_more v vs) cs h = bind_ok (read_condition digit_value v) _ h λ c e h1.
      bind_ok (read_conditions digit_value vs) _ h1 λ cs' e' h2.
        let (fitting, counted) = read_conditions-ok vs cs' e' in
        let fits = read_condition-ok v c e in
        let same_list : c ∷ cs' ≡ cs = ground arith in
        subst (λ x. All IsFitting x × (length x ≡ suc (count_values digit_value vs))) same_list
          ((fits, fitting), omega (arith, counted))

  -- Reading back what was written.
  read_threshold-encode :
      (m : Metric) (y : Threshold)
      → FitsMetric m y
      → read_threshold digit_value m (encode_threshold y) ≡ ok y
  unfolding read_threshold
  read_threshold-encode m (symbolic y) h = rw h refl
  read_threshold-encode m (decimal_text t) h = rw h refl

  read_conditions-encode :
      (cs : List Condition)
      → All IsFitting cs
      → read_conditions digit_value (encode_conditions cs) ≡ ok cs
  unfolding read_conditions read_condition count_fields get_field read_metric read_comparison
      encode_conditions
  read_conditions-encode [] h = refl
  read_conditions-encode (c ∷ cs) (fits, fitting) =
      rw (read_threshold-encode c.metric c.threshold fits)
        (rw (read_conditions-encode cs fitting) refl)

  count-encode : (cs : List Condition) → count_values digit_value (encode_conditions cs) ≡ length cs
  unfolding count_values encode_conditions
  count-encode [] = refl
  count-encode (c ∷ cs) = omega (arith, count-encode cs)

  read_reassess-encode :
      (low high : ℕ) (r : Option ℕ)
      → ((n : ℕ) → r ≡ some n → in_range low high n ≡ true)
      → read_reassess low high (encode_reassess r) ≡ ok r
  unfolding read_reassess read_integer
  read_reassess-encode low high none h = refl
  read_reassess-encode low high (some n) h = rw (h n refl) refl

  -- The dictionary of a valid plan is read back as the plan.
  pub validate_monitor_plan-encode_plan :
      (p : MonitorPlan) → IsValid p → validate_monitor_plan digit_value (encode_plan p) ≡ ok p
  unfolding validate_monitor_plan read_plan encode_plan count_fields get_field read_integer
      read_list
  validate_monitor_plan-encode_plan p h =
      let short : ltb 8 (count_values digit_value (encode_conditions p.conditions)) ≡ false =
        ground (arith, count-encode p.conditions, h.few) in
      rw h.duration_lem (
        rw h.interval_lem (
          rw (read_reassess-encode p.interval p.duration p.reassess h.reassess_lem)
            (rw short (rw (read_conditions-encode p.conditions h.fitting) (rw h.watches refl)))))

  read_list-ok :
      (v : Json) (cs : List Condition)
      → read_list digit_value v ≡ ok cs
      → All IsFitting cs × (length cs ≤ 8)
  unfolding read_list
  read_list-ok (array vs) cs h =
      bind_ok (raise_if (ltb 8 (count_values digit_value vs)) bad_conditions) _ h λ _ e1 h1.
        let (fitting, counted) = read_conditions-ok vs cs h1 in (fitting, ground (arith, counted))
  read_list-ok v cs h = cc

  read_plan-IsValid :
      (a b r l : Json) (p : MonitorPlan) → read_plan digit_value a b r l ≡ ok p → IsValid p
  unfolding read_plan
  read_plan-IsValid a b r l p h = bind_ok (read_integer 30 604800 bad_duration a) _ h λ d e1 h1.
      bind_ok (read_integer 5 300 bad_interval b) _ h1 λ i e2 h2.
        bind_ok (read_reassess i d r) _ h2 λ t e3 h3.
          bind_ok (read_list digit_value l) _ h3 λ cs e4 h4.
            bind_ok (raise_if (has_nothing digit_value cs t) nothing_to_watch) _ h4 λ _ e5 h5.
              let (fitting, few) = read_list-ok l cs e4 in
              let read_back : record { duration = d; interval = i; reassess = t; conditions = cs }
                  ≡ p =
                ground arith in
              subst IsValid read_back (record {
                duration_lem = read_integer-ok 30 604800 d bad_duration a e1;
                interval_lem = read_integer-ok 5 300 i bad_interval b e2;
                reassess_lem = λ n e. read_reassess-ok i d r t n e3 e;
                few = few;
                fitting = fitting;
                watches = ground arith;
              })

  -- A value that validate_monitor_plan accepts comes out as a valid plan: its times are in their
  -- ranges, at most eight conditions have thresholds that fit their metrics, and there is a condition
  -- or a timer.
  pub validate_monitor_plan-IsValid :
      (v : Json) (p : MonitorPlan) → validate_monitor_plan digit_value v ≡ ok p → IsValid p
  unfolding validate_monitor_plan
  validate_monitor_plan-IsValid (dictionary fs) p h =
      bind_ok (raise_if (not (count_fields fs == 4)) bad_fields) _ h λ _ e1 h1.
        bind_ok (need (get_field (is_plan_word duration_field) fs) bad_fields) _ h1 λ a e2 h2.
          bind_ok (need (get_field (is_plan_word interval_field) fs) bad_fields) _ h2 λ b e3 h3.
            bind_ok (need (get_field (is_plan_word reassess_field) fs) bad_fields) _ h3 λ r e4 h4.
              bind_ok (need (get_field (is_plan_word conditions_field) fs) bad_fields) _ h4
                λ l e5 h5. read_plan-IsValid a b r l p h5
  validate_monitor_plan-IsValid v p h = cc
