-- ===== src/Engine/Dispatch/Reviewed.antt =====
-- What a passed `Engine.verify_dispatch` (relay/core.py) has checked.
use discord_option_tailer.Base.Decimal
use discord_option_tailer.Base.{
  List, Option, arith, bind_ok, false, guarded, guarded-eq-ok, ltb, need, none, not, ok, raise_if,
  refl, some, true, ℕ, ◌&&◌, ◌||◌, ◌≡◌, ◌≤◌,
}
use discord_option_tailer.Base.Decimal.{Decimal}
use discord_option_tailer.Engine.Dispatch.{
  Round, Verification, chase_limit, check_capacity, check_intent, check_order_quote, check_review,
  check_review_chase, check_review_exit, check_side, check_snapshot_age, current, is_elapsed,
  readiness_guards, review, session_guards, verify_dispatch, verify_source,
}
use discord_option_tailer.Engine.Guards.{
  Hold, Memory, OrderColumns, PositionColumns, bad_spread, chase_exceeded, check_execution_mode,
  check_exit_profit, fresh, origin, oversell, paid, wrong_quote,
}
use discord_option_tailer.Engine.Guards.Latest.{IsCurrent, unchanged-IsCurrent}
use discord_option_tailer.Engine.Plan.Safe.{sizes-eq-ok}
use discord_option_tailer.Engine.Pricing.{
  PlanGuard, Quote, Snapshot, expiry_guard, is_contract, is_expiry, is_wide, ordinary,
  recovery_guard, round_down, sizes,
}
use discord_option_tailer.Sizing.{Risk, Size, entry_chase_evaluation, entry_size, sized}
use discord_option_tailer.Store.Rows.{
  Body, Contract, Decision, Position, Side, buy, close, is_exit, sell,
}
use discord_option_tailer.Store.State.{Message, Store, find_position, positions}

-- An entry's limit price is within the chase cap of its alert price, and its quantity is one that the
-- reviewed account still grants.
abbrev pub IsEntryFit : Risk → Message → Decision → Contract → Body → Snapshot → Type 0
IsEntryFit risk m d c b x =
    (price : Decimal) × (alert : Decimal) × (z : Size) × (b.limit_price ≡ some price)
    × (d.alert_price ≡ some alert)
    × (Decimal.le price (chase_limit risk alert) ≡ true)
    × (entry_size risk x.account c.symbol d.confidence b.limit_price m.source_group ≡ ok z)
    × (b.quantity ≤ z.quantity)

-- A sale is of no more than a position of the source holds.
abbrev pub IsSaleFit : Message → Contract → Body → Store → Type 0
IsSaleFit m c b s =
    (p : Position) × (find_position m.source_group c (positions s) ≡ some p)
    × (b.quantity ≤ p.quantity)

paid-some : (o : Option Decimal) (d : Decimal) → paid o ≡ ok d → o ≡ some d
unfolding paid
paid-some none d h = cc
paid-some (some e) d h = ground arith

check_review_chase-within :
    (risk : Risk) (d : Decision) (b : Body) (ask : Decimal) {u : Unit {0}}
    → check_review_chase risk d b ask ≡ ok u
    → (price : Decimal) × (alert : Decimal) × (b.limit_price ≡ some price)
      × (d.alert_price ≡ some alert)
      × (Decimal.le price (chase_limit risk alert) ≡ true)
unfolding check_review_chase
check_review_chase-within risk d b ask h =
    bind_ok
      (sizes (
        entry_chase_evaluation (some ask) d.alert_price b.limit_price
          (some risk.max_chase_fraction)))
      _ h
      λ evaluation _ h1. bind_ok (paid b.limit_price) _ h1 λ price e2 h2.
        bind_ok (paid d.alert_price) _ h2 λ alert e3 h3.
          bind_ok (raise_if (not (Decimal.le price (chase_limit risk alert))) chase_exceeded) _ h3
            λ _ e4 h4. (
              price,
              alert,
              paid-some b.limit_price price e2,
              paid-some d.alert_price alert e3,
              ground arith,
            )

check_capacity-within :
    (risk : Risk) (m : Message) (d : Decision) (c : Contract) (b : Body) (x : Snapshot)
    {u : Unit {0}}
    → check_capacity risk m d c b x ≡ ok u
    → (z : Size) × (entry_size risk x.account c.symbol d.confidence b.limit_price m.source_group
        ≡ ok z)
      × (b.quantity ≤ z.quantity)
unfolding check_capacity
check_capacity-within risk m d c b x h =
    let call = entry_size risk x.account c.symbol d.confidence b.limit_price m.source_group in
    bind_ok (sizes call) _ h λ z e h1. (z, sizes-eq-ok call z e, ground arith)

need-position :
    (o : Option Position) (p : Position) → need {E = Hold} o oversell ≡ ok p → o ≡ some p
need-position none p h = cc
need-position (some q) p h = cc

check_exit_profit-IsSaleFit :
    (risk : Risk) (m : Message) (d : Decision) (c : Contract) (b : Body)
    (executable bound : Option Decimal) (s : Store) {u : Unit {0}}
    → check_exit_profit risk m d c b.quantity executable bound s ≡ ok u
    → IsSaleFit m c b s
unfolding check_exit_profit
check_exit_profit-IsSaleFit risk m d c b executable bound s h =
    bind_ok (need (find_position m.source_group c (positions s)) oversell) _ h λ p e h1.
      bind_ok (raise_if (ltb p.quantity b.quantity) oversell) _ h1 λ _ e2 h2.
        (p, need-position (find_position m.source_group c (positions s)) p e, ground arith)

-- What a passed review says of the order, by its side.
abbrev pub IsFit : Risk → Message → Decision → Contract → Body → Snapshot → Store → Side → Type 0
IsFit risk m d c b x s buy = IsEntryFit risk m d c b x
IsFit risk m d c b x s sell = IsSaleFit m c b s

check_side-IsFit :
    (risk : Risk) (m : Message) (d : Decision) (c : Contract) (b : Body) (q : Quote) (x : Snapshot)
    (bid ask : Decimal) (s : Store) (side : Side) {u : Unit {0}}
    → b.side ≡ side
    → check_side risk m d c b q x bid ask s ≡ ok u
    → IsFit risk m d c b x s side
unfolding check_side check_review_exit check_review_chase check_capacity
check_side-IsFit risk m d c b q x bid ask s buy is_side h =
    bind_ok (check_review_chase risk d b ask) _ (rw is_side at h) λ _ e1 h1.
      let (price, alert, priced, alerted, within) = check_review_chase-within risk d b ask e1 in
      let (z, sized, fits) = check_capacity-within risk m d c b x h1 in
      (price, alert, z, priced, alerted, within, sized, fits)
check_side-IsFit risk m d c b q x bid ask s sell is_side h =
    bind_ok (paid q.tick_size) _ (rw is_side at h) λ tick e1 h1.
      check_exit_profit-IsSaleFit risk m d c b (some (round_down bid tick)) b.limit_price s h1

check_review-IsFit :
    (r : Round) (guard : PlanGuard) (m : Message) (d : Decision) (c : Contract) (b : Body)
    (x : Snapshot) (s : Store) {u : Unit {0}}
    → check_review r guard m d c b x s ≡ ok u
    → IsFit r.risk m d c b x s b.side
unfolding check_review
check_review-IsFit r guard m d c b x s h =
    bind_ok (guarded (session_guards r x) (ok tt)) _ h λ _ e1 h1.
      bind_ok (need r.quote wrong_quote) _ h1 λ q e2 h2.
        bind_ok (raise_if (not (is_contract c q.contract && q.tradable)) wrong_quote) _ h2
          λ _ e3 h3. bind_ok (paid q.bid) _ h3 λ bid e4 h4. bind_ok (paid q.ask) _ h4 λ ask e5 h5.
            bind_ok
              (raise_if (Decimal.lt ask bid || (not (is_expiry guard) && is_wide r.risk bid ask))
                bad_spread)
              _ h5 λ _ e6 h6. check_side-IsFit r.risk m d c b q x bid ask s b.side refl h6

-- The source's state that an ordinary alert is dispatched on; a guarded exit does not ask for it.
abbrev pub IsIntended : PlanGuard → Message → Decision → Body → Memory → Store → Type 0
IsIntended ordinary m d b mem s = IsCurrent m mem s
IsIntended (recovery_guard r) m d b mem s = (is_exit d.action ≡ true) × (b.side ≡ sell)
IsIntended (expiry_guard r) m d b mem s = (d.action ≡ close) × (b.side ≡ sell)

check_intent-IsIntended :
    (digest : List PositionColumns × List OrderColumns → ℕ) (r : Round) (guard : PlanGuard)
    (m : Message) (d : Decision) (b : Body) (s : Store)
    → check_intent digest r guard m d b s ≡ ok tt
    → IsIntended guard m d b r.memory s
unfolding check_intent
check_intent-IsIntended digest r ordinary m d b s h = bind_ok (fresh r.risk m r.now) _ h λ _ e1 h1.
    bind_ok (origin m d r.memory s) _ h1 λ o e2 h2.
      bind_ok (fresh r.risk o r.now) _ h2
        λ _ e3 h3. unchanged-IsCurrent digest r.claim m r.memory s h3
check_intent-IsIntended digest r (recovery_guard result) m d b s h = ground arith
check_intent-IsIntended digest r (expiry_guard result) m d b s h = ground arith

-- What a passed round of checks says.
pub record IsReviewed (guard : PlanGuard) (m : Message) (d : Decision) (c : Contract) (b : Body)
    (r : Round) (s : Store) : Type 0 where
  pub intended : IsIntended guard m d b r.memory s
  pub no_kill_switch : r.kill_switch ≡ false
  pub not_elapsed : is_elapsed r.now b ≡ false
  pub fit : (x : Snapshot) → r.snapshot ≡ some x → IsFit r.risk m d c b x s b.side

review-IsFit :
    (r : Round) (guard : PlanGuard) (m : Message) (d : Decision) (c : Contract) (b : Body)
    (s : Store) (x : Snapshot)
    → review r guard m d c b s ≡ ok tt
    → r.snapshot ≡ some x
    → IsFit r.risk m d c b x s b.side
unfolding review check_review session_guards
review-IsFit r guard m d c b s x h e = check_review-IsFit r guard m d c b x s (rw e at h)

current-IsReviewed :
    (digest : List PositionColumns × List OrderColumns → ℕ) (r : Round) (guard : PlanGuard)
    (m : Message) (d : Decision) (c : Contract) (b : Body) (s : Store)
    → current digest r guard m d c b s ≡ ok tt
    → IsReviewed guard m d c b r s
unfolding current readiness_guards
current-IsReviewed digest r guard m d c b s h =
    bind_ok (check_intent digest r guard m d b s) _ h λ _ e1 h1.
      bind_ok (check_execution_mode r.binding) _ h1 λ _ e2 h2.
        bind_ok (guarded (readiness_guards r b) (ok tt)) _ h2 λ _ e3 h3.
          bind_ok (check_order_quote r b) _ h3 λ _ e4 h4.
            bind_ok (check_snapshot_age r) _ h4 λ _ e5 h5.
              let tests = (guarded-eq-ok (readiness_guards r b) (ok tt) e3).0 in
              record {
                intended = check_intent-IsIntended digest r guard m d b s e1;
                no_kill_switch = tests.0;
                not_elapsed = tests.1.0;
                fit = λ x e. review-IsFit r guard m d c b s x h5 e;
              }

-- When verify_dispatch passes, its last round of checks found the following, on the memory and the
-- store as they were after the source's verification. Without a guard, the message was current; with
-- one, the order closes. There was no kill switch, and no elapsed window of a prepared entry. If the
-- broker had reviewed the order, a buy's limit price is within the chase cap of the alert price and
-- its quantity is one that entry_size still grants on the reviewed account, and a sale is of no more
-- than a position of the source holds.
pub verify_dispatch-IsReviewed :
    (digest : List PositionColumns × List OrderColumns → ℕ) (r : Round) (s : Store)
    (v : Verification) (r' : Round) (s' : Store) (guard asked guard' : PlanGuard) (m : Message)
    (d : Decision) (c : Contract) (b : Body)
    → verify_dispatch digest r s v r' s' guard asked guard' m d c b ≡ ok tt
    → IsReviewed guard' m d c b r' s'
unfolding verify_dispatch
verify_dispatch-IsReviewed digest r s v r' s' guard asked guard' m d c b h =
    bind_ok (current digest r guard m d c b s) _ h λ _ e1 h1.
      bind_ok (verify_source v asked m d r'.memory s') _ h1
        λ _ e2 h2. current-IsReviewed digest r' guard' m d c b s' h2
