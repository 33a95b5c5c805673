-- ===== src/Store/Fills/Checks.antt =====
-- What the checks of `apply_result` (relay/core.py) establish about an accepted answer.
use discord_option_tailer.Base.Decimal
use discord_option_tailer.Base.{
  >>=-eq-ok, All, Bool, Bool-cases, Option, ap, arith, false, guarded-eq-ok, inl, inr, leb, none,
  not, ok, refl, some, true, ℕ, ◌&&◌, ◌+◌, ◌-◌, ◌==◌, ◌||◌, ◌≡◌, ◌≤◌,
}
use discord_option_tailer.Base.Decimal.{Decimal, of_ℕ}
use discord_option_tailer.Store.Fills.{
  BrokerResult, Fill, check_count, check_fill, check_total, count_guards, limit_of, price_of_fill,
  total_guards,
}
use discord_option_tailer.Store.Rows.{
  Order, Status, is_filled, is_reported, is_terminal, same_status, same_status_iff,
}

-- An accepted answer never takes contracts back, never exceeds the order, fills "filled" orders
-- whole, and repeats what a terminal order already says.
pub record IsAccepted (o : Order) (r : BrokerResult) (f : Fill) : Type 0 where
  pub same_status_lem : r.status ≡ some f.status
  pub same_count : r.filled_quantity ≡ some f.count
  pub is_reported_lem : is_reported f.status ≡ true
  pub not_taken_back : o.filled_quantity ≤ f.count
  pub within_order : f.count ≤ o.body.quantity
  pub delta_lem : f.delta + o.filled_quantity ≡ f.count
  pub filled_whole : is_filled f.status ≡ true → f.count ≡ o.body.quantity
  pub terminal_kept :
      is_terminal o.status ≡ true → (f.status ≡ o.status) × (f.count ≡ o.filled_quantity)

kept_of_test :
    (ended : Bool) (s t : Status) (m n : ℕ)
    → (ended && (not (same_status s t) || not (m == n))) ≡ false
    → ended ≡ true
    → (s ≡ t) × (m ≡ n)
kept_of_test false s t m n h e = cc
kept_of_test true s t m n h e = elim (Bool-cases (same_status s t)) [
  | inl q ↦ let g = rw q at h in ((same_status_iff s t).0 q, ground arith)
  | inr q ↦ let g = rw q at h in cc
]

in_range : (a b c : ℕ) → not (leb a b && leb b c) ≡ false → (a ≤ b) × (b ≤ c)
in_range a b c h = ground arith

whole_of_test : (b : Bool) (m n : ℕ) → (b && not (m == n)) ≡ false → b ≡ true → m ≡ n
whole_of_test false m n h e = cc
whole_of_test true m n h e = ground arith

true_of_test : (b : Bool) → not b ≡ false → b ≡ true
true_of_test true h = refl
true_of_test false h = cc

check_count_lem :
    (o : Order) (s : Option Status) (n : Option ℕ) (st : Status) (count : ℕ)
    → check_count o s n ≡ ok (st, count)
    → (s ≡ some st)
      × (n ≡ some count)
      × (is_reported st ≡ true)
      × ((o.filled_quantity ≤ count) × (count ≤ o.body.quantity))
      × (is_filled st ≡ true → count ≡ o.body.quantity)
      × (is_terminal o.status ≡ true → (st ≡ o.status) × (count ≡ o.filled_quantity))
unfolding check_count count_guards
check_count_lem o none n st count h = cc
check_count_lem o (some s) none st count h = cc
check_count_lem o (some s) (some n) st count h =
    let (g, e) = guarded-eq-ok (count_guards o s n) (ok (s, n)) h in
    let es : s ≡ st = cc in
    let en : n ≡ count = cc in
    (
      ap some es,
      ap some en,
      rw (← es) (true_of_test _ g.0),
      rw (← en) (in_range _ _ _ g.1.0),
      rw (← es, ← en) (whole_of_test _ _ _ g.1.1.0),
      rw (← es, ← en) (kept_of_test _ _ _ _ _ g.1.1.1.0),
    )

-- The price, the bound and the tests behind an accepted total.
pub check_total_lem :
    (o : Order) (p : Option Decimal) (count : ℕ) (total : Decimal)
    → check_total o p count ≡ ok total
    → (price : Decimal) × (bound : Option Decimal) × (price_of_fill count p ≡ ok price)
      × (limit_of o ≡ ok bound)
      × All (λ g. g.0 ≡ false) (total_guards o count price bound)
      × (Decimal.mul price (of_ℕ count) ≡ total)
unfolding check_total
check_total_lem o p count total h =
    let (price, priced, h1) = >>=-eq-ok (price_of_fill count p) _ h in
    let (bound, limited, h2) = >>=-eq-ok (limit_of o) _ h1 in
    let (g, e) =
      guarded-eq-ok (total_guards o count price bound) (ok (Decimal.mul price (of_ℕ count))) h2 in
    (price, bound, priced, limited, g, cc e)

-- The parts of an accepted answer: its status and count, its total, and what they add.
pub check_fill-parts :
    (o : Order) (r : BrokerResult) (f : Fill)
    → check_fill o r ≡ ok f
    → (check_count o r.status r.filled_quantity ≡ ok (f.status, f.count))
      × (check_total o r.fill_price f.count ≡ ok f.total)
      × (f.delta ≡ f.count - o.filled_quantity)
      × (f.delta_notional ≡ Decimal.sub f.total o.filled_notional)
unfolding check_fill
check_fill-parts o r f h = ground arith

pub check_fill-IsAccepted :
    (o : Order) (r : BrokerResult) (f : Fill) → check_fill o r ≡ ok f → IsAccepted o r f
check_fill-IsAccepted o r f h =
    let (counted, totalled, added, money) = check_fill-parts o r f h in
    let (st, n, reported, range, whole, kept) =
      check_count_lem o r.status r.filled_quantity f.status f.count counted in
    record {
      same_status_lem = st;
      same_count = n;
      is_reported_lem = reported;
      not_taken_back = range.0;
      within_order = range.1;
      delta_lem = omega arith;
      filled_whole = whole;
      terminal_kept = kept;
    }
