-- ===== src/Store/Fills/Repeats.antt =====
-- `apply_result` (relay/core.py) on an answer that it has taken before, as reconciliation polls it.
use discord_option_tailer.Base.Decimal
use discord_option_tailer.Base.{
  All, Option, Option-cases, ap, arith, false, guarded-eq-ok, guarded_passes, inl, inr, none, ok,
  refl, some, true, update_again, update_self, ℕ, ◌-◌, ◌==◌, ◌∙◌, ◌≡◌,
}
use discord_option_tailer.Base.Decimal.{Decimal, of_ℕ}
use discord_option_tailer.Store.Fills.{
  BrokerResult, Fill, acknowledge, apply_result, changes_identity, check_count, check_fill,
  check_total, commit_fill, count_guards, is_inconsistent, moved_positions, reply_of, settle,
  settle_result, total_guards,
}
use discord_option_tailer.Store.Fills.Accepted.{apply_result-Run}
use discord_option_tailer.Store.Fills.Checks.{check_fill-parts, check_total_lem}
use discord_option_tailer.Store.Fills.Results.{apply_result-find}
use discord_option_tailer.Store.Orders.{
  Reply, or_else, reconciliation_of, sync_order_event, sync_reason,
}
use discord_option_tailer.Store.Rows.{Order, Status, same_status, same_status_iff}
use discord_option_tailer.Store.State.{Store, find_order, has_id, update_order}

-- The checks of the count and of the money pass again, once their answer is recorded.
same_status_self : (st : Status) → same_status st st ≡ true
same_status_self st = (same_status_iff st st).1 refl

check_count_again :
    (o : Order) (s : Option Status) (n : Option ℕ) (f : Fill) (b : ℕ)
    → check_count o s n ≡ ok (f.status, f.count)
    → check_count (settle f b o) s n ≡ ok (f.status, f.count)
unfolding check_count count_guards
check_count_again o none n f b h = cc
check_count_again o (some st) none f b h = cc
check_count_again o (some st) (some count) f b h =
    let (g, e) = guarded-eq-ok (count_guards o st count) (ok (st, count)) h in
    let same_st : st ≡ f.status = cc in
    let same_count : count ≡ f.count = cc in
    guarded_passes (count_guards (settle f b o) st count) (ok (st, count))
      (g.0, (ground arith, (g.1.1.0, (ground (arith, same_status_self st), tt))))
    ∙ e

total_guards_again :
    (o : Order) (f : Fill) (b : ℕ) (price : Decimal) (bound : Option Decimal)
    → All (λ g. g.0 ≡ false) (total_guards o f.count price bound)
    → Decimal.mul price (of_ℕ f.count) ≡ f.total
    → All (λ g. g.0 ≡ false) (total_guards (settle f b o) f.count price bound)
unfolding total_guards is_inconsistent
total_guards_again o f b price bound g e =
    rw e (
      g.0,
      (ground (arith, Decimal.lt_irrefl f.total, Decimal.eq_refl f.total), (ground arith, tt)),
    )

check_total_again :
    (o : Order) (p : Option Decimal) (f : Fill) (b : ℕ)
    → check_total o p f.count ≡ ok f.total
    → check_total (settle f b o) p f.count ≡ ok f.total
unfolding check_total
check_total_again o p f b h =
    let (price, bound, priced, limited, g, e) = check_total_lem o p f.count f.total h in
    let passed =
      guarded_passes (total_guards (settle f b o) f.count price bound)
        (ok (Decimal.mul price (of_ℕ f.count))) (total_guards_again o f b price bound g e) in
    rw (priced, limited) (passed ∙ ap ok e)

-- The fill that a repeated answer amounts to.
abbrev repeated : Fill → Fill
repeated f = record f { delta = f.count - f.count; delta_notional = Decimal.sub f.total f.total }

check_fill_again :
    (o : Order) (r : BrokerResult) (f : Fill) (b : ℕ)
    → check_fill o r ≡ ok f
    → check_fill (settle f b o) r ≡ ok (repeated f)
unfolding check_fill
check_fill_again o r f b h =
    let (counted, totalled, added, money) = check_fill-parts o r f h in
    rw (check_count_again o r.status r.filled_quantity f b counted)
      (rw (check_total_again o r.fill_price f b totalled))

-- The event already shows what a repeated answer would write to it.
reconciliation_again :
    (o : Order) (r : BrokerResult) (f : Fill) (b : ℕ)
    → changes_identity o.broker_id b ≡ false
    → r.id ≡ some b
    → reconciliation_of (settle f b o) f.status f.count (some (reply_of r))
      ≡ reconciliation_of o f.status f.count (some (reply_of r))
unfolding reconciliation_of changes_identity
reconciliation_again o r f b same named = elim (Option-cases o.broker_id) [
  | inl fresh ↦ rw (fresh, named)
  | inr (a, old) ↦ ground arith
]

or_else_again {ℓ} : {A : Type ℓ} (a b : Option A) → or_else (or_else a b) b ≡ or_else a b
or_else_again none none = refl
or_else_again none (some b) = refl
or_else_again (some a) b = refl

sync_order_event_again :
    (o : Order) (r : BrokerResult) (f : Fill) (b : ℕ) (s t : Store)
    → changes_identity o.broker_id b ≡ false
    → r.id ≡ some b
    → t.events ≡ (sync_order_event o f.status f.count (some (reply_of r)) s).events
    → (sync_order_event (settle f b o) f.status f.count (some (reply_of r)) t).events ≡ t.events
unfolding sync_order_event
sync_order_event_again o r f b s t same named shown = rw shown (
    update_again (λ e. e.message_id == o.message_id) _ _ s.events (λ e. refl)
      (λ e. λ i. record e {
        reason = sync_reason o f.status f.count;
        submission = or_else_again e.submission o.body.broker_submission i;
        reconciliation = some (reconciliation_again o r f b same named i);
      }))

sync_order_event-same :
    (o : Order) (st : Status) (n : ℕ) (rp : Option Reply) (s t : Store)
    → s.orders ≡ t.orders
    → s ≡ record t { orders = s.orders }
    → (sync_order_event o st n rp s).events ≡ t.events
    → sync_order_event o st n rp s ≡ t
unfolding sync_order_event
sync_order_event-same o st n rp s t orders rest events =
    ap (λ (x : Store). record x { events = (sync_order_event o st n rp s).events }) rest
    ∙ (λ i. record t { orders = orders i; events = events i })

-- The call on a row that has the answer's broker ID, where the answer adds nothing.
apply_result_nothing_new :
    (k : ℕ) (r : BrokerResult) (t : Store) (row : Order) (b : ℕ) (g : Fill)
    → find_order k t ≡ some row
    → row.broker_id ≡ some b
    → r.id ≡ some b
    → check_fill row r ≡ ok g
    → g.delta ≡ 0
    → apply_result k r t ≡ record {
      error = none;
      store =
          sync_order_event row g.status g.count
            (some (reply_of r))
            (record (update_order k (settle g b) t) { positions = t.positions });
    }
unfolding apply_result settle_result commit_fill moved_positions acknowledge changes_identity
apply_result_nothing_new k r t row b g found owned named checked nothing = ground arith

-- Applying an accepted answer a second time succeeds and changes nothing at all: no fill is counted
-- twice.
pub apply_result_idempotent :
    (k : ℕ) (r : BrokerResult) (s : Store)
    → (apply_result k r s).error ≡ none
    → let t = (apply_result k r s).store in apply_result k r t ≡ record { error = none; store = t }
apply_result_idempotent k r s h =
    let u = apply_result-Run k r s h in
    let t = (apply_result k r s).store in
    let found = apply_result-find k r s u in
    let row = settle u.fill u.broker u.row in
    let checked = check_fill_again u.row r u.fill u.broker u.checked in
    let orders = update_self (has_id k) (settle (repeated u.fill) u.broker) t.orders found refl in
    let touched = record (update_order k (settle (repeated u.fill) u.broker) t) {
      positions = t.positions;
    } in
    let first = record (update_order k (settle u.fill u.broker) (acknowledge k u.row u.broker s)) {
      positions = u.moved;
    } in
    let events =
      sync_order_event_again u.row r u.fill u.broker first touched u.same_identity u.named
        (ap (λ (x : Store). x.events) u.result) in
    apply_result_nothing_new k r t row u.broker (repeated u.fill) found refl u.named checked
      (omega arith)
    ∙ ap (λ (x : Store). record { error = none; store = x })
        (sync_order_event-same row u.fill.status u.fill.count (some (reply_of r)) touched t orders
          refl events)
