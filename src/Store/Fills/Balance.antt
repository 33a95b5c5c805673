-- ===== src/Store/Fills/Balance.antt =====
-- The positions table against the fills, over one `apply_result` (relay/core.py).
use discord_option_tailer.Base.{
  Bool-cases, List, Option-cases, arith, if◌then◌else◌, inl, inr, is_some, not, ok, refl, some,
  sum_by, sum_by-update, sum_by-update_same, ℕ, ◌&&◌, ◌+◌, ◌-◌, ◌≡◌,
}
use discord_option_tailer.Store.Fills.{
  BrokerResult, Fill, acknowledge, apply_result, average_of, bought_average, moved_position,
  moved_positions, position_row, settle,
}
use discord_option_tailer.Store.Fills.Accepted.{
  Refused, Run, apply_result-Refused, apply_result-Run,
}
use discord_option_tailer.Store.Fills.Checks.{check_fill-IsAccepted}
use discord_option_tailer.Store.Fills.Results.{acknowledge-find}
use discord_option_tailer.Store.Orders.{sync_order_event}
use discord_option_tailer.Store.Rows.{Contract, Order, Position, is_buy}
use discord_option_tailer.Store.State.{
  Store, find_position, has_id, held_quantity, order_at, update_order,
}
use discord_option_tailer.Store.State.Holdings.{
  held_quantity-put_position, order_at_iff, position_at_iff,
}

-- The contracts that a row bought or sold of one source and contract.
unfoldable pub bought : ℕ → Contract → Order → ℕ
bought g c o = if order_at g c o && is_buy o.body.side then o.filled_quantity else 0

unfoldable pub sold : ℕ → Contract → Order → ℕ
sold g c o = if order_at g c o && not (is_buy o.body.side) then o.filled_quantity else 0

-- For every source and contract, the holding and the recorded sales make up the recorded purchases.
abbrev pub IsBalanced : Store → Type 0
IsBalanced s =
    (g : ℕ) (c : Contract)
    → held_quantity g c s.positions + sum_by (sold g c) s.orders ≡ sum_by (bought g c) s.orders

-- A row that only changes in other columns keeps both sums.
acknowledge-sum :
    (m : Order → ℕ) (k : ℕ) (o : Order) (b : ℕ) (s : Store)
    → ((o' : Order) → m (record o' { broker_id = some b }) ≡ m o')
    → sum_by m (acknowledge k o b s).orders ≡ sum_by m s.orders
unfolding acknowledge
acknowledge-sum m k o b s same = elim (Bool-cases (is_some o.broker_id)) [
  | inl e ↦ rw e
  | inr e ↦
      rw e (sum_by-update_same m (has_id k) (λ o'. record o' { broker_id = some b }) s.orders same)
]

-- What an accepted fill does to the holdings.
pub moved_positions-held :
    (g : ℕ) (c : Contract) (o : Order) (f : Fill) (ps qs : List Position)
    → moved_positions o f ps ≡ ok qs
    → held_quantity g c qs + (if order_at g c o && not (is_buy o.body.side) then f.delta else 0)
      ≡ held_quantity g c ps + (if order_at g c o && is_buy o.body.side then f.delta else 0)
unfolding moved_positions moved_position
moved_positions-held g c o f ps qs h = ground (
  arith,
  order_at_iff g c o,
  held_quantity-put_position g c
      (position_row o (held_quantity o.source_group o.contract ps + f.delta) (
        bought_average (held_quantity o.source_group o.contract ps)
          (average_of (find_position o.source_group o.contract ps)) f))
      ps,
  held_quantity-put_position g c
      (position_row o (held_quantity o.source_group o.contract ps - f.delta)
        (average_of (find_position o.source_group o.contract ps)))
      ps,
  position_at_iff g c (
      position_row o (held_quantity o.source_group o.contract ps + f.delta) (
        bought_average (held_quantity o.source_group o.contract ps)
          (average_of (find_position o.source_group o.contract ps)) f)),
  position_at_iff g c (
      position_row o (held_quantity o.source_group o.contract ps - f.delta)
        (average_of (find_position o.source_group o.contract ps))),
)

-- The sum of a measure of the rows after an accepted answer, which replaces one row.
apply_result-sum :
    (m : Order → ℕ) (k : ℕ) (r : BrokerResult) (s : Store) (u : Run k r s)
    → ((b : ℕ) (o : Order) → m (record o { broker_id = some b }) ≡ m o)
    → sum_by m (apply_result k r s).store.orders + m u.row
      ≡ sum_by m s.orders + m (settle u.fill u.broker u.row)
unfolding sync_order_event
apply_result-sum m k r s u same =
    let kept = acknowledge-find k u.broker s u.found u.same_identity in
    let replaced =
      sum_by-update m (has_id k) (settle u.fill u.broker) (acknowledge k u.row u.broker s).orders
        kept in
    let before = acknowledge-sum m k u.row u.broker s (same u.broker) in
    rw u.result (omega (arith, replaced, before, same u.broker u.row))

bought_same :
    (g : ℕ) (c : Contract) (b : ℕ) (o : Order)
    → bought g c (record o { broker_id = some b }) ≡ bought g c o
unfolding bought order_at
bought_same g c b o = refl

sold_same :
    (g : ℕ) (c : Contract) (b : ℕ) (o : Order)
    → sold g c (record o { broker_id = some b }) ≡ sold g c o
unfolding sold order_at
sold_same g c b o = refl

-- An answer whose fill grows by `delta` raises the row's purchase or its sale by `delta`.
bought-settle :
    (g : ℕ) (c : Contract) (o : Order) (f : Fill) (b : ℕ)
    → f.delta + o.filled_quantity ≡ f.count
    → bought g c (settle f b o)
      ≡ bought g c o + (if order_at g c o && is_buy o.body.side then f.delta else 0)
unfolding bought order_at
bought-settle g c o f b h = ground arith

sold-settle :
    (g : ℕ) (c : Contract) (o : Order) (f : Fill) (b : ℕ)
    → f.delta + o.filled_quantity ≡ f.count
    → sold g c (settle f b o)
      ≡ sold g c o + (if order_at g c o && not (is_buy o.body.side) then f.delta else 0)
unfolding sold order_at
sold-settle g c o f b h = ground arith

accepted-IsBalanced :
    (k : ℕ) (r : BrokerResult) (s : Store)
    → Run k r s
    → IsBalanced s
    → IsBalanced (apply_result k r s).store
unfolding sync_order_event
accepted-IsBalanced k r s u h g c =
    let facts = check_fill-IsAccepted u.row r u.fill u.checked in
    let held = moved_positions-held g c u.row u.fill s.positions u.moved u.moved_lem in
    let buys = apply_result-sum (bought g c) k r s u (bought_same g c) in
    let sales = apply_result-sum (sold g c) k r s u (sold_same g c) in
    let more_bought = bought-settle g c u.row u.fill u.broker facts.delta_lem in
    let more_sold = sold-settle g c u.row u.fill u.broker facts.delta_lem in
    let same : (apply_result k r s).store.positions ≡ u.moved = rw u.result in
    rw same (omega (arith, held, buys, sales, more_bought, more_sold, h g c))

update_broker-sum :
    (m : Order → ℕ) (k b : ℕ) (s : Store)
    → ((o : Order) → m (record o { broker_id = some b }) ≡ m o)
    → sum_by m (update_order k (λ o. record o { broker_id = some b }) s).orders ≡ sum_by m s.orders
update_broker-sum m k b s same =
    sum_by-update_same m (has_id k) (λ o. record o { broker_id = some b }) s.orders same

Refused-IsBalanced :
    (k : ℕ) (r : BrokerResult) (s t : Store) → Refused k r s t → IsBalanced s → IsBalanced t
Refused-IsBalanced k r s t (inl e) h = rw e h
Refused-IsBalanced k r s t (inr (o, b, found, named, fresh, e)) h = λ g c.
    rw
      (
        e,
        update_broker-sum (bought g c) k b s (bought_same g c b),
        update_broker-sum (sold g c) k b s (sold_same g c b),
      )
      (h g c)

-- Whatever the broker answers, and however often, `apply_result` keeps every holding the net of the
-- recorded fills: purchases less sales, for each source and contract.
pub apply_result-IsBalanced :
    (k : ℕ) (r : BrokerResult) (s : Store) → IsBalanced s → IsBalanced (apply_result k r s).store
apply_result-IsBalanced k r s h = elim (Option-cases (apply_result k r s).error) [
  | inl accepted_all ↦ accepted-IsBalanced k r s (apply_result-Run k r s accepted_all) h
  | inr (e, refused) ↦
      Refused-IsBalanced k r s (apply_result k r s).store (apply_result-Refused k r s refused) h
]
