-- ===== src/Store/Fills.antt =====
-- `Store.apply_result` of relay/core.py: the cumulative fills of an order, as the broker reports them
-- over partial fills and repeated reconciliations.
pub mod Checks
pub mod Accepted
pub mod Results
pub mod Repeats
pub mod Balance
use discord_option_tailer.Base.Decimal
use discord_option_tailer.Base.{
  Bool, Except, List, Option, [], false, guarded, if◌then◌else◌, is_some, leb, ltb, none, not, ok,
  raise, some, suc, zero, ℕ, ◌&&◌, ◌+◌, ◌-◌, ◌==◌, ◌>>=◌, ◌>>◌, ◌||◌, ◌∷◌,
}
use discord_option_tailer.Base.Decimal.{Decimal, is_zero, of_ℕ}
use discord_option_tailer.Store.Orders.{Reply, sync_order_event}
use discord_option_tailer.Store.Rows.{
  Order, Position, Side, Status, Submission, buy, is_buy, is_closing, is_filled, is_market,
  is_reported, is_terminal, is_update_stop, same_status, sell,
}
use discord_option_tailer.Store.State.{
  Store, find_order, find_position, held_quantity, put_position, update_order,
}

-- What the broker's answer says. `id` is `none` where it is missing, empty or no text; `status` where
-- it is a text that names no status; `filled_quantity` where it is no int or a negative one, which
-- one test refuses together; `fill_price` where `money` refuses the value.
pub record BrokerResult : Type 0 where
  pub id : Option ℕ
  pub status : Option Status
  pub filled_quantity : Option ℕ
  pub fill_price : Option Decimal
  pub words : Submission

pub data FillError : Type 0 where
  no_such_row broker_id_missing identity_changed status_unknown quantity_invalid : FillError
  filled_mismatch terminal_changed invalid_money violates_limit inconsistent_fill : FillError
  increment_violates_limit oversold : FillError

-- What an accepted answer adds to the row.
pub record Fill : Type 0 where
  pub status : Status
  pub count : ℕ
  pub total : Decimal
  pub delta : ℕ
  pub delta_notional : Decimal

-- `money(value, positive=True)`
unfoldable pub positive_price : Option Decimal → Except FillError Decimal
positive_price none = raise invalid_money
positive_price (some d) = if is_zero d then raise invalid_money else ok d

-- `money(fill_price, positive=True) if count else Decimal(0)`
unfoldable pub price_of_fill : ℕ → Option Decimal → Except FillError Decimal
unfolding positive_price
price_of_fill zero p = ok (of_ℕ 0)
price_of_fill (suc n) p = positive_price p

-- A protective stop of this relay that sells at the market has no limit to hold.
unfoldable pub is_market_stop : Order → Bool
is_market_stop o =
    is_update_stop o.action
    && ((elim o.body.order_type [ some t ↦ is_market t | none ↦ false ])
        && (not (is_buy o.body.side) && is_closing o.body.position_effect))

unfoldable pub limit_of : Order → Except FillError (Option Decimal)
unfolding is_market_stop positive_price
limit_of o =
    if is_market_stop o
    then ok none
    else (do cap_price ← positive_price o.body.limit_price; ok (some cap_price))

-- A buy above its limit, or a sale below it.
unfoldable pub breaks_limit : Side → Option Decimal → Decimal → Bool
breaks_limit side none price = false
breaks_limit buy (some cap_price) price = Decimal.lt cap_price price
breaks_limit sell (some cap_price) price = Decimal.lt price cap_price

-- The four ways in which a cumulative report contradicts the row: less money than before, money
-- without contracts, contracts without money.
unfoldable pub is_inconsistent : ℕ → Decimal → Decimal → Bool
is_inconsistent delta total before =
    Decimal.lt total before
    || (if delta == 0 then not (Decimal.eq total before) else Decimal.eq total before)

-- The checks between the acknowledgement and the transaction, in the code's order: first those of
-- the status and the count.
unfoldable pub count_guards : Order → Status → ℕ → List (Bool × FillError)
count_guards o st count =
    (not (is_reported st), status_unknown)
    ∷ (not (leb o.filled_quantity count && leb count o.body.quantity), quantity_invalid)
    ∷ (is_filled st && not (count == o.body.quantity), filled_mismatch)
    ∷ (
      is_terminal o.status && (not (same_status st o.status) || not (count == o.filled_quantity)),
      terminal_changed,
    )
    ∷ []

unfoldable pub check_count : Order → Option Status → Option ℕ → Except FillError (Status × ℕ)
check_count o none n = raise status_unknown
check_count o (some st) none = raise (if is_reported st then quantity_invalid else status_unknown)
check_count o (some st) (some count) = guarded (count_guards o st count) (ok (st, count))

-- Then those of the money, for `count` contracts filled in all at `price`.
unfoldable pub total_guards : Order → ℕ → Decimal → Option Decimal → List (Bool × FillError)
total_guards o count price bound =
    let total = Decimal.mul price (of_ℕ count) in
    let delta = count - o.filled_quantity in
    (not (count == 0) && breaks_limit o.body.side bound price, violates_limit)
    ∷ (is_inconsistent delta total o.filled_notional, inconsistent_fill)
    ∷ (
      not (delta == 0)
          && breaks_limit o.body.side bound
              (Decimal.div (Decimal.sub total o.filled_notional) (of_ℕ delta)),
      increment_violates_limit,
    )
    ∷ []

unfoldable pub check_total : Order → Option Decimal → ℕ → Except FillError Decimal
unfolding price_of_fill limit_of
check_total o reported count = do
  price ← price_of_fill count reported
  bound ← limit_of o
  guarded (total_guards o count price bound) (ok (Decimal.mul price (of_ℕ count)))

unfoldable pub check_fill : Order → BrokerResult → Except FillError Fill
check_fill o r = do
  (st, count) ← check_count o r.status r.filled_quantity
  total ← check_total o r.fill_price count
  ok (record {
    status = st;
    count = count;
    total = total;
    delta = count - o.filled_quantity;
    delta_notional = Decimal.sub total o.filled_notional;
  })

abbrev average_of : Option Position → Decimal
average_of none = of_ℕ 0
average_of (some p) = p.average_price

abbrev position_row : Order → ℕ → Decimal → Position
position_row o n average = record {
  source_group = o.source_group;
  contract = o.contract;
  quantity = n;
  average_price = average;
}

-- `(qty * average + delta_notional) / (qty + delta)`
unfoldable pub bought_average : ℕ → Decimal → Fill → Decimal
bought_average qty average f =
    Decimal.div (Decimal.add (Decimal.mul (of_ℕ qty) average) f.delta_notional)
      (of_ℕ (qty + f.delta))

-- The position's new row. A buy averages its cost; a sale may not exceed what is held.
unfoldable pub moved_position : Order → Fill → List Position → Except FillError Position
moved_position o f ps =
    let qty = held_quantity o.source_group o.contract ps in
    let average = average_of (find_position o.source_group o.contract ps) in
    if is_buy o.body.side
    then ok (position_row o (qty + f.delta) (bought_average qty average f))
    else if ltb qty f.delta
    then raise oversold
    else ok (position_row o (qty - f.delta) average)

unfoldable pub moved_positions : Order → Fill → List Position → Except FillError (List Position)
unfolding moved_position
moved_positions o f ps =
    if f.delta == 0 then ok ps else (do p ← moved_position o f ps; ok (put_position p ps))

abbrev pub settle : Fill → ℕ → Order → Order
settle f b o = record o {
  status = f.status;
  broker_id = some b;
  filled_quantity = f.count;
  filled_notional = f.total;
}

abbrev pub reply_of : BrokerResult → Reply
reply_of r = record { id = r.id; words = r.words; fill_price = r.fill_price }

-- The transaction at the end.
unfoldable pub commit_fill : ℕ → Order → BrokerResult → ℕ → Fill → Store → Except FillError Store
unfolding moved_positions
commit_fill k o r b f s = do
  ps ← moved_positions o f s.positions
  ok (
      sync_order_event o f.status f.count (some (reply_of r))
        (record (update_order k (settle f b) s) { positions = ps }))

-- The first transaction: a broker ID that is new is kept, whatever the rest of the answer is worth.
unfoldable pub acknowledge : ℕ → Order → ℕ → Store → Store
acknowledge k o b s =
    if is_some o.broker_id then s else update_order k (λ o'. record o' { broker_id = some b }) s

unfoldable pub changes_identity : Option ℕ → ℕ → Bool
changes_identity none b = false
changes_identity (some a) b = not (a == b)

-- What the call raises, if anything, and the store that it leaves behind.
pub record Applied : Type 0 where
  pub error : Option FillError
  pub store : Store

abbrev finish_apply : Store → Except FillError Store → Applied
finish_apply s (ok t) = record { error = none; store = t }
finish_apply s (raise e) = record { error = some e; store = s }

unfoldable pub settle_result : ℕ → Order → BrokerResult → ℕ → Store → Applied
settle_result k o r b s =
    if changes_identity o.broker_id b
    then record { error = some identity_changed; store = s }
    else let kept = acknowledge k o b s in
      finish_apply kept (do f ← check_fill o r; commit_fill k o r b f kept)

unfoldable pub apply_result : ℕ → BrokerResult → Store → Applied
unfolding settle_result
apply_result k r s = elim (find_order k s) [
  | none ↦ record { error = some no_such_row; store = s }
  | some o ↦ elim r.id [
    | none ↦ record { error = some broker_id_missing; store = s }
    | some b ↦ settle_result k o r b s
  ]
]
