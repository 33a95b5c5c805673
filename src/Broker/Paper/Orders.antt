-- ===== src/Broker/Paper/Orders.antt =====
-- The orders of `PaperBroker` (relay/broker.py): `restore_positions`, `submit`, `order_status` and
-- `cancel_order`.
pub mod Covered
pub mod Repeated
use discord_option_tailer.Base.Decimal
use discord_option_tailer.Base.{
  Bool, Except, List, Option, [], false, find, if◌then◌else◌, ltb, need, none, not, ok, raise,
  raise_if, same_option, some, sum_by, true, update, ℕ, ◌&&◌, ◌++◌, ◌+◌, ◌-◌, ◌==◌, ◌>>=◌, ◌>>◌,
  ◌||◌, ◌∷◌,
}
use discord_option_tailer.Base.Decimal.{Decimal, is_zero, of_ℕ}
use discord_option_tailer.Broker.Paper.Quotes.{
  Fixture, PaperError, bad_contract, bad_identity, bad_limit_terms, bad_market_terms, bad_price,
  bad_sides, bad_stop_terms, bad_type, closed_or_untradable, exceeds_holdings, no_buying_power,
  no_such_order, not_the_order, quote, reused_identity,
}
use discord_option_tailer.Store.Rows.{
  Contract, Effect, Side, buy, closing, is_buy, is_closing, opening, same_contract, sell,
}

pub data PaperType : Type 0 where
  limit_order market_order stop_order other_order : PaperType

pub data Tif : Type 0 where
  gfd gtc other_tif : Tif

-- A price field of an order: missing or null, unreadable, or a value that is not negative.
pub data Field : Type 0 where
  unset unreadable : Field
  value : Decimal → Field

pub record PaperRequest : Type 0 where
  pub id : Option ℕ
  pub contract : Option Contract
  pub quantity : ℕ
  pub side : Side
  pub effect : Effect
  pub order_type : PaperType
  pub limit_price : Field
  pub stop_price : Field
  pub time_in_force : Option Tif

-- `order_body`
pub record PaperBody : Type 0 where
  pub contract : Contract
  pub side : Side
  pub effect : Effect
  pub quantity : ℕ
  pub order_type : PaperType
  pub limit_price : Option Decimal
  pub stop_price : Option Decimal
  pub time_in_force : Tif

pub data PaperStatus : Type 0 where
  resting_order filled_order canceled_order : PaperStatus

-- What `submit` answers and `orders` keeps, with its body, which `order_bodies` has under the same ID.
-- `resting_order` is "open", `filled_order` is "filled" and `canceled_order` is "canceled".
pub record PaperOrder : Type 0 where
  pub id : ℕ
  pub body : PaperBody
  pub status : PaperStatus
  pub filled_quantity : ℕ
  pub fill_price : Option Decimal

pub record Holding : Type 0 where
  pub contract : Contract
  pub quantity : ℕ
  pub average_price : Decimal

-- The buying power may fall below 0 by the fees of a sale, so it is what came in less what went out.
pub record PaperBroker : Type 0 where
  pub income : Decimal
  pub outlay : Decimal
  pub fee_reserve : Decimal
  pub market_open : Bool
  pub fixtures : Option (List Fixture)
  pub positions : List Holding
  pub orders : List PaperOrder

-- A row of `restore_positions`, added to the holdings so far.
unfoldable pub add_holding : Holding → List Holding → List Holding
add_holding p [] = p ∷ []
add_holding p (h ∷ hs) =
    if same_contract h.contract p.contract
    then record h {
      quantity = h.quantity + p.quantity;
      average_price =
          Decimal.div
            (Decimal.add (Decimal.mul h.average_price (of_ℕ h.quantity))
              (Decimal.mul p.average_price (of_ℕ p.quantity)))
            (of_ℕ (h.quantity + p.quantity));
    }
      ∷ hs
    else h ∷ add_holding p hs

unfoldable pub merge : List Holding → List Holding → List Holding
merge [] hs = hs
merge (p ∷ ps) hs = merge ps (if p.quantity == 0 then hs else add_holding p hs)

-- `restore_positions`, for rows that are whole long contracts at a readable price.
unfoldable pub restore_positions : List Holding → List Holding
restore_positions ps = merge ps []

abbrev pub is_opening : PaperRequest → Bool
is_opening r = is_buy r.side && not (is_closing r.effect)

abbrev pub is_sale : PaperRequest → Bool
is_sale r = not (is_buy r.side) && is_closing r.effect

abbrev pub is_unset : Field → Bool
is_unset unset = true
is_unset _ = false

abbrev pub is_day : Option Tif → Bool
is_day none = true
is_day (some gfd) = true
is_day _ = false

abbrev pub is_gtc : Option Tif → Bool
is_gtc (some gtc) = true
is_gtc _ = false

-- `_decimal(...)` and the test that it is not 0.
abbrev pub price_in : Field → Except PaperError Decimal
price_in (value d) = if is_zero d then raise bad_price else ok d
price_in _ = raise bad_price

-- The limit and the stop price, by the type of the order.
unfoldable pub prices_of :
    PaperRequest → PaperType → Except PaperError (Option Decimal × Option Decimal)
prices_of r limit_order = do
  raise_if (not (is_day r.time_in_force) || not (is_unset r.stop_price)) bad_limit_terms
  p ← price_in r.limit_price
  ok (some p, none)
prices_of r market_order = do
  raise_if (not (is_sale r) || (not (is_unset r.limit_price) || not (is_unset r.stop_price)))
      bad_market_terms
  raise_if (not (is_day r.time_in_force)) bad_market_terms
  ok (none, none)
prices_of r stop_order = do
  raise_if (not (is_sale r) || not (is_unset r.limit_price)) bad_stop_terms
  raise_if (not (is_gtc r.time_in_force)) bad_stop_terms
  p ← price_in r.stop_price
  ok (none, some p)
prices_of r other_order = raise bad_type

unfoldable pub body_of : PaperRequest → Except PaperError (ℕ × PaperBody)
body_of r = do
  k ← need r.id bad_identity
  raise_if (r.quantity == 0 || not (is_opening r || is_sale r)) bad_sides
  (bound, stop) ← prices_of r r.order_type
  c ← need r.contract bad_contract
  ok (
    k,
    record {
      contract = c;
      side = r.side;
      effect = r.effect;
      quantity = r.quantity;
      order_type = r.order_type;
      limit_price = bound;
      stop_price = stop;
      time_in_force = elim r.time_in_force [ none ↦ gfd | some t ↦ t ];
    },
  )

abbrev pub same_price : Option Decimal → Option Decimal → Bool
same_price none none = true
same_price (some a) (some b) = Decimal.eq a b
same_price _ _ = false

abbrev pub same_side : Side → Side → Bool
same_side buy buy = true
same_side sell sell = true
same_side _ _ = false

abbrev pub same_effect : Effect → Effect → Bool
same_effect opening opening = true
same_effect closing closing = true
same_effect _ _ = false

abbrev pub same_type : PaperType → PaperType → Bool
same_type limit_order limit_order = true
same_type market_order market_order = true
same_type stop_order stop_order = true
same_type other_order other_order = true
same_type _ _ = false

abbrev pub same_tif : Tif → Tif → Bool
same_tif gfd gfd = true
same_tif gtc gtc = true
same_tif other_tif other_tif = true
same_tif _ _ = false

-- Equality of two bodies as dictionaries; prices are equal as numbers.
unfoldable pub same_body : PaperBody → PaperBody → Bool
same_body a b =
    same_contract a.contract b.contract
    && (same_side a.side b.side
        && (same_effect a.effect b.effect
            && (a.quantity == b.quantity
                && (same_type a.order_type b.order_type
                    && (same_price a.limit_price b.limit_price
                        && (same_price a.stop_price b.stop_price
                            && same_tif a.time_in_force b.time_in_force))))))

abbrev pub is_order : ℕ → PaperOrder → Bool
is_order k o = o.id == k

abbrev pub is_resting : PaperStatus → Bool
is_resting resting_order = true
is_resting _ = false

-- The contracts that a resting sale still has to sell.
unfoldable pub reserved_by : Contract → PaperOrder → ℕ
reserved_by c o =
    if same_contract o.body.contract c
      && (not (is_buy o.body.side) && (is_closing o.body.effect && is_resting o.status))
    then o.body.quantity - o.filled_quantity
    else 0

abbrev pub reserved_quantity : Contract → List PaperOrder → ℕ
reserved_quantity c os = sum_by (reserved_by c) os

abbrev pub is_held : Contract → Holding → Bool
is_held c h = same_contract h.contract c

unfoldable pub check_holdings : PaperBody → PaperBroker → Except PaperError (Unit {0})
check_holdings b p = if is_buy b.side then ok tt else elim (find (is_held b.contract) p.positions) [
  | none ↦ raise exceeds_holdings
  | some h ↦
      raise_if (ltb h.quantity (b.quantity + reserved_quantity b.contract p.orders))
        exceeds_holdings
]

abbrev pub kept : ℕ → PaperBody → PaperStatus → ℕ → Option Decimal → PaperOrder
kept k b status count price = record {
  id = k;
  body = b;
  status = status;
  filled_quantity = count;
  fill_price = price;
}

abbrev pub with_order : PaperOrder → PaperBroker → PaperBroker
with_order o p = record p { orders = o ∷ p.orders }

-- A market order crosses at once, a limit order where the quote reaches it.
unfoldable pub crosses : PaperBody → Decimal → Bool
crosses b price = elim b.limit_price [
  | none ↦ true
  | some bound ↦ if is_buy b.side then Decimal.le price bound else Decimal.le bound price
]

-- The first holding of the contract loses what is sold, and goes when it is empty.
unfoldable pub sell_from : Contract → ℕ → List Holding → List Holding
sell_from c n [] = []
sell_from c n (h ∷ hs) =
    if is_held c h
    then (if h.quantity - n == 0 then hs else record h { quantity = h.quantity - n } ∷ hs)
    else h ∷ sell_from c n hs

abbrev pub hundred_times : Decimal → ℕ → Decimal
hundred_times price n = Decimal.mul (Decimal.mul price (of_ℕ n)) (of_ℕ 100)

unfoldable pub fill_buy : PaperBody → Decimal → PaperBroker → Except PaperError PaperBroker
fill_buy b price p =
    let cost =
      Decimal.add (hundred_times price b.quantity) (Decimal.mul p.fee_reserve (of_ℕ b.quantity)) in
    if Decimal.lt p.income (Decimal.add cost p.outlay)
    then raise no_buying_power
    else ok (record p {
      outlay = Decimal.add cost p.outlay;
      positions = restore_positions (
          p.positions
          ++ record { contract = b.contract; quantity = b.quantity; average_price = price } ∷ []);
    })

unfoldable pub fill_sale : PaperBody → Decimal → PaperBroker → PaperBroker
fill_sale b price p = record p {
  income = Decimal.add (hundred_times price b.quantity) p.income;
  outlay = Decimal.add (Decimal.mul p.fee_reserve (of_ℕ b.quantity)) p.outlay;
  positions = sell_from b.contract b.quantity p.positions;
}

unfoldable pub fill : PaperBody → Decimal → PaperBroker → Except PaperError PaperBroker
fill b price p = if is_buy b.side then fill_buy b price p else ok (fill_sale b price p)

-- A new order: a stop rests, and the others fill whole or rest.
unfoldable pub place : ℕ → PaperBody → PaperBroker → Except PaperError (PaperOrder × PaperBroker)
place k b p = do
  check_holdings b p
  q ← quote p.fixtures b.contract
  raise_if (not p.market_open || not q.tradable) closed_or_untradable
  let price = if is_buy b.side then q.ask else q.bid
  let rests = kept k b resting_order 0 none
  if same_type b.order_type stop_order || not (crosses b price)
      then ok (rests, with_order rests p)
      else fill b price p >>= (λ filled_broker.
        let o = kept k b filled_order b.quantity (some price) in ok (o, with_order o filled_broker))

-- `submit`. An ID that is known gives the stored answer, for the same details only.
unfoldable pub submit : PaperRequest → PaperBroker → Except PaperError (PaperOrder × PaperBroker)
submit r p = do
  (k, b) ← body_of r
  elim (find (is_order k) p.orders) [
    | some o ↦ if same_body b o.body then ok (o, p) else raise reused_identity
    | none ↦ place k b p
  ]

-- The persisted order that a status read has to fit: `none` for a kind, a quantity or a price that the
-- code cannot read, and for a contract that is not given.
pub record Expected : Type 0 where
  pub kind : Option PaperType
  pub quantity : Option ℕ
  pub contract : Option Contract
  pub stop_price : Option Decimal

abbrev pub is_kind : PaperType → Option PaperType → Bool
is_kind t none = false
is_kind t (some u) = same_type t u

abbrev pub is_contract_of : Contract → Option Contract → Bool
is_contract_of c none = true
is_contract_of c (some e) = same_contract e c

unfoldable pub fits : Expected → PaperBody → Bool
fits e b =
    is_kind b.order_type e.kind
    && (same_option e.quantity (some b.quantity)
        && (is_contract_of b.contract e.contract
            && (not (same_type b.order_type stop_order) || same_price e.stop_price b.stop_price)))

-- `order_status`
unfoldable pub order_status : ℕ → Option Expected → PaperBroker → Except PaperError PaperOrder
order_status k expected p = do
  o ← need (find (is_order k) p.orders) no_such_order
  raise_if (elim expected [ none ↦ false | some e ↦ not (fits e o.body) ]) not_the_order
  ok o

-- `cancel_order`: only a resting order changes.
unfoldable pub cancel_order :
    ℕ → Option ℕ → Option Expected → PaperBroker → Except PaperError (PaperOrder × PaperBroker)
cancel_order k broker_id expected p = do
  raise_if (elim broker_id [ none ↦ false | some b ↦ not (b == k) ]) no_such_order
  o ← order_status k expected p
  if is_resting o.status
      then ok (
        record o { status = canceled_order },
        record p {
          orders = update (is_order k) (λ x. record x { status = canceled_order }) p.orders;
        },
      )
      else ok (o, p)
