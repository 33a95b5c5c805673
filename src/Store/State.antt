-- ===== src/Store/State.antt =====
-- The ledger's tables as one value, and the queries over orders and positions that
-- class Store of relay/core.py makes.
pub mod Holdings
pub mod Keys
use discord_option_tailer.Base.{
  Bool, List, Option, [], false, find, if◌then◌else◌, length, ltb, none, not, select, some, true,
  update, ℕ, ◌&&◌, ◌==◌, ◌∷◌,
}
use discord_option_tailer.Store.Rows.{
  Contract, Event, Order, OrderType, Position, Status, StopRequest, is_entry, is_stop_market,
  is_terminal, is_update_stop, opened, partially_filled, same_contract,
}

-- `messages`. IDs are Discord snowflakes, which the code orders as numbers. `media` stands for the
-- attachments and embeds, and `declares` says whether `_declaration_text` of relay/entry_rules.py
-- reads an entry declaration in the text.
pub record Message : Type 0 where
  pub id : ℕ
  pub channel_id : ℕ
  pub author_id : ℕ
  pub source_group : ℕ
  pub timestamp : ℕ
  pub edited_timestamp : Option ℕ
  pub revision : ℕ
  pub content : ℕ
  pub transport_revision : Option ℕ
  pub media : ℕ
  pub reply_to : Option ℕ
  pub declares : Bool

pub data AttemptState : Type 0 where
  under_evaluation accepted finished interrupted : AttemptState

-- `evaluation_attempts`
pub record Attempt : Type 0 where
  pub message_id : ℕ
  pub revision : ℕ
  pub attempt_id : ℕ
  pub source_group : ℕ
  pub source_generation : ℕ
  pub position_generation : ℕ
  pub state : AttemptState

-- `signal_episodes`
pub record Episode : Type 0 where
  pub message_id : ℕ
  pub source_group : ℕ
  pub channel_id : ℕ
  pub author_id : ℕ
  pub timestamp : ℕ
  pub revision : ℕ

pub record Store : Type 0 where
  pub messages : List Message
  pub generations : List (ℕ × ℕ)
  pub events : List Event
  pub attempts : List Attempt
  pub orders : List Order
  pub positions : List Position
  pub stop_requests : List StopRequest
  pub episodes : List Episode

-- WHERE id=?
abbrev pub has_id : ℕ → Order → Bool
has_id k o = o.id == k

abbrev pub find_order : ℕ → Store → Option Order
find_order k s = find (has_id k) s.orders

abbrev pub update_order : ℕ → (Order → Order) → Store → Store
update_order k f s = record s { orders = update (has_id k) f s.orders }

-- WHERE source_group=? AND contract=?
unfoldable pub position_at : ℕ → Contract → Position → Bool
position_at g c p = p.source_group == g && same_contract p.contract c

unfoldable pub order_at : ℕ → Contract → Order → Bool
order_at g c o = o.source_group == g && same_contract o.contract c

abbrev pub find_position : ℕ → Contract → List Position → Option Position
find_position g c ps = find (position_at g c) ps

-- INSERT OR REPLACE INTO positions: the row that it replaces is deleted, and the new one comes first.
unfoldable pub drop_position : ℕ → Contract → List Position → List Position
drop_position g c [] = []
drop_position g c (q ∷ ps) =
    let rest = drop_position g c ps in if position_at g c q then rest else q ∷ rest

unfoldable pub put_position : Position → List Position → List Position
put_position p ps = p ∷ drop_position p.source_group p.contract ps

-- The quantity that the ledger holds for a source and contract: 0 where there is no row.
unfoldable pub held_quantity : ℕ → Contract → List Position → ℕ
held_quantity g c [] = 0
held_quantity g c (p ∷ ps) = if position_at g c p then p.quantity else held_quantity g c ps

abbrev pub is_standing : Status → Bool
is_standing opened = true
is_standing partially_filled = true
is_standing _ = false

abbrev pub is_stop_order : Option OrderType → Bool
is_stop_order none = false
is_stop_order (some t) = is_stop_market t

-- A protective stop that stands at the broker.
unfoldable pub is_standing_stop : Order → Bool
is_standing_stop o =
    is_update_stop o.action && (is_stop_order o.body.order_type && is_standing o.status)

-- The WHERE clause of `unresolved`.
unfoldable pub blocks_orders : Order → Bool
blocks_orders o = not (is_terminal o.status) && not (is_standing_stop o)

-- `Store.unresolved`
unfoldable pub unresolved : Store → ℕ
unresolved s = length (select blocks_orders s.orders)

-- `Store.positions`
unfoldable pub positions : Store → List Position
positions s = select (λ p. ltb 0 p.quantity) s.positions

-- The latest entry of a source and contract that acquired contracts.
unfoldable pub is_acquired_entry : ℕ → Contract → Order → Bool
is_acquired_entry g c o = order_at g c o && (is_entry o.action && ltb 0 o.filled_quantity)

abbrev pub latest_entry : ℕ → Contract → Store → Option Order
latest_entry g c s = find (is_acquired_entry g c) s.orders
