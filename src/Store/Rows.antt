-- ===== src/Store/Rows.antt =====
-- The rows of the tables that `Store.__init__` of relay/core.py creates, and the JSON bodies that
-- the code keeps in them. Identifiers, source groups and revisions are only compared, so they are
-- numbers; times are microseconds. A table that the code reads with `ORDER BY rowid DESC` or
-- `ORDER BY id DESC` is a list with its newest row first. A primary key fits one row at most.
use discord_option_tailer.Base.{Bool, List, Option, arith, false, true, ℕ, ◌&&◌, ◌==◌, ◌↔◌, ◌≡◌}
use discord_option_tailer.Base.Decimal.{Decimal}

-- `orders.status`. `opened` is "open".
pub data Status : Type 0 where
  submitting submitted opened partially_filled pending unknown : Status
  filled canceled rejected expired : Status

-- `TERMINAL`
abbrev pub is_terminal : Status → Bool
is_terminal filled = true
is_terminal canceled = true
is_terminal rejected = true
is_terminal expired = true
is_terminal _ = false

abbrev pub is_filled : Status → Bool
is_filled filled = true
is_filled _ = false

abbrev pub is_submitting : Status → Bool
is_submitting submitting = true
is_submitting _ = false

-- The status texts that `apply_result` accepts from the broker.
abbrev pub is_reported : Status → Bool
is_reported submitting = false
is_reported unknown = false
is_reported _ = true

abbrev pub same_status : Status → Status → Bool
same_status submitting submitting = true
same_status submitted submitted = true
same_status opened opened = true
same_status partially_filled partially_filled = true
same_status pending pending = true
same_status unknown unknown = true
same_status filled filled = true
same_status canceled canceled = true
same_status rejected rejected = true
same_status expired expired = true
same_status _ _ = false

pub same_status_iff : (s t : Status) → (same_status s t ≡ true) ↔ (s ≡ t)
same_status_iff s t = ground arith

-- A decision's action. `entry` is "OPEN".
pub data Action : Type 0 where
  entry reduce close update_stop ignore wait : Action

abbrev pub is_entry : Action → Bool
is_entry entry = true
is_entry _ = false

abbrev pub is_update_stop : Action → Bool
is_update_stop update_stop = true
is_update_stop _ = false

-- REDUCE or CLOSE
abbrev pub is_exit : Action → Bool
is_exit reduce = true
is_exit close = true
is_exit _ = false

pub data Side : Type 0 where
  buy sell : Side

abbrev pub is_buy : Side → Bool
is_buy buy = true
is_buy sell = false

pub data Effect : Type 0 where
  opening closing : Effect

abbrev pub is_closing : Effect → Bool
is_closing closing = true
is_closing opening = false

pub data OrderType : Type 0 where
  limit market stop_market : OrderType

abbrev pub is_stop_market : OrderType → Bool
is_stop_market stop_market = true
is_stop_market _ = false

abbrev pub is_market : OrderType → Bool
is_market limit = false
is_market _ = true

pub data OptionType : Type 0 where
  call put : OptionType

abbrev pub same_option_type : OptionType → OptionType → Bool
same_option_type call call = true
same_option_type put put = true
same_option_type _ _ = false

-- A canonical contract. Its strike is in lowest terms (`Decimal.normalize`), so `contract_key`,
-- the JSON text of a canonical contract, is equal for two contracts when the fields are.
pub record Contract : Type 0 where
  pub symbol : ℕ
  pub expiry : ℕ
  pub strike : Decimal
  pub option_type : OptionType

unfoldable pub same_contract : Contract → Contract → Bool
same_contract a b =
    a.symbol == b.symbol
    && (a.expiry == b.expiry
        && (a.strike.num == b.strike.num
            && (a.strike.den_pred == b.strike.den_pred
                && same_option_type a.option_type b.option_type)))

pub same_contract_iff : (a b : Contract) → (same_contract a b ≡ true) ↔ (a ≡ b)
unfolding same_contract
same_contract_iff a b = ground arith

-- A text by its code points.
abbrev pub Text : Type 0
Text = List ℕ

-- `broker_submission`: the broker's last words on the submitted order. `none` is a missing key.
pub record Submission : Type 0 where
  pub broker_state : Option Text
  pub status_recognized : Option Bool

-- The five keys of the cancellation evidence, by the value each holds.
pub record Cancellation : Type 0 where
  pub cancel_reason : Option ℕ
  pub cancel_requested_at : Option ℕ
  pub entry_cancel_at : Option ℕ
  pub cancel_result_status : Option ℕ
  pub cancel_result_broker_state : Option ℕ

-- `entry_cancel_after_seconds` in microseconds, if the key is there and holds a number.
pub data Window : Type 0 where
  absent malformed : Window
  lasting : ℕ → Window

-- The JSON of `orders.body`. `limit_price` is `none` where `money` refuses the value, and
-- `broker_submission` is `none` where it is missing, empty or no object.
pub record Body : Type 0 where
  pub side : Side
  pub position_effect : Effect
  pub quantity : ℕ
  pub limit_price : Option Decimal
  pub order_type : Option OrderType
  pub prepared_entry : Bool
  pub cancel_window : Window
  pub cancellation : Cancellation
  pub broker_submission : Option Submission
  pub signal_fingerprint : Option ℕ
  pub requested_stop : Option Decimal

pub record Order : Type 0 where
  pub id : ℕ
  pub message_id : ℕ
  pub source_group : ℕ
  pub contract : Contract
  pub action : Action
  pub body : Body
  pub status : Status
  pub broker_id : Option ℕ
  pub created_at : ℕ
  pub filled_quantity : ℕ
  pub filled_notional : Decimal

pub record Position : Type 0 where
  pub source_group : ℕ
  pub contract : Contract
  pub quantity : ℕ
  pub average_price : Decimal

-- `order_reconciliation` of an event's decision.
pub record Reconciliation : Type 0 where
  pub status : Status
  pub filled_quantity : ℕ
  pub requested_quantity : ℕ
  pub broker_order_id : Option ℕ
  pub broker_state : Option Text
  pub status_recognized : Option Bool
  pub cancellation : Cancellation
  pub fill_price : Option Decimal

-- `stop_price` of a decision or a stop request.
pub data StopPrice : Type 0 where
  breakeven : StopPrice
  at_price : Option Decimal → StopPrice

-- The keys of a decision that the ledger and the engine read. `none` is a missing or null key, for
-- `ambiguous` and `confidence` also one of another type. `profit_only` is false where the key is
-- missing, and `none` where its value is no Boolean.
pub record Decision : Type 0 where
  pub action : Action
  pub contract : Option Contract
  pub quantity : Option ℕ
  pub fraction : Option Decimal
  pub alert_price : Option Decimal
  pub stop_price : Option StopPrice
  pub ambiguous : Option Bool
  pub confidence : Option Decimal
  pub origin_message_id : Option ℕ
  pub evidence : List ℕ
  pub by_rules : Bool
  pub profit_only : Option Bool

pub data EventState : Type 0 where
  observed evaluating evaluated monitoring ignored waiting held error context : EventState
  shadow_order paper_order broker_order unknown_order untrusted invalid duplicate : EventState

-- What StopLoss of relay/stops.py writes about a protective stop.
pub data StopNote : Type 0 where
  rearming no_remaining contract_expired now_active closed_by_stop submission_pending : StopNote
  level_reached not_active_yet not_protecting entry_unreconciled paused : StopNote
  order_in_flight session_closed restricted_account quote_unfit spread_invalid : StopNote
  filled_in_replacement source_unconfirmed held_early submission_uncertain : StopNote
  uncertain_stop cancel_unconfirmed cancel_pending filled_in_cancel no_stop_entry : StopNote
  engine_refused operation_failed protection_filled restoring : StopNote
  awaiting_broker : StopNote

-- The reason texts of an event that the model tells apart; `detail` is any other text.
pub data Reason : Type 0 where
  awaiting_interpretation reconciliation_pending awaiting_placement : Reason
  reconciled : Status → ℕ → ℕ → Reason
  stop_note : StopNote → Reason
  detail : ℕ → Reason

-- `submission` and `reconciliation` are the two keys of the stored decision that
-- `_sync_order_event` writes; a missing decision is read as an empty object.
pub record Event : Type 0 where
  pub id : ℕ
  pub message_id : ℕ
  pub revision : ℕ
  pub state : EventState
  pub reason : Reason
  pub decision : Option Decision
  pub submission : Option Submission
  pub reconciliation : Option Reconciliation
  pub created_at : ℕ

pub data StopStatus : Type 0 where
  stop_pending stop_active stop_blocked stop_complete : StopStatus

pub record StopRequest : Type 0 where
  pub source_group : ℕ
  pub contract : Contract
  pub message_id : ℕ
  pub decision : Decision
  pub stop_price : StopPrice
  pub entry_id : ℕ
  pub generation : ℕ
  pub order_id : Option ℕ
  pub status : StopStatus
  pub reason : Reason
