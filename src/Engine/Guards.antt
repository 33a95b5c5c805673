-- ===== src/Engine/Guards.antt =====
-- The checks of class Engine (relay/core.py) that plan and dispatch share: the mode, the allowed
-- authors, freshness, the source's consistency, the origin of the instruction and the exit's profit.
pub mod Latest
use discord_option_tailer.Base.Decimal
use discord_option_tailer.Base.{
  Bool, Except, List, Option, [], any, false, guarded, if◌then◌else◌, is_some, ltb, map, max, need,
  none, not, ok, raise, raise_if, same_option, select, some, true, ℕ, ◌&&◌, ◌+◌, ◌==◌, ◌>>=◌, ◌>>◌,
  ◌||◌, ◌∷◌,
}
use discord_option_tailer.Base.Decimal.{Decimal, is_zero, minimum, of_ℕ}
use discord_option_tailer.Sizing.{Risk}
use discord_option_tailer.Store.Intake.{find_message, source_generation}
use discord_option_tailer.Store.Rows.{Contract, Decision, Status, is_terminal}
use discord_option_tailer.Store.State.{Message, Store, find_position, latest_entry, positions}

pub data Mode : Type 0 where
  paper shadow live other_mode : Mode

abbrev pub is_paper : Mode → Bool
is_paper paper = true
is_paper _ = false

abbrev pub is_live : Mode → Bool
is_live live = true
is_live _ = false

abbrev pub same_mode : Mode → Mode → Bool
same_mode paper paper = true
same_mode shadow shadow = true
same_mode live live = true
same_mode _ _ = false

-- The mode and account that the engine was built with, and those that the configuration names now.
-- `none` is an account number that is not 5 to 20 digits.
pub record Binding : Type 0 where
  pub mode : Mode
  pub account : Option ℕ
  pub config_mode : Mode
  pub config_account : Option ℕ
  pub enable_live_orders : Bool

pub data Hold : Type 0 where
  mode_changed account_required account_changed live_not_enabled : Hold
  stale_signal stale_quote source_changed inventory_changed message_changed message_revised : Hold
  newer_message origin_unidentified origin_unavailable origin_mismatch origin_revised : Hold
  entry_reopened no_entry_position oversell bad_policy bad_money no_profit : Hold
  ambiguous_action low_confidence bad_action no_contract only_close only_exit expired_contract :
      Hold
  same_day_disabled unresolved_order duplicate_signal adding_disabled nothing_owned bad_trim : Hold
  bad_quantity not_standard bad_spread zero_price chase_exceeded sizing_failed wrong_account : Hold
  restricted market_closed guard_failed bad_prepared wrong_quote : Hold
  kill_switch_present window_elapsed watch_changed session_changed capacity_fell : Hold
  source_unverified expiry_not_entry expiry_of_older expiry_changed superseded_claim : Hold
  analysis_only no_entry_to_exit ineligible_origin exit_predates_entry not_catch_up : Hold
  context_incomplete context_changed newer_source source_removed entry_changed : Hold
  owned_changed exit_replayed session_unavailable exchange_closed exit_pending : Hold

-- RetryHold: a readiness check failed before any submission was attempted.
abbrev pub is_retry : Hold → Bool
is_retry stale_quote = true
is_retry unresolved_order = true
is_retry market_closed = true
is_retry _ = false

-- `check_execution_mode`. An account number is a text of digits, here its number.
unfoldable pub check_execution_mode : Binding → Except Hold (Unit {0})
check_execution_mode b =
    guarded
      ((not (same_mode b.mode b.config_mode), mode_changed)
        ∷ (not (is_paper b.mode) && not (is_some b.account), account_required)
        ∷ (not (is_paper b.mode) && not (same_option b.config_account b.account), account_changed)
        ∷ (is_live b.mode && not b.enable_live_orders, live_not_enabled)
        ∷ [])
      (ok tt)

-- A configured channel. `authors` is `none` where it is no list of snowflakes.
pub record Channel : Type 0 where
  pub id : ℕ
  pub source_group : ℕ
  pub authors : Option (List ℕ)
  pub for_signals : Bool

-- `channel_allows_author`: an empty list allows everybody, a malformed one nobody.
unfoldable pub channel_allows_author : Channel → ℕ → Bool
channel_allows_author c author = elim c.authors [
  | none ↦ false
  | some [] ↦ true
  | some (a ∷ rest) ↦ any (λ x. x == author) (a ∷ rest)
]

-- The engine's memory of what the reader has seen.
pub record Memory : Type 0 where
  pub observations : List (ℕ × ℕ)
  pub source_latest : List (ℕ × ℕ)

unfoldable pub get_or : ℕ → ℕ → List (ℕ × ℕ) → ℕ
get_or k d [] = d
get_or k d ((j, v) ∷ xs) = if j == k then v else get_or k d xs

unfoldable pub put : ℕ → ℕ → List (ℕ × ℕ) → List (ℕ × ℕ)
put k v [] = (k, v) ∷ []
put k v ((j, w) ∷ xs) = if j == k then (k, v) ∷ xs else (j, w) ∷ put k v xs

-- `note_observation`, for the channel that the message's channel ID finds, if any.
unfoldable pub note_observation : Option Channel → Message → Memory → Memory
note_observation none m mem = mem
note_observation (some c) m mem =
    if channel_allows_author c m.author_id
    then record {
      observations = put m.id m.revision mem.observations;
      source_latest =
          put c.source_group (max m.id (get_or c.source_group 0 mem.source_latest))
            mem.source_latest;
    }
    else mem

-- `fresh` and `check_quote_age`: at most five seconds ahead of the clock, and not too old.
unfoldable pub is_stale : ℕ → ℕ → ℕ → Bool
is_stale allowed now at = ltb (now + 5000000) at || ltb (at + allowed) now

unfoldable pub fresh : Risk → Message → ℕ → Except Hold (Unit {0})
fresh risk m now = raise_if (is_stale risk.max_signal_age now m.timestamp) stale_signal

-- A quote or snapshot without a readable time is refused as well.
unfoldable pub check_quote_age : Risk → Option ℕ → ℕ → Except Hold (Unit {0})
check_quote_age risk none now = raise stale_quote
check_quote_age risk (some at) now = raise_if (is_stale risk.max_quote_age now at) stale_quote

-- The generations that an evaluation began with.
pub record Claim : Type 0 where
  pub source_generation : ℕ
  pub position_generation : ℕ

-- The latest stored message of a source, 0 if there is none: Discord IDs grow with time.
unfoldable pub latest_stored : ℕ → List Message → ℕ
latest_stored g [] = 0
latest_stored g (m ∷ ms) =
    let rest = latest_stored g ms in if m.source_group == g then max m.id rest else rest

unfoldable pub latest_known : ℕ → Memory → Store → ℕ
latest_known g mem s = max (get_or g 0 mem.source_latest) (latest_stored g s.messages)

abbrev pub stored_revision : ℕ → ℕ → Store → ℕ
stored_revision k d s = elim (find_message k s) [ none ↦ d | some m ↦ m.revision ]

abbrev pub PositionColumns : Type 0
PositionColumns = Contract × ℕ × Decimal

abbrev pub OrderColumns : Type 0
OrderColumns = ℕ × Status × ℕ × Decimal

-- What `position_generation` reads of the store: columns of the source's positions and of its orders
-- that have not ended.
unfoldable pub inventory : ℕ → Store → List PositionColumns × List OrderColumns
inventory g s = (
  map (λ p. (p.contract, p.quantity, p.average_price))
      (select (λ p. p.source_group == g) s.positions),
  map (λ o. (o.id, o.status, o.filled_quantity, o.filled_notional))
      (select (λ o. o.source_group == g && not (is_terminal o.status)) s.orders),
)

unfoldable pub message_guards : Message → Memory → Store → List (Bool × Hold)
message_guards m mem s =
    (not (stored_revision m.id m.revision s == m.revision), message_changed)
    ∷ (not (get_or m.id m.revision mem.observations == m.revision), message_revised)
    ∷ (ltb m.id (latest_known m.source_group mem s), newer_message)
    ∷ []

-- `digest` is the SHA-256 of the sorted inventory's JSON text.
module _ (digest : List PositionColumns × List OrderColumns → ℕ) where
  unfoldable pub position_generation : ℕ → Store → ℕ
  position_generation g s = digest (inventory g s)

  unfoldable pub claim_guards : Option Claim → Message → Store → List (Bool × Hold)
  claim_guards none m s = []
  claim_guards (some c) m s =
      (not (source_generation m.source_group s.generations == c.source_generation), source_changed)
      ∷ (not (position_generation m.source_group s == c.position_generation), inventory_changed)
      ∷ []

  -- `_unchanged`
  unfoldable pub unchanged : Option Claim → Message → Memory → Store → Except Hold (Unit {0})
  unchanged claim m mem s =
      guarded (claim_guards claim m s) (guarded (message_guards m mem s) (ok tt))

-- `origin`: the message that the instruction comes from, which the evidence must name.
unfoldable pub find_origin : Message → ℕ → Store → Except Hold Message
find_origin m k s = if k == m.id then ok m else need (find_message k s) origin_unavailable

unfoldable pub origin : Message → Decision → Memory → Store → Except Hold Message
origin m d mem s = do
  k ← need d.origin_message_id origin_unidentified
  raise_if (not (any (λ e. e == k) d.evidence)) origin_unidentified
  o ← find_origin m k s
  raise_if (not (o.source_group == m.source_group) || is_some o.edited_timestamp) origin_mismatch
  raise_if (not (get_or o.id o.revision mem.observations == o.revision)) origin_revised
  ok o

-- `check_entry_lifetime`
unfoldable pub check_entry_lifetime :
    Message → Decision → Contract → Memory → Store → Except Hold (Unit {0})
check_entry_lifetime m d c mem s = elim (latest_entry m.source_group c s) [
  | none ↦ ok tt
  | some row ↦ do o ← origin m d mem s; raise_if (ltb o.timestamp row.created_at) entry_reopened
]

-- `money(value, positive=True)`
unfoldable pub paid : Option Decimal → Except Hold Decimal
paid none = raise bad_money
paid (some d) = if is_zero d then raise bad_money else ok d

-- `money(value)`
unfoldable pub money : Option Decimal → Except Hold Decimal
money v = need v bad_money

abbrev pub is_true : Option Bool → Bool
is_true none = false
is_true (some b) = b

-- (price - cost) * 100 - fees is positive.
unfoldable pub is_profitable : Risk → Decimal → Decimal → Bool
is_profitable risk price entry_cost =
    Decimal.lt
      (Decimal.add (Decimal.mul entry_cost (of_ℕ 100))
        (Decimal.mul risk.fee_reserve_per_contract (of_ℕ 2)))
      (Decimal.mul price (of_ℕ 100))

-- `check_exit_profit`, less the diagnostics that it writes into the decision. `positions` keeps only
-- rows that hold contracts.
unfoldable pub check_exit_profit :
    Risk
    → Message
    → Decision
    → Contract
    → ℕ
    → Option Decimal
    → Option Decimal
    → Store
    → Except Hold (Unit {0})
check_exit_profit risk m d c quantity executable limit_price s = do
  p ← need (find_position m.source_group c (positions s)) oversell
  raise_if (ltb p.quantity quantity) oversell
  raise_if (not (is_some d.profit_only)) bad_policy
  entry_cost ← paid (some p.average_price)
  price ← paid executable
  bound ← paid limit_price
  raise_if (is_true d.profit_only && not (is_profitable risk (minimum price bound) entry_cost))
      no_profit
