-- ===== src/Recovery/Guard.antt =====
-- `exit_guard` of relay/recovery.py: what must hold, at first and each time it is asked again, for a
-- missed exit to be executed after all. Prices are compared as numbers.
pub mod Replay
use discord_option_tailer.Base.Decimal
use discord_option_tailer.Base.{
  Bool, Except, List, Option, [], any, false, guarded, if◌then◌else◌, is_some, leb, length, ltb,
  map, max, need, none, not, ok, raise_if, reverse, select, some, suc, true, zero, ℕ, ◌&&◌, ◌==◌,
  ◌>>=◌, ◌>>◌, ◌||◌, ◌∷◌,
}
use discord_option_tailer.Base.Decimal.{Decimal}
use discord_option_tailer.Engine.Guards.{
  Channel, Hold, Memory, channel_allows_author, context_changed, context_incomplete, entry_changed,
  exit_predates_entry, exit_replayed, get_or, ineligible_origin, kill_switch_present, newer_source,
  no_contract, no_entry_to_exit, not_catch_up, origin, owned_changed, source_removed,
}
use discord_option_tailer.Recovery.Round.{first_rows}
use discord_option_tailer.Store.Intake.{find_message}
use discord_option_tailer.Store.Rows.{
  Contract, Decision, Order, Position, is_exit, is_submitting, same_contract,
}
use discord_option_tailer.Store.State.{
  Message, Store, find_position, is_acquired_entry, order_at, positions,
}

-- What the guard reads beside the ledger: `julianday` is SQLite's, which orders times by what it keeps
-- of them, `channel_of` is the configured channel of an ID, `came_in`
-- whether a message's source, ingestion and its reason admit it, and `origin_of` the origin that an
-- order's body names, or else its message.
pub record GuardWorld : Type 0 where
  pub channel_of : ℕ → Option Channel
  pub came_in : Message → Bool
  pub origin_of : Order → ℕ
  pub memory : Memory
  pub kill_switch : Bool
  pub now : ℕ
  pub julianday : ℕ → ℕ

-- `eligible`
unfoldable pub is_signal_source : GuardWorld → Message → Bool
is_signal_source w m = elim (w.channel_of m.channel_id) [
  | none ↦ false
  | some c ↦ c.for_signals && channel_allows_author c m.author_id
]

unfoldable pub is_eligible : GuardWorld → Message → Bool
is_eligible w m =
    is_signal_source w m
    && (w.came_in m && (not (is_some m.edited_timestamp) && leb m.timestamp w.now))

-- `current_entries`, for one contract: the entry that was made last, of an owned position.
unfoldable pub last_made : (ℕ → ℕ) → List Order → Option Order
last_made julianday [] = none
last_made julianday (o ∷ os) =
    let rest = last_made julianday os in
    elim rest [
      | none ↦ some o
      | some r ↦ if leb (julianday r.created_at) (julianday o.created_at) then some o else some r
    ]

unfoldable pub current_entry : GuardWorld → ℕ → Contract → Store → Option Order
current_entry w g c s = elim (find_position g c (positions s)) [
  | none ↦ none
  | some p ↦ last_made w.julianday (select (is_acquired_entry g c) s.orders)
]

-- `context`: the latest messages of the source first, by their times and then their IDs.
abbrev pub comes_after : (ℕ → ℕ) → Message → Message → Bool
comes_after julianday m x =
    ltb (julianday x.timestamp) (julianday m.timestamp)
    || (julianday x.timestamp == julianday m.timestamp && ltb x.id m.id)

unfoldable pub put_message : (ℕ → ℕ) → Message → List Message → List Message
put_message julianday m [] = m ∷ []
put_message julianday m (x ∷ xs) =
    let rest = put_message julianday m xs in
    if comes_after julianday x m then x ∷ rest else m ∷ x ∷ xs

unfoldable pub latest_first : (ℕ → ℕ) → List Message → List Message
latest_first julianday [] = []
latest_first julianday (m ∷ ms) = put_message julianday m (latest_first julianday ms)

abbrev pub is_before : (ℕ → ℕ) → ℕ → Message → ℕ → Message → Bool
is_before julianday g m cutoff x =
    x.source_group == g && (not (x.id == m.id) && leb (julianday x.timestamp) (julianday cutoff))

unfoldable pub is_background : GuardWorld → ℕ → ℕ → Message → Bool
is_background w g cutoff x = elim (w.channel_of x.channel_id) [
  | none ↦ false
  | some c ↦
      c.source_group == g
      && (channel_allows_author c x.author_id
          && (elim x.edited_timestamp [ none ↦ true | some at ↦ leb at cutoff ]))
]

unfoldable pub drop_rows {ℓ} : {A : Type ℓ} → ℕ → List A → List A
drop_rows zero xs = xs
drop_rows (suc n) [] = []
drop_rows (suc n) (x ∷ xs) = drop_rows n xs

unfoldable pub context_rows : (ℕ → ℕ) → ℕ → Message → ℕ → Store → List Message
context_rows julianday g m cutoff s =
    first_rows 241 (latest_first julianday (select (is_before julianday g m cutoff) s.messages))

abbrev pub is_since : Message → Message → Bool
is_since m x = leb m.timestamp x.timestamp

-- Whether a message since the exit's own was left out.
unfoldable pub is_truncated : Message → List Message → List Message → Bool
is_truncated m rows records =
    any (is_since m) (drop_rows 60 records)
    || (length rows == 241 && any (is_since m) (drop_rows 240 rows))

unfoldable pub exit_context : GuardWorld → ℕ → Message → Store → List Message × Bool
exit_context w g m s =
    let rows = context_rows w.julianday g m w.now s in
    let records = select (is_background w g w.now) rows in
    (reverse (first_rows 60 records), is_truncated m rows records)

-- `signature`
abbrev pub signature : List Message → List (ℕ × ℕ)
signature ms = map (λ m. (m.id, m.revision)) ms

unfoldable pub same_signature : List (ℕ × ℕ) → List (ℕ × ℕ) → Bool
same_signature [] [] = true
same_signature ((k, r) ∷ xs) ((k', r') ∷ ys) =
    let rest = same_signature xs ys in k == k' && (r == r' && rest)
same_signature _ _ = false

abbrev pub same_position : Position → Position → Bool
same_position p q =
    p.source_group == q.source_group
    && (same_contract p.contract q.contract
        && (p.quantity == q.quantity && Decimal.eq p.average_price q.average_price))

unfoldable pub same_positions : List Position → List Position → Bool
same_positions [] [] = true
same_positions (p ∷ ps) (q ∷ qs) = let rest = same_positions ps qs in same_position p q && rest
same_positions _ _ = false

unfoldable pub positions_of : ℕ → Store → List Position
positions_of g s = select (λ p. p.source_group == g) (positions s)

-- What the guard keeps from its making.
pub record ExitGuard : Type 0 where
  pub contract : Contract
  pub entry : Order
  pub origin : Message
  pub signed : List (ℕ × ℕ)
  pub latest_id : ℕ
  pub order_id : ℕ
  pub owned : List Position

unfoldable pub largest_id : ℕ → List Message → ℕ
largest_id k [] = k
largest_id k (m ∷ ms) = max m.id (largest_id k ms)

-- An exit of the contract since the entry was made, but for the one that is being submitted.
abbrev pub is_earlier_exit : GuardWorld → ℕ → ExitGuard → Order → Bool
is_earlier_exit w g e o =
    order_at g e.contract o
    && (is_exit o.action
        && (leb (w.julianday e.entry.created_at) (w.julianday o.created_at)
            && not (o.id == e.order_id && is_submitting o.status)))

unfoldable pub is_from_later : ExitGuard → Option Message → Bool
is_from_later e none = false
is_from_later e (some x) = leb e.origin.timestamp x.timestamp

abbrev pub replays : GuardWorld → ExitGuard → Message → Store → Order → Bool
replays w e m s o =
    w.origin_of o == e.origin.id
    || (o.message_id == m.id || is_from_later e (find_message o.message_id s))

abbrev pub is_same_order : Order → Option Order → Bool
is_same_order e none = false
is_same_order e (some o) = o.id == e.id

abbrev pub is_stored : Option Message → Message → Bool
is_stored none m = false
is_stored (some x) m = x.revision == m.revision

unfoldable pub source_guards : GuardWorld → ExitGuard → Message → Store → List (Bool × Hold)
source_guards w e m s =
    let (records, truncated) = exit_context w m.source_group m s in
    (truncated, context_incomplete)
    ∷ (not (same_signature (signature records) e.signed), context_changed)
    ∷ (ltb e.latest_id (get_or m.source_group e.latest_id w.memory.source_latest), newer_source)
    ∷ (not (is_stored (find_message m.id s) m), source_removed)
    ∷ []

unfoldable pub owned_guards : GuardWorld → ExitGuard → Message → Store → List (Bool × Hold)
owned_guards w e m s =
    let g = m.source_group in
    (not (is_same_order e.entry (current_entry w g e.contract s)), entry_changed)
    ∷ (not (same_positions (positions_of g s) e.owned), owned_changed)
    ∷ (any (replays w e m s) (select (is_earlier_exit w g e) s.orders), exit_replayed)
    ∷ []

-- `guard`: it answers the largest ID that it knows of.
unfoldable pub run_guard : GuardWorld → ExitGuard → Message → Decision → Store → Except Hold ℕ
run_guard w e m d s = do
  raise_if (not (is_exit d.action && is_eligible w m)) not_catch_up
  raise_if w.kill_switch kill_switch_present
  guarded (source_guards w e m s) (ok tt)
  o ← origin m d w.memory s
  raise_if (not (o.revision == e.origin.revision)) source_removed
  guarded (owned_guards w e m s) (ok e.latest_id)

-- `exit_guard`, for the context and the positions that the assessment was made with; `order_digest` is
-- the SHA-256 that the client's order ID is made with.
unfoldable pub exit_guard :
    (ℕ → ℕ → ℕ)
    → GuardWorld
    → Message
    → Decision
    → List Message
    → List Position
    → Store
    → Except Hold ExitGuard
exit_guard order_digest w m d assessed shown s = do
  c ← need d.contract no_contract
  entry_order ← need (current_entry w m.source_group c s) no_entry_to_exit
  o ← origin m d w.memory s
  raise_if (not (is_eligible w o)) ineligible_origin
  raise_if (ltb o.timestamp entry_order.created_at) exit_predates_entry
  let e : ExitGuard = record {
    contract = c;
    entry = entry_order;
    origin = o;
    signed = signature assessed;
    latest_id = largest_id m.id assessed;
    order_id = order_digest m.id m.revision;
    owned = shown;
  }
  _ ← run_guard w e m d s
  ok e
