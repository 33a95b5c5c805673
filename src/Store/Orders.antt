-- ===== src/Store/Orders.antt =====
-- The order writes of class Store (relay/core.py): reservation, the dispatch evidence with the
-- entry deadline, uncertain and rejected submissions, the restart, and the event that each keeps
-- in step. A failed write rolls back, so an error leaves the store as it was.
pub mod Writes
use discord_option_tailer.Base.{
  Bool, Except, List, Option, [], all, false, if◌then◌else◌, is_some, leb, length, ltb, map, need,
  none, not, ok, raise, raise_if, some, true, update, ℕ, ◌&&◌, ◌+◌, ◌==◌, ◌>>=◌, ◌>>◌, ◌∷◌,
}
use discord_option_tailer.Base.Decimal.{Decimal, is_zero, of_ℕ}
use discord_option_tailer.Store.Rows.{
  Action, Body, Contract, Decision, Order, Position, Reason, Reconciliation, Status, StopPrice,
  StopRequest, Submission, Text, Window, absent, at_price, awaiting_placement, breakeven, entry,
  is_entry, is_submitting, is_terminal, lasting, malformed, reconciled, reconciliation_pending,
  reduce, rejected, same_contract, stop_pending, submitting, unknown,
}
use discord_option_tailer.Store.State.{
  Attempt, Message, Store, find_order, find_position, finished, interrupted, latest_entry,
  update_order,
}

pub data OrderError : Type 0 where
  not_awaiting_dispatch window_missing window_invalid no_entry_fill bad_money : OrderError
  not_active never_submitted_unproven duplicate_id no_position : OrderError

-- `_entry_deadline`: the window is refused before an existing deadline is looked at.
unfoldable pub entry_deadline : Body → ℕ → Option ℕ
entry_deadline body now = elim body.cancel_window [
  | absent ↦ none
  | malformed ↦ none
  | lasting w ↦
      if ltb 0 w && leb w 3600000000
      then (elim body.cancellation.entry_cancel_at [ some at ↦ some at | none ↦ some (now + w) ])
      else none
]

abbrev pub is_absent : Window → Bool
is_absent absent = true
is_absent _ = false

-- The deadline that `arm_entry_deadline` keeps, from the body on disk and the caller's.
unfoldable pub chosen_deadline : Body → Body → ℕ → Except OrderError (Option ℕ)
chosen_deadline persisted body now = elim persisted.cancellation.entry_cancel_at [
  | some at ↦ ok (some at)
  | none ↦
      if body.prepared_entry
      then (do
        raise_if (is_absent body.cancel_window) window_missing
        at ← need (entry_deadline body now) window_invalid
        ok (some at))
      else ok none
]

abbrev pub with_deadline : Option ℕ → Body → Body
with_deadline none body = body
with_deadline (some at) body = record body {
  cancellation = record (body.cancellation) { entry_cancel_at = some at };
}

-- `arm_entry_deadline`, for the order `k` whose body in memory is `body`.
unfoldable pub arm_entry_deadline : ℕ → Body → ℕ → Store → Except OrderError (Option ℕ × Store)
arm_entry_deadline k body now s = do
  row ← need (find_order k s) not_awaiting_dispatch
  raise_if (not (is_submitting row.status)) not_awaiting_dispatch
  at ← chosen_deadline row.body body now
  ok (at, update_order k (λ o. record o { body = with_deadline at body }) s)

-- `persist_active_order_body`
unfoldable pub persist_active_order_body : ℕ → Body → Store → Except OrderError Store
persist_active_order_body k body s = do
  row ← need (find_order k s) not_active
  raise_if (is_terminal row.status) not_active
  ok (update_order k (λ o. record o { body = body }) s)

-- `_sync_order_event`: the latest event of the order's message shows the order's result. `reply` is
-- the broker's answer where there is one: its id, its own submission words and its fill price.
pub record Reply : Type 0 where
  pub id : Option ℕ
  pub words : Submission
  pub fill_price : Option Decimal

abbrev pub or_else {ℓ} : {A : Type ℓ} → Option A → Option A → Option A
or_else (some a) b = some a
or_else none b = b

-- A broker state is shown only if it is ASCII of at most 64 characters.
abbrev short_ascii : Option Text → Option Text
short_ascii none = none
short_ascii (some t) = if all (λ c. ltb c 128) t && leb (length t) 64 then some t else none

abbrev words_of : Option Submission → Submission
words_of (some words) = words
words_of none = record { broker_state = none; status_recognized = none }

unfoldable pub reconciliation_of : Order → Status → ℕ → Option Reply → Reconciliation
reconciliation_of o status count reply =
    let said = words_of o.body.broker_submission in
    let heard : Submission = elim reply [ some r ↦ r.words | none ↦ words_of none ] in
    record {
      status = status;
      filled_quantity = count;
      requested_quantity = o.body.quantity;
      broker_order_id = or_else o.broker_id (elim reply [ some r ↦ r.id | none ↦ none ]);
      broker_state = short_ascii (or_else heard.broker_state said.broker_state);
      status_recognized = or_else heard.status_recognized said.status_recognized;
      cancellation = o.body.cancellation;
      fill_price = elim reply [ some r ↦ r.fill_price | none ↦ none ];
    }

abbrev pub sync_reason : Order → Status → ℕ → Reason
sync_reason o unknown count = reconciliation_pending
sync_reason o status count = reconciled status count o.body.quantity

unfoldable pub sync_order_event : Order → Status → ℕ → Option Reply → Store → Store
unfolding reconciliation_of
sync_order_event o status count reply s = record s {
  events =
      update (λ e. e.message_id == o.message_id)
        (λ e. record e {
          reason = sync_reason o status count;
          submission = or_else e.submission o.body.broker_submission;
          reconciliation = some (reconciliation_of o status count reply);
        })
        s.events;
}

-- `mark_unknown`: nothing is written to an order that has ended.
unfoldable pub mark_unknown : ℕ → Store → Store
mark_unknown k s = elim (find_order k s) [
  | none ↦ s
  | some row ↦
      if is_terminal row.status
      then s
      else sync_order_event (record row { status = unknown }) unknown row.filled_quantity none
          (update_order k (λ o. record o { status = unknown }) s)
]

-- `reject_before_submission`
unfoldable pub is_unsubmitted : Order → Bool
is_unsubmitted o = is_submitting o.status && (not (is_some o.broker_id) && o.filled_quantity == 0)

unfoldable pub reject_before_submission : ℕ → Store → Except OrderError Store
reject_before_submission k s = do
  row ← need (find_order k s) never_submitted_unproven
  raise_if (not (is_unsubmitted row)) never_submitted_unproven
  ok (update_order k (λ o. record o { status = rejected }) s)

-- `UPDATE orders SET status='unknown' WHERE status='submitting'` and its twin for the attempts,
-- which `__init__` runs on every start.
abbrev pub after_crash : Order → Order
after_crash o = if is_submitting o.status then record o { status = unknown } else o

abbrev pub interrupt : Attempt → Attempt
interrupt a = elim a.state [ finished ↦ a | interrupted ↦ a | _ ↦ record a { state = interrupted } ]

unfoldable pub restart : Store → Store
restart s = record s { attempts = map interrupt s.attempts; orders = map after_crash s.orders }

-- `save_stop_request`, inside the caller's transaction. `entry` is the order of an entry that is
-- being reserved. An exit with no position saves nothing.
unfoldable pub put_stop : StopRequest → List StopRequest → List StopRequest
put_stop r [] = r ∷ []
put_stop r (q ∷ rs) =
    if q.source_group == r.source_group && same_contract q.contract r.contract
    then record r { generation = q.generation } ∷ rs
    else q ∷ put_stop r rs

-- `money(value, positive=True)`
unfoldable pub positive_money : Option Decimal → Except OrderError Decimal
positive_money none = raise bad_money
positive_money (some d) = if is_zero d then raise bad_money else ok d

-- The price that is stored: a new entry keeps the word "breakeven", which an owned position turns
-- into its average.
unfoldable pub stored_price : Bool → StopPrice → Option Position → Except OrderError StopPrice
stored_price true breakeven owned = ok breakeven
stored_price false breakeven owned = do
  p ← need owned no_position
  d ← positive_money (some p.average_price)
  ok (at_price (some d))
stored_price new (at_price v) owned = do d ← positive_money v; ok (at_price (some d))

unfoldable pub entry_of : Option ℕ → ℕ → Contract → Store → Except OrderError ℕ
entry_of (some k) g c s = ok k
entry_of none g c s = do o ← need (latest_entry g c s) no_entry_fill; ok o.id

abbrev pub owns_nothing : Option Position → Bool
owns_nothing none = true
owns_nothing (some p) = p.quantity == 0

unfoldable pub save_stop_request :
    Message → Decision → Contract → StopPrice → Option ℕ → Store → Except OrderError Store
save_stop_request m d c price entry_order s =
    let owned = find_position m.source_group c s.positions in
    let write = (do
      entry_id ← entry_of entry_order m.source_group c s
      stored ← stored_price (is_some entry_order) price owned
      ok (record s {
        stop_requests =
            put_stop
              (record {
                source_group = m.source_group;
                contract = c;
                message_id = m.id;
                decision = d;
                stop_price = stored;
                entry_id = entry_id;
                generation = 0;
                order_id = none;
                status = stop_pending;
                reason = awaiting_placement;
              })
              s.stop_requests;
      })) in
    if not (is_some entry_order) && owns_nothing owned then ok s else write

-- `reserve`: the stop of a compound instruction and the order go in together.
unfoldable pub new_order : Message → Decision → Contract → ℕ → Body → ℕ → Order
new_order m d c k body now = record {
  id = k;
  message_id = m.id;
  source_group = m.source_group;
  contract = c;
  action = d.action;
  body = body;
  status = submitting;
  broker_id = none;
  created_at = now;
  filled_quantity = 0;
  filled_notional = of_ℕ 0;
}

abbrev pub takes_stop : Action → Bool
takes_stop entry = true
takes_stop reduce = true
takes_stop _ = false

unfoldable pub with_stop : Message → Decision → Contract → ℕ → Store → Except OrderError Store
with_stop m d c k s = elim d.stop_price [
  | none ↦ ok s
  | some price ↦
      if takes_stop d.action
      then save_stop_request m d c price (if is_entry d.action then some k else none) s
      else ok s
]

unfoldable pub reserve :
    Message → Decision → Contract → ℕ → Body → ℕ → Store → Except OrderError Store
reserve m d c k body now s = do
  t ← with_stop m d c k s
  raise_if (is_some (find_order k t)) duplicate_id
  ok (record t { orders = new_order m d c k body now ∷ t.orders })
