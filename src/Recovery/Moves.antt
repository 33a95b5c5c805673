-- ===== src/Recovery/Moves.antt =====
-- The ledger through the reconciliation of one order (relay/recovery.py).
use discord_option_tailer.Base.{
  Bool-cases, Except, Option, ap, arith, inl, inr, is_some, none, ok, raise, refl, some, sym, ℕ,
  ◌∙◌, ◌≡◌,
}
use discord_option_tailer.Broker.Paper.Orders.{same_side}
use discord_option_tailer.Recovery.{
  ReconcileWorld, ask_status, asks_cancel, cancel_expired, is_canceling, notes_answer, or_status,
  persist, reconcile_order, take_cancel, take_result, writes_body,
}
use discord_option_tailer.Recovery.Round.{
  RoundWorld, after_failure, await_stop, doubt_stop, reconcile_row,
}
use discord_option_tailer.Stops.{Act, StopError, StopResult, returns, set_state, ◌▷◌}
use discord_option_tailer.Stops.Moves.{Moves, Reach-trans, bind-Moves, set_state-Moves}
use discord_option_tailer.Store.Fills.{BrokerResult, apply_result}
use discord_option_tailer.Store.Lifecycle.{
  KeepsTrade, Reach, applied, here, marked, next, persisted,
}
use discord_option_tailer.Store.Lifecycle.Trades.{Reach-KeepsTrades}
use discord_option_tailer.Store.Orders.{OrderError, persist_active_order_body}
use discord_option_tailer.Store.Rows.{
  Body, Order, StopRequest, awaiting_broker, is_update_stop, stop_pending,
}
use discord_option_tailer.Store.State.{Store, find_order}

-- A call that continues with what it made of the store.
pub after_writes :
    {A B : Type 0} (k : A → Act B) (s : Store) (r : Except StopError A × Store)
    → Reach s r.1
    → ((a : A) (t : Store) → Reach s t → Reach t (k a t).1)
    → Reach s (((λ (_ : Store). r) ▷ k) s).1
after_writes k s (ok a, t) first later = Reach-trans first (later a t first)
after_writes k s (raise e, t) first later = first

-- The ledger has the order, perhaps with another status or more fills by now.
abbrev pub HasTrade : Order → Store → Type 0
HasTrade o s =
    (o' : Order) × (find_order o.id s ≡ some o')
    × (o'.body.side ≡ o.body.side)
    × (o'.body.quantity ≡ o.body.quantity)

pub HasTrade-later : (o : Order) {s t : Store} → Reach s t → HasTrade o s → HasTrade o t
HasTrade-later o moved (o', found, side, count) =
    let (o'', found', side', count') = Reach-KeepsTrades moved o.id o' found in
    (o'', found', side' ∙ side, count' ∙ count)

HasTrade-KeepsTrade :
    (o : Order) (body : Body) (s : Store)
    → HasTrade o s
    → body.side ≡ o.body.side
    → body.quantity ≡ o.body.quantity
    → KeepsTrade o.id body s
HasTrade-KeepsTrade o body s (o', found, side, count) same_side same_count o'' at_k =
    let same_row : o' ≡ o'' = ground (arith, found, at_k) in
    (
      same_side ∙ sym side ∙ ap (λ x. x.body.side) same_row,
      same_count ∙ sym count ∙ ap (λ x. x.body.quantity) same_row,
    )

writes_body-Reach :
    (k : ℕ) (body : Body) (s : Store) (x : Except OrderError Store)
    → KeepsTrade k body s
    → persist_active_order_body k body s ≡ x
    → Reach s (writes_body x s).1
writes_body-Reach k body s (raise e) keeps h = here
writes_body-Reach k body s (ok t) keeps h = next here (persisted k body keeps h)

persist-Reach :
    (k : ℕ) (body : Body) (s : Store) → KeepsTrade k body s → Reach s (persist k body s).1
unfolding persist
persist-Reach k body s keeps = writes_body-Reach k body s _ keeps refl

take_result-Moves : (k : ℕ) (r : BrokerResult) → Moves (take_result k r)
unfolding take_result
take_result-Moves k r s = elim (Bool-cases (is_some (apply_result k r s).error)) [
  | inl e ↦ rw e (next here (applied s k r))
  | inr e ↦ rw e (next here (applied s k r))
]

take_cancel-Reach :
    (w : ReconcileWorld) (o : Order) (reply : Option BrokerResult) (s : Store)
    → HasTrade o s
    → Reach s (take_cancel w o.id (asks_cancel w o.body) reply s).1
unfolding take_cancel
take_cancel-Reach w o none s has = here
take_cancel-Reach w o (some r) s has =
    let body = notes_answer w r (asks_cancel w o.body) in
    after_writes (λ _. take_result o.id r) s (persist o.id body s)
      (persist-Reach o.id body s (HasTrade-KeepsTrade o body s has refl refl))
      (λ _ t _. take_result-Moves o.id r t)

cancel_expired-Reach :
    (w : ReconcileWorld) (o : Order) (s : Store) → HasTrade o s → Reach s (cancel_expired w o s).1
unfolding cancel_expired
cancel_expired-Reach w o s has =
    let body = asks_cancel w o.body in
    let answer : Unit {0} → Act (Unit {0}) = λ _. take_cancel w o.id body w.cancel_reply in
    after_writes answer s (persist o.id body s)
      (persist-Reach o.id body s (HasTrade-KeepsTrade o body s has refl refl))
      (λ _ t moved. take_cancel-Reach w o w.cancel_reply t (HasTrade-later o moved has))

ask_status-Moves :
    (w : ReconcileWorld) (k : ℕ) (reply : Option BrokerResult) → Moves (ask_status w k reply)
unfolding ask_status
ask_status-Moves w k none s = here
ask_status-Moves w k (some r) s = take_result-Moves k r s

or_status-Reach :
    (w : ReconcileWorld) (k : ℕ) (s : Store) (x : Except StopError (Unit {0}) × Store)
    → Reach s x.1
    → Reach s (or_status w k x).1
or_status-Reach w k s (ok _, t) moved = moved
or_status-Reach w k s (raise e, t) moved = Reach-trans moved (ask_status-Moves w k w.status_reply t)

reconcile_order-Reach :
    (w : ReconcileWorld) (o : Order) (s : Store) → HasTrade o s → Reach s (reconcile_order w o s).1
unfolding reconcile_order
reconcile_order-Reach w o s has = elim (Bool-cases (is_canceling w o)) [
  | inl e ↦ rw e (or_status-Reach w o.id s _ (cancel_expired-Reach w o s has))
  | inr e ↦ rw e (ask_status-Moves w o.id w.status_reply s)
]

await_stop-Moves : (r : Option StopRequest) → Moves (await_stop r)
unfolding await_stop
await_stop-Moves none s = here
await_stop-Moves (some r) s =
    let ends : StopResult → Act (Unit {0}) = λ _. returns tt in
    bind-Moves (set_state r stop_pending awaiting_broker none) ends
      (set_state-Moves r stop_pending awaiting_broker none) (λ _ _. here) s

doubt_stop-Moves : (o : Order) → Moves (doubt_stop o)
unfolding doubt_stop
doubt_stop-Moves o s = elim (Bool-cases (is_update_stop o.action)) [
  | inl e ↦ rw e (Reach-trans (next here (marked s o.id)) (await_stop-Moves _ _))
  | inr e ↦ rw e here
]

after_failure-Reach :
    (o : Order) (s : Store) (x : Except StopError (Unit {0}) × Store)
    → Reach s x.1
    → Reach s (after_failure o x).1
after_failure-Reach o s (ok _, t) moved = moved
after_failure-Reach o s (raise e, t) moved = Reach-trans moved (doubt_stop-Moves o t)

pub reconcile_row-Reach :
    (w : RoundWorld) (o : Order) (s : Store) → HasTrade o s → Reach s (reconcile_row w o s).1
unfolding reconcile_row
reconcile_row-Reach w o s has =
    after_failure-Reach o s _
      (reconcile_order-Reach (record (w.of_order o) { observe_only = w.observe_only }) o s has)
