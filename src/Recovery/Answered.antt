-- ===== src/Recovery/Answered.antt =====
-- What the reconciliation of an order leaves in its row (relay/recovery.py).
use discord_option_tailer.Base.{
  Bool-cases, Except, Option, Option-cases, ap, arith, inl, inr, none, ok, raise, refl, some, subst,
  true, ℕ, ◌≡◌, ◌⊎◌,
}
use discord_option_tailer.Recovery.{
  ReconcileWorld, ask_status, asks_cancel, cancel_expired, entry_cancel_due, is_canceling,
  notes_answer, or_status, persist, reconcile_order, take_cancel, take_result,
}
use discord_option_tailer.Stops.{StopError}
use discord_option_tailer.Stops.Clear.{HasStatus}
use discord_option_tailer.Stops.Moves.{bind-eq-ok}
use discord_option_tailer.Store.Fills.{BrokerResult, apply_result, settle}
use discord_option_tailer.Store.Fills.Accepted.{apply_result-Run}
use discord_option_tailer.Store.Fills.Checks.{check_fill-IsAccepted}
use discord_option_tailer.Store.Fills.Results.{apply_result-find}
use discord_option_tailer.Store.Rows.{Body, Order}
use discord_option_tailer.Store.State.{Store}

take_result-HasStatus :
    (k : ℕ) (r : BrokerResult) (s t : Store) {u : Unit {0}}
    → take_result k r s ≡ (ok u, t)
    → HasStatus k r.status t
unfolding take_result HasStatus
take_result-HasStatus k r s t h = elim (Option-cases (apply_result k r s).error) [
  | inr (e, refused) ↦ absurd (ground arith)
  | inl taken ↦
      let u = apply_result-Run k r s taken in
      let facts = check_fill-IsAccepted u.row r u.fill u.checked in
      let same_store : (apply_result k r s).store ≡ t = ground arith in
      (
        settle u.fill u.broker u.row,
        rw (← same_store) (apply_result-find k r s u),
        facts.same_status_lem,
      )
]

-- The row has the status of the answer, which there is.
abbrev pub IsAnswered : ℕ → Option BrokerResult → Store → Type 0
IsAnswered k reply t = (r : BrokerResult) × (reply ≡ some r) × HasStatus k r.status t

ask_status-IsAnswered :
    (w : ReconcileWorld) (k : ℕ) (reply : Option BrokerResult) (s t : Store) {u : Unit {0}}
    → ask_status w k reply s ≡ (ok u, t)
    → IsAnswered k reply t
unfolding ask_status
ask_status-IsAnswered w k none s t h = cc
ask_status-IsAnswered w k (some r) s t h = (r, refl, take_result-HasStatus k r s t h)

take_cancel-IsAnswered :
    (w : ReconcileWorld) (k : ℕ) (body : Body) (reply : Option BrokerResult) (s t : Store)
    {u : Unit {0}}
    → take_cancel w k body reply s ≡ (ok u, t)
    → IsAnswered k reply t
unfolding take_cancel
take_cancel-IsAnswered w k body none s t h = cc
take_cancel-IsAnswered w k body (some r) s t h =
    let (_, v, written, taken) =
      bind-eq-ok (persist k (notes_answer w r body)) (λ _. take_result k r) s h in
    (r, refl, take_result-HasStatus k r v t taken)

cancel_expired-IsAnswered :
    (w : ReconcileWorld) (o : Order) (s t : Store) {u : Unit {0}}
    → cancel_expired w o s ≡ (ok u, t)
    → IsAnswered o.id w.cancel_reply t
unfolding cancel_expired
cancel_expired-IsAnswered w o s t h =
    let body = asks_cancel w o.body in
    let (_, v, written, taken) =
      bind-eq-ok (persist o.id body) (λ _. take_cancel w o.id body w.cancel_reply) s h in
    take_cancel-IsAnswered w o.id body w.cancel_reply v t taken

or_status-IsAnswered :
    (w : ReconcileWorld) (o : Order) (s t : Store) (x : Except StopError (Unit {0}) × Store)
    → cancel_expired w o s ≡ x
    → or_status w o.id x ≡ (ok tt, t)
    → IsAnswered o.id w.cancel_reply t ⊎ IsAnswered o.id w.status_reply t
or_status-IsAnswered w o s t (ok u, v) first h =
    let same_store : v ≡ t = ap (λ x. x.1) h in
    inl (
      cancel_expired-IsAnswered w o s t
        (subst (λ x. cancel_expired w o s ≡ (ok u, x)) same_store first))
or_status-IsAnswered w o s t (raise e, v) first h =
    inr (ask_status-IsAnswered w o.id w.status_reply v t h)

-- When the reconciliation of an order returns, its row has the status that the broker last answered:
-- to the cancellation, which is only asked for an entry whose deadline has passed, or to the question
-- for its status.
pub reconcile_order-IsAnswered :
    (w : ReconcileWorld) (o : Order) (s t : Store)
    → reconcile_order w o s ≡ (ok tt, t)
    → ((entry_cancel_due o w.now ≡ true) × IsAnswered o.id w.cancel_reply t)
      ⊎ IsAnswered o.id w.status_reply t
unfolding reconcile_order is_canceling
reconcile_order-IsAnswered w o s t h = elim (Bool-cases (is_canceling w o)) [
  | inr e ↦ inr (ask_status-IsAnswered w o.id w.status_reply s t (rw e at h))
  | inl e ↦ elim (or_status-IsAnswered w o s t _ refl (rw e at h)) [
    | inl canceled_first ↦ inl (ground arith, canceled_first)
    | inr asked ↦ inr asked
  ]
]
