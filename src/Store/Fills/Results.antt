-- ===== src/Store/Fills/Results.antt =====
-- The order's row after `apply_result` (relay/core.py).
use discord_option_tailer.Base.{
  Option-cases, ap, arith, false, find-update, find_holds, inl, inr, none, some, sym, true, ℕ, ◌∙◌,
  ◌≡◌,
}
use discord_option_tailer.Store.Fills.{
  BrokerResult, acknowledge, apply_result, changes_identity, moved_positions, settle,
}
use discord_option_tailer.Store.Fills.Accepted.{Run, apply_result-Run}
use discord_option_tailer.Store.Fills.Checks.{check_fill-IsAccepted}
use discord_option_tailer.Store.Orders.{sync_order_event}
use discord_option_tailer.Store.Rows.{Order, is_terminal}
use discord_option_tailer.Store.State.{Store, find_order, has_id}

-- After the acknowledgement the row is there, with the answer's broker ID.
pub acknowledge-find :
    (k b : ℕ) (s : Store) {o : Order}
    → find_order k s ≡ some o
    → changes_identity o.broker_id b ≡ false
    → find_order k (acknowledge k o b s) ≡ some (record o { broker_id = some b })
unfolding acknowledge changes_identity
acknowledge-find k b s {o} h same = elim (Option-cases o.broker_id) [
  | inl fresh ↦ rw fresh (
      find-update (has_id k) (λ o'. record o' { broker_id = some b }) s.orders h
        (find_holds (has_id k) s.orders h))
  | inr (a, old) ↦ ground arith
]

-- The row after an accepted answer: its status, count and money are the answer's.
pub apply_result-find :
    (k : ℕ) (r : BrokerResult) (s : Store) (u : Run k r s)
    → find_order k (apply_result k r s).store ≡ some (settle u.fill u.broker u.row)
unfolding sync_order_event
apply_result-find k r s u =
    let kept = acknowledge-find k u.broker s u.found u.same_identity in
    rw u.result (
      find-update (has_id k) (settle u.fill u.broker) (acknowledge k u.row u.broker s).orders kept
        (find_holds (has_id k) s.orders u.found))

-- An order that has ended keeps its status and its fills, and the positions keep theirs: an
-- accepted answer can only repeat what is recorded.
pub apply_result_terminal :
    (k : ℕ) (r : BrokerResult) (s : Store) {o : Order}
    → find_order k s ≡ some o
    → is_terminal o.status ≡ true
    → (apply_result k r s).error ≡ none
    → let t = (apply_result k r s).store in
      (t.positions ≡ s.positions)
      × ((o' : Order) × (find_order k t ≡ some o')
          × (o'.status ≡ o.status)
          × (o'.filled_quantity ≡ o.filled_quantity))
unfolding sync_order_event moved_positions
apply_result_terminal k r s {o} found ended accepted_all =
    let u = apply_result-Run k r s accepted_all in
    let facts = check_fill-IsAccepted u.row r u.fill u.checked in
    let same : u.row ≡ o = cc (u.found) in
    let kept = facts.terminal_kept (rw same ended) in
    let nothing : u.fill.delta ≡ 0 = omega (arith, facts.delta_lem, kept.1) in
    let still : s.positions ≡ u.moved = ground (arith, u.moved_lem) in
    (
      rw u.result (sym still),
      (
        settle u.fill u.broker u.row,
        apply_result-find k r s u,
        kept.0 ∙ ap (λ (x : Order). x.status) same,
        kept.1 ∙ ap (λ (x : Order). x.filled_quantity) same,
      ),
    )
