-- ===== src/Store/Orders/Writes.antt =====
-- What each successful order write of class Store (relay/core.py) found, and what it wrote.
use discord_option_tailer.Base.{
  Except-cases, Option, Option-cases, arith, false, if◌then◌else◌, inl, inr, none, ok, some, ℕ, ◌∷◌,
  ◌≡◌,
}
use discord_option_tailer.Store.Orders.{
  arm_entry_deadline, is_unsubmitted, new_order, persist_active_order_body,
  reject_before_submission, reserve, save_stop_request, with_deadline, with_stop,
}
use discord_option_tailer.Store.Rows.{
  Body, Contract, Decision, Order, StopPrice, is_entry, is_terminal, rejected, submitting,
}
use discord_option_tailer.Store.State.{Message, Store, find_order, update_order}

-- `save_stop_request` writes the stop requests and no order.
pub save_stop_request-orders :
    (m : Message) (d : Decision) (c : Contract) (p : StopPrice) (e : Option ℕ) (s t : Store)
    → save_stop_request m d c p e s ≡ ok t
    → (t.orders ≡ s.orders) × (t.positions ≡ s.positions) × (t.events ≡ s.events)
unfolding save_stop_request
save_stop_request-orders m d c p e s t h = ground arith

with_stop-orders :
    (m : Message) (d : Decision) (c : Contract) (k : ℕ) (s t : Store)
    → with_stop m d c k s ≡ ok t
    → (t.orders ≡ s.orders) × (t.positions ≡ s.positions)
unfolding with_stop
with_stop-orders m d c k s t h = elim (Option-cases d.stop_price) [
  | inl bare ↦ ground arith
  | inr (price, given) ↦
      ground (
        arith,
        save_stop_request-orders m d c price (if is_entry d.action then some k else none) s t,
      )
]

-- A reservation adds one row, under an ID that no row had.
pub reserve-ok :
    (m : Message) (d : Decision) (c : Contract) (k : ℕ) (body : Body) (now : ℕ) (s t : Store)
    → reserve m d c k body now s ≡ ok t
    → (find_order k s ≡ none)
      × (t.orders ≡ new_order m d c k body now ∷ s.orders)
      × (t.positions ≡ s.positions)
unfolding reserve
reserve-ok m d c k body now s t h = elim (Except-cases (with_stop m d c k s)) [
  | inr (e, refused) ↦ absurd (ground arith)
  | inl (u, written) ↦ ground (arith, with_stop-orders m d c k s u written)
]

pub arm_entry_deadline-ok :
    (k : ℕ) (body : Body) (now : ℕ) (s t : Store) (deadline : Option ℕ)
    → arm_entry_deadline k body now s ≡ ok (deadline, t)
    → (row : Order) × (find_order k s ≡ some row)
      × (row.status ≡ submitting)
      × (t ≡ update_order k (λ o. record o { body = with_deadline deadline body }) s)
unfolding arm_entry_deadline
arm_entry_deadline-ok k body now s t deadline h = elim (Option-cases (find_order k s)) [
  | inl missing ↦ absurd (ground arith)
  | inr (row, found) ↦ (row, found, ground arith, ground arith)
]

pub persist_active_order_body-ok :
    (k : ℕ) (body : Body) (s t : Store)
    → persist_active_order_body k body s ≡ ok t
    → (row : Order) × (find_order k s ≡ some row)
      × (is_terminal row.status ≡ false)
      × (t ≡ update_order k (λ o. record o { body = body }) s)
unfolding persist_active_order_body
persist_active_order_body-ok k body s t h = elim (Option-cases (find_order k s)) [
  | inl missing ↦ absurd (ground arith)
  | inr (row, found) ↦ (row, found, ground arith, ground arith)
]

pub reject_before_submission-ok :
    (k : ℕ) (s t : Store)
    → reject_before_submission k s ≡ ok t
    → (row : Order) × (find_order k s ≡ some row)
      × (row.status ≡ submitting)
      × (row.broker_id ≡ none)
      × (row.filled_quantity ≡ 0)
      × (t ≡ update_order k (λ o. record o { status = rejected }) s)
unfolding reject_before_submission is_unsubmitted
reject_before_submission-ok k s t h = elim (Option-cases (find_order k s)) [
  | inl missing ↦ absurd (ground arith)
  | inr (row, found) ↦ (row, found, ground arith, ground arith, ground arith, ground arith)
]
