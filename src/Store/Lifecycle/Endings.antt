-- ===== src/Store/Lifecycle/Endings.antt =====
-- The orders that have ended, over all writes of class Store (relay/core.py).
use discord_option_tailer.Base.{
  ==_iff, List, Option-cases, [], arith, false, find, inl, inr, map, ok, refl, some, true, ℕ,
  ℕ_discrete, ◌∙◌, ◌∷◌, ◌≡◌, ◌≢◌,
}
use discord_option_tailer.Store.Fills.{BrokerResult, acknowledge, apply_result, settle}
use discord_option_tailer.Store.Fills.Accepted.{Run, apply_result-Refused, apply_result-Run}
use discord_option_tailer.Store.Fills.Results.{apply_result_terminal}
use discord_option_tailer.Store.Lifecycle.{
  Reach, Step, applied, armed, here, marked, next, noted, persisted, rejected_early, reserved,
  restarted,
}
use discord_option_tailer.Store.Orders.{
  after_crash, mark_unknown, new_order, reserve, restart, sync_order_event, with_deadline,
}
use discord_option_tailer.Store.Orders.Writes.{
  arm_entry_deadline-ok, persist_active_order_body-ok, reject_before_submission-ok, reserve-ok,
}
use discord_option_tailer.Store.Rows.{
  Body, Contract, Decision, Order, is_terminal, rejected, unknown,
}
use discord_option_tailer.Store.State.{Message, Store, find_order, has_id, positions, update_order}
use discord_option_tailer.Store.State.Keys.{apply_to, find_order-update_order}

-- Every ended order of the first store is in the second, with its status and its fills.
abbrev pub KeepsEndings : Store → Store → Type 0
KeepsEndings s t =
    (k : ℕ) (o : Order)
    → find_order k s ≡ some o
    → is_terminal o.status ≡ true
    → (o' : Order) × (find_order k t ≡ some o')
      × (o'.status ≡ o.status)
      × (o'.filled_quantity ≡ o.filled_quantity)

-- An update of one row that has not ended keeps the endings.
update_order-KeepsEndings :
    (k : ℕ) (f : Order → Order) (s : Store) (row : Order)
    → ((o : Order) → (f o).id ≡ o.id)
    → find_order k s ≡ some row
    → is_terminal row.status ≡ false
    → KeepsEndings s (update_order k f s)
update_order-KeepsEndings k f s row same found active j o at_j ended =
    (o, ground (arith, find_order-update_order j k f s same, ==_iff j k), refl, refl)

pub find-map_kept :
    (k : ℕ) (g : Order → Order) (os : List Order)
    → ((o : Order) → (g o).id ≡ o.id)
    → find (has_id k) (map g os) ≡ apply_to g (find (has_id k) os)
find-map_kept k g [] same = refl
find-map_kept k g (o ∷ os) same = ground (arith, same o, find-map_kept k g os same)

restart-KeepsEndings : (s : Store) → KeepsEndings s (restart s)
unfolding restart
restart-KeepsEndings s k o found ended =
    let kept = find-map_kept k after_crash s.orders (λ o'. ground arith) in
    (o, ground arith, refl, refl)

mark_unknown-KeepsEndings : (s : Store) (k : ℕ) → KeepsEndings s (mark_unknown k s)
unfolding mark_unknown sync_order_event
mark_unknown-KeepsEndings s k j o found ended =
    let kept = find_order-update_order j k (λ o'. record o' { status = unknown }) s (λ o'. refl) in
    (o, ground (arith, kept, ==_iff j k), refl, refl)

reserve-KeepsEndings :
    (m : Message) (d : Decision) (c : Contract) (k : ℕ) (body : Body) (now : ℕ) (s t : Store)
    → reserve m d c k body now s ≡ ok t
    → KeepsEndings s t
unfolding new_order
reserve-KeepsEndings m d c k body now s t h j o found ended =
    let (fresh, added, same) = reserve-ok m d c k body now s t h in
    (o, rw added (ground (arith, ==_iff k j)), refl, refl)

-- `apply_result` writes to the row it is called for, and to no other.
pub apply_result-others :
    (j k : ℕ) (r : BrokerResult) (s : Store)
    → j ≢ k
    → Run k r s
    → find_order j (apply_result k r s).store ≡ find_order j s
unfolding sync_order_event acknowledge
apply_result-others j k r s other u =
    let broker = u.broker in
    let kept = acknowledge k u.row broker s in
    let settled = find_order-update_order j k (settle u.fill broker) kept (λ o. refl) in
    let known =
      find_order-update_order j k (λ o. record o { broker_id = some broker }) s (λ o. refl) in
    rw u.result (ground (arith, settled, known, ==_iff j k))

apply_result-KeepsEndings :
    (k : ℕ) (r : BrokerResult) (s : Store) → KeepsEndings s (apply_result k r s).store
apply_result-KeepsEndings k r s j o found ended = elim (Option-cases (apply_result k r s).error) [
  | inl taken ↦ elim (ℕ_discrete j k) [
    | yes e ↦
        let (positions, (o', found', status, filled_same)) =
          apply_result_terminal k r s (rw e at found) ended taken in
        (o', rw e found', status, filled_same)
    | no other ↦
        (o, apply_result-others j k r s other (apply_result-Run k r s taken) ∙ found, refl, refl)
  ]
  | inr (e, refused) ↦ elim (apply_result-Refused k r s refused) [
    | inl same ↦ (o, rw same found, refl, refl)
    | inr (row, b, at_k, named, fresh, written) ↦
        let seen =
          find_order-update_order j k (λ o'. record o' { broker_id = some b }) s (λ o'. refl) in
        elim (ℕ_discrete j k) [
          | yes q ↦ (record o { broker_id = some b }, rw written (ground (arith, seen)), refl, refl)
          | no other ↦ (o, rw written (ground (arith, seen)), refl, refl)
        ]
  ]
]

-- Each write keeps the endings.
pub Step-KeepsEndings : {s t : Store} → Step s t → KeepsEndings s t
Step-KeepsEndings {s} {t} (reserved m d c k body now h) =
    reserve-KeepsEndings m d c k body now s t h
Step-KeepsEndings {s} {t} (armed k body now deadline keeps h) =
    let (row, found, active, e) = arm_entry_deadline-ok k body now s t deadline h in
    rw e (
      update_order-KeepsEndings k (λ o. record o { body = with_deadline deadline body }) s row
        (λ o. refl) found (rw active))
Step-KeepsEndings {s} {t} (persisted k body keeps h) =
    let (row, found, active, e) = persist_active_order_body-ok k body s t h in
    rw e
      (update_order-KeepsEndings k (λ o. record o { body = body }) s row (λ o. refl) found active)
Step-KeepsEndings {s} {t} (rejected_early k h) =
    let (row, found, active, unnamed, unfilled, e) = reject_before_submission-ok k s t h in
    rw e (
      update_order-KeepsEndings k (λ o. record o { status = rejected }) s row (λ o. refl) found
        (rw active))
Step-KeepsEndings (marked s k) = mark_unknown-KeepsEndings s k
Step-KeepsEndings (applied s k r) = apply_result-KeepsEndings k r s
Step-KeepsEndings (restarted s) = restart-KeepsEndings s
Step-KeepsEndings (noted os ps) = λ k o found over. (o, rw os found, refl, refl)

-- An order that has ended keeps its status and its filled quantity through every later write:
-- reservations, deadlines, body updates, uncertain submissions, broker answers, restarts, and writes
-- that leave orders and positions alone.
pub Reach-KeepsEndings : {s t : Store} → Reach s t → KeepsEndings s t
Reach-KeepsEndings here k o found ended = (o, found, refl, refl)
Reach-KeepsEndings {s} (next {t = u} r st) k o found ended =
    let (o', found', status, filled_same) = Reach-KeepsEndings r k o found ended in
    let (o'', found'', status', filled_same') =
      Step-KeepsEndings st k o' found' (rw status ended) in
    (o'', found'', status' ∙ status, filled_same' ∙ filled_same)
