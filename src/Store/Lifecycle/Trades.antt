-- ===== src/Store/Lifecycle/Trades.antt =====
-- The trade of an order over all writes of class Store (relay/core.py).
use discord_option_tailer.Base.{
  ==_iff, Bool-cases, Option, Option-cases, ap, arith, find, inl, inr, none, ok, refl, some, subst,
  ℕ, ℕ_discrete, ◌∙◌, ◌≡◌, ◌⊎◌,
}
use discord_option_tailer.Store.Fills.{BrokerResult, apply_result, settle}
use discord_option_tailer.Store.Fills.Accepted.{apply_result-Refused, apply_result-Run}
use discord_option_tailer.Store.Fills.Results.{apply_result-find}
use discord_option_tailer.Store.Lifecycle.{
  Reach, Step, applied, armed, here, marked, next, noted, persisted, rejected_early, reserved,
  restarted,
}
use discord_option_tailer.Store.Lifecycle.Endings.{apply_result-others, find-map_kept}
use discord_option_tailer.Store.Orders.{
  after_crash, mark_unknown, new_order, reserve, restart, sync_order_event, with_deadline,
}
use discord_option_tailer.Store.Orders.Writes.{
  arm_entry_deadline-ok, persist_active_order_body-ok, reject_before_submission-ok, reserve-ok,
}
use discord_option_tailer.Store.Rows.{
  Body, Contract, Decision, Order, is_terminal, rejected, unknown,
}
use discord_option_tailer.Store.State.{Message, Store, find_order, has_id, update_order}
use discord_option_tailer.Store.State.Keys.{find_order-update_order}

-- Every order of the first store is in the second, with its side and its quantity.
abbrev pub KeepsTrades : Store → Store → Type 0
KeepsTrades s t =
    (k : ℕ) (o : Order)
    → find_order k s ≡ some o
    → (o' : Order) × (find_order k t ≡ some o')
      × (o'.body.side ≡ o.body.side)
      × (o'.body.quantity ≡ o.body.quantity)

-- An update that keeps the trade of the one row that it writes to.
update_order-KeepsTrades :
    (k : ℕ) (f : Order → Order) (s : Store) (row : Order)
    → ((o : Order) → (f o).id ≡ o.id)
    → find_order k s ≡ some row
    → (f row).body.side ≡ row.body.side
    → (f row).body.quantity ≡ row.body.quantity
    → KeepsTrades s (update_order k f s)
update_order-KeepsTrades k f s row same found side count j o at_j = elim (ℕ_discrete j k) [
  | yes e ↦
      let same_row : row ≡ o = ground (arith, found, at_j) in
      (
        f o,
        ground (arith, find_order-update_order j k f s same),
        subst (λ x. (f x).body.side ≡ x.body.side) same_row side,
        subst (λ x. (f x).body.quantity ≡ x.body.quantity) same_row count,
      )
  | no other ↦ (o, ground (arith, find_order-update_order j k f s same, ==_iff j k), refl, refl)
]

kept_by :
    (k : ℕ) (f : Order → Order) (s : Store)
    → ((o : Order) → (f o).id ≡ o.id)
    → ((o : Order) → ((f o).body.side ≡ o.body.side) × ((f o).body.quantity ≡ o.body.quantity))
    → KeepsTrades s (update_order k f s)
kept_by k f s same keeps j o at_j = elim (ℕ_discrete j k) [
  | yes e ↦ (f o, ground (arith, find_order-update_order j k f s same), (keeps o).0, (keeps o).1)
  | no other ↦ (o, ground (arith, find_order-update_order j k f s same, ==_iff j k), refl, refl)
]

KeepsTrades-trans : (s t u : Store) → KeepsTrades s t → KeepsTrades t u → KeepsTrades s u
KeepsTrades-trans s t u first later k o found =
    let (o', found', side, count) = first k o found in
    let (o'', found'', side', count') = later k o' found' in
    (o'', found'', side' ∙ side, count' ∙ count)

reserve-KeepsTrades :
    (m : Message) (d : Decision) (c : Contract) (k : ℕ) (body : Body) (now : ℕ) (s t : Store)
    → reserve m d c k body now s ≡ ok t
    → KeepsTrades s t
unfolding new_order
reserve-KeepsTrades m d c k body now s t h j o found =
    let (fresh, added, same) = reserve-ok m d c k body now s t h in
    (o, rw added (ground (arith, ==_iff k j)), refl, refl)

restart-KeepsTrades : (s : Store) → KeepsTrades s (restart s)
unfolding restart
restart-KeepsTrades s k o found =
    let kept = find-map_kept k after_crash s.orders (λ o'. ground arith) in
    (after_crash o, ground arith, ground arith, ground arith)

apply_result-KeepsTrades :
    (k : ℕ) (r : BrokerResult) (s : Store) → KeepsTrades s (apply_result k r s).store
apply_result-KeepsTrades k r s j o found = elim (Option-cases (apply_result k r s).error) [
  | inl taken ↦
      let u = apply_result-Run k r s taken in
      elim (ℕ_discrete j k) [
        | yes e ↦
            let same_row : u.row ≡ o = ground (arith, u.found) in
            (
              settle u.fill u.broker u.row,
              rw e (apply_result-find k r s u),
              ap (λ x. x.body.side) same_row,
              ap (λ x. x.body.quantity) same_row,
            )
        | no other ↦ (o, apply_result-others j k r s other u ∙ found, refl, refl)
      ]
  | inr (e, refused) ↦ elim (apply_result-Refused k r s refused) [
    | inl same ↦ (o, rw same found, refl, refl)
    | inr (row, b, at_k, named, fresh, written) ↦
        let name : Order → Order = λ o'. record o' { broker_id = some b } in
        let kept = kept_by k name s (λ o'. refl) (λ o'. (refl, refl)) j o found in rw written kept
  ]
]

pub mark_unknown-orders :
    (s : Store) (k : ℕ)
    → ((mark_unknown k s).orders ≡ s.orders)
      ⊎ ((mark_unknown k s).orders ≡ (update_order k (λ o. record o { status = unknown }) s).orders)
unfolding mark_unknown sync_order_event
mark_unknown-orders s k = elim (Option-cases (find_order k s)) [
  | inl missing ↦ inl (ground arith)
  | inr (row, at_k) ↦ elim (Bool-cases (is_terminal row.status)) [
    | inl e ↦ inl (ground arith)
    | inr e ↦ inr (ground arith)
  ]
]

mark_unknown-KeepsTrades : (s : Store) (k : ℕ) → KeepsTrades s (mark_unknown k s)
mark_unknown-KeepsTrades s k j o found = elim (mark_unknown-orders s k) [
  | inl e ↦ (o, ap (find (has_id j)) e ∙ found, refl, refl)
  | inr e ↦
      let write : Order → Order = λ x. record x { status = unknown } in
      let (o', there, side, count) = kept_by k write s (λ x. refl) (λ x. (refl, refl)) j o found in
      (o', ap (find (has_id j)) e ∙ there, side, count)
]

with_deadline-trade :
    (deadline : Option ℕ) (body : Body)
    → ((with_deadline deadline body).side ≡ body.side)
      × ((with_deadline deadline body).quantity ≡ body.quantity)
with_deadline-trade none body = (refl, refl)
with_deadline-trade (some at) body = (refl, refl)

Step-KeepsTrades : {s t : Store} → Step s t → KeepsTrades s t
Step-KeepsTrades {s} {t} (reserved m d c k body now h) = reserve-KeepsTrades m d c k body now s t h
Step-KeepsTrades {s} {t} (armed k body now deadline keeps h) =
    let (row, found, active, e) = arm_entry_deadline-ok k body now s t deadline h in
    let (side, count) = with_deadline-trade deadline body in
    rw e (
      update_order-KeepsTrades k (λ o. record o { body = with_deadline deadline body }) s row
        (λ o. refl) found (side ∙ (keeps row found).0) (count ∙ (keeps row found).1))
Step-KeepsTrades {s} {t} (persisted k body keeps h) =
    let (row, found, active, e) = persist_active_order_body-ok k body s t h in
    rw e (
      update_order-KeepsTrades k (λ o. record o { body = body }) s row (λ o. refl) found
        (keeps row found).0 (keeps row found).1)
Step-KeepsTrades {s} {t} (rejected_early k h) =
    let (row, found, active, unnamed, unfilled, e) = reject_before_submission-ok k s t h in
    rw e (kept_by k (λ o. record o { status = rejected }) s (λ o. refl) (λ o. (refl, refl)))
Step-KeepsTrades (marked s k) = mark_unknown-KeepsTrades s k
Step-KeepsTrades (applied s k r) = apply_result-KeepsTrades k r s
Step-KeepsTrades (restarted s) = restart-KeepsTrades s
Step-KeepsTrades (noted os ps) = λ k o found. (o, rw os found, refl, refl)

-- Every order keeps its side and its quantity.
pub Reach-KeepsTrades : {s t : Store} → Reach s t → KeepsTrades s t
Reach-KeepsTrades here = λ k o found. (o, found, refl, refl)
Reach-KeepsTrades {s} {t} (next {t = u} r st) =
    KeepsTrades-trans s u t (Reach-KeepsTrades r) (Step-KeepsTrades st)
