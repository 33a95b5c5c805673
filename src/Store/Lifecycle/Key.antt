-- ===== src/Store/Lifecycle/Key.antt =====
-- The primary key of the orders over all writes of class Store (relay/core.py).
use discord_option_tailer.Base.{
  ==_iff, All, Bool-cases, List, Option-cases, [], arith, find, inl, inr, is_some, map, none, refl,
  some, subst, update, ℕ, ◌==◌, ◌∷◌, ◌≡◌,
}
use discord_option_tailer.Store.Fills.{BrokerResult, acknowledge, apply_result, settle}
use discord_option_tailer.Store.Fills.Accepted.{apply_result-Refused, apply_result-Run}
use discord_option_tailer.Store.Lifecycle.{
  Reach, Step, applied, armed, here, marked, next, noted, persisted, rejected_early, reserved,
  restarted,
}
use discord_option_tailer.Store.Lifecycle.Endings.{find-map_kept}
use discord_option_tailer.Store.Lifecycle.Trades.{mark_unknown-orders}
use discord_option_tailer.Store.Orders.{
  after_crash, mark_unknown, new_order, restart, sync_order_event, with_deadline,
}
use discord_option_tailer.Store.Orders.Writes.{
  arm_entry_deadline-ok, persist_active_order_body-ok, reject_before_submission-ok, reserve-ok,
}
use discord_option_tailer.Store.Rows.{Order, rejected, unknown}
use discord_option_tailer.Store.State.{Store, has_id}
use discord_option_tailer.Store.State.Keys.{find-update_keyed}

-- No two of the orders have one ID.
abbrev pub HaveKeys : List Order → Type 0
HaveKeys [] = Unit
HaveKeys (o ∷ os) = (find (has_id o.id) os ≡ none) × HaveKeys os

update-HaveKeys :
    (k : ℕ) (f : Order → Order) (os : List Order)
    → ((o : Order) → (f o).id ≡ o.id)
    → HaveKeys os
    → HaveKeys (update (has_id k) f os)
update-HaveKeys k f [] same keys = tt
update-HaveKeys k f (o ∷ os) same (fresh, keys) = elim (Bool-cases (has_id k o)) [
  | inl e ↦ rw e (rw (same o) fresh, keys)
  | inr e ↦
      rw e (
        ground (arith, find-update_keyed o.id k f os same, fresh),
        update-HaveKeys k f os same keys,
      )
]

map-HaveKeys :
    (f : Order → Order) (os : List Order)
    → ((o : Order) → (f o).id ≡ o.id)
    → HaveKeys os
    → HaveKeys (map f os)
map-HaveKeys f [] same keys = tt
map-HaveKeys f (o ∷ os) same (fresh, keys) =
    (ground (arith, same o, find-map_kept o.id f os same, fresh), map-HaveKeys f os same keys)

acknowledge-HaveKeys :
    (k : ℕ) (row : Order) (b : ℕ) (s : Store)
    → HaveKeys s.orders
    → HaveKeys (acknowledge k row b s).orders
unfolding acknowledge
acknowledge-HaveKeys k row b s keys = elim (Bool-cases (is_some row.broker_id)) [
  | inl e ↦ rw e keys
  | inr e ↦
      rw e (update-HaveKeys k (λ o. record o { broker_id = some b }) s.orders (λ o. refl) keys)
]

apply_result-HaveKeys :
    (k : ℕ) (r : BrokerResult) (s : Store)
    → HaveKeys s.orders
    → HaveKeys (apply_result k r s).store.orders
unfolding sync_order_event
apply_result-HaveKeys k r s keys = elim (Option-cases (apply_result k r s).error) [
  | inl taken ↦
      let u = apply_result-Run k r s taken in
      rw u.result (
        update-HaveKeys k (settle u.fill u.broker) (acknowledge k u.row u.broker s).orders
          (λ o. refl) (acknowledge-HaveKeys k u.row u.broker s keys))
  | inr (e, refused) ↦ elim (apply_result-Refused k r s refused) [
    | inl same ↦ rw same keys
    | inr (o, b, found, named, fresh, written) ↦
        rw written
          (update-HaveKeys k (λ o'. record o' { broker_id = some b }) s.orders (λ o'. refl) keys)
  ]
]

mark_unknown-HaveKeys : (s : Store) (k : ℕ) → HaveKeys s.orders → HaveKeys (mark_unknown k s).orders
mark_unknown-HaveKeys s k keys = elim (mark_unknown-orders s k) [
  | inl e ↦ rw e keys
  | inr e ↦ rw e (update-HaveKeys k (λ o. record o { status = unknown }) s.orders (λ o. refl) keys)
]

Step-HaveKeys : {s t : Store} → Step s t → HaveKeys s.orders → HaveKeys t.orders
unfolding restart new_order
Step-HaveKeys {s} {t} (reserved m d c k body now h) keys =
    let (fresh, added, same) = reserve-ok m d c k body now s t h in rw added (fresh, keys)
Step-HaveKeys {s} {t} (armed k body now deadline keeps h) keys =
    let (row, found, active, e) = arm_entry_deadline-ok k body now s t deadline h in
    rw e (
      update-HaveKeys k (λ o. record o { body = with_deadline deadline body }) s.orders (λ o. refl)
        keys)
Step-HaveKeys {s} {t} (persisted k body keeps h) keys =
    let (row, found, active, e) = persist_active_order_body-ok k body s t h in
    rw e (update-HaveKeys k (λ o. record o { body = body }) s.orders (λ o. refl) keys)
Step-HaveKeys {s} {t} (rejected_early k h) keys =
    let (row, found, active, unnamed, unfilled, e) = reject_before_submission-ok k s t h in
    rw e (update-HaveKeys k (λ o. record o { status = rejected }) s.orders (λ o. refl) keys)
Step-HaveKeys (marked s k) keys = mark_unknown-HaveKeys s k keys
Step-HaveKeys (applied s k r) keys = apply_result-HaveKeys k r s keys
Step-HaveKeys (restarted s) keys = map-HaveKeys after_crash s.orders (λ o. ground arith) keys
Step-HaveKeys (noted os ps) keys = rw os keys

pub Reach-HaveKeys : {s t : Store} → HaveKeys s.orders → Reach s t → HaveKeys t.orders
Reach-HaveKeys keys here = keys
Reach-HaveKeys keys (next r st) = Step-HaveKeys st (Reach-HaveKeys keys r)

found_under :
    (o : Order) (os xs : List Order)
    → find (has_id o.id) os ≡ none
    → All (λ x. find (has_id x.id) os ≡ some x) xs
    → All (λ x. find (has_id x.id) (o ∷ os) ≡ some x) xs
found_under o os [] fresh found = tt
found_under o os (x ∷ xs) fresh (at_x, rest) = (
  elim (Bool-cases (o.id == x.id)) [
    | inl e ↦
        let same_id : o.id ≡ x.id = (==_iff o.id x.id).0 e in
        absurd (ground (arith, subst (λ k. find (has_id k) os ≡ none) same_id fresh))
    | inr e ↦ rw e at_x
  ],
  found_under o os xs fresh rest,
)

-- Each order is the one that its ID finds.
pub HaveKeys-found : (os : List Order) → HaveKeys os → All (λ o. find (has_id o.id) os ≡ some o) os
HaveKeys-found [] keys = tt
HaveKeys-found (o ∷ os) (fresh, keys) =
    (rw ((==_iff o.id o.id).1 refl) refl, found_under o os os fresh (HaveKeys-found os keys))
