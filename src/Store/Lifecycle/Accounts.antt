-- ===== src/Store/Lifecycle/Accounts.antt =====
-- The positions against the recorded fills, over all writes of class Store (relay/core.py).
use discord_option_tailer.Base.{
  Bool-cases, Option, arith, inl, inr, none, ok, refl, some, sum_by-map_same, sum_by-update,
  sum_by-update_same, ℕ, ◌∙◌, ◌≡◌,
}
use discord_option_tailer.Store.Fills.Balance.{IsBalanced, apply_result-IsBalanced, bought, sold}
use discord_option_tailer.Store.Lifecycle.{
  Reach, Step, applied, armed, here, marked, next, noted, persisted, rejected_early, reserved,
  restarted,
}
use discord_option_tailer.Store.Orders.{
  after_crash, mark_unknown, new_order, reserve, restart, sync_order_event, with_deadline,
}
use discord_option_tailer.Store.Orders.Writes.{
  arm_entry_deadline-ok, persist_active_order_body-ok, reject_before_submission-ok, reserve-ok,
}
use discord_option_tailer.Store.Rows.{
  Body, Contract, Decision, Order, Status, is_submitting, rejected, unknown,
}
use discord_option_tailer.Store.State.{Message, Store, find_order, has_id, order_at, update_order}

-- The sums over the rows do not see a write that leaves the fills and the side alone.
same_sums :
    (s : Store) (f : Order → Order)
    → ((g : ℕ) (c : Contract) (o : Order)
        → (bought g c (f o) ≡ bought g c o) × (sold g c (f o) ≡ sold g c o))
    → (k : ℕ) → IsBalanced s
    → IsBalanced (update_order k f s)
same_sums s f same k h = λ g c.
    rw
      (
        sum_by-update_same (bought g c) (has_id k) f s.orders (λ o. (same g c o).0),
        sum_by-update_same (sold g c) (has_id k) f s.orders (λ o. (same g c o).1),
      )
      (h g c)

-- A body that names the same trade, on the one row that it replaces.
same_side :
    (g : ℕ) (c : Contract) (o : Order) (body : Body)
    → body.side ≡ o.body.side
    → (bought g c (record o { body = body }) ≡ bought g c o)
      × (sold g c (record o { body = body }) ≡ sold g c o)
unfolding bought sold order_at
same_side g c o body e = (rw e, rw e)

body-IsBalanced :
    (k : ℕ) (body : Body) (s : Store) (row : Order)
    → find_order k s ≡ some row
    → body.side ≡ row.body.side
    → IsBalanced s
    → IsBalanced (update_order k (λ o. record o { body = body }) s)
body-IsBalanced k body s row found side h g c =
    let f = λ (o : Order). record o { body = body } in
    let buys = sum_by-update (bought g c) (has_id k) f s.orders found in
    let sales = sum_by-update (sold g c) (has_id k) f s.orders found in
    let (one, other) = same_side g c row body side in omega (arith, buys, sales, one, other, h g c)

pub with_deadline-side :
    (deadline : Option ℕ) (body : Body) → (with_deadline deadline body).side ≡ body.side
with_deadline-side none body = refl
with_deadline-side (some at) body = refl

reserve-IsBalanced :
    (m : Message) (d : Decision) (c : Contract) (k : ℕ) (body : Body) (now : ℕ) (s t : Store)
    → reserve m d c k body now s ≡ ok t
    → IsBalanced s
    → IsBalanced t
unfolding new_order bought sold
reserve-IsBalanced m d c k body now s t h b g c' =
    let (fresh, added, same) = reserve-ok m d c k body now s t h in
    rw (added, same) (ground (arith, b g c'))

status_sums :
    (g : ℕ) (c : Contract) (o : Order) (st : Status)
    → (bought g c (record o { status = st }) ≡ bought g c o)
      × (sold g c (record o { status = st }) ≡ sold g c o)
unfolding bought sold order_at
status_sums g c o st = (refl, refl)

crash_sums :
    (g : ℕ) (c : Contract) (o : Order)
    → (bought g c (after_crash o) ≡ bought g c o) × (sold g c (after_crash o) ≡ sold g c o)
crash_sums g c o = elim (Bool-cases (is_submitting o.status)) [
  | inl e ↦ rw e (status_sums g c o unknown)
  | inr e ↦ rw e (refl, refl)
]

restart-IsBalanced : (s : Store) → IsBalanced s → IsBalanced (restart s)
unfolding restart
restart-IsBalanced s h g c =
    rw
      (
        sum_by-map_same (bought g c) after_crash s.orders (λ o. (crash_sums g c o).0),
        sum_by-map_same (sold g c) after_crash s.orders (λ o. (crash_sums g c o).1),
      )
      (h g c)

mark_unknown-IsBalanced : (s : Store) (k : ℕ) → IsBalanced s → IsBalanced (mark_unknown k s)
unfolding mark_unknown sync_order_event
mark_unknown-IsBalanced s k h g c = ground (
  arith,
  h g c,
  same_sums s (λ o. record o { status = unknown }) (λ g' c' o. status_sums g' c' o unknown) k h g c,
)

-- Each write keeps every holding the net of the recorded fills.
pub Step-IsBalanced : {s t : Store} → Step s t → IsBalanced s → IsBalanced t
Step-IsBalanced {s} {t} (reserved m d c k body now h) b =
    reserve-IsBalanced m d c k body now s t h b
Step-IsBalanced {s} {t} (armed k body now deadline keeps h) b =
    let (row, found, active, e) = arm_entry_deadline-ok k body now s t deadline h in
    rw e (
      body-IsBalanced k (with_deadline deadline body) s row found
        (with_deadline-side deadline body ∙ (keeps row found).0) b)
Step-IsBalanced {s} {t} (persisted k body keeps h) b =
    let (row, found, active, e) = persist_active_order_body-ok k body s t h in
    rw e (body-IsBalanced k body s row found (keeps row found).0 b)
Step-IsBalanced {s} {t} (rejected_early k h) b =
    let (row, found, active, unnamed, unfilled, e) = reject_before_submission-ok k s t h in
    rw e
      (same_sums s (λ o. record o { status = rejected }) (λ g c o. status_sums g c o rejected) k b)
Step-IsBalanced (marked s k) b = mark_unknown-IsBalanced s k b
Step-IsBalanced (applied s k r) b = apply_result-IsBalanced k r s b
Step-IsBalanced (restarted s) b = restart-IsBalanced s b
Step-IsBalanced (noted os ps) b = λ g c. rw os (rw ps (b g c))

-- From a ledger in which each holding is the net of the recorded fills of its source and contract,
-- every sequence of reservations, body writes that keep the side and the quantity, uncertain or
-- early-rejected submissions, broker answers, restarts and writes that leave orders and positions
-- alone leads to such a ledger.
pub Reach-IsBalanced : {s t : Store} → IsBalanced s → Reach s t → IsBalanced t
Reach-IsBalanced h here = h
Reach-IsBalanced h (next r st) = Step-IsBalanced st (Reach-IsBalanced h r)
