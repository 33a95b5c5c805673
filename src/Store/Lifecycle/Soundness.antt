-- ===== src/Store/Lifecycle/Soundness.antt =====
-- The order rows over all writes of class Store (relay/core.py).
use discord_option_tailer.Base.{
  All, All-find, All-map, All-update, All-update_found, Bool-cases, Option, Option-cases, arith,
  false, inl, inr, is_some, none, refl, some, true, ℕ, ◌∙◌, ◌≡◌, ◌≤◌,
}
use discord_option_tailer.Store.Fills.{BrokerResult, Fill, acknowledge, apply_result, settle}
use discord_option_tailer.Store.Fills.Accepted.{apply_result-Refused, apply_result-Run}
use discord_option_tailer.Store.Fills.Checks.{IsAccepted, check_fill-IsAccepted}
use discord_option_tailer.Store.Fills.Results.{acknowledge-find}
use discord_option_tailer.Store.Lifecycle.{
  Reach, Step, applied, armed, here, marked, next, noted, persisted, rejected_early, reserved,
  restarted,
}
use discord_option_tailer.Store.Orders.{
  after_crash, mark_unknown, new_order, restart, sync_order_event, with_deadline,
}
use discord_option_tailer.Store.Orders.Writes.{
  arm_entry_deadline-ok, persist_active_order_body-ok, reject_before_submission-ok, reserve-ok,
}
use discord_option_tailer.Store.Rows.{
  Body, Order, Status, is_filled, is_reported, is_submitting, rejected, unknown,
}
use discord_option_tailer.Store.State.{Store, has_id}

-- The fills are within the order, complete where the status says so, and none before an answer.
pub record IsSound (o : Order) : Type 0 where
  pub within_order : o.filled_quantity ≤ o.body.quantity
  pub filled_whole : is_filled o.status ≡ true → o.filled_quantity ≡ o.body.quantity
  pub unfilled : is_submitting o.status ≡ true → o.filled_quantity ≡ 0

abbrev pub AreSound : Store → Type 0
AreSound s = All IsSound s.orders

body-IsSound :
    (o : Order) (body : Body)
    → body.quantity ≡ o.body.quantity
    → IsSound o
    → IsSound (record o { body = body })
body-IsSound o body e h = record {
  within_order = rw e h.within_order;
  filled_whole = rw e h.filled_whole;
  unfilled = h.unfilled;
}

-- A status that is neither "filled" nor "submitting" asks nothing of the fills.
status-IsSound :
    (o : Order) (st : Status)
    → is_filled st ≡ false
    → is_submitting st ≡ false
    → IsSound o
    → IsSound (record o { status = st })
status-IsSound o st whole early h = record {
  within_order = h.within_order;
  filled_whole = λ e. absurd (ground arith);
  unfilled = λ e. absurd (ground arith);
}

broker-IsSound : (o : Order) (b : ℕ) → IsSound o → IsSound (record o { broker_id = some b })
broker-IsSound o b h = record {
  within_order = h.within_order;
  filled_whole = h.filled_whole;
  unfilled = h.unfilled;
}

reported_not_submitting : (st : Status) → is_reported st ≡ true → is_submitting st ≡ false
reported_not_submitting st h = ground arith

settle-IsSound :
    (o : Order) (r : BrokerResult) (f : Fill) (b : ℕ) → IsAccepted o r f → IsSound (settle f b o)
settle-IsSound o r f b a = record {
  within_order = a.within_order;
  filled_whole = a.filled_whole;
  unfilled = λ e. absurd (ground (arith, reported_not_submitting f.status a.is_reported_lem));
}

acknowledge-AreSound :
    (k : ℕ) (o : Order) (b : ℕ) (s : Store) → AreSound s → AreSound (acknowledge k o b s)
unfolding acknowledge
acknowledge-AreSound k o b s h = elim (Bool-cases (is_some o.broker_id)) [
  | inl e ↦ rw e h
  | inr e ↦ rw e (
      All-update IsSound (has_id k) (λ o'. record o' { broker_id = some b }) s.orders
        (λ o' h'. broker-IsSound o' b h') h)
]

apply_result-AreSound :
    (k : ℕ) (r : BrokerResult) (s : Store) → AreSound s → AreSound (apply_result k r s).store
unfolding sync_order_event
apply_result-AreSound k r s h = elim (Option-cases (apply_result k r s).error) [
  | inl taken ↦
      let u = apply_result-Run k r s taken in
      let kept = acknowledge-find k u.broker s u.found u.same_identity in
      let facts = check_fill-IsAccepted u.row r u.fill u.checked in
      rw u.result (
        All-update_found IsSound (has_id k) (settle u.fill u.broker)
          (acknowledge k u.row u.broker s).orders kept
          (settle-IsSound u.row r u.fill u.broker facts)
          (acknowledge-AreSound k u.row u.broker s h))
  | inr (e, refused) ↦ elim (apply_result-Refused k r s refused) [
    | inl same ↦ rw same h
    | inr (o, b, found, named, fresh, written) ↦ rw written (
        All-update IsSound (has_id k) (λ o'. record o' { broker_id = some b }) s.orders
          (λ o' h'. broker-IsSound o' b h') h)
  ]
]

mark_unknown-AreSound : (s : Store) (k : ℕ) → AreSound s → AreSound (mark_unknown k s)
unfolding mark_unknown sync_order_event
mark_unknown-AreSound s k h = ground (
  arith,
  All-update IsSound (has_id k) (λ o. record o { status = unknown }) s.orders
      (λ o h'. status-IsSound o unknown refl refl h') h,
)

crash-IsSound : (o : Order) → IsSound o → IsSound (after_crash o)
crash-IsSound o h = elim (Bool-cases (is_submitting o.status)) [
  | inl e ↦ rw e (status-IsSound o unknown refl refl h)
  | inr e ↦ rw e h
]

with_deadline-quantity :
    (deadline : Option ℕ) (body : Body) → (with_deadline deadline body).quantity ≡ body.quantity
with_deadline-quantity none body = refl
with_deadline-quantity (some at) body = refl

-- Each write keeps the rows sound.
pub Step-AreSound : {s t : Store} → Step s t → AreSound s → AreSound t
unfolding restart
Step-AreSound {s} {t} (reserved m d c k body now h) a =
    let (fresh, added, same) = reserve-ok m d c k body now s t h in
    rw added (
      unfold new_order in
      (
        record {
          within_order = omega arith;
          filled_whole = λ e. absurd (ground arith);
          unfilled = λ e. refl;
        },
        a,
      ))
Step-AreSound {s} {t} (armed k body now deadline keeps h) a =
    let (row, found, active, e) = arm_entry_deadline-ok k body now s t deadline h in
    rw e (
      All-update_found IsSound (has_id k) (λ o. record o { body = with_deadline deadline body })
        s.orders found
        (body-IsSound row (with_deadline deadline body)
          (with_deadline-quantity deadline body ∙ (keeps row found).1)
          (All-find IsSound (has_id k) s.orders a found))
        a)
Step-AreSound {s} {t} (persisted k body keeps h) a =
    let (row, found, active, e) = persist_active_order_body-ok k body s t h in
    rw e (
      All-update_found IsSound (has_id k) (λ o. record o { body = body }) s.orders found
        (body-IsSound row body (keeps row found).1 (All-find IsSound (has_id k) s.orders a found))
        a)
Step-AreSound {s} {t} (rejected_early k h) a =
    let (row, found, active, unnamed, unfilled, e) = reject_before_submission-ok k s t h in
    rw e (
      All-update IsSound (has_id k) (λ o. record o { status = rejected }) s.orders
        (λ o h'. status-IsSound o rejected refl refl h') a)
Step-AreSound (marked s k) a = mark_unknown-AreSound s k a
Step-AreSound (applied s k r) a = apply_result-AreSound k r s a
Step-AreSound (restarted s) a = All-map IsSound after_crash s.orders crash-IsSound a
Step-AreSound (noted os ps) a = rw os a

-- From a ledger with sound rows, after every sequence of order writes and of writes that leave orders
-- and positions alone, no order is filled beyond its quantity, an order whose status
-- is "filled" is filled whole, and an order that still awaits its submission has no fill.
pub Reach-AreSound : {s t : Store} → AreSound s → Reach s t → AreSound t
Reach-AreSound h here = h
Reach-AreSound h (next r st) = Step-AreSound st (Reach-AreSound h r)
