-- ===== src/Stops/Clear.antt =====
-- What `cancel` and `before_exit` of relay/stops.py leave behind when they return.
use discord_option_tailer.Base.{
  All, Bool, Bool-cases, Except, List, Option, Option-cases, [], ap, arith, inl, inr, is_some, none,
  not, ok, raise, raise_if, refl, some, subst, suc, sym, true, zero, ℕ, ◌&&◌, ◌==◌, ◌∙◌, ◌∷◌, ◌≡◌,
}
use discord_option_tailer.Engine.Guards.{Binding, Hold, check_execution_mode, kill_switch_present}
use discord_option_tailer.Stops.{
  Act, active_orders, checks, get_stop, owned, returns, set_state, ◌▷◌,
}
use discord_option_tailer.Stops.Cancel.{
  Replies, before_exit, cancel, cancel_all, cancel_one, check_unfilled, clear_active, clear_stops,
  first_reply, is_over, later_replies, poll, quantity_of, rearm_found, rearm_later, take_reply,
}
use discord_option_tailer.Stops.Moves.{
  Moves, Reach-trans, bind-Moves, bind-eq-ok, cancel-Moves, cancel_all-Moves, checks-Moves,
  finish_cancel, set_state-Moves,
}
use discord_option_tailer.Store.Fills.{BrokerResult, apply_result, settle}
use discord_option_tailer.Store.Fills.Accepted.{apply_result-Run}
use discord_option_tailer.Store.Fills.Checks.{check_fill-IsAccepted}
use discord_option_tailer.Store.Fills.Results.{apply_result-find}
use discord_option_tailer.Store.Lifecycle.{Reach, here}
use discord_option_tailer.Store.Lifecycle.Endings.{Reach-KeepsEndings}
use discord_option_tailer.Store.Rows.{
  Contract, Order, Position, Status, StopRequest, is_terminal, rearming, stop_pending,
}
use discord_option_tailer.Store.State.{Store, find_order}

-- The order's row has this status.
unfoldable pub HasStatus : ℕ → Option Status → Store → Type 0
HasStatus k st s = (o : Order) × (find_order k s ≡ some o) × (st ≡ some o.status)

take_reply-HasStatus :
    (k : ℕ) (r : Option BrokerResult) (s t : Store) (st : Option Status)
    → take_reply k r s ≡ (ok st, t)
    → HasStatus k st t
unfolding take_reply HasStatus
take_reply-HasStatus k none s t st h = cc
take_reply-HasStatus k (some r) s t st h = elim (Option-cases (apply_result k r s).error) [
  | inr (e, refused) ↦ absurd (ground arith)
  | inl taken ↦
      let u = apply_result-Run k r s taken in
      let facts = check_fill-IsAccepted u.row r u.fill u.checked in
      let same_store : (apply_result k r s).store ≡ t = ground arith in
      let same_status : r.status ≡ st = ground arith in
      (
        settle u.fill u.broker u.row,
        rw (← same_store) (apply_result-find k r s u),
        rw (← same_status) facts.same_status_lem,
      )
]

returned-HasStatus :
    (k : ℕ) (st st' : Option Status) (s t : Store)
    → HasStatus k st s
    → returns st s ≡ (ok st', t)
    → HasStatus k st' t
returned-HasStatus k st st' s t known h =
    let same_status : st ≡ st' = ground arith in
    let same_store : s ≡ t = ground arith in
    subst (λ u. HasStatus k st' u) same_store (subst (λ x. HasStatus k x s) same_status known)

poll-HasStatus :
    (n k : ℕ) (rs : Replies) (st st' : Option Status) (s t : Store)
    → HasStatus k st s
    → poll n k rs st s ≡ (ok st', t)
    → HasStatus k st' t
unfolding poll
poll-HasStatus zero k rs st st' s t known h = returned-HasStatus k st st' s t known h
poll-HasStatus (suc n) k rs st st' s t known h = elim (Bool-cases (is_over st)) [
  | inl e ↦ returned-HasStatus k st st' s t known (ground arith)
  | inr e ↦
      let (st'', u, first, rest) =
        bind-eq-ok (take_reply k (first_reply rs)) (λ st'. poll n k (later_replies rs) st') s
          (rw e at h) in
      poll-HasStatus n k (later_replies rs) st'' st' u t
        (take_reply-HasStatus k (first_reply rs) s u st'' first) rest
]

-- The order has ended.
abbrev pub IsOver : ℕ → Store → Type 0
IsOver k s = (o : Order) × (find_order k s ≡ some o) × (is_terminal o.status ≡ true)

finish_cancel-IsOver :
    (k : ℕ) (st : Option Status) (s t : Store) {u : Unit {0}}
    → HasStatus k st s
    → finish_cancel st s ≡ (ok u, t)
    → IsOver k t
unfolding finish_cancel HasStatus
finish_cancel-IsOver k st s t (o, found, status) h = elim (Bool-cases (is_over st)) [
  | inr e ↦ absurd (ground arith)
  | inl e ↦ let same_store : s ≡ t = ground arith in (o, rw (← same_store) found, ground arith)
]

cancel_one-IsOver :
    (replies : ℕ → Replies) (o : Order) (s t : Store) {u : Unit {0}}
    → cancel_one replies o s ≡ (ok u, t)
    → IsOver o.id t
unfolding cancel_one finish_cancel
cancel_one-IsOver replies o s t h = elim (Bool-cases (is_some o.broker_id)) [
  | inr e ↦ absurd (ground arith)
  | inl e ↦
      let polls = λ (st : Option Status). poll 3 o.id (later_replies (replies o.id)) st in
      let first = take_reply o.id (first_reply (replies o.id)) in
      let (st, u, polled, finished_cancel) =
        bind-eq-ok (first ▷ polls) finish_cancel s (ground arith) in
      let (st0, u0, cancelled, rest) = bind-eq-ok first polls s polled in
      let known = take_reply-HasStatus o.id (first_reply (replies o.id)) s u0 st0 cancelled in
      let latest = poll-HasStatus 3 o.id (later_replies (replies o.id)) st0 st u0 u known rest in
      finish_cancel-IsOver o.id st u t latest finished_cancel
]

-- Every order of the list has ended once all of them are canceled: a later cancellation keeps the
-- endings of the earlier ones.
cancel_all-IsOver :
    (replies : ℕ → Replies) (os : List Order) (s t : Store) {u : Unit {0}}
    → cancel_all replies os s ≡ (ok u, t)
    → All (λ o. IsOver o.id t) os
unfolding cancel_all
cancel_all-IsOver replies [] s t h = tt
cancel_all-IsOver replies (o ∷ os) s t h =
    let (_, u, first, rest) = bind-eq-ok (cancel_one replies o) (λ _. cancel_all replies os) s h in
    let (row, found, over) = cancel_one-IsOver replies o s u first in
    let moved : Reach u t =
      subst (λ x. Reach u x) (ap (λ x. x.1) rest) (cancel_all-Moves replies os u) in
    let (row', found', status, count) = Reach-KeepsEndings moved o.id row found over in
    ((row', found', rw status over), cancel_all-IsOver replies os u t rest)

rearm_found-Moves : (s : Store) (r : Option StopRequest) → Reach s (rearm_found r s).1
unfolding rearm_found set_state
rearm_found-Moves s none = here
rearm_found-Moves s (some row) = set_state-Moves row stop_pending rearming none s

rearm_later-Moves : (g : ℕ) (c : Contract) → Moves (rearm_later g c)
unfolding rearm_later
rearm_later-Moves g c s = rearm_found-Moves s (get_stop g c s)

check_unfilled-Moves :
    (before : Option Position) (g : ℕ) (c : Contract) → Moves (check_unfilled before g c)
unfolding check_unfilled
check_unfilled-Moves before g c s =
    elim (Bool-cases (is_some before && not (quantity_of (owned g c s) == quantity_of before))) [
      | inl e ↦ rw e here
      | inr e ↦ rw e here
    ]

check_unfilled-same :
    (before : Option Position) (g : ℕ) (c : Contract) (s t : Store) {u : Unit {0}}
    → check_unfilled before g c s ≡ (ok u, t)
    → (s ≡ t) × (is_some before ≡ true → quantity_of (owned g c t) ≡ quantity_of before)
unfolding check_unfilled
check_unfilled-same before g c s t h =
    let still = quantity_of (owned g c s) == quantity_of before in
    elim (Bool-cases (is_some before && not still)) [
      | inl sold ↦ absurd (ground arith)
      | inr kept ↦
          let same_store : s ≡ t = ground arith in
          (
            same_store,
            λ e.
                subst (λ x. quantity_of (owned g c x) ≡ quantity_of before) same_store
                  (ground arith),
          )
    ]

-- What an exit may rely on once its contract's stops are out of the way: the ledger made only its own
-- writes, every stop that was active has ended, and an owned position has the quantity that it had.
pub record IsClear (g : ℕ) (c : Contract) (s t : Store) : Type 0 where
  pub reached : Reach s t
  pub stops_over : All (λ o. IsOver o.id t) (active_orders g c s)
  pub unfilled :
      is_some (owned g c s) ≡ true → quantity_of (owned g c t) ≡ quantity_of (owned g c s)

All-reached :
    (os : List Order) (s t : Store)
    → Reach s t
    → All (λ o. IsOver o.id s) os
    → All (λ o. IsOver o.id t) os
All-reached [] s t r h = tt
All-reached (o ∷ os) s t r ((row, found, over), h) =
    let (row', found', status, count) = Reach-KeepsEndings r o.id row found over in
    ((row', found', rw status over), All-reached os s t r h)

reached_by : {A : Type 0} (m : Act A) (s t : Store) {a : A} → Moves m → m s ≡ (ok a, t) → Reach s t
reached_by m s t moves h = subst (λ x. Reach s x) (ap (λ x. x.1) h) (moves s)

checks-same :
    {A : Type 0} (r : Except Hold A) (s t : Store) {a : A} → checks r s ≡ (ok a, t) → s ≡ t
checks-same (ok x) s t h = ap (λ x. x.1) h
checks-same (raise e) s t h = cc

clear_stops-IsClear :
    (b : Binding) (kill_switch : Bool) (replies : ℕ → Replies) (g : ℕ) (c : Contract) (s t : Store)
    → clear_stops b kill_switch replies g c (owned g c s) s ≡ (ok tt, t)
    → IsClear g c s t
unfolding clear_stops cancel
clear_stops-IsClear b kill_switch replies g c s t h =
    let mode : Act (Unit {0}) = checks (check_execution_mode b) in
    let kill : Unit {0} → Act (Unit {0}) = λ _. checks (raise_if kill_switch kill_switch_present) in
    let stop_all : Unit {0} → Act (Unit {0}) = λ _. cancel replies g c in
    let rearm : Unit {0} → Act (Unit {0}) = λ _. rearm_later g c in
    let unsold : Unit {0} → Act (Unit {0}) = λ _. check_unfilled (owned g c s) g c in
    let (_, s4, h4, last) = bind-eq-ok (mode ▷ kill ▷ stop_all ▷ rearm) unsold s h in
    let (_, s3, h3, rearmed) = bind-eq-ok (mode ▷ kill ▷ stop_all) rearm s h4 in
    let (_, s2, h2, canceled_all) = bind-eq-ok (mode ▷ kill) stop_all s h3 in
    let (_, s1, h1, no_kill) = bind-eq-ok mode kill s h2 in
    let same_start : s2 ≡ s = sym (
      checks-same (check_execution_mode b) s s1 h1
      ∙ checks-same (raise_if kill_switch kill_switch_present) s1 s2 no_kill) in
    let from_start : cancel_all replies (active_orders g c s) s ≡ (ok _, s3) =
      subst (λ x. cancel_all replies (active_orders g c x) x ≡ (ok _, s3)) same_start
        canceled_all in
    let (same_end, quantity) = check_unfilled-same (owned g c s) g c s4 t last in
    let canceled : Reach s s3 =
      reached_by (cancel_all replies (active_orders g c s)) s s3
        (cancel_all-Moves replies (active_orders g c s)) from_start in
    let rearmed_moves : Reach s3 s4 =
      reached_by (rearm_later g c) s3 s4 (rearm_later-Moves g c) rearmed in
    record {
      reached = subst (Reach s) same_end (Reach-trans canceled rearmed_moves);
      stops_over =
          subst (λ x. All (λ o. IsOver o.id x) (active_orders g c s)) same_end
            (All-reached (active_orders g c s) s3 s4 rearmed_moves
              (cancel_all-IsOver replies (active_orders g c s) s s3 from_start));
      unfilled = quantity;
    }

clear_stops-Moves :
    (b : Binding) (kill_switch : Bool) (replies : ℕ → Replies) (g : ℕ) (c : Contract)
    (p : Option Position)
    → Moves (clear_stops b kill_switch replies g c p)
unfolding clear_stops
clear_stops-Moves b kill_switch replies g c p =
    let mode : Act (Unit {0}) = checks (check_execution_mode b) in
    let kill : Unit {0} → Act (Unit {0}) = λ _. checks (raise_if kill_switch kill_switch_present) in
    let stop_all : Unit {0} → Act (Unit {0}) = λ _. cancel replies g c in
    let rearm : Unit {0} → Act (Unit {0}) = λ _. rearm_later g c in
    let unsold : Unit {0} → Act (Unit {0}) = λ _. check_unfilled p g c in
    bind-Moves (mode ▷ kill ▷ stop_all ▷ rearm) unsold
      (bind-Moves (mode ▷ kill ▷ stop_all) rearm
        (bind-Moves (mode ▷ kill) stop_all
          (bind-Moves mode kill (checks-Moves (check_execution_mode b))
            (λ _. checks-Moves (raise_if kill_switch kill_switch_present)))
          (λ _. cancel-Moves replies g c))
        (λ _. rearm_later-Moves g c))
      (λ _. check_unfilled-Moves p g c)

clear_active-Moves : (os : List Order) (m : Act (Unit {0})) → Moves m → Moves (clear_active os m)
unfolding clear_active
clear_active-Moves [] m moves = λ _. here
clear_active-Moves (o ∷ os) m moves = moves

pub before_exit-Moves :
    (b : Binding) (kill_switch : Bool) (replies : ℕ → Replies) (g : ℕ) (c : Contract)
    → Moves (before_exit b kill_switch replies g c)
unfolding before_exit
before_exit-Moves b kill_switch replies g c s =
    clear_active-Moves (active_orders g c s) _
      (clear_stops-Moves b kill_switch replies g c (owned g c s)) s

found_stops-IsClear :
    (os : List Order) (b : Binding) (kill_switch : Bool) (replies : ℕ → Replies) (g : ℕ)
    (c : Contract) (s t : Store)
    → active_orders g c s ≡ os
    → clear_active os (clear_stops b kill_switch replies g c (owned g c s)) s ≡ (ok tt, t)
    → IsClear g c s t
unfolding clear_active
found_stops-IsClear [] b kill_switch replies g c s t nothing h =
    let same_store : s ≡ t = ap (λ x. x.1) h in
    subst (IsClear g c s) same_store
      (record { reached = here; stops_over = rw nothing tt; unfilled = λ _. refl })
found_stops-IsClear (o ∷ os) b kill_switch replies g c s t active h =
    clear_stops-IsClear b kill_switch replies g c s t h

-- When before_exit returns, whatever the broker replied, the ledger made only its own writes, every
-- stop order of the contract that was active has ended, and a position that the source owned has the
-- quantity that it had.
pub before_exit-IsClear :
    (b : Binding) (kill_switch : Bool) (replies : ℕ → Replies) (g : ℕ) (c : Contract) (s t : Store)
    → before_exit b kill_switch replies g c s ≡ (ok tt, t)
    → IsClear g c s t
unfolding before_exit
before_exit-IsClear b kill_switch replies g c s t h =
    found_stops-IsClear (active_orders g c s) b kill_switch replies g c s t refl h
