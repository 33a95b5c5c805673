-- ===== src/Stops/Moves.antt =====
-- The ledger's writes in `cancel`, and calls one after another (relay/stops.py).
use discord_option_tailer.Base.{
  Bool-cases, Except, List, Option, [], if◌then◌else◌, inl, inr, is_some, none, ok, raise, refl,
  some, suc, zero, ℕ, ◌∷◌, ◌≡◌,
}
use discord_option_tailer.Engine.Guards.{Hold}
use discord_option_tailer.Stops.{
  Act, StopError, active_orders, checks, refuses, retry_later, returns, set_state, ◌▷◌,
}
use discord_option_tailer.Stops.Cancel.{
  Replies, cancel, cancel_all, cancel_one, first_reply, is_over, later_replies, poll, take_reply,
}
use discord_option_tailer.Store.Fills.{BrokerResult, apply_result}
use discord_option_tailer.Store.Lifecycle.{Reach, applied, here, next, noted}
use discord_option_tailer.Store.Rows.{
  Contract, Order, Status, StopNote, StopRequest, StopStatus, cancel_pending,
}
use discord_option_tailer.Store.State.{Store}

-- A call that makes only the ledger's own writes, whether it returns or raises.
abbrev pub Moves : {A : Type 0} → Act A → Type 0
Moves m = (s : Store) → Reach s (m s).1

pub Reach-trans : {s t u : Store} → Reach s t → Reach t u → Reach s u
Reach-trans r here = r
Reach-trans r (next q st) = next (Reach-trans r q) st

pub after_first :
    {A B : Type 0} (k : A → Act B) (s : Store) (r : Except StopError A × Store)
    → Reach s r.1
    → ((a : A) → Moves (k a))
    → Reach s (((λ (_ : Store). r) ▷ k) s).1
after_first k s (ok a, t) first later = Reach-trans first (later a t)
after_first k s (raise e, t) first later = first

pub bind-Moves :
    {A B : Type 0} (m : Act A) (k : A → Act B) → Moves m → ((a : A) → Moves (k a)) → Moves (m ▷ k)
bind-Moves m k first later s = after_first k s (m s) (first s) later

-- A call that returns, part by part.
split_first :
    {A B : Type 0} (k : A → Act B) (r : Except StopError A × Store) (s : Store) {b : B} {u : Store}
    → ((λ (_ : Store). r) ▷ k) s ≡ (ok b, u)
    → (a : A) × (t : Store) × (r ≡ (ok a, t)) × (k a t ≡ (ok b, u))
split_first k (ok a, t) s h = (a, t, refl, h)
split_first k (raise e, t) s h = cc

pub bind-eq-ok :
    {A B : Type 0} (m : Act A) (k : A → Act B) (s : Store) {b : B} {u : Store}
    → (m ▷ k) s ≡ (ok b, u)
    → (a : A) × (t : Store) × (m s ≡ (ok a, t)) × (k a t ≡ (ok b, u))
bind-eq-ok m k s h = split_first k (m s) s h

pub checks-Moves : {A : Type 0} (r : Except Hold A) → Moves (checks r)
checks-Moves (ok a) s = here
checks-Moves (raise h) s = here

pub take_reply-Moves : (k : ℕ) (r : Option BrokerResult) → Moves (take_reply k r)
unfolding take_reply
take_reply-Moves k none s = here
take_reply-Moves k (some r) s = elim (Bool-cases (is_some (apply_result k r s).error)) [
  | inl e ↦ rw e (next here (applied s k r))
  | inr e ↦ rw e (next here (applied s k r))
]

pub poll-Moves : (n k : ℕ) (rs : Replies) (st : Option Status) → Moves (poll n k rs st)
unfolding poll
poll-Moves zero k rs st s = here
poll-Moves (suc n) k rs st s = elim (Bool-cases (is_over st)) [
  | inl e ↦ rw e here
  | inr e ↦
      let again = λ (st' : Option Status). poll n k (later_replies rs) st' in
      rw e (
        bind-Moves (take_reply k (first_reply rs)) again (take_reply-Moves k (first_reply rs))
          (λ st'. poll-Moves n k (later_replies rs) st') s)
]

unfoldable pub finish_cancel : Option Status → Act (Unit {0})
finish_cancel st = if is_over st then returns tt else refuses (retry_later cancel_pending)

finish_cancel-Moves : (st : Option Status) → Moves (finish_cancel st)
unfolding finish_cancel
finish_cancel-Moves st s = elim (Bool-cases (is_over st)) [ inl e ↦ rw e here | inr e ↦ rw e here ]

cancel_one-Moves : (replies : ℕ → Replies) (o : Order) → Moves (cancel_one replies o)
unfolding cancel_one finish_cancel
cancel_one-Moves replies o s = elim (Bool-cases (is_some o.broker_id)) [
  | inr e ↦ rw e here
  | inl e ↦
      let polls = λ (st : Option Status). poll 3 o.id (later_replies (replies o.id)) st in
      let first = take_reply o.id (first_reply (replies o.id)) in
      rw e (
        bind-Moves (first ▷ polls) finish_cancel
          (bind-Moves first polls (take_reply-Moves o.id (first_reply (replies o.id)))
            (λ st. poll-Moves 3 o.id (later_replies (replies o.id)) st))
          finish_cancel-Moves s)
]

pub cancel_all-Moves : (replies : ℕ → Replies) (os : List Order) → Moves (cancel_all replies os)
unfolding cancel_all
cancel_all-Moves replies [] s = here
cancel_all-Moves replies (o ∷ os) s =
    bind-Moves (cancel_one replies o) (λ _. cancel_all replies os) (cancel_one-Moves replies o)
      (λ _. cancel_all-Moves replies os) s

pub set_state-Moves :
    (row : StopRequest) (status : StopStatus) (note : StopNote) (order : Option ℕ)
    → Moves (set_state row status note order)
unfolding set_state
set_state-Moves row status note order s = next here (noted refl refl)

pub cancel-Moves : (replies : ℕ → Replies) (g : ℕ) (c : Contract) → Moves (cancel replies g c)
unfolding cancel
cancel-Moves replies g c s = cancel_all-Moves replies (active_orders g c s) s
