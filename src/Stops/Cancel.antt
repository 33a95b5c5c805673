-- ===== src/Stops/Cancel.antt =====
-- `cancel` and `before_exit` of relay/stops.py.
use discord_option_tailer.Base.{
  Bool, List, Option, [], false, if◌then◌else◌, is_some, none, not, ok, raise, raise_if, some, suc,
  zero, ℕ, ◌&&◌, ◌==◌, ◌∷◌,
}
use discord_option_tailer.Engine.Guards.{Binding, check_execution_mode, kill_switch_present}
use discord_option_tailer.Stops.{
  Act, active_orders, checks, get_stop, owned, refuses, retry_later, returns, set_state, stop_hold,
  ◌▷◌,
}
use discord_option_tailer.Store.Fills.{BrokerResult, apply_result}
use discord_option_tailer.Store.Rows.{
  Contract, Order, Position, Status, StopRequest, cancel_pending, cancel_unconfirmed,
  filled_in_cancel, is_terminal, rearming, stop_pending, uncertain_stop,
}

-- The broker's replies about one order, in the order of the calls: the cancellation's, then those of
-- the status polls. `none`, or no reply, is a call that raises.
abbrev pub Replies : Type 0
Replies = List (Option BrokerResult)

-- A reply is recorded in the ledger; both the call and the record may fail.
unfoldable pub take_reply : ℕ → Option BrokerResult → Act (Option Status)
take_reply k none s = (raise (retry_later cancel_unconfirmed), s)
take_reply k (some r) s =
    let applied_reply = apply_result k r s in
    if is_some applied_reply.error
    then (raise (retry_later cancel_unconfirmed), applied_reply.store)
    else (ok r.status, applied_reply.store)

abbrev pub first_reply : Replies → Option BrokerResult
first_reply [] = none
first_reply (r ∷ rs) = r

abbrev pub later_replies : Replies → Replies
later_replies [] = []
later_replies (r ∷ rs) = rs

abbrev pub is_over : Option Status → Bool
is_over none = false
is_over (some st) = is_terminal st

-- The three polls, after 0.2, 0.5 and 1.0 seconds, stop at a terminal status.
unfoldable pub poll : ℕ → ℕ → Replies → Option Status → Act (Option Status)
poll zero k rs st = returns st
poll (suc n) k rs st =
    if is_over st
    then returns st
    else (take_reply k (first_reply rs) ▷ (λ st'. poll n k (later_replies rs) st'))

unfoldable pub cancel_one : (ℕ → Replies) → Order → Act (Unit {0})
cancel_one replies o =
    if not (is_some o.broker_id)
    then refuses (retry_later uncertain_stop)
    else (take_reply o.id (first_reply (replies o.id))
        ▷ (λ st. poll 3 o.id (later_replies (replies o.id)) st)
        ▷ (λ st. if is_over st then returns tt else refuses (retry_later cancel_pending)))

unfoldable pub cancel_all : (ℕ → Replies) → List Order → Act (Unit {0})
cancel_all replies [] = returns tt
cancel_all replies (o ∷ os) = cancel_one replies o ▷ (λ _. cancel_all replies os)

-- `cancel`
unfoldable pub cancel : (ℕ → Replies) → ℕ → Contract → Act (Unit {0})
cancel replies g c s = cancel_all replies (active_orders g c s) s

abbrev pub quantity_of : Option Position → ℕ
quantity_of none = 0
quantity_of (some p) = p.quantity

unfoldable pub rearm_found : Option StopRequest → Act (Unit {0})
rearm_found none = returns tt
rearm_found (some row) = set_state row stop_pending rearming none ▷ (λ _. returns tt)

unfoldable pub rearm_later : ℕ → Contract → Act (Unit {0})
rearm_later g c s = rearm_found (get_stop g c s) s

-- The stop may have won the race: the exit's quantity is not sold again.
unfoldable pub check_unfilled : Option Position → ℕ → Contract → Act (Unit {0})
check_unfilled before g c s =
    if is_some before && not (quantity_of (owned g c s) == quantity_of before)
    then (raise (stop_hold filled_in_cancel), s)
    else (ok tt, s)

-- The calls of `before_exit` for a contract with active stops.
unfoldable pub clear_stops :
    Binding → Bool → (ℕ → Replies) → ℕ → Contract → Option Position → Act (Unit {0})
clear_stops b kill_switch replies g c before =
    checks (check_execution_mode b)
    ▷ (λ _. checks (raise_if kill_switch kill_switch_present))
    ▷ (λ _. cancel replies g c)
    ▷ (λ _. rearm_later g c)
    ▷ (λ _. check_unfilled before g c)

unfoldable pub clear_active : List Order → Act (Unit {0}) → Act (Unit {0})
clear_active [] clear = returns tt
clear_active (o ∷ os) clear = clear

-- `before_exit`, for the contract of the decision.
unfoldable pub before_exit : Binding → Bool → (ℕ → Replies) → ℕ → Contract → Act (Unit {0})
before_exit b kill_switch replies g c s =
    clear_active (active_orders g c s) (clear_stops b kill_switch replies g c (owned g c s)) s
