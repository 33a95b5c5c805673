-- ===== src/Recovery/Round.antt =====
-- `_reconcile_orders_once` of relay/recovery.py: the orders that have not ended are reconciled in turn,
-- the protective stops are armed again, and the next round gets its time. The diagnostic that a
-- failure adds to the event of its order is left out.
use discord_option_tailer.Base.{
  Bool, Except, List, Option, [], find, if◌then◌else◌, leb, length, ltb, max, none, not, ok, raise,
  reverse, same_option, select, some, suc, zero, ℕ, ◌&&◌, ◌+◌, ◌∷◌,
}
use discord_option_tailer.Recovery.{ReconcileWorld, has_urgent, next_delay, reconcile_order}
use discord_option_tailer.Stops.{Act, StopError, returns, set_state, ◌▷◌}
use discord_option_tailer.Stops.Maintain.{MaintainWorld, maintain}
use discord_option_tailer.Store.Orders.{mark_unknown}
use discord_option_tailer.Store.Rows.{
  Order, StopRequest, awaiting_broker, is_terminal, is_update_stop, stop_pending,
}
use discord_option_tailer.Store.State.{Store}

-- A row of the ledger with its row number: the first order has number 1, and none is ever deleted.
unfoldable pub numbered : List Order → List (ℕ × Order)
numbered [] = []
numbered (o ∷ os) = (suc (length os), o) ∷ numbered os

abbrev pub is_open : ℕ × Order → Bool
is_open (n, o) = not (is_terminal o.status)

unfoldable pub first_rows {ℓ} : {A : Type ℓ} → ℕ → List A → List A
first_rows zero xs = []
first_rows (suc n) [] = []
first_rows (suc n) (x ∷ xs) = x ∷ first_rows n xs

-- The rows of a round, in the order of their numbers.
unfoldable pub round_rows : Store → List (ℕ × Order)
round_rows s = first_rows 100 (reverse (select is_open (numbered s.orders)))

-- The largest number of an order that has not ended, 0 where there is none.
unfoldable pub newest_open : List Order → ℕ
newest_open [] = 0
newest_open (o ∷ os) =
    let rest = newest_open os in if is_terminal o.status then rest else suc (length os)

-- `next_reconcile`, on the monotonic clock, and `_reconcile_seen_rowid`.
pub record Schedule : Type 0 where
  pub next_at : ℕ
  pub seen : ℕ

unfoldable pub largest : ℕ → List (ℕ × Order) → ℕ
largest n [] = n
largest n ((k, o) ∷ rows) = largest (max n k) rows

-- What a round reads beside the ledger: for each order what its reconciliation reads, and for the
-- stops what `maintain` reads. `started_at` and `ended_at` are of the monotonic clock, `now` and
-- `later` of the engine's.
pub record RoundWorld : Type 0 where
  pub force : Bool
  pub observe_only : Bool
  pub of_order : Order → ReconcileWorld
  pub stops : MaintainWorld
  pub started_at : ℕ
  pub now : ℕ
  pub later : ℕ
  pub ended_at : ℕ

-- Before its time, a round is only made for an order that no round has seen, or for an urgent one.
unfoldable pub open_orders : Store → List Order
open_orders s = first_rows 100 (reverse (select (λ o. not (is_terminal o.status)) s.orders))

unfoldable pub is_skipped : RoundWorld → Schedule → Store → Bool
is_skipped w c s =
    (not w.force && ltb w.started_at c.next_at)
    && (leb (newest_open s.orders) c.seen && not (has_urgent w.now (open_orders s)))

abbrev pub asked_by : ℕ → StopRequest → Bool
asked_by k r = same_option r.order_id (some k)

unfoldable pub await_stop : Option StopRequest → Act (Unit {0})
await_stop none = returns tt
await_stop (some r) = set_state r stop_pending awaiting_broker none ▷ (λ _. returns tt)

-- What a failed reconciliation writes for a protective stop.
unfoldable pub doubt_stop : Order → Act (Unit {0})
doubt_stop o s =
    if is_update_stop o.action
    then (let t = mark_unknown o.id s in await_stop (find (asked_by o.id) t.stop_requests) t)
    else (ok tt, s)

abbrev pub after_failure :
    Order → Except StopError (Unit {0}) × Store → Except StopError (Unit {0}) × Store
after_failure o (ok _, t) = (ok tt, t)
after_failure o (raise e, t) = doubt_stop o t

unfoldable pub reconcile_row : RoundWorld → Order → Act (Unit {0})
reconcile_row w o s =
    after_failure o (reconcile_order (record (w.of_order o) { observe_only = w.observe_only }) o s)

unfoldable pub reconcile_rows : RoundWorld → List (ℕ × Order) → Act (Unit {0})
reconcile_rows w [] = returns tt
reconcile_rows w ((n, o) ∷ rows) = reconcile_row w o ▷ (λ _. reconcile_rows w rows)

-- `order_digest` is the SHA-256 of a stop's message, revision and generation.
module _ (order_digest : ℕ → ℕ → ℕ → ℕ) where
  unfoldable pub maintain_stops : RoundWorld → Act (Unit {0})
  maintain_stops w = if w.observe_only then returns tt else maintain order_digest w.stops

  unfoldable pub reconcile_due : RoundWorld → Schedule → Act (ℕ × Schedule)
  reconcile_due w c s =
      let rows = round_rows s in
      (reconcile_rows w rows ▷ (λ _. maintain_stops w) ▷ (λ _ t. (
        ok (
          length rows,
          record {
            next_at = w.ended_at + next_delay w.later (open_orders t);
            seen = largest c.seen rows;
          },
        ),
        t,
      )))
        s

  -- `_reconcile_orders_once`: how many orders it read, and the schedule that it leaves.
  unfoldable pub reconcile_orders_once : RoundWorld → Schedule → Act (ℕ × Schedule)
  reconcile_orders_once w c s = if is_skipped w c s then (ok (0, c), s) else reconcile_due w c s
