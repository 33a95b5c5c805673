-- ===== src/Expiry/Apart.antt =====
-- Positions that an expiry exit never touches (relay/expiry.py).
use discord_option_tailer.Base.{
  Bool, Except, Option, ap, arith, false, find, is_some, none, ok, raise, some, true, ℕ, ◌&&◌, ◌==◌,
  ◌>>◌, ◌∙◌, ◌≡◌,
}
use discord_option_tailer.Execution.{Digests}
use discord_option_tailer.Expiry.{
  ExitWorld, add_event, check_session, end_exit, entry_order, event_of, exit_decision, exit_entry,
  exit_in_money, exit_once, exit_owned, never_left, notes_exit, read_underlying,
}
use discord_option_tailer.Handling.{failure_state}
use discord_option_tailer.Handling.Writes.{SameTrades, record_outcome-SameTrades}
use discord_option_tailer.Stops.{StopError, ◌▷◌}
use discord_option_tailer.Stops.Arm.{settles}
use discord_option_tailer.Store.Rows.{
  Contract, Decision, EventState, Order, Position, context, detail, held,
}
use discord_option_tailer.Store.State.{Message, Store}

-- Nothing was ordered for the event, or its last order never left.
unfoldable pub is_unordered : Option Order → Bool
is_unordered none = true
is_unordered (some o) = never_left o

abbrev pub is_in_money_now : Except StopError Bool → Bool
is_in_money_now (ok itm) = itm
is_in_money_now (raise e) = false

add_event-SameTrades : (m : Message) (text : ℕ) (s : Store) → SameTrades s (add_event m text s)
unfolding add_event
add_event-SameTrades m text s = ground arith

module _ (h : Digests) (others : ℕ → Store → Store) (reconcile : Store → Store)
    (event_id : ℕ → Contract → Option ℕ → ℕ) (event_revision : ℕ → ℕ) where
  -- The entry is known, the session runs, the option is in the money, and the event has no order yet.
  unfoldable pub may_exit : ExitWorld → Position → Store → Bool
  may_exit w p s =
      let m = event_of h others reconcile event_id event_revision w p s in
      is_some (entry_order w p s)
      && (is_in_money_now (check_session w >> read_underlying w p.contract)
          && is_unordered (find (λ o. o.message_id == m.id) s.orders))

  notes-SameTrades :
      (w : ExitWorld) (m : Message) (d : Decision) (state : EventState) (s t : Store)
      → SameTrades s t
      → SameTrades s (notes_exit w m d state t)
  notes-SameTrades w m d state s t (os, ps, rs) =
      let (os', ps', rs') = record_outcome-SameTrades m state (detail w.text) (some d) w.words t in
      (os' ∙ os, ps' ∙ ps, rs' ∙ rs)

  looked-SameTrades :
      (w : ExitWorld) (p : Position) (m : Message) (x : Except StopError Bool)
      (prior : Option Order) (s t : Store)
      → SameTrades s t
      → find (λ o. o.message_id == m.id) t.orders ≡ prior
      → (is_in_money_now x && is_unordered prior) ≡ false
      → SameTrades s (
          end_exit w m (exit_decision p) (
            (settles x ▷ (λ itm.
                exit_in_money h others reconcile event_id event_revision w m (exit_decision p) itm))
              t))
  unfolding end_exit exit_in_money exit_once is_unordered
  looked-SameTrades w p m (raise e) prior s t same found apart =
      notes-SameTrades w m (exit_decision p) (failure_state e) s t same
  looked-SameTrades w p m (ok false) prior s t same found apart =
      notes-SameTrades w m (exit_decision p) context s t same
  looked-SameTrades w p m (ok true) none s t same found apart = absurd (ground arith)
  looked-SameTrades w p m (ok true) (some o) s t same found apart =
      rw found (rw apart (notes-SameTrades w m (exit_decision p) held s t same))

  entry-SameTrades :
      (w : ExitWorld) (p : Position) (m : Message) (e : Option Order) (s t : Store)
      → SameTrades s t
      → (is_some e
          && (is_in_money_now (check_session w >> read_underlying w p.contract)
              && is_unordered (find (λ o. o.message_id == m.id) s.orders)))
        ≡ false
      → SameTrades s (
          end_exit w m
            (exit_decision p)
            (exit_entry h others reconcile event_id event_revision w m p e t))
  unfolding end_exit exit_entry
  entry-SameTrades w p m none s t same apart = notes-SameTrades w m (exit_decision p) held s t same
  entry-SameTrades w p m (some e) s t same apart =
      looked-SameTrades w p m (check_session w >> read_underlying w p.contract) _ s t same
        (ap (λ os. find (λ o. o.message_id == m.id) os) same.0) apart

  -- A position whose entry is not known, whose option is not in the money, or cannot be seen to be,
  -- whose session is unknown or over, or for which an order was made that left or may have left, is
  -- not sold: its check changes no order, no position and no stop request.
  pub exit_owned-SameTrades :
      (w : ExitWorld) (p : Position) (s : Store)
      → may_exit w p s ≡ false
      → let t = exit_owned h others reconcile event_id event_revision w p s in
        (t.orders ≡ s.orders) × (t.positions ≡ s.positions) × (t.stop_requests ≡ s.stop_requests)
  unfolding exit_owned may_exit
  exit_owned-SameTrades w p s apart =
      let m = event_of h others reconcile event_id event_revision w p s in
      entry-SameTrades w p m (entry_order w p s) s (add_event m w.text s)
        (add_event-SameTrades m w.text s) apart
