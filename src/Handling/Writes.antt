-- ===== src/Handling/Writes.antt =====
-- The writes of `handle` (relay/core.py), as steps of any relation on ledgers that is reflexive and
-- transitive and holds for the writes that leave orders, positions and stop requests alone.
use discord_option_tailer.Base.{
  Bool, Except, Option, Option-cases, arith, false, if◌then◌else◌, inl, inr, none, ok, raise, some,
  true, ℕ, ◌≡◌,
}
use discord_option_tailer.Engine.Episode.{guard_position_episode}
use discord_option_tailer.Engine.Guards.{
  Channel, Hold, fresh, position_generation, superseded_claim,
}
use discord_option_tailer.Episodes.{EpisodeResult}
use discord_option_tailer.Execution.{Digests}
use discord_option_tailer.Handling.{
  HandleWorld, Handled, Interpretation, act_if_current, act_on, check_still, claim_and_act,
  concludes, evaluate, evaluate_if_current, evaluate_observed, failure_state, handle_observed,
  handle_trusted, interpreter_fails, interpreter_holds, interprets, is_context, notes, observed_now,
  resolved_for, take_interpretation, under_lock, worker_stops,
}
use discord_option_tailer.Stops.{StopError, engine_hold}
use discord_option_tailer.Store.Claims.{begin_evaluation, claim_evaluation, finish_evaluation}
use discord_option_tailer.Store.Intake.{
  Observation, edited_revision, new_message, observe, record_episode, refresh_media, same_revision,
  store_revision,
}
use discord_option_tailer.Store.Outcomes.{record_outcome}
use discord_option_tailer.Store.Rows.{
  Decision, EventState, Reason, Submission, context, detail, error, evaluated, evaluating, held,
}
use discord_option_tailer.Store.State.{Attempt, Message, Store}

abbrev pub SameTrades : Store → Store → Type 0
SameTrades s t =
    (t.orders ≡ s.orders) × (t.positions ≡ s.positions) × (t.stop_requests ≡ s.stop_requests)

pub record_outcome-SameTrades :
    (m : Message) (state : EventState) (why : Reason) (d : Option Decision)
    (words : Option Submission) (s : Store)
    → SameTrades s (record_outcome m state why d words s)
unfolding record_outcome record_episode
record_outcome-SameTrades m state why d words s = ground arith

observe-SameTrades : (m : Message) (now : ℕ) (s : Store) → SameTrades s (observe m now s).1
unfolding observe store_revision record_episode refresh_media
observe-SameTrades m now s = ground arith

begin_evaluation-SameTrades :
    (m : Message) (attempt digest : ℕ) (s : Store)
    → SameTrades s (begin_evaluation m attempt digest s).1
unfolding begin_evaluation
begin_evaluation-SameTrades m attempt digest s = ground arith

claim_evaluation-SameTrades :
    (k r attempt : ℕ) (s : Store) → SameTrades s (claim_evaluation k r attempt s).1
unfolding claim_evaluation
claim_evaluation-SameTrades k r attempt s = ground arith

finish_evaluation-SameTrades :
    (k r attempt : ℕ) (s : Store) → SameTrades s (finish_evaluation k r attempt s)
unfolding finish_evaluation
finish_evaluation-SameTrades k r attempt s = ground arith

-- `Includes history` is what is known of `history`, and `acts` what is then known of the execution.
module _ (R : Store → Store → Type 0) (stays : (s : Store) → R s s)
    (follows : (s t u : Store) → R s t → R t u → R s u)
    (quiet_write : (s t : Store) → SameTrades s t → R s t) (manages : Message → Bool)
    (order_id_of : ℕ → ℕ → ℕ) (h : Digests) (around : ℕ → Store → Store)
    (others : ℕ → Store → Store) (outside : (n : ℕ) (s : Store) → R s (around n s))
    (inside : (n : ℕ) (s : Store) → R s (others n s)) (Includes : Bool → Type 0)
    (acts : (w : HandleWorld) (m : Message) (history : Bool) (d : Decision) (s : Store)
      → Includes history
      → R s (act_on manages order_id_of h around others w m history d s).1) where
  either :
      (b : Bool) (s : Store) (x y : Handled × Store)
      → R s x.1
      → R s y.1
      → R s (if b then x else y).1
  either true s x y p q = p
  either false s x y p q = q

  notes_write :
      (w : HandleWorld) (m : Message) (state : EventState) (d : Option Decision) (s : Store)
      → R s (notes w m state d s).1
  unfolding notes
  notes_write w m state d s =
      quiet_write s _ (record_outcome-SameTrades m state (detail w.text) d w.words s)

  concludes_write :
      (w : HandleWorld) (m : Message) (d : Option Decision) (s : Store)
      (x : Except StopError EventState × Store)
      → R s x.1
      → R s (concludes w m d x).1
  unfolding concludes
  concludes_write w m d s (ok state, t) moved = moved
  concludes_write w m d s (raise e, t) moved =
      follows s t _ moved (notes_write w m (failure_state e) d t)

  resolved_write :
      (w : HandleWorld) (m : Message) (history : Bool) (d : Decision)
      (x : Except StopError Decision) (s : Store)
      → Includes history
      → R s (resolved_for manages order_id_of h around others w m history d x s).1
  unfolding resolved_for
  resolved_write w m history d (raise e) s known =
      concludes_write w m (some d) s (raise e, s) (stays s)
  resolved_write w m history d (ok d') s known =
      concludes_write w m (some d') s
        (act_on manages order_id_of h around others w m history d' (others 8 s))
        (follows s (others 8 s) _ (inside 8 s) (acts w m history d' (others 8 s) known))

  claim_and_act_write :
      (w : HandleWorld) (m : Message) (history : Bool) (a : Attempt) (d : Decision) (s : Store)
      → Includes history
      → R s (claim_and_act manages order_id_of h around others w m history a d s).1
  unfolding claim_and_act
  claim_and_act_write w m history a d s known =
      let t = (claim_evaluation m.id m.revision a.attempt_id s).1 in
      let moved : R s t =
        quiet_write s t (claim_evaluation-SameTrades m.id m.revision a.attempt_id s) in
      either _ s _ _ (follows s t _ moved (resolved_write w m history d _ t known)) (
        follows s t _ moved
          (concludes_write w m (some d) t (raise (engine_hold superseded_claim), t) (stays t)))

  act_if_current_write :
      (w : HandleWorld) (m : Message) (history : Bool) (a : Attempt) (d : Decision)
      (x : Except Hold (Unit {0})) (s : Store)
      → Includes history
      → R s (act_if_current manages order_id_of h around others w m history a d x s).1
  unfolding act_if_current
  act_if_current_write w m history a d (raise e) s known =
      concludes_write w m (some d) s (raise (engine_hold e), s) (stays s)
  act_if_current_write w m history a d (ok _) s known = claim_and_act_write w m history a d s known

  under_lock_write :
      (w : HandleWorld) (m : Message) (history : Bool) (a : Attempt) (d : Decision) (s : Store)
      → Includes history
      → R s (under_lock manages order_id_of h around others w m history a d s).1
  unfolding under_lock
  under_lock_write w m history a d s known =
      either w.stops_waiting s _ _ (notes_write w m context (some d) s) (
        act_if_current_write w m history a d
          (check_still manages order_id_of h around others w m history a s) s known)

  take_interpretation_write :
      (w : HandleWorld) (m : Message) (history : Bool) (a : Attempt) (ep : EpisodeResult)
      (x : Interpretation) (s : Store)
      → Includes history
      → R s (take_interpretation manages order_id_of h around others w m history a ep x s).1
  unfolding take_interpretation
  take_interpretation_write w m history a ep interpreter_holds s known = notes_write w m held none s
  take_interpretation_write w m history a ep interpreter_fails s known =
      notes_write w m error none s
  take_interpretation_write w m history a ep worker_stops s known = notes_write w m context none s
  take_interpretation_write w m history a ep (interprets d) s known =
      let d' = guard_position_episode w.names_option m d ep in
      let t = (notes w m evaluated (some d') s).1 in
      follows s t _ (notes_write w m evaluated (some d') s) (
        follows t (around 1 t) _ (outside 1 t)
          (under_lock_write w m history a d' (around 1 t) known))

  evaluate_write :
      (w : HandleWorld) (m : Message) (history : Bool) (ep : EpisodeResult)
      (x : Option Attempt × Store)
      → Includes history
      → R x.1 (evaluate manages order_id_of h around others w m history ep x).1
  unfolding evaluate
  evaluate_write w m history ep (none, s) known = stays s
  evaluate_write w m history ep (some a, s) known =
      let t = (notes w m evaluating none s).1 in
      let u =
        (take_interpretation manages order_id_of h around others w m history a ep w.interpretation
          (around 0 t)).1 in
      follows s t _ (notes_write w m evaluating none s) (
        follows t (around 0 t) _ (outside 0 t) (
          follows (around 0 t) u _
            (take_interpretation_write w m history a ep w.interpretation (around 0 t) known)
            (quiet_write u _ (finish_evaluation-SameTrades m.id m.revision a.attempt_id u))))

  evaluate_if_current_write :
      (w : HandleWorld) (m : Message) (history : Bool) (x : Except Hold (Unit {0})) (s : Store)
      → Includes history
      → R s (evaluate_if_current manages order_id_of h around others w m history x s).1
  unfolding evaluate_if_current
  evaluate_if_current_write w m history (raise e) s known =
      concludes_write w m none s (raise (engine_hold e), s) (stays s)
  evaluate_if_current_write w m history (ok _) s known =
      let begun =
        begin_evaluation m w.attempt_id (position_generation h.inventory_digest m.source_group s)
          s in
      follows s begun.1 _ (quiet_write s begun.1 (begin_evaluation-SameTrades m w.attempt_id _ s))
        (evaluate_write w m history _ begun known)

  evaluated_write :
      (w : HandleWorld) (c : Channel) (m : Message) (o : Observation) (s : Store)
      → Includes (is_context w c m o)
      → R s (evaluate_observed manages order_id_of h around others w c m o s).1
  unfolding evaluate_observed
  evaluated_write w c m o s known =
      either _ s _ _ (notes_write w m context none s)
        (evaluate_if_current_write w m (is_context w c m o) _ s known)

  handle_observed_write :
      (w : HandleWorld) (c : Channel) (m : Message) (o : Observation) (s : Store)
      → Includes (is_context w c m o)
      → R s (handle_observed manages order_id_of h around others w c m o s).1
  unfolding handle_observed
  handle_observed_write w c m same_revision s known = stays s
  handle_observed_write w c m edited_revision s known =
      evaluated_write w c m edited_revision s known
  handle_observed_write w c m new_message s known = evaluated_write w c m new_message s known

  pub observed_now_write :
      (w : HandleWorld) (m : Message) (s : Store)
      → R s (observed_now manages order_id_of h around others w m s).1
  unfolding observed_now
  observed_now_write w m s = elim (Option-cases w.already) [
    | inl fresh ↦ rw fresh (quiet_write s _ (observe-SameTrades m w.observed_at s))
    | inr (o, before) ↦ rw before (stays s)
  ]

  pub handle_trusted_write :
      (w : HandleWorld) (c : Channel) (m : Message) (s : Store)
      → Includes (is_context w c m (observed_now manages order_id_of h around others w m s).0)
      → R s (handle_trusted manages order_id_of h around others w c m s).1
  unfolding handle_trusted
  handle_trusted_write w c m s known =
      let (o, t) = observed_now manages order_id_of h around others w m s in
      either w.is_valid s _ _
        (follows s t _ (observed_now_write w m s) (handle_observed_write w c m o t known)) (stays s)
