-- ===== src/Handling.antt =====
-- `Engine.handle` of relay/core.py: a message from its arrival to its outcome, with `execute_decision`
-- for every action. The timings, the diagnostics, the context for the model and the watches are left
-- out, and a task is only canceled while the model works or while it waits for the engine's lock.
pub mod Writes
pub mod Kept
pub mod Apart
use discord_option_tailer.Base.{
  Bool, Except, Option, false, if◌then◌else◌, is_some, none, not, ok, raise, raise_if, some, true,
  ℕ, ◌&&◌, ◌==◌, ◌>>◌, ◌||◌,
}
use discord_option_tailer.Engine.Episode.{guard_position_episode, is_idle}
use discord_option_tailer.Engine.Expiry.{ExpiryWorld, resolve_expiry}
use discord_option_tailer.Engine.Guards.{
  Channel, Claim, Hold, Memory, analysis_only, channel_allows_author, fresh, kill_switch_present,
  position_generation, superseded_claim, unchanged,
}
use discord_option_tailer.Episodes.{EpisodeResult, ambiguous_entry, resolve_episode}
use discord_option_tailer.Execution.{Digests, ExecutionWorld, execute_decision}
use discord_option_tailer.Sizing.{Risk}
use discord_option_tailer.Stops.{Act, StopError, engine_hold, failed}
use discord_option_tailer.Stops.Update.{UpdateWorld, update_protection}
use discord_option_tailer.Store.Claims.{begin_evaluation, claim_evaluation, finish_evaluation}
use discord_option_tailer.Store.Intake.{Observation, edited_revision, observe, same_revision}
use discord_option_tailer.Store.Outcomes.{record_outcome}
use discord_option_tailer.Store.Rows.{
  Action, Decision, EventState, Submission, context, detail, duplicate, error, evaluated,
  evaluating, held, ignore, ignored, invalid, is_update_stop, monitoring, untrusted, waiting,
}
use discord_option_tailer.Store.State.{Attempt, Message, Store}

pub data Interpretation : Type 0 where
  interprets : Decision → Interpretation
  interpreter_holds : Interpretation
  interpreter_fails : Interpretation
  worker_stops : Interpretation

-- What the call reads beside the ledger. `channel_of` is the configured channel of an ID; `is_valid`
-- says that timestamp, ID, revision and edit time can be read; `live` that the message came as a live
-- event from the browser or the gateway; `already` is the observation that the reader has committed,
-- if it has. `starts_at` and `locked_at` are the times of the two freshness checks, `stops_waiting`
-- whether the task is canceled while it waits for the lock, and `monitored` the text of the monitor
-- that the decision arms, if it has one.
pub record HandleWorld : Type 0 where
  pub channel_of : ℕ → Option Channel
  pub is_valid : Bool
  pub live : Bool
  pub already : Option Observation
  pub analyze_history : Bool
  pub has_interpreter : Bool
  pub risk : Risk
  pub memory : Memory
  pub locked_memory : Memory
  pub kill_switch : Bool
  pub observed_at : ℕ
  pub starts_at : ℕ
  pub locked_at : ℕ
  pub attempt_id : ℕ
  pub names_option : Bool
  pub interpretation : Interpretation
  pub stops_waiting : Bool
  pub expiry : ExpiryWorld
  pub monitored : Option ℕ
  pub execution : ExecutionWorld
  pub change : UpdateWorld
  pub words : Option Submission
  pub text : ℕ

-- How the call ends: with the state that it returns, or canceled.
pub data Handled : Type 0 where
  ends_as : EventState → Handled
  canceled_task : Handled

unfoldable pub notes :
    HandleWorld → Message → EventState → Option Decision → Store → Handled × Store
notes w m state d s = (ends_as state, record_outcome m state (detail w.text) d w.words s)

-- A hold is recorded as one; anything else that is raised is an error.
abbrev pub failure_state : StopError → EventState
failure_state failed = error
failure_state _ = held

unfoldable pub concludes :
    HandleWorld → Message → Option Decision → Except StopError EventState × Store → Handled × Store
concludes w m d (ok state, t) = (ends_as state, t)
concludes w m d (raise e, t) = notes w m (failure_state e) d t

abbrev pub stops_task : HandleWorld → Message → Option Decision → Store → Handled × Store
stops_task w m d s = (canceled_task, (notes w m context d s).1)

abbrev pub is_edit : Observation → Bool
is_edit edited_revision = true
is_edit _ = false

-- `context_only`
unfoldable pub is_context : HandleWorld → Channel → Message → Observation → Bool
is_context w c m o = is_edit o || (is_some m.edited_timestamp || (not w.live || not c.for_signals))

abbrev pub idle_state : HandleWorld → Bool → Action → EventState
idle_state w history a =
    if is_some w.monitored && not history
    then monitoring
    else (elim a [ ignore ↦ ignored | _ ↦ waiting ])

unfoldable pub is_authorized : HandleWorld → Message → Message → Bool
is_authorized w m e = elim (w.channel_of e.channel_id) [
  | none ↦ false
  | some c ↦
      c.for_signals && (c.source_group == m.source_group && channel_allows_author c e.author_id)
]

-- The episode's entry must come from a source that is authorized still.
unfoldable pub admitted_episode : HandleWorld → Message → EpisodeResult → EpisodeResult
admitted_episode w m ep = elim ep.entry_message [
  | none ↦ ep
  | some e ↦
      if e.id == m.id || is_authorized w m e then ep else record ep { state = ambiguous_entry }
]

abbrev pub claim_of : Attempt → Claim
claim_of a = record {
  source_generation = a.source_generation;
  position_generation = a.position_generation;
}

-- `around n` is what other tasks write while this one does not have the engine's lock, `others n`
-- what they write while it has.
module _ (manages : Message → Bool) (order_id_of : ℕ → ℕ → ℕ) (h : Digests)
    (around : ℕ → Store → Store) (others : ℕ → Store → Store) where
  unfoldable pub execute_any : HandleWorld → Message → Decision → Act EventState
  execute_any w m d =
      if is_update_stop d.action
      then update_protection h.stop_order h.inventory_digest (others 9) w.change m d
      else execute_decision h others w.execution m d

  -- With the decision that is final: history is never executed.
  unfoldable pub act_on : HandleWorld → Message → Bool → Decision → Act EventState
  act_on w m history d s =
      if is_idle d.action
      then (let state = idle_state w history d.action in
          (ok state, record_outcome m state (detail w.text) (some d) w.words s))
      else if history
      then (raise (engine_hold analysis_only), s)
      else execute_any w m d s

  unfoldable pub resolved_for :
      HandleWorld → Message → Bool → Decision → Except StopError Decision → Store → Handled × Store
  resolved_for w m history d (raise e) s = concludes w m (some d) (raise e, s)
  resolved_for w m history d (ok d') s =
      concludes w m (some d') (act_on w m history d' (others 8 s))

  -- Under the lock: the one claim of the attempt.
  unfoldable pub claim_and_act :
      HandleWorld → Message → Bool → Attempt → Decision → Store → Handled × Store
  claim_and_act w m history a d s =
      let (won, t) = claim_evaluation m.id m.revision a.attempt_id s in
      if won
      then resolved_for w m history d (resolve_expiry w.expiry w.risk w.locked_memory m d t) t
      else concludes w m (some d) (raise (engine_hold superseded_claim), t)

  unfoldable pub check_still :
      HandleWorld → Message → Bool → Attempt → Store → Except Hold (Unit {0})
  check_still w m history a s =
      if history
      then ok tt
      else (unchanged h.inventory_digest (some (claim_of a)) m w.locked_memory s
          >> fresh w.risk m w.locked_at)

  unfoldable pub act_if_current :
      HandleWorld
      → Message
      → Bool
      → Attempt
      → Decision
      → Except Hold (Unit {0})
      → Store
      → Handled × Store
  act_if_current w m history a d (raise e) s = concludes w m (some d) (raise (engine_hold e), s)
  act_if_current w m history a d (ok _) s = claim_and_act w m history a d s

  unfoldable pub under_lock :
      HandleWorld → Message → Bool → Attempt → Decision → Store → Handled × Store
  under_lock w m history a d s =
      if w.stops_waiting
      then stops_task w m (some d) s
      else act_if_current w m history a d (check_still w m history a s) s

  unfoldable pub take_interpretation :
      HandleWorld
      → Message
      → Bool
      → Attempt
      → EpisodeResult
      → Interpretation
      → Store
      → Handled × Store
  take_interpretation w m history a ep interpreter_holds s = notes w m held none s
  take_interpretation w m history a ep interpreter_fails s = notes w m error none s
  take_interpretation w m history a ep worker_stops s = stops_task w m none s
  take_interpretation w m history a ep (interprets d) s =
      let guarded_decision = guard_position_episode w.names_option m d ep in
      under_lock w m history a guarded_decision
        (around 1 ((notes w m evaluated (some guarded_decision) s).1))

  unfoldable pub evaluate :
      HandleWorld → Message → Bool → EpisodeResult → Option Attempt × Store → Handled × Store
  evaluate w m history ep (none, s) = (ends_as duplicate, s)
  evaluate w m history ep (some a, s) =
      let (r, t) =
        take_interpretation w m history a ep w.interpretation
          (around 0 ((notes w m evaluating none s).1)) in
      (r, finish_evaluation m.id m.revision a.attempt_id t)

  unfoldable pub check_arrival : HandleWorld → Message → Bool → Store → Except Hold (Unit {0})
  check_arrival w m history s =
      if history
      then ok tt
      else (fresh w.risk m w.starts_at
          >> unchanged h.inventory_digest none m w.memory s
          >> raise_if w.kill_switch kill_switch_present)

  unfoldable pub evaluate_if_current :
      HandleWorld → Message → Bool → Except Hold (Unit {0}) → Store → Handled × Store
  evaluate_if_current w m history (raise e) s = concludes w m none (raise (engine_hold e), s)
  evaluate_if_current w m history (ok _) s =
      let ep = admitted_episode w m (resolve_episode manages order_id_of m s) in
      let digest_now = position_generation h.inventory_digest m.source_group s in
      evaluate w m history ep (begin_evaluation m w.attempt_id digest_now s)

  unfoldable pub evaluate_observed :
      HandleWorld → Channel → Message → Observation → Store → Handled × Store
  evaluate_observed w c m o s =
      let history = is_context w c m o in
      if history && not w.analyze_history || not w.has_interpreter
      then notes w m context none s
      else evaluate_if_current w m history (check_arrival w m history s) s

  -- After the observation.
  unfoldable pub handle_observed :
      HandleWorld → Channel → Message → Observation → Store → Handled × Store
  handle_observed w c m same_revision s = (ends_as duplicate, s)
  handle_observed w c m o s = evaluate_observed w c m o s

  unfoldable pub observed_now : HandleWorld → Message → Store → Observation × Store
  observed_now w m s = elim w.already [ some o ↦ (o, s) | none ↦ observe m w.observed_at s ]

  unfoldable pub handle_trusted : HandleWorld → Channel → Message → Store → Handled × Store
  handle_trusted w c m s =
      if w.is_valid
      then (let (o, t) = observed_now w m s in handle_observed w c m o t)
      else (ends_as invalid, s)

  unfoldable pub for_channel : HandleWorld → Message → Option Channel → Store → Handled × Store
  for_channel w m none s = (ends_as untrusted, s)
  for_channel w m (some c) s =
      if channel_allows_author c m.author_id
      then handle_trusted w c (record m { source_group = c.source_group }) s
      else (ends_as untrusted, s)

  -- `handle`
  unfoldable pub handle : HandleWorld → Message → Store → Handled × Store
  handle w m s = for_channel w m (w.channel_of m.channel_id) s
