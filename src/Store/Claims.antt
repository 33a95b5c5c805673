-- ===== src/Store/Claims.antt =====
-- The evaluation claims of class Store (relay/core.py): `begin_evaluation`, `claim_evaluation` and
-- `finish_evaluation` over the table of attempts, whose key is the message and its revision.
pub mod Once
use discord_option_tailer.Base.{
  Bool, Option, false, find, if◌then◌else◌, is_some, none, some, true, update, ℕ, ◌&&◌, ◌==◌, ◌∷◌,
}
use discord_option_tailer.Store.Intake.{source_generation}
use discord_option_tailer.Store.Orders.{restart}
use discord_option_tailer.Store.State.{
  Attempt, AttemptState, Message, Store, accepted, finished, under_evaluation,
}

abbrev pub is_attempt_of : ℕ → ℕ → Attempt → Bool
is_attempt_of k r a = a.message_id == k && a.revision == r

abbrev pub is_evaluating : AttemptState → Bool
is_evaluating under_evaluation = true
is_evaluating _ = false

-- `begin_evaluation`, with the fresh attempt ID and the digest of the source's inventory. INSERT OR
-- IGNORE: `none` is the attempt that another one forestalled.
unfoldable pub begin_evaluation : Message → ℕ → ℕ → Store → Option Attempt × Store
begin_evaluation m attempt digest s =
    let a : Attempt = record {
      message_id = m.id;
      revision = m.revision;
      attempt_id = attempt;
      source_group = m.source_group;
      source_generation = source_generation m.source_group s.generations;
      position_generation = digest;
      state = under_evaluation;
    } in
    if is_some (find (is_attempt_of m.id m.revision) s.attempts)
    then (none, s)
    else (some a, record s { attempts = a ∷ s.attempts })

abbrev pub can_claim : ℕ → Attempt → Bool
can_claim attempt a = a.attempt_id == attempt && is_evaluating a.state

-- `claim_evaluation`: true for the one UPDATE that finds the attempt still under evaluation.
unfoldable pub claim_evaluation : ℕ → ℕ → ℕ → Store → Bool × Store
claim_evaluation k r attempt s = elim (find (is_attempt_of k r) s.attempts) [
  | none ↦ (false, s)
  | some a ↦
      if can_claim attempt a
      then (
        true,
        record s {
          attempts = update (is_attempt_of k r) (λ b. record b { state = accepted }) s.attempts;
        },
      )
      else (false, s)
]

unfoldable pub finish_evaluation : ℕ → ℕ → ℕ → Store → Store
finish_evaluation k r attempt s = elim (find (is_attempt_of k r) s.attempts) [
  | none ↦ s
  | some a ↦
      if a.attempt_id == attempt
      then record s {
        attempts = update (is_attempt_of k r) (λ b. record b { state = finished }) s.attempts;
      }
      else s
]

-- What the workers do to the table, one transaction at a time.
pub data ClaimOp : Type 0 where
  begins : Message → ℕ → ℕ → ClaimOp
  claims : ℕ → ℕ → ℕ → ClaimOp
  finishes : ℕ → ℕ → ℕ → ClaimOp
  restarts : ClaimOp

unfoldable pub claim_step : ClaimOp → Store → Bool × Store
claim_step (begins m attempt digest) s = (false, (begin_evaluation m attempt digest s).1)
claim_step (claims k r attempt) s = claim_evaluation k r attempt s
claim_step (finishes k r attempt) s = (false, finish_evaluation k r attempt s)
claim_step restarts s = (false, restart s)
