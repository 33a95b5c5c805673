-- ===== src/Tests/Intake.antt =====
-- Runs of the intake (relay/core.py): a message, its edit, the restored first revision, and two
-- workers that claim one evaluation.
use discord_option_tailer.Base.{List, [], none, ok, refl, ℕ, ◌∷◌, ◌≡◌, ◌≤◌}
use discord_option_tailer.Engine.Guards.{
  Memory, claim_guards, get_or, latest_known, latest_stored, message_guards, unchanged,
}
use discord_option_tailer.Engine.Guards.Latest.{IsCurrent, unchanged-IsCurrent}
use discord_option_tailer.Store.Claims.{
  ClaimOp, begin_evaluation, begins, claim_evaluation, claim_step, claims, restarts,
}
use discord_option_tailer.Store.Claims.Once.{claims_won, claims_won-le-one}
use discord_option_tailer.Store.Intake.{
  drop_message, is_event_of, next_generation, observe, record_episode, refresh_media,
  source_generation, store_revision,
}
use discord_option_tailer.Store.Intake.Observed.{reports, reports-le-one}
use discord_option_tailer.Store.Orders.{restart}
use discord_option_tailer.Store.State.{Message, Store}
use discord_option_tailer.Tests.Ledger.{empty_store, signal}

abbrev edited : Message
edited = record signal { revision = 12 }

abbrev history : List (Message × ℕ)
history = (signal, 2000) ∷ (signal, 2100) ∷ (edited, 2200) ∷ (signal, 2300) ∷ []

history_run : reports 100 11 history empty_store ≡ 1
unfolding reports observe store_revision record_episode drop_message next_generation is_event_of
    refresh_media
history_run = refl

reports-le-one_example : reports 100 11 history empty_store ≤ 1
reports-le-one_example = reports-le-one 100 11 history empty_store

abbrev race : List ClaimOp
race =
    begins signal 50 7
    ∷ begins signal 51 7
    ∷ claims 100 11 51
    ∷ claims 100 11 50
    ∷ claims 100 11 50
    ∷ restarts
    ∷ claims 100 11 50
    ∷ []

race_won : claims_won 100 11 race empty_store ≡ 1
unfolding claims_won claim_step begin_evaluation claim_evaluation source_generation restart
race_won = refl

claims_won-le-one_example : claims_won 100 11 race empty_store ≤ 1
claims_won-le-one_example = claims_won-le-one 100 11 race empty_store

abbrev no_memory : Memory
no_memory = record { observations = (100, 11) ∷ []; source_latest = (3, 100) ∷ [] }

abbrev older : Message
older = record signal { id = 90 }

abbrev two_stored : Store
two_stored = record empty_store { messages = signal ∷ older ∷ [] }

signal_run : unchanged (λ rows. 0) none signal no_memory two_stored ≡ ok tt
unfolding unchanged claim_guards message_guards latest_known latest_stored get_or
signal_run = refl

unchanged-IsCurrent_example : IsCurrent signal no_memory two_stored
unchanged-IsCurrent_example =
    unchanged-IsCurrent (λ rows. 0) none signal no_memory two_stored signal_run
