-- ===== src/Store/Outcomes.antt =====
-- `Store.record` of relay/core.py, less the timings that it completes and the log that it writes.
use discord_option_tailer.Base.{
  Bool, Option, arith, false, if◌then◌else◌, none, some, true, update, ◌≡◌,
}
use discord_option_tailer.Store.Intake.{is_event_of, record_episode}
use discord_option_tailer.Store.Rows.{Decision, EventState, Reason, Submission, is_entry}
use discord_option_tailer.Store.State.{Message, Store}

abbrev pub opens_position : Option Decision → Bool
opens_position none = false
opens_position (some d) = is_entry d.action

-- The whole decision is written anew: `words` is its `broker_submission`, and it has no reconciliation.
unfoldable pub record_outcome :
    Message → EventState → Reason → Option Decision → Option Submission → Store → Store
record_outcome m state why d words s =
    let t = if opens_position d then record_episode true m s else s in
    record t {
      events =
          update (is_event_of m.id m.revision)
            (λ e. record e {
              state = state;
              reason = why;
              decision = d;
              submission = words;
              reconciliation = none;
            })
            t.events;
    }

pub record_outcome-keeps :
    (m : Message) (state : EventState) (why : Reason) (d : Option Decision)
    (words : Option Submission) (s : Store)
    → let t = record_outcome m state why d words s in
      (t.orders ≡ s.orders) × (t.positions ≡ s.positions)
unfolding record_outcome record_episode
record_outcome-keeps m state why d words s = ground arith
