-- ===== src/Store/Intake.antt =====
-- How class Store (relay/core.py) takes in messages: `observe`, with `record_episode` of
-- relay/episodes.py and the generation of each source.
pub mod Observed
use discord_option_tailer.Base.{
  Bool, List, Option, [], false, find, if◌then◌else◌, is_some, none, same_option, some, update, ℕ,
  ◌&&◌, ◌+◌, ◌==◌, ◌||◌, ◌∷◌,
}
use discord_option_tailer.Store.Rows.{Event, awaiting_interpretation, observed}
use discord_option_tailer.Store.State.{Episode, Message, Store}

pub data Observation : Type 0 where
  same_revision edited_revision new_message : Observation

-- `source_generation`
unfoldable pub source_generation : ℕ → List (ℕ × ℕ) → ℕ
source_generation g [] = 0
source_generation g ((j, n) ∷ gs) = if j == g then n else source_generation g gs

-- INSERT ... ON CONFLICT(source_group) DO UPDATE SET generation=generation+1
unfoldable pub next_generation : ℕ → List (ℕ × ℕ) → List (ℕ × ℕ)
next_generation g [] = (g, 1) ∷ []
next_generation g ((j, n) ∷ gs) = if j == g then (j, n + 1) ∷ gs else (j, n) ∷ next_generation g gs

abbrev pub has_message_id : ℕ → Message → Bool
has_message_id k m = m.id == k

abbrev pub find_message : ℕ → Store → Option Message
find_message k s = find (has_message_id k) s.messages

-- INSERT OR REPLACE INTO messages: the row is new, so it comes first.
unfoldable pub drop_message : ℕ → List Message → List Message
drop_message k [] = []
drop_message k (m ∷ ms) = let rest = drop_message k ms in if m.id == k then rest else m ∷ rest

abbrev pub has_episode : ℕ → Episode → Bool
has_episode k e = e.message_id == k

abbrev pub episode_of : Message → Episode
episode_of m = record {
  message_id = m.id;
  source_group = m.source_group;
  channel_id = m.channel_id;
  author_id = m.author_id;
  timestamp = m.timestamp;
  revision = m.revision;
}

-- `record_episode`: once there is an anchor it follows the message, and a declaration makes one.
-- Where the row has these values already the write is skipped, which comes to the same.
unfoldable pub record_episode : Bool → Message → Store → Store
record_episode force m s = elim (find (has_episode m.id) s.episodes) [
  | some old ↦ record s { episodes = update (has_episode m.id) (λ e. episode_of m) s.episodes }
  | none ↦ if force || m.declares then record s { episodes = episode_of m ∷ s.episodes } else s
]

-- UNIQUE(message_id, revision)
unfoldable pub is_event_of : ℕ → ℕ → Event → Bool
is_event_of k r e = e.message_id == k && e.revision == r

abbrev pub next_event_id : List Event → ℕ
next_event_id [] = 1
next_event_id (e ∷ es) = e.id + 1

abbrev pub first_event : Message → ℕ → List Event → Event
first_event m now es = record {
  id = next_event_id es;
  message_id = m.id;
  revision = m.revision;
  state = observed;
  reason = awaiting_interpretation;
  decision = none;
  submission = none;
  reconciliation = none;
  created_at = now;
}

-- The same revision with other attachments, embeds or transport revision: only those are stored.
unfoldable pub refresh_media : Message → Message → Store → Store
refresh_media old m s = elim m.transport_revision [
  | none ↦ s
  | some v ↦ if same_option old.transport_revision (some v) then s else record s {
    messages =
        update (has_message_id m.id)
          (λ o. record o { media = m.media; transport_revision = some v }) s.messages;
  }
]

abbrev pub store_message : Message → Store → Store
store_message m s = record_episode false m (record s {
  generations = next_generation m.source_group s.generations;
  messages = m ∷ drop_message m.id s.messages;
})

-- An event is made once for each revision: a restored older revision keeps its outcome.
unfoldable pub store_revision : Message → ℕ → Observation → Store → Observation × Store
store_revision m now outcome s =
    let t = store_message m s in
    if is_some (find (is_event_of m.id m.revision) t.events)
    then (same_revision, t)
    else (outcome, record t { events = first_event m now t.events ∷ t.events })

-- `observe`
unfoldable pub observe : Message → ℕ → Store → Observation × Store
observe m now s = elim (find_message m.id s) [
  | none ↦ store_revision m now new_message s
  | some old ↦
      if old.revision == m.revision
      then (same_revision, refresh_media old m s)
      else store_revision m now edited_revision s
]
