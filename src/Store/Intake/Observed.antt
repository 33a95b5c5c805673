-- ===== src/Store/Intake/Observed.antt =====
-- What `observe` (relay/core.py) reports over a sequence of messages.
use discord_option_tailer.Base.{
  Bool, Bool-cases, List, Option-cases, [], arith, false, find, if◌then◌else◌, inl, inr, is_some,
  refl, some, true, ℕ, ◌&&◌, ◌+◌, ◌==◌, ◌∷◌, ◌≡◌, ◌≤◌,
}
use discord_option_tailer.Store.Intake.{
  Observation, edited_revision, find_message, first_event, is_event_of, new_message, observe,
  record_episode, refresh_media, same_revision, store_message, store_revision,
}
use discord_option_tailer.Store.Rows.{Event}
use discord_option_tailer.Store.State.{Message, Store}

store_message-events : (m : Message) (s : Store) → (store_message m s).events ≡ s.events
unfolding record_episode
store_message-events m s = ground arith

-- A revision that has an event is never reported as new or edited again.
pub observe-same_revision :
    (m : Message) (now : ℕ) (s : Store) {e : Event}
    → find (is_event_of m.id m.revision) s.events ≡ some e
    → (observe m now s).0 ≡ same_revision
unfolding observe store_revision
observe-same_revision m now s h = ground (arith, store_message-events m s)

refresh_media-events : (old m : Message) (s : Store) → (refresh_media old m s).events ≡ s.events
unfolding refresh_media
refresh_media-events old m s = ground arith

abbrev has_event : ℕ → ℕ → Store → Bool
has_event k r s = is_some (find (is_event_of k r) s.events)

abbrev is_report : Observation → Bool
is_report same_revision = false
is_report _ = true

-- A report, 1 or 0, of the revision `r` of the message `k`.
abbrev report_of : ℕ → ℕ → Message → Observation → ℕ
report_of k r m o = if m.id == k && (m.revision == r && is_report o) then 1 else 0

-- What a revision can still be reported: once before it has an event, then not at all.
abbrev remaining : ℕ → ℕ → Store → ℕ
remaining k r s = if has_event k r s then 0 else 1

is_event_of-first_event :
    (k r : ℕ) (m : Message) (now : ℕ) (es : List Event)
    → is_event_of k r (first_event m now es) ≡ (m.id == k && m.revision == r)
unfolding is_event_of
is_event_of-first_event k r m now es = refl

store_revision-remaining :
    (k r : ℕ) (m : Message) (now : ℕ) (o : Observation) (s : Store)
    → report_of k r m (store_revision m now o s).0 + remaining k r (store_revision m now o s).1
      ≤ remaining k r s
unfolding store_revision
store_revision-remaining k r m now o s =
    let kept = store_message-events m s in
    elim (Bool-cases (m.id == k && m.revision == r)) [
      | inl hit ↦ ground (arith, kept, is_event_of-first_event k r m now (store_message m s).events)
      | inr other ↦
          ground (arith, kept, is_event_of-first_event k r m now (store_message m s).events)
    ]

observe-remaining :
    (k r : ℕ) (m : Message) (now : ℕ) (s : Store)
    → report_of k r m (observe m now s).0 + remaining k r (observe m now s).1 ≤ remaining k r s
unfolding observe
observe-remaining k r m now s = elim (Option-cases (find_message m.id s)) [
  | inl unknown_id ↦ ground (arith, store_revision-remaining k r m now new_message s)
  | inr (old, found) ↦
      ground
        (arith, refresh_media-events old m s, store_revision-remaining k r m now edited_revision s)
]

-- The reports of one revision over a sequence of observations.
unfoldable pub reports : ℕ → ℕ → List (Message × ℕ) → Store → ℕ
reports k r [] s = 0
reports k r ((m, now) ∷ ms) s = let (o, t) = observe m now s in report_of k r m o + reports k r ms t

reports-le-remaining :
    (k r : ℕ) (ms : List (Message × ℕ)) (s : Store) → reports k r ms s ≤ remaining k r s
unfolding reports
reports-le-remaining k r [] s = omega arith
reports-le-remaining k r ((m, now) ∷ ms) s =
    omega (arith, observe-remaining k r m now s, reports-le-remaining k r ms (observe m now s).1)

-- Over any sequence of observations, whatever store it starts from and however edits and restored
-- histories mix, one revision of one message is reported as new or edited at most once.
pub reports-le-one : (k r : ℕ) (ms : List (Message × ℕ)) (s : Store) → reports k r ms s ≤ 1
reports-le-one k r ms s = elim (Bool-cases (has_event k r s)) [
  | inl e ↦ ground (arith, reports-le-remaining k r ms s)
  | inr e ↦ ground (arith, reports-le-remaining k r ms s)
]
