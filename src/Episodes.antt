-- ===== src/Episodes.antt =====
-- `resolve_episode` of relay/episodes.py: the entry that a management comment is about, and whether
-- the relay owns its position. Message IDs, timestamps, groups and authors are well formed here.
pub mod Owned
use discord_option_tailer.Base.{
  Bool, List, Option, [], any, false, find, if◌then◌else◌, is_some, leb, ltb, none, not, select,
  some, true, ℕ, ◌&&◌, ◌==◌, ◌||◌, ◌∷◌,
}
use discord_option_tailer.Base.Decimal.{Decimal}
use discord_option_tailer.Engine.Guards.{is_true}
use discord_option_tailer.Store.Intake.{find_message, has_episode, is_event_of}
use discord_option_tailer.Store.Rows.{
  Action, Contract, Order, ignore, is_entry, is_exit, is_terminal, update_stop, wait,
}
use discord_option_tailer.Store.State.{
  Message, Store, blocks_orders, find_position, latest_entry, order_at,
}

pub data EpisodeState : Type 0 where
  missing_entry ambiguous_entry unsettled_entry flat_entry owned_entry : EpisodeState

pub data EpisodeReason : Type 0 where
  no_preceding_entry declares_entry reply_unavailable reply_inconsistent not_earlier : EpisodeReason
  no_order many_orders other_revision fill_unreconciled never_acquired superseded : EpisodeReason
  order_unreconciled fully_closed matches_position bad_chronology needs_classification :
      EpisodeReason

pub record EpisodeResult : Type 0 where
  pub state : EpisodeState
  pub reason : EpisodeReason
  pub entry_message : Option Message
  pub entry_order : Option ℕ
  pub contract : Option Contract
  pub quantity : ℕ
  pub average_price : Option Decimal
  pub blocking_message : Option Message

abbrev pub bare : EpisodeState → EpisodeReason → EpisodeResult
bare state reason = record {
  state = state;
  reason = reason;
  entry_message = none;
  entry_order = none;
  contract = none;
  quantity = 0;
  average_price = none;
  blocking_message = none;
}

-- The message with the greatest ID of those that pass, and the one with the least.
unfoldable pub newest : (Message → Bool) → List Message → Option Message
newest fits [] = none
newest fits (m ∷ ms) =
    let rest = newest fits ms in
    if fits m
    then (elim rest [ none ↦ some m | some r ↦ if ltb r.id m.id then some m else some r ])
    else rest

unfoldable pub oldest : (Message → Bool) → List Message → Option Message
oldest fits [] = none
oldest fits (m ∷ ms) =
    let rest = oldest fits ms in
    if fits m
    then (elim rest [ none ↦ some m | some r ↦ if ltb m.id r.id then some m else some r ])
    else rest

abbrev pub is_later : ℕ → Option ℕ → Bool
is_later t none = false
is_later t (some e) = ltb t e

-- Whether the reply's target can be what the comment is about.
unfoldable pub is_consistent : Message → Message → Bool
is_consistent reference m =
    reference.source_group == m.source_group
    && (leb reference.timestamp m.timestamp
        && (ltb reference.id m.id && not (is_some reference.edited_timestamp)))

-- The episode rows of the reference's channel and author up to the reference, by their messages.
unfoldable pub is_anchor : Message → Message → Store → Message → Bool
is_anchor m reference s x = elim (find (has_episode x.id) s.episodes) [
  | none ↦ false
  | some e ↦
      e.source_group == m.source_group
      && (e.channel_id == reference.channel_id
          && (e.author_id == reference.author_id && leb x.id reference.id))
]

abbrev pub is_settling : Action → Bool
is_settling ignore = true
is_settling wait = true
is_settling update_stop = true
is_settling a = is_exit a

-- A decision that has classified a post.
unfoldable pub is_classified : Message → Store → Bool
is_classified x s = elim (find (is_event_of x.id x.revision) s.events) [
  | none ↦ false
  | some e ↦ elim e.decision [
    | none ↦ false
    | some d ↦ is_settling d.action && (is_some d.ambiguous && not (is_true d.ambiguous))
  ]
]

unfoldable pub is_pending : ℕ → Contract → Store → Bool
is_pending g c s = any (λ o. order_at g c o && blocks_orders o) s.orders

abbrev pub is_latest : Order → Store → Bool
is_latest o s = elim (latest_entry o.source_group o.contract s) [
  | none ↦ false
  | some l ↦ l.id == o.id
]

abbrev pub is_entry_of : Message → ℕ → Order → Bool
is_entry_of e g o = o.message_id == e.id && (o.source_group == g && is_entry o.action)

-- `manages` says whether `deterministic_management` of relay/management_rules.py reads the post as a
-- management comment.
module _ (manages : Message → Bool) where
  -- `_unclassified_after`
  unfoldable pub is_unclassified : Message → Message → Store → Message → Bool
  is_unclassified entry_message m s x =
      x.source_group == m.source_group
      && (x.channel_id == m.channel_id
          && (x.author_id == m.author_id
              && (ltb entry_message.id x.id
                  && (ltb x.id m.id && (not (is_classified x s) && not (manages x))))))

  unfoldable pub unclassified_after : Message → Message → Store → Option Message
  unclassified_after entry_message m s = oldest (is_unclassified entry_message m s) s.messages

  -- A comment that is no reply waits for the posts since the entry to be classified.
  unfoldable pub after_owned : Message → Message → EpisodeResult → Store → EpisodeResult
  after_owned m entry_message result s =
      if is_some m.reply_to then result else elim (unclassified_after entry_message m s) [
        | none ↦ result
        | some x ↦
            if ltb m.timestamp x.timestamp || is_later m.timestamp x.edited_timestamp
            then record result { state = ambiguous_entry; reason = bad_chronology }
            else record result {
              state = ambiguous_entry;
              reason = needs_classification;
              blocking_message = some x;
            }
      ]

-- `order_id_of` is the SHA-256 that a client order ID is made with.
module _ (manages : Message → Bool) (order_id_of : ℕ → ℕ → ℕ) where
  -- The one order of the entry, and the position that it opened.
  unfoldable pub of_order : Message → Message → Order → Store → EpisodeResult
  of_order m entry_message o s =
      let base = record (bare unsettled_entry no_order) { entry_message = some entry_message } in
      let known = record base { contract = some o.contract; entry_order = some o.id } in
      if not (o.id == order_id_of entry_message.id entry_message.revision)
      then record base { state = ambiguous_entry; reason = other_revision }
      else if not (is_terminal o.status)
      then record known { reason = fill_unreconciled }
      else if o.filled_quantity == 0
      then record known { state = flat_entry; reason = never_acquired }
      else if not (is_latest o s)
      then record known { state = flat_entry; reason = superseded }
      else if is_pending o.source_group o.contract s
      then record known { reason = order_unreconciled }
      else elim (find_position o.source_group o.contract s.positions) [
        | none ↦ record known { state = flat_entry; reason = fully_closed }
        | some p ↦
            if p.quantity == 0
            then record known { state = flat_entry; reason = fully_closed }
            else after_owned manages m entry_message
                (record known {
                  state = owned_entry;
                  reason = matches_position;
                  quantity = p.quantity;
                  average_price = some p.average_price;
                })
                s
      ]

  unfoldable pub of_entry : Message → Message → Store → EpisodeResult
  of_entry m e s =
      let base = record (bare unsettled_entry no_order) { entry_message = some e } in
      if is_some e.edited_timestamp || (ltb m.timestamp e.timestamp || leb m.id e.id)
      then record base { state = ambiguous_entry; reason = not_earlier }
      else elim (select (is_entry_of e m.source_group) s.orders) [
        | [] ↦ base
        | o ∷ [] ↦ of_order m e o s
        | o ∷ p ∷ os ↦ record base { state = ambiguous_entry; reason = many_orders }
      ]

  unfoldable pub of_reference : Message → Message → Store → EpisodeResult
  of_reference m reference s = elim (newest (is_anchor m reference s) s.messages) [
    | none ↦ bare missing_entry no_preceding_entry
    | some e ↦ of_entry m e s
  ]

  -- `resolve_episode`
  unfoldable pub resolve_episode : Message → Store → EpisodeResult
  resolve_episode m s = elim m.reply_to [
    | none ↦ if m.declares then bare missing_entry declares_entry else of_reference m m s
    | some k ↦ elim (find_message k s) [
      | none ↦ bare ambiguous_entry reply_unavailable
      | some reference ↦
          if is_consistent reference m
          then of_reference m reference s
          else bare ambiguous_entry reply_inconsistent
    ]
  ]
