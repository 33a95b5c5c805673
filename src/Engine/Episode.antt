-- ===== src/Engine/Episode.antt =====
-- `guard_position_episode` of relay/core.py: which decisions a position episode lets through.
use discord_option_tailer.Base.{
  Bool, Option, false, if◌then◌else◌, is_some, none, not, some, true, ◌&&◌, ◌||◌,
}
use discord_option_tailer.Episodes.{
  EpisodeReason, EpisodeResult, EpisodeState, needs_classification, owned_entry,
}
use discord_option_tailer.Store.Rows.{
  Action, Contract, Decision, ignore, is_exit, is_update_stop, same_contract, wait,
}
use discord_option_tailer.Store.State.{Message}

abbrev pub needs_classes : EpisodeReason → Bool
needs_classes needs_classification = true
needs_classes _ = false

abbrev pub is_owned_state : EpisodeState → Bool
is_owned_state owned_entry = true
is_owned_state _ = false

-- Both contracts are there and the same.
unfoldable pub agrees : Option Contract → Option Contract → Bool
agrees (some c) (some e) = same_contract c e
agrees _ _ = false

abbrev pub withheld : Decision → Decision
withheld d = record d {
  action = wait;
  contract = none;
  quantity = none;
  fraction = none;
  alert_price = none;
  stop_price = none;
  origin_message_id = none;
  profit_only = some false;
}

-- `names_option` says whether `option_matches` of relay/entry_rules.py finds an option in the text.
unfoldable pub is_admitted : Bool → Message → Decision → EpisodeResult → Bool
is_admitted names_option m d ep =
    not (is_exit d.action || is_update_stop d.action)
    || (names_option
        || (not (is_some ep.entry_message) && not (is_some m.reply_to)
            || (needs_classes ep.reason && not d.by_rules
                || (is_owned_state ep.state && agrees d.contract ep.contract))))

-- `guard_position_episode`
unfoldable pub guard_position_episode : Bool → Message → Decision → EpisodeResult → Decision
guard_position_episode names_option m d ep =
    if is_admitted names_option m d ep then d else withheld d

abbrev pub is_idle : Action → Bool
is_idle ignore = true
is_idle wait = true
is_idle _ = false
