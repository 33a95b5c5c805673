-- ===== src/Tests/Management.antt =====
-- A comment on the position that its author's last alert opened (relay/episodes.py).
use discord_option_tailer.Base.{
  [], false, is_some, none, not, refl, some, true, ◌&&◌, ◌||◌, ◌∷◌, ◌≡◌, ◌⊎◌,
}
use discord_option_tailer.Base.Decimal.{of_ℕ}
use discord_option_tailer.Engine.Backed.{IsBacked, guard_position_episode-IsBacked}
use discord_option_tailer.Engine.Episode.{agrees, guard_position_episode, is_idle, is_owned_state}
use discord_option_tailer.Episodes.{
  after_owned, is_anchor, is_pending, is_unclassified, newest, of_entry, of_order, of_reference,
  oldest, owned_entry, resolve_episode, unclassified_after,
}
use discord_option_tailer.Episodes.Owned.{IsOwned, resolve_episode-IsOwned}
use discord_option_tailer.Store.Intake.{episode_of}
use discord_option_tailer.Store.Rows.{Decision, Order, close, entry, filled, same_contract}
use discord_option_tailer.Store.State.{
  Message, Store, blocks_orders, is_acquired_entry, order_at, position_at,
}
use discord_option_tailer.Tests.Ledger.{
  empty_store, entry_body, open_decision, option_contract, signal,
}

abbrev opened_row : Order
opened_row = record {
  id = 1;
  message_id = 100;
  source_group = 3;
  contract = option_contract;
  action = entry;
  body = entry_body;
  status = filled;
  broker_id = some 900;
  created_at = 2000;
  filled_quantity = 2;
  filled_notional = of_ℕ 3;
}

abbrev owned_store : Store
owned_store = record empty_store {
  messages = signal ∷ [];
  episodes = episode_of signal ∷ [];
  orders = opened_row ∷ [];
  positions =
      record { source_group = 3; contract = option_contract; quantity = 2; average_price = of_ℕ 1 }
      ∷ [];
}

abbrev comment : Message
comment = record signal { id = 101; revision = 13; timestamp = 1500; declares = false }

comment_run : (resolve_episode (λ m. false) (λ k r. 1) comment owned_store).state ≡ owned_entry
unfolding resolve_episode of_reference is_anchor newest of_entry of_order is_pending order_at
    same_contract blocks_orders is_acquired_entry position_at after_owned unclassified_after oldest
    is_unclassified
comment_run = refl

resolve_episode-IsOwned_example :
    IsOwned
      (λ m. false)
      comment
      owned_store
      (resolve_episode (λ m. false) (λ k r. 1) comment owned_store)
resolve_episode-IsOwned_example =
    resolve_episode-IsOwned (λ m. false) (λ k r. 1) comment owned_store comment_run

abbrev close_all : Decision
close_all = record open_decision { action = close; alert_price = none; stop_price = none }

comment_episode :
    (is_some (resolve_episode (λ m. false) (λ k r. 1) comment owned_store).entry_message
      || is_some comment.reply_to)
    ≡ true
unfolding resolve_episode of_reference is_anchor newest of_entry of_order is_pending order_at
    same_contract blocks_orders is_acquired_entry position_at after_owned unclassified_after oldest
    is_unclassified
comment_episode = refl

guard_position_episode-IsBacked_example :
    let ep = resolve_episode (λ m. false) (λ k r. 1) comment owned_store in
    let d' = guard_position_episode false comment close_all ep in
    (is_idle d'.action ≡ not (is_owned_state ep.state && agrees close_all.contract ep.contract))
    × ((is_idle d'.action ≡ true) ⊎ ((d' ≡ close_all) × IsBacked comment close_all owned_store))
guard_position_episode-IsBacked_example =
    guard_position_episode-IsBacked (λ m. false) (λ k r. 1) comment close_all owned_store refl refl
      comment_episode
