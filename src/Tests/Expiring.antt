-- ===== src/Tests/Expiring.antt =====
-- Runs of the expiry exits (relay/expiry.py).
use discord_option_tailer.Base.{Option, false, none, ok, refl, some, true, ℕ, ◌/◌, ◌≡◌}
use discord_option_tailer.Base.Decimal.{of_ℕ}
use discord_option_tailer.Engine.Guards.{check_quote_age, is_stale, paid}
use discord_option_tailer.Expiry.{
  ExitWorld, check_session, entry_order, event_of, exit_message, exit_owned, is_in_money,
  read_underlying,
}
use discord_option_tailer.Expiry.Apart.{exit_owned-SameTrades, is_unordered, may_exit}
use discord_option_tailer.Recovery.Guard.{last_made}
use discord_option_tailer.Store.Rows.{Contract, Position}
use discord_option_tailer.Store.State.{is_acquired_entry, order_at}
use discord_option_tailer.Tests.Execution.{digests, nobody, setting}
use discord_option_tailer.Tests.Ledger.{after_whole, fills, option_contract}
use discord_option_tailer.Tests.Planning.{around}

abbrev stock_at : ℕ → ExitWorld
stock_at price = record {
  risk = around.risk;
  session = some (1000, 9000);
  now = 2000;
  julianday = λ at. at / 1000;
  quoted_at = 2100;
  underlying = ok (record { symbol = 7; timestamp = some 2000; price = some (of_ℕ price) });
  execution = setting;
  words = none;
  text = 0;
}

abbrev event_number : ℕ → Contract → Option ℕ → ℕ
event_number g c k = 500

abbrev event_text : ℕ → ℕ
event_text n = n

abbrev owned_row : Position
owned_row = record {
  source_group = 3;
  contract = option_contract;
  quantity = 2;
  average_price = record { num = 5; den_pred = 3 };
}

-- The strike is 5: at 6 the call is sold, at 4 it is left alone.
itm_run :
    may_exit digests nobody (λ s. s) event_number event_text (stock_at 6) owned_row after_whole
    ≡ true
unfolding fills may_exit event_of entry_order last_made is_acquired_entry order_at is_unordered
    exit_message check_session read_underlying check_quote_age is_stale paid is_in_money
itm_run = refl

otm_run :
    may_exit digests nobody (λ s. s) event_number event_text (stock_at 4) owned_row after_whole
    ≡ false
unfolding fills may_exit event_of entry_order last_made is_acquired_entry order_at is_unordered
    exit_message check_session read_underlying check_quote_age is_stale paid is_in_money
otm_run = refl

exit_owned-SameTrades_example :
    let t =
      exit_owned digests nobody
        (λ s. s)
        event_number
        event_text
        (stock_at 4)
        owned_row
        after_whole in
    (t.orders ≡ after_whole.orders)
    × (t.positions ≡ after_whole.positions)
    × (t.stop_requests ≡ after_whole.stop_requests)
exit_owned-SameTrades_example =
    exit_owned-SameTrades digests nobody (λ s. s) event_number event_text (stock_at 4) owned_row
      after_whole otm_run
