-- ===== src/Tests/AccountCache.antt =====
-- Runs of the account cache (relay/account.py): a failure, an early call, a restart and a late call.
use discord_option_tailer.Account.{
  AccountError, AccountOp, AccountValue, Refresh, account_step, load, no_value, refresh,
  refresh_failed, refreshes, reloads, until_due,
}
use discord_option_tailer.Account.Apart.{AreApart, attempts_of, attempts_of-AreApart}
use discord_option_tailer.Base.{Except, List, [], arith, false, ok, raise, refl, some, ℕ, ◌∷◌, ◌≡◌}

abbrev at_time : ℕ → Except AccountError ℕ → Refresh
at_time now answer = record {
  force = false;
  account = some 5;
  checked_at = now;
  attempted_at = now;
  answer = answer;
  answered_at = now;
}

abbrev known_value : AccountValue
known_value = record no_value { account_id = some 5; last_attempt_at = some 1000 }

abbrev a_day : List AccountOp
a_day =
    refreshes (at_time 600001000 (raise refresh_failed))
    ∷ refreshes (at_time 700000000 (ok 1))
    ∷ reloads
    ∷ refreshes (at_time 1300000000 (ok 2))
    ∷ []

day_run : attempts_of (some 5) a_day known_value ≡ 600001000 ∷ 1300000000 ∷ []
unfolding attempts_of account_step refresh until_due load
day_run = refl

attempts_of-AreApart_example : AreApart 1000 (attempts_of (some 5) a_day known_value)
attempts_of-AreApart_example =
    attempts_of-AreApart 5 1000 1000 a_day known_value refl refl (omega arith) (
      refl,
      omega arith,
      omega arith,
      (refl, omega arith, omega arith, (refl, omega arith, omega arith, tt)),
    )
