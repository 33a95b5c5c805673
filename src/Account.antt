-- ===== src/Account.antt =====
-- `AccountCache` of relay/account.py: the account values that the dashboard shows. Times are
-- microseconds.
pub mod Apart
use discord_option_tailer.Base.{
  Bool, Except, Option, false, if◌then◌else◌, leb, ltb, none, not, ok, raise, same_option, some,
  true, ℕ, ◌&&◌, ◌-◌,
}

abbrev pub refresh_period : ℕ
refresh_period = 600000000

pub data AccountError : Type 0 where
  refresh_failed auth_required : AccountError

-- `value`: the account's number, the time of the last attempt if it can be read, and what the broker's
-- overview said, with its time. `overview` stands for its other keys.
pub record AccountValue : Type 0 where
  pub account_id : Option ℕ
  pub last_attempt_at : Option ℕ
  pub overview : Option ℕ
  pub updated_at : Option ℕ
  pub error : Option AccountError

abbrev pub no_value : AccountValue
no_value = record {
  account_id = none;
  last_attempt_at = none;
  overview = none;
  updated_at = none;
  error = none;
}

-- `__init__`: a saved value of another account is dropped.
unfoldable pub load : Option ℕ → Option AccountValue → AccountValue
load account none = no_value
load account (some v) = if same_option v.account_id account then v else no_value

-- `seconds_until_due`, for an attempt in the future too.
unfoldable pub until_due : AccountValue → ℕ → ℕ
until_due v now = elim v.last_attempt_at [
  | none ↦ 0
  | some last ↦ if leb last now then refresh_period - (now - last) else 0
]

-- What the broker's call comes to, and the times at which `refresh` reads the clock: for the test, for
-- the attempt and, after an answer, for the update.
pub record Refresh : Type 0 where
  pub force : Bool
  pub account : Option ℕ
  pub checked_at : ℕ
  pub attempted_at : ℕ
  pub answer : Except AccountError ℕ
  pub answered_at : ℕ

abbrev pub after_answer : Refresh → AccountValue → Except AccountError ℕ → AccountValue
after_answer r v (ok overview) = record {
  account_id = r.account;
  last_attempt_at = v.last_attempt_at;
  overview = some overview;
  updated_at = some r.answered_at;
  error = none;
}
after_answer r v (raise e) = record v { error = some e }

-- `refresh`: whether it asked the broker, and the value, which is saved too.
unfoldable pub refresh : Refresh → AccountValue → Bool × AccountValue
refresh r v = if not r.force && ltb 0 (until_due v r.checked_at) then (false, v) else (
  true,
  after_answer r (record v { account_id = r.account; last_attempt_at = some r.attempted_at })
      r.answer,
)

-- The life of the cache of one account: refreshes, and restarts that load what was saved.
pub data AccountOp : Type 0 where
  refreshes : Refresh → AccountOp
  reloads : AccountOp

unfoldable pub account_step : Option ℕ → AccountOp → AccountValue → Bool × AccountValue
account_step account (refreshes r) v = refresh (record r { account = account }) v
account_step account reloads v = (false, load account (some v))
