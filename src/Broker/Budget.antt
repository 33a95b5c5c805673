-- ===== src/Broker/Budget.antt =====
-- The request budget of an account, `_BrokerReadBudget` of relay/broker.py. Times are microseconds of
-- the monotonic clock, and a background token is a million parts, of which one comes back each
-- microsecond. Each operation holds the lock from its start to its end.
pub mod Window
pub mod Progress
use discord_option_tailer.Base.{
  Bool, List, Option, [], if◌then◌else◌, leb, length, max, min, none, some, ℕ, ◌*◌, ◌++◌, ◌+◌, ◌-◌,
  ◌/◌, ◌==◌, ◌^◌, ◌∷◌,
}

-- `_READ_BUDGET_WINDOW_SECONDS`, `_READ_BUDGET_TOTAL`, `_READ_BUDGET_BACKGROUND`, `_BACKGROUND_BURST`.
abbrev pub window : ℕ
window = 60000000

abbrev pub total_limit : ℕ
total_limit = 90

abbrev pub background_limit : ℕ
background_limit = 60

abbrev pub token : ℕ
token = 1000000

abbrev pub burst : ℕ
burst = 4000000

-- The two deques have their oldest request first.
pub record ReadBudget : Type 0 where
  pub requests : List ℕ
  pub background_requests : List ℕ
  pub background_tokens : ℕ
  pub background_refill_at : ℕ
  pub foreground_waiters : ℕ
  pub cooldown_until : ℕ
  pub throttle_strikes : ℕ
  pub wait_total : ℕ

abbrev pub new_budget : ℕ → ReadBudget
new_budget now = record {
  requests = [];
  background_requests = [];
  background_tokens = burst;
  background_refill_at = now;
  foreground_waiters = 0;
  cooldown_until = 0;
  throttle_strikes = 0;
  wait_total = 0;
}

-- `while self.requests and self.requests[0] <= cutoff: self.requests.popleft()`
unfoldable pub drop_old : ℕ → List ℕ → List ℕ
drop_old now [] = []
drop_old now (x ∷ xs) = let rest = drop_old now xs in if leb (x + window) now then rest else x ∷ xs

-- `_prune`
unfoldable pub prune : ℕ → ReadBudget → ReadBudget
prune now b = record b {
  requests = drop_old now b.requests;
  background_requests = drop_old now b.background_requests;
  background_tokens = min burst (b.background_tokens + (now - b.background_refill_at));
  background_refill_at = now;
}

-- How long until the oldest of a full deque leaves the window.
unfoldable pub until_room : ℕ → ℕ → List ℕ → ℕ
until_room now limit_count [] = 0
until_room now limit_count (x ∷ xs) =
    if leb limit_count (length (x ∷ xs)) then x + window - now else 0

unfoldable pub background_delay : ℕ → ReadBudget → ℕ
background_delay now b =
    max (until_room now background_limit b.background_requests)
      (max (token - b.background_tokens) (if b.foreground_waiters == 0 then 0 else 50000))

-- `delay`, for a budget that has been pruned.
unfoldable pub delay_of : Bool → ℕ → ReadBudget → ℕ
delay_of background now b =
    max (b.cooldown_until - now) (
      max (until_room now total_limit b.requests)
        (if background then background_delay now b else 0))

unfoldable pub admit : Bool → ℕ → ℕ → ReadBudget → ReadBudget
admit background started now b = record b {
  requests = b.requests ++ now ∷ [];
  background_requests =
      if background then b.background_requests ++ now ∷ [] else b.background_requests;
  background_tokens = if background then b.background_tokens - token else b.background_tokens;
  wait_total = b.wait_total + (now - started);
}

-- One round of `acquire`: the request is sent, refused as a BrokerPreflightHold, or has to sleep for
-- a time and come back.
pub data Verdict : Type 0 where
  granted budget_full : Verdict
  sleeps : ℕ → Verdict

unfoldable pub acquire_round : Bool → Bool → ℕ → ℕ → ReadBudget → Verdict × ReadBudget
acquire_round background waits started now b =
    let pruned = prune now b in
    let delay = delay_of background now pruned in
    if delay == 0
    then (granted, admit background started now pruned)
    else if waits
    then (sleeps (max 10000 delay), pruned)
    else (budget_full, pruned)

-- A foreground caller is counted from before its first round until it leaves.
unfoldable pub arrive : Bool → ReadBudget → ReadBudget
arrive background b =
    if background then b else record b { foreground_waiters = b.foreground_waiters + 1 }

unfoldable pub leave : Bool → ReadBudget → ReadBudget
leave background b =
    if background then b else record b { foreground_waiters = b.foreground_waiters - 1 }

-- `rate_limited`: the pause of a Retry-After header, or one that doubles with each strike. `random` is
-- the draw between 0 and 1, in millionths.
unfoldable pub pause : Option ℕ → ℕ → ℕ → ℕ
pause none strikes random =
    let ceiling = min 30000000 (500000 * 2 ^ min (strikes - 1) 6) in
    ceiling * (1000000 + random) / 2000000
pause (some after) strikes random = after + random * min 1000000 (max 100000 (after / 10)) / 1000000

unfoldable pub rate_limited : Option ℕ → ℕ → ℕ → ReadBudget → ReadBudget
rate_limited after random now b =
    let strikes = b.throttle_strikes + 1 in
    record b {
      throttle_strikes = strikes;
      cooldown_until = max b.cooldown_until (now + pause after strikes random);
    }

unfoldable pub succeeded : ReadBudget → ReadBudget
succeeded b = record b { throttle_strikes = 0 }

-- What the tasks of one account do to its budget, an operation at a time. A request that is sent is an
-- `asks` whose verdict is `granted`.
pub data BudgetOp : Type 0 where
  arrives leaves : Bool → BudgetOp
  asks : Bool → Bool → ℕ → BudgetOp
  is_throttled : Option ℕ → ℕ → BudgetOp
  succeeds reads_stats : BudgetOp

-- The request that the operation sends, if any, and the budget after it.
unfoldable pub budget_step : ℕ → BudgetOp → ReadBudget → Verdict × ReadBudget
budget_step now (arrives background) b = (budget_full, arrive background b)
budget_step now (leaves background) b = (budget_full, leave background b)
budget_step now (asks background waits started) b = acquire_round background waits started now b
budget_step now (is_throttled after random) b = (budget_full, rate_limited after random now b)
budget_step now succeeds b = (budget_full, succeeded b)
budget_step now reads_stats b = (budget_full, prune now b)
