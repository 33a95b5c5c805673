-- ===== src/Recovery/Seen.antt =====
-- Which orders a round of reconciliation leaves to the next one (relay/recovery.py).
use discord_option_tailer.Base.{
  Bool, List, [], false, length, ok, suc, ℕ, ◌+◌, ◌<◌, ◌==◌, ◌||◌, ◌∷◌, ◌≤◌,
}
use discord_option_tailer.Recovery.{next_delay}
use discord_option_tailer.Recovery.Round.{RoundWorld, Schedule, open_orders}
use discord_option_tailer.Stops.{Act}
use discord_option_tailer.Store.Rows.{Order}
use discord_option_tailer.Store.State.{Store}

unfoldable pub is_among : ℕ → List (ℕ × Order) → Bool
is_among n [] = false
is_among n ((k, o) ∷ rows) = k == n || is_among n rows

-- Row numbers that fall from below a bound, and that rise from a bound on.
abbrev FallsBelow : ℕ → List (ℕ × Order) → Type 0
FallsBelow b [] = Unit
FallsBelow b ((k, o) ∷ rows) = (k < b) × FallsBelow k rows

abbrev RisesFrom : ℕ → List (ℕ × Order) → Type 0
RisesFrom b [] = Unit
RisesFrom b ((k, o) ∷ rows) = (b ≤ k) × RisesFrom (suc k) rows

-- The end of a round: its count and its schedule.
abbrev ends : RoundWorld → List (ℕ × Order) → ℕ → Act (ℕ × Schedule)
ends w rows seen t = (
  ok (
    length rows,
    record { next_at = w.ended_at + next_delay w.later (open_orders t); seen = seen },
  ),
  t,
)
