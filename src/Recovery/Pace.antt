-- ===== src/Recovery/Pace.antt =====
-- The time of the next reconciliation (relay/recovery.py).
use discord_option_tailer.Base.{Bool-cases, List, [], arith, inl, inr, true, ℕ, ◌||◌, ◌∷◌, ◌≡◌, ◌≤◌}
use discord_option_tailer.Recovery.{
  deadline_delay, entry_cancel_due, has_urgent, is_doubtful, next_delay, order_delay,
}
use discord_option_tailer.Store.Rows.{Order}

order_delay-ge : (now : ℕ) (o : Order) → 50000 ≤ order_delay now o
unfolding order_delay deadline_delay
order_delay-ge now o = ground arith

next_delay-ge : (now : ℕ) (os : List Order) → 50000 ≤ next_delay now os
unfolding next_delay
next_delay-ge now [] = omega arith
next_delay-ge now (o ∷ os) = ground (arith, order_delay-ge now o, next_delay-ge now os)

next_delay-le : (now : ℕ) (os : List Order) → next_delay now os ≤ 30000000
unfolding next_delay
next_delay-le now [] = omega arith
next_delay-le now (o ∷ os) = ground (arith, next_delay-le now os)

urgent_delay :
    (now : ℕ) (o : Order)
    → (is_doubtful o.status || entry_cancel_due o now) ≡ true
    → order_delay now o ≤ 1000000
unfolding order_delay deadline_delay entry_cancel_due
urgent_delay now o h = ground arith

urgent-le : (now : ℕ) (os : List Order) → has_urgent now os ≡ true → next_delay now os ≤ 1000000
unfolding has_urgent next_delay
urgent-le now [] h = absurd (ground arith)
urgent-le now (o ∷ os) h = elim (Bool-cases (is_doubtful o.status || entry_cancel_due o now)) [
  | inl e ↦ ground (arith, urgent_delay now o e)
  | inr e ↦ ground (arith, urgent-le now os (ground arith))
]

-- The next round is due after 50 milliseconds at least and half a minute at most, and after a second
-- at most where an order is urgent.
pub next_delay_bounded :
    (now : ℕ) (os : List Order)
    → (50000 ≤ next_delay now os)
      × (next_delay now os ≤ 30000000)
      × (has_urgent now os ≡ true → next_delay now os ≤ 1000000)
next_delay_bounded now os = (next_delay-ge now os, next_delay-le now os, urgent-le now os)
