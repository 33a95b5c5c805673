-- ===== src/Broker/Budget/Progress.antt =====
-- A caller of the budget (relay/broker.py) that sleeps as long as it is told.
use discord_option_tailer.Base.{
  Bool, Bool-cases, List, [], arith, false, inl, inr, leb, length, max, refl, true, ℕ, ◌+◌, ◌-◌,
  ◌<◌, ◌==◌, ◌∙◌, ◌∷◌, ◌≡◌, ◌≤◌,
}
use discord_option_tailer.Broker.Budget.{
  ReadBudget, acquire_round, background_delay, background_limit, delay_of, drop_old, granted, prune,
  sleeps, total_limit, until_room, window,
}

-- What every reachable budget keeps: no deque is over its limit.
pub record HasRoom (b : ReadBudget) : Type 0 where
  pub all_requests : length b.requests ≤ total_limit
  pub of_background : length b.background_requests ≤ background_limit

until_room-less : (now n : ℕ) (xs : List ℕ) → length xs < n → until_room now n xs ≡ 0
unfolding until_room
until_room-less now n [] h = refl
until_room-less now n (x ∷ xs) h = ground arith

length-drop_old : (now : ℕ) (xs : List ℕ) → length (drop_old now xs) ≤ length xs
unfolding drop_old
length-drop_old now [] = omega arith
length-drop_old now (x ∷ xs) = ground (arith, length-drop_old now xs)

-- Once the wait for room is over, the oldest request has left the deque.
until_room-drop_old :
    (now d n : ℕ) (xs : List ℕ)
    → length xs ≤ n
    → 0 < n
    → until_room now n xs ≤ d
    → until_room (now + d) n (drop_old (now + d) xs) ≡ 0
unfolding until_room drop_old
until_room-drop_old now d n [] h pos e = refl
until_room-drop_old now d n (x ∷ xs) h pos e = elim (Bool-cases (leb (x + window) (now + d))) [
  | inl old ↦
      let shorter = length-drop_old (now + d) xs in
      rw old (until_room-less (now + d) n (drop_old (now + d) xs) (omega arith))
  | inr young ↦ rw young (until_room-less (now + d) n (x ∷ xs) (ground arith))
]

delay_of-again :
    (background : Bool) (now d : ℕ) (b : ReadBudget)
    → HasRoom b
    → b.background_refill_at ≡ now
    → (background ≡ true → b.foreground_waiters ≡ 0)
    → delay_of background now b ≤ d
    → delay_of background (now + d) (prune (now + d) b) ≡ 0
unfolding delay_of background_delay prune
delay_of-again true now d b room at alone h =
    let total =
      until_room-drop_old now d total_limit b.requests room.all_requests (omega arith)
        (omega arith) in
    let of_background =
      until_room-drop_old now d background_limit b.background_requests room.of_background
        (omega arith) (omega arith) in
    let nobody : b.foreground_waiters ≡ 0 = alone refl in ground arith
delay_of-again false now d b room at alone h =
    let total =
      until_room-drop_old now d total_limit b.requests room.all_requests (omega arith)
        (omega arith) in
    ground arith

prune-HasRoom : (now : ℕ) (b : ReadBudget) → HasRoom b → HasRoom (prune now b)
unfolding prune
prune-HasRoom now b room = record {
  all_requests = omega (arith, length-drop_old now b.requests, room.all_requests);
  of_background = omega (arith, length-drop_old now b.background_requests, room.of_background);
}

prune-fields :
    (now : ℕ) (b : ReadBudget)
    → ((prune now b).background_refill_at ≡ now)
      × ((prune now b).foreground_waiters ≡ b.foreground_waiters)
unfolding prune
prune-fields now b = (refl, refl)

-- A caller that is told to sleep is served when it comes back after that time, if no other operation
-- came between; a caller of the background needs that no foreground caller waits.
pub acquire_round-served :
    (background waits : Bool) (started now later d : ℕ) (b b' : ReadBudget)
    → HasRoom b
    → (background ≡ true → b.foreground_waiters ≡ 0)
    → acquire_round background true started now b ≡ (sleeps d, b')
    → now + d ≤ later
    → (acquire_round background waits started later b').0 ≡ granted
unfolding acquire_round
acquire_round-served background waits started now later d b b' room alone h after =
    let pruned = prune now b in
    elim (Bool-cases (delay_of background now pruned == 0)) [
      | inl zero_delay ↦ absurd (ground arith)
      | inr some_delay ↦
          let same_budget : pruned ≡ b' = ground arith in
          let slept : max 10000 (delay_of background now pruned) ≡ d = ground arith in
          let (refilled, waiters) = prune-fields now b in
          let apart : now + (later - now) ≡ later = omega arith in
          let served =
            delay_of-again background now (later - now) pruned (prune-HasRoom now b room) refilled
              (λ e. waiters ∙ alone e) (omega arith) in
          let zero_delay : delay_of background later (prune later b') ≡ 0 =
            rw (← same_budget) (rw apart at served) in
          rw zero_delay
    ]
