-- ===== src/Broker/Budget/Window.antt =====
-- The requests that a run of the budget (relay/broker.py) sends, counted in windows of sixty seconds.
use discord_option_tailer.Base.{
  Bool, Bool-cases, List, Option, [], append-nil, append_assoc, arith, false, if◌then◌else◌, inl,
  inr, leb, length, ltb, none, not, refl, true, ℕ, ◌&&◌, ◌++◌, ◌+◌, ◌<◌, ◌==◌, ◌||◌, ◌∷◌, ◌≡◌, ◌≤◌,
}
use discord_option_tailer.Broker.Budget.{
  BudgetOp, ReadBudget, Verdict, acquire_round, admit, arrive, arrives, asks, background_delay,
  background_limit, budget_step, delay_of, drop_old, granted, is_throttled, leave, leaves,
  new_budget, prune, rate_limited, reads_stats, succeeded, succeeds, total_limit, until_room,
  window,
}

-- Whether a request was sent after `w` and at most a window later, and how many were.
abbrev in_window : ℕ → ℕ → Bool
in_window w x = ltb w x && leb x (w + window)

unfoldable pub count_in : ℕ → List ℕ → ℕ
count_in w [] = 0
count_in w (x ∷ xs) = (if in_window w x then 1 else 0) + count_in w xs

abbrev is_granted : Verdict → Bool
is_granted granted = true
is_granted _ = false

-- The requests that an operation sends: all of them, or those of the background.
abbrev sends : Bool → ℕ → BudgetOp → ReadBudget → List ℕ
sends only_background now (asks background waits started) b =
    if is_granted (acquire_round background waits started now b).0
      && (background || not only_background)
    then now ∷ []
    else []
sends only_background now _ b = []

-- A run of operations, each at its time.
unfoldable pub sent : Bool → List (ℕ × BudgetOp) → ReadBudget → List ℕ
sent only_background [] b = []
sent only_background ((now, op) ∷ ops) b =
    sends only_background now op b ++ sent only_background ops (budget_step now op b).1

-- The clock does not run backwards.
abbrev pub IsOrdered : ℕ → List (ℕ × BudgetOp) → Type 0
IsOrdered t [] = Unit
IsOrdered t ((now, op) ∷ ops) = (t ≤ now) × IsOrdered now ops

abbrev requests_of : Bool → ReadBudget → List ℕ
requests_of true b = b.background_requests
requests_of false b = b.requests

abbrev limit_of : Bool → ℕ
limit_of true = background_limit
limit_of false = total_limit

count_in-append : (w : ℕ) (xs ys : List ℕ) → count_in w (xs ++ ys) ≡ count_in w xs + count_in w ys
unfolding count_in
count_in-append w [] ys = omega arith
count_in-append w (x ∷ xs) ys = omega (arith, count_in-append w xs ys)

count_in-le-length : (w : ℕ) (xs : List ℕ) → count_in w xs ≤ length xs
unfolding count_in
count_in-le-length w [] = omega arith
count_in-le-length w (x ∷ xs) = ground (arith, count_in-le-length w xs)

drop_old-count :
    (now w : ℕ) (xs : List ℕ) → now ≤ w + window → count_in w (drop_old now xs) ≡ count_in w xs
unfolding drop_old count_in
drop_old-count now w [] h = refl
drop_old-count now w (x ∷ xs) h = ground (arith, drop_old-count now w xs h)

length-drop_old : (now : ℕ) (xs : List ℕ) → length (drop_old now xs) ≤ length xs
unfolding drop_old
length-drop_old now [] = omega arith
length-drop_old now (x ∷ xs) = ground (arith, length-drop_old now xs)

length-append_single : (xs : List ℕ) (y : ℕ) → length (xs ++ y ∷ []) ≡ length xs + 1
length-append_single [] y = omega arith
length-append_single (x ∷ xs) y = omega (arith, length-append_single xs y)

-- A deque with no room to wait for holds less than its limit: its head is in the window.
until_room-zero :
    (now n : ℕ) (xs : List ℕ)
    → 0 < n
    → until_room now n (drop_old now xs) ≡ 0
    → length (drop_old now xs) < n
unfolding until_room drop_old
until_room-zero now n [] h e = h
until_room-zero now n (x ∷ xs) h e = elim (Bool-cases (leb (x + window) now)) [
  | inl old ↦ rw old (until_room-zero now n xs h (rw old at e))
  | inr young ↦ ground arith
]

-- What holds between the requests sent by the time `t` and the deque that remembers them: a window that
-- reaches to `t` or past it has no more requests than the deque has in it, and none has more than `n`.
record IsBounded (n t : ℕ) (log deque : List ℕ) : Type 0 where
  remembers : (w : ℕ) → t ≤ w + window → count_in w log ≤ count_in w deque
  bounded : (w : ℕ) → count_in w log ≤ n
  room : length deque ≤ n

IsBounded-later :
    (n t now : ℕ) (log deque : List ℕ)
    → t ≤ now
    → IsBounded n t log deque
    → IsBounded n now log deque
IsBounded-later n t now log deque h b = record {
  remembers = λ w e. b.remembers w (omega arith);
  bounded = b.bounded;
  room = b.room;
}

IsBounded-drop_old :
    (n t now : ℕ) (log deque : List ℕ)
    → t ≤ now
    → IsBounded n t log deque
    → IsBounded n now log (drop_old now deque)
IsBounded-drop_old n t now log deque h b = record {
  remembers = λ w e. rw (drop_old-count now w deque e) (b.remembers w (omega arith));
  bounded = b.bounded;
  room = omega (arith, length-drop_old now deque, b.room);
}

IsBounded-push :
    (n now : ℕ) (log deque : List ℕ)
    → length deque < n
    → IsBounded n now log deque
    → IsBounded n now (log ++ now ∷ []) (deque ++ now ∷ [])
unfolding count_in
IsBounded-push n now log deque less b = record {
  remembers = λ w e. omega (
    arith,
    count_in-append w log (now ∷ []),
    count_in-append w deque (now ∷ []),
    b.remembers w e,
  );
  bounded = λ w. elim (Bool-cases (in_window w now)) [
    | inl counted ↦
        let reaches : now ≤ w + window = ground arith in
        let all_in = count_in-le-length w deque in
        let known = b.remembers w reaches in ground (arith, count_in-append w log (now ∷ []))
    | inr other ↦ ground (arith, count_in-append w log (now ∷ []), b.bounded w)
  ];
  room = omega (arith, length-append_single deque now);
}

IsBounded-same :
    (n t now : ℕ) (log deque deque' : List ℕ)
    → t ≤ now
    → deque' ≡ deque
    → IsBounded n t log deque
    → IsBounded n now (log ++ []) deque'
IsBounded-same n t now log deque deque' h e b =
    rw (append-nil log) (rw e (IsBounded-later n t now log deque h b))

requests_of-prune :
    (only : Bool) (now : ℕ) (b : ReadBudget)
    → requests_of only (prune now b) ≡ drop_old now (requests_of only b)
unfolding prune
requests_of-prune true now b = refl
requests_of-prune false now b = refl

requests_of-admit :
    (only background : Bool) (started now : ℕ) (b : ReadBudget)
    → requests_of only (admit background started now b)
      ≡ (if background || not only then requests_of only b ++ now ∷ [] else requests_of only b)
unfolding admit
requests_of-admit true true started now b = refl
requests_of-admit true false started now b = refl
requests_of-admit false true started now b = refl
requests_of-admit false false started now b = refl

requests_of-others :
    (only background : Bool) (after : Option ℕ) (random now : ℕ) (b : ReadBudget)
    → (requests_of only (arrive background b) ≡ requests_of only b)
      × (requests_of only (leave background b) ≡ requests_of only b)
      × (requests_of only (rate_limited after random now b) ≡ requests_of only b)
      × (requests_of only (succeeded b) ≡ requests_of only b)
unfolding arrive leave rate_limited succeeded
requests_of-others true true after random now b = (refl, refl, refl, refl)
requests_of-others true false after random now b = (refl, refl, refl, refl)
requests_of-others false true after random now b = (refl, refl, refl, refl)
requests_of-others false false after random now b = (refl, refl, refl, refl)

-- A verdict of no delay finds room in the deque that the request is counted in.
no_delay-room :
    (only background : Bool) (now : ℕ) (b : ReadBudget)
    → (background || not only) ≡ true
    → delay_of background now (prune now b) ≡ 0
    → length (drop_old now (requests_of only b)) < limit_of only
unfolding delay_of background_delay prune
no_delay-room true true now b counted h =
    until_room-zero now background_limit b.background_requests (omega arith) (omega arith)
no_delay-room true false now b counted h = cc
no_delay-room false background now b counted h =
    until_room-zero now total_limit b.requests (omega arith) (omega arith)

acquire_round-IsBounded :
    (only background waits : Bool) (started t now : ℕ) (b : ReadBudget) (log : List ℕ)
    → t ≤ now
    → IsBounded (limit_of only) t log (requests_of only b)
    → IsBounded
        (limit_of only)
        now
        (log ++ sends only now (asks background waits started) b)
        (requests_of only (acquire_round background waits started now b).1)
unfolding acquire_round
acquire_round-IsBounded only background waits started t now b log h inv =
    let pruned = prune now b in
    let kept = requests_of-prune only now b in
    let dropped = IsBounded-drop_old (limit_of only) t now log (requests_of only b) h inv in
    elim (Bool-cases (delay_of background now pruned == 0)) [
      | inl zero_delay ↦ elim (Bool-cases (background || not only)) [
        | inl counted ↦
            let room = no_delay-room only background now b counted (ground arith) in
            rw zero_delay (
              rw counted (
                rw (requests_of-admit only background started now pruned) (
                  rw counted (
                    rw kept (
                      IsBounded-push (limit_of only) now log (drop_old now (requests_of only b))
                        room dropped)))))
        | inr other ↦ rw zero_delay (
            rw other (
              rw (requests_of-admit only background started now pruned)
                (rw other (rw kept (rw (append-nil log) dropped)))))
      ]
      | inr some_delay ↦ elim (Bool-cases waits) [
        | inl w ↦ rw some_delay (rw w (rw kept (rw (append-nil log) dropped)))
        | inr w ↦ rw some_delay (rw w (rw kept (rw (append-nil log) dropped)))
      ]
    ]

budget_step-IsBounded :
    (only : Bool) (t now : ℕ) (op : BudgetOp) (b : ReadBudget) (log : List ℕ)
    → t ≤ now
    → IsBounded (limit_of only) t log (requests_of only b)
    → IsBounded
        (limit_of only)
        now
        (log ++ sends only now op b)
        (requests_of only (budget_step now op b).1)
unfolding budget_step
budget_step-IsBounded only t now (arrives background) b log h inv =
    let e = (requests_of-others only background none 0 now b).0 in
    IsBounded-same (limit_of only) t now log (requests_of only b) _ h e inv
budget_step-IsBounded only t now (leaves background) b log h inv =
    let e = (requests_of-others only background none 0 now b).1 in
    IsBounded-same (limit_of only) t now log (requests_of only b) _ h e inv
budget_step-IsBounded only t now (asks background waits started) b log h inv =
    acquire_round-IsBounded only background waits started t now b log h inv
budget_step-IsBounded only t now (is_throttled after random) b log h inv =
    let e = (requests_of-others only true after random now b).2 in
    IsBounded-same (limit_of only) t now log (requests_of only b) _ h e inv
budget_step-IsBounded only t now succeeds b log h inv =
    let e = (requests_of-others only true none 0 now b).3 in
    IsBounded-same (limit_of only) t now log (requests_of only b) _ h e inv
budget_step-IsBounded only t now reads_stats b log h inv = rw (append-nil log) (
    rw (requests_of-prune only now b)
      (IsBounded-drop_old (limit_of only) t now log (requests_of only b) h inv))

sent-IsBounded :
    (only : Bool) (t w : ℕ) (ops : List (ℕ × BudgetOp)) (b : ReadBudget) (log : List ℕ)
    → IsOrdered t ops
    → IsBounded (limit_of only) t log (requests_of only b)
    → count_in w (log ++ sent only ops b) ≤ limit_of only
unfolding sent
sent-IsBounded only t w [] b log ordered inv = rw (append-nil log) (inv.bounded w)
sent-IsBounded only t w ((now, op) ∷ ops) b log ordered inv =
    let step = budget_step-IsBounded only t now op b log ordered.0 inv in
    rw (← append_assoc) (
      sent-IsBounded only now w ops (budget_step now op b).1 (log ++ sends only now op b) ordered.1
        step)

new_budget-IsBounded :
    (only : Bool) (start : ℕ)
    → IsBounded (limit_of only) start [] (requests_of only (new_budget start))
unfolding count_in
new_budget-IsBounded true start = record {
  remembers = λ w e. omega arith;
  bounded = λ w. omega arith;
  room = omega arith;
}
new_budget-IsBounded false start = record {
  remembers = λ w e. omega arith;
  bounded = λ w. omega arith;
  room = omega arith;
}

-- However the tasks of an account interleave, and whatever the broker answers, at most ninety requests
-- are sent in any sixty seconds, and at most sixty by the background.
pub sent_bounded :
    (only : Bool) (start w : ℕ) (ops : List (ℕ × BudgetOp))
    → IsOrdered start ops
    → count_in w (sent only ops (new_budget start)) ≤ limit_of only
sent_bounded only start w ops ordered =
    sent-IsBounded only start w ops (new_budget start) [] ordered (new_budget-IsBounded only start)
