-- ===== src/Store/Claims/Once.antt =====
-- The claims of one revision over a run of the evaluation operations (relay/core.py).
use discord_option_tailer.Base.{
  Bool, List, Option, [], arith, false, find, if◌then◌else◌, map, none, some, update, ℕ, ◌&&◌, ◌+◌,
  ◌==◌, ◌∷◌, ◌≡◌, ◌≤◌,
}
use discord_option_tailer.Store.Claims.{
  ClaimOp, begin_evaluation, begins, claim_evaluation, claim_step, claims, finish_evaluation,
  finishes, is_attempt_of, is_evaluating, restarts,
}
use discord_option_tailer.Store.Orders.{interrupt, restart}
use discord_option_tailer.Store.State.{Attempt, AttemptState, Store, accepted, finished}

-- Whether the operation is a claim of the revision `r` of the message `k`.
abbrev claims_of : ℕ → ℕ → ClaimOp → Bool
claims_of k r (claims j q attempt) = j == k && q == r
claims_of k r _ = false

-- What a revision can still be claimed: once before its attempt is accepted, and not afterwards.
abbrev left_of : Option Attempt → ℕ
left_of none = 1
left_of (some a) = if is_evaluating a.state then 1 else 0

abbrev claims_left : ℕ → ℕ → Store → ℕ
claims_left k r s = left_of (find (is_attempt_of k r) s.attempts)

-- The successful claims of one revision over a run.
unfoldable pub claims_won : ℕ → ℕ → List ClaimOp → Store → ℕ
claims_won k r [] s = 0
claims_won k r (op ∷ ops) s =
    let (won, t) = claim_step op s in
    (if claims_of k r op && won then 1 else 0) + claims_won k r ops t

find-interrupt :
    (k r : ℕ) (xs : List Attempt)
    → left_of (find (is_attempt_of k r) (map interrupt xs)) ≤ left_of (find (is_attempt_of k r) xs)
find-interrupt k r [] = omega arith
find-interrupt k r (a ∷ xs) = ground (arith, find-interrupt k r xs)

-- An update of the attempt of one revision, as another revision sees it.
find-update_attempt :
    (k r j q : ℕ) (st : AttemptState) (xs : List Attempt)
    → find (is_attempt_of k r) (update (is_attempt_of j q) (λ b. record b { state = st }) xs) ≡ (
        if j == k && q == r
        then (elim (find (is_attempt_of k r) xs) [
          | none ↦ none
          | some a ↦ some (record a { state = st })
        ])
        else find (is_attempt_of k r) xs)
find-update_attempt k r j q st [] = ground arith
find-update_attempt k r j q st (a ∷ xs) = ground (arith, find-update_attempt k r j q st xs)

claim_step-left :
    (k r : ℕ) (op : ClaimOp) (s : Store)
    → (if claims_of k r op && (claim_step op s).0 then 1 else 0)
        + claims_left k r (claim_step op s).1
      ≤ claims_left k r s
unfolding claim_step begin_evaluation claim_evaluation finish_evaluation restart
claim_step-left k r (begins m attempt digest) s = ground arith
claim_step-left k r (claims j q attempt) s =
    ground (arith, find-update_attempt k r j q accepted s.attempts)
claim_step-left k r (finishes j q attempt) s =
    ground (arith, find-update_attempt k r j q finished s.attempts)
claim_step-left k r restarts s = ground (arith, find-interrupt k r s.attempts)

claims_won-le-left :
    (k r : ℕ) (ops : List ClaimOp) (s : Store) → claims_won k r ops s ≤ claims_left k r s
unfolding claims_won
claims_won-le-left k r [] s = omega arith
claims_won-le-left k r (op ∷ ops) s =
    omega (arith, claim_step-left k r op s, claims_won-le-left k r ops (claim_step op s).1)

-- However evaluations begin, race, finish and are interrupted by restarts, one revision of one message
-- is claimed for execution at most once.
pub claims_won-le-one : (k r : ℕ) (ops : List ClaimOp) (s : Store) → claims_won k r ops s ≤ 1
claims_won-le-one k r ops s = ground (arith, claims_won-le-left k r ops s)
