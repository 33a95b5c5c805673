-- ===== src/Recovery/Kept.antt =====
-- The ledger through a round of reconciliation (relay/recovery.py).
use discord_option_tailer.Base.{
  All, All-imp, Bool, Bool-cases, List, [], inl, inr, length, ok, refl, reverse_aux, select, some,
  suc, true, zero, ℕ, ◌+◌, ◌∷◌, ◌≡◌,
}
use discord_option_tailer.Recovery.{next_delay}
use discord_option_tailer.Recovery.Moves.{
  HasTrade, HasTrade-later, after_writes, reconcile_row-Reach,
}
use discord_option_tailer.Recovery.Round.{
  RoundWorld, Schedule, first_rows, is_open, is_skipped, largest, maintain_stops, numbered,
  open_orders, reconcile_due, reconcile_orders_once, reconcile_row, reconcile_rows, round_rows,
}
use discord_option_tailer.Stops.{Act, ◌▷◌}
use discord_option_tailer.Stops.Maintain.{maintain-Moves}
use discord_option_tailer.Stops.Moves.{Moves}
use discord_option_tailer.Store.Fills.Balance.{IsBalanced}
use discord_option_tailer.Store.Lifecycle.{Reach, here}
use discord_option_tailer.Store.Lifecycle.Accounts.{Reach-IsBalanced}
use discord_option_tailer.Store.Lifecycle.Endings.{Reach-KeepsEndings}
use discord_option_tailer.Store.Lifecycle.Key.{HaveKeys, HaveKeys-found, Reach-HaveKeys}
use discord_option_tailer.Store.Lifecycle.Soundness.{AreSound, Reach-AreSound}
use discord_option_tailer.Store.Lifecycle.Trades.{Reach-KeepsTrades}
use discord_option_tailer.Store.Rows.{Order, is_terminal}
use discord_option_tailer.Store.State.{Store, find_order}

reconcile_rows-Reach :
    (w : RoundWorld) (rows : List (ℕ × Order)) (s : Store)
    → All (λ row. HasTrade row.1 s) rows
    → Reach s (reconcile_rows w rows s).1
unfolding reconcile_rows
reconcile_rows-Reach w [] s has = here
reconcile_rows-Reach w ((n, o) ∷ rows) s (first, rest) =
    let later : Unit {0} → Act (Unit {0}) = λ _. reconcile_rows w rows in
    after_writes later s (reconcile_row w o s) (reconcile_row-Reach w o s first) (λ _ t moved.
      reconcile_rows-Reach w rows t (All-imp (λ row has. HasTrade-later row.1 moved has) rows rest))

-- The rows of a round are orders of the ledger.
All-numbered :
    (P : Order → Type 0) (os : List Order) → All P os → All (λ row. P row.1) (numbered os)
unfolding numbered
All-numbered P [] h = tt
All-numbered P (o ∷ os) h = (h.0, All-numbered P os h.1)

All-select :
    {A : Type 0} (P : A → Type 0) (p : A → Bool) (xs : List A) → All P xs → All P (select p xs)
All-select P p [] h = tt
All-select P p (x ∷ xs) h = elim (Bool-cases (p x)) [
  | inl e ↦ rw e (h.0, All-select P p xs h.1)
  | inr e ↦ rw e (All-select P p xs h.1)
]

pub All-reverse_aux :
    {A : Type 0} (P : A → Type 0) (xs ys : List A) → All P xs → All P ys → All P (reverse_aux xs ys)
All-reverse_aux P [] ys h q = q
All-reverse_aux P (x ∷ xs) ys h q = All-reverse_aux P xs (x ∷ ys) h.1 (h.0, q)

pub All-first_rows :
    {A : Type 0} (P : A → Type 0) (n : ℕ) (xs : List A) → All P xs → All P (first_rows n xs)
unfolding first_rows
All-first_rows P zero xs h = tt
All-first_rows P (suc n) [] h = tt
All-first_rows P (suc n) (x ∷ xs) h = (h.0, All-first_rows P n xs h.1)

round_rows-HasTrade : (s : Store) → HaveKeys s.orders → All (λ row. HasTrade row.1 s) (round_rows s)
unfolding round_rows
round_rows-HasTrade s keys =
    let has : Order → Type 0 = λ o. HasTrade o s in
    let row_has : ℕ × Order → Type 0 = λ row. HasTrade row.1 s in
    let found : All has s.orders =
      All-imp (λ o at_key. (o, at_key, refl, refl)) s.orders (HaveKeys-found s.orders keys) in
    All-first_rows row_has 100 _ (
      All-reverse_aux row_has _ [] (All-select row_has is_open _ (All-numbered has s.orders found))
        tt)

module _ (order_digest : ℕ → ℕ → ℕ → ℕ) where
  maintain_stops-Moves : (w : RoundWorld) → Moves (maintain_stops order_digest w)
  unfolding maintain_stops
  maintain_stops-Moves w s = elim (Bool-cases w.observe_only) [
    | inl e ↦ rw e here
    | inr e ↦ rw e (maintain-Moves order_digest w.stops s)
  ]

  reconcile_due-Reach :
      (w : RoundWorld) (c : Schedule) (s : Store)
      → HaveKeys s.orders
      → Reach s (reconcile_due order_digest w c s).1
  unfolding reconcile_due
  reconcile_due-Reach w c s keys =
      let rows = round_rows s in
      let guard_stops : Unit {0} → Act (Unit {0}) = λ _. maintain_stops order_digest w in
      after_writes
        (λ _ t. (
          ok (
            length rows,
            record {
              next_at = w.ended_at + next_delay w.later (open_orders t);
              seen = largest c.seen rows;
            },
          ),
          t,
        ))
        s ((reconcile_rows w rows ▷ guard_stops) s)
        (after_writes guard_stops s (reconcile_rows w rows s)
          (reconcile_rows-Reach w rows s (round_rows-HasTrade s keys))
          (λ _ t _. maintain_stops-Moves w t))
        (λ _ t _. here)

  reconcile_orders_once-Reach :
      (w : RoundWorld) (c : Schedule) (s : Store)
      → HaveKeys s.orders
      → Reach s (reconcile_orders_once order_digest w c s).1
  unfolding reconcile_orders_once
  reconcile_orders_once-Reach w c s keys = elim (Bool-cases (is_skipped w c s)) [
    | inl e ↦ rw e here
    | inr e ↦ rw e (reconcile_due-Reach w c s keys)
  ]

  -- A round of reconciliation, whatever the broker answers to each order and to each stop, keeps a
  -- ledger balanced and sound and its order IDs distinct, and it keeps the side, the quantity and,
  -- where the order had ended, the status and the filled quantity of every order.
  pub reconcile_orders_once-IsKept :
      (w : RoundWorld) (c : Schedule) (s : Store)
      → HaveKeys s.orders
      → IsBalanced s
      → AreSound s
      → let t = (reconcile_orders_once order_digest w c s).1 in
        HaveKeys t.orders
        × IsBalanced t
        × AreSound t
        × ((k : ℕ) (o : Order)
            → find_order k s ≡ some o
            → (o' : Order) × (find_order k t ≡ some o')
              × (o'.body.side ≡ o.body.side)
              × (o'.body.quantity ≡ o.body.quantity))
        × ((k : ℕ) (o : Order)
            → find_order k s ≡ some o
            → is_terminal o.status ≡ true
            → (o' : Order) × (find_order k t ≡ some o')
              × (o'.status ≡ o.status)
              × (o'.filled_quantity ≡ o.filled_quantity))
  reconcile_orders_once-IsKept w c s keys balanced sound =
      let moved = reconcile_orders_once-Reach w c s keys in
      (
        Reach-HaveKeys keys moved,
        Reach-IsBalanced balanced moved,
        Reach-AreSound sound moved,
        λ k o found. Reach-KeepsTrades moved k o found,
        λ k o found over. Reach-KeepsEndings moved k o found over,
      )
