-- ===== src/Store/Fills/Accepted.antt =====
-- What an answer that `apply_result` (relay/core.py) takes does to the ledger, and what one that it
-- refuses leaves alone.
use discord_option_tailer.Base.{
  Bool-cases, Except, Except-cases, List, Option-cases, ap, arith, false, inl, inr, none, ok, raise,
  refl, some, subst, sym, ℕ, ◌>>=◌, ◌∙◌, ◌≡◌, ◌⊎◌,
}
use discord_option_tailer.Store.Fills.{
  Applied, BrokerResult, Fill, FillError, acknowledge, apply_result, changes_identity, check_fill,
  commit_fill, finish_apply, moved_positions, reply_of, settle, settle_result,
}
use discord_option_tailer.Store.Orders.{sync_order_event}
use discord_option_tailer.Store.Rows.{Order, Position}
use discord_option_tailer.Store.State.{Store, find_order, update_order}

-- The run of an accepted answer: its row, its broker ID, the fill and the positions after it.
pub record Run (k : ℕ) (r : BrokerResult) (s : Store) : Type 0 where
  pub row : Order
  pub broker : ℕ
  pub fill : Fill
  pub moved : List Position
  pub found : find_order k s ≡ some row
  pub named : r.id ≡ some broker
  pub same_identity : changes_identity row.broker_id broker ≡ false
  pub checked : check_fill row r ≡ ok fill
  pub moved_lem : moved_positions row fill s.positions ≡ ok moved
  pub result :
      (apply_result k r s).store
      ≡ sync_order_event row fill.status fill.count
          (some (reply_of r))
          (record (update_order k (settle fill broker) (acknowledge k row broker s)) {
            positions = moved;
          })

acknowledge-positions :
    (k : ℕ) (o : Order) (b : ℕ) (s : Store) → (acknowledge k o b s).positions ≡ s.positions
unfolding acknowledge
acknowledge-positions k o b s = ground arith

-- A call that raises nothing has run to its end.
pub apply_result-Run :
    (k : ℕ) (r : BrokerResult) (s : Store) → (apply_result k r s).error ≡ none → Run k r s
unfolding apply_result settle_result commit_fill
apply_result-Run k r s h = elim (Option-cases (find_order k s)) [
  | inl missing ↦ absurd (ground arith)
  | inr (o, found) ↦ elim (Option-cases r.id) [
    | inl unnamed ↦ absurd (ground arith)
    | inr (b, named) ↦ elim (Bool-cases (changes_identity o.broker_id b)) [
      | inl other ↦ absurd (ground arith)
      | inr same ↦ elim (Except-cases (check_fill o r)) [
        | inr (e, refused) ↦ absurd (ground arith)
        | inl (f, checked) ↦ elim (Except-cases (moved_positions o f s.positions)) [
          | inr (e, refused) ↦ absurd (ground (arith, acknowledge-positions k o b s))
          | inl (ps, moved) ↦ record {
            row = o;
            broker = b;
            fill = f;
            moved = ps;
            found = found;
            named = named;
            same_identity = same;
            checked = checked;
            moved_lem = moved;
            result = ground (arith, acknowledge-positions k o b s);
          }
        ]
      ]
    ]
  ]
]

-- What a refused answer leaves behind: the store as it was, or the store with the broker ID that
-- the row did not have yet.
abbrev pub Refused : ℕ → BrokerResult → Store → Store → Type 0
Refused k r s t =
    (t ≡ s)
    ⊎ ((o : Order) × (b : ℕ) × (find_order k s ≡ some o)
        × (r.id ≡ some b)
        × (o.broker_id ≡ none)
        × (t ≡ update_order k (λ o'. record o' { broker_id = some b }) s))

acknowledge-Refused :
    (k : ℕ) (r : BrokerResult) (s : Store) (o : Order) (b : ℕ)
    → find_order k s ≡ some o
    → r.id ≡ some b
    → Refused k r s (acknowledge k o b s)
unfolding acknowledge
acknowledge-Refused k r s o b found named = elim (Option-cases o.broker_id) [
  | inl fresh ↦ inr (o, b, found, named, fresh, rw fresh)
  | inr (a, old) ↦ inl (rw old)
]

finish_apply-cases :
    (s : Store) (m : Except FillError Store) {e : FillError}
    → (finish_apply s m).error ≡ some e
    → (finish_apply s m).store ≡ s
finish_apply-cases s (ok t) h = cc
finish_apply-cases s (raise e) h = refl

-- An answer that `apply_result` refuses changes nothing but a broker ID that was still missing: no
-- position, no fill, no status and no event.
pub apply_result-Refused :
    (k : ℕ) (r : BrokerResult) (s : Store) {e : FillError}
    → (apply_result k r s).error ≡ some e
    → Refused k r s (apply_result k r s).store
unfolding apply_result settle_result
apply_result-Refused k r s h = elim (Option-cases (find_order k s)) [
  | inl missing ↦ inl (ground arith)
  | inr (o, found) ↦ elim (Option-cases r.id) [
    | inl unnamed ↦ inl (ground arith)
    | inr (b, named) ↦ elim (Bool-cases (changes_identity o.broker_id b)) [
      | inl other ↦ inl (ground arith)
      | inr same ↦
          let kept = acknowledge k o b s in
          let done = (check_fill o r >>= λ f. commit_fill k o r b f kept) in
          let shown : apply_result k r s ≡ finish_apply kept done = ground arith in
          subst (Refused k r s)
            (sym
              (ap (λ (a : Applied). a.store) shown ∙ finish_apply-cases kept done (rw shown at h)))
            (acknowledge-Refused k r s o b found named)
    ]
  ]
]
