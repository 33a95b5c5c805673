-- ===== src/Episodes/Owned.antt =====
-- The owned episodes of `resolve_episode` (relay/episodes.py), against the ledger.
use discord_option_tailer.Base.{
  Bool, Bool-cases, List, Option-cases, [], arith, false, inl, inr, is_some, leb, ltb, none, refl,
  select, some, subst, sym, true, ℕ, ◌||◌, ◌∷◌, ◌≡◌, ◌≤◌,
}
use discord_option_tailer.Episodes.{
  EpisodeResult, EpisodeState, after_owned, is_anchor, is_entry_of, is_latest, is_pending,
  matches_position, newest, of_entry, of_order, of_reference, owned_entry, resolve_episode,
  unclassified_after,
}
use discord_option_tailer.Store.Intake.{find_message}
use discord_option_tailer.Store.Rows.{Contract, Order, Position}
use discord_option_tailer.Store.State.{Message, Store, find_position, latest_entry}

-- The episode's quantity is what a position of the source holds in its contract, its order is the latest
-- entry of that contract, and no order of the contract is pending. A comment that is no reply has no
-- unclassified post between the entry and itself.
pub record IsOwned (manages : Message → Bool) (m : Message) (s : Store) (r : EpisodeResult)
    : Type 0 where
  pub contract : Contract
  pub position : Position
  pub latest : Order
  pub anchor : Message
  pub contract_lem : r.contract ≡ some contract
  pub position_lem : find_position m.source_group contract s.positions ≡ some position
  pub quantity_lem : r.quantity ≡ position.quantity
  pub held : 1 ≤ position.quantity
  pub latest_lem : latest_entry m.source_group contract s ≡ some latest
  pub order_lem : r.entry_order ≡ some latest.id
  pub nothing_pending : is_pending m.source_group contract s ≡ false
  pub anchor_lem : r.entry_message ≡ some anchor
  pub classified_lem : m.reply_to ≡ none → unclassified_after manages anchor m s ≡ none

abbrev is_owned : EpisodeState → Bool
is_owned owned_entry = true
is_owned _ = false

after_owned-same :
    (manages : Message → Bool) (m e : Message) (r : EpisodeResult) (s : Store)
    → is_owned (after_owned manages m e r s).state ≡ true
    → (after_owned manages m e r s ≡ r)
      × (m.reply_to ≡ none → unclassified_after manages e m s ≡ none)
unfolding after_owned
after_owned-same manages m e r s h = elim (Option-cases m.reply_to) [
  | inl no_reply ↦ elim (Option-cases (unclassified_after manages e m s)) [
    | inl nothing ↦ (ground arith, λ _. nothing)
    | inr (x, found) ↦ absurd (ground arith)
  ]
  | inr (k, reply) ↦ (ground arith, λ none_there. absurd (ground arith))
]

select-single : (p : Order → Bool) (xs : List Order) (o : Order) → select p xs ≡ o ∷ [] → p o ≡ true
select-single p [] o h = cc
select-single p (x ∷ xs) o h = elim (Bool-cases (p x)) [
  | inl e ↦ ground arith
  | inr e ↦ select-single p xs o (rw e at h)
]

abbrev owned_result : Message → Order → Position → EpisodeResult
owned_result e o p = record {
  state = owned_entry;
  reason = matches_position;
  entry_message = some e;
  entry_order = some o.id;
  contract = some o.contract;
  quantity = p.quantity;
  average_price = some p.average_price;
  blocking_message = none;
}

of_order-found :
    (manages : Message → Bool) (order_id_of : ℕ → ℕ → ℕ) (m e : Message) (o : Order) (s : Store)
    → is_owned (of_order manages order_id_of m e o s).state ≡ true
    → (p : Position) × (find_position o.source_group o.contract s.positions ≡ some p)
      × (1 ≤ p.quantity)
      × (is_latest o s ≡ true)
      × (is_pending o.source_group o.contract s ≡ false)
      × (of_order manages order_id_of m e o s ≡ after_owned manages m e (owned_result e o p) s)
unfolding of_order
of_order-found manages order_id_of m e o s h =
    elim (Option-cases (find_position o.source_group o.contract s.positions)) [
      | inl nothing ↦ absurd (ground arith)
      | inr (p, found) ↦ elim (Bool-cases (is_latest o s)) [
        | inr old ↦ absurd (ground arith)
        | inl latest ↦ elim (Bool-cases (is_pending o.source_group o.contract s)) [
          | inl busy ↦ absurd (ground arith)
          | inr quiet ↦ (p, found, ground arith, latest, quiet, ground arith)
        ]
      ]
    ]

is_latest-latest :
    (o : Order) (s : Store)
    → is_latest o s ≡ true
    → (l : Order) × (latest_entry o.source_group o.contract s ≡ some l) × (l.id ≡ o.id)
is_latest-latest o s h = elim (Option-cases (latest_entry o.source_group o.contract s)) [
  | inl nothing ↦ absurd (ground arith)
  | inr (l, found) ↦ (l, found, ground arith)
]

of_order-IsOwned :
    (manages : Message → Bool) (order_id_of : ℕ → ℕ → ℕ) (m e : Message) (o : Order) (s : Store)
    → o.source_group ≡ m.source_group
    → is_owned (of_order manages order_id_of m e o s).state ≡ true
    → IsOwned manages m s (of_order manages order_id_of m e o s)
of_order-IsOwned manages order_id_of m e o s group h =
    let (p, found, one, latest, quiet, run) = of_order-found manages order_id_of m e o s h in
    let (l, entry_found, entry_id) = is_latest-latest o s latest in
    let (kept, classified) = after_owned-same manages m e (owned_result e o p) s (rw run at h) in
    rw run (
      rw kept (record {
        contract = o.contract;
        position = p;
        latest = l;
        anchor = e;
        contract_lem = refl;
        position_lem = rw group at found;
        quantity_lem = refl;
        held = one;
        latest_lem = rw group at entry_found;
        order_lem = rw entry_id;
        nothing_pending = rw group at quiet;
        anchor_lem = refl;
        classified_lem = classified;
      }))

data View (xs : List Order) : Type 0 where
  single_row : (o : Order) → xs ≡ o ∷ [] → View xs
  no_row : xs ≡ [] → View xs
  more_rows : (o p : Order) (os : List Order) → xs ≡ o ∷ p ∷ os → View xs

view : (xs : List Order) → View xs
view [] = no_row refl
view (o ∷ []) = single_row o refl
view (o ∷ p ∷ os) = more_rows o p os refl

of_entry-IsOwned :
    (manages : Message → Bool) (order_id_of : ℕ → ℕ → ℕ) (m e : Message) (s : Store)
    → is_owned (of_entry manages order_id_of m e s).state ≡ true
    → IsOwned manages m s (of_entry manages order_id_of m e s)
unfolding of_entry
of_entry-IsOwned manages order_id_of m e s h =
    elim (Bool-cases
      (is_some e.edited_timestamp || (ltb m.timestamp e.timestamp || leb m.id e.id))) [
        | inl late ↦ absurd (ground arith)
        | inr early ↦ elim (view (select (is_entry_of e m.source_group) s.orders)) [
          | no_row none_there ↦ absurd (ground arith)
          | more_rows o p os many ↦ absurd (ground arith)
          | single_row o only ↦
              let fits = select-single (is_entry_of e m.source_group) s.orders o only in
              rw early (
                rw only (
                  of_order-IsOwned manages order_id_of m e o s (ground arith)
                    (rw only at (rw early at h))))
        ]
      ]

of_reference-IsOwned :
    (manages : Message → Bool) (order_id_of : ℕ → ℕ → ℕ) (m reference : Message) (s : Store)
    → is_owned (of_reference manages order_id_of m reference s).state ≡ true
    → IsOwned manages m s (of_reference manages order_id_of m reference s)
unfolding of_reference
of_reference-IsOwned manages order_id_of m reference s h =
    elim (Option-cases (newest (is_anchor m reference s) s.messages)) [
      | inl nothing ↦ absurd (ground arith)
      | inr (e, found) ↦
          let run : of_reference manages order_id_of m reference s
              ≡ of_entry manages order_id_of m e s =
            ground arith in
          subst (IsOwned manages m s) (sym run)
            (of_entry-IsOwned manages order_id_of m e s (ground arith))
    ]

resolve_episode-of_reference :
    (manages : Message → Bool) (order_id_of : ℕ → ℕ → ℕ) (m : Message) (s : Store)
    → is_owned (resolve_episode manages order_id_of m s).state ≡ true
    → (reference : Message) × (resolve_episode manages order_id_of m s
        ≡ of_reference manages order_id_of m reference s)
unfolding resolve_episode
resolve_episode-of_reference manages order_id_of m s h = elim (Option-cases m.reply_to) [
  | inl alone ↦ (m, ground arith)
  | inr (k, reply) ↦ elim (Option-cases (find_message k s)) [
    | inl nothing ↦ absurd (ground arith)
    | inr (reference, found) ↦ (reference, ground arith)
  ]
]

-- When resolve_episode calls an episode owned, its quantity is what a position of the source holds in
-- its contract, one contract at least, its order is the latest entry of that contract that acquired
-- any, and no order of the contract is pending. For a comment that is no reply, no unclassified post
-- of its channel and author stands between the entry and it.
pub resolve_episode-IsOwned :
    (manages : Message → Bool) (order_id_of : ℕ → ℕ → ℕ) (m : Message) (s : Store)
    → (resolve_episode manages order_id_of m s).state ≡ owned_entry
    → IsOwned manages m s (resolve_episode manages order_id_of m s)
resolve_episode-IsOwned manages order_id_of m s h =
    let (reference, run) = resolve_episode-of_reference manages order_id_of m s (ground arith) in
    subst (IsOwned manages m s) (sym run)
      (of_reference-IsOwned manages order_id_of m reference s (ground arith))
