-- ===== src/Engine/Backed.antt =====
-- What `guard_position_episode` (relay/core.py) lets through, against the positions of the ledger.
use discord_option_tailer.Base.{
  Bool, Bool-cases, Option, arith, false, inl, inr, is_some, none, not, refl, some, sym, true, ℕ,
  ◌&&◌, ◌||◌, ◌≡◌, ◌≤◌, ◌⊎◌,
}
use discord_option_tailer.Engine.Episode.{
  agrees, guard_position_episode, is_admitted, is_idle, is_owned_state,
}
use discord_option_tailer.Episodes.{EpisodeState, owned_entry, resolve_episode}
use discord_option_tailer.Episodes.Owned.{resolve_episode-IsOwned}
use discord_option_tailer.Store.Rows.{
  Action, Contract, Decision, Position, is_exit, is_update_stop, same_contract,
}
use discord_option_tailer.Store.State.{Message, Store, find_position}

-- A position of the message's source that is the decision's contract.
pub record IsBacked (m : Message) (d : Decision) (s : Store) : Type 0 where
  pub named : Contract
  pub held : Contract
  pub position : Position
  pub named_lem : d.contract ≡ some named
  pub same : same_contract named held ≡ true
  pub position_lem : find_position m.source_group held s.positions ≡ some position
  pub at_least_one : 1 ≤ position.quantity

agrees-parts :
    (a b : Option Contract)
    → agrees a b ≡ true
    → (x : Contract) × (y : Contract) × (a ≡ some x) × (b ≡ some y) × (same_contract x y ≡ true)
unfolding agrees
agrees-parts (some x) (some y) h = (x, y, refl, refl, h)
agrees-parts (some x) none h = absurd (ground arith)
agrees-parts none b h = absurd (ground arith)

manages-not_idle : (a : Action) → (is_exit a || is_update_stop a) ≡ true → is_idle a ≡ false
manages-not_idle a h = grind arith

is_owned_state-eq : (e : EpisodeState) → is_owned_state e ≡ true → e ≡ owned_entry
is_owned_state-eq e h = grind arith

-- The rules' decision to sell or to move a stop, on a text that names no option and that follows an entry
-- or replies to a message, is withheld unless the episode is owned and its contract is the decision's.
-- When it is not withheld it stays as it is, and a position of the source holds its contract.
pub guard_position_episode-IsBacked :
    (manages : Message → Bool) (order_id_of : ℕ → ℕ → ℕ) (m : Message) (d : Decision) (s : Store)
    → let ep = resolve_episode manages order_id_of m s in
      let d' = guard_position_episode false m d ep in
      (is_exit d.action || is_update_stop d.action) ≡ true
      → d.by_rules ≡ true
      → (is_some ep.entry_message || is_some m.reply_to) ≡ true
      → (is_idle d'.action ≡ not (is_owned_state ep.state && agrees d.contract ep.contract))
        × ((is_idle d'.action ≡ true) ⊎ ((d' ≡ d) × IsBacked m d s))
unfolding guard_position_episode is_admitted
guard_position_episode-IsBacked manages order_id_of m d s acts by_rules follows =
    let ep = resolve_episode manages order_id_of m s in
    let busy = manages-not_idle d.action acts in
    elim (Bool-cases (is_owned_state ep.state && agrees d.contract ep.contract)) [
      | inr e ↦ (ground arith, inl (ground arith))
      | inl e ↦
          let owned =
            resolve_episode-IsOwned manages order_id_of m s
              (is_owned_state-eq ep.state (ground arith)) in
          let (x, y, named, found, same) = agrees-parts d.contract ep.contract (ground arith) in
          let y_held : y ≡ owned.contract = grind (arith, found, owned.contract_lem) in
          let backed : IsBacked m d s = record {
            named = x;
            held = owned.contract;
            position = owned.position;
            named_lem = named;
            same = rw (sym y_held) same;
            position_lem = owned.position_lem;
            at_least_one = owned.held;
          } in
          (ground arith, inr (ground arith, backed))
    ]
