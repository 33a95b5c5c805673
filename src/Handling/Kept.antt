-- ===== src/Handling/Kept.antt =====
-- The ledger through `handle` (relay/core.py).
use discord_option_tailer.Base.{Bool, Bool-cases, Option, inl, inr, none, some, true, ℕ, ◌≡◌}
use discord_option_tailer.Engine.Episode.{is_idle}
use discord_option_tailer.Engine.Guards.{Channel, channel_allows_author}
use discord_option_tailer.Execution.{Digests}
use discord_option_tailer.Execution.Kept.{AreQuiet, execute_decision-Moves}
use discord_option_tailer.Handling.{
  HandleWorld, act_on, execute_any, for_channel, handle, handle_trusted, idle_state,
}
use discord_option_tailer.Handling.Writes.{
  SameTrades, handle_trusted_write, record_outcome-SameTrades,
}
use discord_option_tailer.Stops.Kept.{if-Moves}
use discord_option_tailer.Stops.Moves.{Moves, Reach-trans}
use discord_option_tailer.Stops.Update.Kept.{update_protection-Moves}
use discord_option_tailer.Store.Fills.Balance.{IsBalanced}
use discord_option_tailer.Store.Lifecycle.{Reach, here, next, noted}
use discord_option_tailer.Store.Lifecycle.Accounts.{Reach-IsBalanced}
use discord_option_tailer.Store.Lifecycle.Endings.{Reach-KeepsEndings}
use discord_option_tailer.Store.Lifecycle.Key.{HaveKeys, Reach-HaveKeys}
use discord_option_tailer.Store.Lifecycle.Soundness.{AreSound, Reach-AreSound}
use discord_option_tailer.Store.Rows.{Decision, Order, detail, is_terminal, is_update_stop}
use discord_option_tailer.Store.State.{Message, Store, find_order}

SameTrades-Reach : (s t : Store) → SameTrades s t → Reach s t
SameTrades-Reach s t same = next here (noted same.0 same.1)

module _ (manages : Message → Bool) (order_id_of : ℕ → ℕ → ℕ) (h : Digests)
    (around : ℕ → Store → Store) (others : ℕ → Store → Store)
    (outside : (n : ℕ) (s : Store) → Reach s (around n s)) (quiet : AreQuiet others) where
  execute_any-Moves :
      (w : HandleWorld) (m : Message) (d : Decision)
      → Moves (execute_any manages order_id_of h around others w m d)
  unfolding execute_any
  execute_any-Moves w m d =
      if-Moves (is_update_stop d.action) _ _
        (update_protection-Moves h.stop_order h.inventory_digest (others 9)
          (λ s. next here (noted (quiet 9 s).0 (quiet 9 s).1)) w.change m d)
        (execute_decision-Moves h others quiet w.execution m d)

  act_on-Reach :
      (w : HandleWorld) (m : Message) (history : Bool) (d : Decision) (s : Store)
      → Reach s (act_on manages order_id_of h around others w m history d s).1
  unfolding act_on
  act_on-Reach w m history d s = elim (Bool-cases (is_idle d.action)) [
    | inl e ↦ rw e (
        SameTrades-Reach s _ (
          record_outcome-SameTrades m (idle_state w history d.action) (detail w.text) (some d)
            w.words s))
    | inr e ↦ elim (Bool-cases history) [
      | inl past ↦ rw e (rw past here)
      | inr now ↦ rw e (rw now (execute_any-Moves w m d s))
    ]
  ]

  handle_trusted-Reach :
      (w : HandleWorld) (c : Channel) (m : Message) (s : Store)
      → Reach s (handle_trusted manages order_id_of h around others w c m s).1
  handle_trusted-Reach w c m s =
      handle_trusted_write Reach (λ _. here) (λ _ _ _ p q. Reach-trans p q) SameTrades-Reach manages
        order_id_of h around others outside (λ n t. next here (noted (quiet n t).0 (quiet n t).1))
        (λ _. Unit) (λ w' m' history d t _. act_on-Reach w' m' history d t) w c m s tt

  found_channel-Reach :
      (w : HandleWorld) (m : Message) (s : Store) (x : Option Channel)
      → Reach s (for_channel manages order_id_of h around others w m x s).1
  unfolding for_channel
  found_channel-Reach w m s none = here
  found_channel-Reach w m s (some c) = elim (Bool-cases (channel_allows_author c m.author_id)) [
    | inl e ↦ rw e (handle_trusted-Reach w c (record m { source_group = c.source_group }) s)
    | inr e ↦ rw e here
  ]

  handle-Reach :
      (w : HandleWorld) (m : Message) (s : Store)
      → Reach s (handle manages order_id_of h around others w m s).1
  unfolding handle
  handle-Reach w m s = found_channel-Reach w m s (w.channel_of m.channel_id)

  -- However a message is handled, whether it is held, fails, is canceled or trades, a ledger stays
  -- balanced and sound with distinct order IDs, and every order that had ended keeps its status and
  -- its filled quantity, provided that other tasks make only the ledger's own writes, and none to
  -- orders or positions while this one has the engine's lock.
  pub handle-IsKept :
      (w : HandleWorld) (m : Message) (s : Store)
      → HaveKeys s.orders
      → IsBalanced s
      → AreSound s
      → let t = (handle manages order_id_of h around others w m s).1 in
        HaveKeys t.orders
        × IsBalanced t
        × AreSound t
        × ((k : ℕ) (o : Order)
            → find_order k s ≡ some o
            → is_terminal o.status ≡ true
            → (o' : Order) × (find_order k t ≡ some o')
              × (o'.status ≡ o.status)
              × (o'.filled_quantity ≡ o.filled_quantity))
  handle-IsKept w m s keys balanced sound =
      let moved = handle-Reach w m s in
      (
        Reach-HaveKeys keys moved,
        Reach-IsBalanced balanced moved,
        Reach-AreSound sound moved,
        λ k o found over. Reach-KeepsEndings moved k o found over,
      )
