-- ===== src/Handling/Apart.antt =====
-- Messages that `handle` never trades on (relay/core.py).
use discord_option_tailer.Base.{
  Bool, Bool-cases, Option, arith, false, inl, inr, is_some, none, not, refl, some, true, ℕ, ◌&&◌,
  ◌∙◌, ◌≡◌,
}
use discord_option_tailer.Engine.Episode.{is_idle}
use discord_option_tailer.Engine.Guards.{Channel, channel_allows_author}
use discord_option_tailer.Execution.{Digests}
use discord_option_tailer.Handling.{
  HandleWorld, act_on, for_channel, handle, handle_observed, handle_trusted, idle_state, is_context,
  observed_now,
}
use discord_option_tailer.Handling.Writes.{
  SameTrades, handle_trusted_write, observed_now_write, record_outcome-SameTrades,
}
use discord_option_tailer.Store.Intake.{Observation, edited_revision, new_message, same_revision}
use discord_option_tailer.Store.Rows.{Decision, detail}
use discord_option_tailer.Store.State.{Message, Store}

abbrev pub is_new : Observation → Bool
is_new new_message = true
is_new _ = false

-- Only a listed author in a listed channel, with a new, unedited message that came as a live event in
-- a channel for signals.
unfoldable pub may_trade_in : HandleWorld → Channel → Message → Observation → Bool
may_trade_in w c m o =
    channel_allows_author c m.author_id
    && (w.is_valid && (is_new o && (not (is_some m.edited_timestamp) && (w.live && c.for_signals))))

SameTrades-refl : (s : Store) → SameTrades s s
SameTrades-refl s = (refl, refl, refl)

SameTrades-trans : (s t u : Store) → SameTrades s t → SameTrades t u → SameTrades s u
SameTrades-trans s t u (os, ps, rs) (os', ps', rs') = (os' ∙ os, ps' ∙ ps, rs' ∙ rs)

module _ (manages : Message → Bool) (order_id_of : ℕ → ℕ → ℕ) (h : Digests)
    (around : ℕ → Store → Store) (others : ℕ → Store → Store) where
  -- The observation is that of the message under its channel's source.
  unfoldable pub may_trade_for : HandleWorld → Message → Store → Option Channel → Bool
  may_trade_for w m s none = false
  may_trade_for w m s (some c) =
      let m' = record m { source_group = c.source_group } in
      may_trade_in w c m' (observed_now manages order_id_of h around others w m' s).0

  unfoldable pub may_trade : HandleWorld → Message → Store → Bool
  may_trade w m s = may_trade_for w m s (w.channel_of m.channel_id)

module _ (manages : Message → Bool) (order_id_of : ℕ → ℕ → ℕ) (h : Digests)
    (around : ℕ → Store → Store) (others : ℕ → Store → Store)
    (outside : (n : ℕ) (s : Store) → SameTrades s (around n s))
    (inside : (n : ℕ) (s : Store) → SameTrades s (others n s)) where
  history_acts :
      (w : HandleWorld) (m : Message) (history : Bool) (d : Decision) (s : Store)
      → history ≡ true
      → SameTrades s (act_on manages order_id_of h around others w m history d s).1
  unfolding act_on
  history_acts w m history d s past = elim (Bool-cases (is_idle d.action)) [
    | inl e ↦ rw e (
        record_outcome-SameTrades m (idle_state w history d.action) (detail w.text) (some d) w.words
          s)
    | inr e ↦ rw e (rw past (refl, refl, refl))
  ]

  history-SameTrades :
      (w : HandleWorld) (c : Channel) (m : Message) (s : Store)
      → is_context w c m (observed_now manages order_id_of h around others w m s).0 ≡ true
      → SameTrades s (handle_trusted manages order_id_of h around others w c m s).1
  history-SameTrades w c m s past =
      handle_trusted_write SameTrades SameTrades-refl SameTrades-trans (λ _ _ p. p) manages
        order_id_of h around others outside inside (λ history. history ≡ true) history_acts w c m s
        past

  trusted-SameTrades :
      (w : HandleWorld) (c : Channel) (m : Message) (s : Store) (o : Observation)
      → (observed_now manages order_id_of h around others w m s).0 ≡ o
      → channel_allows_author c m.author_id ≡ true
      → may_trade_in w c m o ≡ false
      → SameTrades s (handle_trusted manages order_id_of h around others w c m s).1
  unfolding may_trade_in is_context handle_trusted handle_observed observed_now
  trusted-SameTrades w c m s edited_revision seen listed apart =
      history-SameTrades w c m s (rw seen refl)
  trusted-SameTrades w c m s new_message seen listed apart = elim (Bool-cases w.is_valid) [
    | inl e ↦ history-SameTrades w c m s (rw seen (ground arith))
    | inr e ↦ rw e (refl, refl, refl)
  ]
  trusted-SameTrades w c m s same_revision seen listed apart = elim (Bool-cases w.is_valid) [
    | inr e ↦ rw e (refl, refl, refl)
    | inl e ↦ rw e (
        rw seen (
          observed_now_write SameTrades SameTrades-refl SameTrades-trans (λ _ _ p. p) manages
            order_id_of h around others outside inside (λ history. history ≡ true) history_acts w m
            s))
  ]

  channel-SameTrades :
      (w : HandleWorld) (m : Message) (s : Store) (x : Option Channel)
      → may_trade_for manages order_id_of h around others w m s x ≡ false
      → SameTrades s (for_channel manages order_id_of h around others w m x s).1
  unfolding for_channel may_trade_for
  channel-SameTrades w m s none apart = (refl, refl, refl)
  channel-SameTrades w m s (some c) apart =
      elim (Bool-cases (channel_allows_author c m.author_id)) [
        | inl e ↦
            rw e
              (trusted-SameTrades w c (record m { source_group = c.source_group }) s _ refl e apart)
        | inr e ↦ rw e (refl, refl, refl)
      ]

  -- A message from a channel or an author that is not listed, one that cannot be read, a duplicate, a
  -- revision or an edited message, one that did not come as a live event, and one from a channel for
  -- context only change no order, no position and no stop request, even where history is analysed, so
  -- long as other tasks change none meanwhile.
  pub handle-SameTrades :
      (w : HandleWorld) (m : Message) (s : Store)
      → may_trade manages order_id_of h around others w m s ≡ false
      → let t = (handle manages order_id_of h around others w m s).1 in
        (t.orders ≡ s.orders) × (t.positions ≡ s.positions) × (t.stop_requests ≡ s.stop_requests)
  unfolding handle may_trade
  handle-SameTrades w m s apart = channel-SameTrades w m s (w.channel_of m.channel_id) apart
