-- ===== src/Recovery/Guard/Replay.antt =====
-- What the guard of a missed exit has seen when it lets the exit through (relay/recovery.py).
use discord_option_tailer.Base.{
  All, All-imp, Bool, Bool-cases, Except-cases, List, [], any, arith, false, guarded, guarded-eq-ok,
  inl, inr, not, ok, raise_if, select, true, ℕ, ◌&&◌, ◌==◌, ◌||◌, ◌∷◌, ◌≡◌, ◌≤◌,
}
use discord_option_tailer.Engine.Guards.{fresh, get_or, kill_switch_present, not_catch_up, origin}
use discord_option_tailer.Recovery.Guard.{
  ExitGuard, GuardWorld, current_entry, exit_context, is_earlier_exit, is_eligible, is_from_later,
  is_same_order, is_stored, owned_guards, positions_of, replays, run_guard, same_positions,
  same_signature, signature, source_guards,
}
use discord_option_tailer.Store.Intake.{find_message}
use discord_option_tailer.Store.Rows.{Decision, Order, is_exit}
use discord_option_tailer.Store.State.{Message, Store}

none_chosen :
    {A : Type 0} (p q : A → Bool) (xs : List A)
    → any p (select q xs) ≡ false
    → All (λ x. q x ≡ true → p x ≡ false) xs
none_chosen p q [] h = tt
none_chosen p q (x ∷ xs) h = elim (Bool-cases (q x)) [
  | inr e ↦ (λ chosen. absurd (ground arith), none_chosen p q xs (rw e at h))
  | inl e ↦
      let two : (p x || any p (select q xs)) ≡ false = rw e at h in
      (λ chosen. ground arith, none_chosen p q xs (ground arith))
]

-- Another order that sells what the same entry bought, for another reason.
pub record IsAnotherExit (w : GuardWorld) (e : ExitGuard) (m : Message) (s : Store) (o : Order)
    : Type 0 where
  pub other_origin : (w.origin_of o == e.origin.id) ≡ false
  pub other_message : (o.message_id == m.id) ≡ false
  pub earlier_message : is_from_later e (find_message o.message_id s) ≡ false

-- What holds of the ledger as it is by then.
pub record IsOpenExit (w : GuardWorld) (e : ExitGuard) (m : Message) (d : Decision) (s : Store)
    : Type 0 where
  pub is_exit_lem : is_exit d.action ≡ true
  pub is_eligible_lem : is_eligible w m ≡ true
  pub kill_switch_off : w.kill_switch ≡ false
  pub same_context :
      same_signature (signature (exit_context w m.source_group m s).0) e.signed ≡ true
  pub whole_context : (exit_context w m.source_group m s).1 ≡ false
  pub newest : get_or m.source_group e.latest_id w.memory.source_latest ≤ e.latest_id
  pub same_revision_stored : is_stored (find_message m.id s) m ≡ true
  pub same_entry : is_same_order e.entry (current_entry w m.source_group e.contract s) ≡ true
  pub same_holdings : same_positions (positions_of m.source_group s) e.owned ≡ true
  pub not_replayed :
      All (λ o. is_earlier_exit w m.source_group e o ≡ true → IsAnotherExit w e m s o) s.orders

another_exit :
    (w : GuardWorld) (e : ExitGuard) (m : Message) (s : Store) (o : Order)
    → replays w e m s o ≡ false
    → IsAnotherExit w e m s o
another_exit w e m s o h = record {
  other_origin = ground arith;
  other_message = ground arith;
  earlier_message = ground arith;
}

-- When the guard of a missed exit lets it through, the decision is an exit of an eligible message that
-- is stored in this revision, no kill switch is there, the source's context is whole and the one that
-- was assessed, no newer message of the source is known, the contract's current entry and the source's
-- positions are those that the guard was made for, and every other exit of the contract since that
-- entry, but the one being submitted, has another origin, another message and a message from before
-- the origin, or one that is not stored.
pub run_guard-IsOpenExit :
    (w : GuardWorld) (e : ExitGuard) (m : Message) (d : Decision) (s : Store) (k : ℕ)
    → run_guard w e m d s ≡ ok k
    → IsOpenExit w e m d s
unfolding run_guard source_guards owned_guards
run_guard-IsOpenExit w e m d s k h =
    let first : raise_if (not (is_exit d.action && is_eligible w m)) not_catch_up ≡ ok tt =
      ground arith in
    let second : raise_if w.kill_switch kill_switch_present ≡ ok tt = ground arith in
    elim (Except-cases (guarded (source_guards w e m s) (ok tt))) [
      | inr (x, refused) ↦ absurd (ground arith)
      | inl (u, sourced) ↦ elim (Except-cases (origin m d w.memory s)) [
        | inr (x, refused) ↦ absurd (ground arith)
        | inl (o, found) ↦
            let owned_ok : guarded (owned_guards w e m s) (ok e.latest_id) ≡ ok k = ground arith in
            let ((whole, (signed, (latest, (stored, rest)))), done_) =
              guarded-eq-ok (source_guards w e m s) (ok tt) sourced in
            let ((entry_same, (positions_same, (fresh, rest'))), done_') =
              guarded-eq-ok (owned_guards w e m s) (ok e.latest_id) owned_ok in
            record {
              is_exit_lem = ground arith;
              is_eligible_lem = ground arith;
              kill_switch_off = ground arith;
              same_context = ground arith;
              whole_context = whole;
              newest = ground arith;
              same_revision_stored = ground arith;
              same_entry = ground arith;
              same_holdings = ground arith;
              not_replayed =
                  All-imp (λ o' free earlier. another_exit w e m s o' (free earlier)) s.orders
                    (none_chosen (replays w e m s) (is_earlier_exit w m.source_group e) s.orders
                      fresh);
            }
      ]
    ]
