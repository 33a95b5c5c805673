-- ===== src/Engine/Guards/Latest.antt =====
-- `Engine._unchanged` (relay/core.py) against the stored and the seen messages of a source.
use discord_option_tailer.Base.{
  All, List, Option, [], arith, false, guarded-eq-ok, ok, ℕ, ◌∷◌, ◌≡◌, ◌≤◌,
}
use discord_option_tailer.Engine.Guards.{
  Claim, Memory, OrderColumns, PositionColumns, claim_guards, get_or, latest_known, latest_stored,
  message_guards, stored_revision, unchanged,
}
use discord_option_tailer.Store.State.{Message, Store}

latest_stored-bound :
    (g n : ℕ) (ms : List Message)
    → latest_stored g ms ≤ n
    → All (λ m. m.source_group ≡ g → m.id ≤ n) ms
unfolding latest_stored
latest_stored-bound g n [] h = tt
latest_stored-bound g n (m ∷ ms) h = (λ e. ground arith, latest_stored-bound g n ms (ground arith))

-- What an unchanged message is: its stored and seen revisions are its own, and its source has no newer
-- message, neither stored nor seen. An unstored or unseen message counts as unrevised.
pub record IsCurrent (m : Message) (mem : Memory) (s : Store) : Type 0 where
  pub revision_stored : stored_revision m.id m.revision s ≡ m.revision
  pub revision_seen : get_or m.id m.revision mem.observations ≡ m.revision
  pub latest_seen : get_or m.source_group 0 mem.source_latest ≤ m.id
  pub latest_in_store : All (λ x. x.source_group ≡ m.source_group → x.id ≤ m.id) s.messages

message_guards-IsCurrent :
    (m : Message) (mem : Memory) (s : Store)
    → All (λ g. g.0 ≡ false) (message_guards m mem s)
    → IsCurrent m mem s
unfolding message_guards latest_known
message_guards-IsCurrent m mem s (e1, (e2, (e3, _))) = record {
  revision_stored = ground arith;
  revision_seen = ground arith;
  latest_seen = ground arith;
  latest_in_store = latest_stored-bound m.source_group m.id s.messages (ground arith);
}

-- When _unchanged passes, with or without a claim, the stored and the seen revision of the message are
-- its own, and no stored or seen message of its source is newer.
pub unchanged-IsCurrent :
    (digest : List PositionColumns × List OrderColumns → ℕ) (claim : Option Claim) (m : Message)
    (mem : Memory) (s : Store)
    → unchanged digest claim m mem s ≡ ok tt
    → IsCurrent m mem s
unfolding unchanged
unchanged-IsCurrent digest claim m mem s h =
    let (_, inner) = guarded-eq-ok (claim_guards digest claim m s) _ h in
    message_guards-IsCurrent m mem s (guarded-eq-ok (message_guards m mem s) (ok tt) inner).0
