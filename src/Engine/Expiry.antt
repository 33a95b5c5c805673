-- ===== src/Engine/Expiry.antt =====
-- `resolve_expiry` of relay/core.py: the expiry that an entry gets by default. The watches and the
-- broker's answer are arguments; the diagnostics are left out.
use discord_option_tailer.Base.{
  ==_iff, Bool, Except, Except-cases, Option, arith, false, if◌then◌else◌, inl, inr, ltb, none, not,
  ok, raise_if, some, true, ℕ, ◌==◌, ◌>>=◌, ◌>>◌, ◌||◌, ◌≡◌, ◌≤◌,
}
use discord_option_tailer.Base.Decimal.{Decimal}
use discord_option_tailer.Engine.Dispatch.{chase_limit}
use discord_option_tailer.Engine.Guards.{
  Hold, Memory, expiry_changed, expiry_not_entry, expiry_of_older, origin, paid,
}
use discord_option_tailer.Sizing.{Risk}
use discord_option_tailer.Stops.{StopError, engine_hold}
use discord_option_tailer.Stops.Arm.{engine_check}
use discord_option_tailer.Store.Rows.{Contract, Decision, is_entry, same_contract}
use discord_option_tailer.Store.State.{Message, Store}

-- What `resolve_expiry` reads: `defaults` says that the contract's expiry is "nearest", `day_of` is the
-- date in New York, `watched` the match of a watch, `prepared` whether the broker has it prepared below
-- the ceiling, and `nearest` the broker's nearest_expiry.
pub record ExpiryWorld : Type 0 where
  pub defaults : Bool
  pub day_of : ℕ → ℕ
  pub now : ℕ
  pub watched : Option Contract
  pub prepared : Contract → Decimal → Bool
  pub nearest : Contract → Except StopError Contract

unfoldable pub warmed_contract : ExpiryWorld → Risk → Decision → Except Hold (Option Contract)
warmed_contract w risk d = elim w.watched [
  | none ↦ ok none
  | some c ↦ do
    alert ← paid d.alert_price
    ok (if w.prepared c (chase_limit risk alert) then some c else none)
]

unfoldable pub resolved_contract :
    ExpiryWorld → Contract → Option Contract → Except StopError Contract
resolved_contract w requested none = w.nearest requested
resolved_contract w requested (some c) = ok c

-- The broker may name a later expiry, and nothing else.
unfoldable pub changes_option : Contract → Contract → Bool
changes_option requested resolved =
    not (same_contract (record resolved { expiry = requested.expiry }) requested)
    || ltb resolved.expiry requested.expiry

unfoldable pub resolve_nearest :
    ExpiryWorld → Risk → Memory → Message → Decision → Contract → Store → Except StopError Decision
resolve_nearest w risk mem m d c s = do
  raise_if (not (is_entry d.action)) (engine_hold expiry_not_entry)
  o ← engine_check (origin m d mem s)
  raise_if (not (w.day_of o.timestamp == w.day_of w.now)) (engine_hold expiry_of_older)
  let requested = record c { expiry = w.day_of o.timestamp }
  warmed ← engine_check (warmed_contract w risk d)
  resolved ← resolved_contract w requested warmed
  raise_if (changes_option requested resolved) (engine_hold expiry_changed)
  ok (record d { contract = some resolved })

-- `resolve_expiry`: a decision without a contract, or with an expiry of its own, stays as it is.
unfoldable pub resolve_expiry :
    ExpiryWorld → Risk → Memory → Message → Decision → Store → Except StopError Decision
resolve_expiry w risk mem m d s = elim d.contract [
  | none ↦ ok d
  | some c ↦ if w.defaults then resolve_nearest w risk mem m d c s else ok d
]

-- The contract that an entry trades instead of the one without an expiry.
pub record IsResolved (w : ExpiryWorld) (d : Decision) (c : Contract) (d' : Decision) : Type 0 where
  pub is_entry_lem : is_entry d.action ≡ true
  pub resolved : Contract
  pub decides : d' ≡ record d { contract = some resolved }
  pub same_terms :
      same_contract
        (record resolved { expiry = w.day_of w.now })
        (record c { expiry = w.day_of w.now })
      ≡ true
  pub not_past : w.day_of w.now ≤ resolved.expiry

resolved_same :
    (requested resolved : Contract)
    → changes_option requested resolved ≡ false
    → (same_contract (record resolved { expiry = requested.expiry }) requested ≡ true)
      × (requested.expiry ≤ resolved.expiry)
unfolding changes_option
resolved_same requested resolved h = (ground arith, ground arith)

-- Where an entry's expiry is "nearest" and resolve_expiry returns, the decision is the entry with
-- another contract: the same option but for its expiry, which is today in New York or later.
pub resolve_expiry-IsResolved :
    (w : ExpiryWorld) (risk : Risk) (mem : Memory) (m : Message) (d d' : Decision) (c : Contract)
    (s : Store)
    → w.defaults ≡ true
    → d.contract ≡ some c
    → resolve_expiry w risk mem m d s ≡ ok d'
    → IsResolved w d c d'
unfolding resolve_expiry resolve_nearest
resolve_expiry-IsResolved w risk mem m d d' c s default_expiry named h =
    let run : resolve_nearest w risk mem m d c s ≡ ok d' = ground arith in
    elim (Except-cases (origin m d mem s)) [
      | inr (e, refused) ↦ absurd (ground arith)
      | inl (o, found) ↦ elim (Except-cases (warmed_contract w risk d)) [
        | inr (e, refused) ↦ absurd (ground arith)
        | inl (warmed, known) ↦
            let requested : Contract = record c { expiry = w.day_of o.timestamp } in
            elim (Except-cases (resolved_contract w requested warmed)) [
              | inr (e, refused) ↦ absurd (ground arith)
              | inl (resolved, listed) ↦
                  let today : w.day_of o.timestamp ≡ w.day_of w.now =
                    ground (arith, ==_iff (w.day_of o.timestamp) (w.day_of w.now)) in
                  let kept : changes_option requested resolved ≡ false = ground arith in
                  let (same, later) = resolved_same requested resolved kept in
                  record {
                    is_entry_lem = ground arith;
                    resolved = resolved;
                    decides = ground arith;
                    same_terms = rw today at same;
                    not_past = rw today at later;
                  }
            ]
      ]
    ]
