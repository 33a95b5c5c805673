-- ===== src/Account/Apart.antt =====
-- How often the account is asked for (relay/account.py).
use discord_option_tailer.Account.{
  AccountOp, AccountValue, Refresh, account_step, load, refresh, refresh_period, refreshes, reloads,
  until_due,
}
use discord_option_tailer.Base.{
  Bool, List, Option, [], arith, false, refl, some, subst, sym, true, ℕ, ◌++◌, ◌+◌, ◌∙◌, ◌∷◌, ◌≡◌,
  ◌≤◌,
}

-- The times of the attempts of a run that nothing forces.
abbrev pub attempt_of : AccountOp → Bool → List ℕ
attempt_of (refreshes r) true = r.attempted_at ∷ []
attempt_of _ _ = []

unfoldable pub attempts_of : Option ℕ → List AccountOp → AccountValue → List ℕ
attempts_of account [] v = []
attempts_of account (op ∷ ops) v =
    let (asked, v') = account_step account op v in attempt_of op asked ++ attempts_of account ops v'

-- No refresh is forced, and the clock does not run backwards.
abbrev pub IsUnforced : ℕ → List AccountOp → Type 0
IsUnforced t [] = Unit
IsUnforced t (reloads ∷ ops) = IsUnforced t ops
IsUnforced t (refreshes r ∷ ops) =
    (r.force ≡ false)
    × (t ≤ r.checked_at)
    × (r.checked_at ≤ r.attempted_at)
    × IsUnforced r.attempted_at ops

-- Each time is ten minutes after the one before, and the first after the given one.
abbrev pub AreApart : ℕ → List ℕ → Type 0
AreApart last [] = Unit
AreApart last (t ∷ ts) = (last + refresh_period ≤ t) × AreApart t ts

refreshed_value :
    (r : Refresh) (v v' : AccountValue)
    → refresh r v ≡ (true, v')
    → (v'.account_id ≡ r.account) × (v'.last_attempt_at ≡ some r.attempted_at)
unfolding refresh
refreshed_value r v v' h = ground arith

refresh_due :
    (r : Refresh) (v v' : AccountValue) (last : ℕ)
    → r.force ≡ false
    → v.last_attempt_at ≡ some last
    → last ≤ r.checked_at
    → r.checked_at ≤ r.attempted_at
    → refresh r v ≡ (true, v')
    → last + refresh_period ≤ r.attempted_at
unfolding refresh until_due
refresh_due r v v' last unforced known ordered later h = ground arith

refresh_early : (r : Refresh) (v v' : AccountValue) → refresh r v ≡ (false, v') → v ≡ v'
unfolding refresh
refresh_early r v v' h = ground arith

after_refresh :
    (k last : ℕ) (r : Refresh) (ops : List AccountOp) (v : AccountValue) (x : Bool × AccountValue)
    → r.force ≡ false
    → r.account ≡ some k
    → v.account_id ≡ some k
    → v.last_attempt_at ≡ some last
    → last ≤ r.checked_at
    → r.checked_at ≤ r.attempted_at
    → ((last' : ℕ) (v' : AccountValue)
        → v'.account_id ≡ some k
        → v'.last_attempt_at ≡ some last'
        → last' ≤ r.attempted_at
        → AreApart last' (attempts_of (some k) ops v'))
    → refresh r v ≡ x
    → AreApart last (attempt_of (refreshes r) x.0 ++ attempts_of (some k) ops x.1)
after_refresh k last r ops v (true, v') free named mine known ordered later again h =
    let (account_kept, attempted) = refreshed_value r v v' h in
    (
      refresh_due r v v' last free known ordered later h,
      again r.attempted_at v' (account_kept ∙ named) attempted (omega arith),
    )
after_refresh k last r ops v (false, v') free named mine known ordered later again h =
    let same_value : v ≡ v' = refresh_early r v v' h in
    subst (λ y. AreApart last (attempts_of (some k) ops y)) same_value
      (again last v mine known (omega (arith, ordered, later)))

-- For an account whose last attempt the cache knows, refreshes that nothing forces ask the broker at
-- most once in ten minutes, whatever it answers and through restarts, so long as the clock does not
-- run backwards.
pub attempts_of-AreApart :
    (k last now : ℕ) (ops : List AccountOp) (v : AccountValue)
    → v.account_id ≡ some k
    → v.last_attempt_at ≡ some last
    → last ≤ now
    → IsUnforced now ops
    → AreApart last (attempts_of (some k) ops v)
unfolding attempts_of account_step load
attempts_of-AreApart k last now [] v mine known ordered unforced = tt
attempts_of-AreApart k last now (reloads ∷ ops) v mine known ordered unforced =
    let kept_value : load (some k) (some v) ≡ v = ground arith in
    subst (λ x. AreApart last (attempts_of (some k) ops x)) (sym kept_value)
      (attempts_of-AreApart k last now ops v mine known ordered unforced)
attempts_of-AreApart k last now (refreshes r ∷ ops) v mine known ordered
      (free, from_now, later, rest) =
    after_refresh k last (record r { account = some k }) ops v _ free refl mine known
      (omega (arith, ordered, from_now)) later
      (λ last' v' mine' known' early.
        attempts_of-AreApart k last' r.attempted_at ops v' mine' known' early rest)
      refl
