-- ===== src/Base/Raising.antt =====
-- A call that returns, or that raises one of the component's errors.
use mathlib.Core.Path.{◌≡◌, refl}
use mathlib.Core.Logic.{◌⊎◌, inl, inr}
use mathlib.Core.Bool.{Bool, true, false}
use mathlib.Core.Option.{Option, none, some}
use native.Mathlib.Omega.{arith}
use mathlib.Core.List.{List, [], ◌∷◌}
use discord_option_tailer.Base.Lists.{All}

pub data Except (E A : Type 0) : Type 0 where
  ok : A → Except E A
  raise : E → Except E A

infixl 5 ◌>>=◌ ◌>>◌
abbrev pub ◌>>=◌ : {E A B : Type 0} → Except E A → (A → Except E B) → Except E B
ok a >>= f = f a
raise e >>= f = raise e

abbrev pub ◌>>◌ : {E B : Type 0} → Except E (Unit {0}) → Except E B → Except E B
m >> k = m >>= λ _. k

-- `if c: raise e`
abbrev pub raise_if : {E : Type 0} → Bool → E → Except E (Unit {0})
raise_if true e = raise e
raise_if false e = ok tt

-- The value of an optional field, or the error that its absence raises.
abbrev pub need : {E A : Type 0} → Option A → E → Except E A
need none e = raise e
need (some a) e = ok a

-- A row of tests, each of which raises its error: the first that holds is raised.
abbrev pub guarded : {E A : Type 0} → List (Bool × E) → Except E A → Except E A
guarded [] k = k
guarded ((c, e) ∷ gs) k = raise_if c e >> guarded gs k

pub guarded-eq-ok :
    {E A : Type 0} (gs : List (Bool × E)) (k : Except E A) {a : A}
    → guarded gs k ≡ ok a
    → All (λ g. g.0 ≡ false) gs × (k ≡ ok a)
guarded-eq-ok [] k h = (tt, h)
guarded-eq-ok ((true, e) ∷ gs) k h = cc
guarded-eq-ok ((false, e) ∷ gs) k h =
    let (rest, done) = guarded-eq-ok gs k h in ((refl, rest), done)

pub guarded_passes :
    {E A : Type 0} (gs : List (Bool × E)) (k : Except E A)
    → All (λ g. g.0 ≡ false) gs
    → guarded gs k ≡ k
guarded_passes [] k h = refl
guarded_passes ((true, e) ∷ gs) k h = cc
guarded_passes ((false, e) ∷ gs) k h = guarded_passes gs k h.1

pub Except-cases :
    {E A : Type 0} (m : Except E A) → ((a : A) × (m ≡ ok a)) ⊎ ((e : E) × (m ≡ raise e))
Except-cases (ok a) = inl (a, refl)
Except-cases (raise e) = inr (e, refl)

-- What every value that the rest can end with satisfies, the whole call's value does.
pub bind_ok :
    {E A B : Type 0} {P : Type 0} (m : Except E A) (f : A → Except E B) {b : B}
    → (m >>= f) ≡ ok b
    → ((a : A) → m ≡ ok a → f a ≡ ok b → P)
    → P
bind_ok (ok a) f h k = k a refl h
bind_ok (raise e) f h k = absurd (ground arith)

-- The same with the value and its two equations as a tuple.
pub >>=-eq-ok :
    {E A B : Type 0} (call : Except E A) (rest : A → Except E B) {b : B}
    → (call >>= rest) ≡ ok b
    → (a : A) × (call ≡ ok a) × (rest a ≡ ok b)
>>=-eq-ok call rest returned = bind_ok call rest returned λ a first second. (a, first, second)
