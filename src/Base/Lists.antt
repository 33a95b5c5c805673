-- ===== src/Base/Lists.antt =====
-- Lists measured by native numbers, tests over them, and sums of a measure.
use Prim.Native.Nat.{ℕ, suc, ◌+◌}
use mathlib.Core.Bool.{Bool, true, false, ◌&&◌, ◌||◌}
use mathlib.Core.Option.{Option, none, some}
use mathlib.Core.List.{List, [], ◌∷◌, map}
use native.Mathlib.Omega.{arith}
use discord_option_tailer.Base.Tests.{if◌then◌else◌, Bool-cases}
use mathlib.Core.Path.{◌≡◌, refl, subst, ap, ◌∙◌}
use mathlib.Core.Logic.{◌⊎◌, inl, inr}

module _ {ℓ} {A : Type ℓ} where
  abbrev pub length : List A → ℕ
  length [] = 0
  length (x ∷ xs) = suc (length xs)

  -- The first element that passes the test.
  abbrev pub find : (A → Bool) → List A → Option A
  find p [] = none
  find p (x ∷ xs) = if p x then some x else find p xs

  -- `any` and `all` of the language.
  abbrev pub any : (A → Bool) → List A → Bool
  any p [] = false
  any p (x ∷ xs) = p x || any p xs

  abbrev pub all : (A → Bool) → List A → Bool
  all p [] = true
  all p (x ∷ xs) = p x && all p xs

  -- The rows that pass the test, and how many there are.
  abbrev pub select : (A → Bool) → List A → List A
  select p [] = []
  select p (x ∷ xs) = let rest = select p xs in if p x then x ∷ rest else rest

  -- The sum of a measure.
  abbrev pub sum_by : (A → ℕ) → List A → ℕ
  sum_by f [] = 0
  sum_by f (x ∷ xs) = f x + sum_by f xs

  abbrev pub All {κ} : (A → Type κ) → List A → Type κ
  All P [] = Unit
  All P (x ∷ xs) = P x × All P xs

  -- The update of the one row with a primary key.
  abbrev pub update : (A → Bool) → (A → A) → List A → List A
  update p f [] = []
  update p f (x ∷ xs) = if p x then f x ∷ xs else x ∷ update p f xs

  pub All-update {κ} :
      (P : A → Type κ) (p : A → Bool) (f : A → A) (xs : List A)
      → ((x : A) → P x → P (f x))
      → All P xs
      → All P (update p f xs)
  All-update P p f [] keep h = tt
  All-update P p f (x ∷ xs) keep h = ground (arith, keep x h.0, All-update P p f xs keep h.1)

  -- What an update does to the row that it fits, and to the sums over all rows.
  pub find-update :
      (p : A → Bool) (f : A → A) (xs : List A) {a : A}
      → find p xs ≡ some a
      → p (f a) ≡ true
      → find p (update p f xs) ≡ some (f a)
  find-update p f [] h k = cc
  find-update p f (x ∷ xs) {a} h k = elim (Bool-cases (p x)) [
    | inl e ↦ let xa : x ≡ a = ground arith in rw (e, xa) (rw k)
    | inr e ↦ rw e (rw e (find-update p f xs (rw e at h) k))
  ]

  pub update_self :
      (p : A → Bool) (f : A → A) (xs : List A) {a : A}
      → find p xs ≡ some a
      → f a ≡ a
      → update p f xs ≡ xs
  update_self p f [] h k = refl
  update_self p f (x ∷ xs) {a} h k = ground (arith, update_self p f xs {a = a})

  pub sum_by-update :
      (m : A → ℕ) (p : A → Bool) (f : A → A) (xs : List A) {a : A}
      → find p xs ≡ some a
      → sum_by m (update p f xs) + m a ≡ sum_by m xs + m (f a)
  sum_by-update m p f [] h = cc
  sum_by-update m p f (x ∷ xs) {a} h = ground (arith, sum_by-update m p f xs {a = a})

  pub find_holds : (p : A → Bool) (xs : List A) {a : A} → find p xs ≡ some a → p a ≡ true
  find_holds p [] h = cc
  find_holds p (x ∷ xs) {a} h = ground (arith, find_holds p xs {a = a})

  pub All-find {κ} :
      (P : A → Type κ) (p : A → Bool) (xs : List A) {a : A} → All P xs → find p xs ≡ some a → P a
  All-find P p [] h e = cc
  All-find P p (x ∷ xs) {a} h e = elim (Bool-cases (p x)) [
    | inl q ↦ subst P (ground arith) h.0
    | inr q ↦ All-find P p xs {a = a} h.1 (rw q at e)
  ]

  -- An update touches one row only, so what it must keep is asked of that row alone.
  pub All-update_found {κ} :
      (P : A → Type κ) (p : A → Bool) (f : A → A) (xs : List A) {a : A}
      → find p xs ≡ some a
      → P (f a)
      → All P xs
      → All P (update p f xs)
  All-update_found P p f [] e k h = tt
  All-update_found P p f (x ∷ xs) {a} e k h = elim (Bool-cases (p x)) [
    | inl q ↦ let xa : a ≡ x = ground arith in rw q (subst (λ y. P (f y)) xa k, h.1)
    | inr q ↦ rw q (h.0, All-update_found P p f xs {a = a} (rw q at e) k h.1)
  ]

  pub sum_by-update_same :
      (m : A → ℕ) (p : A → Bool) (f : A → A) (xs : List A)
      → ((x : A) → m (f x) ≡ m x)
      → sum_by m (update p f xs) ≡ sum_by m xs
  sum_by-update_same m p f [] h = refl
  sum_by-update_same m p f (x ∷ xs) h = ground (arith, h x, sum_by-update_same m p f xs h)

  -- A second update that finds its own result changes nothing.
  pub update_again :
      (p : A → Bool) (f g : A → A) (xs : List A)
      → ((x : A) → p (f x) ≡ p x)
      → ((x : A) → g (f x) ≡ f x)
      → update p g (update p f xs) ≡ update p f xs
  update_again p f g [] same again = refl
  update_again p f g (x ∷ xs) same again = elim (Bool-cases (p x)) [
    | inl e ↦ rw e (rw (same x ∙ e) (rw (again x)))
    | inr e ↦ rw e (rw e (ap (◌∷◌ x) (update_again p f g xs same again)))
  ]

  pub sum_by-map_same :
      (m : A → ℕ) (f : A → A) (xs : List A)
      → ((x : A) → m (f x) ≡ m x)
      → sum_by m (map f xs) ≡ sum_by m xs
  sum_by-map_same m f [] h = refl
  sum_by-map_same m f (x ∷ xs) h = omega (arith, h x, sum_by-map_same m f xs h)

  pub All-map {κ} :
      (P : A → Type κ) (f : A → A) (xs : List A)
      → ((x : A) → P x → P (f x))
      → All P xs
      → All P (map f xs)
  All-map P f [] keep h = tt
  All-map P f (x ∷ xs) keep h = (keep x h.0, All-map P f xs keep h.1)

  pub List-cases : (xs : List A) → (xs ≡ []) ⊎ ((x : A) × (ys : List A) × (xs ≡ x ∷ ys))
  List-cases [] = inl refl
  List-cases (x ∷ xs) = inr (x, xs, refl)

  pub All-imp {κ κ'} :
      {P : A → Type κ} {Q : A → Type κ'}
      → ((x : A) → P x → Q x)
      → (xs : List A) → All P xs
      → All Q xs
  All-imp f [] h = tt
  All-imp f (x ∷ xs) h = (f x h.0, All-imp f xs h.1)
