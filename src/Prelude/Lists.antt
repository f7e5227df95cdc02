-- ===== src/Prelude/Lists.antt =====
-- Lists measured by native numbers, and searched by Boolean tests.
use Prim.Native.Nat.{ℕ, suc, ◌+◌}
use Prim.Native.String.{String}
use mathlib.Core.Path.{◌≡◌, refl}
use mathlib.Core.Bool.{Bool, true, false, ◌||◌, ◌&&◌}
use mathlib.Core.Option.{Option, none, some}
use mathlib.Core.List.{List, [], ◌∷◌, ◌++◌}
use native.Mathlib.Omega.{arith}
use text.Mathlib.Text.{◌==◌ as str_eq}
use rgp.Prelude.Tests.{if◌then◌else◌}

module _ {ℓ} {A : Type ℓ} where
  abbrev pub length : List A → ℕ
  length [] = 0
  length (x ∷ xs) = suc (length xs)

  pub length-append : (xs ys : List A) → length (xs ++ ys) ≡ length xs + length ys
  length-append [] ys = omega arith
  length-append (x ∷ xs) ys = omega (arith, length-append xs ys)

  -- any(...) and all(...) of a comprehension
  abbrev pub any : (A → Bool) → List A → Bool
  any p [] = false
  any p (x ∷ xs) = p x || any p xs

  abbrev pub all : (A → Bool) → List A → Bool
  all p [] = true
  all p (x ∷ xs) = p x && all p xs

  -- the rows of a query, and its first row
  abbrev pub select : (A → Bool) → List A → List A
  select p [] = []
  select p (x ∷ xs) = let rest = select p xs in if p x then x ∷ rest else rest

  abbrev pub first : (A → Bool) → List A → Option A
  first p [] = none
  first p (x ∷ xs) = let rest = first p xs in if p x then some x else rest

  -- the first row that no later row beats
  abbrev pub best : (A → A → Bool) → List A → Option A
  best beats [] = none
  best beats (x ∷ xs) = elim (best beats xs) [
    | none ↦ some x
    | some y ↦ some (if beats y x then y else x)
  ]

  -- sorted, rows that tie in the given order
  abbrev pub insert_sorted : (A → A → Bool) → A → List A → List A
  insert_sorted lt x [] = x ∷ []
  insert_sorted lt x (y ∷ ys) =
      let rest = insert_sorted lt x ys in if lt y x then y ∷ rest else x ∷ y ∷ ys

  abbrev pub sort_by : (A → A → Bool) → List A → List A
  sort_by lt [] = []
  sort_by lt (x ∷ xs) = insert_sorted lt x (sort_by lt xs)

  -- sum(1 for x in xs if p(x))
  abbrev pub count_if : (A → Bool) → List A → ℕ
  count_if p [] = 0
  count_if p (x ∷ xs) = let rest = count_if p xs in if p x then suc rest else rest

  abbrev pub get_last? : List A → Option A
  get_last? [] = none
  get_last? (x ∷ []) = some x
  get_last? (x ∷ y ∷ ys) = get_last? (y ∷ ys)

  -- xs[-1] = f(xs[-1])
  abbrev pub update_last : (A → A) → List A → List A
  update_last f [] = []
  update_last f (x ∷ []) = f x ∷ []
  update_last f (x ∷ y ∷ ys) = x ∷ update_last f (y ∷ ys)

  -- every row that the test selects is replaced
  abbrev pub update : (A → Bool) → (A → A) → List A → List A
  update p f [] = []
  update p f (x ∷ xs) = (if p x then f x else x) ∷ update p f xs

module _ {ℓ} {A : Type ℓ} where
  -- the row that a query finds passes its test
  pub first-holds : (p : A → Bool) (xs : List A) (x : A) → first p xs ≡ some x → p x ≡ true
  first-holds p [] x h = cc h
  first-holds p (y ∷ ys) x h = ground (arith, first-holds p ys x)

  pub length-select-append :
      (p : A → Bool) (xs ys : List A)
      → length (select p (xs ++ ys)) ≡ length (select p xs) + length (select p ys)
  length-select-append p [] ys = omega arith
  length-select-append p (x ∷ xs) ys = ground (arith, length-select-append p xs ys)

  -- as many rows pass the test after an update that does not change it
  pub length-select-update :
      (p q : A → Bool) (f : A → A) (xs : List A)
      → ((x : A) → p (f x) ≡ p x)
      → length (select p (update q f xs)) ≡ length (select p xs)
  length-select-update p q f [] h = refl
  length-select-update p q f (x ∷ xs) h = ground (arith, h x, length-select-update p q f xs h)

-- `key in names`
abbrev pub contains : String → List String → Bool
contains k xs = any (str_eq k) xs

-- A predicate that holds of every member.
abbrev pub All {ℓ κ} : {A : Type ℓ} → (A → Type κ) → List A → Type κ
All P [] = Unit
All P (x ∷ xs) = P x × All P xs

-- the members of a set, each once
abbrev pub distinct : List String → List String
distinct [] = []
distinct (x ∷ xs) = let rest = distinct xs in if contains x rest then rest else x ∷ rest
