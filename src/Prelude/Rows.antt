-- ===== src/Prelude/Rows.antt =====
-- Rows of a table that are found and changed by a text key, and predicates that hold of all rows.
use Prim.Native.String.{String}
use mathlib.Core.Path.{◌≡◌, refl, sym, ◌∙◌}
use mathlib.Core.Logic.{inl, inr}
use mathlib.Core.Bool.{Bool, true, false}
use mathlib.Core.Option.{some}
use mathlib.Core.List.{List, [], ◌∷◌, ◌++◌}
use native.Mathlib.Omega.{arith}
use text.Mathlib.Text.{◌==◌ as str_eq}
use text.Mathlib.TextEquality.{eq_iff}
use rgp.Prelude.Tests.{Bool-cases}
use rgp.Prelude.Lists.{All, first, update}

module _ {A : Type 0} (key : A → String) where
  -- the row of a key, after the rows of a key are changed
  pub first-update-same :
      (id j : String) (f : A → A) (xs : List A) (x : A)
      → ((y : A) → key (f y) ≡ key y)
      → first (λ y. str_eq (key y) id) xs ≡ some x
      → j ≡ id
      → first (λ y. str_eq (key y) id) (update (λ y. str_eq (key y) j) f xs) ≡ some (f x)
  first-update-same id j f [] x keeps h p = cc h
  first-update-same id j f (y ∷ ys) x keeps h p =
      ground (arith, keeps y, p, first-update-same id j f ys x keeps)

  pub first-update-other :
      (id j : String) (f : A → A) (xs : List A)
      → ((y : A) → key (f y) ≡ key y)
      → str_eq j id ≡ false
      → first (λ y. str_eq (key y) id) (update (λ y. str_eq (key y) j) f xs)
        ≡ first (λ y. str_eq (key y) id) xs
  first-update-other id j f [] keeps h = refl
  first-update-other id j f (y ∷ ys) keeps h = ground (
    arith,
    keeps y,
    eq_iff (key y) j,
    eq_iff (key y) id,
    eq_iff j id,
    first-update-other id j f ys keeps h,
  )

module _ {A : Type 0} where
  pub first-append-found :
      (p : A → Bool) (xs ys : List A) (x : A) → first p xs ≡ some x → first p (xs ++ ys) ≡ some x
  first-append-found p [] ys x h = cc h
  first-append-found p (y ∷ xs) ys x h = ground (arith, first-append-found p xs ys x)

module _ {A : Type 0} where
  pub All-weaken : (P Q : A → Type 0) (xs : List A) → ((x : A) → P x → Q x) → All P xs → All Q xs
  All-weaken P Q [] k h = tt
  All-weaken P Q (x ∷ xs) k h = (k x h.0, All-weaken P Q xs k h.1)

  pub All-append : (P : A → Type 0) (xs ys : List A) → All P xs → All P ys → All P (xs ++ ys)
  All-append P [] ys h k = k
  All-append P (x ∷ xs) ys h k = (h.0, All-append P xs ys h.1 k)

  pub All-update :
      (P : A → Type 0) (p : A → Bool) (f : A → A) (xs : List A)
      → ((x : A) → p x ≡ true → P x → P (f x))
      → All P xs
      → All P (update p f xs)
  All-update P p f [] k h = tt
  All-update P p f (x ∷ xs) k h = elim (Bool-cases (p x)) [
    | inl e ↦ rw e (k x e h.0, All-update P p f xs k h.1)
    | inr e ↦ rw e (h.0, All-update P p f xs k h.1)
  ]

module _ {A : Type 0} (p : A → Bool) (y : A) (ys : List A) where
  first-head : p y ≡ true → first p (y ∷ ys) ≡ some y
  first-head e = rw e refl

  first-tail : p y ≡ false → first p (y ∷ ys) ≡ first p ys
  first-tail e = rw e refl

some-injective : {A : Type 0} (x y : A) → some x ≡ some y → x ≡ y
some-injective x y h = cc h

pub All-first :
    {A : Type 0} (P : A → Type 0) (p : A → Bool) (xs : List A) (x : A)
    → All P xs
    → first p xs ≡ some x
    → P x
All-first P p [] x h k = cc k
All-first P p (y ∷ ys) x h k = elim (Bool-cases (p y)) [
  | inl e ↦ rw (sym (some-injective y x (sym (first-head p y ys e) ∙ k))) h.0
  | inr e ↦ All-first P p ys x h.1 (sym (first-tail p y ys e) ∙ k)
]
