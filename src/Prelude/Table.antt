-- ===== src/Prelude/Table.antt =====
-- A table of a database as the list of its rows, with what the statements of the inventory do to
-- one: SELECT, DELETE, UPDATE and INSERT with a unique key.
pub mod Unique
pub mod Found
pub mod Keyed
use Prim.Native.String.{String}
use mathlib.Core.Path.{◌≡◌, refl, sym, subst}
use mathlib.Core.Logic.{◌≢◌, inl, inr}
use mathlib.Core.Bool.{Bool, true, false, ◌&&◌, ◌||◌}
use mathlib.Core.Option.{Option, none, some}
use mathlib.Core.List.{List, [], ◌∷◌, ◌++◌}
use native.Mathlib.Omega.{arith}
use schooner.Prelude.Tests.{if◌then◌else◌, Bool-cases, ◌==◌, string_eq, ==-refl, eq_of_==}
use schooner.Prelude.Lists.{All, All-append}

module _ {A : Type 0} where
  unfoldable pub find : (A → Bool) → List A → Option A
  find p [] = none
  find p (x ∷ xs) = if p x then some x else find p xs

  unfoldable pub exists : (A → Bool) → List A → Bool
  exists p [] = false
  exists p (x ∷ xs) = p x || exists p xs

  unfoldable pub delete : (A → Bool) → List A → List A
  delete p [] = []
  delete p (x ∷ xs) = let rest = delete p xs in if p x then rest else x ∷ rest

  unfoldable pub update : (A → Bool) → (A → A) → List A → List A
  update p f [] = []
  update p f (x ∷ xs) = (if p x then f x else x) ∷ update p f xs

  -- What is found is in the table and passes the test.
  pub find_passes : (p : A → Bool) (xs : List A) {x : A} → find p xs ≡ some x → p x ≡ true
  unfolding find
  find_passes p [] h = absurd (ground arith)
  find_passes p (y ∷ xs) {x} h = ground (arith, find_passes p xs {x = x})

  pub All-find :
      (P : A → Type 0) (p : A → Bool) (xs : List A) {x : A} → All P xs → find p xs ≡ some x → P x
  unfolding find
  All-find P p [] all h = absurd (ground arith)
  All-find P p (y ∷ xs) {x} all h = elim (Bool-cases (p y)) [
    | inl e ↦ let same : y ≡ x = ground arith in subst P same all.0
    | inr e ↦ All-find P p xs all.1 (ground arith)
  ]

  pub find-delete : (p : A → Bool) (xs : List A) → find p (delete p xs) ≡ none
  unfolding find delete
  find-delete p [] = refl
  find-delete p (x ∷ xs) = ground (arith, find-delete p xs)

  pub exists-find : (p : A → Bool) (xs : List A) {x : A} → find p xs ≡ some x → exists p xs ≡ true
  unfolding find exists
  exists-find p [] h = ground arith
  exists-find p (y ∷ xs) {x} h = ground (arith, exists-find p xs {x = x})

  pub find_absent : (p : A → Bool) (xs : List A) → exists p xs ≡ false → find p xs ≡ none
  unfolding find exists
  find_absent p [] h = refl
  find_absent p (x ∷ xs) h = ground (arith, find_absent p xs)

  -- A new row at the end is found by the tests that no old row passes.
  pub find-append :
      (p : A → Bool) (xs : List A) (x : A)
      → exists p xs ≡ false
      → p x ≡ true
      → find p (xs ++ x ∷ []) ≡ some x
  unfolding find exists
  find-append p [] x h px = rw px
  find-append p (y ∷ xs) x h px = ground (arith, find-append p xs x)

  pub exists-append :
      (p : A → Bool) (xs : List A) (x : A) → exists p (xs ++ x ∷ []) ≡ exists p xs || p x
  unfolding exists
  exists-append p [] x = ground arith
  exists-append p (y ∷ xs) x = ground (arith, exists-append p xs x)

  pub All-delete : (P : A → Type 0) (p : A → Bool) (xs : List A) → All P xs → All P (delete p xs)
  unfolding delete
  All-delete P p [] h = tt
  All-delete P p (x ∷ xs) h = elim (Bool-cases (p x)) [
    | inl e ↦ rw e (All-delete P p xs h.1)
    | inr e ↦ rw e (h.0, All-delete P p xs h.1)
  ]

  pub All-update :
      (P : A → Type 0) (p : A → Bool) (f : A → A) (xs : List A)
      → ((x : A) → p x ≡ true → P x → P (f x))
      → All P xs
      → All P (update p f xs)
  unfolding update
  All-update P p f [] keep h = tt
  All-update P p f (x ∷ xs) keep h = elim (Bool-cases (p x)) [
    | inl e ↦ rw e (keep x e h.0, All-update P p f xs keep h.1)
    | inr e ↦ rw e (h.0, All-update P p f xs keep h.1)
  ]

  pub All-imp : (P Q : A → Type 0) (xs : List A) → ((x : A) → P x → Q x) → All P xs → All Q xs
  All-imp P Q [] f h = tt
  All-imp P Q (x ∷ xs) f h = (f x h.0, All-imp P Q xs f h.1)
