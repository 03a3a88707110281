-- ===== src/Prelude/Table/Found.antt =====
-- What a lookup finds after a change of the table.
use Prim.Native.String.{String}
use mathlib.Core.Path.{◌≡◌, refl, sym}
use mathlib.Core.Logic.{◌≢◌, inl, inr}
use mathlib.Core.Bool.{Bool, true, false, ◌&&◌}
use mathlib.Core.Option.{none, some}
use mathlib.Core.List.{List, [], ◌∷◌}
use native.Mathlib.Omega.{arith}
use schooner.Prelude.Tests.{Bool-cases, ◌==◌, string_eq, ==-refl, eq_of_==}
use schooner.Prelude.Lists.{All, Mem}
use schooner.Prelude.Table.{find, exists, delete, update}
use schooner.Prelude.Table.Unique.{Distinct}

module _ {A : Type 0} where
  pub exists-update :
      (p q : A → Bool) (f : A → A) (xs : List A)
      → ((x : A) → p (f x) ≡ p x)
      → exists p (update q f xs) ≡ exists p xs
  unfolding exists update
  exists-update p q f [] keep = refl
  exists-update p q f (x ∷ xs) keep = ground (arith, keep x, exists-update p q f xs keep)

  pub exists-delete :
      (p q : A → Bool) (xs : List A)
      → exists (λ x. q x && p x) xs ≡ false
      → exists p xs ≡ true
      → exists p (delete q xs) ≡ true
  unfolding exists delete
  exists-delete p q [] none_both h = h
  exists-delete p q (x ∷ xs) none_both h = ground (arith, exists-delete p q xs)

  pub None-delete : (q : A → Bool) (xs : List A) → All (λ x. q x ≡ false) (delete q xs)
  unfolding delete
  None-delete q [] = tt
  None-delete q (x ∷ xs) = elim (Bool-cases (q x)) [
    | inl e ↦ rw e (None-delete q xs)
    | inr e ↦ rw e (e, None-delete q xs)
  ]

  pub All-both :
      (P Q R : A → Type 0) (xs : List A)
      → ((x : A) → P x → Q x → R x)
      → All P xs
      → All Q xs
      → All R xs
  All-both P Q R [] f hp hq = tt
  All-both P Q R (x ∷ xs) f hp hq = (f x hp.0 hq.0, All-both P Q R xs f hp.1 hq.1)

  pub absent_find : (p : A → Bool) (xs : List A) → find p xs ≡ none → exists p xs ≡ false
  unfolding find exists
  absent_find p [] h = refl
  absent_find p (x ∷ xs) h = ground (arith, absent_find p xs)

  pub find-replace :
      (p : A → Bool) (row : A) (xs : List A)
      → p row ≡ true
      → exists p xs ≡ true
      → find p (update p (λ _. row) xs) ≡ some row
  unfolding find exists update
  find-replace p row [] pr h = ground arith
  find-replace p row (x ∷ xs) pr h = ground (arith, find-replace p row xs)

  -- Deleting other rows keeps what is found.
  pub find-delete_other :
      (p q : A → Bool) (xs : List A)
      → ((x : A) → p x ≡ true → q x ≡ false)
      → find p (delete q xs) ≡ find p xs
  unfolding find delete
  find-delete_other p q [] h = refl
  find-delete_other p q (x ∷ xs) h = ground (arith, h x, find-delete_other p q xs h)

  pub find-delete_all :
      (p q : A → Bool) (xs : List A)
      → ((x : A) → p x ≡ true → q x ≡ true)
      → find p (delete q xs) ≡ none
  unfolding find delete
  find-delete_all p q [] h = refl
  find-delete_all p q (x ∷ xs) h = ground (arith, h x, find-delete_all p q xs h)

  pub exists-found :
      (p q : A → Bool) (xs : List A) {x : A}
      → find p xs ≡ some x
      → q x ≡ true
      → exists (λ y. p y && q y) xs ≡ true
  unfolding find exists
  exists-found p q [] h passes = absurd (ground arith)
  exists-found p q (y ∷ xs) {x} h passes = elim (Bool-cases (p y)) [
    | inl e ↦ let same : y ≡ x = ground arith in rw (e, same, passes) refl
    | inr e ↦ rw e (exists-found p q xs (ground arith) passes)
  ]

  -- An update, with what is known of the rows that it changes and of the others.
  pub All-update_cases :
      (P Q : A → Type 0) (p : A → Bool) (f : A → A) (xs : List A)
      → ((x : A) → p x ≡ true → P x → Q (f x))
      → ((x : A) → p x ≡ false → P x → Q x)
      → All P xs
      → All Q (update p f xs)
  unfolding update
  All-update_cases P Q p f [] hit miss h = tt
  All-update_cases P Q p f (x ∷ xs) hit miss h = elim (Bool-cases (p x)) [
    | inl e ↦ rw e (hit x e h.0, All-update_cases P Q p f xs hit miss h.1)
    | inr e ↦ rw e (miss x e h.0, All-update_cases P Q p f xs hit miss h.1)
  ]

  pub found_exists :
      (p : A → Bool) (xs : List A) → exists p xs ≡ true → (x : A) × (find p xs ≡ some x)
  unfolding find exists
  found_exists p [] h = absurd (ground arith)
  found_exists p (x ∷ xs) h = elim (Bool-cases (p x)) [
    | inl e ↦ (x, ground arith)
    | inr e ↦ let (y, found) = found_exists p xs (ground arith) in (y, ground arith)
  ]

-- Where keys are distinct, a row is what its key finds.
module _ {A : Type 0} (key : A → String) where
  abbrev pub Found : List A → A → Type 0
  Found xs x = find (λ y. key y == key x) xs ≡ some x

  pub Distinct-finds : (xs : List A) → Distinct key xs → All (Found xs) xs
  unfolding find
  Distinct-finds [] h = tt
  Distinct-finds (x ∷ xs) h = (
    rw (==-refl (key x)) refl,
    All-both (λ y. key y ≢ key x) (Found xs) (Found (x ∷ xs)) xs
        (λ y ne found. elim (Bool-cases (key x == key y)) [
          | inl e ↦ absurd (ne (sym (eq_of_== e)))
          | inr e ↦ rw e found
        ])
        h.0 (Distinct-finds xs h.1),
  )

module _ {A : Type 0} where
  pub exists-passing :
      (p q : A → Bool) (xs : List A) {x : A} → find p xs ≡ some x → q x ≡ true → exists q xs ≡ true
  unfolding find exists
  exists-passing p q [] h passes = absurd (ground arith)
  exists-passing p q (y ∷ xs) {x} h passes = elim (Bool-cases (p y)) [
    | inl e ↦ let same : y ≡ x = ground arith in rw (same, passes) refl
    | inr e ↦ ground (arith, exists-passing p q xs {x = x})
  ]

  -- An update that keeps the test, of the row that is found.
  pub find-update :
      (p q : A → Bool) (f : A → A) (xs : List A) {x : A}
      → ((y : A) → p (f y) ≡ p y)
      → find p xs ≡ some x
      → q x ≡ true
      → find p (update q f xs) ≡ some (f x)
  unfolding find update
  find-update p q f [] keep h passes = absurd (ground arith)
  find-update p q f (y ∷ xs) {x} keep h passes = elim (Bool-cases (p y)) [
    | inl e ↦ let same : y ≡ x = ground arith in ground (arith, keep x)
    | inr e ↦ ground (arith, keep y, find-update p q f xs {x = x} keep)
  ]

  pub Mem-exists :
      (p : A → Bool) (xs : List A) → exists p xs ≡ true → (x : A) × Mem x xs × (p x ≡ true)
  unfolding exists
  Mem-exists p [] h = absurd (ground arith)
  Mem-exists p (x ∷ xs) h = elim (Bool-cases (p x)) [
    | inl e ↦ (x, inl refl, e)
    | inr e ↦ let (y, within, passes) = Mem-exists p xs (ground arith) in (y, inr within, passes)
  ]

  pub find-Mem : (p : A → Bool) (xs : List A) {x : A} → find p xs ≡ some x → Mem x xs
  unfolding find
  find-Mem p [] h = absurd (ground arith)
  find-Mem p (y ∷ xs) {x} h = elim (Bool-cases (p y)) [
    | inl e ↦ let same : y ≡ x = ground arith in inl (sym same)
    | inr e ↦ inr (find-Mem p xs (ground arith))
  ]

  pub Mem-update :
      (q : A → Bool) (f : A → A) (x : A) (xs : List A)
      → Mem x xs
      → q x ≡ true
      → Mem (f x) (update q f xs)
  unfolding update
  Mem-update q f x [] m passes = absurd m
  Mem-update q f x (y ∷ xs) (inl same) passes = rw (← same, passes) (inl refl)
  Mem-update q f x (y ∷ xs) (inr later) passes = inr (Mem-update q f x xs later passes)
