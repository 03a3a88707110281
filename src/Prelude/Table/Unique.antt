-- ===== src/Prelude/Table/Unique.antt =====
-- Tables with a unique key, and tables of which at most one row passes a test.
use Prim.Native.String.{String}
use mathlib.Core.Path.{◌≡◌, refl}
use mathlib.Core.Logic.{◌≢◌, inl, inr}
use mathlib.Core.Bool.{Bool, true, false}
use mathlib.Core.List.{List, [], ◌∷◌, ◌++◌}
use native.Mathlib.Omega.{arith}
use schooner.Prelude.Tests.{Bool-cases, ◌==◌, string_eq, eq_of_==}
use schooner.Prelude.Lists.{All, All-append}
use schooner.Prelude.Table.{exists, delete, update, All-delete, All-update}

-- No two rows have the same key.
module _ {A : Type 0} (key : A → String) where
  abbrev pub Distinct : List A → Type 0
  Distinct [] = Unit
  Distinct (x ∷ xs) = All (λ y. key y ≢ key x) xs × Distinct xs

  abbrev has_key : String → A → Bool
  has_key k x = key x == k

  pub Distinct-delete : (p : A → Bool) (xs : List A) → Distinct xs → Distinct (delete p xs)
  unfolding delete
  Distinct-delete p [] h = tt
  Distinct-delete p (x ∷ xs) h = elim (Bool-cases (p x)) [
    | inl e ↦ rw e (Distinct-delete p xs h.1)
    | inr e ↦ rw e (All-delete (λ y. key y ≢ key x) p xs h.0, Distinct-delete p xs h.1)
  ]

  pub Distinct-update :
      (p : A → Bool) (f : A → A) (xs : List A)
      → ((x : A) → p x ≡ true → key (f x) ≡ key x)
      → Distinct xs
      → Distinct (update p f xs)
  unfolding update
  Distinct-update p f [] keep h = tt
  Distinct-update p f (x ∷ xs) keep h =
      let others = λ (k : String) (e : k ≡ key x).
        All-update (λ y. key y ≢ k) p f xs (λ y t ne. rw (keep y t) ne) (rw e h.0) in
      let rest = Distinct-update p f xs keep h.1 in
      elim (Bool-cases (p x)) [
        | inl e ↦ rw e (others (key (f x)) (keep x e), rest)
        | inr e ↦ rw e (others (key x) refl, rest)
      ]

  absent-ne : (k : String) (xs : List A) → exists (has_key k) xs ≡ false → All (λ y. key y ≢ k) xs
  unfolding exists
  absent-ne k [] h = tt
  absent-ne k (x ∷ xs) h =
      (ground (arith, string_eq.test_iff (key x) k), absent-ne k xs (ground arith))

  -- An insert that the unique key does not refuse keeps the keys distinct.
  pub Distinct-append :
      (xs : List A) (x : A)
      → Distinct xs
      → exists (has_key (key x)) xs ≡ false
      → Distinct (xs ++ x ∷ [])
  unfolding exists
  Distinct-append [] x h e = (tt, tt)
  Distinct-append (y ∷ xs) x h e = (
    All-append _ xs (x ∷ []) h.0 (ground (arith, string_eq.test_iff (key y) (key x)), tt),
    Distinct-append xs x h.1 (ground arith),
  )

-- At most one row passes the test.
module _ {A : Type 0} (p : A → Bool) where
  abbrev pub None : List A → Type 0
  None = All (λ x. p x ≡ false)

  abbrev pub AtMostOne : List A → Type 0
  AtMostOne [] = Unit
  AtMostOne (x ∷ xs) = (p x ≡ true → None xs) × AtMostOne xs

  pub AtMostOne-delete : (q : A → Bool) (xs : List A) → AtMostOne xs → AtMostOne (delete q xs)
  unfolding delete
  AtMostOne-delete q [] h = tt
  AtMostOne-delete q (x ∷ xs) h = elim (Bool-cases (q x)) [
    | inl e ↦ rw e (AtMostOne-delete q xs h.1)
    | inr e ↦ rw e ((λ t. All-delete _ q xs (h.0 t)), AtMostOne-delete q xs h.1)
  ]

  pub AtMostOne-append :
      (xs : List A) (x : A) → p x ≡ false → AtMostOne xs → AtMostOne (xs ++ x ∷ [])
  AtMostOne-append [] x e h = ((λ t. tt), tt)
  AtMostOne-append (y ∷ xs) x e h =
      ((λ t. All-append _ xs (x ∷ []) (h.0 t) (e, tt)), AtMostOne-append xs x e h.1)

  pub AtMostOne-update :
      (q : A → Bool) (f : A → A) (xs : List A)
      → ((x : A) → p (f x) ≡ p x)
      → AtMostOne xs
      → AtMostOne (update q f xs)
  unfolding update
  AtMostOne-update q f [] keep h = tt
  AtMostOne-update q f (x ∷ xs) keep h =
      let none_left =
        λ (t : p x ≡ true). All-update (λ y. p y ≡ false) q f xs (λ y u n. rw keep n) (h.0 t) in
      let rest = AtMostOne-update q f xs keep h.1 in
      elim (Bool-cases (q x)) [
        | inl e ↦ rw e ((λ t. none_left (rw keep at t)), rest)
        | inr e ↦ rw e (none_left, rest)
      ]

  pub AtMostOne-of_None : (xs : List A) → None xs → AtMostOne xs
  AtMostOne-of_None [] h = tt
  AtMostOne-of_None (x ∷ xs) h = ((λ t. h.1), AtMostOne-of_None xs h.1)

  -- Clearing the test on the rows that pass it clears it everywhere.
  pub None-clear : (f : A → A) (xs : List A) → ((x : A) → p (f x) ≡ false) → None (update p f xs)
  unfolding update
  None-clear f [] clears = tt
  None-clear f (x ∷ xs) clears = elim (Bool-cases (p x)) [
    | inl e ↦ rw e (clears x, None-clear f xs clears)
    | inr e ↦ rw (e, e) (refl, None-clear f xs clears)
  ]

  -- Setting the test on the rows of one key, where keys are distinct, sets it once.
  module _ (key : A → String) where
    None-other :
        (k : String) (f : A → A) (xs : List A)
        → All (λ y. key y ≢ k) xs
        → None xs
        → None (update (λ y. key y == k) f xs)
    unfolding update
    None-other k f [] ne h = tt
    None-other k f (x ∷ xs) ne h = elim (Bool-cases (key x == k)) [
      | inl e ↦ absurd (ne.0 (eq_of_== e))
      | inr e ↦ rw e (h.0, None-other k f xs ne.1 h.1)
    ]

    pub AtMostOne-set :
        (k : String) (f : A → A) (xs : List A)
        → Distinct key xs
        → None xs
        → AtMostOne (update (λ y. key y == k) f xs)
    unfolding update
    AtMostOne-set k f [] d h = tt
    AtMostOne-set k f (x ∷ xs) d h = elim (Bool-cases (key x == k)) [
      | inl e ↦
          let same : key x ≡ k = eq_of_== e in
          let others = None-other k f xs (rw (← same) d.0) h.1 in
          rw e ((λ t. others), AtMostOne-of_None (update (λ y. key y == k) f xs) others)
      | inr e ↦ rw e ((λ t. absurd (cc (h.0))), AtMostOne-set k f xs d.1 h.1)
    ]
