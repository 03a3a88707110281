-- ===== src/Prelude/Lists.antt =====
-- Lists measured by native numbers, and predicates over their items.
use Prim.Native.Nat.{ℕ, suc, ◌+◌}
use mathlib.Core.Path.{◌≡◌, refl, sym, subst}
use mathlib.Core.Logic.{◌⊎◌, inl, inr}
use mathlib.Core.List.{List, [], ◌∷◌, ◌++◌}
use mathlib.Core.Bool.{Bool, true}
use native.Mathlib.Omega.{arith}
use schooner.Prelude.Tests.{Bool-cases, if◌then◌else◌}

module _ {ℓ} {A : Type ℓ} where
  abbrev pub length : List A → ℕ
  length [] = 0
  length (x ∷ xs) = suc (length xs)

  pub length-append : (xs ys : List A) → length (xs ++ ys) ≡ length xs + length ys
  length-append [] ys = omega arith
  length-append (x ∷ xs) ys = omega (arith, length-append xs ys)

-- A predicate that every item satisfies.
module _ {ℓ κ} {A : Type ℓ} (P : A → Type κ) where
  abbrev pub All : List A → Type κ
  All [] = Unit
  All (item ∷ rest) = P item × All rest

  pub All-append : (front back : List A) → All front → All back → All (front ++ back)
  All-append [] back h k = k
  All-append (item ∷ rest) back h k = (h.0, All-append rest back h.1 k)

-- Membership, and how it meets predicates over all items.
module _ {A : Type 0} where
  abbrev pub Mem : A → List A → Type 0
  Mem x [] = ⊥
  Mem x (y ∷ ys) = (x ≡ y) ⊎ Mem x ys

  pub Mem-append_left : (x : A) (xs ys : List A) → Mem x xs → Mem x (xs ++ ys)
  Mem-append_left x [] ys h = absurd h
  Mem-append_left x (y ∷ xs) ys (inl same) = inl same
  Mem-append_left x (y ∷ xs) ys (inr later) = inr (Mem-append_left x xs ys later)

  pub Mem_last : (x : A) (xs : List A) → Mem x (xs ++ x ∷ [])
  Mem_last x [] = inl refl
  Mem_last x (y ∷ xs) = inr (Mem_last x xs)

  pub All-of_Mem : (P : A → Type 0) (xs : List A) → ((x : A) → Mem x xs → P x) → All P xs
  All-of_Mem P [] h = tt
  All-of_Mem P (x ∷ xs) h = (h x (inl refl), All-of_Mem P xs (λ y m. h y (inr m)))

  pub All-Mem : (P : A → Type 0) (x : A) (xs : List A) → All P xs → Mem x xs → P x
  All-Mem P x [] all h = absurd h
  All-Mem P x (y ∷ xs) all (inl same) = subst P (sym same) all.0
  All-Mem P x (y ∷ xs) all (inr later) = All-Mem P x xs all.1 later

  -- The items that pass a test, in their order.
  unfoldable pub keep : (A → Bool) → List A → List A
  keep p [] = []
  keep p (x ∷ xs) = let rest = keep p xs in if p x then x ∷ rest else rest

  pub Mem-keep : (p : A → Bool) (x : A) (xs : List A) → Mem x (keep p xs) → Mem x xs × (p x ≡ true)
  unfolding keep
  Mem-keep p x [] m = absurd m
  Mem-keep p x (y ∷ xs) m = elim (Bool-cases (p y)) [
    | inl e ↦
        let found : Mem x (y ∷ keep p xs) = rw e at m in
        elim found [
          | inl same ↦ (inl same, rw same e)
          | inr later ↦ let (within, passes) = Mem-keep p x xs later in (inr within, passes)
        ]
    | inr e ↦
        let later : Mem x (keep p xs) = rw e at m in
        let (within, passes) = Mem-keep p x xs later in (inr within, passes)
  ]

  pub keep-Mem : (p : A → Bool) (x : A) (xs : List A) → Mem x xs → p x ≡ true → Mem x (keep p xs)
  unfolding keep
  keep-Mem p x [] m passes = absurd m
  keep-Mem p x (y ∷ xs) (inl same) passes = rw (← same, passes) (inl refl)
  keep-Mem p x (y ∷ xs) (inr later) passes = elim (Bool-cases (p y)) [
    | inl e ↦ rw e (inr (keep-Mem p x xs later passes))
    | inr e ↦ rw e (keep-Mem p x xs later passes)
  ]
