-- ===== src/Prelude/Sort.antt =====
-- Go's `slices.SortFunc`, `slices.SortStableFunc` and `sort.Strings`, as the stable insertion sort.
use Prim.Native.Nat.{suc}
use Prim.Native.String.{String}
use mathlib.Core.Path.{◌≡◌, refl, sym, subst, ap, ◌∙◌}
use mathlib.Core.Logic.{inl, inr}
use mathlib.Core.Bool.{Bool, true, false, ◌||◌}
use mathlib.Core.List.{List, [], ◌∷◌, Perm}
use mathlib.Core.List.Perm
use native.Mathlib.Omega.{arith}
use schooner.Prelude.Tests.{if◌then◌else◌, Bool-cases}
use schooner.Prelude.Lists.{All, All-of_Mem, Mem, length}
use schooner.Prelude.Table.{All-imp, exists}
use schooner.Prelude.Table.Unique.{None, AtMostOne}
use schooner.Prelude.Order.{Ordering, IsOrder}
use schooner.Prelude.Text.{codes, compare_bytes}

abbrev pub after : Ordering → Bool
after Ordering.gt = true
after _ = false

-- `strings.Compare`
abbrev pub compare_strings : String → String → Ordering
compare_strings s t = compare_bytes (codes s) (codes t)

-- What a sort needs of its comparison.
pub record IsPreorder {A : Type 0} (cmp : A → A → Ordering) : Type 0 where
  pub total : (a b : A) → after (cmp a b) ≡ true → after (cmp b a) ≡ false
  pub le_trans :
      (a b c : A) → after (cmp a b) ≡ false → after (cmp b c) ≡ false → after (cmp a c) ≡ false

pub order-IsPreorder :
    {A B : Type 0} {cmp : B → B → Ordering} (f : A → B)
    → IsOrder cmp
    → IsPreorder (λ a b. cmp (f a) (f b))
order-IsPreorder f o = record {
  total = λ a b h. ground (arith, o.flipped (f a) (f b));
  le_trans = λ a b c h k. ground (
    arith,
    o.eq_sound (f a) (f b),
    o.eq_sound (f b) (f c),
    o.eq_self (f a),
    o.lt_trans (f a) (f b) (f c),
  );
}

module _ {A : Type 0} (cmp : A → A → Ordering) where
  insert : A → List A → List A
  insert x [] = x ∷ []
  insert x (y ∷ ys) = let later = y ∷ insert x ys in if after (cmp x y) then later else x ∷ y ∷ ys

  unfoldable pub sort : List A → List A
  unfolding insert
  sort [] = []
  sort (x ∷ xs) = insert x (sort xs)

  abbrev pub Sorted : List A → Type 0
  Sorted [] = Unit
  Sorted (x ∷ xs) = All (λ y. after (cmp x y) ≡ false) xs × Sorted xs

  insert-perm : (x : A) (ys : List A) → Perm (insert x ys) (x ∷ ys)
  unfolding insert
  insert-perm x [] = Perm.refl (x ∷ [])
  insert-perm x (y ∷ ys) = elim (Bool-cases (after (cmp x y))) [
    | inl e ↦ rw e (Perm.trans (Perm.cons y (insert-perm x ys)) (Perm.swap x y ys))
    | inr e ↦ rw e (Perm.refl (x ∷ y ∷ ys))
  ]

  pub sort-perm : (xs : List A) → Perm (sort xs) xs
  unfolding sort
  sort-perm [] = Perm.refl []
  sort-perm (x ∷ xs) = Perm.trans (insert-perm x (sort xs)) (Perm.cons x (sort-perm xs))

  length-insert : (x : A) (ys : List A) → length (insert x ys) ≡ suc (length ys)
  unfolding insert
  length-insert x [] = refl
  length-insert x (y ∷ ys) = ground (arith, length-insert x ys)

  pub length-sort : (xs : List A) → length (sort xs) ≡ length xs
  unfolding sort
  length-sort [] = refl
  length-sort (x ∷ xs) = length-insert x (sort xs) ∙ ap suc (length-sort xs)

  insert-All : (P : A → Type 0) (x : A) (ys : List A) → P x → All P ys → All P (insert x ys)
  unfolding insert
  insert-All P x [] h hs = (h, tt)
  insert-All P x (y ∷ ys) h hs = elim (Bool-cases (after (cmp x y))) [
    | inl e ↦ rw e (hs.0, insert-All P x ys h hs.1)
    | inr e ↦ rw e (h, hs)
  ]

  pub sort-All : (P : A → Type 0) (xs : List A) → All P xs → All P (sort xs)
  unfolding sort
  sort-All P [] h = tt
  sort-All P (x ∷ xs) h = insert-All P x (sort xs) h.0 (sort-All P xs h.1)

  All-insert : (P : A → Type 0) (x : A) (ys : List A) → All P (insert x ys) → P x × All P ys
  unfolding insert
  All-insert P x [] h = h
  All-insert P x (y ∷ ys) h = elim (Bool-cases (after (cmp x y))) [
    | inl e ↦
        let all : All P (y ∷ insert x ys) = rw e at h in
        let (head, tail) = All-insert P x ys all.1 in (head, (all.0, tail))
    | inr e ↦ rw e at h
  ]

  pub All-sort : (P : A → Type 0) (xs : List A) → All P (sort xs) → All P xs
  unfolding sort
  All-sort P [] h = tt
  All-sort P (x ∷ xs) h =
      let (head, tail) = All-insert P x (sort xs) h in (head, All-sort P xs tail)

  insert-Sorted : IsPreorder cmp → (x : A) (ys : List A) → Sorted ys → Sorted (insert x ys)
  unfolding insert
  insert-Sorted o x [] h = (tt, tt)
  insert-Sorted o x (y ∷ ys) h = elim (Bool-cases (after (cmp x y))) [
    | inl e ↦ rw e (
      insert-All (λ z. after (cmp y z) ≡ false) x ys (o.total x y e) h.0,
      insert-Sorted o x ys h.1,
    )
    | inr e ↦ rw e ((e, All-imp _ _ ys (λ z le. o.le_trans x y z e le) h.0), h)
  ]

  pub sort-Sorted : IsPreorder cmp → (xs : List A) → Sorted (sort xs)
  unfolding sort
  sort-Sorted o [] = tt
  sort-Sorted o (x ∷ xs) = insert-Sorted o x (sort xs) (sort-Sorted o xs)

  -- What stands first after sorting comes from the list, and nothing in the list goes before it.
  pub sort-first :
      IsPreorder cmp
      → (xs : List A) {x : A} {rest : List A} → sort xs ≡ x ∷ rest
      → Mem x xs × All (λ y. after (cmp x y) ≡ false) xs
  sort-first o xs {x} {rest} e =
      let sorted : Sorted (x ∷ rest) = subst Sorted e (sort-Sorted o xs) in
      let self : after (cmp x x) ≡ false = elim (Bool-cases (after (cmp x x))) [
        | inl t ↦ o.total x x t
        | inr f ↦ f
      ] in
      (
        (subst (All (λ y. Mem y xs)) e
            (sort-All (λ y. Mem y xs) xs (All-of_Mem (λ y. Mem y xs) xs (λ y m. m)))).0,
        All-sort (λ y. after (cmp x y) ≡ false) xs
            (subst (All (λ y. after (cmp x y) ≡ false)) (sym e) (self, sorted.0)),
      )

-- A test on the rows survives sorting.
module _ {A : Type 0} (cmp : A → A → Ordering) (p : A → Bool) where
  exists-insert : (x : A) (ys : List A) → exists p (insert cmp x ys) ≡ p x || exists p ys
  unfolding insert exists
  exists-insert x [] = refl
  exists-insert x (y ∷ ys) = ground (arith, exists-insert x ys)

  pub exists-sort : (xs : List A) → exists p (sort cmp xs) ≡ exists p xs
  unfolding sort exists
  exists-sort [] = refl
  exists-sort (x ∷ xs) = exists-insert x (sort cmp xs) ∙ ap (λ b. p x || b) (exists-sort xs)

  AtMostOne-insert :
      (x : A) (ys : List A)
      → (p x ≡ true → None p ys)
      → AtMostOne p ys
      → AtMostOne p (insert cmp x ys)
  unfolding insert
  AtMostOne-insert x [] alone h = (alone, tt)
  AtMostOne-insert x (y ∷ ys) alone h = elim (Bool-cases (after (cmp x y))) [
    | inl e ↦ rw e (
      (λ t.
          insert-All cmp (λ z. p z ≡ false) x ys
            (elim (Bool-cases (p x)) [ inl u ↦ absurd (ground (arith, (alone u).0)) | inr u ↦ u ])
            (h.0 t)),
      AtMostOne-insert x ys (λ t. (alone t).1) h.1,
    )
    | inr e ↦ rw e (alone, h)
  ]

  pub AtMostOne-sort : (xs : List A) → AtMostOne p xs → AtMostOne p (sort cmp xs)
  unfolding sort
  AtMostOne-sort [] h = tt
  AtMostOne-sort (x ∷ xs) h =
      AtMostOne-insert x (sort cmp xs) (λ t. sort-All cmp (λ z. p z ≡ false) xs (h.0 t))
        (AtMostOne-sort xs h.1)

-- `sort.Strings`
abbrev pub sort_strings : List String → List String
sort_strings = sort compare_strings
