-- ===== src/Prelude/Order.antt =====
-- Three-way comparisons, as Go's `strings.Compare` and `slices.SortFunc` use them: the laws of a
-- total order, and the constructions that keep them. `lt`, `eq` and `gt` stand for -1, 0 and 1.
use Prim.Native.Nat.{compare}
pub use Prim.Native.Nat.{Ordering}
use mathlib.Core.Path.{◌≡◌, refl}
use mathlib.Core.List.{List, [], ◌∷◌}
use native.Mathlib.Omega.{arith}

abbrev pub flip : Ordering → Ordering
flip Ordering.lt = Ordering.gt
flip Ordering.eq = Ordering.eq
flip Ordering.gt = Ordering.lt

-- The first comparison that decides.
infixr 40 ◌then_by◌
abbrev pub ◌then_by◌ : Ordering → Ordering → Ordering
Ordering.lt then_by o = Ordering.lt
Ordering.eq then_by o = o
Ordering.gt then_by o = Ordering.gt

pub record IsOrder {ℓ} {A : Type ℓ} (cmp : A → A → Ordering) : Type ℓ where
  pub eq_sound : (a b : A) → cmp a b ≡ Ordering.eq → a ≡ b
  pub eq_self : (a : A) → cmp a a ≡ Ordering.eq
  pub flipped : (a b : A) → cmp b a ≡ flip (cmp a b)
  pub lt_trans : (a b c : A) → cmp a b ≡ Ordering.lt → cmp b c ≡ Ordering.lt → cmp a c ≡ Ordering.lt

pub compare-IsOrder : IsOrder compare
compare-IsOrder = record {
  eq_sound = λ a b h. ground arith;
  eq_self = λ a. ground arith;
  flipped = λ a b. ground arith;
  lt_trans = λ a b c h k. ground arith;
}

-- Lexicographic order of lists; a proper prefix comes first.
unfoldable pub lex {ℓ} : {A : Type ℓ} → (A → A → Ordering) → List A → List A → Ordering
lex cmp [] [] = Ordering.eq
lex cmp [] (y ∷ ys) = Ordering.lt
lex cmp (x ∷ xs) [] = Ordering.gt
lex cmp (x ∷ xs) (y ∷ ys) = cmp x y then_by lex cmp xs ys

module _ {ℓ} {A : Type ℓ} {cmp : A → A → Ordering} (o : IsOrder cmp) where
  lex-eq : (xs ys : List A) → lex cmp xs ys ≡ Ordering.eq → xs ≡ ys
  unfolding lex
  lex-eq [] [] h = refl
  lex-eq [] (y ∷ ys) h = ground arith
  lex-eq (x ∷ xs) [] h = ground arith
  lex-eq (x ∷ xs) (y ∷ ys) h = ground (arith, o.eq_sound x y, lex-eq xs ys)

  lex_self : (xs : List A) → lex cmp xs xs ≡ Ordering.eq
  unfolding lex
  lex_self [] = refl
  lex_self (x ∷ xs) = ground (arith, o.eq_self x, lex_self xs)

  lex-flipped : (xs ys : List A) → lex cmp ys xs ≡ flip (lex cmp xs ys)
  unfolding lex
  lex-flipped [] [] = refl
  lex-flipped [] (y ∷ ys) = refl
  lex-flipped (x ∷ xs) [] = refl
  lex-flipped (x ∷ xs) (y ∷ ys) = ground (arith, o.flipped x y, lex-flipped xs ys)

  lex_trans :
      (xs ys zs : List A)
      → lex cmp xs ys ≡ Ordering.lt
      → lex cmp ys zs ≡ Ordering.lt
      → lex cmp xs zs ≡ Ordering.lt
  unfolding lex
  lex_trans [] [] zs h k = k
  lex_trans [] (y ∷ ys) [] h k = ground arith
  lex_trans [] (y ∷ ys) (z ∷ zs) h k = refl
  lex_trans (x ∷ xs) [] zs h k = ground arith
  lex_trans (x ∷ xs) (y ∷ ys) [] h k = ground arith
  lex_trans (x ∷ xs) (y ∷ ys) (z ∷ zs) h k =
      ground
        (arith, o.eq_sound x y, o.eq_sound y z, o.eq_self x, o.lt_trans x y z, lex_trans xs ys zs)

  pub lex-IsOrder : IsOrder (lex cmp)
  lex-IsOrder = record {
    eq_sound = lex-eq;
    eq_self = lex_self;
    flipped = lex-flipped;
    lt_trans = lex_trans;
  }

-- Two keys compared in turn.
module _ {ℓ κ} {A : Type ℓ} {B : Type κ} where
  abbrev pub pair_cmp : (A → A → Ordering) → (B → B → Ordering) → A × B → A × B → Ordering
  pair_cmp f g p q = f p.0 q.0 then_by g p.1 q.1

  pub pair-IsOrder :
      {f : A → A → Ordering} {g : B → B → Ordering} → IsOrder f → IsOrder g → IsOrder (pair_cmp f g)
  pair-IsOrder {f} {g} o q = record {
    eq_sound = λ a b h. ground (arith, o.eq_sound a.0 b.0, q.eq_sound a.1 b.1);
    eq_self = λ a. ground (arith, o.eq_self a.0, q.eq_self a.1);
    flipped = λ a b. ground (arith, o.flipped a.0 b.0, q.flipped a.1 b.1);
    lt_trans = λ a b c h k. ground (
      arith,
      o.eq_sound a.0 b.0,
      o.eq_sound b.0 c.0,
      o.eq_self a.0,
      o.lt_trans a.0 b.0 c.0,
      q.lt_trans a.1 b.1 c.1,
    );
  }

-- The order of a key that determines the item.
pub on-IsOrder {ℓ κ} :
    {A : Type ℓ} {B : Type κ} {cmp : B → B → Ordering} (f : A → B)
    → ((a b : A) → f a ≡ f b → a ≡ b)
    → IsOrder cmp
    → IsOrder (λ a b. cmp (f a) (f b))
on-IsOrder f injective o = record {
  eq_sound = λ a b h. injective a b (o.eq_sound (f a) (f b) h);
  eq_self = λ a. o.eq_self (f a);
  flipped = λ a b. o.flipped (f a) (f b);
  lt_trans = λ a b c. o.lt_trans (f a) (f b) (f c);
}
