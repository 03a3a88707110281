-- ===== src/Prelude/Table/Keyed.antt =====
-- Updates of the rows of one key: what they do to the other unique keys and to tests of which at most
-- one row passes.
use Prim.Native.String.{String}
use mathlib.Core.Path.{◌≡◌, refl, sym, ap, ◌∙◌}
use mathlib.Core.Logic.{◌≢◌, inl, inr}
use mathlib.Core.Bool.{Bool, true, false}
use mathlib.Core.List.{List, [], ◌∷◌, ◌++◌}
use native.Mathlib.Omega.{arith}
use schooner.Prelude.Tests.{Bool-cases, ◌==◌, string_eq, eq_of_==}
use schooner.Prelude.Lists.{All, All-append}
use schooner.Prelude.Table.{exists, update, All-imp}
use schooner.Prelude.Table.Unique.{Distinct, AtMostOne, None}
use schooner.Prelude.Table.Found.{All-both, All-update_cases}

module _ {A : Type 0} where
  pub None-absent : (p : A → Bool) (xs : List A) → exists p xs ≡ false → None p xs
  unfolding exists
  None-absent p [] h = tt
  None-absent p (x ∷ xs) h = (ground arith, None-absent p xs (ground arith))

  pub update-absent : (p : A → Bool) (f : A → A) (xs : List A) → None p xs → update p f xs ≡ xs
  unfolding update
  update-absent p f [] h = refl
  update-absent p f (x ∷ xs) h = rw h.0 (ap (λ r. x ∷ r) (update-absent p f xs h.1))

  -- An update that clears the test.
  pub AtMostOne-unset :
      (p q : A → Bool) (f : A → A) (xs : List A)
      → ((x : A) → p (f x) ≡ false)
      → AtMostOne p xs
      → AtMostOne p (update q f xs)
  unfolding update
  AtMostOne-unset p q f [] clears h = tt
  AtMostOne-unset p q f (x ∷ xs) clears h =
      let rest = AtMostOne-unset p q f xs clears h.1 in
      elim (Bool-cases (q x)) [
        | inl e ↦ rw e ((λ t. absurd (ground (arith, clears x))), rest)
        | inr e ↦ rw e (
          (λ t.
              All-update_cases (λ y. p y ≡ false) (λ y. p y ≡ false) q f xs (λ y u n. clears y)
                (λ y u n. n) (h.0 t)),
          rest,
        )
      ]

-- The rows of one value of a unique key.
module _ {A : Type 0} (key : A → String) (k : String) where
  pub AtMostOne-of_key :
      (p : A → Bool) (xs : List A)
      → Distinct key xs
      → All (λ x. p x ≡ true → key x ≡ k) xs
      → AtMostOne p xs
  AtMostOne-of_key p [] d h = tt
  AtMostOne-of_key p (x ∷ xs) d h = (
    (λ t.
        All-both (λ y. key y ≢ key x) (λ y. p y ≡ true → key y ≡ k) (λ y. p y ≡ false) xs
          (λ y ne same. elim (Bool-cases (p y)) [
            | inl u ↦ absurd (ne (same u ∙ sym (h.0 t)))
            | inr u ↦ u
          ])
          d.0 h.1),
    AtMostOne-of_key p xs d.1 h.1,
  )

  None-of_key :
      (x : A) (xs : List A) → key x ≡ k → All (λ y. key y ≢ key x) xs → None (λ y. key y == k) xs
  None-of_key x xs same ne =
      All-imp (λ y. key y ≢ key x) (λ y. (key y == k) ≡ false) xs
        (λ y other. elim (Bool-cases (key y == k)) [
          | inl e ↦ absurd (other (eq_of_== e ∙ sym same))
          | inr e ↦ e
        ])
        ne

  -- An update of these rows that sets another unique key to a value that no other row has.
  pub Distinct-set :
      (other : A → String) (value : String) (f : A → A) (xs : List A)
      → ((x : A) → other (f x) ≡ value)
      → Distinct key xs
      → All (λ x. (key x == k) ≡ false → other x ≢ value) xs
      → Distinct other xs
      → Distinct other (update (λ x. key x == k) f xs)
  unfolding update
  Distinct-set other value f [] sets d free h = tt
  Distinct-set other value f (x ∷ xs) sets d free h = elim (Bool-cases (key x == k)) [
    | inl e ↦
        let left = None-of_key x xs (eq_of_== e) d.0 in
        rw (e, update-absent _ f xs left)
          (
            All-both (λ y. (key y == k) ≡ false) (λ y. (key y == k) ≡ false → other y ≢ value)
                (λ y. other y ≢ other (f x)) xs (λ y miss ne same. ne miss (same ∙ sets x)) left
                free.1,
            h.1,
          )
    | inr e ↦ rw e (
      All-update_cases (λ y. other y ≢ other x) (λ y. other y ≢ other x) (λ y. key y == k) f xs
          (λ y hit ne same. free.0 e (sym same ∙ sets y)) (λ y miss ne. ne) h.0,
      Distinct-set other value f xs sets d.1 free.1 h.1,
    )
  ]

  -- A row at the end whose key no other row has.
  pub Distinct-append_free :
      (xs : List A) (x : A)
      → key x ≡ k
      → All (λ y. key y ≢ k) xs
      → Distinct key xs
      → Distinct key (xs ++ x ∷ [])
  Distinct-append_free [] x same free d = (tt, tt)
  Distinct-append_free (y ∷ xs) x same free d = (
    All-append (λ z. key z ≢ key y) xs (x ∷ []) d.0 ((λ e. free.0 (sym e ∙ same)), tt),
    Distinct-append_free xs x same free.1 d.1,
  )
