-- ===== src/Semver/Order.antt =====
-- The comparison of semver.go is a total order of versions, which ignores nothing but the build
-- metadata.
use schooner.Prelude.{ℕ, List, [], ◌∷◌, Option, none, some, ◌≡◌, refl, ◌↔◌, ap, arith, length, sym}
use schooner.Prelude.Order.{
  Ordering, flip, IsOrder, lex, lex-IsOrder, pair-IsOrder, on-IsOrder, compare-IsOrder,
}
use schooner.Prelude.Text.{Bytes, compare_bytes-IsOrder}
use schooner.Semver.{
  Version, parse, compare_numeric, compare_identifier, compare_prerelease, compare_versions,
  compare_results, compare_texts,
}

compare_numeric-IsOrder : IsOrder compare_numeric
unfolding compare_numeric
compare_numeric-IsOrder =
    on-IsOrder (λ (s : Bytes). let p : ℕ × Bytes = (length s, s) in p) (λ a b h. ap (λ p. p.1) h)
      (pair-IsOrder compare-IsOrder compare_bytes-IsOrder)

compare_identifier-IsOrder : IsOrder compare_identifier
unfolding compare_identifier
compare_identifier-IsOrder =
    let n = compare_numeric-IsOrder in
    let t = compare_bytes-IsOrder in
    record {
      eq_sound = λ a b h. ground (arith, n.eq_sound a b, t.eq_sound a b);
      eq_self = λ a. ground (arith, n.eq_self a, t.eq_self a);
      flipped = λ a b. ground (arith, n.flipped a b, t.flipped a b);
      lt_trans = λ a b c h k. ground (arith, n.lt_trans a b c, t.lt_trans a b c);
    }

abbrev identifiers : IsOrder (lex compare_identifier)
identifiers = lex-IsOrder compare_identifier-IsOrder

prerelease-eq : (a b : List Bytes) → compare_prerelease a b ≡ Ordering.eq → a ≡ b
unfolding compare_prerelease
prerelease-eq [] [] h = refl
prerelease-eq [] (q ∷ qs) h = ground arith
prerelease-eq (p ∷ ps) [] h = ground arith
prerelease-eq (p ∷ ps) (q ∷ qs) h = identifiers.eq_sound (p ∷ ps) (q ∷ qs) h

prerelease_self : (a : List Bytes) → compare_prerelease a a ≡ Ordering.eq
unfolding compare_prerelease
prerelease_self [] = refl
prerelease_self (p ∷ ps) = identifiers.eq_self (p ∷ ps)

prerelease-flipped : (a b : List Bytes) → compare_prerelease b a ≡ flip (compare_prerelease a b)
unfolding compare_prerelease
prerelease-flipped [] [] = refl
prerelease-flipped [] (q ∷ qs) = refl
prerelease-flipped (p ∷ ps) [] = refl
prerelease-flipped (p ∷ ps) (q ∷ qs) = identifiers.flipped (p ∷ ps) (q ∷ qs)

prerelease_trans :
    (a b c : List Bytes)
    → compare_prerelease a b ≡ Ordering.lt
    → compare_prerelease b c ≡ Ordering.lt
    → compare_prerelease a c ≡ Ordering.lt
unfolding compare_prerelease
prerelease_trans [] [] c h k = ground arith
prerelease_trans [] (q ∷ qs) c h k = ground arith
prerelease_trans (p ∷ ps) [] [] h k = ground arith
prerelease_trans (p ∷ ps) [] (r ∷ rs) h k = ground arith
prerelease_trans (p ∷ ps) (q ∷ qs) [] h k = refl
prerelease_trans (p ∷ ps) (q ∷ qs) (r ∷ rs) h k =
    identifiers.lt_trans (p ∷ ps) (q ∷ qs) (r ∷ rs) h k

compare_prerelease-IsOrder : IsOrder compare_prerelease
compare_prerelease-IsOrder = record {
  eq_sound = prerelease-eq;
  eq_self = prerelease_self;
  flipped = prerelease-flipped;
  lt_trans = prerelease_trans;
}

abbrev key : Version → Bytes × (Bytes × (Bytes × List Bytes))
key v = (v.major, (v.minor, (v.patch, v.prerelease)))

key-injective : (a b : Version) → key a ≡ key b → a ≡ b
key-injective a b h = ground arith

-- The comparison of parsed versions is a total order: only equal versions compare as equal, and it
-- is reflexive, antisymmetric and transitive.
pub compare_versions-IsOrder : IsOrder compare_versions
unfolding compare_versions
compare_versions-IsOrder = on-IsOrder key key-injective (
    pair-IsOrder compare_numeric-IsOrder (
      pair-IsOrder compare_numeric-IsOrder
        (pair-IsOrder compare_numeric-IsOrder compare_prerelease-IsOrder)))

abbrev pub flip_result : Option Ordering → Option Ordering
flip_result none = none
flip_result (some o) = some (flip o)

flipped : (a b : Option Version) → compare_results b a ≡ flip_result (compare_results a b)
unfolding compare_results
flipped none none = refl
flipped none (some b) = refl
flipped (some a) none = refl
flipped (some a) (some b) = ap some (compare_versions-IsOrder.flipped a b)

trans :
    (a b c : Option Version)
    → compare_results a b ≡ some Ordering.lt
    → compare_results b c ≡ some Ordering.lt
    → compare_results a c ≡ some Ordering.lt
unfolding compare_results
trans none b c h k = ground arith
trans (some a) none c h k = ground arith
trans (some a) (some b) none h k = ground arith
trans (some a) (some b) (some c) h k = ground (arith, compare_versions-IsOrder.lt_trans a b c)

-- Exchanging the two texts exchanges "older" and "newer", keeps "equal", and fails exactly when
-- the other call fails.
pub compare_texts-flipped :
    (left right : Bytes) → compare_texts right left ≡ flip_result (compare_texts left right)
unfolding compare_texts
compare_texts-flipped left right = flipped (parse left) (parse right)

-- A text that compares as older than a second, which compares as older than a third, compares as
-- older than the third.
pub compare_texts_trans :
    (x y z : Bytes)
    → compare_texts x y ≡ some Ordering.lt
    → compare_texts y z ≡ some Ordering.lt
    → compare_texts x z ≡ some Ordering.lt
unfolding compare_texts
compare_texts_trans x y z = trans (parse x) (parse y) (parse z)

same :
    (a b : Option Version)
    → compare_results a b ≡ some Ordering.eq
    → (v : Version) × (a ≡ some v) × (b ≡ some v)
unfolding compare_results
same none b h = absurd (ground arith)
same (some a) none h = absurd (ground arith)
same (some a) (some b) h =
    let e : compare_versions a b ≡ Ordering.eq = cc in
    (a, refl, ap some (sym (compare_versions-IsOrder.eq_sound a b e)))

-- Two texts compare as equal exactly when they parse to one version: the same three numbers and
-- the same prerelease identifiers.
pub compare_texts-eq :
    (left right : Bytes)
    → (compare_texts left right ≡ some Ordering.eq)
      ↔ ((v : Version) × (parse left ≡ some v) × (parse right ≡ some v))
unfolding compare_texts
compare_texts-eq left right = (
  same (parse left) (parse right),
  λ e. rw (e.1, e.2, compare_results) (ap some (compare_versions-IsOrder.eq_self e.0)),
)
