-- ===== src/Semver/Numeric.antt =====
-- The length-then-bytes comparison of decimal texts is the comparison of their values.
use Prim.Native.Nat.{compare}
use schooner.Prelude.{ℕ, ◌+◌, ◌-◌, ◌*◌, ◌≤◌, ◌<◌, true, [], ◌∷◌, ◌≡◌, arith, length}
use schooner.Prelude.Order.{lex}
use schooner.Prelude.Text.{Bytes, compare_bytes}
use schooner.Semver.{is_digit, all_bytes, valid_numeric, compare_numeric}

-- The number that digits spell behind `n`.
abbrev pub value_from : ℕ → Bytes → ℕ
value_from n [] = n
value_from n (c ∷ s) = value_from (n * 10 + (c - b'0')) s

abbrev pub value : Bytes → ℕ
value = value_from 0

abbrev Digits : Bytes → Type 0
Digits s = all_bytes is_digit s ≡ true

-- A larger number stays larger behind digits that are as many or more.
value_from_mono :
    (n m : ℕ) (s t : Bytes)
    → Digits s
    → Digits t
    → n < m
    → length s ≤ length t
    → value_from n s < value_from m t
unfolding all_bytes
value_from_mono n m [] [] hs ht lt le = lt
value_from_mono n m [] (d ∷ t) hs ht lt le =
    value_from_mono n (m * 10 + (d - b'0')) [] t hs (ground arith) (omega arith) (omega arith)
value_from_mono n m (c ∷ s) [] hs ht lt le = absurd (omega arith)
value_from_mono n m (c ∷ s) (d ∷ t) hs ht lt le =
    value_from_mono (n * 10 + (c - b'0')) (m * 10 + (d - b'0')) s t (ground arith) (ground arith)
      (ground arith) (omega arith)

same_length :
    (n : ℕ) (s t : Bytes)
    → Digits s
    → Digits t
    → length s ≡ length t
    → compare_bytes s t ≡ compare (value_from n s) (value_from n t)
unfolding all_bytes compare_bytes lex
same_length n [] [] hs ht e = ground arith
same_length n [] (d ∷ t) hs ht e = absurd (omega arith)
same_length n (c ∷ s) [] hs ht e = absurd (omega arith)
same_length n (c ∷ s) (d ∷ t) hs ht e = ground (
  arith,
  same_length (n * 10 + (c - b'0')) s t,
  value_from_mono (n * 10 + (c - b'0')) (n * 10 + (d - b'0')) s t,
  value_from_mono (n * 10 + (d - b'0')) (n * 10 + (c - b'0')) t s,
)

shorter :
    (s t : Bytes)
    → valid_numeric s ≡ true
    → valid_numeric t ≡ true
    → length s < length t
    → value s < value t
unfolding valid_numeric all_bytes
shorter s [] hs ht lt = absurd (omega arith)
shorter [] (d ∷ t) hs ht lt = ground arith
shorter (c ∷ s) (d ∷ []) hs ht lt = absurd (omega arith)
shorter (c ∷ s) (d ∷ e ∷ t) hs ht lt =
    value_from_mono 0 (0 + (d - b'0')) (c ∷ s) (e ∷ t) (ground arith) (ground arith) (ground arith)
      (omega arith)

digits : (s : Bytes) → valid_numeric s ≡ true → Digits s
unfolding valid_numeric
digits [] h = ground arith
digits (c ∷ s) h = ground arith

-- On decimal numbers without leading zeros the comparison is that of the numbers that they spell,
-- however long they are.
pub compare_numeric-value :
    (left right : Bytes)
    → valid_numeric left ≡ true
    → valid_numeric right ≡ true
    → compare_numeric left right ≡ compare (value left) (value right)
unfolding compare_numeric
compare_numeric-value left right hl hr = ground (
  arith,
  shorter left right,
  shorter right left,
  same_length 0 left right (digits left hl) (digits right hr),
)
