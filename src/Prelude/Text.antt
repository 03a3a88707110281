-- ===== src/Prelude/Text.antt =====
-- Texts that the program walks: a list of their bytes (code points, for a literal), with the
-- functions of Go's package strings that the source calls on them.
use Prim.Native.Char.{code}
use Prim.Native.String.{String}
use Prim.Native.Nat.{ℕ, compare}
use mathlib.Core.Path.{◌≡◌, refl, ap}
use mathlib.Core.Logic.{inl, inr}
use mathlib.Core.Bool.{Bool, true, false, ◌||◌}
use mathlib.Core.List.{List, [], ◌∷◌, ◌++◌}
use native.Mathlib.Omega.{arith}
use schooner.Prelude.Lists.{All}
use schooner.Prelude.Tests.{◌==◌, nat_eq, ltb, Bool-cases, if◌then◌else◌}
use schooner.Prelude.Order.{Ordering, lex, IsOrder, lex-IsOrder, compare-IsOrder}

abbrev pub Bytes : Type 0
Bytes = List ℕ

abbrev pub codes : String → Bytes
codes String.[] = []
codes (String.◌∷◌ c s) = code c ∷ codes s

-- Go's `<` on strings and `strings.Compare`: byte by byte.
unfoldable pub compare_bytes : Bytes → Bytes → Ordering
compare_bytes = lex compare

pub compare_bytes-IsOrder : IsOrder compare_bytes
unfolding compare_bytes
compare_bytes-IsOrder = lex-IsOrder compare-IsOrder

unfoldable pub contains_byte : ℕ → Bytes → Bool
contains_byte b [] = false
contains_byte b (c ∷ s) = c == b || contains_byte b s

abbrev pub push : ℕ → List Bytes → List Bytes
push c [] = (c ∷ []) ∷ []
push c (p ∷ ps) = (c ∷ p) ∷ ps

-- `strings.Split` by one byte.
unfoldable pub split : ℕ → Bytes → List Bytes
split sep [] = [] ∷ []
split sep (c ∷ s) = let rest = split sep s in if c == sep then [] ∷ rest else push c rest

-- `strings.Cut` at one byte: what stands before it, what stands after it, and whether it occurs.
unfoldable pub cut : ℕ → Bytes → Bytes × Bytes × Bool
cut sep [] = ([], [], false)
cut sep (c ∷ s) =
    let (before, after, found) = cut sep s in
    if c == sep then ([], s, true) else (c ∷ before, after, found)

-- The first occurrence cuts.
pub cut_at :
    (sep : ℕ) (s rest : Bytes)
    → contains_byte sep s ≡ false
    → cut sep (s ++ sep ∷ rest) ≡ (s, rest, true)
unfolding cut contains_byte
cut_at sep [] rest h = ground arith
cut_at sep (c ∷ s) rest h = ground (arith, cut_at sep s rest)

pub cut_without : (sep : ℕ) (s : Bytes) → contains_byte sep s ≡ false → cut sep s ≡ (s, [], false)
unfolding cut contains_byte
cut_without sep [] h = refl
cut_without sep (c ∷ s) h = ground (arith, cut_without sep s)

unfoldable pub join : ℕ → List Bytes → Bytes
join sep [] = []
join sep (p ∷ []) = p
join sep (p ∷ q ∷ ps) = p ++ sep ∷ join sep (q ∷ ps)

pub contains_byte-append :
    (b : ℕ) (s t : Bytes) → contains_byte b (s ++ t) ≡ contains_byte b s || contains_byte b t
unfolding contains_byte
contains_byte-append b [] t = refl
contains_byte-append b (c ∷ s) t = ground (arith, contains_byte-append b s t)

pub split_without : (sep : ℕ) (s : Bytes) → contains_byte sep s ≡ false → split sep s ≡ s ∷ []
unfolding split contains_byte
split_without sep [] h = refl
split_without sep (c ∷ s) h = ground (arith, split_without sep s)

pub split_at :
    (sep : ℕ) (s rest : Bytes)
    → contains_byte sep s ≡ false
    → split sep (s ++ sep ∷ rest) ≡ s ∷ split sep rest
unfolding split contains_byte
split_at sep [] rest h = ground arith
split_at sep (c ∷ s) rest h = ground (arith, split_at sep s rest)

pub split-join :
    (sep : ℕ) (p : Bytes) (ps : List Bytes)
    → All (λ q. contains_byte sep q ≡ false) (p ∷ ps)
    → split sep (join sep (p ∷ ps)) ≡ p ∷ ps
unfolding join
split-join sep p [] h = split_without sep p h.0
split-join sep p (q ∷ ps) h =
    rw (split_at sep p (join sep (q ∷ ps)) h.0) (ap (λ r. p ∷ r) (split-join sep q ps h.1))

abbrev pub Lacks : ℕ → Bytes → Type 0
Lacks b s = contains_byte b s ≡ false

push-Lacks :
    (b c : ℕ) (ps : List Bytes) → All (Lacks b) (push c ps) → ((c == b) ≡ false) × All (Lacks b) ps
unfolding contains_byte
push-Lacks b c [] h = (ground (arith, h.0), tt)
push-Lacks b c (p ∷ ps) h = (ground (arith, h.0), (ground (arith, h.0), h.1))

pub split-Lacks :
    (b sep : ℕ) (s : Bytes) → (sep == b) ≡ false → All (Lacks b) (split sep s) → Lacks b s
unfolding split contains_byte
split-Lacks b sep [] ne h = refl
split-Lacks b sep (c ∷ s) ne h = elim (Bool-cases (c == sep)) [
  | inl e ↦
      let tail : All (Lacks b) ([] ∷ split sep s) = rw e at h in
      ground (arith, split-Lacks b sep s ne tail.1)
  | inr e ↦
      let all : All (Lacks b) (push c (split sep s)) = rw e at h in
      let (head, tail) = push-Lacks b c (split sep s) all in
      ground (arith, split-Lacks b sep s ne tail)
]

-- `hasControl` and `containsControl`: a byte below the space, or DEL.
unfoldable pub has_control_byte : Bytes → Bool
has_control_byte [] = false
has_control_byte (c ∷ s) = ltb c 0x20 || c == 0x7f || has_control_byte s
