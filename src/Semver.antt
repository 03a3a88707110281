-- ===== src/Semver.antt =====
-- internal/semver/semver.go: v-prefixed semantic versions, as bytes. A loop over the runes of an
-- identifier runs over its bytes here: a byte of a longer rune fails the same tests.
-- The result pair (version, ok) is an `Option`; -1, 0 and 1 are `lt`, `eq` and `gt`.
pub mod Order
pub mod Numeric
pub mod Build
mod Tests
use Prim.Native.Nat.{compare}
use schooner.Prelude.{
  ℕ, Bool, true, false, not, ◌&&◌, ◌||◌, List, [], ◌∷◌, Option, none, some, ltb, ◌==◌, nat_eq,
  length, if◌then◌else◌,
}
use schooner.Prelude.Order.{Ordering, ◌then_by◌, lex}
use schooner.Prelude.Text.{Bytes, compare_bytes, contains_byte, split, cut}

pub record Version : Type 0 where
  pub major : Bytes
  pub minor : Bytes
  pub patch : Bytes
  pub prerelease : List Bytes

abbrev pub is_digit : ℕ → Bool
is_digit c = not (ltb c b'0' || ltb b'9' c)

abbrev is_identifier_byte : ℕ → Bool
is_identifier_byte c =
    is_digit c || not (ltb c b'A' || ltb b'Z' c) || not (ltb c b'a' || ltb b'z' c) || c == b'-'

all_bytes : (ℕ → Bool) → Bytes → Bool
all_bytes p [] = true
all_bytes p (c ∷ s) = p c && all_bytes p s

unfoldable pub numeric : Bytes → Bool
unfolding all_bytes
numeric [] = false
numeric (c ∷ s) = all_bytes is_digit (c ∷ s)

leading_zero : Bytes → Bool
leading_zero (c ∷ d ∷ s) = c == b'0'
leading_zero _ = false

valid_identifier : Bool → Bytes → Bool
unfolding all_bytes leading_zero
valid_identifier strict [] = false
valid_identifier strict (c ∷ s) =
    all_bytes is_identifier_byte (c ∷ s)
    && not (strict && all_bytes is_digit (c ∷ s) && leading_zero (c ∷ s))

pub all_identifiers : Bool → List Bytes → Bool
all_identifiers strict [] = true
all_identifiers strict (p ∷ ps) = valid_identifier strict p && all_identifiers strict ps

unfoldable pub valid_identifiers : Bytes → Bool → Bool
unfolding all_identifiers valid_identifier
valid_identifiers [] strict = false
valid_identifiers (c ∷ s) strict = all_identifiers strict (split b'.' (c ∷ s))

unfoldable pub valid_numeric : Bytes → Bool
unfolding numeric leading_zero
valid_numeric s = not (leading_zero s) && numeric s

parse_core : List Bytes → List Bytes → Option Version
unfolding valid_numeric
parse_core (a ∷ b ∷ c ∷ []) pre =
    if valid_numeric a && valid_numeric b && valid_numeric c
    then some (record { major = a; minor = b; patch = c; prerelease = pre })
    else none
parse_core _ pre = none

parse_release : Bytes → Option Version
unfolding parse_core valid_identifiers
parse_release value =
    let (core, prerelease, has_prerelease) = cut b'-' value in
    if has_prerelease && not (valid_identifiers prerelease true)
    then none
    else parse_core (split b'.' core) (if has_prerelease then split b'.' prerelease else [])

parse_body : Bytes → Option Version
unfolding parse_release
parse_body value =
    let (core_and_pre, build, has_build) = cut b'+' value in
    if has_build && (not (valid_identifiers build false) || contains_byte b'+' build)
    then none
    else parse_release core_and_pre

unfoldable pub parse : Bytes → Option Version
unfolding parse_body
parse (c ∷ d ∷ s) = if c == b'v' then parse_body (d ∷ s) else none
parse _ = none

unfoldable pub compare_numeric : Bytes → Bytes → Ordering
compare_numeric left right = compare (length left) (length right) then_by compare_bytes left right

unfoldable pub compare_identifier : Bytes → Bytes → Ordering
compare_identifier left right =
    if numeric left && numeric right
    then compare_numeric left right
    else if numeric left
    then Ordering.lt
    else if numeric right
    then Ordering.gt
    else compare_bytes left right

unfoldable pub compare_prerelease : List Bytes → List Bytes → Ordering
compare_prerelease [] [] = Ordering.eq
compare_prerelease [] (q ∷ qs) = Ordering.gt
compare_prerelease (p ∷ ps) [] = Ordering.lt
compare_prerelease (p ∷ ps) (q ∷ qs) = lex compare_identifier (p ∷ ps) (q ∷ qs)

unfoldable pub compare_versions : Version → Version → Ordering
compare_versions a b =
    compare_numeric a.major b.major
    then_by compare_numeric a.minor b.minor
    then_by compare_numeric a.patch b.patch
    then_by compare_prerelease a.prerelease b.prerelease

compare_results : Option Version → Option Version → Option Ordering
compare_results none right = none
compare_results (some a) none = none
compare_results (some a) (some b) = some (compare_versions a b)

unfoldable pub compare_texts : Bytes → Bytes → Option Ordering
unfolding compare_results
compare_texts left right = compare_results (parse left) (parse right)

unfoldable pub is_valid : Bytes → Bool
is_valid value = elim (parse value) [ none ↦ false | some _ ↦ true ]

abbrev no_prerelease : List Bytes → Bool
no_prerelease [] = true
no_prerelease (p ∷ ps) = false

unfoldable pub is_stable : Bytes → Bool
is_stable value = elim (parse value) [ none ↦ false | some v ↦ no_prerelease v.prerelease ]
