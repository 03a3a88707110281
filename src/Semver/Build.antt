-- ===== src/Semver/Build.antt =====
-- Printing a version and parsing it, with and without build metadata.
use schooner.Prelude.{
  ℕ, Bool, true, false, List, [], ◌∷◌, ◌++◌, some, ◌≡◌, refl, arith, All, ◌∙◌, some_of_guard,
  some_of_test, ◌==◌, nat_eq,
}
use mathlib.Core.List.{append-nil}
use schooner.Prelude.Text.{
  Bytes, contains_byte, contains_byte-append, split, cut, cut_at, cut_without, join, split_at,
  split_without, split-join, split-Lacks,
}
use schooner.Semver.{
  Version, is_digit, is_identifier_byte, all_bytes, valid_identifier, all_identifiers,
  valid_identifiers, valid_numeric, parse_core, parse_release, parse_body, parse,
}

pub record IsValid (v : Version) : Type 0 where
  pub major_valid : valid_numeric v.major ≡ true
  pub minor_valid : valid_numeric v.minor ≡ true
  pub patch_valid : valid_numeric v.patch ≡ true
  pub prerelease_valid : all_identifiers true v.prerelease ≡ true

core_text : Version → Bytes
core_text v = v.major ++ (b'.' ∷ v.minor ++ (b'.' ∷ v.patch))

suffix_text : List Bytes → Bytes
suffix_text [] = []
suffix_text (p ∷ ps) = b'-' ∷ join b'.' (p ∷ ps)

unfoldable pub release_text : Version → Bytes
unfolding core_text suffix_text
release_text v = core_text v ++ suffix_text v.prerelease

-- The canonical text of a version.
abbrev pub print : Version → Bytes
print v = b'v' ∷ release_text v

all_bytes-lacks :
    (p : ℕ → Bool) (b : ℕ) (s : Bytes)
    → p b ≡ false
    → all_bytes p s ≡ true
    → contains_byte b s ≡ false
unfolding all_bytes contains_byte
all_bytes-lacks p b [] hb h = refl
all_bytes-lacks p b (c ∷ s) hb h = ground (arith, all_bytes-lacks p b s)

numeric-lacks :
    (b : ℕ) (s : Bytes) → is_digit b ≡ false → valid_numeric s ≡ true → contains_byte b s ≡ false
unfolding valid_numeric
numeric-lacks b [] hb h = ground arith
numeric-lacks b (c ∷ s) hb h = ground (arith, all_bytes-lacks is_digit b (c ∷ s))

identifier-lacks :
    (b : ℕ) (strict : Bool) (s : Bytes)
    → is_identifier_byte b ≡ false
    → valid_identifier strict s ≡ true
    → contains_byte b s ≡ false
unfolding valid_identifier
identifier-lacks b strict [] hb h = ground arith
identifier-lacks b strict (c ∷ s) hb h =
    ground (arith, all_bytes-lacks is_identifier_byte b (c ∷ s))

identifiers-lack :
    (b : ℕ) (strict : Bool) (ps : List Bytes)
    → is_identifier_byte b ≡ false
    → all_identifiers strict ps ≡ true
    → All (λ q. contains_byte b q ≡ false) ps
unfolding all_identifiers
identifiers-lack b strict [] hb h = tt
identifiers-lack b strict (p ∷ ps) hb h =
    (ground (arith, identifier-lacks b strict p), identifiers-lack b strict ps hb (ground arith))

join-lacks :
    (b sep : ℕ) (ps : List Bytes)
    → (sep == b) ≡ false
    → All (λ q. contains_byte b q ≡ false) ps
    → contains_byte b (join sep ps) ≡ false
unfolding join contains_byte
join-lacks b sep [] hb h = refl
join-lacks b sep (p ∷ []) hb h = h.0
join-lacks b sep (p ∷ q ∷ ps) hb h = ground (
  arith,
  h.0,
  contains_byte-append b p (sep ∷ join sep (q ∷ ps)),
  join-lacks b sep (q ∷ ps) hb h.1,
)

valid_identifiers-split :
    (s : Bytes) (strict : Bool) → valid_identifiers s strict ≡ all_identifiers strict (split b'.' s)
unfolding valid_identifiers split valid_identifier all_identifiers
valid_identifiers-split [] strict = refl
valid_identifiers-split (c ∷ s) strict = refl

split_dots :
    (p : Bytes) (ps : List Bytes)
    → all_identifiers true (p ∷ ps) ≡ true
    → split b'.' (join b'.' (p ∷ ps)) ≡ p ∷ ps
split_dots p ps h = split-join b'.' p ps (identifiers-lack b'.' true (p ∷ ps) refl h)

suffix-lacks_plus :
    (pre : List Bytes)
    → all_identifiers true pre ≡ true
    → contains_byte b'+' (suffix_text pre) ≡ false
unfolding suffix_text contains_byte
suffix-lacks_plus [] h = refl
suffix-lacks_plus (p ∷ ps) h =
    join-lacks b'+' b'.' (p ∷ ps) refl (identifiers-lack b'+' true (p ∷ ps) refl h)

module _ (v : Version) (ok : IsValid v) where
  core-lacks :
      (b : ℕ) → is_digit b ≡ false → (b'.' == b) ≡ false → contains_byte b (core_text v) ≡ false
  unfolding core_text contains_byte
  core-lacks b hb hd = ground (
    arith,
    contains_byte-append b v.major (b'.' ∷ v.minor ++ (b'.' ∷ v.patch)),
    contains_byte-append b v.minor (b'.' ∷ v.patch),
    numeric-lacks b v.major,
    numeric-lacks b v.minor,
    numeric-lacks b v.patch,
    ok.major_valid,
    ok.minor_valid,
    ok.patch_valid,
  )

  split-core : split b'.' (core_text v) ≡ v.major ∷ v.minor ∷ v.patch ∷ []
  unfolding core_text
  split-core = rw (
    split_at b'.' v.major (v.minor ++ (b'.' ∷ v.patch)) (numeric-lacks b'.' _ refl ok.major_valid),
    split_at b'.' v.minor v.patch (numeric-lacks b'.' _ refl ok.minor_valid),
    split_without b'.' v.patch (numeric-lacks b'.' _ refl ok.patch_valid),
  )

  core-parses :
      (pre : List Bytes)
      → parse_core (v.major ∷ v.minor ∷ v.patch ∷ []) pre ≡ some (record v { prerelease = pre })
  unfolding parse_core
  core-parses pre = rw (ok.major_valid, ok.minor_valid, ok.patch_valid)

  release-parses :
      (pre : List Bytes)
      → all_identifiers true pre ≡ true
      → parse_release (core_text v ++ suffix_text pre) ≡ some (record v { prerelease = pre })
  unfolding parse_release suffix_text
  release-parses [] h = rw (
    append-nil,
    cut_without b'-' (core_text v) (core-lacks b'-' refl refl),
    split-core,
    core-parses [],
  )
  release-parses (p ∷ ps) h = rw (
    cut_at b'-' (core_text v) (join b'.' (p ∷ ps)) (core-lacks b'-' refl refl),
    valid_identifiers-split,
    split_dots p ps h,
    h,
    split-core,
    core-parses (p ∷ ps),
  )

  release-lacks_plus : contains_byte b'+' (release_text v) ≡ false
  unfolding release_text
  release-lacks_plus = ground (
    arith,
    contains_byte-append b'+' (core_text v) (suffix_text v.prerelease),
    core-lacks b'+' refl refl,
    suffix-lacks_plus v.prerelease ok.prerelease_valid,
  )

release-print : (v : Version) → IsValid v → parse_release (release_text v) ≡ some v
unfolding release_text
release-print v ok = release-parses v ok v.prerelease ok.prerelease_valid

body-print : (v : Version) → IsValid v → parse_body (release_text v) ≡ some v
unfolding parse_body
body-print v ok =
    rw (cut_without b'+' (release_text v) (release-lacks_plus v ok)) (release-print v ok)

build-lacks_plus : (s : Bytes) → valid_identifiers s false ≡ true → contains_byte b'+' s ≡ false
build-lacks_plus s h =
    split-Lacks b'+' b'.' s refl
      (identifiers-lack b'+' false (split b'.' s) refl (rw valid_identifiers-split at h))

body-build :
    (v : Version) (build : Bytes)
    → IsValid v
    → valid_identifiers build false ≡ true
    → parse_body (release_text v ++ b'+' ∷ build) ≡ some v
unfolding parse_body
body-build v build ok h =
    rw (cut_at b'+' (release_text v) build (release-lacks_plus v ok), h, build-lacks_plus build h)
      (release-print v ok)

parse_v : (s : Bytes) → parse (b'v' ∷ s) ≡ parse_body s
unfolding parse cut split contains_byte parse_core
parse_v [] = refl
parse_v (c ∷ s) = refl

-- A version is read back from its canonical text, and from that text with any well-formed build
-- metadata behind a plus sign.
pub parse-print :
    (v : Version) (build : Bytes)
    → IsValid v
    → valid_identifiers build false ≡ true
    → (parse (print v) ≡ some v) × (parse (print v ++ b'+' ∷ build) ≡ some v)
parse-print v build ok h = (
  parse_v (release_text v) ∙ body-print v ok,
  parse_v (release_text v ++ b'+' ∷ build) ∙ body-build v build ok h,
)

core-IsValid :
    (parts pre : List Bytes) (v : Version)
    → all_identifiers true pre ≡ true
    → parse_core parts pre ≡ some v
    → IsValid v
unfolding parse_core
core-IsValid [] pre v h e = absurd (ground arith)
core-IsValid (a ∷ []) pre v h e = absurd (ground arith)
core-IsValid (a ∷ b ∷ []) pre v h e = absurd (ground arith)
core-IsValid (a ∷ b ∷ c ∷ []) pre v h e = ground arith
core-IsValid (a ∷ b ∷ c ∷ d ∷ s) pre v h e = absurd (ground arith)

release-IsValid : (s : Bytes) (v : Version) → parse_release s ≡ some v → IsValid v
unfolding parse_release all_identifiers
release-IsValid s v e = ground (
  arith,
  valid_identifiers-split (cut b'-' s).1 true,
  core-IsValid (split b'.' (cut b'-' s).0) [] v refl,
  core-IsValid (split b'.' (cut b'-' s).0) (split b'.' (cut b'-' s).1) v,
)

body-IsValid : (s : Bytes) (v : Version) → parse_body s ≡ some v → IsValid v
unfolding parse_body
body-IsValid s v e = release-IsValid (cut b'+' s).0 v (some_of_guard _ _ e)

pub parse-IsValid :
    (s : Bytes) (v : Version) → parse s ≡ some v → IsValid v × (parse (print v) ≡ some v)
unfolding parse
parse-IsValid [] v e = absurd (ground arith)
parse-IsValid (c ∷ []) v e = absurd (ground arith)
parse-IsValid (c ∷ d ∷ s) v e =
    let ok : IsValid v = body-IsValid (d ∷ s) v (some_of_test (c == b'v') _ e) in
    (ok, parse_v (release_text v) ∙ body-print v ok)
