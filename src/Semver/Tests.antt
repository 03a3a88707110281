-- ===== src/Semver/Tests.antt =====
-- Runs of the model, and the theorems at concrete texts.
use Prim.Native.Nat.{compare}
use schooner.Prelude.{true, false, [], ◌∷◌, ◌++◌, some, ◌≡◌, refl, ◌↔◌}
use schooner.Prelude.Order.{Ordering, lex}
use schooner.Prelude.Text.{codes, compare_bytes, split, cut, contains_byte}
use schooner.Semver.{
  Version, parse, numeric, compare_numeric, compare_identifier, compare_prerelease,
  compare_versions, compare_texts, is_stable, is_valid, valid_numeric, valid_identifiers,
}
use schooner.Semver.Order.{
  flip_result, compare_texts-flipped, compare_texts_trans, compare_texts-eq,
}
use schooner.Semver.Numeric.{value, compare_numeric-value}
use schooner.Semver.Build.{IsValid, print, parse-print, parse-IsValid}

abbrev candidate : Version
candidate = record {
  major = codes "1";
  minor = codes "20";
  patch = codes "3";
  prerelease = codes "rc" ∷ codes "1" ∷ [];
}

alpha_before_rc :
    compare_texts (codes "v1.0.0-alpha.9") (codes "v1.0.0-alpha.10") ≡ some Ordering.lt
unfolding compare_texts parse split cut contains_byte compare_versions compare_prerelease
    compare_identifier numeric compare_numeric compare_bytes lex
alpha_before_rc = refl

rc_before_release : compare_texts (codes "v1.0.0-alpha.10") (codes "v1.0.0") ≡ some Ordering.lt
unfolding compare_texts parse split cut contains_byte compare_versions compare_prerelease
    compare_identifier numeric compare_numeric compare_bytes lex
rc_before_release = refl

leading_zero_refused : is_valid (codes "v1.02.0") ≡ false
unfolding is_valid parse split cut contains_byte
leading_zero_refused = refl

build_is_stable : is_stable (codes "v1.2.0+exp.sha-5114f85") ≡ true
unfolding is_stable parse split cut contains_byte
build_is_stable = refl

candidate_parses : parse (codes "v1.20.3-rc.1") ≡ some candidate
unfolding parse split cut contains_byte
candidate_parses = refl

candidate-IsValid : IsValid candidate
candidate-IsValid = (parse-IsValid (codes "v1.20.3-rc.1") candidate candidate_parses).0

compare_texts-flipped_example :
    compare_texts (codes "v2.0.0") (codes "v1.0.0+x")
    ≡ flip_result (compare_texts (codes "v1.0.0+x") (codes "v2.0.0"))
compare_texts-flipped_example = compare_texts-flipped (codes "v1.0.0+x") (codes "v2.0.0")

compare_texts_trans_example :
    compare_texts (codes "v1.0.0-alpha.9") (codes "v1.0.0") ≡ some Ordering.lt
compare_texts_trans_example =
    compare_texts_trans (codes "v1.0.0-alpha.9") (codes "v1.0.0-alpha.10") (codes "v1.0.0")
      alpha_before_rc rc_before_release

compare_texts-eq_example :
    (compare_texts (codes "v1.0.0+a") (codes "v1.0.0+b") ≡ some Ordering.eq)
    ↔ ((v : Version) × (parse (codes "v1.0.0+a") ≡ some v) × (parse (codes "v1.0.0+b") ≡ some v))
compare_texts-eq_example = compare_texts-eq (codes "v1.0.0+a") (codes "v1.0.0+b")

compare_numeric-value_example :
    compare_numeric (codes "99") (codes "100") ≡ compare (value (codes "99")) (value (codes "100"))
unfolding valid_numeric
compare_numeric-value_example = compare_numeric-value (codes "99") (codes "100") refl refl

parse-print_example :
    (parse (print candidate) ≡ some candidate)
    × (parse (print candidate ++ b'+' ∷ codes "x.1") ≡ some candidate)
unfolding valid_identifiers split
parse-print_example = parse-print candidate (codes "x.1") candidate-IsValid refl
