-- ===== src/Credentials/Refs.antt =====
-- What the checks of internal/credentials/credentials.go accept: tokens and profile references.
use Prim.Native.String.{String}
use mathlib.Core.Path.{subst}
use schooner.Prelude.{
  ℕ, zero, suc, ◌≤◌, Bool, true, false, List, [], ◌∷◌, ◌++◌, ◌==◌, nat_eq, string_eq, ◌≡◌, ◌↔◌,
  refl, inl, inr, arith, Bool-cases, All, length, leb, sym, ◌∙◌, ap, leb→le,
}
use schooner.Prelude.Results.{ok}
use schooner.Prelude.Text.{Bytes, codes, contains_byte, split, split_at, split_without, push, join}
use schooner.Box.Validate.{matches_rest}
use schooner.Acquisition.Types.{digital_ocean}
use schooner.Credentials.{
  matches_profile_name, same_bytes, is_ref, parse_ref, is_token_byte, all_bytes, has_prefix,
  valid_digital_ocean_token,
}

has_prefix_sound : (s t : Bytes) → has_prefix s t ≡ true → (rest : Bytes) × (s ≡ t ++ rest)
has_prefix_sound s [] h = (s, refl)
has_prefix_sound [] (d ∷ t) h = absurd (ground arith)
has_prefix_sound (c ∷ s) (d ∷ t) h =
    let (rest, same) = has_prefix_sound s t (ground arith) in
    let equal : c ≡ d = ground arith in (rest, rw (equal, same) refl)

has_prefix_complete : (t rest : Bytes) → has_prefix (t ++ rest) t ≡ true
has_prefix_complete [] rest = refl
has_prefix_complete (d ∷ t) rest = ground (arith, has_prefix_complete t rest)

all_bytes_sound : (p : ℕ → Bool) (s : Bytes) → all_bytes p s ≡ true → All (λ c. p c ≡ true) s
all_bytes_sound p [] h = tt
all_bytes_sound p (c ∷ s) h = (ground arith, all_bytes_sound p s (ground arith))

all_bytes_complete : (p : ℕ → Bool) (s : Bytes) → All (λ c. p c ≡ true) s → all_bytes p s ≡ true
all_bytes_complete p [] h = refl
all_bytes_complete p (c ∷ s) h = ground (arith, h.0, all_bytes_complete p s h.1)

-- A token: 32 to 512 letters, digits, underscores and hyphens that begin with `dop_v1_`.
abbrev pub IsToken : Bytes → Type 0
IsToken s =
    (32 ≤ length s)
    × (length s ≤ 512)
    × ((rest : Bytes) × (s ≡ codes "dop_v1_" ++ rest))
    × All (λ c. is_token_byte c ≡ true) s

-- A token is accepted exactly if it has 32 to 512 letters, digits, underscores and hyphens and begins
-- with `dop_v1_`.
pub valid_digital_ocean_token_iff :
    (value : String) → (valid_digital_ocean_token value ≡ true) ↔ IsToken (codes value)
unfolding valid_digital_ocean_token
valid_digital_ocean_token_iff value = (
  (λ h.
      let n = length (codes value) in
      let long : leb 32 n ≡ true = ground arith in
      let short : leb n 512 ≡ true = ground arith in
      let prefixed : has_prefix (codes value) (codes "dop_v1_") ≡ true = ground arith in
      let bytes : all_bytes is_token_byte (codes value) ≡ true = ground arith in
      (
        leb→le 32 n long,
        leb→le n 512 short,
        has_prefix_sound (codes value) (codes "dop_v1_") prefixed,
        all_bytes_sound is_token_byte (codes value) bytes,
      )),
  (λ (long, short, (rest, same), bytes).
      let prefixed : has_prefix (codes value) (codes "dop_v1_") ≡ true =
        subst (λ s. has_prefix s (codes "dop_v1_") ≡ true) (sym same)
          (has_prefix_complete (codes "dop_v1_") rest) in
      let all = all_bytes_complete is_token_byte (codes value) bytes in
      rw (prefixed, all) (ground arith)),
)

-- A profile name: at most 48 lowercase letters, digits and hyphens with no hyphen at either end has
-- no slash.
rest_without_slash : (n : ℕ) (s : Bytes) → matches_rest n s ≡ true → contains_byte b'/' s ≡ false
unfolding matches_rest contains_byte
rest_without_slash n [] h = refl
rest_without_slash n (c ∷ []) h = ground arith
rest_without_slash zero (c ∷ d ∷ s) h = absurd (ground arith)
rest_without_slash (suc n) (c ∷ d ∷ s) h =
    let later : contains_byte b'/' (d ∷ s) ≡ false = rest_without_slash n (d ∷ s) (ground arith) in
    ground arith

name_without_slash : (s : Bytes) → matches_profile_name s ≡ true → contains_byte b'/' s ≡ false
unfolding matches_profile_name contains_byte
name_without_slash [] h = absurd (ground arith)
name_without_slash (c ∷ []) h = ground arith
name_without_slash (c ∷ d ∷ s) h =
    let later : contains_byte b'/' (d ∷ s) ≡ false = rest_without_slash 46 (d ∷ s) (ground arith) in
    ground arith

same_bytes_sound : (s t : Bytes) → same_bytes s t ≡ true → s ≡ t
same_bytes_sound [] [] h = refl
same_bytes_sound [] (d ∷ t) h = absurd (ground arith)
same_bytes_sound (c ∷ s) [] h = absurd (ground arith)
same_bytes_sound (c ∷ s) (d ∷ t) h =
    let equal : c ≡ d = ground arith in
    ap (λ x. x ∷ s) equal ∙ ap (λ r. d ∷ r) (same_bytes_sound s t (ground arith))

join-push : (sep c : ℕ) (ps : List Bytes) → join sep (push c ps) ≡ c ∷ join sep ps
unfolding join
join-push sep c [] = refl
join-push sep c (p ∷ []) = refl
join-push sep c (p ∷ q ∷ ps) = refl

split_has_part : (sep : ℕ) (s : Bytes) → (p : Bytes) × (ps : List Bytes) × (split sep s ≡ p ∷ ps)
unfolding split
split_has_part sep [] = ([], [], refl)
split_has_part sep (c ∷ s) =
    let (p, ps, same) = split_has_part sep s in
    elim (Bool-cases (c == sep)) [
      | inl e ↦ rw e ([], split sep s, refl)
      | inr e ↦ rw (e, same) (c ∷ p, ps, refl)
    ]

-- The parts of a text make the text.
join-split : (sep : ℕ) (s : Bytes) → join sep (split sep s) ≡ s
unfolding join split
join-split sep [] = refl
join-split sep (c ∷ s) =
    let (p, ps, same) = split_has_part sep s in
    elim (Bool-cases (c == sep)) [
      | inl e ↦
          let equal : c ≡ sep = (nat_eq.test_iff c sep).0 e in
          let whole : join sep (p ∷ ps) ≡ s = subst (λ x. join sep x ≡ s) same (join-split sep s) in
          let started : join sep ([] ∷ split sep s) ≡ sep ∷ s =
            subst (λ x. join sep ([] ∷ x) ≡ sep ∷ s) (sym same) (ap (λ r. sep ∷ r) whole) in
          rw e (started ∙ ap (λ x. x ∷ s) (sym equal))
      | inr e ↦ rw e (join-push sep c (split sep s) ∙ ap (λ r. c ∷ r) (join-split sep s))
    ]

-- The reference of a profile of the provider, by its bytes.
abbrev pub IsRef : Bytes → Type 0
IsRef s =
    (name : Bytes) × (s ≡ codes digital_ocean ++ b'/' ∷ name) × (matches_profile_name name ≡ true)

is_ref_sound :
    (s : Bytes) (parts : List Bytes) → split b'/' s ≡ parts → is_ref parts ≡ true → IsRef s
unfolding join
is_ref_sound s [] same h = absurd (ground arith)
is_ref_sound s (p ∷ []) same h = absurd (ground arith)
is_ref_sound s (p ∷ q ∷ r ∷ ps) same h = absurd (ground arith)
is_ref_sound s (p ∷ name ∷ []) same h =
    let provider : p ≡ codes digital_ocean =
      same_bytes_sound p (codes digital_ocean) (ground arith) in
    let whole : s ≡ p ++ b'/' ∷ name = sym (join-split b'/' s) ∙ ap (join b'/') same in
    (name, whole ∙ ap (λ x. x ++ b'/' ∷ name) provider, ground arith)

is_ref_complete :
    (name : Bytes)
    → matches_profile_name name ≡ true
    → is_ref (split b'/' (codes digital_ocean ++ b'/' ∷ name)) ≡ true
unfolding contains_byte
is_ref_complete name h =
    rw
      (
        split_at b'/' (codes digital_ocean) name refl,
        split_without b'/' name (name_without_slash name h),
        h,
      )
      refl

-- A text is accepted as a profile reference, and returned as it is, exactly if it is `digitalocean/`
-- followed by a profile name.
pub parse_ref_iff : (value : String) → (parse_ref value ≡ ok value) ↔ IsRef (codes value)
unfolding parse_ref
parse_ref_iff value = (
  (λ h. is_ref_sound (codes value) _ refl (ground arith)),
  (λ (name, same, named).
      let accepted : is_ref (split b'/' (codes value)) ≡ true =
        subst (λ s. is_ref (split b'/' s) ≡ true) (sym same) (is_ref_complete name named) in
      rw accepted refl),
)
