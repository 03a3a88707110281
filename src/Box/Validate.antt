-- ===== src/Box/Validate.antt =====
-- internal/box/validate.go. A name is matched against
-- `^[a-z0-9](?:[a-z0-9-]{0,61}[a-z0-9])?$`; the matcher runs over its code points.
use Prim.Native.String.{String}
use schooner.Prelude.{
  ℕ, zero, suc, ◌+◌, ◌≤◌, Bool, true, false, not, ◌&&◌, ◌||◌, [], ◌∷◌, ◌≡◌, ◌≢◌, refl, ◌↔◌, arith,
  leb, ◌==◌, nat_eq, string_eq, length, if◌then◌else◌, All,
}
use mathlib.Core.List.{cons-ne-nil}
use schooner.Prelude.Results.{Result, ok, err}
use schooner.Prelude.Text.{Bytes, codes, contains_byte}

abbrev pub is_alnum : ℕ → Bool
is_alnum c = leb b'a' c && leb c b'z' || leb b'0' c && leb c b'9'

abbrev pub is_slug : ℕ → Bool
is_slug c = is_alnum c || c == b'-'

-- `[a-z0-9-]{0,n}[a-z0-9]` up to the end of the text.
unfoldable pub matches_rest : ℕ → Bytes → Bool
matches_rest n [] = false
matches_rest n (c ∷ []) = is_alnum c
matches_rest zero (c ∷ d ∷ s) = false
matches_rest (suc n) (c ∷ d ∷ s) = is_slug c && matches_rest n (d ∷ s)

matches_name : Bytes → Bool
unfolding matches_rest
matches_name [] = false
matches_name (c ∷ []) = is_alnum c
matches_name (c ∷ d ∷ s) = is_alnum c && matches_rest 61 (d ∷ s)

unfoldable pub validate_name : String → Result String (Unit {0})
unfolding matches_name
validate_name name =
    if matches_name (codes name)
    then ok tt
    else err "name must be a lowercase slug of 1-63 letters, numbers, and interior hyphens"

-- `strings.ContainsAny(s, "\x00\r\n")`
abbrev has_control : Bytes → Bool
has_control s = contains_byte 0 s || contains_byte 13 s || contains_byte 10 s

abbrev starts_with_byte : ℕ → Bytes → Bool
starts_with_byte b [] = false
starts_with_byte b (c ∷ s) = c == b

unfoldable pub validate_ssh_destination : String → Result String (Unit {0})
validate_ssh_destination destination =
    if destination == ""
    then err "SSH destination is required"
    else if starts_with_byte b'-' (codes destination)
    then err "SSH destination must not begin with '-'"
    else if has_control (codes destination)
    then err "SSH destination contains unsupported control characters"
    else ok tt

abbrev starts_at_home : Bytes → Bool
starts_at_home (c ∷ d ∷ s) = c == b'~' && d == b'/'
starts_at_home _ = false

unfoldable pub validate_worktree_root : String → Result String (Unit {0})
validate_worktree_root root =
    if root == ""
    then err "worktree root is required"
    else if has_control (codes root)
    then err "worktree root contains unsupported control characters"
    else if not (root == "~")
        && not (starts_at_home (codes root))
        && not (starts_with_byte b'/' (codes root))
    then err "worktree root must be absolute or begin with ~/"
    else ok tt

abbrev pub first_or : ℕ → Bytes → ℕ
first_or d [] = d
first_or d (c ∷ s) = c

abbrev pub last_or : ℕ → Bytes → ℕ
last_or d [] = d
last_or d (c ∷ s) = last_or c s

-- A slug, stated without the pattern: at most sixty-three lowercase letters, digits and hyphens,
-- with no hyphen at either end. (The empty text is read as a hyphen, so it is no slug.)
pub record IsSlug (s : Bytes) : Type 0 where
  pub short : length s ≤ 63
  pub bytes : All (λ c. is_slug c ≡ true) s
  pub first : first_or b'-' s ≢ b'-'
  pub last : last_or b'-' s ≢ b'-'

rest_sound :
    (n : ℕ) (d : ℕ) (s : Bytes)
    → matches_rest n s ≡ true
    → (length s ≤ n + 1) × All (λ c. is_slug c ≡ true) s × (last_or d s ≢ b'-')
unfolding matches_rest
rest_sound n d [] h = absurd (ground arith)
rest_sound n d (c ∷ []) h = (omega arith, (ground arith, tt), ground arith)
rest_sound zero d (c ∷ e ∷ s) h = absurd (ground arith)
rest_sound (suc n) d (c ∷ e ∷ s) h =
    let (short, bytes, last) = rest_sound n c (e ∷ s) (ground arith) in
    (omega arith, (ground arith, bytes), last)

rest_complete :
    (n : ℕ) (d : ℕ) (s : Bytes)
    → s ≢ []
    → length s ≤ n + 1
    → All (λ c. is_slug c ≡ true) s
    → last_or d s ≢ b'-'
    → matches_rest n s ≡ true
unfolding matches_rest
rest_complete n d [] ne short bytes last = absurd (ne refl)
rest_complete n d (c ∷ []) ne short bytes last = ground (arith, bytes.0)
rest_complete zero d (c ∷ e ∷ s) ne short bytes last = absurd (omega arith)
rest_complete (suc n) d (c ∷ e ∷ s) ne short bytes last =
    ground (arith, bytes.0, rest_complete n c (e ∷ s) (cons-ne-nil e s) (omega arith) bytes.1 last)

name_sound : (s : Bytes) → matches_name s ≡ true → IsSlug s
unfolding matches_name
name_sound [] h = absurd (ground arith)
name_sound (c ∷ []) h = ground arith
name_sound (c ∷ d ∷ s) h =
    let (short, bytes, last) = rest_sound 61 c (d ∷ s) (ground arith) in
    record { short = omega arith; bytes = (ground arith, bytes); first = ground arith; last = last }

name_complete : (s : Bytes) → IsSlug s → matches_name s ≡ true
unfolding matches_name
name_complete [] h = absurd (h.first refl)
name_complete (c ∷ []) h = ground (arith, h.bytes.0, h.first)
name_complete (c ∷ d ∷ s) h = ground (
  arith,
  h.bytes.0,
  h.first,
  rest_complete 61 c (d ∷ s) (cons-ne-nil d s) (omega (arith, h.short)) h.bytes.1 h.last,
)

name-cases :
    (s : Bytes) (e : String)
    → (if matches_name s then ok tt else err e) ≡ ok tt
    → matches_name s ≡ true
name-cases s e h = ground arith

-- A name is accepted exactly if it is a slug: one to sixty-three lowercase letters, digits and
-- hyphens with no hyphen at either end. (The pattern's two ends and its bound of 61 inner
-- characters say no more and no less.)
pub validate_name-IsSlug : (name : String) → (validate_name name ≡ ok tt) ↔ IsSlug (codes name)
unfolding validate_name
validate_name-IsSlug name = (
  λ h. name_sound (codes name) (name-cases (codes name) _ h),
  λ h. rw (name_complete (codes name) h),
)

starts_with : (s : Bytes) → (starts_with_byte b'-' s ≡ true) ↔ (first_or 0 s ≡ b'-')
starts_with [] = ground arith
starts_with (c ∷ s) = ground arith

-- A destination that is accepted cannot be read as an option of ssh, and holds no line break and
-- no zero byte; and every other non-empty destination is accepted.
pub validate_ssh_destination_iff :
    (destination : String)
    → (validate_ssh_destination destination ≡ ok tt) ↔ (
        (destination ≢ "")
        × (first_or 0 (codes destination) ≢ b'-')
        × All (λ b. contains_byte b (codes destination) ≡ false) (0 ∷ 10 ∷ 13 ∷ []))
unfolding validate_ssh_destination
validate_ssh_destination_iff destination = (
  λ h. ground (arith, string_eq.test_iff destination "", starts_with (codes destination)),
  λ h. ground (arith, string_eq.test_iff destination "", starts_with (codes destination), h.2),
)
