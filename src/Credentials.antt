-- ===== src/Credentials.antt =====
-- internal/credentials/credentials.go: the credential profiles of the provider. Profile names and
-- tokens are matched over their code points; `strings.TrimSpace` takes off white space as Unicode has
-- it.
pub mod Rows
pub mod Manager
pub mod Resolve
pub mod Connect
pub mod Valid
pub mod Written
pub mod Bound
pub mod Forgotten
pub mod Keeps
pub mod Settled
pub mod Bindings
pub mod Ends
pub mod Reach
pub mod Refs
mod Tests
use Prim.Native.Char.{Char, code}
use Prim.Native.String.{String, ◌++◌}
use schooner.Prelude.{
  ℕ, zero, suc, Bool, true, false, not, ◌&&◌, ◌||◌, List, [], ◌∷◌, ◌==◌, nat_eq, string_eq, leb,
  length, if◌then◌else◌,
}
use schooner.Prelude.Results.{Result, ok, err}
use schooner.Prelude.Text.{Bytes, codes, split}
use schooner.Box.Validate.{is_alnum, matches_rest}
use schooner.Acquisition.Types.{digital_ocean}

pub data ProfileStatus : Type 0 where
  no_status status_connected status_action_required : ProfileStatus

pub record Profile : Type 0 where
  pub ref : String
  pub provider : String
  pub name : String
  pub external_id : String
  pub account_name : String
  pub account_email : String
  pub credential_key : String
  pub is_default : Bool
  pub created_at : ℕ
  pub updated_at : ℕ
  pub status : ProfileStatus
  pub warning : String

pub record Account : Type 0 where
  pub external_id : String
  pub name : String
  pub email : String

pub record ResolvedCredential : Type 0 where
  pub profile : String
  pub token : String
  pub account : Account
  pub source : String

-- The zero value.
abbrev pub no_profile : Profile
no_profile = record {
  ref = "";
  provider = "";
  name = "";
  external_id = "";
  account_name = "";
  account_email = "";
  credential_key = "";
  is_default = false;
  created_at = 0;
  updated_at = 0;
  status = no_status;
  warning = "";
}

-- `^[a-z0-9](?:[a-z0-9-]{0,46}[a-z0-9])?$`
unfoldable pub matches_profile_name : Bytes → Bool
matches_profile_name [] = false
matches_profile_name (c ∷ []) = is_alnum c
matches_profile_name (c ∷ d ∷ s) = is_alnum c && matches_rest 46 (d ∷ s)

unfoldable pub validate_profile_name : Bytes → Result String (Unit {0})
validate_profile_name value =
    if matches_profile_name value
    then ok tt
    else err "profile name must be a lowercase slug of 1–48 characters"

-- `provider.ProfileRef`
abbrev pub profile_ref : String → String → String
profile_ref provider name = provider ++ "/" ++ name

abbrev pub same_bytes : Bytes → Bytes → Bool
same_bytes [] [] = true
same_bytes (c ∷ s) (d ∷ t) = c == d && same_bytes s t
same_bytes _ _ = false

-- Whether the parts of a reference are the provider and a profile name.
abbrev pub is_ref : List Bytes → Bool
is_ref (provider ∷ name ∷ []) =
    same_bytes provider (codes digital_ocean) && matches_profile_name name
is_ref _ = false

unfoldable pub parse_ref : String → Result String String
parse_ref value =
    if is_ref (split b'/' (codes value))
    then ok value
    else err "credential profile must look like digitalocean/personal"

-- `unicode.IsSpace`
unfoldable pub is_space : ℕ → Bool
is_space c =
    (leb 9 c && leb c 13)
    || c == 32
    || c == 0x85
    || c == 0xa0
    || c == 0x1680
    || (leb 0x2000 c && leb c 0x200a)
    || c == 0x2028
    || c == 0x2029
    || c == 0x202f
    || c == 0x205f
    || c == 0x3000

unfoldable pub trim_left : String → String
trim_left String.[] = ""
trim_left (String.◌∷◌ c s) =
    let rest = trim_left s in if is_space (code c) then rest else String.◌∷◌ c s

unfoldable pub trim_right : String → String
trim_right String.[] = ""
trim_right (String.◌∷◌ c s) =
    let rest = trim_right s in if is_space (code c) && rest == "" then "" else String.◌∷◌ c rest

-- `strings.TrimSpace`
unfoldable pub trim_space : String → String
trim_space s = trim_right (trim_left s)

abbrev pub is_token_byte : ℕ → Bool
is_token_byte c =
    (leb b'a' c && leb c b'z')
    || (leb b'A' c && leb c b'Z')
    || (leb b'0' c && leb c b'9')
    || c == b'_'
    || c == b'-'

abbrev pub all_bytes : (ℕ → Bool) → Bytes → Bool
all_bytes p [] = true
all_bytes p (c ∷ s) = p c && all_bytes p s

abbrev pub has_prefix : Bytes → Bytes → Bool
has_prefix s [] = true
has_prefix [] (d ∷ t) = false
has_prefix (c ∷ s) (d ∷ t) = c == d && has_prefix s t

unfoldable pub valid_digital_ocean_token : String → Bool
valid_digital_ocean_token value =
    leb 32 (length (codes value))
    && leb (length (codes value)) 512
    && has_prefix (codes value) (codes "dop_v1_")
    && all_bytes is_token_byte (codes value)
