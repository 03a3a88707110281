-- ===== src/Credentials/Manager.antt =====
-- internal/credentials/credentials.go, Manager: its state and steps, and the listing and
-- disconnecting of profiles. The provider's interface, the secret store of the system, the
-- environment variable, the clock and the random source are an argument. The tokens that only this
-- process keeps are a function of the reference, "" where there is none.
use Prim.Native.String.{String}
use schooner.Prelude.{
  ℕ, Bool, ◌&&◌, List, [], ◌∷◌, Option, none, some, ◌==◌, ◌!=◌, string_eq, nat_eq, if◌then◌else◌,
}
use schooner.Prelude.Results.{Result, ok, err, done, fail, M, ◌>>=◌, ◌>>◌, pure, throw, query}
use schooner.Prelude.Sort.{sort}
use schooner.Prelude.Text.{codes}
use schooner.Box.Types.{Error, new_error, is_not_found, BoxResult}
use schooner.Acquisition.Types.{digital_ocean}
use schooner.Credentials.{
  ProfileStatus, status_connected, status_action_required, Profile, Account, has_prefix,
  valid_digital_ocean_token,
}
use schooner.Credentials.Rows.{
  by_ref, list_credential_profiles, find_credential_profile, save_credential_profile,
}

pub record Vault (R : Type 0) : Type 0 where
  pub verify : String → M R Error Account
  pub identify : String → M R Error Account
  pub environment_token : R → String
  pub now : R → ℕ × R
  pub get_secret : String → R → Result Error String
  pub set_secret : String → String → M R Error (Unit {0})
  pub delete_secret : String → M R Error (Unit {0})
  pub new_credential_key : M R Error String

pub record Manager (R : Type 0) : Type 0 where
  pub rows : List Profile
  pub env : R
  pub ephemeral : String → String

abbrev pub Managing : Type 0 → Type 0 → Type 0
Managing R A = M (Manager R) Error A

unfoldable pub drop_prefix : String → String → String
drop_prefix String.[] s = s
drop_prefix (String.◌∷◌ c p) String.[] = ""
drop_prefix (String.◌∷◌ c p) (String.◌∷◌ d s) = drop_prefix p s

-- `strings.TrimPrefix`, with the prefix first
unfoldable pub trim_prefix : String → String → String
trim_prefix prefix s = if has_prefix (codes s) (codes prefix) then drop_prefix prefix s else s

abbrev pub put_token : String → String → (String → String) → String → String
put_token ref token ephemeral asked = if asked == ref then token else ephemeral asked

abbrev pub is_digital_ocean : Profile → Bool
is_digital_ocean p = p.provider == digital_ocean

abbrev pub is_default_profile : Profile → Bool
is_default_profile p = p.provider == digital_ocean && p.is_default

abbrev pub of_account : Account → String → Profile → Bool
of_account account ref p =
    p.provider == digital_ocean && p.external_id == account.external_id && p.ref != ref

abbrev pub bound_to : Account → Profile → Profile
bound_to account p = record p {
  external_id = account.external_id;
  account_name = account.name;
  account_email = account.email;
}

-- The profile that Disconnect saves, and the one that it returns.
abbrev pub without_key : Profile → ℕ → Profile
without_key p time = record p { credential_key = ""; updated_at = time }

abbrev pub disconnected_profile : Profile → ℕ → Profile
disconnected_profile p time = record p {
  credential_key = "";
  updated_at = time;
  status = status_action_required;
}

module _ {R : Type 0} where
  abbrev pub on_env : {A : Type 0} → M R Error A → Managing R A
  on_env m w = elim (m w.env) [
    | done x v ↦ done x (record w { env = v })
    | fail e v ↦ fail e (record w { env = v })
  ]

  abbrev pub on_rows : {A : Type 0} → M (List Profile) Error A → Managing R A
  on_rows m w = elim (m w.rows) [
    | done x v ↦ done x (record w { rows = v })
    | fail e v ↦ fail e (record w { rows = v })
  ]

  abbrev pub set_ephemeral : String → String → Managing R (Unit {0})
  set_ephemeral ref token w = done tt (record w { ephemeral = put_token ref token w.ephemeral })

  abbrev pub require : Bool → Error → Managing R (Unit {0})
  require b e = if b then pure tt else throw e

-- The profile that is found under the reference, none where there is none.
abbrev pub found_or_none : BoxResult Profile → BoxResult (Option Profile)
found_or_none (ok p) = ok (some p)
found_or_none (err e) = if is_not_found e then ok none else err e

module _ {R : Type 0} where
  abbrev pub lookup : String → Managing R (Option Profile)
  lookup ref = query (λ w. found_or_none (find_credential_profile ref w.rows))

module _ {R : Type 0} (vault : Vault R) where
  abbrev pub read_clock : Managing R ℕ
  read_clock w = let (time, v) = vault.now w.env in done time (record w { env = v })

  -- The status of a profile in a list.
  unfoldable pub profile_status : Manager R → Profile → ProfileStatus
  profile_status w p =
      if w.ephemeral p.ref != ""
      then status_connected
      else if p.credential_key == ""
      then status_action_required
      else elim (vault.get_secret p.credential_key w.env) [
        | ok value ↦
            if valid_digital_ocean_token value then status_connected else status_action_required
        | err e ↦ status_action_required
      ]

  unfoldable pub with_statuses : Manager R → List Profile → List Profile
  with_statuses w [] = []
  with_statuses w (p ∷ rest) = record p { status = profile_status w p } ∷ with_statuses w rest

  unfoldable pub list_profiles : Manager R → BoxResult (List Profile)
  list_profiles w = ok (sort by_ref (with_statuses w (list_credential_profiles w.rows)))

  abbrev pub delete_stored : String → Managing R (Unit {0})
  delete_stored key w = elim (vault.delete_secret key w.env) [
    | done x v ↦ done tt (record w { env = v })
    | fail e v ↦
        fail (new_error "internal" "could not remove credential from operating-system storage")
          (record w { env = v })
  ]

  unfoldable pub disconnect : String → Managing R Profile
  disconnect ref = do
    p ← query (λ w. find_credential_profile ref w.rows)
    (if p.credential_key != "" then delete_stored p.credential_key else pure tt)
    set_ephemeral ref ""
    time ← read_clock
    on_rows (save_credential_profile (without_key p time))
    pure (disconnected_profile p time)
