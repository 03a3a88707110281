-- ===== src/Credentials/Resolve.antt =====
-- internal/credentials/credentials.go: Manager.Resolve, selectedProfile and resolveProfile.
use Prim.Native.String.{String}
use schooner.Prelude.{
  ℕ, true, ◌&&◌, List, Option, none, some, ◌==◌, ◌!=◌, string_eq, nat_eq, if◌then◌else◌,
}
use schooner.Prelude.Results.{ok, err, ◌>>=◌, ◌>>◌, pure, query}
use schooner.Prelude.Table.{find}
use schooner.Box.Types.{new_error, BoxResult}
use schooner.Acquisition.Types.{digital_ocean}
use schooner.Credentials.{
  Profile, Account, ResolvedCredential, no_profile, profile_ref, trim_space,
  valid_digital_ocean_token,
}
use schooner.Credentials.Rows.{
  list_credential_profiles, find_credential_profile, save_credential_profile,
}
use schooner.Credentials.Manager.{
  Vault, Manager, Managing, trim_prefix, is_default_profile, bound_to, on_env, on_rows, require,
  read_clock, lookup,
}

abbrev pub the_default : Option Profile → BoxResult Profile
the_default (some p) = ok p
the_default none = err (
    new_error "authentication_required"
      "select a DigitalOcean credential profile or connect one first")

-- The reference that an environment credential is resolved for.
unfoldable pub requested_ref : String → List Profile → String
requested_ref requested rows =
    if requested != ""
    then requested
    else elim (find is_default_profile (list_credential_profiles rows)) [
      | some p ↦ if p.ref == "" then profile_ref digital_ocean "default" else p.ref
      | none ↦ profile_ref digital_ocean "default"
    ]

abbrev pub checked_binding : Account → Option Profile → BoxResult (Option Profile)
checked_binding account none = ok none
checked_binding account (some p) =
    if p.external_id != "" && p.external_id != account.external_id
    then err (
        new_error "conflict"
          "environment credential belongs to a different DigitalOcean team than the selected profile")
    else ok (some p)

-- The row that Resolve saves for an environment credential.
abbrev pub environment_profile : String → Account → ℕ → Option Profile → Profile
environment_profile ref account time none = bound_to account (record no_profile {
  ref = ref;
  provider = digital_ocean;
  name = trim_prefix "digitalocean/" ref;
  created_at = time;
  updated_at = time;
  is_default = true;
})
environment_profile ref account time (some p) = record (bound_to account p) { updated_at = time }

module _ {R : Type 0} where
  unfoldable pub selected_profile : String → Managing R Profile
  selected_profile requested =
      if requested != ""
      then query (λ w. find_credential_profile requested w.rows)
      else query (λ w. the_default (find is_default_profile (list_credential_profiles w.rows)))

  unfoldable pub resolve_profile : String → Account → Managing R (Option Profile)
  resolve_profile ref account = do found ← lookup ref; query (λ w. checked_binding account found)

module _ {R : Type 0} (vault : Vault R) where
  unfoldable pub resolve_environment : String → String → Managing R ResolvedCredential
  resolve_environment token requested = do
    require (valid_digital_ocean_token token) (
        new_error "authentication_required"
          "DIGITALOCEAN_TOKEN is not a valid DigitalOcean personal access token")
    account ← on_env (vault.identify token)
    ref ← query (λ w. ok (requested_ref requested w.rows))
    found ← resolve_profile ref account
    time ← read_clock vault
    on_rows (save_credential_profile (environment_profile ref account time found))
    pure (record { profile = ref; token = token; account = account; source = "environment" })

  -- The credential of a token that must still be of the profile's account.
  unfoldable pub resolve_token : Profile → String → String → Managing R ResolvedCredential
  resolve_token p token source = do
    account ← on_env (vault.identify token)
    require (account.external_id == p.external_id)
        (new_error "conflict" "credential profile now resolves to a different DigitalOcean team")
    pure (record { profile = p.ref; token = token; account = account; source = source })

  abbrev pub stored_token : Profile → Manager R → BoxResult String
  stored_token p w = elim (vault.get_secret p.credential_key w.env) [
    | ok token ↦ ok token
    | err e ↦
        err
          (new_error "authentication_required" "operating-system credential storage is unavailable")
  ]

  unfoldable pub resolve_keyring : Profile → Managing R ResolvedCredential
  resolve_keyring p = do
    require (p.credential_key != "")
        (new_error "authentication_required" "credential profile %s needs to be reconnected")
    token ← query (stored_token p)
    require (token != "")
        (new_error "authentication_required" "credential profile %s needs to be reconnected")
    require (valid_digital_ocean_token token) (
        new_error "authentication_required"
          "credential profile %s contains an invalid token and needs to be reconnected")
    resolve_token p token "keyring"

  abbrev pub resolve_stored : Profile → String → Managing R ResolvedCredential
  resolve_stored p token = if token != "" then resolve_token p token "memory" else resolve_keyring p

  unfoldable pub resolve_selected : String → Managing R ResolvedCredential
  resolve_selected requested = do
    p ← selected_profile requested
    token ← query (λ w. ok (w.ephemeral p.ref))
    resolve_stored p token

  unfoldable pub resolve_profile_credential : String → Managing R ResolvedCredential
  resolve_profile_credential requested w =
      let token = trim_space (vault.environment_token w.env) in
      (if token != "" then resolve_environment token requested else resolve_selected requested) w
