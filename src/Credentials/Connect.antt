-- ===== src/Credentials/Connect.antt =====
-- internal/credentials/credentials.go: Manager.Connect.
use Prim.Native.String.{String}
use schooner.Prelude.{
  ℕ, Bool, true, false, not, ◌&&◌, ◌||◌, List, Option, none, some, ◌==◌, ◌!=◌, string_eq, nat_eq,
  if◌then◌else◌,
}
use schooner.Prelude.Results.{ok, done, fail, ◌>>=◌, ◌>>◌, pure, throw, query}
use schooner.Prelude.Table.{exists}
use schooner.Prelude.Text.{codes}
use schooner.Box.Types.{Error, new_error}
use schooner.Acquisition.Types.{digital_ocean}
use schooner.Credentials.{
  status_connected, status_action_required, Profile, Account, no_profile, matches_profile_name,
  profile_ref, trim_space, valid_digital_ocean_token,
}
use schooner.Credentials.Rows.{list_credential_profiles, save_credential_profile}
use schooner.Credentials.Manager.{
  Vault, Manager, Managing, put_token, is_digital_ocean, of_account, bound_to, on_env,
  set_ephemeral, require, read_clock, lookup,
}

abbrev pub account_free : Account → String → List Profile → Bool
account_free account ref rows =
    not (exists (of_account account ref) (list_credential_profiles rows))

abbrev pub binding_fits : Account → Option Profile → Bool
binding_fits account none = true
binding_fits account (some p) = p.external_id == "" || p.external_id == account.external_id

-- A first profile becomes the default one.
abbrev pub becomes_default : Bool → Option Profile → List Profile → Bool
becomes_default asked none rows =
    asked || not (exists is_digital_ocean (list_credential_profiles rows))
becomes_default asked (some p) rows = asked

abbrev pub existing_profile : Option Profile → Profile
existing_profile none = no_profile
existing_profile (some p) = p

-- The profile that Connect saves, before its key.
abbrev pub connected_profile : String → String → Account → ℕ → Bool → Profile → Profile
connected_profile ref name account time as_default p = record (bound_to account p) {
  ref = ref;
  provider = digital_ocean;
  name = name;
  updated_at = time;
  created_at = if p.created_at == 0 then time else p.created_at;
  is_default = as_default || p.is_default;
}

abbrev pub unavailable_warning : String
unavailable_warning =
    "Operating-system credential storage is unavailable; the token is usable only for this Schooner process."

module _ {R : Type 0} where
  abbrev pub connected_status : Manager R → Profile → Profile
  connected_status w p = record p {
    status =
        if p.credential_key != "" || w.ephemeral p.ref != ""
        then status_connected
        else status_action_required;
  }

module _ {R : Type 0} (vault : Vault R) where
  -- The token under a new key or, where the secret store refuses it, in this process only.
  unfoldable pub keep_token : Profile → String → String → Managing R (Profile × String)
  keep_token p token key w = elim (vault.set_secret key token w.env) [
    | done x v ↦ done (record p { credential_key = key }, key) (record w { env = v })
    | fail e v ↦
        done (record p { warning = unavailable_warning }, "")
          (record w { env = v; ephemeral = put_token p.ref token w.ephemeral })
  ]

  unfoldable pub store_token : Bool → Profile → String → Managing R (Profile × String)
  store_token false p token w = done (p, "") w
  store_token true p token w = elim (vault.new_credential_key w.env) [
    | done key v ↦ keep_token p token key (record w { env = v })
    | fail e v ↦
        fail (new_error "internal" "could not create credential reference") (record w { env = v })
  ]

  abbrev pub delete_quietly : String → Managing R (Unit {0})
  delete_quietly key w = elim (vault.delete_secret key w.env) [
    | done x v ↦ done tt (record w { env = v })
    | fail e v ↦ done tt (record w { env = v })
  ]

  -- Deletes a secret, if there is one, and drops the error.
  unfoldable pub forget_secret : String → Managing R (Unit {0})
  forget_secret key = if key == "" then pure tt else delete_quietly key

  abbrev pub take_back : Profile → String → Error → Managing R (Unit {0})
  take_back p new_key e = do forget_secret new_key; set_ephemeral p.ref ""; throw e

  -- The save, which takes the token back where it fails.
  unfoldable pub save_connected : Profile → String → Managing R (Unit {0})
  save_connected p new_key w = elim (save_credential_profile p w.rows) [
    | done x rows ↦ done tt (record w { rows = rows })
    | fail e rows ↦ take_back p new_key e (record w { rows = rows })
  ]

  unfoldable pub finish_connect : String → Profile × String → Managing R Profile
  finish_connect old_key (p, new_key) = do
    save_connected p new_key
    (if new_key != "" then set_ephemeral p.ref "" else pure tt)
    (if new_key != "" && old_key != new_key then forget_secret old_key else pure tt)
    query (λ w. ok (connected_status w p))

  unfoldable pub connect_account : String → String → Bool → Bool → Account → Managing R Profile
  connect_account name token store_secret make_default account = do
    free ← query (λ w. ok (account_free account (profile_ref digital_ocean name) w.rows))
    require free (new_error "conflict" "this DigitalOcean team is already connected as %s")
    existing ← lookup (profile_ref digital_ocean name)
    require (binding_fits account existing)
        (new_error "conflict" "credential profile is bound to a different DigitalOcean team")
    as_default ← query (λ w. ok (becomes_default make_default existing w.rows))
    time ← read_clock vault
    stored ←
        store_token store_secret
          (connected_profile (profile_ref digital_ocean name) name account time as_default
            (existing_profile existing))
          token
    finish_connect (existing_profile existing).credential_key stored

  unfoldable pub connect : String → String → Bool → Bool → Managing R Profile
  connect name token store_secret make_default = do
    require (matches_profile_name (codes name))
        (new_error "invalid_input" "credential profile name must be a lowercase slug")
    require (valid_digital_ocean_token (trim_space token))
        (new_error "invalid_input" "DigitalOcean personal access token must begin with dop_v1_")
    account ← on_env (vault.verify (trim_space token))
    connect_account name (trim_space token) store_secret make_default account
