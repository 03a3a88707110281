-- ===== src/Credentials/Tests.antt =====
-- Profiles of internal/credentials/credentials.go with a secret store that is a function of the key.
use Prim.Native.String.{String}
use schooner.Prelude.{
  ℕ, Bool, true, false, List, [], ◌∷◌, Option, none, some, ◌==◌, string_eq, ◌≡◌, ◌⊎◌, ◌↔◌, refl,
  inl, inr, if◌then◌else◌, Mem, ==-refl, ne_of_test, ◌≢◌,
}
use schooner.Prelude.Results.{ok, err, done, fail, Holds}
use schooner.Prelude.Text.{codes}
use schooner.Credentials.{
  no_status, status_action_required, Profile, Account, parse_ref, valid_digital_ocean_token,
}
use schooner.Credentials.Settled.{Good}
use schooner.Credentials.Manager.{Vault, Manager, disconnect}
use schooner.Credentials.Resolve.{resolve_profile_credential}
use schooner.Credentials.Reach.{
  call_connect, call_resolve, call_disconnect, ManagerCall, run_manager, run_manager-Good,
}
use schooner.Credentials.Bound.{IsBound, resolve_profile_credential-IsBound}
use schooner.Credentials.Forgotten.{HasNoKey, WasForgotten, disconnect-IsForgotten}
use schooner.Credentials.Refs.{IsToken, IsRef, valid_digital_ocean_token_iff, parse_ref_iff}

abbrev token : String
token = "dop_v1_0123456789abcdef0123456789abcdef"

abbrev team : Account
team = record { external_id = "team-1"; name = "Team"; email = "me@example.com" }

abbrev personal : Profile
personal = record {
  ref = "digitalocean/personal";
  provider = "digitalocean";
  name = "personal";
  external_id = "team-1";
  account_name = "Team";
  account_email = "me@example.com";
  credential_key = "key-1";
  is_default = true;
  created_at = 1;
  updated_at = 1;
  status = no_status;
  warning = "";
}

abbrev Secrets : Type 0
Secrets = String → String

abbrev vault : Vault Secrets
vault = record {
  verify = λ t r. done team r;
  identify = λ t r. done team r;
  environment_token = λ r. "";
  now = λ r. (7, r);
  get_secret = λ key r. ok (r key);
  set_secret = λ key value r. done tt (λ asked. if asked == key then value else r asked);
  delete_secret = λ key r. done tt (λ asked. if asked == key then "" else r asked);
  new_credential_key = λ r. done "key-2" r;
}

abbrev managing : List Profile → Manager Secrets
managing rows = record {
  rows = rows;
  env = λ key. if key == "key-1" then token else "";
  ephemeral = λ ref. "";
}

abbrev IsTeam : String → Account → Type 0
IsTeam t account = account ≡ team

abbrev IsGone : String → Secrets → Type 0
IsGone key r = r key ≡ ""

abbrev calls : List ManagerCall
calls =
    call_connect "personal" token true false
    ∷ call_connect "work" token true true
    ∷ call_resolve ""
    ∷ call_disconnect "digitalocean/personal"
    ∷ []

-- Another team owns the token now.
abbrev moved : Vault Secrets
moved = record vault {
  verify = λ t r. done (record team { external_id = "team-2" }) r;
  identify = λ t r. done (record team { external_id = "team-2" }) r;
}

personal-Good : Good "digitalocean/personal" "team-1" (personal ∷ [])
unfolding schooner.Prelude.Table.find
personal-Good = (
  record {
    refs = (tt, tt);
    names = (tt, tt);
    accounts = (tt, tt);
    defaults = ((λ e. tt), tt);
    providers = (refl, tt);
  },
  (personal, refl, refl),
)

team_known : team.external_id ≢ ""
team_known = ne_of_test "team-1" "" refl

run_manager-Good_example :
    Good "digitalocean/personal" "team-1" (run_manager moved calls (managing (personal ∷ []))).rows
run_manager-Good_example =
    run_manager-Good moved "digitalocean/personal" "team-1" team_known calls
      (managing (personal ∷ [])) personal-Good

resolve_profile_credential-IsBound_example :
    Holds
      (resolve_profile_credential vault "digitalocean/personal" (managing (personal ∷ [])))
      (IsBound IsTeam)
      (λ e v. v.rows ≡ personal ∷ [])
resolve_profile_credential-IsBound_example =
    resolve_profile_credential-IsBound IsTeam vault (λ t r. refl) "digitalocean/personal"
      (managing (personal ∷ [])) (λ ref given. absurd (given refl))

resolve_test :
    elim (resolve_profile_credential vault "digitalocean/personal" (managing (personal ∷ [])))
      as (λ x. String) [ done credential w ↦ credential.source | fail e w ↦ "" ]
    ≡ "keyring"
unfolding resolve_profile_credential schooner.Credentials.trim_space schooner.Credentials.trim_right
    schooner.Credentials.trim_left schooner.Credentials.Resolve.resolve_selected
    schooner.Credentials.Resolve.selected_profile schooner.Credentials.Rows.find_credential_profile
    schooner.Prelude.Table.find schooner.Credentials.Resolve.resolve_keyring
    valid_digital_ocean_token schooner.Credentials.Resolve.resolve_token
resolve_test = refl

disconnect-IsForgotten_example :
    Holds
      (disconnect vault "digitalocean/personal" (managing (personal ∷ [])))
      (λ p v.
        (p.status ≡ status_action_required)
        × (v.ephemeral "digitalocean/personal" ≡ "")
        × HasNoKey "digitalocean/personal" v.rows
        × WasForgotten IsGone "digitalocean/personal" (personal ∷ []) v.env)
      (λ e v. v.rows ≡ personal ∷ [])
disconnect-IsForgotten_example =
    disconnect-IsForgotten IsGone vault (λ key r. rw (==-refl key) refl) (λ key r gone. gone)
      "digitalocean/personal" (managing (personal ∷ []))

valid_digital_ocean_token_iff_example :
    (valid_digital_ocean_token token ≡ true) ↔ IsToken (codes token)
valid_digital_ocean_token_iff_example = valid_digital_ocean_token_iff token

parse_ref_iff_example :
    (parse_ref "digitalocean/personal" ≡ ok "digitalocean/personal")
    ↔ IsRef (codes "digitalocean/personal")
parse_ref_iff_example = parse_ref_iff "digitalocean/personal"

parse_ref_test :
    parse_ref "digitalocean/a/b" ≡ err "credential profile must look like digitalocean/personal"
unfolding parse_ref schooner.Prelude.Text.split
parse_ref_test = refl
