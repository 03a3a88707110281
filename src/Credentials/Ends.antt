-- ===== src/Credentials/Ends.antt =====
-- Every changing call of the Manager of internal/credentials/credentials.go, on each of its paths, over
-- stored profiles that are well-formed and one of which is bound to an account.
use Prim.Native.String.{String}
use schooner.Prelude.{Bool, true, false, ◌&&◌, List, ◌!=◌, string_eq, if◌then◌else◌}
use schooner.Prelude.Results.{ok, Outcome, done, fail, pure, throw, query, Holds}
use schooner.Prelude.Steps.{Kept-bind, Kept-if}
use schooner.Box.Types.{Error, new_error}
use schooner.Acquisition.Types.{digital_ocean}
use schooner.Prelude.Text.{codes}
use schooner.Credentials.{
  profile_ref, Profile, Account, trim_space, valid_digital_ocean_token, matches_profile_name,
}
use schooner.Credentials.Rows.{save_credential_profile}
use schooner.Credentials.Manager.{
  Vault, Manager, on_env, require, read_clock, set_ephemeral, lookup, disconnect, put_token,
}
use schooner.Credentials.Resolve.{resolve_profile_credential}
use schooner.Credentials.Connect.{
  connected_profile, existing_profile, binding_fits, becomes_default, account_free,
  connected_status, keep_token, store_token, forget_secret, take_back, unavailable_warning,
  save_connected, finish_connect, connect_account, connect,
}
use schooner.Prelude.{ℕ, Option, some, ◌≡◌, ◌≢◌, refl, sym, ◌∙◌}
use schooner.Prelude.Results.{Holds-bind, Holds-if, Holds-imp, ◌>>=◌}
use schooner.Prelude.Steps.{after_step}
use schooner.Credentials.Keeps.{
  Keeps, env-Keeps, require-Keeps, query-Keeps, clock-Keeps, ephemeral-Keeps, delete-Keeps,
  forget_secret-Keeps, resolve_selected-Keeps,
}
use schooner.Credentials.Settled.{Good, save_credential_profile-Good}
use schooner.Credentials.Manager.{
  Managing, without_key, disconnected_profile, on_rows, delete_stored,
}
use schooner.Credentials.Resolve.{
  requested_ref, environment_profile, resolve_profile, resolve_environment, resolve_selected,
}
use schooner.Credentials.Rows.{find_credential_profile}
use schooner.Credentials.Bindings.{
  IsExisting, binding_fits-binds, checked_binding-binds, Same, Left, stays, Tells, quiet, asks,
  requires, finds, looks_up, saves,
}
use schooner.Credentials.{ResolvedCredential}
use schooner.Prelude.Steps.{Kept-bind, Kept-if}

-- The calls over rows that are good.
module _ {R : Type 0} (vault : Vault R) (ref e : String) (known : e ≢ "") (rows : List Profile)
    (good : Good ref e rows) where
  unfoldable pub Ends : {A : Type 0} → Managing R A → Type 0
  Ends m =
      (w : Manager R)
      → Same ref e rows good w
      → Holds (m w) (Left ref e rows good) (Left ref e rows good)

  abbrev At : List Profile → Type 0
  At v = v ≡ rows

  step :
      {A B : Type 0} (T : A → Type 0) (m : Managing R A) (f : A → Managing R B)
      → Tells ref e rows good T m
      → ((a : A) → T a → Ends (f a))
      → Ends (m >>= f)
  unfolding Ends
  step T m f hm hf =
      after_step (Same ref e rows good) (Left ref e rows good) T (Left ref e rows good) m f hm hf

  proceed :
      {A B : Type 0} (m : Managing R A) (f : A → Managing R B)
      → Keeps At m
      → ((a : A) → Ends (f a))
      → Ends (m >>= f)
  proceed m f kept hf = step (λ a. Unit {0}) m f (quiet ref e rows good m kept) (λ a t. hf a)

  save_then :
      {B : Type 0} (p : Profile) (b : B)
      → (p.ref ≡ ref → p.external_id ≡ e)
      → Ends (on_rows {R = R} (save_credential_profile p) >>= λ x. pure b)
  unfolding Ends
  save_then p b fits w same =
      Holds-bind (Left ref e rows good) (Left ref e rows good) (Left ref e rows good)
        (on_rows (save_credential_profile p)) (λ x. pure b) w (saves ref e rows good p fits w same)
        (λ x v g. g)

  pub disconnect-Ends : (asked : String) → Ends (disconnect vault asked)
  unfolding disconnect
  disconnect-Ends asked =
      step (λ p. IsExisting ref e asked (some p))
        (query (λ w. find_credential_profile asked w.rows)) _ (finds ref e rows good asked)
        (λ p (at_asked, bound).
          proceed (if p.credential_key != "" then delete_stored vault p.credential_key else pure tt)
            _
            (Kept-if _ (p.credential_key != "") _ _ (delete-Keeps vault At p.credential_key)
              (λ w h. h))
            (λ x. proceed (set_ephemeral asked "") _ (ephemeral-Keeps At asked "") (λ y.
              proceed (read_clock vault) _ (clock-Keeps vault At) (λ time.
                save_then (without_key p time) (disconnected_profile p time)
                  (λ at_ref. bound (sym at_asked ∙ at_ref))))))

  resolve_profile-Tells :
      (asked : String) (account : Account)
      → Tells {R = R} ref e rows good
          (λ found.
            (time : ℕ)
            → (environment_profile asked account time found).ref ≡ ref
            → (environment_profile asked account time found).external_id ≡ e)
          (resolve_profile asked account)
  unfolding resolve_profile
  resolve_profile-Tells asked account =
      let T = λ (found : Option Profile).
        (time : ℕ)
        → (environment_profile asked account time found).ref ≡ ref
        → (environment_profile asked account time found).external_id ≡ e in
      after_step (Same ref e rows good) (Left ref e rows good) (IsExisting ref e asked)
        (λ a v. T a × Same ref e rows good v) (lookup asked) _ (looks_up ref e rows good asked)
        (λ found existing. asks ref e rows good T _ (λ w a same h time.
          checked_binding-binds ref e known account asked found a time existing h))

  resolve_environment-Ends :
      (token requested : String) → Ends (resolve_environment vault token requested)
  unfolding resolve_environment
  resolve_environment-Ends token requested =
      proceed (require (valid_digital_ocean_token token) _) _ (require-Keeps At _ _) (λ x.
        proceed (on_env (vault.identify token)) _ (env-Keeps At (vault.identify token)) (λ account.
          proceed (query (λ w. ok (requested_ref requested w.rows))) _
            (query-Keeps At (λ w. ok (requested_ref requested w.rows)))
            (λ asked.
              step
                (λ found.
                  (time : ℕ)
                  → (environment_profile asked account time found).ref ≡ ref
                  → (environment_profile asked account time found).external_id ≡ e)
                (resolve_profile asked account) _ (resolve_profile-Tells asked account)
                (λ found fits. proceed (read_clock vault) _ (clock-Keeps vault At) (λ time.
                  let credential : ResolvedCredential = record {
                    profile = asked;
                    token = token;
                    account = account;
                    source = "environment";
                  } in
                  save_then (environment_profile asked account time found) credential
                    (fits time))))))

  pub resolve_profile_credential-Ends :
      (requested : String) → Ends (resolve_profile_credential vault requested)
  unfolding resolve_profile_credential Ends
  resolve_profile_credential-Ends requested w same =
      let token = trim_space (vault.environment_token w.env) in
      Holds-if (Left ref e rows good) (Left ref e rows good) (token != "")
        (resolve_environment vault token requested) (resolve_selected vault requested) w
        (λ given. resolve_environment-Ends token requested w same)
        (λ missing.
          Holds-imp (λ a v. v.rows ≡ rows) (Left ref e rows good) (λ x v. v.rows ≡ rows)
            (Left ref e rows good) (resolve_selected vault requested w)
            (λ a v. stays ref e rows good a v) (λ x v. stays ref e rows good x v)
            (resolve_selected-Keeps vault At requested w same))

  -- A token is stored without moving the profile.
  abbrev IsStoredAs : Profile → Profile × String → Type 0
  IsStoredAs p (q, key) = (q.ref ≡ p.ref) × (q.external_id ≡ p.external_id)

  keep_token-Tells :
      (p : Profile) (token key : String)
      → Tells ref e rows good (IsStoredAs p) (keep_token vault p token key)
  unfolding keep_token
  keep_token-Tells p token key w same = finish (vault.set_secret key token w.env)
    where
      finish :
          (r : Outcome R Error (Unit {0}))
          → Holds
              (elim r as (λ x. Outcome (Manager R) Error (Profile × String)) [
                | done x v ↦ done (record p { credential_key = key }, key) (record w { env = v })
                | fail x v ↦
                    done
                      (record p { warning = unavailable_warning }, "")
                      (record w { env = v; ephemeral = put_token p.ref token w.ephemeral })
              ])
              (λ a v. IsStoredAs p a × Same ref e rows good v)
              (Left ref e rows good)
      finish (done x v) = ((refl, refl), same)
      finish (fail x v) = ((refl, refl), same)

  store_token-Tells :
      (b : Bool) (p : Profile) (token : String)
      → Tells ref e rows good (IsStoredAs p) (store_token vault b p token)
  unfolding store_token
  store_token-Tells false p token w same = ((refl, refl), same)
  store_token-Tells true p token w same = finish (vault.new_credential_key w.env)
    where
      finish :
          (r : Outcome R Error String)
          → Holds
              (elim r as (λ x. Outcome (Manager R) Error (Profile × String)) [
                | done key v ↦ keep_token vault p token key (record w { env = v })
                | fail x v ↦
                    fail
                      (new_error "internal" "could not create credential reference")
                      (record w { env = v })
              ])
              (λ a v. IsStoredAs p a × Same ref e rows good v)
              (Left ref e rows good)
      finish (done key v) = keep_token-Tells p token key (record w { env = v }) same
      finish (fail x v) = stays ref e rows good x (record w { env = v }) same

  -- What follows the save leaves the rows.
  abbrev Rests : {A : Type 0} → Managing R A → Type 0
  Rests m = Keeps (Good ref e) m

  take_back-Rests : (p : Profile) (key : String) (x : Error) → Rests (take_back vault p key x)
  take_back-Rests p key x =
      Kept-bind _ (forget_secret vault key) _ (forget_secret-Keeps vault (Good ref e) key) (λ y.
        Kept-bind _ (set_ephemeral p.ref "") (λ z. throw {A = Unit {0}} x)
          (ephemeral-Keeps (Good ref e) p.ref "") (λ z w h. h))

  save_connected-Ends :
      (p : Profile) (key : String)
      → (p.ref ≡ ref → p.external_id ≡ e)
      → Ends (save_connected vault p key)
  unfolding save_connected Ends
  save_connected-Ends p key fits w same =
      finish (save_credential_profile p w.rows)
        (save_credential_profile-Good ref e p w.rows fits (stays ref e rows good p w same))
    where
      finish :
          (r : Outcome (List Profile) Error (Unit {0}))
          → Holds r (λ x v. Good ref e v) (λ x v. Good ref e v)
          → Holds
              (elim r as (λ x. Outcome (Manager R) Error (Unit {0})) [
                | done x v ↦ done tt (record w { rows = v })
                | fail x v ↦ take_back vault p key x (record w { rows = v })
              ])
              (Left ref e rows good)
              (Left ref e rows good)
      finish (done x v) g = g
      finish (fail x v) g = take_back-Rests p key x (record w { rows = v }) g

  finish_connect-Ends :
      (old_key : String) (p : Profile) (stored : Profile × String)
      → (p.ref ≡ ref → p.external_id ≡ e)
      → IsStoredAs p stored
      → Ends (finish_connect vault old_key stored)
  unfolding finish_connect Ends
  finish_connect-Ends old_key p (q, key) fits (at_ref, bound) w same =
      Holds-bind (Left ref e rows good) (Left ref e rows good) (Left ref e rows good)
        (save_connected vault q key) _ w
        (save_connected-Ends q key (λ here. bound ∙ fits (sym at_ref ∙ here)) w same)
        (λ x v g.
          Kept-bind _ (if key != "" then set_ephemeral q.ref "" else pure tt) _
            (Kept-if _ (key != "") _ _ (ephemeral-Keeps (Good ref e) q.ref "") (λ w h. h))
            (λ y.
              Kept-bind _
                (if key != "" && old_key != key then forget_secret vault old_key else pure tt) _
                (Kept-if _ (key != "" && old_key != key) _ _
                  (forget_secret-Keeps vault (Good ref e) old_key) (λ w h. h))
                (λ z. query-Keeps (Good ref e) (λ w. ok (connected_status w q))))
            v g)

  connect_account-Ends :
      (name token : String) (store default : Bool) (account : Account)
      → Ends (connect_account vault name token store default account)
  unfolding connect_account
  connect_account-Ends name token store default account =
      let asked = profile_ref digital_ocean name in
      proceed (query (λ w. ok (account_free account asked w.rows))) _
        (query-Keeps At (λ w. ok (account_free account asked w.rows)))
        (λ free.
          proceed
            (require free
              (new_error "conflict" "this DigitalOcean team is already connected as %s"))
            _ (require-Keeps At free _)
            (λ x.
              step (IsExisting ref e asked) (lookup asked) _ (looks_up ref e rows good asked)
                (λ found existing.
                  step (λ u. binding_fits account found ≡ true)
                    (require (binding_fits account found) (
                      new_error "conflict"
                        "credential profile is bound to a different DigitalOcean team"))
                    _ (requires ref e rows good (binding_fits account found) _)
                    (λ y fit.
                      proceed (query (λ w. ok (becomes_default default found w.rows))) _
                        (query-Keeps At (λ w. ok (becomes_default default found w.rows)))
                        (λ as_default. proceed (read_clock vault) _ (clock-Keeps vault At) (λ time.
                          let p =
                            connected_profile asked name account time as_default
                              (existing_profile found) in
                          step (IsStoredAs p) (store_token vault store p token)
                            (finish_connect vault (existing_profile found).credential_key)
                            (store_token-Tells store p token)
                            (λ stored as_stored.
                              finish_connect-Ends (existing_profile found).credential_key p stored
                                (binding_fits-binds ref e known account asked found existing fit)
                                as_stored)))))))

  pub connect-Ends :
      (name token : String) (store default : Bool) → Ends (connect vault name token store default)
  unfolding connect
  connect-Ends name token store default =
      proceed (require (matches_profile_name (codes name)) _) _ (require-Keeps At _ _) (λ x.
        proceed (require (valid_digital_ocean_token (trim_space token)) _) _ (require-Keeps At _ _)
          (λ y.
            proceed (on_env (vault.verify (trim_space token))) _
              (env-Keeps At (vault.verify (trim_space token)))
              (connect_account-Ends name (trim_space token) store default)))
