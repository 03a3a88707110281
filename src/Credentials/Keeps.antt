-- ===== src/Credentials/Keeps.antt =====
-- The steps of the Manager of internal/credentials/credentials.go that do not save leave the stored
-- profiles as they are.
use Prim.Native.String.{String}
use schooner.Prelude.{Bool, true, false, List, ◌==◌, ◌!=◌, string_eq}
use schooner.Prelude.Results.{Result, ok, Outcome, done, fail, M, pure, throw, query, Holds, Kept}
use schooner.Prelude.Steps.{Kept-bind, Kept-if, Kept-query}
use schooner.Box.Types.{Error, new_error}
use schooner.Credentials.{Profile, ResolvedCredential, valid_digital_ocean_token}
use schooner.Credentials.Manager.{
  Vault, Manager, Managing, on_env, require, read_clock, set_ephemeral, delete_stored,
}
use schooner.Credentials.Resolve.{
  selected_profile, resolve_token, stored_token, resolve_keyring, resolve_stored, resolve_selected,
}
use schooner.Credentials.Connect.{delete_quietly, forget_secret}

module _ {R : Type 0} (Z : List Profile → Type 0) where
  abbrev pub IsGood : Manager R → Type 0
  IsGood w = Z w.rows

  abbrev pub Keeps : {A : Type 0} → Managing R A → Type 0
  Keeps m = Kept IsGood m

  pub pure-Keeps : {A : Type 0} (a : A) → Keeps (pure {W = Manager R} {E = Error} a)
  pure-Keeps a w h = h

  pub throw-Keeps : (e : Error) → Keeps {A = Unit {0}} (throw e)
  throw-Keeps e w h = h

  pub query-Keeps : {A : Type 0} (f : Manager R → Result Error A) → Keeps (query f)
  query-Keeps f = Kept-query IsGood f

  pub env-Keeps : {A : Type 0} (m : M R Error A) → Keeps {A = A} (on_env m)
  env-Keeps {A} m w h = finish (m w.env)
    where
      finish :
          (r : Outcome R Error A)
          → Holds
              (elim r as (λ x. Outcome (Manager R) Error A) [
                | done x v ↦ done x (record w { env = v })
                | fail e v ↦ fail e (record w { env = v })
              ])
              (λ a v. IsGood v)
              (λ e v. IsGood v)
      finish (done x v) = h
      finish (fail e v) = h

  pub require-Keeps : (b : Bool) (e : Error) → Keeps (require {R = R} b e)
  require-Keeps true e w h = h
  require-Keeps false e w h = h

  pub ephemeral-Keeps : (ref token : String) → Keeps (set_ephemeral {R = R} ref token)
  ephemeral-Keeps ref token w h = h

  selected_profile-Keeps : (requested : String) → Keeps (selected_profile requested)
  unfolding selected_profile
  selected_profile-Keeps requested =
      Kept-if IsGood (requested != "") _ _ (query-Keeps _) (query-Keeps _)

module _ {R : Type 0} (vault : Vault R) (Z : List Profile → Type 0) where
  pub clock-Keeps : Keeps Z (read_clock vault)
  clock-Keeps w h = h

  pub delete-Keeps : (key : String) → Keeps Z (delete_stored vault key)
  delete-Keeps key w h = finish (vault.delete_secret key w.env)
    where
      finish :
          (r : Outcome R Error (Unit {0}))
          → Holds
              (elim r as (λ x. Outcome (Manager R) Error (Unit {0})) [
                | done x v ↦ done tt (record w { env = v })
                | fail e v ↦
                    fail
                      (new_error "internal"
                        "could not remove credential from operating-system storage")
                      (record w { env = v })
              ])
              (λ a v. (IsGood Z) v)
              (λ e v. (IsGood Z) v)
      finish (done x v) = h
      finish (fail e v) = h

  resolve_token-Keeps :
      (p : Profile) (token source : String) → Keeps Z (resolve_token vault p token source)
  unfolding resolve_token
  resolve_token-Keeps p token source =
      Kept-bind (IsGood Z) (on_env (vault.identify token)) _ (env-Keeps Z (vault.identify token))
        (λ account.
          Kept-bind (IsGood Z) (require (account.external_id == p.external_id) _) _
            (require-Keeps Z _ _)
            (λ x.
              let credential : ResolvedCredential = record {
                profile = p.ref;
                token = token;
                account = account;
                source = source;
              } in
              pure-Keeps Z credential))

  resolve_keyring-Keeps : (p : Profile) → Keeps Z (resolve_keyring vault p)
  unfolding resolve_keyring
  resolve_keyring-Keeps p =
      Kept-bind (IsGood Z) (require (p.credential_key != "") _) _ (require-Keeps Z _ _) (λ x.
        Kept-bind (IsGood Z) (query (stored_token vault p)) _ (query-Keeps Z _) (λ token.
          Kept-bind (IsGood Z) (require (token != "") _) _ (require-Keeps Z _ _) (λ y.
            Kept-bind (IsGood Z) (require (valid_digital_ocean_token token) _) _
              (require-Keeps Z _ _) (λ z. resolve_token-Keeps p token "keyring"))))

  pub resolve_selected-Keeps : (requested : String) → Keeps Z (resolve_selected vault requested)
  unfolding resolve_selected
  resolve_selected-Keeps requested =
      Kept-bind (IsGood Z) (selected_profile requested) _ (selected_profile-Keeps Z requested) (λ p.
        Kept-bind (IsGood Z) (query (λ w. ok (w.ephemeral p.ref))) (resolve_stored vault p)
          (query-Keeps Z (λ w. ok (w.ephemeral p.ref)))
          (λ token.
            Kept-if (IsGood Z) (token != "") (resolve_token vault p token "memory")
              (resolve_keyring vault p) (resolve_token-Keeps p token "memory")
              (resolve_keyring-Keeps p)))

  delete_quietly-Keeps : (key : String) → Keeps Z (delete_quietly vault key)
  delete_quietly-Keeps key w h = finish (vault.delete_secret key w.env)
    where
      finish :
          (r : Outcome R Error (Unit {0}))
          → Holds
              (elim r as (λ x. Outcome (Manager R) Error (Unit {0})) [
                | done x v ↦ done tt (record w { env = v })
                | fail e v ↦ done tt (record w { env = v })
              ])
              (λ a v. (IsGood Z) v)
              (λ e v. (IsGood Z) v)
      finish (done x v) = h
      finish (fail e v) = h

  pub forget_secret-Keeps : (key : String) → Keeps Z (forget_secret vault key)
  unfolding forget_secret
  forget_secret-Keeps key =
      Kept-if (IsGood Z) (key == "") (pure tt) (delete_quietly vault key) (λ w h. h)
        (delete_quietly-Keeps key)
