-- ===== src/Credentials/Bound.antt =====
-- What Resolve of internal/credentials/credentials.go returns.
use Prim.Native.String.{String}
use mathlib.Core.Path.{subst}
use schooner.Prelude.{
  ℕ, Bool, true, false, ◌&&◌, List, Option, none, some, ◌==◌, ◌!=◌, string_eq, ◌≡◌, ◌≢◌, refl, inl,
  inr, if◌then◌else◌, arith, Bool-cases, All-of_Mem, All-Mem, Mem, eq_of_==, ne_of_test, sym, ◌∙◌,
  ap,
}
use schooner.Prelude.Results.{
  ok, err, Outcome, done, fail, pure, query, Holds, Holds-bind, Holds-if,
}
use schooner.Prelude.Steps.{Advances, after_step, query-Advances}
use schooner.Prelude.Table.{find, find_passes}
use schooner.Prelude.Table.Found.{find-Mem}
use schooner.Prelude.Sort.{sort-All}
use schooner.Box.Types.{Error, is_not_found, BoxResult}
use schooner.Credentials.{
  Profile, Account, ResolvedCredential, trim_space, valid_digital_ocean_token,
}
use schooner.Credentials.Rows.{
  by_ref, referred, scan_profile, list_credential_profiles, find_credential_profile,
  save_credential_profile,
}
use schooner.Credentials.Manager.{
  Vault, Manager, Managing, on_env, on_rows, require, read_clock, found_or_none, lookup,
  is_default_profile,
}
use schooner.Credentials.Resolve.{
  selected_profile, requested_ref, checked_binding, resolve_profile, environment_profile,
  resolve_environment, resolve_token, resolve_keyring, resolve_stored, resolve_selected,
  resolve_profile_credential, the_default, stored_token,
}
use schooner.Credentials.Written.{IsWritten, save_credential_profile-IsWritten}

-- A row of the reference is bound to the account.
abbrev pub HasRow : String → String → List Profile → Type 0
HasRow ref external_id rows =
    (row : Profile) × Mem row rows × (row.ref ≡ ref) × (row.external_id ≡ external_id)

module _ {R : Type 0} (Identified : String → Account → Type 0) where
  -- The credential is of a stored profile's account, and its token is well-formed and was identified
  -- as this account.
  abbrev pub IsBound : ResolvedCredential → Manager R → Type 0
  IsBound c w =
      HasRow c.profile c.account.external_id w.rows
      × (valid_digital_ocean_token c.token ≡ true)
      × Identified c.token c.account

module _ {R : Type 0} (Identified : String → Account → Type 0) (vault : Vault R)
    (identifies : (token : String) (r : R)
      → Holds (vault.identify token r) (λ a v. Identified token a) (λ e v. Unit {0}))
    (rows : List Profile) (ephemeral : String → String) where
  abbrev Same : Manager R → Type 0
  Same w = (w.rows ≡ rows) × (w.ephemeral ≡ ephemeral)

  abbrev Left : Error → Manager R → Type 0
  Left e w = w.rows ≡ rows

  abbrev Goes : {A : Type 0} → (A → Type 0) → Managing R A → Type 0
  Goes T m = Advances Same Left T m

  abbrev Resolves : Managing R ResolvedCredential → Type 0
  Resolves m = (w : Manager R) → Same w → Holds (m w) (IsBound Identified) Left

  identify-Goes : (token : String) → Goes (Identified token) (on_env (vault.identify token))
  identify-Goes token w p = finish (vault.identify token w.env) (identifies token w.env)
    where
      finish :
          (r : Outcome R Error Account)
          → Holds r (λ a v. Identified token a) (λ e v. Unit {0})
          → Holds
              (elim r as (λ x. Outcome (Manager R) Error Account) [
                | done x v ↦ done x (record w { env = v })
                | fail e v ↦ fail e (record w { env = v })
              ])
              (λ a v. Identified token a × Same v)
              Left
      finish (done a v) told = (told, p)
      finish (fail e v) told = p.0

  require-Goes : (b : Bool) (e : Error) → Goes (λ x. b ≡ true) (require b e)
  require-Goes true e w p = (refl, p)
  require-Goes false e w p = p.0

  query-Goes :
      {A : Type 0} (T : A → Type 0) (f : Manager R → BoxResult A)
      → ((w : Manager R) (a : A) → Same w → f w ≡ ok a → T a)
      → Goes T (query f)
  query-Goes T f tells = query-Advances Same Left T f tells (λ e w p. p.0)

  resolve_token-Resolves :
      (p : Profile) (token source : String)
      → Mem p rows
      → valid_digital_ocean_token token ≡ true
      → Resolves (resolve_token vault p token source)
  unfolding resolve_token
  resolve_token-Resolves p token source within valid =
      after_step Same Left _ (IsBound Identified) (on_env (vault.identify token)) _
        (identify-Goes token)
        (λ account told.
          after_step Same Left _ (IsBound Identified)
            (require (account.external_id == p.external_id) _) _
            (require-Goes (account.external_id == p.external_id) _)
            (λ x same w q.
              ((p, subst (Mem p) (sym q.0) within, refl, sym (eq_of_== same)), valid, told)))

  resolve_keyring-Resolves : (p : Profile) → Mem p rows → Resolves (resolve_keyring vault p)
  unfolding resolve_keyring
  resolve_keyring-Resolves p within =
      after_step Same Left _ (IsBound Identified) (require (p.credential_key != "") _) _
        (require-Goes (p.credential_key != "") _)
        (λ x keyed.
          after_step Same Left (λ t. Unit {0}) (IsBound Identified) (query (stored_token vault p)) _
            (query-Goes (λ t. Unit {0}) (stored_token vault p) (λ w a q e. tt))
            (λ token t.
              after_step Same Left _ (IsBound Identified) (require (token != "") _) _
                (require-Goes (token != "") _)
                (λ y given.
                  after_step Same Left _ (IsBound Identified)
                    (require (valid_digital_ocean_token token) _) _
                    (require-Goes (valid_digital_ocean_token token) _)
                    (λ z valid. resolve_token-Resolves p token "keyring" within valid))))

  selected_profile-Goes : (requested : String) → Goes (λ p. Mem p rows) (selected_profile requested)
  unfolding selected_profile list_credential_profiles find_credential_profile
  selected_profile-Goes requested w p =
      Holds-if (λ a v. Mem a rows × Same v) Left (requested != "") _ _ w
        (λ e.
          query-Goes (λ a. Mem a rows) _
            (λ v a q found. subst (Mem a) q.0 (
              of_scan v.rows (find (referred requested) v.rows) a
                (λ b same. find-Mem (referred requested) v.rows same) found))
            w p)
        (λ e.
          query-Goes (λ a. Mem a rows) _
            (λ v a q found. subst (Mem a) q.0 (
              of_default v.rows _ a
                (λ b same.
                  All-Mem (λ c. Mem c v.rows) b (list_credential_profiles v.rows)
                    (sort-All by_ref (λ c. Mem c v.rows) v.rows (All-of_Mem _ v.rows (λ c m. m)))
                    (find-Mem is_default_profile _ same))
                found))
            w p)
    where
      of_scan :
          (values : List Profile) (o : Option Profile) (a : Profile)
          → ((b : Profile) → o ≡ some b → Mem b values)
          → scan_profile o requested ≡ ok a
          → Mem a values
      of_scan values none a within found = absurd (ground arith)
      of_scan values (some b) a within found = within a (ground arith)

      of_default :
          (values : List Profile) (o : Option Profile) (a : Profile)
          → ((b : Profile) → o ≡ some b → Mem b values)
          → the_default o ≡ ok a
          → Mem a values
      of_default values none a within found = absurd (ground arith)
      of_default values (some b) a within found = within a (ground arith)

  resolve_selected-Resolves :
      ((ref : String) → ephemeral ref ≢ "" → valid_digital_ocean_token (ephemeral ref) ≡ true)
      → (requested : String) → Resolves (resolve_selected vault requested)
  unfolding resolve_selected
  resolve_selected-Resolves valid requested =
      after_step Same Left _ (IsBound Identified) (selected_profile requested) _
        (selected_profile-Goes requested)
        (λ p within.
          after_step Same Left (λ token. token ≡ ephemeral p.ref) (IsBound Identified)
            (query (λ w. ok (w.ephemeral p.ref))) (resolve_stored vault p)
            (query-Goes (λ token. token ≡ ephemeral p.ref) (λ w. ok (w.ephemeral p.ref))
              (λ w token q e.
                let read : w.ephemeral p.ref ≡ token = ground arith in
                sym read ∙ ap (λ f. f p.ref) q.1))
            (λ token same w q.
              Holds-if (IsBound Identified) Left (token != "")
                (resolve_token vault p token "memory") (resolve_keyring vault p) w
                (λ given.
                  let there : token ≢ "" = ne_of_test token "" (ground arith) in
                  resolve_token-Resolves p token "memory" within
                    (rw same (valid p.ref (λ z. there (same ∙ z)))) w q)
                (λ missing. resolve_keyring-Resolves p within w q)))

  -- A lookup finds nothing or a profile of the reference.
  IsOf : String → Option Profile → Type 0
  IsOf ref none = Unit {0}
  IsOf ref (some p) = p.ref ≡ ref

  nothing-found :
      (b : Bool) (e : Error) (a : Option Profile)
      → ◌≡◌ {A = BoxResult (Option Profile)} (if b then ok none else err e) (ok a)
      → none ≡ a
  nothing-found true e a h = ground arith
  nothing-found false e a h = absurd (ground arith)

  lookup-IsOf :
      (ref : String) (o a : Option Profile)
      → ((p : Profile) → o ≡ some p → p.ref ≡ ref)
      → found_or_none (scan_profile o ref) ≡ ok a
      → IsOf ref a
  unfolding IsOf
  lookup-IsOf ref none a of h = subst (IsOf ref) (nothing-found (is_not_found _) _ a h) tt
  lookup-IsOf ref (some p) a of h =
      let same : some p ≡ a = ground arith in subst (IsOf ref) same (of p refl)

  checked_binding-IsOf :
      (ref : String) (account : Account) (found a : Option Profile)
      → IsOf ref found
      → checked_binding account found ≡ ok a
      → IsOf ref a
  unfolding IsOf
  checked_binding-IsOf ref account none a of h =
      let same : none ≡ a = ground arith in subst (IsOf ref) same tt
  checked_binding-IsOf ref account (some p) a of h =
      elim (Bool-cases (p.external_id != "" && p.external_id != account.external_id)) [
        | inl e ↦ absurd (ground arith)
        | inr e ↦ let same : some p ≡ a = ground arith in subst (IsOf ref) same of
      ]

  resolve_profile-Goes :
      (ref : String) (account : Account) → Goes (IsOf ref) (resolve_profile ref account)
  unfolding resolve_profile IsOf find_credential_profile
  resolve_profile-Goes ref account =
      after_step Same Left (IsOf ref) (λ a v. IsOf ref a × Same v) (lookup ref) _
        (query-Goes (IsOf ref) _ (λ w a q e.
          lookup-IsOf ref (find (referred ref) w.rows) a
            (λ p found. eq_of_== (find_passes (referred ref) w.rows found)) e))
        (λ found of.
          query-Goes (IsOf ref) _ (λ w a q e. checked_binding-IsOf ref account found a of e))

  environment_profile-binds :
      (ref : String) (account : Account) (time : ℕ) (found : Option Profile)
      → IsOf ref found
      → ((environment_profile ref account time found).ref ≡ ref)
        × ((environment_profile ref account time found).external_id ≡ account.external_id)
  unfolding IsOf
  environment_profile-binds ref account time none of = (refl, refl)
  environment_profile-binds ref account time (some p) of = (of, refl)

  save-Holds :
      (ref : String) (account : Account) (p : Profile) (w : Manager R)
      → (p.ref ≡ ref) × (p.external_id ≡ account.external_id)
      → Same w
      → Holds
          (on_rows {R = R} (save_credential_profile p) w)
          (λ x v. HasRow ref account.external_id v.rows)
          Left
  save-Holds ref account p w binds same =
      finish (save_credential_profile p w.rows) (save_credential_profile-IsWritten p w.rows)
    where
      finish :
          (r : Outcome (List Profile) Error (Unit {0}))
          → Holds r (λ x v. IsWritten p v) (λ e v. v ≡ w.rows)
          → Holds
              (elim r as (λ x. Outcome (Manager R) Error (Unit {0})) [
                | done x v ↦ done x (record w { rows = v })
                | fail e v ↦ fail e (record w { rows = v })
              ])
              (λ x v. HasRow ref account.external_id v.rows)
              Left
      finish (done x v) (row, within, r, e, k) = (row, within, r ∙ binds.0, e ∙ binds.1)
      finish (fail e v) kept = kept ∙ same.0

  resolve_environment-Resolves :
      (token requested : String) → Resolves (resolve_environment vault token requested)
  unfolding resolve_environment
  resolve_environment-Resolves token requested =
      after_step Same Left _ (IsBound Identified) (require (valid_digital_ocean_token token) _) _
        (require-Goes (valid_digital_ocean_token token) _)
        (λ x valid.
          after_step Same Left _ (IsBound Identified) (on_env (vault.identify token)) _
            (identify-Goes token)
            (λ account told.
              after_step Same Left (λ ref. Unit {0}) (IsBound Identified)
                (query (λ w. ok (requested_ref requested w.rows))) _
                (query-Goes (λ ref. Unit {0}) (λ w. ok (requested_ref requested w.rows))
                  (λ w ref q e. tt))
                (λ ref t.
                  after_step Same Left _ (IsBound Identified) (resolve_profile ref account) _
                    (resolve_profile-Goes ref account)
                    (λ found of.
                      after_step Same Left (λ time. Unit {0}) (IsBound Identified)
                        (read_clock vault) _ (λ w q. (tt, q))
                        (λ time u w q.
                          let saved = environment_profile ref account time found in
                          let credential : ResolvedCredential = record {
                            profile = ref;
                            token = token;
                            account = account;
                            source = "environment";
                          } in
                          Holds-bind (λ y v. HasRow ref account.external_id v.rows)
                            (IsBound Identified) Left (on_rows (save_credential_profile saved))
                            (λ y. pure credential) w
                            (save-Holds ref account saved w
                              (environment_profile-binds ref account time found of) q)
                            (λ y v row. (row, valid, told)))))))

-- Where the tokens of this process are well-formed, and whatever the provider says of a token holds,
-- Resolve returns a credential only with a stored profile of its reference that is bound to the
-- account of the credential, and with a well-formed token that the provider has identified as this
-- account. It fails with the stored profiles as they were.
pub resolve_profile_credential-IsBound :
    {R : Type 0} (Identified : String → Account → Type 0) (vault : Vault R)
    → ((token : String) (r : R)
        → Holds (vault.identify token r) (λ a v. Identified token a) (λ e v. Unit {0}))
    → (requested : String) (w : Manager R)
    → ((ref : String) → w.ephemeral ref ≢ "" → valid_digital_ocean_token (w.ephemeral ref) ≡ true)
    → Holds
        (resolve_profile_credential vault requested w)
        (IsBound Identified)
        (λ e v. v.rows ≡ w.rows)
unfolding resolve_profile_credential
resolve_profile_credential-IsBound Identified vault identifies requested w valid =
    Holds-if (IsBound Identified) (λ e v. v.rows ≡ w.rows)
      (trim_space (vault.environment_token w.env) != "") _ _ w
      (λ given.
        resolve_environment-Resolves Identified vault identifies w.rows w.ephemeral
          (trim_space (vault.environment_token w.env)) requested w (refl, refl))
      (λ missing.
        resolve_selected-Resolves Identified vault identifies w.rows w.ephemeral valid requested w
          (refl, refl))
