-- ===== src/Credentials/Valid.antt =====
-- The constraints on the rows of the credential profiles, and that a save keeps them.
use mathlib.Core.Path.{subst}
use schooner.Prelude.{
  Bool, true, false, ◌&&◌, ◌||◌, List, [], ◌∷◌, ◌++◌, some, ◌==◌, ◌!=◌, string_eq, ◌≡◌, ◌≢◌, refl,
  inl, inr, if◌then◌else◌, arith, Bool-cases, Option-cases, All, All-append, eq_of_==, sym, ◌∙◌,
}
use schooner.Prelude.Results.{Kept}
use schooner.Prelude.Table.{exists, update, All-imp, All-update}
use schooner.Prelude.Table.Unique.{
  Distinct, Distinct-append, Distinct-update, AtMostOne, AtMostOne-append,
}
use schooner.Prelude.Table.Found.{All-both, All-update_cases}
use schooner.Prelude.Table.Keyed.{
  None-absent, AtMostOne-unset, AtMostOne-of_key, Distinct-set, Distinct-append_free,
}
use schooner.Acquisition.Types.{digital_ocean}
use schooner.Credentials.{Profile}
use schooner.Credentials.Rows.{
  referred, profile_row, defaults_of_others, updated_from, is_taken, is_named, write_profile,
  clear_defaults, save_credential_profile,
}

pub record AreValid (rows : List Profile) : Type 0 where
  pub refs : Distinct (λ p. p.ref) rows
  pub names : Distinct (λ p. p.name) rows
  pub accounts : Distinct (λ p. p.external_id) rows
  pub defaults : AtMostOne (λ p. p.is_default) rows
  pub providers : All (λ p. p.provider ≡ digital_ocean) rows

clear_defaults-AreValid :
    (p : Profile) (rows : List Profile) → AreValid rows → AreValid (clear_defaults p rows)
clear_defaults-AreValid p rows h = cleared p.is_default
  where
    off : Profile → Profile
    off row = record row { is_default = false }

    cleared :
        (b : Bool)
        → AreValid (
            if b
            then update (defaults_of_others p) (λ row. record row { is_default = false }) rows
            else rows)
    cleared true = record {
      refs = Distinct-update _ (defaults_of_others p) _ rows (λ x t. refl) h.refs;
      names = Distinct-update _ (defaults_of_others p) _ rows (λ x t. refl) h.names;
      accounts = Distinct-update _ (defaults_of_others p) _ rows (λ x t. refl) h.accounts;
      defaults = AtMostOne-unset _ (defaults_of_others p) _ rows (λ x. refl) h.defaults;
      providers = All-update _ (defaults_of_others p) _ rows (λ x t e. e) h.providers;
    }
    cleared false = h

-- A row that another reference has does not take the account or the default mark.
module _ (p : Profile) (rows : List Profile) (h : AreValid rows)
    (provider : p.provider ≡ digital_ocean) (free : exists (is_taken p) rows ≡ false) where
  others_free :
      All
        (λ row.
          (row.ref == p.ref) ≡ false
          → (row.external_id ≢ p.external_id) × ((p.is_default && row.is_default) ≡ false))
        rows
  others_free =
      All-both _ _ _ rows
        (λ row taken same other.
          let near : (row.provider == p.provider) ≡ true =
            (string_eq.test_iff row.provider p.provider).1 (same ∙ sym provider) in
          (
            (λ e. absurd (ground (arith, string_eq.test_iff row.external_id p.external_id))),
            ground arith,
          ))
        (None-absent (is_taken p) rows free) h.providers

  update-AreValid : AreValid (update (referred p.ref) (updated_from p) rows)
  update-AreValid = record {
    refs = Distinct-update _ (referred p.ref) _ rows (λ x t. refl) h.refs;
    names = Distinct-update _ (referred p.ref) _ rows (λ x t. refl) h.names;
    accounts =
        Distinct-set (λ x. x.ref) p.ref (λ x. x.external_id) p.external_id (updated_from p) rows
          (λ x. refl) h.refs (All-imp _ _ rows (λ x f other. (f other).0) others_free) h.accounts;
    defaults = elim (Bool-cases p.is_default) [
      | inl e ↦
          AtMostOne-of_key (λ x. x.ref) p.ref (λ x. x.is_default) _
            (Distinct-update (λ x. x.ref) (referred p.ref) _ rows (λ x t. refl) h.refs)
            (All-update_cases _ (λ x. x.is_default ≡ true → x.ref ≡ p.ref) (referred p.ref)
              (updated_from p) rows (λ x hit f t. eq_of_== hit)
              (λ x miss f t. absurd (ground (arith, (f miss).1))) others_free)
      | inr e ↦
          AtMostOne-unset (λ x. x.is_default) (referred p.ref) (updated_from p) rows (λ x. e)
            h.defaults
    ];
    providers = All-update _ (referred p.ref) _ rows (λ x t e. e) h.providers;
  }

  append-AreValid :
      exists (referred p.ref) rows ≡ false
      → exists (is_named p) rows ≡ false
      → AreValid (rows ++ profile_row p ∷ [])
  append-AreValid absent unnamed =
      let missing = None-absent (referred p.ref) rows absent in
      let refs = Distinct-append (λ x. x.ref) rows (profile_row p) h.refs absent in
      record {
        refs = refs;
        names =
            Distinct-append_free (λ x. x.name) p.name rows (profile_row p) refl
              (All-both _ (λ x. x.provider ≡ digital_ocean) (λ x. x.name ≢ p.name) rows
                (λ x miss same e.
                  let near : (x.provider == p.provider) ≡ true =
                    (string_eq.test_iff x.provider p.provider).1 (same ∙ sym provider) in
                  absurd (ground (arith, string_eq.test_iff x.name p.name)))
                (None-absent (is_named p) rows unnamed) h.providers)
              h.names;
        accounts =
            Distinct-append_free (λ x. x.external_id) p.external_id rows (profile_row p) refl
              (All-both _ _ (λ x. x.external_id ≢ p.external_id) rows (λ x f miss. (f miss).0)
                others_free missing)
              h.accounts;
        defaults = elim (Bool-cases p.is_default) [
          | inl e ↦
              AtMostOne-of_key (λ x. x.ref) p.ref (λ x. x.is_default) _ refs
                (All-append (λ x. x.is_default ≡ true → x.ref ≡ p.ref) rows (profile_row p ∷ [])
                  (All-both _ _ (λ x. x.is_default ≡ true → x.ref ≡ p.ref) rows
                    (λ x f miss t. absurd (ground (arith, (f miss).1))) others_free missing)
                  ((λ t. refl), tt))
          | inr e ↦ AtMostOne-append (λ x. x.is_default) rows (profile_row p) e h.defaults
        ];
        providers = All-append _ rows _ h.providers (provider, tt);
      }

write_profile-AreValid :
    (p : Profile) (rows written : List Profile)
    → AreValid rows
    → write_profile p rows ≡ some written
    → AreValid written
write_profile-AreValid p rows written h e =
    elim (Bool-cases (p.provider != digital_ocean || exists (is_taken p) rows)) [
      | inl refused ↦ absurd (ground arith)
      | inr free ↦
          let provider : p.provider ≡ digital_ocean = eq_of_== (ground arith) in
          elim (Bool-cases (exists (referred p.ref) rows)) [
            | inl there ↦
                let same : update (referred p.ref) (updated_from p) rows ≡ written = ground arith in
                subst AreValid same (update-AreValid p rows h provider (ground arith))
            | inr absent ↦ elim (Bool-cases (exists (is_named p) rows)) [
              | inl named ↦ absurd (ground arith)
              | inr unnamed ↦
                  let same : rows ++ profile_row p ∷ [] ≡ written = ground arith in
                  subst AreValid same
                    (append-AreValid p rows h provider (ground arith) absent unnamed)
            ]
          ]
    ]

-- Whatever is saved, the rows keep references, names and accounts distinct, at most one default
-- profile, and the one provider; a save that is refused leaves them.
pub save_credential_profile-AreValid : (p : Profile) → Kept AreValid (save_credential_profile p)
unfolding save_credential_profile
save_credential_profile-AreValid p rows h =
    elim (Option-cases (write_profile p (clear_defaults p rows))) [
      | inl e ↦ rw (save_credential_profile, e) h
      | inr (written, e) ↦
          rw (save_credential_profile, e)
            (write_profile-AreValid p (clear_defaults p rows) written
              (clear_defaults-AreValid p rows h) e)
    ]
