-- ===== src/Credentials/Settled.antt =====
-- The stored profiles of internal/credentials/credentials.go stay well-formed, and a profile stays
-- bound to its account, through every call of the Manager.
use Prim.Native.String.{String}
use schooner.Prelude.{Bool, true, false, List, [], ◌∷◌, ◌==◌, string_eq}
use schooner.Prelude.Results.{Holds}
use schooner.Credentials.{Profile}
use schooner.Credentials.Rows.{save_credential_profile}
use schooner.Credentials.Valid.{AreValid, save_credential_profile-AreValid}
use mathlib.Core.Path.{subst}
use schooner.Prelude.{
  ◌++◌, some, ◌≡◌, refl, sym, ◌∙◌, inl, inr, arith, eq_of_==, Bool-cases, Option-cases,
}
use schooner.Prelude.Table.{find, exists, update}
use schooner.Credentials.Rows.{
  referred, write_profile, clear_defaults, updated_from, profile_row, defaults_of_others,
}

-- The profile of the reference is stored, and is bound to the account.
abbrev pub IsBoundTo : String → String → List Profile → Type 0
IsBoundTo ref e rows = (p : Profile) × (find (referred ref) rows ≡ some p) × (p.external_id ≡ e)

update-IsBoundTo :
    (ref e : String) (q : Profile → Bool) (f : Profile → Profile) (rows : List Profile)
    → ((p : Profile) → (f p).ref ≡ p.ref)
    → ((p : Profile) → q p ≡ true → p.ref ≡ ref → p.external_id ≡ e → (f p).external_id ≡ e)
    → IsBoundTo ref e rows
    → IsBoundTo ref e (update q f rows)
unfolding find update
update-IsBoundTo ref e q f [] same fits (p, found, bound) = absurd (ground arith)
update-IsBoundTo ref e q f (r ∷ rows) same fits (p, found, bound) =
    elim (Bool-cases (r.ref == ref)) [
      | inr other ↦
          let (p', found', bound') =
            update-IsBoundTo ref e q f rows same fits (p, ground arith, bound) in
          elim (Bool-cases (q r)) [
            | inl hit ↦ (p', rw (update, find, hit, same r, other) found', bound')
            | inr miss ↦ (p', rw (update, find, miss, other) found', bound')
          ]
      | inl here ↦
          let first : some r ≡ some p = rw (find, here) at found in
          let known : r.external_id ≡ e = ground arith in
          elim (Bool-cases (q r)) [
            | inl hit ↦
                (f r, rw (update, find, hit, same r, here) refl, fits r hit (eq_of_== here) known)
            | inr miss ↦ (r, rw (update, find, miss, here) refl, known)
          ]
    ]

append-IsBoundTo :
    (ref e : String) (rows : List Profile) (new : Profile)
    → IsBoundTo ref e rows
    → IsBoundTo ref e (rows ++ new ∷ [])
unfolding find
append-IsBoundTo ref e [] new (p, found, bound) = absurd (ground arith)
append-IsBoundTo ref e (r ∷ rows) new (p, found, bound) = elim (Bool-cases (r.ref == ref)) [
  | inl here ↦ (p, rw (find, here) (rw (find, here) at found), bound)
  | inr other ↦
      let (p', found', bound') =
        append-IsBoundTo ref e rows new (p, rw (find, other) at found, bound) in
      (p', rw (find, other) found', bound')
]

module _ (ref e : String) where
  abbrev pub Good : List Profile → Type 0
  Good rows = AreValid rows × IsBoundTo ref e rows

  write_profile-IsBoundTo :
      (p : Profile) (rows written : List Profile)
      → (p.ref ≡ ref → p.external_id ≡ e)
      → write_profile p rows ≡ some written
      → IsBoundTo ref e rows
      → IsBoundTo ref e written
  write_profile-IsBoundTo p rows written fits w bound =
      elim (Bool-cases (exists (referred p.ref) rows)) [
        | inl there ↦
            let same : update (referred p.ref) (updated_from p) rows ≡ written = ground arith in
            subst (IsBoundTo ref e) same (
              update-IsBoundTo ref e (referred p.ref) (updated_from p) rows (λ q. refl)
                (λ q hit at_ref was. fits (sym (eq_of_== hit) ∙ at_ref)) bound)
        | inr absent ↦
            let same : rows ++ profile_row p ∷ [] ≡ written = ground arith in
            subst (IsBoundTo ref e) same (append-IsBoundTo ref e rows (profile_row p) bound)
      ]

  clear_defaults-IsBoundTo :
      (p : Profile) (rows : List Profile)
      → IsBoundTo ref e rows
      → IsBoundTo ref e (clear_defaults p rows)
  clear_defaults-IsBoundTo p rows bound = elim (Bool-cases p.is_default) [
    | inl d ↦
        rw (clear_defaults, d)
          (update-IsBoundTo ref e (defaults_of_others p) (λ row. record row { is_default = false })
            rows (λ q. refl) (λ q hit at_ref was. was) bound)
    | inr d ↦ rw (clear_defaults, d) bound
  ]

  -- A save of a profile that does not move the reference to another account.
  pub save_credential_profile-Good :
      (p : Profile) (rows : List Profile)
      → (p.ref ≡ ref → p.external_id ≡ e)
      → Good rows
      → Holds (save_credential_profile p rows) (λ x v. Good v) (λ x v. Good v)
  unfolding save_credential_profile
  save_credential_profile-Good p rows fits (valid, bound) =
      let kept = save_credential_profile-AreValid p rows valid in
      elim (Option-cases (write_profile p (clear_defaults p rows))) [
        | inl w ↦ rw (save_credential_profile, w) (valid, bound)
        | inr (written, w) ↦
            let still : AreValid written = rw (save_credential_profile, w) at kept in
            rw (save_credential_profile, w)
              (
                still,
                write_profile-IsBoundTo p (clear_defaults p rows) written fits w
                    (clear_defaults-IsBoundTo p rows bound),
              )
      ]
