-- ===== src/Credentials/Written.antt =====
-- What SaveCredentialProfile of internal/inventory/sqlite/store.go leaves of the profile it saves.
use mathlib.Core.Path.{subst}
use schooner.Prelude.{
  List, [], ◌∷◌, ◌++◌, some, string_eq, ◌≡◌, refl, inl, inr, arith, Bool-cases, Option-cases, Mem,
  Mem_last, eq_of_==,
}
use schooner.Prelude.Results.{Holds}
use schooner.Prelude.Table.{exists, update}
use schooner.Prelude.Table.Found.{Mem-exists, Mem-update}
use schooner.Credentials.{Profile}
use schooner.Credentials.Rows.{
  referred, profile_row, updated_from, write_profile, clear_defaults, save_credential_profile,
}

-- A row has the reference, the account and the key of the profile.
abbrev pub IsWritten : Profile → List Profile → Type 0
IsWritten p rows =
    (row : Profile) × Mem row rows
    × (row.ref ≡ p.ref)
    × (row.external_id ≡ p.external_id)
    × (row.credential_key ≡ p.credential_key)

write_profile-IsWritten :
    (p : Profile) (rows written : List Profile)
    → write_profile p rows ≡ some written
    → IsWritten p written
write_profile-IsWritten p rows written e = elim (Bool-cases (exists (referred p.ref) rows)) [
  | inl there ↦
      let same : update (referred p.ref) (updated_from p) rows ≡ written = ground arith in
      let (row, within, hit) = Mem-exists (referred p.ref) rows there in
      subst (IsWritten p) same
        (updated_from p row, Mem-update _ _ row rows within hit, eq_of_== hit, refl, refl)
  | inr absent ↦
      let same : rows ++ profile_row p ∷ [] ≡ written = ground arith in
      subst (IsWritten p) same (profile_row p, Mem_last (profile_row p) rows, refl, refl, refl)
]

pub save_credential_profile-IsWritten :
    (p : Profile) (rows : List Profile)
    → Holds (save_credential_profile p rows) (λ x v. IsWritten p v) (λ e v. v ≡ rows)
unfolding save_credential_profile
save_credential_profile-IsWritten p rows =
    elim (Option-cases (write_profile p (clear_defaults p rows))) [
      | inl e ↦ rw (save_credential_profile, e) refl
      | inr (written, e) ↦
          rw (save_credential_profile, e)
            (write_profile-IsWritten p (clear_defaults p rows) written e)
    ]
