-- ===== src/Credentials/Rows.antt =====
-- internal/inventory/sqlite/store.go: the rows of the credential profiles over the schema of its
-- migrations. The reference is the primary key; a name and an account are unique for a provider, a
-- provider has at most one default profile, and the one provider is DigitalOcean.
use Prim.Native.String.{String}
use schooner.Prelude.{
  Bool, false, ◌&&◌, ◌||◌, List, [], ◌∷◌, ◌++◌, Option, none, some, ◌==◌, ◌!=◌, string_eq,
  if◌then◌else◌,
}
use schooner.Prelude.Results.{ok, err, done, fail, M}
use schooner.Prelude.Table.{find, exists, update}
use schooner.Prelude.Order.{Ordering}
use schooner.Prelude.Sort.{sort, compare_strings}
use schooner.Box.Types.{Error, not_found, BoxResult}
use schooner.Inventory.{already_registered}
use schooner.Acquisition.Types.{digital_ocean}
use schooner.Credentials.{no_status, Profile}

abbrev pub by_ref : Profile → Profile → Ordering
by_ref a b = compare_strings a.ref b.ref

abbrev pub referred : String → Profile → Bool
referred ref p = p.ref == ref

unfoldable pub list_credential_profiles : List Profile → List Profile
list_credential_profiles rows = sort by_ref rows

-- The row, if there is one.
abbrev pub scan_profile : Option Profile → String → BoxResult Profile
scan_profile none ref = err (not_found ref)
scan_profile (some p) ref = ok p

unfoldable pub find_credential_profile : String → List Profile → BoxResult Profile
find_credential_profile ref rows = scan_profile (find (referred ref) rows) ref

-- The row of a profile, which has no status and no warning.
abbrev pub profile_row : Profile → Profile
profile_row p = record p { status = no_status; warning = "" }

abbrev pub defaults_of_others : Profile → Profile → Bool
defaults_of_others p row = row.provider == p.provider && row.ref != p.ref

-- What the update of a conflicting row sets.
abbrev pub updated_from : Profile → Profile → Profile
updated_from p row = record row {
  external_id = p.external_id;
  account_name = p.account_name;
  account_email = p.account_email;
  credential_key = p.credential_key;
  is_default = p.is_default;
  updated_at = p.updated_at;
}

-- Whether another row than the one of the reference refuses the account or the default mark.
abbrev pub is_taken : Profile → Profile → Bool
is_taken p row =
    row.ref != p.ref
    && row.provider == p.provider
    && (row.external_id == p.external_id || (p.is_default && row.is_default))

abbrev pub is_named : Profile → Profile → Bool
is_named p row = row.provider == p.provider && row.name == p.name

-- The statements of the transaction, on the rows without the default mark of others.
abbrev pub write_profile : Profile → List Profile → Option (List Profile)
write_profile p rows =
    if p.provider != digital_ocean || exists (is_taken p) rows
    then none
    else if exists (referred p.ref) rows
    then some (update (referred p.ref) (updated_from p) rows)
    else if exists (is_named p) rows
    then none
    else some (rows ++ profile_row p ∷ [])

abbrev pub clear_defaults : Profile → List Profile → List Profile
clear_defaults p rows =
    if p.is_default
    then update (defaults_of_others p) (λ row. record row { is_default = false }) rows
    else rows

unfoldable pub save_credential_profile : Profile → M (List Profile) Error (Unit {0})
save_credential_profile p rows = elim (write_profile p (clear_defaults p rows)) [
  | none ↦ fail already_registered rows
  | some written ↦ done tt written
]
