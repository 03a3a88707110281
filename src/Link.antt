-- ===== src/Link.antt =====
-- internal/link/link.go, with FindLocalLink and SaveLocalLink of internal/inventory/sqlite/store.go:
-- which Box and Worktree a local Worktree is linked to. A store may be missing (a nil interface).
-- The table has the local Worktree as its primary key; the one of a read-only inventory of an older
-- schema may be missing, and then no link is found.
pub mod Laws
use Prim.Native.String.{String}
use schooner.Prelude.{
  ℕ, Bool, true, false, not, ◌&&◌, ◌||◌, List, [], ◌∷◌, ◌++◌, Option, none, some, ◌==◌, ◌!=◌,
  string_eq, nat_eq, ltb, if◌then◌else◌,
}
use schooner.Prelude.Results.{Result, ok, err, Outcome, done, fail, M}
use schooner.Prelude.Table.{find, exists, update}
use schooner.Prelude.Text.{codes}
use schooner.Prelude.FilePath.{is_clean_absolute}

-- The causes are left out, and a message is the text without its arguments.
pub data LinkError : Type 0 where
  coded : String → String → LinkError
  plain : String → LinkError

abbrev pub LinkResult : Type 0 → Type 0
LinkResult = Result LinkError

pub record LocalLink : Type 0 where
  pub local_worktree : String
  pub box_id : String
  pub expected_box_identity : String
  pub remote_worktree : String
  pub repository_identity : String
  pub created_at : ℕ
  pub updated_at : ℕ

unfoldable pub canonical_absolute : String → Bool
canonical_absolute value = value != "" && is_clean_absolute (codes value)

unfoldable pub validate : LocalLink → LinkResult (Unit {0})
validate value =
    if not (canonical_absolute value.local_worktree)
    then err (coded "invalid_input" "Local Link local Worktree must be a canonical absolute path")
    else if value.box_id == "" || value.expected_box_identity == ""
    then err (coded "invalid_input" "Local Link Box identity is required")
    else if not (canonical_absolute value.remote_worktree)
    then err (coded "invalid_input" "Local Link remote Worktree must be a canonical absolute path")
    else if value.created_at == 0 || value.updated_at == 0 || ltb value.updated_at value.created_at
    then err (coded "invalid_input" "Local Link timestamps are invalid")
    else ok tt

-- The interface `Store`.
pub record LinkStore (S : Type 0) : Type 0 where
  pub find_local_link : String → S → LinkResult LocalLink
  pub save_local_link : LocalLink → M S LinkError (Unit {0})

-- What is still wrong with a link that the store has found.
unfoldable pub checked : String → String → LocalLink → LinkResult LocalLink
checked local_worktree repository value = elim (validate value) [
  | err e ↦ err (
      coded "stale_link"
        "the Local Link is invalid; run a successful push or pull with an explicit Box and Worktree to replace it")
  | ok x ↦
      if value.local_worktree != local_worktree
      then err (coded "stale_link" "the Local Link no longer matches this Worktree")
      else if value.repository_identity != "" && value.repository_identity != repository
      then err (
          coded "stale_link"
            "the Local Link belongs to a different Repository at this local Worktree")
      else ok value
]

module _ {S : Type 0} where
  unfoldable pub find_link : Option (LinkStore S) → String → String → S → LinkResult LocalLink
  find_link none local_worktree repository s =
      err (coded "invalid_input" "local Worktree must be a canonical absolute path")
  find_link (some store) local_worktree repository s =
      if not (canonical_absolute local_worktree)
      then err (coded "invalid_input" "local Worktree must be a canonical absolute path")
      else elim (store.find_local_link local_worktree s) [
        | err e ↦ err e
        | ok value ↦ checked local_worktree repository value
      ]

  unfoldable pub save_link : Option (LinkStore S) → LocalLink → M S LinkError (Unit {0})
  save_link none value s = fail (plain "Local Link store is not configured") s
  save_link (some store) value s = elim (validate value) [
    | err e ↦ fail e s
    | ok x ↦ store.save_local_link value s
  ]

pub record Links : Type 0 where
  pub available : Bool
  pub rows : List LocalLink

abbrev pub at_worktree : String → LocalLink → Bool
at_worktree local_worktree l = l.local_worktree == local_worktree

unfoldable pub find_local_link : String → Links → LinkResult LocalLink
find_local_link local_worktree s =
    if not s.available
    then err (coded "not_found" "no Local Link exists for this Worktree")
    else elim (find (at_worktree local_worktree) s.rows) [
      | none ↦ err (coded "not_found" "no Local Link exists for this Worktree")
      | some l ↦ ok l
    ]

-- A link that replaces another keeps the time at which that one was made.
abbrev pub replaced : LocalLink → LocalLink → LocalLink
replaced value old = record value {
  local_worktree = old.local_worktree;
  created_at = old.created_at;
}

unfoldable pub save_local_link : LocalLink → M Links LinkError (Unit {0})
save_local_link value s = elim (validate value) [
  | err e ↦ fail e s
  | ok x ↦
      if not s.available
      then fail (plain "save Local Link") s
      else done tt (record s {
        rows =
            if exists (at_worktree value.local_worktree) s.rows
            then update (at_worktree value.local_worktree) (replaced value) s.rows
            else s.rows ++ value ∷ [];
      })
]

abbrev pub links : LinkStore Links
links = record { find_local_link = find_local_link; save_local_link = save_local_link }
