-- ===== src/Box/Resolver.antt =====
-- internal/box/resolver.go: which box a command works on. The interactive selector is an argument,
-- any function of the records; it may be missing.
use Prim.Native.String.{String, ◌++◌}
use schooner.Prelude.{
  List, [], ◌∷◌, Option, none, some, ◌==◌, ◌!=◌, string_eq, map, if◌then◌else◌, not,
}
use schooner.Prelude.Table.{find}
use schooner.Prelude.Sort.{sort, compare_strings}
use schooner.Prelude.Order.{Ordering}
use schooner.Prelude.Results.{ok, err, fail, M}
use schooner.Box.Types.{Record, Error, coded, new_error, BoxResult, invalid}
use schooner.Box.Validate.{validate_name}

-- The interface `SelectionStore`.
pub record SelectionStore (S : Type 0) : Type 0 where
  pub find_by_name : String → S → BoxResult Record
  pub find_by_id : String → S → BoxResult Record
  pub list_boxes : S → BoxResult (List Record)
  pub set_default : String → M S Error Record

pub record SelectionRequest : Type 0 where
  pub explicit_name : String
  pub linked_box_id : String
  pub selector : Option (List Record → BoxResult String)

abbrev pub by_name : Record → Record → Ordering
by_name a b = compare_strings a.name b.name

-- The search for the default box, which refuses a second one.
unfoldable pub configured : List Record → Option Record → BoxResult (Option Record)
configured [] found = ok found
configured (r ∷ rs) found =
    let skipped = configured rs found in
    let taken = configured rs (some r) in
    if not r.is_default then skipped else elim found [
      | some d ↦ err (new_error "internal" "local inventory contains multiple default boxes")
      | none ↦ taken
    ]

-- `strings.Join`
unfoldable pub join_names : List String → String → String
join_names [] separator = ""
join_names (n ∷ []) separator = n
join_names (n ∷ m ∷ ns) separator = n ++ separator ++ join_names (m ∷ ns) separator

unfoldable pub ambiguous : List Record → Error
unfolding join_names
ambiguous records =
    coded "box_selection_ambiguous"
      "multiple boxes are configured; specify a box or run \"schooner box use <name>\""
      (("candidates", join_names (map (λ (r : Record). r.name) records) ",") ∷ [])

unfoldable pub selected : List Record → (List Record → BoxResult String) → BoxResult Record
selected records select = elim (select records) [
  | err e ↦ err e
  | ok name ↦ elim (find (λ (r : Record). r.name == name) records) [
    | some r ↦ ok r
    | none ↦ err (new_error "internal" "box selector returned a box outside the candidate set")
  ]
]

-- No default box: the only box, or the choice of the selector.
unfoldable pub unconfigured :
    List Record → Option (List Record → BoxResult String) → BoxResult Record
unfolding ambiguous selected
unconfigured [] selector = err (new_error "not_found" "no boxes are registered")
unconfigured (r ∷ []) selector = ok r
unconfigured (r ∷ r' ∷ rs) none = err (ambiguous (r ∷ r' ∷ rs))
unconfigured (r ∷ r' ∷ rs) (some select) = selected (r ∷ r' ∷ rs) select

unfoldable pub choose : List Record → Option (List Record → BoxResult String) → BoxResult Record
choose records selector = elim (configured records none) [
  | err e ↦ err e
  | ok (some r) ↦ ok r
  | ok none ↦ unconfigured records selector
]

module _ {S : Type 0} (store : SelectionStore S) where
  unfoldable pub use_box : String → M S Error Record
  use_box name s = elim (validate_name name) [
    | err e ↦ fail (invalid e) s
    | ok x ↦ store.set_default name s
  ]

  unfoldable pub resolve : SelectionRequest → S → BoxResult Record
  resolve request s =
      if request.explicit_name != ""
      then elim (validate_name request.explicit_name) [
        | err e ↦ err (invalid e)
        | ok x ↦ store.find_by_name request.explicit_name s
      ]
      else if request.linked_box_id != ""
      then store.find_by_id request.linked_box_id s
      else elim (store.list_boxes s) [
        | err e ↦ err e
        | ok records ↦ choose (sort by_name records) request.selector
      ]
