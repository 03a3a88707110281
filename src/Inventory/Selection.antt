-- ===== src/Inventory/Selection.antt =====
-- internal/box/resolver.go over internal/inventory/sqlite/store.go: what is selected is registered,
-- and the default that `Use` sets is what `Resolve` takes.
use Prim.Native.String.{String}
use schooner.Prelude.{
  Bool, true, false, List, [], ◌∷◌, Option, none, some, ◌≡◌, refl, sym, ap, ◌∙◌, inl, inr, arith,
  ◌==◌, string_eq, eq_of_==, All, Bool-cases, Option-cases,
}
use mathlib.Core.Path.{subst}
use schooner.Prelude.Results.{Result-cases, ok, done}
use schooner.Prelude.Table.{find, exists, update, exists-find, All-find, All-imp}
use schooner.Prelude.Table.Unique.{AtMostOne, None}
use schooner.Prelude.Table.Found.{exists-update, All-update_cases, Found, Distinct-finds}
use schooner.Prelude.Sort.{sort, sort-All, exists-sort, AtMostOne-sort}
use schooner.Box.Types.{Record, BoxResult}
use schooner.Box.Validate.{validate_name}
use schooner.Box.Resolver.{
  SelectionStore, SelectionRequest, by_name, configured, choose, selected, unconfigured, use_box,
  resolve,
}
use schooner.Inventory.{
  Store, scan_record, named, identified, default_box, find_by_name, find_by_id, list_boxes,
  set_default,
}
use schooner.Inventory.Valid.{IsValid, left_by, set_default-IsValid}

-- The store as the resolver sees it.
abbrev pub selection : SelectionStore Store
selection = record {
  find_by_name = find_by_name;
  find_by_id = find_by_id;
  list_boxes = list_boxes;
  set_default = set_default;
}

abbrev key : Record → String
key b = b.name

-- What a choice among rows with a property has.
module _ (P : Record → Type 0) where
  configured-All :
      (xs : List Record) (found : Option Record) (r : Record)
      → All P xs
      → ((d : Record) → found ≡ some d → P d)
      → configured xs found ≡ ok (some r)
      → P r
  unfolding configured
  configured-All [] found r all start h = start r (ground arith)
  configured-All (x ∷ xs) found r all start h = elim (Bool-cases x.is_default) [
    | inr e ↦ configured-All xs found r all.1 start (ground arith)
    | inl e ↦ elim (Option-cases found) [
      | inr (d, q) ↦ absurd (ground arith)
      | inl q ↦
          configured-All xs (some x) r all.1 (λ d same. subst P (ground arith) all.0) (ground arith)
    ]
  ]

  selected-All :
      (xs : List Record) (select : List Record → BoxResult String) (r : Record)
      → All P xs
      → selected xs select ≡ ok r
      → P r
  unfolding selected
  selected-All xs select r all h = elim (Result-cases (select xs)) [
    | inr (e, q) ↦ absurd (ground arith)
    | inl (name, q) ↦ elim (Option-cases (find (named name) xs)) [
      | inl f ↦ absurd (ground arith)
      | inr (d, f) ↦ All-find P (named name) xs all (ground arith)
    ]
  ]

  unconfigured-All :
      (xs : List Record) (selector : Option (List Record → BoxResult String)) (r : Record)
      → All P xs
      → unconfigured xs selector ≡ ok r
      → P r
  unfolding unconfigured
  unconfigured-All [] selector r all h = absurd (ground arith)
  unconfigured-All (x ∷ []) selector r all h = subst P (ground arith) all.0
  unconfigured-All (x ∷ y ∷ xs) none r all h = absurd (ground arith)
  unconfigured-All (x ∷ y ∷ xs) (some select) r all h = selected-All (x ∷ y ∷ xs) select r all h

  choose-All :
      (xs : List Record) (selector : Option (List Record → BoxResult String)) (r : Record)
      → All P xs
      → choose xs selector ≡ ok r
      → P r
  unfolding choose
  choose-All xs selector r all h = elim (Result-cases (configured xs none)) [
    | inr (e, q) ↦ absurd (ground arith)
    | inl (none, q) ↦ unconfigured-All xs selector r all (ground arith)
    | inl (some d, q) ↦ configured-All xs none r all (λ d e. absurd (ground arith)) (ground arith)
  ]

-- The store lists by name, and the resolver sorts the list again.
abbrev candidates : Store → List Record
candidates s = sort by_name (sort by_name s.boxes)

candidates-All : (P : Record → Type 0) (s : Store) → All P s.boxes → All P (candidates s)
candidates-All P s all = sort-All by_name P (sort by_name s.boxes) (sort-All by_name P s.boxes all)

found_ok :
    (p : Record → Bool) (key_text : String) (s : Store) (r : Record)
    → scan_record (find p s.boxes) key_text ≡ ok r
    → find p s.boxes ≡ some r
found_ok p key_text s r h = elim (Option-cases (find p s.boxes)) [
  | inl e ↦ absurd (ground arith)
  | inr (d, e) ↦ ground arith
]

-- A box that is resolved is registered under its name, however it was chosen: by name, by the
-- identifier of a link, as the default, as the only box, or by the selector.
pub resolve-registered :
    (request : SelectionRequest) (s : Store) (r : Record)
    → IsValid s
    → resolve selection request s ≡ ok r
    → find_by_name r.name s ≡ ok r
unfolding resolve find_by_name find_by_id list_boxes
resolve-registered request s r v h =
    let registered = Distinct-finds key s.boxes v.names in
    let finds : Found key s.boxes r → find_by_name r.name s ≡ ok r = λ found. rw found in
    elim (Bool-cases (request.explicit_name == "")) [
      | inr e ↦ elim (Result-cases (validate_name request.explicit_name)) [
        | inr (m, q) ↦ let refused = rw (e, q) at h in absurd (ground arith)
        | inl (x, q) ↦ finds (
            All-find (Found key s.boxes) (named request.explicit_name) s.boxes registered
              (found_ok (named request.explicit_name) request.explicit_name s r (rw (e, q) at h)))
      ]
      | inl e ↦ elim (Bool-cases (request.linked_box_id == "")) [
        | inr l ↦ finds (
            All-find (Found key s.boxes) (identified request.linked_box_id) s.boxes registered (
              found_ok (identified request.linked_box_id) request.linked_box_id s r
                (rw (e, l) at h)))
        | inl l ↦ finds (
            choose-All (Found key s.boxes) (candidates s) request.selector r
              (candidates-All (Found key s.boxes) s registered) (rw (e, l) at h))
      ]
    ]

configured-unchanged :
    (xs : List Record) (found : Option Record)
    → None default_box xs
    → configured xs found ≡ ok found
unfolding configured
configured-unchanged [] found h = refl
configured-unchanged (x ∷ xs) found h = ground (arith, configured-unchanged xs found, h.0, h.1)

configured-once :
    (xs : List Record) (r : Record)
    → AtMostOne default_box xs
    → exists default_box xs ≡ true
    → All (λ x. x.is_default ≡ true → x ≡ r) xs
    → configured xs none ≡ ok (some r)
unfolding configured exists
configured-once [] r one some_default only = absurd (ground arith)
configured-once (x ∷ xs) r one some_default only = elim (Bool-cases x.is_default) [
  | inl e ↦ ground (arith, configured-unchanged xs (some x) (one.0 e), only.0 e)
  | inr e ↦ rw e (configured-once xs r one.1 (ground arith) only.1)
]

abbrev cleared : Record → Record
cleared b = record b { is_default = false }

abbrev chosen : Record → Record
chosen b = record b { is_default = true }

-- After `SetDefault` a default box is the box of that name.
only_default :
    (name : String) (s : Store) (r : Record)
    → IsValid s
    → find (named name) s.boxes ≡ some r
    → All
        (λ x. x.is_default ≡ true → x ≡ chosen r)
        (update (named name) chosen (update default_box cleared s.boxes))
only_default name s r v found =
    let same : All (λ x. named name x ≡ true → x ≡ r) s.boxes =
      All-imp (Found key s.boxes) (λ x. named name x ≡ true → x ≡ r) s.boxes
        (λ x f t.
          let by_that : find (named name) s.boxes ≡ some x =
            subst (λ n. find (named n) s.boxes ≡ some x) (eq_of_== t) f in
          let both : some x ≡ some r = sym by_that ∙ found in ground arith)
        (Distinct-finds key s.boxes v.names) in
    let P = λ (x : Record). (x.is_default ≡ false) × (named name x ≡ true → chosen x ≡ chosen r) in
    let clear : All P (update default_box cleared s.boxes) =
      All-update_cases (λ x. named name x ≡ true → x ≡ r) P default_box cleared s.boxes
        (λ x t h. (refl, (λ n. ap chosen (h n)))) (λ x t h. (t, (λ n. ap chosen (h n)))) same in
    All-update_cases P (λ x. x.is_default ≡ true → x ≡ chosen r) (named name) chosen _
      (λ x t h d. h.1 t) (λ x t h d. absurd (ground (arith, h.0))) clear

-- A valid inventory whose default boxes are all the same one.
default_chosen :
    (selector : Option (List Record → BoxResult String)) (s : Store) (r : Record)
    → IsValid s
    → exists default_box s.boxes ≡ true
    → All (λ x. x.is_default ≡ true → x ≡ r) s.boxes
    → choose (candidates s) selector ≡ ok r
unfolding choose
default_chosen selector s r v some_default only = rw (
  choose,
  configured-once (candidates s) r
      (AtMostOne-sort by_name default_box _
        (AtMostOne-sort by_name default_box s.boxes v.one_default))
      (exists-sort by_name default_box _ ∙ exists-sort by_name default_box s.boxes ∙ some_default)
      (candidates-All (λ x. x.is_default ≡ true → x ≡ r) s only),
)

exists-set :
    (name : String) (bs : List Record)
    → exists (named name) bs ≡ true
    → exists default_box (update (named name) chosen bs) ≡ true
unfolding exists update
exists-set name [] h = h
exists-set name (b ∷ bs) h = ground (arith, exists-set name bs)

set_default-chosen :
    (name : String) (selector : Option (List Record → BoxResult String)) (s s' : Store) (r : Record)
    → IsValid s
    → set_default name s ≡ done r s'
    → choose (candidates s') selector ≡ ok r
unfolding set_default
set_default-chosen name selector s s' r v h = elim (Option-cases (find (named name) s.boxes)) [
  | inl e ↦ absurd (ground arith)
  | inr (b, e) ↦
      let set = rw (set_default, e) at h in
      let left : s' ≡ left_by (set_default name s) = sym (ap left_by h) in
      let result : chosen b ≡ r = ground arith in
      let valid : IsValid s' = rw left (set_default-IsValid name s v) in
      let table : s'.boxes ≡ update (named name) chosen (update default_box cleared s.boxes) =
        ap (λ (t : Store). t.boxes) (rw (set_default, e) at left) in
      default_chosen selector s' r valid
        (rw table (
          exists-set name _ (
            exists-update (named name) default_box cleared s.boxes (λ b. refl)
            ∙ exists-find (named name) s.boxes e)))
        (rw (table, ← result) (only_default name s b v e))
]

-- What `Use` sets, `Resolve` takes: where the inventory satisfies its constraints, a request that
-- names no box and has no link gets the box that was chosen last, whatever the selector.
pub use_box-resolve :
    (name : String) (selector : Option (List Record → BoxResult String)) (s s' : Store) (r : Record)
    → IsValid s
    → use_box selection name s ≡ done r s'
    → resolve selection (record { explicit_name = ""; linked_box_id = ""; selector = selector }) s'
      ≡ ok r
unfolding use_box resolve list_boxes
use_box-resolve name selector s s' r v h = elim (Result-cases (validate_name name)) [
  | inr (m, q) ↦ let refused = rw (use_box, q) at h in absurd (ground arith)
  | inl (x, q) ↦ set_default-chosen name selector s s' r v (rw (use_box, q) at h)
]
