-- ===== src/Inventory/Laws.antt =====
-- How the calls of the inventory bear on one another.
use Prim.Native.String.{String}
use schooner.Prelude.{
  Bool, true, false, List, [], ◌∷◌, ◌++◌, none, some, ◌≡◌, ◌≢◌, ap, sym, ◌∙◌, inl, inr, arith,
  string_eq, ==-refl, Bool-cases, Option-cases,
}
use schooner.Prelude.Results.{ok, err, done, Outcome-cases}
use schooner.Prelude.Table.{find, exists, delete, find-append, find-delete}
use schooner.Prelude.Table.Found.{find-replace, find-delete_other, find-delete_all, exists-found}
use schooner.Inventory.Valid.{left_by}
use schooner.Box.Types.{Record, Observation, AddOperation, not_found}
use schooner.Inventory.{
  Store, named, identified, with_identity, reserves, observes, box_row, observation_row,
  find_by_name, find_by_id, find_by_remote_identity, last_observation, complete_add, box_refused,
  save_observation, remove, scan_record,
}

box_row-name : (r : Record) → (box_row r).name ≡ r.name
unfolding box_row
box_row-name r = ground arith

box_row-id : (r : Record) → (box_row r).id ≡ r.id
unfolding box_row
box_row-id r = ground arith

box_row-identity : (r : Record) → (box_row r).remote_identity ≡ r.remote_identity
unfolding box_row
box_row-identity r = ground arith

-- A completed add, taken apart.
complete_add-inv :
    (op : AddOperation) (r : Record) (o : Observation) (s s' : Store)
    → complete_add op r o s ≡ done tt s'
    → (box_refused r s.boxes ≡ false)
      × (v : Store) × (save_observation o (record s { boxes = s.boxes ++ box_row r ∷ [] })
          ≡ done tt v)
      × (s' ≡ record v { add_operations = delete (reserves op.name) s.add_operations })
unfolding complete_add
complete_add-inv op r o s s' h = elim (Bool-cases (box_refused r s.boxes)) [
  | inl e ↦ absurd (ground arith)
  | inr e ↦
      elim (Outcome-cases (save_observation o (record s { boxes = s.boxes ++ box_row r ∷ [] }))) [
        | inl (x, v, q) ↦ (e, v, q, ground arith)
        | inr (f, v, q) ↦ absurd (ground arith)
      ]
]

save_observation-boxes :
    (o : Observation) (s s' : Store) → save_observation o s ≡ done tt s' → s'.boxes ≡ s.boxes
unfolding save_observation
save_observation-boxes o s s' h = elim (Bool-cases (exists (identified o.box_id) s.boxes)) [
  | inl e ↦ ground arith
  | inr e ↦ absurd (ground arith)
]

save_observation-last :
    (o : Observation) (s s' : Store)
    → save_observation o s ≡ done tt s'
    → last_observation o.box_id s' ≡ ok (observation_row o)
unfolding save_observation last_observation
save_observation-last o s s' h = elim (Bool-cases (exists (identified o.box_id) s.boxes)) [
  | inr e ↦ absurd (ground arith)
  | inl e ↦ elim (Bool-cases (exists (observes o.box_id) s.observations)) [
    | inl old ↦ ground (
      arith,
      find-replace (observes o.box_id) (observation_row o) s.observations (==-refl o.box_id) old,
    )
    | inr new ↦ ground (
      arith,
      find-append (observes o.box_id) s.observations (observation_row o) new (==-refl o.box_id),
    )
  ]
]

pub record IsRegistered (op : AddOperation) (r : Record) (o : Observation) (s : Store)
    : Type 0 where
  pub by_name : find_by_name r.name s ≡ ok (box_row r)
  pub by_id : find_by_id r.id s ≡ ok (box_row r)
  pub by_identity : find_by_remote_identity r.remote_identity s ≡ ok (box_row r)
  pub observed : last_observation o.box_id s ≡ ok (observation_row o)
  pub released : find (reserves op.name) s.add_operations ≡ none

insert_finds :
    (p : Record → Bool) (r : Record) (key : String) (boxes : List Record)
    → exists p boxes ≡ false
    → p (box_row r) ≡ true
    → scan_record (find p (boxes ++ box_row r ∷ [])) key ≡ ok (box_row r)
insert_finds p r key boxes absent passes = rw (find-append p boxes (box_row r) absent passes)

-- A completed add registers the box: it is found by its name, its identifier and its remote
-- identity, as the row that the table keeps of it; what was seen on it is the last observation of
-- it; and the reservation of the name is gone.
pub complete_add-IsRegistered :
    (op : AddOperation) (r : Record) (o : Observation) (s s' : Store)
    → complete_add op r o s ≡ done tt s'
    → IsRegistered op r o s'
unfolding find_by_name find_by_id find_by_remote_identity last_observation box_refused
complete_add-IsRegistered op r o s s' h =
    let (free, v, saved, left) = complete_add-inv op r o s s' h in
    let same : s'.boxes ≡ s.boxes ++ box_row r ∷ [] =
      ap (λ (t : Store). t.boxes) left ∙ save_observation-boxes o _ v saved in
    record {
      by_name = rw same (
          insert_finds (named r.name) r r.name s.boxes (ground arith)
            (rw box_row-name (==-refl r.name)));
      by_id = rw same (
          insert_finds (identified r.id) r r.id s.boxes (ground arith)
            (rw box_row-id (==-refl r.id)));
      by_identity = rw same (
          insert_finds (with_identity r.remote_identity) r r.remote_identity s.boxes (ground arith)
            (rw box_row-identity (==-refl r.remote_identity)));
      observed = rw left (save_observation-last o _ v saved);
      released = rw left (find-delete (reserves op.name) s.add_operations);
    }

-- What the removal of the box of a name leaves.
pub record IsRemoved (name : String) (r : Record) (s s' : Store) : Type 0 where
  pub was : find_by_name name s ≡ ok r
  pub gone : find_by_name name s' ≡ err (not_found name)
  pub unobserved : last_observation r.id s' ≡ err (not_found r.id)
  pub unreserved : find (reserves name) s'.add_operations ≡ none

-- Removing a box takes it out of the inventory with what was seen on it and the reservation of its
-- name.
pub remove-IsRemoved :
    (name : String) (r : Record) (s s' : Store) → remove name s ≡ done r s' → IsRemoved name r s s'
unfolding find_by_name last_observation remove
remove-IsRemoved name r s s' h = elim (Option-cases (find (named name) s.boxes)) [
  | inl e ↦ absurd (ground arith)
  | inr (b, e) ↦
      let same : b ≡ r = ground arith in
      let found : find (named name) s.boxes ≡ some r = e ∙ ap some same in
      let left : s' ≡ left_by (remove name s) = sym (ap left_by h) in
      let seen = λ (o : Observation) (t : observes r.id o ≡ true).
        exists-found (named name) (identified o.box_id) s.boxes found
          (ground (arith, string_eq.test_iff o.box_id r.id, ==-refl r.id)) in
      let unseen : find (observes r.id) (left_by (remove name s)).observations ≡ none =
        rw (remove, e) (find-delete_all (observes r.id) _ s.observations seen) in
      record {
        was = rw found;
        gone = rw (left, remove, e, find-delete (named name) s.boxes);
        unobserved = rw (left, last_observation, unseen);
        unreserved = rw (left, remove, e, find-delete (reserves name) s.add_operations);
      }
]

-- Removing a box leaves every box of another name registered as it was.
pub remove-others :
    (name other : String) (r : Record) (s s' : Store)
    → remove name s ≡ done r s'
    → other ≢ name
    → find_by_name other s' ≡ find_by_name other s
unfolding find_by_name remove
remove-others name other r s s' h ne = elim (Option-cases (find (named name) s.boxes)) [
  | inl e ↦ absurd (ground arith)
  | inr (b, e) ↦
      let left : s' ≡ left_by (remove name s) = sym (ap left_by h) in
      rw (
        left,
        remove,
        e,
        find-delete_other (named other) (named name) s.boxes (λ b t.
            ground (arith, string_eq.test_iff b.name other, string_eq.test_iff b.name name)),
      )
]
