-- ===== src/Inventory/Valid.antt =====
-- What holds of the inventory between two calls: the constraints of the schema, for every sequence
-- of calls of the store.
use Prim.Native.String.{String}
use schooner.Prelude.{
  Bool, true, false, ◌&&◌, List, [], ◌∷◌, ◌++◌, ◌≡◌, refl, sym, ◌∙◌, inl, inr, arith, ◌==◌,
  string_eq, eq_of_==, All, All-append, Bool-cases, Option-cases,
}
use schooner.Prelude.Results.{Outcome, done, fail, Outcome-cases}
use schooner.Prelude.Table.{
  find, exists, delete, update, exists-append, All-imp, All-delete, All-update,
}
use schooner.Prelude.Table.Unique.{
  Distinct, AtMostOne, Distinct-append, Distinct-delete, Distinct-update, AtMostOne-append,
  AtMostOne-delete, AtMostOne-update, AtMostOne-set, AtMostOne-of_None, None-clear,
}
use schooner.Prelude.Table.Found.{exists-update, exists-delete, None-delete, All-both, absent_find}
use schooner.Box.Types.{Record, Observation, AddOperation, Error}
use schooner.Inventory.{
  Store, named, identified, default_box, reserves, observes, box_row, observation_row, set_default,
  begin_add, checkpoint_add, complete_add, box_refused, save_observation, update_runtime_path,
  remove,
}

abbrev RefersTo : List Record → Observation → Type 0
RefersTo boxes o = exists (identified o.box_id) boxes ≡ true

pub record IsValid (s : Store) : Type 0 where
  pub names : Distinct (λ (b : Record). b.name) s.boxes
  pub ids : Distinct (λ (b : Record). b.id) s.boxes
  pub identities : Distinct (λ (b : Record). b.remote_identity) s.boxes
  pub one_default : AtMostOne default_box s.boxes
  pub references : All (RefersTo s.boxes) s.observations
  pub observed_once : Distinct (λ (o : Observation). o.box_id) s.observations
  pub reserved_once : Distinct (λ (o : AddOperation). o.name) s.add_operations

-- The state that a call leaves.
abbrev pub left_by : {A : Type 0} → Outcome Store Error A → Store
left_by (done a s) = s
left_by (fail e s) = s

-- Rows changed in fields that no constraint reads.
module _ (q : Record → Bool) (f : Record → Record) where
  update_boxes-IsValid :
      {s : Store}
      → ((b : Record) → (f b).name ≡ b.name)
      → ((b : Record) → (f b).id ≡ b.id)
      → ((b : Record) → (f b).remote_identity ≡ b.remote_identity)
      → AtMostOne default_box (update q f s.boxes)
      → IsValid s
      → IsValid (record s { boxes = update q f s.boxes })
  update_boxes-IsValid {s} n i r d v = record {
    names = Distinct-update (λ (b : Record). b.name) q f s.boxes (λ b t. n b) v.names;
    ids = Distinct-update (λ (b : Record). b.id) q f s.boxes (λ b t. i b) v.ids;
    identities =
        Distinct-update (λ (b : Record). b.remote_identity) q f s.boxes (λ b t. r b) v.identities;
    one_default = d;
    references =
        All-imp (RefersTo s.boxes) (RefersTo (update q f s.boxes)) s.observations
          (λ o h. exists-update (identified o.box_id) q f s.boxes (λ b. rw i) ∙ h) v.references;
    observed_once = v.observed_once;
    reserved_once = v.reserved_once;
  }

reservations-IsValid :
    {s : Store} (ops : List AddOperation)
    → IsValid s
    → Distinct (λ (o : AddOperation). o.name) ops
    → IsValid (record s { add_operations = ops })
reservations-IsValid ops v d = record {
  names = v.names;
  ids = v.ids;
  identities = v.identities;
  one_default = v.one_default;
  references = v.references;
  observed_once = v.observed_once;
  reserved_once = d;
}

observations-IsValid :
    {s : Store} (os : List Observation)
    → IsValid s
    → All (RefersTo s.boxes) os
    → Distinct (λ (o : Observation). o.box_id) os
    → IsValid (record s { observations = os })
observations-IsValid os v r d = record {
  names = v.names;
  ids = v.ids;
  identities = v.identities;
  one_default = v.one_default;
  references = r;
  observed_once = d;
  reserved_once = v.reserved_once;
}

pub set_default-IsValid :
    (name : String) (s : Store) → IsValid s → IsValid (left_by (set_default name s))
unfolding set_default
set_default-IsValid name s v = elim (Option-cases (find (named name) s.boxes)) [
  | inl e ↦ rw (e, set_default) v
  | inr (r, e) ↦
      let cleared =
        update_boxes-IsValid default_box (λ b. record b { is_default = false }) {s = s} (λ b. refl)
          (λ b. refl) (λ b. refl)
          (AtMostOne-of_None default_box _ (None-clear default_box _ s.boxes (λ b. refl))) v in
      rw (e, set_default)
        (update_boxes-IsValid (named name) (λ b. record b { is_default = true }) (λ b. refl)
          (λ b. refl) (λ b. refl)
          (AtMostOne-set default_box (λ (b : Record). b.name) name _ _ cleared.names
            (None-clear default_box _ s.boxes (λ b. refl)))
          cleared)
]

pub begin_add-IsValid :
    (op : AddOperation) (s : Store) → IsValid s → IsValid (left_by (begin_add op s))
unfolding begin_add
begin_add-IsValid op s v = elim (Bool-cases (exists (named op.name) s.boxes)) [
  | inl e ↦ rw (e, begin_add) v
  | inr e ↦ elim (Option-cases (find (reserves op.name) s.add_operations)) [
    | inl a ↦
        rw (e, a, begin_add)
          (reservations-IsValid (s.add_operations ++ op ∷ []) v (
            Distinct-append (λ (o : AddOperation). o.name) s.add_operations op v.reserved_once
              (absent_find (reserves op.name) s.add_operations a)))
    | inr (old, a) ↦
        elim (Bool-cases
          (old.ssh_destination == op.ssh_destination && old.worktree_root == op.worktree_root)) [
            | inl same ↦
                rw (e, a, same, begin_add)
                  (reservations-IsValid _ v (
                    Distinct-update (λ (o : AddOperation). o.name) (reserves op.name) _
                      s.add_operations (λ o t. refl) v.reserved_once))
            | inr other ↦ rw (e, a, other, begin_add) v
          ]
  ]
]

pub checkpoint_add-IsValid :
    (op : AddOperation) (s : Store) → IsValid s → IsValid (left_by (checkpoint_add op s))
unfolding checkpoint_add
checkpoint_add-IsValid op s v = reservations-IsValid _ v (
    Distinct-update (λ (o : AddOperation). o.name) (reserves op.name) _ s.add_operations
      (λ o t. refl) v.reserved_once)

pub save_observation-IsValid :
    (o : Observation) (s : Store) → IsValid s → IsValid (left_by (save_observation o s))
unfolding save_observation
save_observation-IsValid o s v = elim (Bool-cases (exists (identified o.box_id) s.boxes)) [
  | inr e ↦ rw (e, save_observation) v
  | inl e ↦ elim (Bool-cases (exists (observes o.box_id) s.observations)) [
    | inl old ↦
        rw (e, old, save_observation)
          (observations-IsValid _ v
            (All-update (RefersTo s.boxes) (observes o.box_id) (λ p. observation_row o)
              s.observations (λ p t h. e) v.references)
            (Distinct-update (λ (p : Observation). p.box_id) (observes o.box_id)
              (λ p. observation_row o) s.observations (λ p t. sym (eq_of_== t)) v.observed_once))
    | inr new ↦
        rw (e, new, save_observation)
          (observations-IsValid _ v
            (All-append (RefersTo s.boxes) s.observations (observation_row o ∷ []) v.references
              (e, tt))
            (Distinct-append (λ (p : Observation). p.box_id) s.observations (observation_row o)
              v.observed_once new))
  ]
]

box_row-name : (r : Record) → (box_row r).name ≡ r.name
unfolding box_row
box_row-name r = ground arith

box_row-id : (r : Record) → (box_row r).id ≡ r.id
unfolding box_row
box_row-id r = ground arith

box_row-identity : (r : Record) → (box_row r).remote_identity ≡ r.remote_identity
unfolding box_row
box_row-identity r = ground arith

box_row-default : (r : Record) → (box_row r).is_default ≡ false
unfolding box_row
box_row-default r = ground arith

insert_box-IsValid :
    (r : Record) (s : Store)
    → box_refused r s.boxes ≡ false
    → IsValid s
    → IsValid (record s { boxes = s.boxes ++ box_row r ∷ [] })
unfolding box_refused
insert_box-IsValid r s free v = record {
  names =
      Distinct-append (λ (b : Record). b.name) s.boxes (box_row r) v.names
        (rw box_row-name (ground arith));
  ids =
      Distinct-append (λ (b : Record). b.id) s.boxes (box_row r) v.ids
        (rw box_row-id (ground arith));
  identities =
      Distinct-append (λ (b : Record). b.remote_identity) s.boxes (box_row r) v.identities
        (rw box_row-identity (ground arith));
  one_default = AtMostOne-append default_box s.boxes (box_row r) (box_row-default r) v.one_default;
  references =
      All-imp (RefersTo s.boxes) (RefersTo (s.boxes ++ box_row r ∷ [])) s.observations
        (λ o h. exists-append (identified o.box_id) s.boxes (box_row r) ∙ ground arith)
        v.references;
  observed_once = v.observed_once;
  reserved_once = v.reserved_once;
}

pub complete_add-IsValid :
    (op : AddOperation) (r : Record) (o : Observation) (s : Store)
    → IsValid s
    → IsValid (left_by (complete_add op r o s))
unfolding complete_add
complete_add-IsValid op r o s v = elim (Bool-cases (box_refused r s.boxes)) [
  | inl e ↦ rw (e, complete_add) v
  | inr e ↦
      let with_box : Store = record s { boxes = s.boxes ++ box_row r ∷ [] } in
      elim (Outcome-cases (save_observation o with_box)) [
        | inr (f, s', q) ↦ rw (e, q, complete_add) v
        | inl (x, s', q) ↦
            let saved : IsValid s' =
              rw q at (save_observation-IsValid o with_box (insert_box-IsValid r s e v)) in
            rw (e, q, complete_add)
              (reservations-IsValid (delete (reserves op.name) s.add_operations) saved (
                Distinct-delete (λ (p : AddOperation). p.name) (reserves op.name) s.add_operations
                  v.reserved_once))
      ]
]

pub update_runtime_path-IsValid :
    (id path : String) (s : Store) → IsValid s → IsValid (left_by (update_runtime_path id path s))
unfolding update_runtime_path
update_runtime_path-IsValid id path s v = elim (Bool-cases (exists (identified id) s.boxes)) [
  | inl e ↦
      rw (e, update_runtime_path)
        (update_boxes-IsValid (identified id) (λ b. record b { runtime_path = path }) (λ b. refl)
          (λ b. refl) (λ b. refl)
          (AtMostOne-update default_box (identified id) (λ b. record b { runtime_path = path })
            s.boxes (λ b. refl) v.one_default)
          v)
  | inr e ↦ rw (e, update_runtime_path) v
]

pub remove-IsValid : (name : String) (s : Store) → IsValid s → IsValid (left_by (remove name s))
unfolding remove
remove-IsValid name s v = elim (Option-cases (find (named name) s.boxes)) [
  | inl e ↦ rw (e, remove) v
  | inr (r, e) ↦
      rw (e, remove)
        record {
          names = Distinct-delete (λ (b : Record). b.name) (named name) s.boxes v.names;
          ids = Distinct-delete (λ (b : Record). b.id) (named name) s.boxes v.ids;
          identities =
              Distinct-delete (λ (b : Record). b.remote_identity) (named name) s.boxes v.identities;
          one_default = AtMostOne-delete default_box (named name) s.boxes v.one_default;
          references =
              All-both
                (λ (o : Observation).
                  exists (λ b. named name b && identified o.box_id b) s.boxes ≡ false)
                (RefersTo s.boxes) (RefersTo (delete (named name) s.boxes)) _
                (λ o gone there.
                  exists-delete (identified o.box_id) (named name) s.boxes gone there)
                (None-delete _ s.observations)
                (All-delete (RefersTo s.boxes) _ s.observations v.references);
          observed_once =
              Distinct-delete (λ (o : Observation). o.box_id) _ s.observations v.observed_once;
          reserved_once =
              Distinct-delete (λ (o : AddOperation). o.name) (reserves name) s.add_operations
                v.reserved_once;
        }
]
