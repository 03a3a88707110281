-- ===== src/Inventory/Recorded.antt =====
-- internal/inventory/sqlite/store.go: the calls for the operations of provisioning and destruction
-- leave the boxes, their observations and the reservations alone.
use Prim.Native.String.{String}
use schooner.Prelude.{List, inl, inr, string_eq, ◌==◌, Bool-cases, Option-cases}
use schooner.Prelude.Results.{Result-cases}
use schooner.Prelude.Table.{exists}
use schooner.Box.Types.{is_not_found}
use schooner.Acquisition.Types.{ProvisionOperation, DestroyOperation, conflict_for_operation}
use schooner.Inventory.{Store}
use schooner.Inventory.Operations.{
  find_provision, begin_provision, checkpoint_provision, complete_provision, of_operation,
  completes, begin_destroy, checkpoint_destroy, complete_destroy,
}
use schooner.Inventory.Valid.{IsValid, left_by}

with_operations-IsValid :
    (s : Store) (ps : List ProvisionOperation) (ds : List DestroyOperation)
    → IsValid s
    → IsValid (record s { provision_operations = ps; destroy_operations = ds })
with_operations-IsValid s ps ds v = record {
  names = v.names;
  ids = v.ids;
  identities = v.identities;
  one_default = v.one_default;
  references = v.references;
  observed_once = v.observed_once;
  reserved_once = v.reserved_once;
}

pub begin_provision-IsValid :
    (op : ProvisionOperation) (s : Store) → IsValid s → IsValid (left_by (begin_provision op s))
unfolding begin_provision
begin_provision-IsValid op s v = elim (Result-cases (find_provision op.name s)) [
  | inl (p, e) ↦ elim (Option-cases (conflict_for_operation p op)) [
    | inl none_found ↦ rw (begin_provision, e, none_found) v
    | inr (c, conflicting) ↦ rw (begin_provision, e, conflicting) v
  ]
  | inr (m, e) ↦ elim (Bool-cases (is_not_found m)) [
    | inr other ↦ rw (begin_provision, e, other) v
    | inl missing ↦
        elim (Bool-cases (
          exists (λ (p : ProvisionOperation). p.correlation_id == op.correlation_id)
            s.provision_operations)) [
              | inl taken ↦ rw (begin_provision, e, missing, taken) v
              | inr free ↦
                  rw (begin_provision, e, missing, free)
                    (with_operations-IsValid s _ s.destroy_operations v)
            ]
  ]
]

pub checkpoint_provision-IsValid :
    (op : ProvisionOperation) (s : Store)
    → IsValid s
    → IsValid (left_by (checkpoint_provision op s))
unfolding checkpoint_provision
checkpoint_provision-IsValid op s v =
    elim (Bool-cases (exists (of_operation op) s.provision_operations)) [
      | inl e ↦ rw (checkpoint_provision, e) (with_operations-IsValid s _ s.destroy_operations v)
      | inr e ↦ rw (checkpoint_provision, e) v
    ]

pub complete_provision-IsValid :
    (op : ProvisionOperation) (box_id : String) (s : Store)
    → IsValid s
    → IsValid (left_by (complete_provision op box_id s))
unfolding complete_provision
complete_provision-IsValid op box_id s v =
    elim (Bool-cases (exists (completes op box_id s) s.provision_operations)) [
      | inl e ↦ rw (complete_provision, e) (with_operations-IsValid s _ s.destroy_operations v)
      | inr e ↦ rw (complete_provision, e) v
    ]

pub begin_destroy-IsValid :
    (op : DestroyOperation) (s : Store) → IsValid s → IsValid (left_by (begin_destroy op s))
unfolding begin_destroy
begin_destroy-IsValid op s v = with_operations-IsValid s s.provision_operations _ v

pub checkpoint_destroy-IsValid :
    (op : DestroyOperation) (s : Store) → IsValid s → IsValid (left_by (checkpoint_destroy op s))
unfolding checkpoint_destroy
checkpoint_destroy-IsValid op s v = with_operations-IsValid s s.provision_operations _ v

pub complete_destroy-IsValid :
    (box_id : String) (s : Store) → IsValid s → IsValid (left_by (complete_destroy box_id s))
unfolding complete_destroy
complete_destroy-IsValid box_id s v = with_operations-IsValid s s.provision_operations _ v
