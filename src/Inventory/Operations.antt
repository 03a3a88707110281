-- ===== src/Inventory/Operations.antt =====
-- The recorded operations of internal/inventory/sqlite/store.go: provisioning and destruction. The
-- name is the primary key of a provisioning operation and the correlation identifier is unique, so a
-- statement that names one row changes a row or none.
use Prim.Native.String.{String}
use schooner.Prelude.{Bool, ◌&&◌, ◌∷◌, [], ◌++◌, none, some, ◌==◌, string_eq, if◌then◌else◌}
use schooner.Prelude.Results.{ok, err, done, fail, M}
use schooner.Prelude.Table.{find, exists, delete, update}
use schooner.Box.Types.{Record, Error, new_error, is_not_found, not_found, BoxResult}
use schooner.Acquisition.Types.{
  ProvisionOperation, DestroyOperation, ResourceRef, conflict_for_operation, digital_ocean,
}
use schooner.Inventory.{Store, already_registered}

abbrev pub for_name : String → ProvisionOperation → Bool
for_name name p = p.name == name

unfoldable pub find_provision : String → Store → BoxResult ProvisionOperation
find_provision name s = elim (find (for_name name) s.provision_operations) [
  | none ↦ err (not_found name)
  | some p ↦ ok p
]

-- A new operation, which the table refuses if its correlation identifier is taken. The column of
-- the warning has a default.
abbrev insert_provision : ProvisionOperation → M Store Error ProvisionOperation
insert_provision requested s =
    if exists (λ (p : ProvisionOperation). p.correlation_id == requested.correlation_id)
      s.provision_operations
    then fail already_registered s
    else done requested (record s {
      provision_operations = s.provision_operations ++ (record requested { warning = "" }) ∷ [];
    })

unfoldable pub begin_provision : ProvisionOperation → M Store Error ProvisionOperation
begin_provision requested s = elim (find_provision requested.name s) [
  | ok existing ↦ elim (conflict_for_operation existing requested) [
    | some e ↦ fail e s
    | none ↦ done existing s
  ]
  | err e ↦ if is_not_found e then insert_provision requested s else fail e s
]

abbrev pub of_operation : ProvisionOperation → ProvisionOperation → Bool
of_operation op p = p.name == op.name && p.correlation_id == op.correlation_id

unfoldable pub checkpoint_provision : ProvisionOperation → M Store Error (Unit {0})
checkpoint_provision op s =
    if exists (of_operation op) s.provision_operations
    then done tt (record s {
      provision_operations =
          update (of_operation op)
            (λ p. record p {
              resource_id = op.resource_id;
              ssh_destination = op.ssh_destination;
              identity_file = op.identity_file;
              checkpoint = op.checkpoint;
              updated_at = op.updated_at;
              warning = op.warning;
            })
            s.provision_operations;
    })
    else fail (not_found op.name) s

-- The box that a provisioning operation has led to.
abbrev pub committed : String → ProvisionOperation → Record → Bool
committed box_id p b =
    b.id == box_id
    && b.name == p.name
    && b.acquisition == "provisioned"
    && b.provider == digital_ocean
    && b.provider_resource_id == p.resource_id
    && b.provider_correlation_id == p.correlation_id
    && b.credential_profile == p.profile

abbrev pub completes : ProvisionOperation → String → Store → ProvisionOperation → Bool
completes op box_id s p =
    p.name == op.name
    && p.correlation_id == op.correlation_id
    && p.resource_id == op.resource_id
    && p.profile == op.profile
    && exists (committed box_id p) s.boxes

unfoldable pub complete_provision : ProvisionOperation → String → M Store Error (Unit {0})
complete_provision op box_id s =
    if exists (completes op box_id s) s.provision_operations
    then done tt
        (record s { provision_operations = delete (completes op box_id s) s.provision_operations })
    else fail
        (new_error "conflict" "provisioning operation or committed box changed before completion") s

abbrev pub of_box : String → DestroyOperation → Bool
of_box box_id d = d.box_id == box_id

abbrev same_resource : ResourceRef → ResourceRef → Bool
same_resource a b =
    a.provider == b.provider
    && a.resource_id == b.resource_id
    && a.correlation_id == b.correlation_id
    && a.profile == b.profile

-- A second request for the same resource only renews the time; one for another changes nothing.
unfoldable pub begin_destroy : DestroyOperation → M Store Error (Unit {0})
begin_destroy op s = done tt (record s {
  destroy_operations =
      if exists (of_box op.box_id) s.destroy_operations
      then update (λ d. of_box op.box_id d && same_resource d.resource op.resource)
          (λ d. record d { updated_at = op.updated_at }) s.destroy_operations
      else s.destroy_operations ++ op ∷ [];
})

unfoldable pub checkpoint_destroy : DestroyOperation → M Store Error (Unit {0})
checkpoint_destroy op s = done tt (record s {
  destroy_operations =
      update (of_box op.box_id)
        (λ d. record d { checkpoint = op.checkpoint; updated_at = op.updated_at })
        s.destroy_operations;
})

unfoldable pub complete_destroy : String → M Store Error (Unit {0})
complete_destroy box_id s =
    done tt (record s { destroy_operations = delete (of_box box_id) s.destroy_operations })
