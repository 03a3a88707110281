-- ===== src/Inventory/Resume.antt =====
-- internal/inventory/sqlite/store.go: an interrupted provisioning operation can be taken up again.
use Prim.Native.String.{String}
use mathlib.Core.Path.{subst}
use schooner.Prelude.{
  ℕ, Bool, true, false, [], ◌∷◌, ◌++◌, some, ◌≡◌, refl, sym, ap, ◌∙◌, inl, inr, arith, ◌==◌,
  string_eq, ==-refl, eq_of_==, Bool-cases, Option-cases,
}
use schooner.Prelude.Results.{ok, err, done, Result-cases}
use schooner.Prelude.Table.{find, exists, update, find_passes, find-append}
use schooner.Prelude.Table.Found.{find-update, exists-passing, absent_find}
use schooner.Box.Types.{Error, is_not_found}
use schooner.Acquisition.Types.{ProvisionOperation, conflict_for_operation}
use schooner.Inventory.{Store}
use schooner.Inventory.Operations.{
  for_name, find_provision, begin_provision, checkpoint_provision, of_operation,
}

-- The operation at a later checkpoint, with what is known by then.
abbrev pub at_checkpoint :
    ProvisionOperation → String → String → String → String → ℕ → String → ProvisionOperation
at_checkpoint op name resource_id destination identity_file t warning = record op {
  checkpoint = name;
  resource_id = resource_id;
  ssh_destination = destination;
  identity_file = identity_file;
  updated_at = t;
  warning = warning;
}

abbrev written : ProvisionOperation → ProvisionOperation → ProvisionOperation
written op p = record p {
  resource_id = op.resource_id;
  ssh_destination = op.ssh_destination;
  identity_file = op.identity_file;
  checkpoint = op.checkpoint;
  updated_at = op.updated_at;
  warning = op.warning;
}

-- A checkpoint of a recorded operation is written, and is what is found.
checkpoint-finds :
    (op p : ProvisionOperation) (s : Store)
    → find (for_name op.name) s.provision_operations ≡ some p
    → p.correlation_id ≡ op.correlation_id
    → p.name ≡ op.name
    → (v : Store) × (checkpoint_provision op s ≡ done tt v)
      × (find_provision op.name v ≡ ok (written op p))
unfolding checkpoint_provision find_provision
checkpoint-finds op p s found same_id same_name =
    let passes : of_operation op p ≡ true =
      rw (same_id, same_name, ==-refl op.name, ==-refl op.correlation_id) refl in
    (
      record s {
        provision_operations = update (of_operation op) (written op) s.provision_operations;
      },
      rw (
        checkpoint_provision,
        exists-passing (for_name op.name) (of_operation op) s.provision_operations found passes,
      ),
      rw (
        find_provision,
        find-update (for_name op.name) (of_operation op) (written op) s.provision_operations
            (λ y. refl) found passes,
      ),
    )

found_operation :
    (name : String) (s : Store) (p : ProvisionOperation)
    → find_provision name s ≡ ok p
    → find (for_name name) s.provision_operations ≡ some p
unfolding find_provision
found_operation name s p h = elim (Option-cases (find (for_name name) s.provision_operations)) [
  | inl e ↦ absurd (ground arith)
  | inr (d, e) ↦ ground arith
]

absent_operation :
    (name : String) (s : Store) (m : Error)
    → find_provision name s ≡ err m
    → exists (for_name name) s.provision_operations ≡ false
unfolding find_provision
absent_operation name s m h = elim (Option-cases (find (for_name name) s.provision_operations)) [
  | inl e ↦ absent_find (for_name name) s.provision_operations e
  | inr (d, e) ↦ absurd (ground arith)
]

abbrev same_correlation : ProvisionOperation → ProvisionOperation → Bool
same_correlation op p = p.correlation_id == op.correlation_id

abbrev new_row : ProvisionOperation → ProvisionOperation
new_row op = record op { warning = "" }

begin_provision-new :
    (op begun : ProvisionOperation) (s s' : Store) (m : Error)
    → begin_provision op s ≡ done begun s'
    → find_provision op.name s ≡ err m
    → (op ≡ begun)
      × (s' ≡ record s { provision_operations = s.provision_operations ++ new_row op ∷ [] })
unfolding begin_provision
begin_provision-new op begun s s' m h e = elim (Bool-cases (is_not_found m)) [
  | inr n ↦ absurd (ground arith)
  | inl n ↦ elim (Bool-cases (exists (same_correlation op) s.provision_operations)) [
    | inl taken ↦ absurd (ground arith)
    | inr free ↦ (ground arith, ground arith)
  ]
]

-- What the start of an operation leaves: the operation under its name, possibly with the default
-- for its warning.
begin_provision-records :
    (op begun : ProvisionOperation) (s s' : Store)
    → begin_provision op s ≡ done begun s'
    → (begun.name ≡ op.name)
      × (p : ProvisionOperation) × (find (for_name begun.name) s'.provision_operations ≡ some p)
      × ((record p { warning = begun.warning }) ≡ begun)
unfolding begin_provision
begin_provision-records op begun s s' h = elim (Result-cases (find_provision op.name s)) [
  | inl (p, e) ↦ elim (Option-cases (conflict_for_operation p op)) [
    | inr (c, q) ↦ absurd (ground arith)
    | inl q ↦
        let found = found_operation op.name s p e in
        let named : p.name ≡ op.name =
          eq_of_== (find_passes (for_name op.name) s.provision_operations found) in
        let same : p ≡ begun = ground arith in
        let left : s ≡ s' = ground arith in
        (
          rw (← same) named,
          begun,
          rw (← left, ← same)
              (subst (λ n. find (for_name n) s.provision_operations ≡ some p) (sym named) found),
          refl,
        )
  ]
  | inr (m, e) ↦
      let (same, left) = begin_provision-new op begun s s' m h e in
      (
        ap (λ (p : ProvisionOperation). p.name) (sym same),
        new_row op,
        rw (left, ← same)
            (find-append (for_name op.name) s.provision_operations (new_row op)
              (absent_operation op.name s m e) (==-refl op.name)),
        rw same refl,
      )
]

-- A provisioning operation that the store has started, or has given back from an earlier attempt,
-- can be brought to any next checkpoint, with whatever resource, destination, identity file, time and
-- warning it then has, and it is found under the name that was asked for with all of these and
-- otherwise as it was: a crash after a checkpoint loses nothing of the operation.
pub begin_provision-resumable :
    (op begun : ProvisionOperation) (s s' : Store)
    (name resource_id destination identity_file : String) (t : ℕ) (warning : String)
    → begin_provision op s ≡ done begun s'
    → (v : Store) × (checkpoint_provision
          (at_checkpoint begun name resource_id destination identity_file t warning)
          s'
        ≡ done tt v)
      × (find_provision op.name v
          ≡ ok (at_checkpoint begun name resource_id destination identity_file t warning))
begin_provision-resumable op begun s s' name resource_id destination identity_file t warning h =
    let (same_name, p, found, same) = begin_provision-records op begun s s' h in
    let next = at_checkpoint begun name resource_id destination identity_file t warning in
    let (v, ran, finds) =
      checkpoint-finds next p s' found (ap (λ (q : ProvisionOperation). q.correlation_id) same)
        (ap (λ (q : ProvisionOperation). q.name) same) in
    (
      v,
      ran,
      subst (λ n. find_provision n v ≡ ok next) same_name
          (finds ∙ ap (λ q. ok (written next q)) same),
    )
