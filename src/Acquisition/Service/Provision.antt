-- ===== src/Acquisition/Service/Provision.antt =====
-- `Service.Provision`: create a machine at the provider and add it, or resume what was interrupted.
use Prim.Native.String.{String, ◌++◌}
use Prim.Native.Nat.{◌+◌}
use schooner.Prelude.{
  ℕ, Bool, true, not, ◌||◌, [], ◌∷◌, none, some, ◌==◌, ◌!=◌, string_eq, ltb, length, if◌then◌else◌,
}
use schooner.Prelude.Results.{ok, err, done, fail, ◌>>=◌, ◌>>◌, pure, throw, check}
use schooner.Prelude.Sort.{sort, sort_strings, compare_strings}
use schooner.Box.Types.{
  provision, wait_ssh, Connection, Record, AddRequest, new_error, is_not_found, BoxResult,
}
use schooner.Box.Validate.{validate_name}
use schooner.Box.Service.{Inventory, Runtime, Flow, on_store, on_env, read_store, valid, run_step}
use schooner.Box.Service.Add.{add}
use schooner.Acquisition.Types.{
  PublicKey, ResourceRef, ProvisionedMachine, digital_ocean, ProvisionOperation,
  conflict_for_operation,
}
use schooner.Acquisition.Service.{
  Operations, Credential, Identity, CloudRequest, Cloud, ProvisionRequest, ProvisionResult,
  failure_checkpoint, clock, ignoring,
}

-- The selections that are refused before anything is read.
unfoldable pub selections : ProvisionRequest → BoxResult (Unit {0})
selections req =
    if req.region == "" || req.size == "" || req.image == ""
    then err (new_error "invalid_input" "DigitalOcean region, size, and image are required")
    else if ltb 15 (length req.access_key_ids + length req.local_public_keys)
    then err (new_error "invalid_input" "select at most 15 additional SSH keys")
    else ok tt

unfoldable pub requested : ProvisionRequest → ℕ → ProvisionOperation
requested req t = record {
  name = req.name;
  correlation_id = "";
  profile = req.profile;
  region = req.region;
  size = req.size;
  image = req.image;
  network_id = req.network_id;
  access_key_ids = sort_strings req.access_key_ids;
  local_public_keys =
      sort (λ (a b : PublicKey). compare_strings a.fingerprint b.fingerprint) req.local_public_keys;
  automatic_backups = req.automatic_backups;
  ipv6 = req.ipv6;
  worktree_root = req.worktree_root;
  resource_id = "";
  ssh_destination = "";
  identity_file = "";
  checkpoint = "requested";
  warning = "";
  updated_at = t;
}

-- The box of an operation whose local completion was interrupted.
unfoldable pub is_committed : ProvisionOperation → Record → Bool
is_committed existing r = not (
    r.acquisition != "provisioned"
    || r.provider != digital_ocean
    || existing.resource_id == ""
    || r.provider_resource_id != existing.resource_id
    || r.provider_correlation_id != existing.correlation_id
    || r.credential_profile != existing.profile)

module _ {S R : Type 0} (ops : Operations S) (inv : Inventory S) (rt : Runtime R) (cloud : Cloud R)
    (req : ProvisionRequest) where
  -- The operation at a new checkpoint, written to the store.
  unfoldable pub checkpointed : ProvisionOperation → String → Flow S R ProvisionOperation
  checkpointed op name = do
    t ← clock cloud
    let op' : ProvisionOperation = record op { checkpoint = name; updated_at = t }
    on_store (ops.checkpoint_provision op')
    pure op'

  -- A step whose failure is written to the store, if the store can.
  unfoldable pub guarded : {A : Type 0} → ProvisionOperation → Flow S R A → Flow S R A
  guarded {A} op m w = elim (m w) [
    | done a v ↦ done a v
    | fail e v ↦ (ignoring (checkpointed op (failure_checkpoint e)) >>= λ _. throw {A = A} e) v
  ]

  abbrev pub cloud_request : ProvisionOperation → Identity → CloudRequest
  cloud_request op identity = record {
    name = req.name;
    correlation_id = op.correlation_id;
    region = op.region;
    size = op.size;
    image = op.image;
    network_id = op.network_id;
    access_key_ids = op.access_key_ids;
    local_public_keys = op.local_public_keys;
    automatic_backups = op.automatic_backups;
    ipv6 = op.ipv6;
    control_public_key = identity.public_key;
    known_resource_id = op.resource_id;
  }

  abbrev pub add_request : ProvisionOperation → Identity → ResourceRef → AddRequest
  add_request op identity resource = record {
    name = req.name;
    ssh_destination = op.ssh_destination;
    identity_file = identity.private_key;
    worktree_root = req.worktree_root;
    acquisition = "provisioned";
    provider = digital_ocean;
    provider_resource_id = resource.resource_id;
    provider_correlation_id = resource.correlation_id;
    credential_profile = resource.profile;
    provider_region = op.region;
    accept_new_host_key = req.accept_new_host_key;
    batch_mode = true;
    progress = req.progress;
  }

  abbrev pub identified : ProvisionOperation → ProvisionedMachine → ProvisionOperation
  identified op machine = record op {
    resource_id = machine.resource_id;
    warning = machine.warning;
    ssh_destination = machine.ssh_username ++ "@" ++ machine.public_ipv4;
  }

  -- Behind the creation of the machine.
  unfoldable pub prepare_machine :
      ProvisionOperation → Credential → Identity → ProvisionedMachine → Flow S R ProvisionResult
  prepare_machine op credential identity machine = do
    found ← checkpointed (identified op machine) "resource_identified"
    let connection : Connection = record {
      destination = found.ssh_destination;
      identity_file = identity.private_key;
      accept_new_host_key = req.accept_new_host_key;
      batch_mode = true;
    }
    guarded found (
        run_step req.progress wait_ssh "Wait for SSH readiness"
          (on_env (cloud.wait_ready connection)))
    connected ← checkpointed found "connection_ready"
    preparing ← checkpointed connected "remote_preparation"
    let resource : ResourceRef = record {
      provider = digital_ocean;
      resource_id = machine.resource_id;
      correlation_id = op.correlation_id;
      profile = credential.profile;
    }
    added ← guarded preparing (add inv rt (add_request preparing identity resource))
    on_store (ops.complete_provision preparing added.box.id)
    pure (record { added = added; resource = resource; warning = machine.warning })

  -- Behind the reservation of the operation.
  unfoldable pub launch : ProvisionOperation → Credential → Identity → Flow S R ProvisionResult
  launch op credential identity = do
    pending ← checkpointed op "provider_request_pending"
    machine ← guarded pending (
        run_step req.progress provision "Create DigitalOcean Droplet"
          (on_env (cloud.create_machine credential.token (cloud_request pending identity))))
    prepare_machine pending credential identity machine

  abbrev pub begun_as : ProvisionOperation → Credential → Identity → String → ProvisionOperation
  begun_as op credential identity id = record op {
    correlation_id = id;
    profile = credential.profile;
    identity_file = identity.private_key;
  }

  unfoldable pub fresh : ProvisionOperation → Flow S R ProvisionResult
  fresh op = do
    credential ← on_env (cloud.resolve_credential req.profile)
    identity ← on_env cloud.ensure_identity
    id ← on_env cloud.new_id
    begun ← on_store (ops.begin_provision (begun_as op credential identity id))
    launch begun credential identity

  abbrev pub expected_box : ProvisionOperation → Record → BoxResult (Unit {0})
  expected_box existing r =
      if is_committed existing r
      then ok tt
      else err
          (new_error "conflict" "box name is already in use by a different provisioning operation")

  -- The box is committed: only the local completion is left.
  unfoldable pub complete_committed : ProvisionOperation → Record → Flow S R ProvisionResult
  complete_committed existing r = do
    check (expected_box existing r)
    seen ← read_store (ops.last_observation r.id)
    on_store (ops.complete_provision existing r.id)
    pure (record {
      added = record {
        box = r;
        capabilities = seen.capabilities;
        installed = [];
        verified = "git" ∷ "schooner" ∷ "tmux" ∷ [];
      };
      resource = record {
        provider = digital_ocean;
        resource_id = r.provider_resource_id;
        correlation_id = r.provider_correlation_id;
        profile = existing.profile;
      };
      warning = existing.warning;
    })

  abbrev pub conflicts : ProvisionOperation → ProvisionOperation → BoxResult (Unit {0})
  conflicts existing op = elim (conflict_for_operation existing op) [
    | none ↦ ok tt
    | some e ↦ err e
  ]

  abbrev pub with_profile : ProvisionOperation → ProvisionOperation → ProvisionOperation
  with_profile op existing =
      if op.profile == "" then record op { profile = existing.profile } else op

  unfoldable pub resume : ProvisionOperation → ProvisionOperation → Flow S R ProvisionResult
  resume existing op = do
    check (conflicts existing op)
    λ w. elim (ops.find_by_name existing.name w.store) [
      | ok r ↦ complete_committed existing r w
      | err e ↦ if is_not_found e then fresh op w else fail e w
    ]

  unfoldable pub provision_box : Flow S R ProvisionResult
  provision_box = do
    valid (validate_name req.name)
    check (selections req)
    t ← clock cloud
    λ w. elim (ops.find_provision req.name w.store) [
      | ok existing ↦ resume existing (with_profile (requested req t) existing) w
      | err e ↦ if is_not_found e then fresh (requested req t) w else fail e w
    ]
