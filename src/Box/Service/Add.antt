-- ===== src/Box/Service/Add.antt =====
-- `Service.Add`: register a machine under a name.
use Prim.Native.String.{String}
use schooner.Prelude.{ℕ, true, false, [], ◌∷◌, ◌==◌, string_eq, if◌then◌else◌}
use schooner.Prelude.Results.{ok, err, done, ◌>>=◌, ◌>>◌, pure, check}
use schooner.Box.Types.{
  resolve, connect, inspect, identity, save, Connection, host_repair, Capabilities, Record,
  Observation, AddOperation, AddRequest, AddResult, Error, coded, BoxResult, is_not_found,
  default_worktree_root,
}
use schooner.Box.Validate.{validate_name, validate_ssh_destination, validate_worktree_root}
use schooner.Box.Service.{Inventory, Runtime, Flow, on_store, on_env, valid, run_step, certify}
use schooner.Box.Service.Prepare.{HostPreparationRequest, HostPreparationResult, prepare_host}

-- A lookup that must not find a box.
abbrev pub must_be_free : BoxResult Record → Error → BoxResult (Unit {0})
must_be_free (ok r) taken = err taken
must_be_free (err e) taken = if is_not_found e then ok tt else err e

abbrev pub must_be_new : BoxResult Record → BoxResult (Unit {0})
must_be_new (ok r) =
    err (coded "conflict" "this machine is already registered as %q" (("box", r.name) ∷ []))
must_be_new (err e) = if is_not_found e then ok tt else err e

abbrev pub or_default : String → String → String
or_default value default = if value == "" then default else value

abbrev pub tick : {S R : Type 0} → Runtime R → Flow S R ℕ
tick rt w = let (t, r) = rt.now w.env in done t (record w { env = r })

module _ {S R : Type 0} (inv : Inventory S) (rt : Runtime R) (req : AddRequest) where
  abbrev pub root_of : String
  root_of = or_default req.worktree_root default_worktree_root

  abbrev pub connection_of : Connection
  connection_of = record {
    destination = req.ssh_destination;
    identity_file = req.identity_file;
    accept_new_host_key = req.accept_new_host_key;
    batch_mode = req.batch_mode;
  }

  unfoldable pub name_free : Flow S R (Unit {0})
  name_free w =
      check
        (must_be_free (inv.find_by_name req.name w.store)
          (coded "conflict" "box name %q is already in use" []))
        w

  -- An empty identity has not been established yet.
  unfoldable pub identity_free : String → Flow S R (Unit {0})
  identity_free id w =
      check (if id == "" then ok tt else must_be_new (inv.find_by_remote_identity id w.store)) w

  -- The checks that only read: validation, reachability, the operating system, the identity.
  unfoldable pub preflight : Flow S R Capabilities
  preflight = do
    valid (validate_name req.name)
    valid (validate_ssh_destination req.ssh_destination)
    valid (validate_worktree_root root_of)
    name_free
    run_step req.progress resolve "Resolve SSH destination" (on_env (rt.resolve connection_of))
    c ←
        run_step req.progress connect "Connect and verify host trust"
          (on_env (rt.inspect connection_of root_of))
    run_step req.progress inspect "Inspect Ubuntu capabilities" (check (certify c))
    identity_free c.remote_identity
    pure c

  abbrev pub operation : String → String → ℕ → AddOperation
  operation checkpoint id t = record {
    name = req.name;
    ssh_destination = req.ssh_destination;
    worktree_root = root_of;
    checkpoint = checkpoint;
    remote_identity = id;
    updated_at = t;
  }

  unfoldable pub establish : String → Flow S R String
  establish id = run_step req.progress identity "Establish stable box identity" do
    candidate ← if id == "" then on_env rt.new_id else pure id
    on_env (rt.ensure_identity connection_of candidate)

  abbrev pub new_record : String → String → HostPreparationResult → ℕ → Record
  new_record id machine prepared t = record {
    id = id;
    name = req.name;
    acquisition = or_default req.acquisition "adopted";
    ssh_destination = req.ssh_destination;
    identity_file = req.identity_file;
    remote_identity = machine;
    runtime_path = prepared.runtime_path;
    worktree_root = prepared.worktree_root;
    provider = req.provider;
    provider_resource_id = req.provider_resource_id;
    provider_correlation_id = req.provider_correlation_id;
    credential_profile = req.credential_profile;
    provider_region = req.provider_region;
    is_default = false;
    created_at = t;
    updated_at = t;
  }

  abbrev pub preparation_of : Capabilities → String → HostPreparationRequest
  preparation_of c machine = record {
    connection = connection_of;
    identity = machine;
    runtime_path = "";
    worktree_root = root_of;
    capabilities = c;
    install_mode = host_repair;
    prerequisites = true;
    progress = req.progress;
    identity_changed = "remote box identity changed during setup";
  }

  abbrev pub result_of : Record → HostPreparationResult → AddResult
  result_of box prepared = record {
    box = box;
    capabilities = prepared.capabilities;
    installed = prepared.installed;
    verified = "git" ∷ "schooner" ∷ "tmux" ∷ [];
  }

  -- The box is written to the inventory with what was seen on it.
  unfoldable pub save_box : AddOperation → Record → HostPreparationResult → ℕ → Flow S R AddResult
  save_box op box prepared now = do
    let seen : Observation = record {
      box_id = box.id;
      observed_at = now;
      capabilities = prepared.capabilities;
    }
    run_step req.progress save "Save local inventory" (on_store (inv.complete_add op box seen))
    pure (result_of box prepared)

  -- Everything behind the reservation.
  unfoldable pub converge : Capabilities → Flow S R AddResult
  converge c = do
    machine ← establish c.remote_identity
    t ← tick rt
    let op = operation "identity" machine t
    on_store (inv.checkpoint_add op)
    prepared ← prepare_host rt (preparation_of c machine)
    now ← tick rt
    id ← on_env rt.new_id
    save_box op (new_record id machine prepared now) prepared now

  unfoldable pub add : Flow S R AddResult
  add = do c ← preflight; t ← tick rt; on_store (inv.begin_add (operation "" "" t)); converge c
