-- ===== src/Inventory/Tests.antt =====
-- Runs of the inventory and of the workflows over it, and the theorems at concrete inputs.
use Prim.Native.String.{String}
use schooner.Prelude.{
  ℕ, Bool, true, false, List, [], ◌∷◌, none, some, ◌≡◌, ◌≢◌, refl, ◌==◌, string_eq,
}
use schooner.Prelude.Results.{done}
use schooner.Box.Types.{HostRuntime, Capabilities, Record, Observation, AddOperation}
use schooner.Inventory.{
  Store, empty_store, box_row, find_by_name, find_by_id, last_observation, complete_add, remove,
}
use schooner.Inventory.Valid.{IsValid}
use schooner.Inventory.Reach.{
  Call, calls_begin_add, calls_complete_add, calls_set_default, run_calls, run_calls-IsValid,
}
use schooner.Inventory.Laws.{IsRegistered, complete_add-IsRegistered, IsRemoved, remove-IsRemoved}

abbrev host : HostRuntime
host = record {
  path = "/home/u/.local/bin/schooner";
  version = "v1.0.0";
  protocol_version = "1";
  capabilities = [];
}

abbrev machine : Capabilities
machine = record {
  os_id = "ubuntu";
  os_version = "24.04";
  architecture = "amd64";
  home = "/home/u";
  remote_identity = "machine-1";
  worktree_root = "/home/u/schooner";
  worktree_root_exists = true;
  git = record { available = true; version = "2.43" };
  tmux = record { available = true; version = "3.4" };
  passwordless_sudo = true;
  host = host;
}

abbrev box : String → String → String → Record
box id name identity = record {
  id = id;
  name = name;
  acquisition = "adopted";
  ssh_destination = "u@host";
  identity_file = "";
  remote_identity = identity;
  runtime_path = "/home/u/.local/bin/schooner";
  worktree_root = "/home/u/schooner";
  provider = "";
  provider_resource_id = "";
  provider_correlation_id = "";
  credential_profile = "";
  provider_region = "";
  is_default = false;
  created_at = 7;
  updated_at = 7;
}

abbrev reservation : String → AddOperation
reservation name = record {
  name = name;
  ssh_destination = "u@host";
  worktree_root = "~/schooner";
  checkpoint = "identity";
  remote_identity = "machine-1";
  updated_at = 7;
}

abbrev seen : Observation
seen = record { box_id = "id-1"; observed_at = 7; capabilities = machine }

abbrev calls : List Call
calls =
    calls_begin_add (reservation "dev")
    ∷ calls_complete_add (reservation "dev") (box "id-1" "dev" "machine-1") seen
    ∷ calls_set_default "dev"
    ∷ []

abbrev registered : Store
registered = record {
  boxes = box "id-1" "dev" "machine-1" ∷ [];
  observations = seen ∷ [];
  add_operations = [];
  provision_operations = [];
  destroy_operations = [];
}

abbrev removed : Store
removed = empty_store

run_calls-IsValid_example : IsValid (run_calls calls empty_store)
run_calls-IsValid_example = run_calls-IsValid calls

completes :
    complete_add (reservation "dev") (box "id-1" "dev" "machine-1") seen empty_store
    ≡ done tt registered
unfolding complete_add schooner.Inventory.box_refused schooner.Prelude.Table.exists
    schooner.Inventory.save_observation box_row schooner.Prelude.Sort.sort
    schooner.Prelude.Table.delete
completes = refl

complete_add-IsRegistered_example :
    IsRegistered (reservation "dev") (box "id-1" "dev" "machine-1") seen registered
complete_add-IsRegistered_example =
    complete_add-IsRegistered (reservation "dev") (box "id-1" "dev" "machine-1") seen empty_store
      registered completes

removes : remove "dev" registered ≡ done (box "id-1" "dev" "machine-1") removed
unfolding remove schooner.Prelude.Table.find schooner.Prelude.Table.delete
    schooner.Prelude.Table.exists
removes = refl

remove-IsRemoved_example : IsRemoved "dev" (box "id-1" "dev" "machine-1") registered removed
remove-IsRemoved_example =
    remove-IsRemoved "dev" (box "id-1" "dev" "machine-1") registered removed removes
