-- ===== src/Scenario.antt =====
-- A machine and a provider for the tests: the environment is the log of the calls that act.
use Prim.Native.String.{String}
use schooner.Prelude.{true, false, List, [], ◌∷◌}
use schooner.Prelude.Results.{done, fail, M}
use schooner.Box.Types.{HostRuntime, Capabilities, AddRequest, Error, plain, host_installed, Record}
use schooner.Box.Service.{Runtime, World}
use schooner.Acquisition.Service.{Cloud, ProvisionRequest}
use schooner.Acquisition.Types.{digital_ocean}
use schooner.Inventory.{Store, empty_store}

abbrev pub Log : Type 0
Log = List String

abbrev pub host : HostRuntime
host = record {
  path = "/home/u/.local/bin/schooner";
  version = "v1.0.0";
  protocol_version = "1";
  capabilities = [];
}

abbrev pub machine : Capabilities
machine = record {
  os_id = "ubuntu";
  os_version = "24.04";
  architecture = "amd64";
  home = "/home/u";
  remote_identity = "machine-1";
  worktree_root = "/home/u/schooner";
  worktree_root_exists = true;
  git = record { available = true; version = "2.43" };
  tmux = record { available = true; version = "3.4" };
  passwordless_sudo = true;
  host = host;
}

abbrev says : {A : Type 0} → String → A → M Log Error A
says call a log = done a (call ∷ log)

abbrev pub runtime : Runtime Log
runtime = record {
  resolve = λ c log. done tt log;
  inspect = λ c root log. done machine log;
  ensure_identity = λ c candidate. says "identity" "machine-1";
  ensure_host = λ c request. says "install" (record {
    runtime = host;
    previous_version = "";
    target_version = "v1.0.0";
    action = host_installed;
  });
  inspect_host = λ c h root identity log. done machine log;
  configure_host = λ c h root identity. says "configure" tt;
  install_tools = λ c tools. says "tools" tt;
  ensure_worktree_root = λ c root. says "root" "/home/u/schooner";
  now = λ log. (7, log);
  new_id = λ log. done "id-1" log;
}

abbrev pub request : AddRequest
request = record {
  name = "dev";
  ssh_destination = "u@host";
  identity_file = "";
  worktree_root = "";
  acquisition = "";
  provider = "";
  provider_resource_id = "";
  provider_correlation_id = "";
  credential_profile = "";
  provider_region = "";
  accept_new_host_key = false;
  batch_mode = true;
  progress = false;
}

abbrev pub start : World Store Log
start = record { store = empty_store; env = []; events = [] }

abbrev pub box : Record
box = record {
  id = "id-1";
  name = "dev";
  acquisition = "provisioned";
  ssh_destination = "u@host";
  identity_file = "";
  remote_identity = "machine-1";
  runtime_path = "/home/u/.local/bin/schooner";
  worktree_root = "/home/u/schooner";
  provider = digital_ocean;
  provider_resource_id = "42";
  provider_correlation_id = "c-1";
  credential_profile = "digitalocean/main";
  provider_region = "ams3";
  is_default = false;
  created_at = 7;
  updated_at = 7;
}

abbrev pub owned : World Store Log
owned = record start { store = record empty_store { boxes = box ∷ [] } }

-- A provider that creates machines and destroys none.
abbrev pub cloud : Cloud Log
cloud = record {
  resolve_credential =
      λ profile log. done (record { profile = "digitalocean/main"; token = "t" }) log;
  ensure_identity =
      λ log. done (record { public_key = "ssh-ed25519 A"; private_key = "/home/u/key" }) log;
  wait_ready = λ c log. done tt log;
  create_machine = λ token r.
      says "create" (record {
        resource_id = "42";
        public_ipv4 = "192.0.2.1";
        ssh_username = "u";
        warning = "";
      });
  inspect_resource =
      λ token ref log. done (record { id = "42"; name = "dev"; correlation_id = "c-1" }) log;
  destroy_resource = λ token ref log. fail (plain "busy") log;
  now = λ log. (7, log);
  new_id = λ log. done "c-1" log;
}

abbrev pub selection : ProvisionRequest
selection = record {
  name = "dev";
  profile = "digitalocean/main";
  region = "ams3";
  size = "s-1vcpu-1gb";
  image = "ubuntu-24-04-x64";
  network_id = "";
  access_key_ids = "8" ∷ "3" ∷ [];
  local_public_keys = [];
  automatic_backups = false;
  ipv6 = true;
  worktree_root = "";
  accept_new_host_key = true;
  batch_mode = true;
  progress = false;
}
