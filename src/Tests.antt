-- ===== src/Tests.antt =====
-- Runs of the workflows over the inventory, and the theorems at concrete inputs.
use Prim.Native.String.{String}
use schooner.Prelude.{
  ℕ, Bool, true, false, List, [], ◌∷◌, none, some, ◌≡◌, ◌≢◌, ◌↔◌, refl, All, inr, arith, ◌==◌,
  string_eq,
}
use schooner.Prelude.Text.{codes, contains_byte}
use schooner.Prelude.Results.{ok, done, fail, Holds}
use schooner.Box.Types.{
  Record, Observation, AddOperation, AddResult, Error, plain, Capabilities, Connection, HostRuntime,
}
use schooner.Box.Validate.{
  first_or, validate_name, IsSlug, validate_name-IsSlug, validate_ssh_destination,
  validate_ssh_destination_iff,
}
use schooner.Box.Service.{Inventory, Runtime, World}
use schooner.Box.Service.Prepare.{HostPreparationRequest, prepare_host}
use schooner.Box.Service.Add.{add, preparation_of}
use schooner.Box.Service.Reservation.{Looks, Refuses, add-untouched}
use schooner.Box.Service.Success.{Tells, Prepared, prepare_host-IsReady, AddedIn, add-AddedIn}
use schooner.Box.Service.Maintain.{maintain}
use schooner.Box.Service.Maintained.{IsMaintained, maintain-IsMaintained}
use schooner.Box.Types.{NamedRequest, host_update}
use schooner.Box.Resolver.{SelectionRequest, resolve, use_box}
use schooner.Inventory.Reach.{calls_complete_add, run_calls, run_calls-IsValid}
use schooner.Acquisition.Service.Provision.{requested}
use schooner.Acquisition.Service.{Operations}
use schooner.Acquisition.Service.Provision.{provision_box}
use schooner.Acquisition.Service.Destroy.{destroy_box}
use schooner.Acquisition.Service.Safety.{Prepares, provision_box-untouched}
use schooner.Acquisition.Service.Destruction.{
  Undestroyed, Keeping, TellsGone, destroy_box-IsGone, destroy_box-kept,
}
use schooner.Acquisition.Types.{ProvisionOperation, ResourceRef}
use schooner.Acquisition.Service.{Cloud}
use schooner.Inventory.{Store, empty_store, find_by_name, set_default, remove}
use schooner.Link.{LocalLink, Links, links, validate, save_link, find_link}
use schooner.Link.Laws.{Fits, find_link-Fits, save_link-found}
use schooner.Inventory.Laws.{remove-others}
use schooner.Inventory.Interface.{inventory, operations}
use schooner.Inventory.Operations.{begin_provision, find_provision, checkpoint_provision}
use schooner.Inventory.Resume.{at_checkpoint, begin_provision-resumable}
use schooner.Inventory.Selection.{selection, resolve-registered, use_box-resolve}
use schooner.Inventory.Valid.{IsValid, left_by}
use schooner.Inventory.Workflows.{IsStored, add-IsStored}
use schooner.Scenario.{Log, machine, runtime, request, start, box, owned, cloud}
use schooner.Scenario

-- The name is reserved for another machine.
abbrev reserved_start : World Store Log
reserved_start = record start {
  store = record empty_store {
    add_operations =
        record {
          name = "dev";
          ssh_destination = "u@other";
          worktree_root = "~/schooner";
          checkpoint = "";
          remote_identity = "";
          updated_at = 3;
        }
        ∷ [];
  };
}

reserved_start-Refuses : Refuses inventory runtime request reserved_start.store
unfolding schooner.Inventory.begin_add schooner.Prelude.Table.exists schooner.Prelude.Table.find
reserved_start-Refuses t = tt

looks : Looks {S = Store} runtime (λ _ log. log ≡ [])
looks = record { resolves = λ c s log h. h; inspects = λ c root s log h. h; ticks = λ s log h. h }

add-untouched_example :
    Holds (add inventory runtime request reserved_start) (λ _ _. ⊥) (λ _ v. v.env ≡ [])
add-untouched_example =
    add-untouched inventory runtime request (λ log. log ≡ []) looks reserved_start
      reserved_start-Refuses refl

-- What an inspection tells of the machine, and the one root there is.
abbrev Shown : Connection → HostRuntime → String → String → Capabilities → Log → Type 0
Shown c host root identity seen log = seen ≡ machine

abbrev Rooted : Connection → String → String → Type 0
Rooted c asked root = root ≡ "/home/u/schooner"

runtime-Tells : Tells Shown Rooted runtime
runtime-Tells = record {
  inspects = λ c host root identity log. refl;
  roots = λ c asked log. refl;
  ticks = λ c host root identity seen log shown. shown;
  draws = λ c host root identity seen log shown. shown;
}

add-AddedIn_example :
    Holds
      (add inventory runtime request start)
      (λ res v. AddedIn Shown Rooted inventory runtime request res v.store v.env)
      (λ _ _. Unit)
add-AddedIn_example = add-AddedIn inventory runtime runtime-Tells request start

abbrev preparation : HostPreparationRequest
preparation = preparation_of inventory runtime request machine "machine-1"

prepare_host-IsReady_example :
    Holds
      (prepare_host runtime preparation start)
      (λ p v. Prepared Shown Rooted preparation p v.env)
      (λ _ _. Unit)
prepare_host-IsReady_example = prepare_host-IsReady {S = Store} runtime-Tells preparation start

validate_name-IsSlug_example : (validate_name "dev-2" ≡ ok tt) ↔ IsSlug (codes "dev-2")
validate_name-IsSlug_example = validate_name-IsSlug "dev-2"

abbrev empty_operations : Operations Store
empty_operations = record operations { begin_provision = λ op s. fail (plain "refused") s }

prepares : Prepares cloud (λ log. log ≡ [])
prepares = record {
  resolves = λ profile log h. h;
  ensures = λ log h. h;
  draws = λ log h. h;
  ticks = λ log h. h;
}

provision_box-untouched_example :
    Holds
      (provision_box empty_operations inventory runtime cloud Scenario.selection start)
      (λ _ v. v.env ≡ [])
      (λ _ v. v.env ≡ [])
provision_box-untouched_example =
    provision_box-untouched empty_operations inventory runtime cloud Scenario.selection
      (λ log. log ≡ []) prepares (λ op s. tt) start refl

undestroyed : Undestroyed cloud
undestroyed = record { present = λ token ref log. tt; refused = λ token ref log. tt }

keeping : Keeping operations inventory cloud (λ s. s.boxes ≡ box ∷ [])
unfolding schooner.Inventory.Operations.begin_destroy
    schooner.Inventory.Operations.checkpoint_destroy
keeping = record { begins = λ op s h. h; checkpoints = λ op s h. h }

destroy_box-kept_example :
    Holds
      (destroy_box operations inventory cloud "dev" owned)
      (λ _ _. ⊥)
      (λ _ v. v.store.boxes ≡ box ∷ [])
destroy_box-kept_example =
    destroy_box-kept operations inventory cloud (λ s. s.boxes ≡ box ∷ []) keeping undestroyed "dev"
      owned refl

-- A provider that destroys a machine, and an environment in which that was done last.
abbrev destroying : Cloud Log
destroying = record cloud { destroy_resource = λ token ref log. done tt ("destroyed" ∷ log) }

abbrev WasDestroyed : ResourceRef → Log → Type 0
WasDestroyed ref log = (before : Log) × (log ≡ "destroyed" ∷ before)

abbrev OfProfile : String → String → Type 0
OfProfile profile token = token ≡ "t"

destroying-TellsGone :
    TellsGone OfProfile (λ ref found log. found.id ≡ "42") WasDestroyed destroying
destroying-TellsGone = record {
  resolves = λ profile log. refl;
  inspects = λ token ref log access. refl;
  destroys = λ token ref found log access present same_id same_correlation. (log, refl);
  ticks = λ ref log gone. gone;
}

destroy_box-IsGone_example :
    Holds
      (destroy_box operations inventory destroying "dev" owned)
      (λ res v. WasDestroyed res.resource v.env)
      (λ _ _. Unit)
destroy_box-IsGone_example =
    destroy_box-IsGone operations inventory destroying destroying-TellsGone "dev" owned

destroy_test :
    elim (destroy_box operations inventory destroying "dev" owned) as (λ x. Log) [
      | done res v ↦ v.env
      | fail e v ↦ []
    ]
    ≡ "destroyed" ∷ []
unfolding destroy_box find_by_name schooner.Prelude.Table.find
    schooner.Acquisition.Service.Destroy.destroyable schooner.Acquisition.Types.is_complete
    schooner.Acquisition.Service.Destroy.ref_of schooner.Inventory.Operations.begin_destroy
    schooner.Acquisition.Service.Destroy.confirm_destroyed
    schooner.Acquisition.Service.Destroy.forget schooner.Acquisition.Service.Destroy.checkpointed
    schooner.Inventory.Operations.checkpoint_destroy schooner.Box.Service.Maintain.remove_box
    validate_name remove schooner.Inventory.Operations.complete_destroy
destroy_test = refl

abbrev option_text : String
option_text = "-oProxyCommand=x"

validate_ssh_destination_iff_example : (validate_ssh_destination option_text ≡ ok tt) ↔ (
    (option_text ≢ "")
    × (first_or 0 (codes option_text) ≢ b'-')
    × All (λ b. contains_byte b (codes option_text) ≡ false) (0 ∷ 10 ∷ 13 ∷ []))
validate_ssh_destination_iff_example = validate_ssh_destination_iff option_text

abbrev adopted : Record
adopted = record box {
  acquisition = "adopted";
  provider = "";
  provider_resource_id = "";
  provider_correlation_id = "";
  credential_profile = "";
  provider_region = "";
}

abbrev result : AddResult
result = record {
  box = adopted;
  capabilities = machine;
  installed = [];
  verified = "git" ∷ "schooner" ∷ "tmux" ∷ [];
}

abbrev after_add : World Store Log
after_add = record {
  store = record empty_store {
    boxes = adopted ∷ [];
    observations = record { box_id = "id-1"; observed_at = 7; capabilities = machine } ∷ [];
  };
  env = "configure" ∷ "root" ∷ "install" ∷ "identity" ∷ [];
  events = [];
}

adds : add inventory runtime request start ≡ done result after_add
unfolding add schooner.Box.Service.Add.preflight validate_name validate_ssh_destination
    contains_byte schooner.Box.Validate.validate_worktree_root schooner.Box.Service.Add.name_free
    find_by_name schooner.Prelude.Table.find schooner.Box.Types.is_not_found
    schooner.Box.Service.run_step schooner.Box.Service.certify
    schooner.Box.Service.Add.identity_free schooner.Inventory.find_by_remote_identity
    schooner.Inventory.begin_add schooner.Prelude.Table.exists schooner.Box.Service.Add.converge
    schooner.Box.Service.Add.establish schooner.Box.Service.Add.save_box
    schooner.Box.Service.Prepare.configure_step schooner.Box.Service.Prepare.ensure_host_step
    schooner.Box.Service.Prepare.install_path prepare_host
    schooner.Box.Service.Prepare.prerequisites_step schooner.Box.Service.Prepare.root_step
    schooner.Box.Service.Prepare.runtime_path_of schooner.Box.Service.Prepare.valid_path
    schooner.Box.Service.Prepare.verified schooner.Box.Service.Prepare.verify_step
    schooner.Box.Service.missing_tools schooner.Box.Types.error_code
    schooner.Prelude.FilePath.all_plain schooner.Prelude.FilePath.is_clean_absolute
    schooner.Prelude.FilePath.is_plain schooner.Prelude.Order.lex schooner.Prelude.Sort.sort
    schooner.Prelude.Table.update schooner.Prelude.Text.compare_bytes
    schooner.Prelude.Text.has_control_byte schooner.Prelude.Text.split schooner.Prelude.Table.delete
    schooner.Inventory.complete_add schooner.Inventory.checkpoint_add schooner.Inventory.box_refused
    schooner.Inventory.box_row schooner.Inventory.save_observation
    schooner.Box.Service.Prepare.utf8_length
adds = refl

add-IsStored_example : IsStored request result after_add.store
add-IsStored_example = add-IsStored runtime request start after_add result adds

abbrev other : Record
other = record adopted { id = "id-2"; name = "build"; remote_identity = "machine-2" }

abbrev two : Store
two =
    run_calls
      (calls_complete_add reserved adopted
          (record { box_id = "id-1"; observed_at = 7; capabilities = machine })
        ∷ calls_complete_add reserved other
            (record { box_id = "id-2"; observed_at = 7; capabilities = machine })
        ∷ [])
      empty_store
  where
    reserved : AddOperation
    reserved = record {
      name = "dev";
      ssh_destination = "u@host";
      worktree_root = "~/schooner";
      checkpoint = "identity";
      remote_identity = "machine-1";
      updated_at = 7;
    }

two-IsValid : IsValid two
two-IsValid = run_calls-IsValid _

abbrev choice : SelectionRequest
choice = record { explicit_name = ""; linked_box_id = ""; selector = some (λ records. ok "build") }

selects : resolve selection choice two ≡ ok other
unfolding resolve schooner.Inventory.list_boxes schooner.Box.Resolver.choose
    schooner.Box.Resolver.configured schooner.Prelude.Sort.sort run_calls
    schooner.Inventory.complete_add schooner.Inventory.box_refused schooner.Prelude.Table.exists
    schooner.Inventory.save_observation schooner.Inventory.box_row
    schooner.Prelude.Text.compare_bytes schooner.Prelude.Order.lex
    schooner.Box.Resolver.unconfigured schooner.Prelude.Table.find
selects = refl

resolve-registered_example : find_by_name "build" two ≡ ok other
resolve-registered_example = resolve-registered choice two other two-IsValid selects

uses :
    use_box selection "dev" two
    ≡ done (record adopted { is_default = true }) (left_by (set_default "dev" two))
unfolding use_box validate_name set_default schooner.Prelude.Table.find run_calls
    schooner.Inventory.complete_add schooner.Inventory.box_refused schooner.Prelude.Table.exists
    schooner.Inventory.save_observation schooner.Inventory.box_row
uses = refl

use_box-resolve_example :
    resolve selection choice (left_by (set_default "dev" two))
    ≡ ok (record adopted { is_default = true })
use_box-resolve_example =
    use_box-resolve "dev" (some (λ records. ok "build")) two (left_by (set_default "dev" two))
      (record adopted { is_default = true }) two-IsValid uses

abbrev operation : ProvisionOperation
operation = record (requested Scenario.selection 7) { correlation_id = "c-1" }

abbrev begun_store : Store
begun_store = record empty_store { provision_operations = operation ∷ [] }

begins : begin_provision operation empty_store ≡ done operation begun_store
unfolding begin_provision find_provision schooner.Prelude.Table.find schooner.Box.Types.is_not_found
    schooner.Prelude.Table.exists requested
begins = refl

begin_provision-resumable_example :
    (v : Store) × (checkpoint_provision
        (at_checkpoint operation "connection_ready" "m-1" "root@host" "key" 9 "")
        begun_store
      ≡ done tt v)
    × (find_provision "dev" v
        ≡ ok (at_checkpoint operation "connection_ready" "m-1" "root@host" "key" 9 ""))
unfolding requested
begin_provision-resumable_example =
    begin_provision-resumable operation operation empty_store begun_store "connection_ready" "m-1"
      "root@host" "key" 9 "" begins

removes : remove "dev" two ≡ done adopted (left_by (remove "dev" two))
unfolding remove schooner.Prelude.Table.find run_calls schooner.Inventory.complete_add
    schooner.Inventory.box_refused schooner.Prelude.Table.exists schooner.Inventory.save_observation
    schooner.Inventory.box_row
removes = refl

build_ne_dev : other.name ≢ adopted.name
build_ne_dev e =
    let same : (other.name == adopted.name) ≡ true =
      (string_eq.test_iff other.name adopted.name).1 e in
    absurd (ground arith)

remove-others_example : find_by_name "build" (left_by (remove "dev" two)) ≡ find_by_name "build" two
remove-others_example =
    remove-others "dev" "build" adopted two (left_by (remove "dev" two)) removes build_ne_dev

abbrev link : LocalLink
link = record {
  local_worktree = "/home/me/app";
  box_id = "id-1";
  expected_box_identity = "machine-1";
  remote_worktree = "/home/u/schooner/app";
  repository_identity = "github.com/o/app";
  created_at = 5;
  updated_at = 5;
}

abbrev old_link : LocalLink
old_link = record link { box_id = "id-2"; created_at = 3; updated_at = 4 }

abbrev linked : Links
linked = record { available = true; rows = old_link ∷ [] }

abbrev relinked : Links
relinked = record { available = true; rows = record link { created_at = 3 } ∷ [] }

saves : save_link (some links) link linked ≡ done tt relinked
unfolding save_link validate schooner.Link.canonical_absolute
    schooner.Prelude.FilePath.is_clean_absolute schooner.Link.save_local_link
    schooner.Prelude.Table.exists schooner.Prelude.Table.update
saves = refl

old_link_valid : validate old_link ≡ ok tt
unfolding validate schooner.Link.canonical_absolute schooner.Prelude.FilePath.is_clean_absolute
old_link_valid = refl

save_link-found_example :
    find_link (some links) "/home/me/app" "github.com/o/app" relinked
    ≡ ok (record link { created_at = 3 })
unfolding schooner.Prelude.Table.find
save_link-found_example =
    save_link-found link "github.com/o/app" linked relinked (inr refl) (old_link_valid, tt)
      (omega arith, tt) saves

finds :
    find_link (some links) "/home/me/app" "github.com/o/app" relinked
    ≡ ok (record link { created_at = 3 })
unfolding find_link schooner.Link.canonical_absolute schooner.Prelude.FilePath.is_clean_absolute
    schooner.Link.find_local_link schooner.Prelude.Table.find schooner.Link.checked validate
finds = refl

find_link-Fits_example : Fits "/home/me/app" "github.com/o/app" (record link { created_at = 3 })
find_link-Fits_example =
    find_link-Fits (some links) "/home/me/app" "github.com/o/app" relinked
      (record link { created_at = 3 }) finds

abbrev upkeep : NamedRequest
upkeep = record { name = "dev"; batch_mode = true; progress = true }

maintain-IsMaintained_example :
    Holds
      (maintain inventory runtime upkeep host_update false owned)
      (λ res v. IsMaintained Shown Rooted true res v.env)
      (λ _ _. Unit)
maintain-IsMaintained_example =
    maintain-IsMaintained inventory runtime runtime-Tells upkeep host_update false owned
