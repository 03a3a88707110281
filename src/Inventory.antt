-- ===== src/Inventory.antt =====
-- internal/inventory/sqlite/store.go over the schema of its migrations. A table is the list of its
-- rows; a statement does to it what its SQL says, with the constraints of the schema (unique name,
-- identifier and remote identity of a box, at most one default box, observations that refer to a
-- box and go with it). Failures of the database itself are not modelled, nor is the text form of
-- times and lists; a transaction that fails leaves the store as it was.
pub mod Operations
pub mod Valid
pub mod Recorded
pub mod Reach
pub mod Laws
pub mod Selection
pub mod Resume
pub mod Interface
pub mod Workflows
mod Tests
use Prim.Native.String.{String}
use schooner.Prelude.{
  ℕ, Bool, true, false, not, ◌&&◌, ◌||◌, List, [], ◌∷◌, ◌++◌, Option, none, some, ◌==◌, string_eq,
  if◌then◌else◌,
}
use schooner.Prelude.Results.{Result, ok, err, Outcome, done, fail, M}
use schooner.Prelude.Table.{find, exists, delete, update}
use schooner.Prelude.Sort.{sort, sort_strings}
use schooner.Box.Resolver.{by_name}
use schooner.Box.Types.{
  HostRuntime, Record, Observation, AddOperation, Error, coded, plain, not_found, BoxResult,
}
use schooner.Acquisition.Types.{ProvisionOperation, DestroyOperation}

pub record Store : Type 0 where
  pub boxes : List Record
  pub observations : List Observation
  pub add_operations : List AddOperation
  pub provision_operations : List ProvisionOperation
  pub destroy_operations : List DestroyOperation

abbrev pub empty_store : Store
empty_store = record {
  boxes = [];
  observations = [];
  add_operations = [];
  provision_operations = [];
  destroy_operations = [];
}

abbrev pub named : String → Record → Bool
named name r = r.name == name

abbrev pub identified : String → Record → Bool
identified id r = r.id == id

abbrev pub with_identity : String → Record → Bool
with_identity identity r = r.remote_identity == identity

abbrev pub default_box : Record → Bool
default_box r = r.is_default

-- `scanRecord` over the row, if there is one.
abbrev pub scan_record : Option Record → String → BoxResult Record
scan_record none key = err (not_found key)
scan_record (some r) key = ok r

unfoldable pub find_by_name : String → Store → BoxResult Record
find_by_name name s = scan_record (find (named name) s.boxes) name

unfoldable pub find_by_id : String → Store → BoxResult Record
find_by_id id s = scan_record (find (identified id) s.boxes) id

unfoldable pub find_by_remote_identity : String → Store → BoxResult Record
find_by_remote_identity identity s = scan_record (find (with_identity identity) s.boxes) identity

unfoldable pub list_boxes : Store → BoxResult (List Record)
list_boxes s = ok (sort by_name s.boxes)

unfoldable pub set_default : String → M Store Error Record
set_default name s = elim (find (named name) s.boxes) [
  | none ↦ fail (not_found name) s
  | some r ↦
      done (record r { is_default = true })
        (record s {
          boxes =
              update (named name) (λ b. record b { is_default = true })
                (update default_box (λ b. record b { is_default = false }) s.boxes);
        })
]

abbrev pub conflict : String → Error
conflict message = coded "conflict" message []

-- `mapConflict` on a constraint that failed.
abbrev pub already_registered : Error
already_registered = conflict "box name or remote identity is already registered"

abbrev pub reserves : String → AddOperation → Bool
reserves name op = op.name == name

unfoldable pub begin_add : AddOperation → M Store Error (Unit {0})
begin_add op s =
    let refused : Outcome Store Error (Unit {0}) =
      fail
        (conflict "box name %q is already registered or reserved with different connection details")
        s in
    if exists (named op.name) s.boxes
    then refused
    else elim (find (reserves op.name) s.add_operations) [
      | none ↦ done tt (record s { add_operations = s.add_operations ++ op ∷ [] })
      | some old ↦
          if old.ssh_destination == op.ssh_destination && old.worktree_root == op.worktree_root
          then done tt (record s {
            add_operations =
                update (reserves op.name)
                  (λ o. record o {
                    ssh_destination = op.ssh_destination;
                    worktree_root = op.worktree_root;
                    updated_at = op.updated_at;
                  })
                  s.add_operations;
          })
          else refused
    ]

unfoldable pub checkpoint_add : AddOperation → M Store Error (Unit {0})
checkpoint_add op s = done tt (record s {
  add_operations =
      update (reserves op.name)
        (λ o. record o {
          checkpoint = op.checkpoint;
          remote_identity = op.remote_identity;
          updated_at = op.updated_at;
        })
        s.add_operations;
})

-- The row that CompleteAdd inserts: an adopted box has no provider, and a new box is no default.
unfoldable pub box_row : Record → Record
box_row r = if r.acquisition == "provisioned" then record r { is_default = false } else record r {
  provider = "";
  provider_resource_id = "";
  provider_correlation_id = "";
  credential_profile = "";
  provider_region = "";
  is_default = false;
}

-- The constraints of the table on a new row.
unfoldable pub box_refused : Record → List Record → Bool
box_refused r boxes =
    not (r.acquisition == "adopted" || r.acquisition == "provisioned")
    || exists (identified r.id) boxes
    || exists (named r.name) boxes
    || exists (with_identity r.remote_identity) boxes

abbrev pub observes : String → Observation → Bool
observes id o = o.box_id == id

-- The host capabilities are saved in order.
abbrev pub observation_row : Observation → Observation
observation_row o = record o { capabilities = record c { host = sorted } }
  where
    open o use {capabilities as c}

    sorted : HostRuntime
    sorted = let h = c.host in record h { capabilities = sort_strings h.capabilities }

unfoldable pub save_observation : Observation → M Store Error (Unit {0})
save_observation o s =
    let row = observation_row o in
    if exists (identified o.box_id) s.boxes
    then done tt (record s {
      observations =
          if exists (observes o.box_id) s.observations
          then update (observes o.box_id) (λ _. row) s.observations
          else s.observations ++ row ∷ [];
    })
    else fail (plain "FOREIGN KEY constraint failed") s

-- An error that is no constraint's does not occur here, so `mapConflict` gives a conflict.
unfoldable pub complete_add : AddOperation → Record → Observation → M Store Error (Unit {0})
complete_add op r o s =
    if box_refused r s.boxes
    then fail already_registered s
    else elim (save_observation o (record s { boxes = s.boxes ++ box_row r ∷ [] })) [
      | fail e s' ↦ fail already_registered s
      | done x s' ↦
          done tt (record s' { add_operations = delete (reserves op.name) s.add_operations })
    ]

unfoldable pub update_runtime_path : String → String → M Store Error (Unit {0})
update_runtime_path id path s =
    if exists (identified id) s.boxes
    then done tt (record s {
      boxes = update (identified id) (λ b. record b { runtime_path = path }) s.boxes;
    })
    else fail (not_found id) s

unfoldable pub last_observation : String → Store → BoxResult Observation
last_observation id s = elim (find (observes id) s.observations) [
  | none ↦ err (not_found id)
  | some o ↦ ok o
]

abbrev pub of_record : String → Record → ProvisionOperation → Bool
of_record name r p =
    p.name == name
    && p.resource_id == r.provider_resource_id
    && p.correlation_id == r.provider_correlation_id
    && p.profile == r.credential_profile

unfoldable pub remove : String → M Store Error Record
remove name s = elim (find (named name) s.boxes) [
  | none ↦ fail (not_found name) s
  | some r ↦ done r (record s {
    boxes = delete (named name) s.boxes;
    observations =
        delete (λ o. exists (λ b. named name b && identified o.box_id b) s.boxes) s.observations;
    add_operations = delete (reserves name) s.add_operations;
    provision_operations =
        if r.acquisition == "provisioned"
        then delete (of_record name r) s.provision_operations
        else s.provision_operations;
  })
]
