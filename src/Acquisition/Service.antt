-- ===== src/Acquisition/Service.antt =====
-- internal/acquisition/acquisition.go: the workflows that create a machine at the provider and
-- destroy it. The provider, the credentials, the key pair of the user, the wait for SSH, the clock
-- and the random source act on the environment, as the runtime of a machine does.
pub mod Provision
pub mod Destroy
pub mod Stops
pub mod Safety
pub mod Destruction
use Prim.Native.String.{String, ◌++◌}
use Prim.Native.Nat.{◌+◌}
use schooner.Prelude.{
  ℕ, Bool, true, false, not, ◌&&◌, ◌||◌, List, [], ◌∷◌, Option, none, some, ◌==◌, ◌!=◌, string_eq,
  ltb, length, if◌then◌else◌,
}
use schooner.Prelude.Results.{ok, err, Outcome, done, fail, M, ◌>>=◌, ◌>>◌, pure, throw, check}
use schooner.Prelude.Sort.{sort, sort_strings, compare_strings}
use schooner.Box.Types.{
  Step, provision, wait_ssh, Connection, Record, Observation, AddRequest, AddResult, Error,
  new_error, error_code, is_not_found, BoxResult,
}
use schooner.Box.Validate.{validate_name}
use schooner.Box.Service.{
  Inventory, Runtime, World, Flow, on_store, on_env, read_store, valid, run_step,
}
use schooner.Box.Service.Add.{add}
use schooner.Box.Service.Maintain.{remove_box}
use schooner.Acquisition.Types.{
  PublicKey, ResourceRef, ProvisionedMachine, Resource, digital_ocean, is_complete,
  ProvisionOperation, DestroyOperation, conflict_for_operation,
}

-- The interface `Store`.
pub record Operations (S : Type 0) : Type 0 where
  pub find_provision : String → S → BoxResult ProvisionOperation
  pub begin_provision : ProvisionOperation → M S Error ProvisionOperation
  pub checkpoint_provision : ProvisionOperation → M S Error (Unit {0})
  pub complete_provision : ProvisionOperation → String → M S Error (Unit {0})
  pub begin_destroy : DestroyOperation → M S Error (Unit {0})
  pub checkpoint_destroy : DestroyOperation → M S Error (Unit {0})
  pub complete_destroy : String → M S Error (Unit {0})
  pub find_by_name : String → S → BoxResult Record
  pub last_observation : String → S → BoxResult Observation

pub record Credential : Type 0 where
  pub profile : String
  pub token : String

pub record Identity : Type 0 where
  pub public_key : String
  pub private_key : String

-- `provider.ProvisionRequest`
pub record CloudRequest : Type 0 where
  pub name : String
  pub correlation_id : String
  pub region : String
  pub size : String
  pub image : String
  pub network_id : String
  pub access_key_ids : List String
  pub local_public_keys : List PublicKey
  pub automatic_backups : Bool
  pub ipv6 : Bool
  pub control_public_key : String
  pub known_resource_id : String

-- The interfaces `CredentialResolver`, `IdentitySource`, `ConnectionWaiter` and, of `Cloud`, what
-- the two workflows call; with `Service.now` and `Service.newID`.
pub record Cloud (R : Type 0) : Type 0 where
  pub resolve_credential : String → M R Error Credential
  pub ensure_identity : M R Error Identity
  pub wait_ready : Connection → M R Error (Unit {0})
  pub create_machine : String → CloudRequest → M R Error ProvisionedMachine
  pub inspect_resource : String → ResourceRef → M R Error Resource
  pub destroy_resource : String → ResourceRef → M R Error (Unit {0})
  pub now : R → ℕ × R
  pub new_id : M R Error String

pub record ProvisionRequest : Type 0 where
  pub name : String
  pub profile : String
  pub region : String
  pub size : String
  pub image : String
  pub network_id : String
  pub access_key_ids : List String
  pub local_public_keys : List PublicKey
  pub automatic_backups : Bool
  pub ipv6 : Bool
  pub worktree_root : String
  pub accept_new_host_key : Bool
  pub batch_mode : Bool
  pub progress : Bool

pub record ProvisionResult : Type 0 where
  pub added : AddResult
  pub resource : ResourceRef
  pub warning : String

pub record DestroyResult : Type 0 where
  pub box : Record
  pub resource : ResourceRef
  pub local_removed : Bool

unfoldable pub failure_checkpoint : Error → String
failure_checkpoint e = if error_code e == "outcome_unknown" then "outcome_unknown" else "failed"

abbrev pub clock : {S R : Type 0} → Cloud R → Flow S R ℕ
clock cloud w = let (t, r) = cloud.now w.env in done t (record w { env = r })

-- A call whose error is dropped.
abbrev pub ignoring : {W A : Type 0} → M W Error A → M W Error (Unit {0})
ignoring m w = elim (m w) [ done a v ↦ done tt v | fail e v ↦ done tt v ]
