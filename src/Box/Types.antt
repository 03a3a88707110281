-- ===== src/Box/Types.antt =====
-- internal/box/types.go and errors.go: the data of the box workflows. A `time.Time` is a number,
-- with 0 for Go's zero time. An error's message is the format text of the source, without its
-- arguments, and the wrapped cause is left out: `ErrorCode` finds the outermost box error, and only
-- such errors are built here. An error of another package is `plain`.
use Prim.Native.String.{String}
use schooner.Prelude.{ℕ, Bool, List, [], ◌∷◌, ◌==◌, string_eq}
use schooner.Prelude.Results.{Result}

abbrev pub default_worktree_root : String
default_worktree_root = "~/schooner"

pub data Step : Type 0 where
  provision wait_ssh resolve connect inspect identity runtime prerequisites worktree_root configure
        verify save :
      Step

pub data EventState : Type 0 where
  started completed failed : EventState

pub record Event : Type 0 where
  pub step : Step
  pub state : EventState
  pub message : String

pub record Connection : Type 0 where
  pub destination : String
  pub identity_file : String
  pub accept_new_host_key : Bool
  pub batch_mode : Bool

pub record Tool : Type 0 where
  pub available : Bool
  pub version : String

pub record HostRuntime : Type 0 where
  pub path : String
  pub version : String
  pub protocol_version : String
  pub capabilities : List String

pub data HostInstallMode : Type 0 where
  host_repair host_update : HostInstallMode

pub data HostInstallAction : Type 0 where
  host_installed host_reused host_replaced host_newer_retained : HostInstallAction

pub record HostInstallRequest : Type 0 where
  pub path : String
  pub os : String
  pub architecture : String
  pub expected_identity : String
  pub install_mode : HostInstallMode

pub record HostInstallResult : Type 0 where
  pub runtime : HostRuntime
  pub previous_version : String
  pub target_version : String
  pub action : HostInstallAction

pub record Capabilities : Type 0 where
  pub os_id : String
  pub os_version : String
  pub architecture : String
  pub home : String
  pub remote_identity : String
  pub worktree_root : String
  pub worktree_root_exists : Bool
  pub git : Tool
  pub tmux : Tool
  pub passwordless_sudo : Bool
  pub host : HostRuntime

pub record Record : Type 0 where
  pub id : String
  pub name : String
  pub acquisition : String
  pub ssh_destination : String
  pub identity_file : String
  pub remote_identity : String
  pub runtime_path : String
  pub worktree_root : String
  pub provider : String
  pub provider_resource_id : String
  pub provider_correlation_id : String
  pub credential_profile : String
  pub provider_region : String
  pub is_default : Bool
  pub created_at : ℕ
  pub updated_at : ℕ

pub record Observation : Type 0 where
  pub box_id : String
  pub observed_at : ℕ
  pub capabilities : Capabilities

-- `checkpoint` is `none` for the empty step.
pub record AddOperation : Type 0 where
  pub name : String
  pub ssh_destination : String
  pub worktree_root : String
  pub checkpoint : String
  pub remote_identity : String
  pub updated_at : ℕ

-- `progress` says whether the caller passes a progress callback.
pub record AddRequest : Type 0 where
  pub name : String
  pub ssh_destination : String
  pub identity_file : String
  pub worktree_root : String
  pub acquisition : String
  pub provider : String
  pub provider_resource_id : String
  pub provider_correlation_id : String
  pub credential_profile : String
  pub provider_region : String
  pub accept_new_host_key : Bool
  pub batch_mode : Bool
  pub progress : Bool

pub record AddResult : Type 0 where
  pub box : Record
  pub capabilities : Capabilities
  pub installed : List String
  pub verified : List String

pub record ListEntry : Type 0 where
  pub box : Record
  pub reachable : Bool
  pub last_observed_at : ℕ
  pub has_observation : Bool

pub record StatusResult : Type 0 where
  pub box : Record
  pub observation : Observation

-- `StatusRequest`, `SetupRequest` and `UpdateRequest` have the same three fields.
pub record NamedRequest : Type 0 where
  pub name : String
  pub batch_mode : Bool
  pub progress : Bool

pub record SetupResult : Type 0 where
  pub box : Record
  pub capabilities : Capabilities
  pub host : HostInstallResult
  pub installed : List String

pub record UpdateResult : Type 0 where
  pub box : Record
  pub capabilities : Capabilities
  pub host : HostInstallResult

pub record RemoveResult : Type 0 where
  pub box : Record
  pub remote_unchanged : Bool

abbrev pub Context : Type 0
Context = List (String × String)

pub data Error : Type 0 where
  coded : String → String → Context → Error
  plain : String → Error

-- `NewError`, without its cause.
abbrev pub new_error : String → String → Error
new_error c message = coded c message []

unfoldable pub error_code : Error → String
error_code (coded c message context) = c
error_code (plain message) = "internal"

abbrev pub not_found : String → Error
not_found name = coded "not_found" "box %q was not found" ((("box", name)) ∷ [])

unfoldable pub is_not_found : Error → Bool
unfolding error_code
is_not_found e = error_code e == "not_found"

-- `invalid` of service.go, on the text of the refusal.
abbrev pub invalid : String → Error
invalid message = coded "invalid_input" message []

abbrev pub BoxResult : Type 0 → Type 0
BoxResult = Result Error
