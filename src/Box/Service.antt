-- ===== src/Box/Service.antt =====
-- internal/box/service.go: the workflows over the inventory and the runtime of a machine, both
-- interfaces of the source. The state of a workflow is the store, the environment of the runtime
-- (machine, clock, random source) and the progress events sent so far.
pub mod Keeps
pub mod Reservation
pub mod Yields
pub mod Success
pub mod Prepare
pub mod Add
pub mod Maintain
pub mod Maintained
use Prim.Native.String.{String}
use schooner.Prelude.{
  ℕ, Bool, true, false, not, ◌&&◌, ◌||◌, List, [], ◌∷◌, ◌++◌, Option, none, some, ◌==◌, ◌!=◌,
  string_eq, if◌then◌else◌,
}
use schooner.Prelude.Results.{
  Result, ok, err, Outcome, done, fail, M, ◌>>=◌, ◌>>◌, pure, throw, check,
}
use schooner.Prelude.Sort.{sort_strings}
use schooner.Box.Types.{
  Step, Event, EventState, started, completed, failed, Connection, HostRuntime, HostInstallRequest,
  HostInstallResult, Capabilities, Record, Observation, AddOperation, Error, coded, BoxResult,
  invalid,
}

-- The interface `Inventory`.
pub record Inventory (S : Type 0) : Type 0 where
  pub find_by_name : String → S → BoxResult Record
  pub find_by_remote_identity : String → S → BoxResult Record
  pub list_boxes : S → BoxResult (List Record)
  pub begin_add : AddOperation → M S Error (Unit {0})
  pub checkpoint_add : AddOperation → M S Error (Unit {0})
  pub complete_add : AddOperation → Record → Observation → M S Error (Unit {0})
  pub update_runtime_path : String → String → M S Error (Unit {0})
  pub save_observation : Observation → M S Error (Unit {0})
  pub last_observation : String → S → BoxResult Observation
  pub remove : String → M S Error Record

-- The interface `Runtime`, with `Service.now` and `Service.newID`, which read the environment too.
pub record Runtime (R : Type 0) : Type 0 where
  pub resolve : Connection → M R Error (Unit {0})
  pub inspect : Connection → String → M R Error Capabilities
  pub ensure_identity : Connection → String → M R Error String
  pub ensure_host : Connection → HostInstallRequest → M R Error HostInstallResult
  pub inspect_host : Connection → HostRuntime → String → String → M R Error Capabilities
  pub configure_host : Connection → HostRuntime → String → String → M R Error (Unit {0})
  pub install_tools : Connection → List String → M R Error (Unit {0})
  pub ensure_worktree_root : Connection → String → M R Error String
  pub now : R → ℕ × R
  pub new_id : M R Error String

pub record World (S R : Type 0) : Type 0 where
  pub store : S
  pub env : R
  pub events : List Event

abbrev pub Flow : Type 0 → Type 0 → Type 0 → Type 0
Flow S R A = M (World S R) Error A

-- The callback, if the caller passes one.
abbrev pub report : {S R : Type 0} → Bool → Step → EventState → String → World S R → World S R
report progress step state message w =
    if progress
    then record w {
      events = w.events ++ record { step = step; state = state; message = message } ∷ [];
    }
    else w

module _ {S R A : Type 0} where
  abbrev pub on_store : M S Error A → Flow S R A
  on_store m w = elim (m w.store) [
    | done a s ↦ done a (record w { store = s })
    | fail e s ↦ fail e (record w { store = s })
  ]

  abbrev pub on_env : M R Error A → Flow S R A
  on_env m w = elim (m w.env) [
    | done a r ↦ done a (record w { env = r })
    | fail e r ↦ fail e (record w { env = r })
  ]

  abbrev pub read_store : (S → BoxResult A) → Flow S R A
  read_store f w = elim (f w.store) [ ok a ↦ done a w | err e ↦ fail e w ]

  -- `invalid` around a validation.
  abbrev pub valid : Result String A → Flow S R A
  valid (ok a) w = done a w
  valid (err message) w = fail (invalid message) w

  unfoldable pub run_step : Bool → Step → String → Flow S R A → Flow S R A
  run_step progress step message action w = elim (action (report progress step started message w)) [
    | done a w' ↦ done a (report progress step completed message w')
    | fail e w' ↦ fail e (report progress step failed message w')
  ]

unfoldable pub certify : Capabilities → BoxResult (Unit {0})
certify c =
    if c.os_id != "ubuntu" || c.os_version != "24.04" && c.os_version != "26.04"
    then err (
        coded "unsupported"
          "unsupported remote operating system %s %s; expected Ubuntu 24.04 or 26.04" [])
    else if c.architecture != "amd64" && c.architecture != "arm64"
    then err (coded "unsupported" "unsupported remote architecture %s; expected amd64 or arm64" [])
    else ok tt

unfoldable pub missing_tools : Capabilities → List String
missing_tools c =
    sort_strings (
      (if c.git.available then [] else "git" ∷ [])
      ++ (if c.tmux.available then [] else "tmux" ∷ []))
