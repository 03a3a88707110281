-- ===== src/Box/Service/Prepare.antt =====
-- `prepareHost`: the sequence that makes a machine ready, shared by Add, Setup and Update.
use Prim.Native.String.{String, ◌++◌ as str_append}
use schooner.Prelude.{
  ℕ, ◌+◌, Bool, not, ◌&&◌, ◌||◌, List, [], ◌∷◌, ◌==◌, ◌!=◌, string_eq, leb, nat_eq, if◌then◌else◌,
}
use schooner.Prelude.Results.{Result, ok, err, ◌>>=◌, ◌>>◌, pure, throw, check}
use schooner.Prelude.Text.{Bytes, codes, has_control_byte}
use schooner.Prelude.FilePath.{is_clean_absolute}
use schooner.Box.Types.{
  runtime, prerequisites, worktree_root, configure, verify, Connection, HostRuntime,
  HostInstallMode, HostInstallResult, Capabilities, coded, new_error, BoxResult,
}
use schooner.Box.Service.{Runtime, Flow, on_env, run_step, certify, missing_tools}

pub record HostPreparationRequest : Type 0 where
  pub connection : Connection
  pub identity : String
  pub runtime_path : String
  pub worktree_root : String
  pub capabilities : Capabilities
  pub install_mode : HostInstallMode
  pub prerequisites : Bool
  pub progress : Bool
  pub identity_changed : String

pub record HostPreparationResult : Type 0 where
  pub runtime_path : String
  pub worktree_root : String
  pub capabilities : Capabilities
  pub host : HostInstallResult
  pub installed : List String

-- The checks of the last step, on what the machine reports.
unfoldable pub verified : HostPreparationRequest → String → Capabilities → BoxResult (Unit {0})
verified req root c = elim (certify c) [
  | err e ↦ err e
  | ok x ↦
      if c.remote_identity != req.identity
      then err (coded "conflict" req.identity_changed [])
      else if req.prerequisites && (not c.git.available || not c.tmux.available)
      then err
          (coded "unsupported" "Git and tmux are required but were not available after setup" [])
      else if not c.worktree_root_exists || c.worktree_root != root
      then err (coded "unsupported" "worktree root was not available after setup" [])
      else ok tt
]

-- The bytes of a text of these code points in UTF-8.
unfoldable pub utf8_length : Bytes → ℕ
utf8_length [] = 0
utf8_length (c ∷ s) =
    let rest = utf8_length s in
    (if leb c 0x7f then 1 else if leb c 0x7ff then 2 else if leb c 0xffff then 3 else 4) + rest

-- internal/runtime/protocol.go: `validPath` and `InstallPath`.
unfoldable pub valid_path : String → Bool
valid_path value =
    let s = codes value in
    leb (utf8_length s) 4096 && is_clean_absolute s && not (has_control_byte s)

unfoldable pub install_path : String → Result String String
install_path home =
    if not (valid_path home)
    then err "remote home directory is invalid"
    else if home == "/"
    then ok "/.local/bin/schooner"
    else ok (str_append home "/.local/bin/schooner")

abbrev pub unsupported_home : Result String String → BoxResult String
unsupported_home (ok path) = ok path
unsupported_home (err message) = err (new_error "unsupported" message)

module _ {S R : Type 0} (rt : Runtime R) (req : HostPreparationRequest) where
  unfoldable pub runtime_path_of : Flow S R String
  runtime_path_of = check (
      if req.runtime_path == ""
      then unsupported_home (install_path req.capabilities.home)
      else ok req.runtime_path)

  unfoldable pub ensure_host_step : String → Flow S R HostInstallResult
  ensure_host_step path =
      run_step req.progress runtime "Install or verify the Schooner host runtime" (
        on_env (
          rt.ensure_host req.connection (record {
            path = path;
            os = "linux";
            architecture = req.capabilities.architecture;
            expected_identity = req.identity;
            install_mode = req.install_mode;
          })))

  abbrev pub install_missing : List String → Flow S R (Unit {0})
  install_missing [] = pure tt
  install_missing (t ∷ ts) =
      if not req.capabilities.passwordless_sudo
      then throw (
          coded "permission_denied"
            "Git or tmux is missing and passwordless sudo is unavailable; install the missing packages or enable sudo -n, then retry"
            [])
      else on_env (rt.install_tools req.connection (t ∷ ts))

  -- The tools that were missing, once they are installed.
  unfoldable pub prerequisites_step : Flow S R (List String)
  prerequisites_step =
      if req.prerequisites
      then run_step req.progress prerequisites "Install or verify Git and tmux"
          (install_missing (missing_tools req.capabilities))
        >> pure (missing_tools req.capabilities)
      else pure []

  unfoldable pub root_step : Flow S R String
  root_step =
      run_step req.progress worktree_root "Prepare worktree root"
        (on_env (rt.ensure_worktree_root req.connection req.worktree_root))

  unfoldable pub configure_step : HostRuntime → String → Flow S R (Unit {0})
  configure_step host root =
      run_step req.progress configure "Configure host worktree root"
        (on_env (rt.configure_host req.connection host root req.identity))

  unfoldable pub verify_step : HostRuntime → String → Flow S R Capabilities
  verify_step host root = run_step req.progress verify "Verify the Schooner host runtime" do
    c ← on_env (rt.inspect_host req.connection host root req.identity)
    check (verified req root c)
    pure c

  unfoldable pub prepare_host : Flow S R HostPreparationResult
  prepare_host = do
    path ← runtime_path_of
    host ← ensure_host_step path
    installed ← prerequisites_step
    root ← root_step
    configure_step host.runtime root
    c ← verify_step host.runtime root
    pure (record {
      runtime_path = path;
      worktree_root = root;
      capabilities = c;
      host = host;
      installed = installed;
    })
