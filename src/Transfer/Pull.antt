-- ===== src/Transfer/Pull.antt =====
-- internal/workspacetransfer/pull.go, Pull: the remote Worktree is pulled into the local one. The
-- source is an argument that may be missing (a nil interface); what the function calls of the
-- repository package and of the random source is the other one.
use Prim.Native.String.{String, ◌++◌}
use schooner.Prelude.{
  ℕ, suc, ◌+◌, Bool, true, false, not, ◌&&◌, ◌||◌, List, [], ◌∷◌, Option, none, some, ◌==◌, ◌!=◌,
  string_eq, nat_eq, if◌then◌else◌,
}
use schooner.Prelude.Results.{M, ◌>>=◌, ◌>>◌, pure, throw, deferring, or_fail}
use schooner.Repository.Checkout.{
  CheckoutFile, CheckoutState, CheckoutCapture, ExtractedCheckout, CheckoutTransactionOptions,
}
use schooner.Transfer.{
  ℤ, pos, difference, no_action, would_pull, pulled, no_change, conflict, Action, transfer_error,
  repository_error, other_error, TransferError, repository_code, error_message, is_no_space,
  Failure, beside, dirty, of_different_repositories,
}

pub record PullInspectRequest : Type 0 where
  pub remote_worktree : String
  pub destination_head : String
  pub include_manifest : Bool

pub record PullInspection : Type 0 where
  pub state : CheckoutState
  pub destination_ancestor : Bool

pub record PullCaptureRequest : Type 0 where
  pub operation_id : String
  pub remote_worktree : String
  pub destination_head : String
  pub expected_source_revalidation_digest : String
  pub staging : String

pub record PullCapture : Type 0 where
  pub capture : CheckoutCapture
  pub destination_ancestor : Bool

pub record PullSource (R : Type 0) : Type 0 where
  pub inspect_pull_source : PullInspectRequest → M R TransferError PullInspection
  pub capture_pull_source : PullCaptureRequest → M R TransferError PullCapture

-- What Pull calls of the packages repository and crypto/rand.
pub record PullHost (R : Type 0) : Type 0 where
  pub observe_checkout : String → M R TransferError CheckoutState
  pub preflight_application :
      String → CheckoutState → List CheckoutFile → List String → M R TransferError (Unit {0})
  pub preflight_branch : String → CheckoutState → M R TransferError (Unit {0})
  pub new_operation_id : M R TransferError String
  pub release_capture : CheckoutCapture → R → R
  pub extract_payload : String → String → M R TransferError ExtractedCheckout
  pub release_extracted : ExtractedCheckout → R → R
  pub apply_transaction :
      String → ExtractedCheckout → CheckoutTransactionOptions → M R TransferError CheckoutState

pub record PullRequest : Type 0 where
  pub local_worktree : String
  pub remote_worktree : String
  pub staging : String
  pub lock_state_directory : String
  pub dry_run : Bool

pub record PullResult : Type 0 where
  pub action : Action
  pub source : CheckoutState
  pub destination : CheckoutState
  pub remote_worktree : String
  pub files_changed : ℤ
  pub bytes_transferred : ℕ

abbrev pub Pull : Type 0 → Type 0 → Type 0
Pull R A = M R (Failure PullResult) A

unfoldable pub pull_conflict : PullResult → String → Failure PullResult
pull_conflict result message =
    (some (record result { action = conflict }), transfer_error "conflict" "pull" message)

unfoldable pub pull_repository_conflict : PullResult → TransferError → Failure PullResult
pull_repository_conflict result e =
    if repository_code e != "conflict"
    then (some result, e)
    else pull_conflict result ("Pull stopped: " ++ error_message e)

unfoldable pub pull_operation_failure : PullResult → TransferError → Failure PullResult
pull_operation_failure result e =
    if repository_code e == "outcome_unknown"
    then (some result, e)
    else if is_no_space e
    then (
      some result,
      transfer_error "insufficient_space" "pull"
          "Pull stopped: there is not enough disk space to transfer the workspace",
    )
    else pull_repository_conflict result e

-- The map of the destination's files keeps the last one of a path.
unfoldable pub last_file : String → List CheckoutFile → Option CheckoutFile
last_file path [] = none
last_file path (entry ∷ rest) = elim (last_file path rest) [
  | some other ↦ some other
  | none ↦ if entry.path == path then some entry else none
]

unfoldable pub same_content : CheckoutFile → CheckoutFile → Bool
same_content entry other =
    entry.kind == other.kind
    && same_flag entry.executable other.executable
    && entry.size == other.size
    && entry.sha256 == other.sha256
  where
    same_flag : Bool → Bool → Bool
    same_flag true b = b
    same_flag false b = not b

-- How many of the source's files the destination has, and how many with the same content.
unfoldable pub existing_matching : List CheckoutFile → List CheckoutFile → ℕ × ℕ
existing_matching [] files = (0, 0)
existing_matching (entry ∷ rest) files =
    let (existing, matching) = existing_matching rest files in
    elim (last_file entry.path files) [
      | none ↦ (existing, matching)
      | some other ↦ (suc existing, if same_content entry other then suc matching else matching)
    ]

unfoldable pub checkout_files_changed : CheckoutState → CheckoutState → ℤ
checkout_files_changed source destination =
    let (existing, matching) = existing_matching source.files destination.files in
    difference (source.file_count + destination.file_count) (existing + matching)

unfoldable pub pull_result : PullRequest → CheckoutState → PullInspection → PullResult
pull_result request destination inspection = record {
  action = no_action;
  source = inspection.state;
  destination = destination;
  remote_worktree = request.remote_worktree;
  files_changed = pos 0;
  bytes_transferred = 0;
}

module _ {R : Type 0} (source : PullSource R) (host : PullHost R) where
  unfoldable pub pull_dry : PullRequest → PullResult → Pull R PullResult
  pull_dry request result = do
    or_fail (pull_repository_conflict result) (
        host.preflight_application request.local_worktree result.destination result.source.files
          result.source.absent_paths)
    or_fail (pull_repository_conflict result)
        (host.preflight_branch request.local_worktree result.source)
    pure (record result {
      files_changed = checkout_files_changed result.source result.destination;
      action = would_pull;
    })

  -- The application of what was downloaded and extracted.
  unfoldable pub pull_apply : PullRequest → PullResult → ExtractedCheckout → ℕ → Pull R PullResult
  pull_apply request before extracted payload_size =
      let result = record before { source = extracted.state } in
      let counted = record result {
        files_changed = checkout_files_changed extracted.state result.destination;
      } in
      or_fail (pull_repository_conflict result) (
        host.preflight_application request.local_worktree result.destination extracted.state.files
          extracted.state.absent_paths)
      >> (or_fail (pull_operation_failure counted) (
            host.apply_transaction request.local_worktree extracted (record {
              expected_state_digest = result.destination.revalidation_digest;
              lock_state_directory = request.lock_state_directory;
              staging_directory = request.staging;
              operation_created_branch = "";
            }))
          >>= λ applied.
              if applied.digest != extracted.state.digest
              then throw (
                some counted,
                repository_error "outcome_unknown"
                    "local workspace verification returned a different state" false,
              )
              else pure (record counted {
                action = pulled;
                destination = applied;
                bytes_transferred = payload_size;
              }))

  unfoldable pub pull_extracted :
      PullRequest
      → PullResult
      → PullInspection
      → CheckoutCapture
      → ExtractedCheckout
      → Pull R PullResult
  pull_extracted request result inspection capture extracted =
      if extracted.state.digest != inspection.state.digest
        || extracted.state.revalidation_digest != inspection.state.revalidation_digest
        || extracted.state.digest != capture.state.digest
      then throw (
          pull_conflict result
            "Pull stopped: the downloaded workspace does not match the inspected remote state")
      else pull_apply request result extracted capture.payload_size

  unfoldable pub pull_captured :
      PullRequest → PullResult → PullInspection → PullCapture → Pull R PullResult
  pull_captured request result inspection downloaded =
      if not downloaded.destination_ancestor
        || downloaded.capture.state.revalidation_digest != inspection.state.revalidation_digest
      then throw (
          pull_conflict result
            "Pull stopped: the remote Worktree changed before its workspace could be captured")
      else or_fail (pull_operation_failure result)
          (host.extract_payload downloaded.capture.payload_path request.staging)
        >>= λ extracted.
            deferring (host.release_extracted extracted)
              (pull_extracted request result inspection downloaded.capture extracted)

  unfoldable pub pull_capture : PullRequest → PullResult → PullInspection → Pull R PullResult
  pull_capture request result inspection = do
    operation_id ← beside (some result) host.new_operation_id
    downloaded ← or_fail (pull_operation_failure result) (
        source.capture_pull_source (record {
          operation_id = operation_id;
          remote_worktree = request.remote_worktree;
          destination_head = result.destination.head;
          expected_source_revalidation_digest = inspection.state.revalidation_digest;
          staging = request.staging;
        }))
    deferring (host.release_capture downloaded.capture)
        (pull_captured request result inspection downloaded)

  unfoldable pub pull_inspected : PullRequest → PullResult → PullInspection → Pull R PullResult
  pull_inspected request result inspection =
      if of_different_repositories inspection.state result.destination
      then throw (
          pull_conflict result
            "Pull stopped: the local and remote Worktrees belong to different network repositories")
      else if inspection.state.digest == result.destination.digest
      then pure (record result { action = no_change })
      else if dirty result.destination.status
      then throw (
          pull_conflict result
            "Pull stopped: the local Worktree contains changes that would be overwritten")
      else if not inspection.destination_ancestor
      then throw (
          pull_conflict result
            "Pull stopped: the local Worktree contains commits not reachable from the remote Worktree")
      else if request.dry_run
      then pull_dry request result
      else pull_capture request result inspection

  unfoldable pub pull_configured : PullRequest → Pull R PullResult
  pull_configured request = do
    destination ← beside none (host.observe_checkout request.local_worktree)
    inspection ← beside none (
        source.inspect_pull_source (record {
          remote_worktree = request.remote_worktree;
          destination_head = destination.head;
          include_manifest = request.dry_run;
        }))
    pull_inspected request (pull_result request destination inspection) inspection

module _ {R : Type 0} where
  unfoldable pub pull : Option (PullSource R) → PullHost R → PullRequest → Pull R PullResult
  pull none host request = throw (none, other_error "workspace pull is not configured" false)
  pull (some source) host request =
      if request.local_worktree == ""
        || request.remote_worktree == ""
        || request.staging == ""
        || (not request.dry_run && request.lock_state_directory == "")
      then throw (none, other_error "workspace pull is not configured" false)
      else pull_configured source host request
