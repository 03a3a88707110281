-- ===== src/Transfer/Push.antt =====
-- internal/workspacetransfer/push.go, Push: the local Worktree is pushed to a remote one. The remote
-- is an argument that may be missing (a nil interface); what the function calls of the repository
-- package, of the file system and of the random source is the other one. The loop over the pages is a
-- recursion on fuel, and the number of files is enough. A payload reader is its path.
use Prim.Native.String.{String, ◌++◌}
use mathlib.Core.List.{◌++◌ as append}
use schooner.Prelude.{
  ℕ, zero, suc, ◌+◌, Bool, true, false, not, ◌||◌, List, [], ◌∷◌, Option, none, some, ◌==◌, ◌!=◌,
  string_eq, length, map, if◌then◌else◌,
}
use schooner.Prelude.Results.{Result, ok, err, M, ◌>>=◌, ◌>>◌, pure, throw, deferring, or_fail}
use schooner.Repository.Checkout.{CheckoutFile, CheckoutState, CheckoutCapture}
use schooner.Transfer.{
  ℤ, pos, difference, no_action, would_push, pushed, no_change, conflict, Action, transfer_error,
  repository_error, other_error, TransferError, Failure, beside, dirty, of_different_repositories,
}
use schooner.Transfer.Pages.{preflight_page_end, take, drop}

pub record ApplyRequest : Type 0 where
  pub operation_id : String
  pub remote_worktree : String
  pub expected_state_digest : String
  pub payload_size : ℕ
  pub payload_sha256 : String
  pub source_state : CheckoutState
  pub operation_created_destination : Bool
  pub operation_created_branch : String

pub record ApplyResult : Type 0 where
  pub state : CheckoutState
  pub bytes_transferred : ℕ

pub record PreflightResult : Type 0 where
  pub existing_files : ℕ
  pub matching_files : ℕ

pub record Remote (R : Type 0) : Type 0 where
  pub observe_push_destination : String → M R TransferError (Option CheckoutState)
  pub preflight_push_destination : String → CheckoutState → Bool → M R TransferError PreflightResult
  pub apply_push : ApplyRequest → String → M R TransferError ApplyResult

-- What Push calls of the packages repository, os, crypto/rand and encoding/json.
pub record Local (R : Type 0) : Type 0 where
  pub observe_checkout : String → M R TransferError CheckoutState
  pub capture_checkout : String → String → M R TransferError CheckoutCapture
  pub release : CheckoutCapture → R → R
  pub commit_is_ancestor : String → String → String → M R TransferError Bool
  pub open_payload : String → M R TransferError (Unit {0})
  pub close_payload : String → R → R
  pub new_operation_id : M R TransferError String
  pub encoded : CheckoutFile → Result TransferError ℕ

pub record PushRequest : Type 0 where
  pub local_worktree : String
  pub remote_worktree : String
  pub staging : String
  pub dry_run : Bool
  pub created_destination : Option CheckoutState

pub record PushResult : Type 0 where
  pub action : Action
  pub source : CheckoutState
  pub destination : Option CheckoutState
  pub remote_worktree : String
  pub files_changed : ℤ
  pub bytes_transferred : ℕ
  pub created : Bool

abbrev pub is_some : {A : Type 0} → Option A → Bool
is_some none = false
is_some (some x) = true

unfoldable pub operation_created_branch : Option CheckoutState → String
operation_created_branch none = ""
operation_created_branch (some state) = if state.detached then "" else state.branch

unfoldable pub push_preflight_error : TransferError → TransferError
push_preflight_error (repository_error code message no_space) =
    if code == "conflict"
    then transfer_error "conflict" "" ("Push stopped: " ++ message)
    else repository_error code message no_space
push_preflight_error e = e

-- The files of the source, and its absent paths as files of their own kind.
unfoldable pub preflight_files : CheckoutState → List CheckoutFile
preflight_files source = append source.files (
    map
      (λ path. record {
        path = path;
        kind = "absent";
        executable = false;
        size = 0;
        sha256 = "";
        tracked = true;
      })
      source.absent_paths)

abbrev pub Push : Type 0 → Type 0 → Type 0
Push R A = M R (Failure PushResult) A

abbrev pub stopped : {R A : Type 0} → PushResult → String → Push R A
stopped result message =
    throw (some (record result { action = conflict }), transfer_error "conflict" "" message)

abbrev pub exhausted : TransferError
exhausted = other_error "out of fuel" false

-- The digest of the destination that the application expects.
abbrev pub expected_digest : Option CheckoutState → String
expected_digest none = ""
expected_digest (some destination) = destination.revalidation_digest

abbrev pub apply_request : PushRequest → PushResult → CheckoutCapture → String → ApplyRequest
apply_request request result capture operation_id = record {
  operation_id = operation_id;
  remote_worktree = request.remote_worktree;
  expected_state_digest = expected_digest result.destination;
  payload_size = capture.payload_size;
  payload_sha256 = capture.payload_sha256;
  source_state = capture.state;
  operation_created_destination = is_some request.created_destination;
  operation_created_branch = operation_created_branch request.created_destination;
}

abbrev pub no_files : PreflightResult
no_files = record { existing_files = 0; matching_files = 0 }

unfoldable pub push_result : PushRequest → CheckoutState → Option CheckoutState → PushResult
push_result request source destination = record {
  action = no_action;
  source = source;
  destination = destination;
  remote_worktree = request.remote_worktree;
  files_changed = pos 0;
  bytes_transferred = 0;
  created = not (is_some destination) || is_some request.created_destination;
}

module _ {R : Type 0} where
  abbrev pub changed : {A : Type 0} → PushResult → Push R A
  changed result =
      stopped result
        "Push stopped: the newly cloned remote Worktree changed before the local workspace could be applied"

  -- A destination that a clone has just made is the one that was made.
  abbrev pub must_match :
      String → PushResult → CheckoutState → Option CheckoutState → Push R (Unit {0})
  must_match worktree result seed none = changed result
  must_match worktree result seed (some destination) =
      if destination.worktree != worktree
        || destination.revalidation_digest != seed.revalidation_digest
      then changed result
      else pure tt

  abbrev pub must_be_seed : String → PushResult → Option CheckoutState → Push R (Unit {0})
  must_be_seed worktree result none = pure tt
  must_be_seed worktree result (some seed) = must_match worktree result seed result.destination

  unfoldable pub must_be_created : PushRequest → PushResult → Push R (Unit {0})
  must_be_created request result =
      must_be_seed request.remote_worktree result request.created_destination

  abbrev pub reachable : PushResult → Bool → Push R (Unit {0})
  reachable result true = pure tt
  reachable result false =
      stopped result
        "Push stopped: the remote Worktree contains commits not reachable from the local Worktree"

  abbrev pub verify_applied : PushResult → ApplyResult → Push R PushResult
  verify_applied result applied =
      if applied.state.digest != result.source.digest
      then throw (
        some result,
        other_error "remote workspace verification returned a different state" false,
      )
      else pure (record result {
        action = pushed;
        destination = some applied.state;
        bytes_transferred = applied.bytes_transferred;
      })

module _ {R : Type 0} (remote : Remote R) (host : Local R) where
  -- A preflight of one page; its failure is a conflict of the push.
  unfoldable pub preflight_page : PushResult → CheckoutState → Bool → Push R PreflightResult
  preflight_page result page first =
      or_fail (λ e. (some (record result { action = conflict }), push_preflight_error e))
        (remote.preflight_push_destination result.remote_worktree page first)

  unfoldable pub preflight_pages :
      ℕ → PushResult → Bool → List CheckoutFile → PreflightResult → Push R PreflightResult
  preflight_pages fuel result first [] comparison = pure comparison
  preflight_pages zero result first (file ∷ rest) comparison = throw (some result, exhausted)
  preflight_pages (suc fuel) result first (file ∷ rest) comparison =
      elim (preflight_page_end host.encoded (file ∷ rest)) [
        | err e ↦ throw (some result, e)
        | ok count ↦ do
          page ←
              preflight_page result (record result.source { files = take count (file ∷ rest) })
                first
          preflight_pages fuel result false (drop count (file ∷ rest)) (record {
            existing_files = comparison.existing_files + page.existing_files;
            matching_files = comparison.matching_files + page.matching_files;
          })
      ]

  unfoldable pub compare_files : PushResult → List CheckoutFile → Push R PreflightResult
  compare_files result [] = preflight_page result result.source true
  compare_files result (file ∷ rest) =
      preflight_pages (length (file ∷ rest)) result true (file ∷ rest) no_files

  unfoldable pub must_be_reachable : PushRequest → PushResult → CheckoutState → Push R (Unit {0})
  must_be_reachable request result destination =
      if is_some request.created_destination then pure tt else do
        safe ←
            beside (some result)
              (host.commit_is_ancestor result.source.worktree destination.head result.source.head)
        reachable result safe

  -- The transfer itself, with the capture that a dry run lacks.
  unfoldable pub transfer : PushRequest → PushResult → CheckoutCapture → Push R PushResult
  transfer request result capture = do
    beside (some result) (host.open_payload capture.payload_path)
    deferring (host.close_payload capture.payload_path) (do
      operation_id ← beside (some result) host.new_operation_id
      applied ← beside (some result) (
          remote.apply_push (apply_request request result capture operation_id)
            capture.payload_path)
      verify_applied result applied)

  unfoldable pub deliver : PushRequest → PushResult → Option CheckoutCapture → Push R PushResult
  deliver request result none = pure (record result { action = would_push })
  deliver request result (some capture) = transfer request result capture

  unfoldable pub push_to :
      PushRequest → PushResult → Option CheckoutCapture → CheckoutState → Push R PushResult
  push_to request result capture destination =
      if of_different_repositories result.source destination
      then stopped result
          "Push stopped: the local and remote Worktrees belong to different network repositories"
      else if destination.digest == result.source.digest
      then pure (record result { action = no_change })
      else if dirty destination.status
      then stopped result "Push stopped: the remote Worktree contains changes"
      else do
        must_be_reachable request result destination
        comparison ← compare_files result (preflight_files result.source)
        deliver request
            (record result {
              files_changed =
                  difference (result.source.file_count + destination.file_count)
                    (comparison.existing_files + comparison.matching_files);
            })
            capture

  -- The push of a source to the destination that was observed.
  unfoldable pub push_observed :
      PushRequest → PushResult → Option CheckoutCapture → Option CheckoutState → Push R PushResult
  push_observed request result capture none =
      deliver request (record result { files_changed = pos result.source.file_count }) capture
  push_observed request result capture (some destination) =
      push_to request result capture destination

  unfoldable pub push_from :
      PushRequest → CheckoutState → Option CheckoutCapture → Push R PushResult
  push_from request source capture = do
    destination ← beside none (remote.observe_push_destination request.remote_worktree)
    must_be_created request (push_result request source destination)
    push_observed request (push_result request source destination) capture destination

  unfoldable pub push_configured : PushRequest → Push R PushResult
  push_configured request =
      if request.dry_run
      then (beside none (host.observe_checkout request.local_worktree) >>= λ source.
          push_from request source none)
      else beside none (host.capture_checkout request.local_worktree request.staging) >>= λ capture.
          deferring (host.release capture) (push_from request capture.state (some capture))

module _ {R : Type 0} where
  unfoldable pub push : Option (Remote R) → Local R → PushRequest → Push R PushResult
  push none host request = throw (none, other_error "workspace push is not configured" false)
  push (some remote) host request =
      if request.local_worktree == "" || request.remote_worktree == "" || request.staging == ""
      then throw (none, other_error "workspace push is not configured" false)
      else push_configured remote host request
