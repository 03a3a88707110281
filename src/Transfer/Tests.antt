-- ===== src/Transfer/Tests.antt =====
-- Pushes and pulls of internal/workspacetransfer between two concrete checkouts. The environment is
-- the state that the written side has, if it has one.
use Prim.Native.String.{String}
use schooner.Prelude.{Bool, true, false, List, [], ◌∷◌, Option, none, some, ◌≡◌, refl}
use schooner.Prelude.Results.{ok, done, fail}
use schooner.Repository.{clean_status}
use schooner.Repository.Checkout.{CheckoutFile, CheckoutState, CheckoutCapture, ExtractedCheckout}
use schooner.Transfer.{pos, no_action, pushed, pulled, Action}
use schooner.Transfer.Push.{
  PreflightResult, Remote, Local, PushRequest, PushResult, push, preflight_pages, no_files,
}
use schooner.Transfer.Pull.{PullInspection, PullSource, PullHost, PullRequest, pull}
use schooner.Transfer.Paging.{IsPaging, preflight_each, preflight_pages-IsPaging}
use schooner.Transfer.PushLaws.{PushLaws}
use schooner.Transfer.PullLaws.{PullFacts, PullLaws}

abbrev file : String → CheckoutFile
file path = record {
  path = path;
  kind = "regular";
  executable = false;
  size = 12;
  sha256 = path;
  tracked = true;
}

abbrev state : String → CheckoutState
state digest = record {
  schema_version = "1";
  worktree = "/srv/app";
  head = "c0ffee";
  branch = "main";
  detached = false;
  index_entries = [];
  index_count = 0;
  absent_paths = "gone.go" ∷ [];
  absent_count = 1;
  repository_identity = "github.com/acme/app";
  clone_source = "";
  status = clean_status;
  files = file "main.go" ∷ file "go.mod" ∷ [];
  file_count = 2;
  digest = digest;
  revalidation_digest = digest;
  bytes = 24;
}

abbrev captured : CheckoutCapture
captured = record {
  state = state "new";
  payload_path = "/tmp/payload";
  payload_size = 99;
  payload_sha256 = "beef";
}

abbrev W : Type 0
W = Option CheckoutState

abbrev remote : Remote W
remote = record {
  observe_push_destination = λ path w. done w w;
  preflight_push_destination =
      λ path page first w. done (record { existing_files = 1; matching_files = 1 }) w;
  apply_push = λ request payload w.
      done (record { state = request.source_state; bytes_transferred = request.payload_size })
        (some request.source_state);
}

abbrev host : Local W
host = record {
  observe_checkout = λ path w. done (state "new") w;
  capture_checkout = λ path staging w. done captured w;
  release = λ capture w. w;
  commit_is_ancestor = λ worktree ancestor commit w. done true w;
  open_payload = λ path w. done tt w;
  close_payload = λ path w. w;
  new_operation_id = λ w. done "op-1" w;
  encoded = λ f. ok 400000;
}

abbrev request : PushRequest
request = record {
  local_worktree = "/home/me/app";
  remote_worktree = "/srv/app";
  staging = "/tmp";
  dry_run = false;
  created_destination = none;
}

abbrev Before : W → Type 0
Before w = w ≡ some (state "old")

abbrev After : W → Type 0
After w = (s : CheckoutState) × (w ≡ some s)

abbrev Any : String → String → String → Type 0
Any worktree ancestor commit = Unit {0}

abbrev Passed : String → CheckoutState → Bool → Type 0
Passed path page first = Unit {0}

push_test :
    elim (push (some remote) host request (some (state "old"))) as (λ x. Action) [
      | done result w ↦ result.action
      | fail e w ↦ no_action
    ]
    ≡ pushed
unfolding schooner.Transfer.Push.push schooner.Transfer.Push.push_configured
    schooner.Transfer.Push.push_from schooner.Transfer.Push.must_be_created
    schooner.Transfer.Push.push_observed schooner.Transfer.Push.push_to
    schooner.Transfer.Push.push_result schooner.Transfer.dirty
    schooner.Transfer.Push.must_be_reachable schooner.Transfer.Push.compare_files
    schooner.Transfer.Push.preflight_files schooner.Transfer.Push.preflight_pages
    schooner.Transfer.Pages.preflight_page_end schooner.Transfer.Pages.page_length
    schooner.Transfer.Push.preflight_page schooner.Transfer.Pages.drop
    schooner.Transfer.Push.deliver schooner.Transfer.Pages.take
    schooner.Transfer.Push.operation_created_branch schooner.Transfer.Push.push_preflight_error
    schooner.Transfer.Push.transfer
push_test = refl

abbrev result : PushResult
result = record {
  action = no_action;
  source = state "new";
  destination = some (state "old");
  remote_worktree = "/srv/app";
  files_changed = pos 0;
  bytes_transferred = 0;
  created = false;
}

preflight_pages-IsPaging_example :
    (pages : List (List CheckoutFile)) × IsPaging (λ f. 400000) (file "a" ∷ file "b" ∷ []) pages
    × ((first : Bool) (comparison : PreflightResult) (w : W)
        → preflight_pages remote host 2 result first (file "a" ∷ file "b" ∷ []) comparison w
          ≡ preflight_each remote host result first pages comparison w)
preflight_pages-IsPaging_example =
    preflight_pages-IsPaging remote host (λ f. 400000) (λ f. refl) result (file "a" ∷ file "b" ∷ [])

-- Two entries that do not fit into one page.
paging_test :
    preflight_pages remote host 2 result true (file "a" ∷ file "b" ∷ []) no_files none
    ≡ done (record { existing_files = 2; matching_files = 2 }) none
unfolding preflight_pages schooner.Transfer.Pages.preflight_page_end
    schooner.Transfer.Pages.page_length schooner.Transfer.Push.preflight_page
    schooner.Transfer.Pages.drop
paging_test = refl

abbrev inspection : PullInspection
inspection = record { state = state "new"; destination_ancestor = true }

abbrev extracted : ExtractedCheckout
extracted = record { state = state "new"; directory = "/tmp/x"; objects_pack = "" }

abbrev source : PullSource W
source = record {
  inspect_pull_source = λ r w. done inspection w;
  capture_pull_source = λ r w. done (record { capture = captured; destination_ancestor = true }) w;
}

abbrev pull_host : PullHost W
pull_host = record {
  observe_checkout = λ path w. done (state "old") w;
  preflight_application = λ path d files absent w. done tt w;
  preflight_branch = λ path s w. done tt w;
  new_operation_id = λ w. done "op-2" w;
  release_capture = λ capture w. w;
  extract_payload = λ path staging w. done extracted w;
  release_extracted = λ e w. w;
  apply_transaction = λ path e options w. done e.state (some e.state);
}

abbrev pull_request : PullRequest
pull_request = record {
  local_worktree = "/home/me/app";
  remote_worktree = "/srv/app";
  staging = "/tmp";
  lock_state_directory = "/var/lock";
  dry_run = false;
}

abbrev LocalState : CheckoutState → Type 0
LocalState d = d ≡ state "old"

abbrev RemoteState : PullInspection → Type 0
RemoteState i = i ≡ inspection

abbrev told : PullFacts
told = record {
  seen = LocalState;
  inspected = RemoteState;
  captured = λ c. c.capture ≡ captured;
  extracted = λ path x. x ≡ extracted;
  applicable = λ path d files absent. Unit {0};
  branch_fits = λ path s. Unit {0};
}

pull_test :
    elim (pull (some source) pull_host pull_request (some (state "old"))) as (λ x. Action) [
      | done r w ↦ r.action
      | fail e w ↦ no_action
    ]
    ≡ pulled
unfolding pull schooner.Transfer.Pull.pull_configured schooner.Transfer.Pull.pull_inspected
    schooner.Transfer.Pull.pull_result schooner.Transfer.dirty schooner.Transfer.Pull.pull_capture
    schooner.Transfer.Pull.pull_captured schooner.Transfer.Pull.pull_extracted
    schooner.Transfer.Pull.pull_apply
pull_test = refl
