-- ===== src/Transfer/PullLaws.antt =====
-- internal/workspacetransfer/pull.go: the laws of what a pull calls, and what its results and failures
-- report.
use Prim.Native.String.{String}
use schooner.Prelude.{true, false, List, string_eq, ◌≡◌, ◌≢◌, ◌⊎◌, inl, inr}
use schooner.Prelude.Results.{Holds, Kept}
use schooner.Repository.Checkout.{
  CheckoutFile, CheckoutState, CheckoutCapture, ExtractedCheckout, CheckoutTransactionOptions,
}
use schooner.Transfer.{
  no_action, would_push, pushed, no_change, conflict, would_pull, pulled, Action, Failure, dirty,
  of_different_repositories,
}
use schooner.Transfer.Pull.{
  PullInspectRequest, PullInspection, PullCaptureRequest, PullCapture, PullSource, PullHost,
  PullRequest, PullResult,
}

-- What the calls of a pull tell where they succeed: the observation of the local Worktree, the
-- inspection and the capture of the remote one, the extraction of a payload, and the preflights of
-- the application and of the branch.
pub record PullFacts : Type 1 where
  pub seen : CheckoutState → Type 0
  pub inspected : PullInspection → Type 0
  pub captured : PullCapture → Type 0
  pub extracted : String → ExtractedCheckout → Type 0
  pub applicable : String → CheckoutState → List CheckoutFile → List String → Type 0
  pub branch_fits : String → CheckoutState → Type 0

-- What the calls of a pull keep and tell. `P` is kept by every call but the local transaction, and
-- `Q` holds after that one.
pub record PullLaws {R : Type 0} (P Q : R → Type 0) (facts : PullFacts) (source : PullSource R)
    (host : PullHost R) : Type 0 where
  pub observes :
      (path : String) (w : R)
      → P w
      → Holds (host.observe_checkout path w) (λ d v. facts.seen d × P v) (λ e v. P v)
  pub inspects :
      (request : PullInspectRequest) (w : R)
      → P w
      → Holds (source.inspect_pull_source request w) (λ i v. facts.inspected i × P v) (λ e v. P v)
  pub captures :
      (request : PullCaptureRequest) (w : R)
      → P w
      → Holds (source.capture_pull_source request w) (λ c v. facts.captured c × P v) (λ e v. P v)
  pub checks_application :
      (path : String) (d : CheckoutState) (files : List CheckoutFile) (absent : List String) (w : R)
      → P w
      → Holds
          (host.preflight_application path d files absent w)
          (λ x v. facts.applicable path d files absent × P v)
          (λ e v. P v)
  pub checks_branch :
      (path : String) (state : CheckoutState) (w : R)
      → P w
      → Holds
          (host.preflight_branch path state w)
          (λ x v. facts.branch_fits path state × P v)
          (λ e v. P v)
  pub draws : Kept P host.new_operation_id
  pub extracts :
      (path staging : String) (w : R)
      → P w
      → Holds
          (host.extract_payload path staging w)
          (λ x v. facts.extracted path x × P v)
          (λ e v. P v)
  pub applies :
      (path : String) (extracted : ExtractedCheckout) (options : CheckoutTransactionOptions) (w : R)
      → P w
      → Holds (host.apply_transaction path extracted options w) (λ a v. Q v) (λ e v. Q v)
  pub releases_capture :
      (capture : CheckoutCapture) (w : R) → P w → P (host.release_capture capture w)
  pub releases_capture_after :
      (capture : CheckoutCapture) (w : R) → Q w → Q (host.release_capture capture w)
  pub releases_extracted :
      (extracted : ExtractedCheckout) (w : R) → P w → P (host.release_extracted extracted w)
  pub releases_extracted_after :
      (extracted : ExtractedCheckout) (w : R) → Q w → Q (host.release_extracted extracted w)

-- The local state may be replaced: it is of no other repository, differs from the remote one, has no
-- changes, and its commit is in the history of the remote one.
abbrev pub IsReplaceable : PullInspection → CheckoutState → Type 0
IsReplaceable i d =
    (of_different_repositories i.state d ≡ false)
    × (i.state.digest ≢ d.digest)
    × (dirty d.status ≡ false)
    × (i.destination_ancestor ≡ true)

-- What the application of an extracted checkout comes behind: the local Worktree was seen to be
-- replaceable by the inspected remote state; the remote Worktree was captured as it had been
-- inspected, and still has the local commit in its history; the extracted state is the inspected and
-- the captured one; and the preflight of its application has succeeded.
pub record IsGuardedBy (facts : PullFacts) (request : PullRequest) (x : ExtractedCheckout)
    (i : PullInspection) (d : CheckoutState) (c : PullCapture) : Type 0 where
  pub was_inspected : facts.inspected i
  pub was_seen : facts.seen d
  pub replaceable : IsReplaceable i d
  pub was_captured : facts.captured c
  pub still_ancestor : c.destination_ancestor ≡ true
  pub unchanged : c.capture.state.revalidation_digest ≡ i.state.revalidation_digest
  pub was_extracted : facts.extracted c.capture.payload_path x
  pub same_digest : x.state.digest ≡ i.state.digest
  pub same_revalidation : x.state.revalidation_digest ≡ i.state.revalidation_digest
  pub same_capture : x.state.digest ≡ c.capture.state.digest
  pub applies : facts.applicable request.local_worktree d x.state.files x.state.absent_paths

abbrev pub IsGuarded : PullFacts → PullRequest → ExtractedCheckout → Type 0
IsGuarded facts request x =
    (i : PullInspection) × (d : CheckoutState) × (c : PullCapture) × IsGuardedBy facts request x i d
      c

module _ {R : Type 0} (P Q : R → Type 0) (facts : PullFacts) (request : PullRequest) where
  -- What a result says, by its action.
  abbrev pub Reports : PullResult → R → Action → Type 0
  Reports result v no_change =
      P v × (result.source.digest ≡ result.destination.digest) × facts.seen result.destination
  Reports result v would_pull =
      P v
      × (request.dry_run ≡ true)
      × ((i : PullInspection) × facts.inspected i
          × (i.state ≡ result.source)
          × facts.seen result.destination
          × IsReplaceable i result.destination)
      × facts.applicable request.local_worktree result.destination result.source.files
          result.source.absent_paths
      × facts.branch_fits request.local_worktree result.source
  Reports result v pulled =
      Q v
      × (request.dry_run ≡ false)
      × (result.destination.digest ≡ result.source.digest)
      × ((x : ExtractedCheckout) × (x.state ≡ result.source) × IsGuarded facts request x)
  Reports result v _ = ⊥

  abbrev pub IsPulled : PullResult → R → Type 0
  IsPulled result v = Reports result v result.action

  -- A failure came before the transaction or, in no dry run, after a transaction behind every guard.
  abbrev pub IsRefused : Failure PullResult → R → Type 0
  IsRefused f v =
      P v
      ⊎ (Q v × (request.dry_run ≡ false) × ((x : ExtractedCheckout) × IsGuarded facts request x))

  pub Reports-after :
      (result : PullResult) (action : Action) (v u : R)
      → (P v → P u)
      → (Q v → Q u)
      → Reports result v action
      → Reports result u action
  Reports-after result no_action v u f g h = h
  Reports-after result would_push v u f g h = h
  Reports-after result pushed v u f g h = h
  Reports-after result would_pull v u f g (p, dry, from, applies, fits) =
      (f p, dry, from, applies, fits)
  Reports-after result pulled v u f g (q, wet, digest, from) = (g q, wet, digest, from)
  Reports-after result no_change v u f g (p, same, seen) = (f p, same, seen)
  Reports-after result conflict v u f g h = h

  pub IsRefused-after :
      (e : Failure PullResult) (v u : R) → (P v → P u) → (Q v → Q u) → IsRefused e v → IsRefused e u
  IsRefused-after e v u f g (inl p) = inl (f p)
  IsRefused-after e v u f g (inr (q, wet, guarded)) = inr (g q, wet, guarded)
