-- ===== src/Transfer/PullSound.antt =====
-- What a pull of internal/workspacetransfer/pull.go does on each path, for any source and any
-- repository package that keep the laws of Transfer/PullLaws.
use schooner.Prelude.{string_eq}
use schooner.Prelude.Results.{Holds}
use schooner.Repository.Checkout.{CheckoutState, CheckoutTransactionOptions}
use schooner.Transfer.{Failure}
use schooner.Transfer.Pull.{PullInspection, PullSource, PullHost, PullRequest, PullResult, Pull}
use schooner.Transfer.PullLaws.{PullFacts, PullLaws, IsReplaceable, IsPulled, IsRefused}

module _ {R : Type 0} {P Q : R → Type 0} {facts : PullFacts} {source : PullSource R}
    {host : PullHost R} (laws : PullLaws P Q facts source host) (request : PullRequest) where
  abbrev Refused : Failure PullResult → R → Type 0
  Refused = IsRefused P Q facts request

  abbrev Pulled : PullResult → R → Type 0
  Pulled = IsPulled P Q facts request

  abbrev Late : Pull R PullResult → Type 0
  Late m = (w : R) → P w → Holds (m w) Pulled Refused

  -- What is known once both sides are seen.
  Known : PullInspection → CheckoutState → Type 0
  Known i d = facts.inspected i × facts.seen d × IsReplaceable i d

  abbrev options_of : CheckoutState → CheckoutTransactionOptions
  options_of d = record {
    expected_state_digest = d.revalidation_digest;
    lock_state_directory = request.lock_state_directory;
    staging_directory = request.staging;
    operation_created_branch = "";
  }
