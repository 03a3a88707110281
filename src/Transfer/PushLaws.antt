-- ===== src/Transfer/PushLaws.antt =====
-- internal/workspacetransfer/push.go: the laws of what a push calls, and what its results and failures
-- report.
use Prim.Native.String.{String}
use schooner.Prelude.{
  Bool, true, false, List, [], ◌∷◌, Option, none, some, string_eq, ◌≡◌, ◌≢◌, ◌⊎◌,
}
use schooner.Prelude.Results.{Holds, Kept}
use schooner.Repository.Checkout.{CheckoutFile, CheckoutState, CheckoutCapture}
use schooner.Transfer.{
  no_action, would_push, pushed, no_change, Action, Failure, dirty, of_different_repositories,
}
use schooner.Transfer.Paging.{concat}
use schooner.Transfer.Push.{
  ApplyRequest, Remote, Local, PushRequest, PushResult, is_some, preflight_files,
}

-- What the calls of a push keep and tell. `P` is kept by every call but the application at the
-- remote, and `Q` holds after that one. `Seen` is what an observation of the destination tells, and
-- `Ancestor` what a positive answer of CommitIsAncestor tells, and `Passes` what a preflight tells that
-- succeeds.
pub record PushLaws {R : Type 0} (P Q : R → Type 0) (Seen : Option CheckoutState → Type 0)
    (Ancestor : String → String → String → Type 0) (Passes : String → CheckoutState → Bool → Type 0)
    (remote : Remote R) (host : Local R) : Type 0 where
  pub observes_destination :
      (path : String) (w : R)
      → P w
      → Holds (remote.observe_push_destination path w) (λ d v. Seen d × P v) (λ e v. P v)
  pub preflights :
      (path : String) (page : CheckoutState) (first : Bool)
      → (w : R) → P w
      → Holds
          (remote.preflight_push_destination path page first w)
          (λ x v. Passes path page first × P v)
          (λ e v. P v)
  pub applies :
      (request : ApplyRequest) (payload : String) (w : R)
      → P w
      → Holds (remote.apply_push request payload w) (λ a v. Q v) (λ e v. Q v)
  pub observes_checkout : (path : String) → Kept P (host.observe_checkout path)
  pub captures : (path staging : String) → Kept P (host.capture_checkout path staging)
  pub answers :
      (worktree ancestor commit : String) (w : R)
      → P w
      → Holds
          (host.commit_is_ancestor worktree ancestor commit w)
          (λ safe v. (safe ≡ true → Ancestor worktree ancestor commit) × P v)
          (λ e v. P v)
  pub opens : (path : String) → Kept P (host.open_payload path)
  pub draws : Kept P host.new_operation_id
  pub releases : (capture : CheckoutCapture) (w : R) → P w → P (host.release capture w)
  pub releases_after : (capture : CheckoutCapture) (w : R) → Q w → Q (host.release capture w)
  pub closes : (path : String) (w : R) → P w → P (host.close_payload path w)
  pub closes_after : (path : String) (w : R) → Q w → Q (host.close_payload path w)

abbrev pub action_of : Failure PushResult → Action
action_of (none, e) = no_action
action_of (some result, e) = result.action

module _ {R : Type 0} (P Q : R → Type 0) (Seen : Option CheckoutState → Type 0)
    (Ancestor : String → String → String → Type 0)
    (Passes : String → CheckoutState → Bool → Type 0) where
  -- A destination that a clone has just made is there, at its path and as the clone left it.
  abbrev pub IsUnchanged : PushRequest → Option CheckoutState → Option CheckoutState → Type 0
  IsUnchanged request none d = Unit {0}
  IsUnchanged request (some seed) none = ⊥
  IsUnchanged request (some seed) (some d) =
      (d.worktree ≡ request.remote_worktree) × (d.revalidation_digest ≡ seed.revalidation_digest)

  -- Every page has passed a preflight, the first of them as the first.
  abbrev pub PagesFit : String → CheckoutState → Bool → List (List CheckoutFile) → Type 0
  PagesFit path source first [] = Unit {0}
  PagesFit path source first (page ∷ rest) =
      Passes path (record source { files = page }) first × PagesFit path source false rest

  -- The files have passed a preflight, page by page, or the source itself if it has none.
  abbrev pub FilesFit : String → CheckoutState → List CheckoutFile → Type 0
  FilesFit path source [] = Passes path source true
  FilesFit path source (file ∷ rest) =
      (pages : List (List CheckoutFile)) × (concat pages ≡ file ∷ rest)
      × PagesFit path source true pages

  -- The destination may be replaced: it is as a clone has just made it, if one has, and there is
  -- none, or it is of no other repository, differs from the source, has no changes, its commit is in
  -- the history of the source unless a clone has just made it, and every file has passed a preflight.
  abbrev pub IsAllowed : PushRequest → CheckoutState → Option CheckoutState → Type 0
  IsAllowed request source none = IsUnchanged request request.created_destination none
  IsAllowed request source (some d) =
      IsUnchanged request request.created_destination (some d)
      × (of_different_repositories source d ≡ false)
      × (d.digest ≢ source.digest)
      × (dirty d.status ≡ false)
      × ((is_some request.created_destination ≡ true) ⊎ Ancestor source.worktree d.head source.head)
      × FilesFit request.remote_worktree source (preflight_files source)

  -- What an application comes behind.
  abbrev pub IsGuarded : PushRequest → CheckoutState → Type 0
  IsGuarded request source = (d : Option CheckoutState) × Seen d × IsAllowed request source d

  abbrev pub HasDigest : CheckoutState → Option CheckoutState → Type 0
  HasDigest source destination =
      (d : CheckoutState) × (destination ≡ some d) × (d.digest ≡ source.digest)

  -- What a result says, by its action.
  abbrev pub Reports : PushRequest → PushResult → R → Action → Type 0
  Reports request result v no_change = P v × HasDigest result.source result.destination
  Reports request result v would_push =
      P v × (request.dry_run ≡ true) × IsAllowed request result.source result.destination
  Reports request result v pushed =
      Q v
      × (request.dry_run ≡ false)
      × HasDigest result.source result.destination
      × IsGuarded request result.source
  Reports request result v _ = ⊥

  abbrev pub IsSound : PushRequest → PushResult → R → Type 0
  IsSound request result v = Reports request result v result.action

  -- A failure came before the application or, without a report of a conflict, from an application
  -- behind every guard.
  abbrev pub IsStopped : PushRequest → Failure PushResult → R → Type 0
  IsStopped request f v =
      P v
      ⊎ (Q v
          × (request.dry_run ≡ false)
          × (action_of f ≡ no_action)
          × ((source : CheckoutState) × IsGuarded request source))
