-- ===== src/Transfer/PushSteps.antt =====
-- internal/workspacetransfer/push.go: the calls of a push before the application at the remote.
use Prim.Native.String.{String}
use schooner.Prelude.{
  ℕ, Bool, true, false, ◌||◌, List, [], ◌∷◌, Option, none, some, ◌!=◌, string_eq, ◌≡◌, refl, ◌⊎◌,
  inl, inr, length, zero, suc, ◌++◌, ap, ◌∙◌, arith, eq_of_==,
}
use schooner.Prelude.Results.{M, pure, Holds, Holds-imp, Kept, Result-cases, Holds-if}
use schooner.Prelude.Steps.{Advances, after_step, or_fail-Advances, or_fail-Kept}
use schooner.Repository.Checkout.{CheckoutFile, CheckoutState}
use schooner.Transfer.{TransferError, Failure, beside}
use schooner.Transfer.Pages.{preflight_page_end, take, drop}
use schooner.Transfer.Push.{
  PreflightResult, Remote, Local, PushRequest, PushResult, is_some, Push, stopped, preflight_page,
  preflight_pages, compare_files, changed, must_match, must_be_seed, must_be_created,
  must_be_reachable, reachable,
}
use schooner.Transfer.Paging.{concat, take-drop}
use schooner.Transfer.PushLaws.{PushLaws, IsStopped, IsUnchanged, PagesFit, FilesFit}

module _ {R : Type 0} {P Q : R → Type 0} {Seen : Option CheckoutState → Type 0}
    {Ancestor : String → String → String → Type 0} {Passes : String → CheckoutState → Bool → Type 0}
    {remote : Remote R} {host : Local R} (laws : PushLaws P Q Seen Ancestor Passes remote host)
    (request : PushRequest) where
  abbrev pub Stops : Failure PushResult → R → Type 0
  Stops = IsStopped P Q Seen Ancestor Passes request

  abbrev pub PushAdvances : {A : Type 0} → (A → Type 0) → Push R A → Type 0
  PushAdvances T m = Advances P Stops T m

  pub beside-PushAdvances :
      {B : Type 0} (T : B → Type 0) (result : Option PushResult) (m : M R TransferError B)
      → ((w : R) → P w → Holds (m w) (λ b v. T b × P v) (λ e v. P v))
      → PushAdvances T (beside result m)
  beside-PushAdvances T result m h = or_fail-Advances P Stops T _ m (λ e v p. inl p) h

  pub beside-Kept :
      {B : Type 0} (result : Option PushResult) (m : M R TransferError B)
      → Kept P m
      → PushAdvances (λ b. Unit {0}) (beside result m)
  beside-Kept result m h = or_fail-Kept P Stops _ m (λ e v p. inl p) h

  stopped-PushAdvances :
      {A : Type 0} (T : A → Type 0) (result : PushResult) (message : String)
      → PushAdvances {A = A} T (stopped result message)
  stopped-PushAdvances T result message w p = inl p

  preflight_page-PushAdvances :
      (result : PushResult) (page : CheckoutState) (first : Bool)
      → PushAdvances
          (λ x. Passes result.remote_worktree page first)
          (preflight_page remote host result page first)
  unfolding preflight_page
  preflight_page-PushAdvances result page first =
      or_fail-Advances P Stops (λ x. Passes result.remote_worktree page first) _ _ (λ e v p. inl p)
        (laws.preflights result.remote_worktree page first)

  -- The files have passed in pages.
  abbrev Paged : PushResult → Bool → List CheckoutFile → Type 0
  Paged result first files =
      (pages : List (List CheckoutFile)) × (concat pages ≡ files)
      × PagesFit P Q Seen Ancestor Passes result.remote_worktree result.source first pages

  Paged-more :
      (result : PushResult) (first : Bool) (count : ℕ) (files : List CheckoutFile)
      → Passes result.remote_worktree (record result.source { files = take count files }) first
      → Paged result false (drop count files)
      → Paged result first files
  Paged-more result first count files passed (pages, covered, fit) = (
    take count files ∷ pages,
    ap (λ r. take count files ++ r) covered ∙ take-drop count files,
    (passed, fit),
  )

  preflight_pages-PushAdvances :
      (fuel : ℕ) (result : PushResult) (first : Bool) (files : List CheckoutFile)
      (comparison : PreflightResult)
      → PushAdvances
          (λ x. Paged result first files)
          (preflight_pages remote host fuel result first files comparison)
  unfolding preflight_pages
  preflight_pages-PushAdvances zero result first [] comparison w p = (([], refl, tt), p)
  preflight_pages-PushAdvances (suc fuel) result first [] comparison w p = (([], refl, tt), p)
  preflight_pages-PushAdvances zero result first (file ∷ rest) comparison w p = inl p
  preflight_pages-PushAdvances (suc fuel) result first (file ∷ rest) comparison w p =
      elim (Result-cases (preflight_page_end host.encoded (file ∷ rest))) [
        | inl (count, e) ↦
            rw (preflight_pages, e)
              (after_step P Stops _ (λ x v. Paged result first (file ∷ rest) × P v)
                (preflight_page remote host result
                  (record result.source { files = take count (file ∷ rest) }) first)
                _ (preflight_page-PushAdvances result _ first)
                (λ x passed v q.
                  Holds-imp (λ y u. Paged result false (drop count (file ∷ rest)) × P u)
                    (λ y u. Paged result first (file ∷ rest) × P u) Stops Stops _
                    (λ y u (paged, r).
                      (Paged-more result first count (file ∷ rest) passed paged, r))
                    (λ e u s. s)
                    (preflight_pages-PushAdvances fuel result false (drop count (file ∷ rest)) _ v
                      q))
                w p)
        | inr (reason, e) ↦ rw (preflight_pages, e) (inl p)
      ]

  pub compare_files-PushAdvances :
      (result : PushResult) (files : List CheckoutFile)
      → PushAdvances
          (λ x. FilesFit P Q Seen Ancestor Passes result.remote_worktree result.source files)
          (compare_files remote host result files)
  unfolding compare_files
  compare_files-PushAdvances result [] = preflight_page-PushAdvances result result.source true
  compare_files-PushAdvances result (file ∷ rest) =
      preflight_pages-PushAdvances (length (file ∷ rest)) result true (file ∷ rest) _

  must_be_seed-PushAdvances :
      (result : PushResult) (seed : Option CheckoutState)
      → PushAdvances
          (λ x. IsUnchanged P Q Seen Ancestor Passes request seed result.destination)
          (must_be_seed request.remote_worktree result seed)
  must_be_seed-PushAdvances result none w p = (tt, p)
  must_be_seed-PushAdvances result (some seed) w p = matches result.destination
    where
      matches :
          (o : Option CheckoutState)
          → Holds
              (must_match request.remote_worktree result seed o w)
              (λ x v. IsUnchanged P Q Seen Ancestor Passes request (some seed) o × P v)
              Stops
      matches none = inl p
      matches (some d) =
          Holds-if (λ x v. IsUnchanged P Q Seen Ancestor Passes request (some seed) (some d) × P v)
            Stops
            (d.worktree != request.remote_worktree
              || d.revalidation_digest != seed.revalidation_digest)
            (changed {A = Unit {0}} result) (pure tt) w (λ e. inl p)
            (λ e. ((eq_of_== (ground arith), eq_of_== (ground arith)), p))

  pub must_be_created-PushAdvances :
      (result : PushResult)
      → PushAdvances
          (λ x.
            IsUnchanged P Q Seen Ancestor Passes request request.created_destination
              result.destination)
          (must_be_created request result)
  unfolding must_be_created
  must_be_created-PushAdvances result = must_be_seed-PushAdvances result request.created_destination

  reachable-PushAdvances :
      (T : Type 0) (result : PushResult) (safe : Bool)
      → (safe ≡ true → T)
      → PushAdvances (λ x. T) (reachable result safe)
  reachable-PushAdvances T result true h w p = (h refl, p)
  reachable-PushAdvances T result false h w p = inl p

  pub must_be_reachable-PushAdvances :
      (result : PushResult) (d : CheckoutState)
      → PushAdvances
          (λ x.
            (is_some request.created_destination ≡ true)
            ⊎ Ancestor result.source.worktree d.head result.source.head)
          (must_be_reachable remote host request result d)
  unfolding must_be_reachable
  must_be_reachable-PushAdvances result d w p =
      Holds-if _ _ (is_some request.created_destination) _ _ w (λ e. (inl e, p))
        (λ e.
          after_step P Stops _ _
            (beside (some result)
              (host.commit_is_ancestor result.source.worktree d.head result.source.head))
            _
            (beside-PushAdvances _ (some result) _
              (laws.answers result.source.worktree d.head result.source.head))
            (λ safe tells. reachable-PushAdvances _ result safe (λ t. inr (tells t))) w p)
