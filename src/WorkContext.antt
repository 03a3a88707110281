-- ===== src/WorkContext.antt =====
-- internal/workcontext/context.go: what a start or a resume works on, planned from the observed
-- repositories and sessions. `repository.OriginKey`, which normalises an address through Go's URL
-- parser, is an argument: any function of the text. The preferred Worktree or Session of a plan is an
-- Option, none where the source leaves the field at its zero value.
pub mod Start
pub mod Resume
mod Tests
use Prim.Native.String.{String}
use schooner.Prelude.{
  ℕ, Bool, true, false, not, ◌&&◌, ◌||◌, List, [], ◌∷◌, ◌++◌, Option, none, some, ◌==◌, ◌!=◌,
  string_eq, ltb, if◌then◌else◌, keep,
}
use schooner.Prelude.Table.{exists}
use schooner.Prelude.Order.{Ordering, ◌then_by◌}
use schooner.Prelude.Sort.{sort, compare_strings}
use schooner.Repository.{
  clean_status, kind_primary, Worktree, Repository, Warning, Catalog, LocalCheckout,
}
use schooner.Session.{
  managed, unmanaged, live, unassociated, Ownership, AssociationState, Session, SessionCatalog,
}

pub data StartMode : Type 0 where
  start_use start_choose start_clone start_unavailable : StartMode

pub record WorktreeChoice : Type 0 where
  pub origin : String
  pub common_directory : String
  pub worktree : Worktree

pub record StartPlan : Type 0 where
  pub mode : StartMode
  pub preferred : Option WorktreeChoice
  pub choices : List WorktreeChoice
  pub clone_source : String
  pub incomplete : Bool

abbrev pub start_plan : StartMode → List WorktreeChoice → StartPlan
start_plan mode choices = record {
  mode = mode;
  preferred = none;
  choices = choices;
  clone_source = "";
  incomplete = false;
}

abbrev pub by_relative_path : WorktreeChoice → WorktreeChoice → Ordering
by_relative_path left right =
    compare_strings left.worktree.relative_path right.worktree.relative_path
    then_by compare_strings left.worktree.path right.worktree.path

unfoldable pub sort_worktrees : List WorktreeChoice → List WorktreeChoice
sort_worktrees = sort by_relative_path

abbrev pub choose_sorted : List WorktreeChoice → StartPlan
choose_sorted [] = start_plan start_unavailable []
choose_sorted (c ∷ []) = record (start_plan start_use (c ∷ [])) { preferred = some c }
choose_sorted (c ∷ d ∷ rest) = start_plan start_choose (c ∷ d ∷ rest)

unfoldable pub choose_start : List WorktreeChoice → StartPlan
choose_start choices = choose_sorted (sort_worktrees choices)

-- The choice of a Worktree of a repository.
abbrev pub choice : Repository → Worktree → WorktreeChoice
choice value worktree = record {
  origin = value.origin;
  common_directory = value.common_directory;
  worktree = worktree;
}

unfoldable pub linked_choices : Repository → List Worktree → List WorktreeChoice
linked_choices value [] = []
linked_choices value (worktree ∷ rest) = choice value worktree ∷ linked_choices value rest

abbrev pub choices_of : Repository → Option Worktree → List WorktreeChoice
choices_of value (some worktree) = choice value worktree ∷ []
choices_of value none = linked_choices value value.linked

unfoldable pub default_choices : List Repository → List WorktreeChoice
default_choices [] = []
default_choices (value ∷ rest) = choices_of value value.primary ++ default_choices rest

abbrev pub choose_incomplete : List WorktreeChoice → StartPlan
choose_incomplete [] = record (start_plan start_unavailable []) { incomplete = true }
choose_incomplete (c ∷ rest) = record (start_plan start_choose (c ∷ rest)) { incomplete = true }

-- The plan where the catalogue has warnings.
unfoldable pub incomplete_start : List Repository → List WorktreeChoice → StartPlan
incomplete_start [] fallback = choose_incomplete (sort_worktrees fallback)
incomplete_start (r ∷ rs) fallback = choose_incomplete (sort_worktrees (default_choices (r ∷ rs)))

-- The plan where it has none.
unfoldable pub complete_start : LocalCheckout → List Repository → List WorktreeChoice → StartPlan
complete_start checkout [] fallback =
    if checkout.clone_source == ""
    then choose_start fallback
    else record (start_plan start_clone fallback) { clone_source = checkout.clone_source }
complete_start checkout (r ∷ rs) fallback = choose_start (default_choices (r ∷ rs))

unfoldable pub matched_start :
    LocalCheckout → List Warning → List Repository → List WorktreeChoice → StartPlan
matched_start checkout [] matching fallback = complete_start checkout matching fallback
matched_start checkout (w ∷ ws) matching fallback = incomplete_start matching fallback

module _ (origin_key : String → String) where
  unfoldable pub matching_repositories : String → List Repository → List Repository
  matching_repositories key = keep (λ value. origin_key value.origin == key)

  unfoldable pub plan_start : Option LocalCheckout → Catalog → StartPlan
  plan_start none catalog = choose_start (default_choices catalog.repositories)
  plan_start (some checkout) catalog =
      let fallback = default_choices catalog.repositories in
      let matching = matching_repositories checkout.origin_key catalog.repositories in
      if checkout.origin_key == ""
      then choose_start fallback
      else matched_start checkout catalog.warnings matching fallback

pub data ResumeMode : Type 0 where
  resume_use resume_choose resume_unavailable : ResumeMode

pub record ResumePlan : Type 0 where
  pub mode : ResumeMode
  pub preferred : Option Session
  pub choices : List Session
  pub incomplete : Bool

abbrev pub resume_plan : ResumeMode → List Session → ResumePlan
resume_plan mode choices = record {
  mode = mode;
  preferred = none;
  choices = choices;
  incomplete = false;
}

abbrev pub unavailable : ResumePlan
unavailable = resume_plan resume_unavailable []

abbrev pub resume_at : Session → ResumePlan
resume_at value = record (resume_plan resume_use []) { preferred = some value }

abbrev pub compare_time_descending : ℕ → ℕ → Ordering
compare_time_descending left right =
    if ltb right left then Ordering.lt else if ltb left right then Ordering.gt else Ordering.eq

abbrev pub by_recency : Session → Session → Ordering
by_recency left right =
    compare_time_descending left.activity_at right.activity_at
    then_by compare_time_descending left.created_at right.created_at
    then_by compare_strings left.tmux_id right.tmux_id

unfoldable pub sort_sessions : List Session → List Session
sort_sessions = sort by_recency

abbrev pub is_managed : Ownership → Bool
is_managed managed = true
is_managed _ = false

abbrev pub is_unmanaged : Ownership → Bool
is_unmanaged unmanaged = true
is_unmanaged _ = false

abbrev pub is_live : AssociationState → Bool
is_live live = true
is_live _ = false

unfoldable pub is_automatic : Session → Bool
is_automatic value = is_managed value.ownership && is_live value.association && value.id != ""

unfoldable pub automatic_sessions : List Session → List Session
automatic_sessions = keep is_automatic

unfoldable pub is_resumable : Session → Bool
is_resumable value =
    (is_managed value.ownership && value.id != "")
    || (is_unmanaged value.ownership && value.tmux_id != "")

unfoldable pub resumable_sessions : List Session → List Session
resumable_sessions = keep is_resumable

abbrev pub choose_resumable : List Session → ResumePlan
choose_resumable [] = unavailable
choose_resumable (value ∷ rest) = resume_plan resume_choose (value ∷ rest)

unfoldable pub choose_resume : List Session → ResumePlan
choose_resume values = choose_resumable (sort_sessions (resumable_sessions values))

unfoldable pub spans_from : String → List Session → Bool
spans_from first [] = false
spans_from first (value ∷ rest) =
    let later = spans_from value.repository_common_directory rest in
    let same = spans_from first rest in
    if first == "" then later else if value.repository_common_directory != first then true else same

unfoldable pub sessions_span_repositories : List Session → Bool
sessions_span_repositories = spans_from ""

-- Whether a session belongs to one of the repositories.
unfoldable pub is_matched : List Repository → Session → Bool
is_matched matching value =
    exists (λ r. r.common_directory == value.repository_common_directory) matching

-- The plan for the sessions of the local repository, in their order.
unfoldable pub matched_resume : List Warning → List Session → ResumePlan
matched_resume [] [] = unavailable
matched_resume (w ∷ ws) [] = record unavailable { incomplete = true }
matched_resume (w ∷ ws) (value ∷ rest) = record (resume_plan resume_choose (value ∷ rest)) {
  incomplete = true;
}
matched_resume [] (value ∷ rest) =
    if sessions_span_repositories (value ∷ rest)
    then resume_plan resume_choose (value ∷ rest)
    else resume_at value

unfoldable pub newest : List Session → List Session → ResumePlan
newest sessions [] = choose_resume sessions
newest sessions (value ∷ rest) = resume_at value

module _ (origin_key : String → String) where
  unfoldable pub plan_resume : Option LocalCheckout → Catalog → SessionCatalog → ResumePlan
  plan_resume none catalog observed =
      newest observed.sessions (sort_sessions (automatic_sessions observed.sessions))
  plan_resume (some checkout) catalog observed =
      let matching = matching_repositories origin_key checkout.origin_key catalog.repositories in
      let matched = keep (is_matched matching) (automatic_sessions observed.sessions) in
      if checkout.origin_key == ""
      then unavailable
      else matched_resume catalog.warnings (sort_sessions matched)
