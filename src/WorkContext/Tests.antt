-- ===== src/WorkContext/Tests.antt =====
-- Planned starts and resumes of internal/workcontext/context.go on two repositories and two sessions.
use Prim.Native.String.{String}
use schooner.Prelude.{
  ℕ, Bool, true, false, List, [], ◌∷◌, Option, none, some, ◌≡◌, ◌≢◌, refl, inl, inr, All, Mem,
  ne_of_test, ◌==◌, string_eq,
}
use schooner.Repository.{clean_status, kind_primary, Worktree, Repository, Catalog, LocalCheckout}
use schooner.Session.{managed, live, Session, SessionCatalog}
use schooner.WorkContext.{
  start_use, StartMode, WorktreeChoice, choice, default_choices, plan_start, plan_resume,
}
use schooner.WorkContext.Start.{
  Offers, IsOffered, UsesOne, considered, is_decided, plan_start-AreObserved, plan_start-matches,
  plan_start_use,
}
use schooner.WorkContext.Resume.{
  IsNewest, IsOfOrigin, Continues, eligible, plan_resume-IsNewest, plan_resume-IsOfOrigin,
  plan_resume_alone,
}

abbrev key_of : String → String
key_of origin = origin

abbrev worktree : String → Worktree
worktree path = record {
  path = path;
  relative_path = path;
  git_directory = ".git";
  kind = kind_primary;
  branch = "main";
  detached = false;
  head = "c0ffee";
  status = clean_status;
}

abbrev app : Repository
app = record {
  common_directory = "/srv/app/.git";
  origin = "github.com/acme/app";
  primary = some (worktree "app");
  linked = worktree "app-fix" ∷ [];
}

abbrev docs : Repository
docs = record {
  common_directory = "/srv/docs/.git";
  origin = "github.com/acme/docs";
  primary = none;
  linked = worktree "docs-new" ∷ worktree "docs-old" ∷ [];
}

abbrev catalog : Catalog
catalog = record { worktree_root = "/srv"; repositories = docs ∷ app ∷ []; warnings = [] }

abbrev checkout : LocalCheckout
checkout = record {
  top_level = "/home/me/app";
  origin = "git@github.com:acme/app.git";
  origin_key = "github.com/acme/app";
  clone_source = "git@github.com:acme/app.git";
  branch = "main";
  detached = false;
  head = "c0ffee";
  upstream = "";
  ahead = 0;
  behind = 0;
  status = clean_status;
}

abbrev session : String → ℕ → String → Session
session id activity common = record {
  id = id;
  tmux_id = id;
  name = id;
  ownership = managed;
  kind = "shell";
  created_at = 1;
  activity_at = activity;
  attached_clients = 0;
  worktree_path = "";
  worktree_relative_path = "";
  repository_common_directory = common;
  association = live;
  schooner_metadata = true;
  legacy_metadata = false;
  metadata_worktree_path = "";
  observed_worktree_paths = [];
}

abbrev sessions : SessionCatalog
sessions = record {
  worktree_root = "/srv";
  sessions =
      session "s1" 5 "/srv/app/.git"
      ∷ session "s2" 9 "/srv/docs/.git"
      ∷ session "s3" 7 "/srv/app/.git"
      ∷ [];
}

start_test :
    (plan_start key_of (some checkout) catalog).preferred ≡ some (choice app (worktree "app"))
unfolding plan_start schooner.WorkContext.matched_start schooner.WorkContext.complete_start
    schooner.WorkContext.matching_repositories schooner.Prelude.Lists.keep
    schooner.WorkContext.choose_start schooner.WorkContext.sort_worktrees schooner.Prelude.Sort.sort
    default_choices
start_test = refl

resume_test :
    (plan_resume key_of (some checkout) catalog sessions).preferred
    ≡ some (session "s3" 7 "/srv/app/.git")
unfolding plan_resume schooner.WorkContext.matched_resume schooner.WorkContext.sort_sessions
    schooner.Prelude.Sort.sort schooner.Prelude.Lists.keep schooner.WorkContext.automatic_sessions
    schooner.WorkContext.is_automatic schooner.WorkContext.is_matched schooner.Prelude.Table.exists
    schooner.WorkContext.matching_repositories schooner.WorkContext.sessions_span_repositories
    schooner.WorkContext.spans_from
resume_test = refl

resume_anywhere_test :
    (plan_resume key_of none catalog sessions).preferred ≡ some (session "s2" 9 "/srv/docs/.git")
unfolding plan_resume schooner.WorkContext.newest schooner.WorkContext.sort_sessions
    schooner.Prelude.Sort.sort schooner.WorkContext.automatic_sessions schooner.Prelude.Lists.keep
    schooner.WorkContext.is_automatic
resume_anywhere_test = refl

plan_start-AreObserved_example :
    Offers (IsOffered catalog.repositories) (plan_start key_of (some checkout) catalog)
plan_start-AreObserved_example = plan_start-AreObserved key_of (some checkout) catalog

plan_start-matches_example :
    Offers
      (λ c. key_of c.origin ≡ "github.com/acme/app")
      (plan_start key_of (some checkout) catalog)
plan_start-matches_example =
    plan_start-matches key_of checkout catalog app (ne_of_test "github.com/acme/app" "" refl)
      (inr (inl refl)) refl

plan_start_use_example :
    UsesOne
      (plan_start key_of (some checkout) catalog)
      (is_decided key_of (some checkout) catalog)
      (default_choices (considered key_of (some checkout) catalog))
plan_start_use_example = plan_start_use key_of (some checkout) catalog

plan_resume-IsNewest_example :
    IsNewest
      (eligible key_of (some checkout) catalog sessions.sessions)
      (session "s3" 7 "/srv/app/.git")
plan_resume-IsNewest_example =
    plan_resume-IsNewest key_of (some checkout) catalog sessions (session "s3" 7 "/srv/app/.git")
      resume_test

plan_resume-IsOfOrigin_example :
    Continues
      (IsOfOrigin key_of "github.com/acme/app" catalog)
      (plan_resume key_of (some checkout) catalog sessions)
plan_resume-IsOfOrigin_example = plan_resume-IsOfOrigin key_of checkout catalog sessions

plan_resume_alone_example :
    (catalog.warnings ≡ [])
    × All
        (λ s. s.repository_common_directory ≡ "/srv/app/.git")
        (eligible key_of (some checkout) catalog sessions.sessions)
plan_resume_alone_example =
    plan_resume_alone key_of checkout catalog sessions (session "s3" 7 "/srv/app/.git")
      (ne_of_test "/srv/docs/.git" "" refl, (ne_of_test "/srv/app/.git" "" refl, tt)) resume_test
