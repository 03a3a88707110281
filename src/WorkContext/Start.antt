-- ===== src/WorkContext/Start.antt =====
-- What the planned start of internal/workcontext/context.go offers.
use Prim.Native.String.{String}
use mathlib.Core.Path.{subst}
use schooner.Prelude.{
  Bool, true, false, not, ◌&&◌, ◌||◌, List, [], ◌∷◌, Option, none, some, ◌==◌, ◌≡◌, ◌≢◌, refl, ap,
  ◌⊎◌, ◌↔◌, inl, inr, if◌then◌else◌, All, All-append, Mem, length, arith, string_eq, eq_of_==, ◌∙◌,
  Mem-keep, keep-Mem, ==-refl,
}
use schooner.Prelude.Table.{All-imp}
use schooner.Prelude.Sort.{sort-All, length-sort}
use schooner.Repository.{Worktree, Repository, Warning, Catalog, LocalCheckout}
use schooner.WorkContext.{
  start_use, WorktreeChoice, StartPlan, by_relative_path, sort_worktrees, choose_start, choice,
  linked_choices, choices_of, default_choices, incomplete_start, complete_start, choose_sorted,
  choose_incomplete, matched_start, matching_repositories, plan_start,
}

-- The choice is the primary Worktree of the repository or, where there is none, a linked one.
abbrev pub IsChoice : Repository → WorktreeChoice → Type 0
IsChoice r c =
    (w : Worktree) × (c ≡ choice r w)
    × ((r.primary ≡ some w) ⊎ ((r.primary ≡ none) × Mem w r.linked))

abbrev pub IsOffered : List Repository → WorktreeChoice → Type 0
IsOffered values c = (r : Repository) × Mem r values × IsChoice r c

-- Every choice of the plan has the property, and the preferred one is the only choice.
abbrev pub Offers : (WorktreeChoice → Type 0) → StartPlan → Type 0
Offers P plan =
    All P plan.choices × elim plan.preferred [ none ↦ Unit {0} | some c ↦ plan.choices ≡ c ∷ [] ]

module _ (P : WorktreeChoice → Type 0) where
  choose_sorted-Offers :
      (sorted : List WorktreeChoice) → All P sorted → Offers P (choose_sorted sorted)
  choose_sorted-Offers [] h = (tt, tt)
  choose_sorted-Offers (c ∷ []) h = (h, refl)
  choose_sorted-Offers (c ∷ d ∷ rest) h = (h, tt)

  choose_start-Offers :
      (choices : List WorktreeChoice) → All P choices → Offers P (choose_start choices)
  unfolding choose_start sort_worktrees
  choose_start-Offers choices h = choose_sorted-Offers _ (sort-All by_relative_path P choices h)

  choose_incomplete-Offers :
      (choices : List WorktreeChoice) → All P choices → Offers P (choose_incomplete choices)
  choose_incomplete-Offers [] h = (tt, tt)
  choose_incomplete-Offers (c ∷ rest) h = (h, tt)

  Offers-if :
      (b : Bool) (x y : StartPlan)
      → (b ≡ true → Offers P x)
      → (b ≡ false → Offers P y)
      → Offers P (if b then x else y)
  Offers-if true x y hx hy = hx refl
  Offers-if false x y hx hy = hy refl

  -- A plan offers what has the property when the choices of the matching repositories have it and,
  -- where there are none, the other choices.
  matched_start-Offers :
      (checkout : LocalCheckout) (warnings : List Warning) (matching : List Repository)
      (fallback : List WorktreeChoice)
      → All P (default_choices matching)
      → (matching ≡ [] → All P fallback)
      → Offers P (matched_start checkout warnings matching fallback)
  unfolding matched_start complete_start incomplete_start sort_worktrees
  matched_start-Offers checkout [] [] fallback near far =
      Offers-if (checkout.clone_source == "") (choose_start fallback) _
        (λ e. choose_start-Offers fallback (far refl)) (λ e. (far refl, tt))
  matched_start-Offers checkout [] (r ∷ rs) fallback near far = choose_start-Offers _ near
  matched_start-Offers checkout (w ∷ ws) [] fallback near far =
      choose_incomplete-Offers _ (sort-All by_relative_path P fallback (far refl))
  matched_start-Offers checkout (w ∷ ws) (r ∷ rs) fallback near far =
      choose_incomplete-Offers _ (sort-All by_relative_path P (default_choices (r ∷ rs)) near)

linked_choices-All :
    (r : Repository) (rest : List Worktree)
    → r.primary ≡ none
    → ((w : Worktree) → Mem w rest → Mem w r.linked)
    → All (IsChoice r) (linked_choices r rest)
unfolding linked_choices
linked_choices-All r [] absent within = tt
linked_choices-All r (w ∷ rest) absent within = (
  (w, refl, inr (absent, within w (inl refl))),
  linked_choices-All r rest absent (λ v m. within v (inr m)),
)

choices_of-All :
    (r : Repository) (o : Option Worktree) → r.primary ≡ o → All (IsChoice r) (choices_of r o)
choices_of-All r none absent = linked_choices-All r r.linked absent (λ w m. m)
choices_of-All r (some w) present = ((w, refl, inl present), tt)

default_choices-All : (values : List Repository) → All (IsOffered values) (default_choices values)
unfolding default_choices
default_choices-All [] = tt
default_choices-All (r ∷ rest) =
    All-append (IsOffered (r ∷ rest)) (choices_of r r.primary) (default_choices rest)
      (All-imp (IsChoice r) (IsOffered (r ∷ rest)) (choices_of r r.primary)
        (λ c h. (r, inl refl, h)) (choices_of-All r r.primary refl))
      (All-imp (IsOffered rest) (IsOffered (r ∷ rest)) (default_choices rest)
        (λ c (r, m, h). (r, inr m, h)) (default_choices-All rest))

IsOffered-matching :
    (origin_key : String → String) (key : String) (values : List Repository) (c : WorktreeChoice)
    → IsOffered (matching_repositories origin_key key values) c
    → IsOffered values c × (origin_key c.origin ≡ key)
unfolding matching_repositories
IsOffered-matching origin_key key values c (r, m, h) =
    let (within, passes) = Mem-keep _ r values m in
    ((r, within, h), ap (λ x. origin_key x.origin) h.1 ∙ eq_of_== passes)

module _ (origin_key : String → String) where
  -- Whatever is observed, a planned start offers only primary Worktrees of observed repositories and
  -- linked ones of repositories without a primary, and it prefers a Worktree only as its one choice.
  pub plan_start-AreObserved :
      (local : Option LocalCheckout) (catalog : Catalog)
      → Offers (IsOffered catalog.repositories) (plan_start origin_key local catalog)
  unfolding plan_start
  plan_start-AreObserved none catalog =
      choose_start-Offers _ _ (default_choices-All catalog.repositories)
  plan_start-AreObserved (some checkout) catalog =
      let all = default_choices-All catalog.repositories in
      let matching = matching_repositories origin_key checkout.origin_key catalog.repositories in
      Offers-if (IsOffered catalog.repositories) (checkout.origin_key == "") _ _
        (λ e. choose_start-Offers _ _ all)
        (λ e.
          matched_start-Offers _ checkout catalog.warnings matching _
            (All-imp (IsOffered matching) (IsOffered catalog.repositories)
              (default_choices matching)
              (λ c h.
                (IsOffered-matching origin_key checkout.origin_key catalog.repositories c h).0)
              (default_choices-All matching))
            (λ none_left. all))

  -- In a local repository of which an observed one has the same origin, a planned start offers only
  -- Worktrees of repositories with this origin.
  pub plan_start-matches :
      (checkout : LocalCheckout) (catalog : Catalog) (r : Repository)
      → checkout.origin_key ≢ ""
      → Mem r catalog.repositories
      → origin_key r.origin ≡ checkout.origin_key
      → Offers
          (λ c. origin_key c.origin ≡ checkout.origin_key)
          (plan_start origin_key (some checkout) catalog)
  unfolding plan_start matching_repositories
  plan_start-matches checkout catalog r known within same =
      let matching = matching_repositories origin_key checkout.origin_key catalog.repositories in
      let found =
        keep-Mem _ r catalog.repositories within (rw same (==-refl checkout.origin_key)) in
      let near =
        All-imp (IsOffered matching) _ (default_choices matching)
          (λ c h. (IsOffered-matching origin_key checkout.origin_key catalog.repositories c h).1)
          (default_choices-All matching) in
      Offers-if _ (checkout.origin_key == "") _ _ (λ e. absurd (known (eq_of_== e)))
        (λ e.
          matched_start-Offers _ checkout catalog.warnings matching _ near
            (λ none_left. absurd (subst (λ rs. Mem r rs) none_left found)))

abbrev pub UsesOne : StartPlan → Bool → List WorktreeChoice → Type 0
UsesOne plan decided choices = (plan.mode ≡ start_use) ↔ ((decided ≡ true) × (length choices ≡ 1))

choose_sorted_use : (sorted : List WorktreeChoice) → UsesOne (choose_sorted sorted) true sorted
choose_sorted_use [] = ground arith
choose_sorted_use (c ∷ []) = ground arith
choose_sorted_use (c ∷ d ∷ rest) = ground arith

choose_start_use : (choices : List WorktreeChoice) → UsesOne (choose_start choices) true choices
unfolding choose_start sort_worktrees
choose_start_use choices =
    let same : length (sort_worktrees choices) ≡ length choices =
      length-sort by_relative_path choices in
    subst (λ n. ((choose_start choices).mode ≡ start_use) ↔ ((true ≡ true) × (n ≡ 1))) same
      (choose_sorted_use (sort_worktrees choices))

choose_incomplete_use :
    (sorted choices : List WorktreeChoice) → UsesOne (choose_incomplete sorted) false choices
choose_incomplete_use [] choices = ground arith
choose_incomplete_use (c ∷ rest) choices = ground arith

UsesOne-if :
    (b : Bool) (x y : StartPlan) (choices : List WorktreeChoice)
    → UsesOne x true choices
    → UsesOne y false choices
    → UsesOne (if b then x else y) b choices
UsesOne-if true x y choices hx hy = hx
UsesOne-if false x y choices hx hy = hy

UsesOne-either :
    (b : Bool) (x y : StartPlan) (decided : Bool) (values others : List Repository)
    → UsesOne x true (default_choices values)
    → UsesOne y decided (default_choices others)
    → UsesOne
        (if b then x else y)
        (if b then true else decided)
        (default_choices (if b then values else others))
UsesOne-either true x y decided values others hx hy = hx
UsesOne-either false x y decided values others hx hy = hy

-- The repositories of which a plan offers Worktrees.
abbrev matching_or_all : List Repository → List Repository → List Repository
matching_or_all [] all = all
matching_or_all (r ∷ rs) all = r ∷ rs

abbrev is_empty : {A : Type 0} → List A → Bool
is_empty [] = true
is_empty (x ∷ xs) = false

matched_start_use :
    (checkout : LocalCheckout) (warnings : List Warning) (matching all : List Repository)
    → UsesOne
        (matched_start checkout warnings matching (default_choices all))
        (is_empty warnings && (not (is_empty matching) || checkout.clone_source == ""))
        (default_choices (matching_or_all matching all))
unfolding matched_start complete_start incomplete_start
matched_start_use checkout [] [] all =
    UsesOne-if (checkout.clone_source == "") _ _ _ (choose_start_use (default_choices all))
      (ground arith)
matched_start_use checkout [] (r ∷ rs) all = choose_start_use (default_choices (r ∷ rs))
matched_start_use checkout (w ∷ ws) [] all = choose_incomplete_use _ _
matched_start_use checkout (w ∷ ws) (r ∷ rs) all = choose_incomplete_use _ _

module _ (origin_key : String → String) where
  abbrev pub considered : Option LocalCheckout → Catalog → List Repository
  considered none catalog = catalog.repositories
  considered (some checkout) catalog =
      if checkout.origin_key == ""
      then catalog.repositories
      else matching_or_all
          (matching_repositories origin_key checkout.origin_key catalog.repositories)
          catalog.repositories

  -- Whether nothing asks the user to confirm or to clone: no repository is known, or the observation
  -- is complete and has the local repository or there is nothing to clone.
  abbrev pub is_decided : Option LocalCheckout → Catalog → Bool
  is_decided none catalog = true
  is_decided (some checkout) catalog =
      let matching = matching_repositories origin_key checkout.origin_key catalog.repositories in
      if checkout.origin_key == ""
      then true
      else is_empty catalog.warnings && (not (is_empty matching) || checkout.clone_source == "")

  -- A planned start uses a Worktree without asking exactly when the considered repositories (those
  -- of the local origin, or all where there are none) have one choice in total, and either there is
  -- no local origin or the observation has no warnings and there is a match or nothing to clone.
  pub plan_start_use :
      (local : Option LocalCheckout) (catalog : Catalog)
      → UsesOne
          (plan_start origin_key local catalog)
          (is_decided local catalog)
          (default_choices (considered local catalog))
  unfolding plan_start
  plan_start_use none catalog = choose_start_use (default_choices catalog.repositories)
  plan_start_use (some checkout) catalog =
      UsesOne-either (checkout.origin_key == "") _ _ _ _ _
        (choose_start_use (default_choices catalog.repositories))
        (matched_start_use checkout catalog.warnings _ catalog.repositories)
