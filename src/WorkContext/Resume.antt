-- ===== src/WorkContext/Resume.antt =====
-- What the planned resume of internal/workcontext/context.go continues.
use Prim.Native.Nat.{ℕ}
use Prim.Native.String.{String}
use mathlib.Core.Path.{subst}
use schooner.Prelude.{
  Bool, true, false, List, [], ◌∷◌, Option, none, some, ◌==◌, ◌≡◌, ◌≢◌, refl, ap, inl, inr,
  if◌then◌else◌, All, All-of_Mem, All-Mem, Mem, Bool-cases, arith, string_eq, eq_of_==, sym,
  ne_of_test, ◌<◌, ◌≤◌, ◌⊎◌, Mem-keep, keep,
}
use schooner.Prelude.Table.Found.{Mem-exists}
use schooner.Prelude.Order.{IsOrder, pair-IsOrder}
use schooner.Prelude.Text.{Bytes, codes, compare_bytes-IsOrder}
use schooner.Prelude.Sort.{sort-All, All-sort, IsPreorder, order-IsPreorder, after, sort-first}
use schooner.Repository.{Repository, Warning, Catalog, LocalCheckout}
use schooner.Session.{
  managed, unmanaged, ownership_invalid, live, missing, ambiguous, unassociated, Ownership,
  AssociationState, Session, SessionCatalog,
}
use schooner.Prelude.Table.{All-imp}
use schooner.WorkContext.{
  ResumePlan, compare_time_descending, by_recency, sort_sessions, is_automatic, automatic_sessions,
  resumable_sessions, choose_resumable, choose_resume, spans_from, sessions_span_repositories,
  is_managed, is_live, is_matched, matched_resume, newest, resume_choose, resume_plan, resume_at,
  plan_resume, matching_repositories,
}

descending-IsOrder : IsOrder compare_time_descending
descending-IsOrder = record {
  eq_sound = λ a b h. ground arith;
  eq_self = λ a. ground arith;
  flipped = λ a b. ground arith;
  lt_trans = λ a b c h k. ground arith;
}

abbrev recency : Session → ℕ × (ℕ × Bytes)
recency s = (s.activity_at, (s.created_at, codes s.tmux_id))

by_recency-IsPreorder : IsPreorder by_recency
by_recency-IsPreorder =
    order-IsPreorder recency
      (pair-IsOrder descending-IsOrder (pair-IsOrder descending-IsOrder compare_bytes-IsOrder))

-- The other session had its activity earlier or, at the same time, was created no later.
abbrev pub IsNoNewer : Session → Session → Type 0
IsNoNewer value other =
    (other.activity_at < value.activity_at)
    ⊎ ((other.activity_at ≡ value.activity_at) × (other.created_at ≤ value.created_at))

-- The session is one of the list, and none of the list is more recent.
abbrev pub IsNewest : List Session → Session → Type 0
IsNewest sessions value = Mem value sessions × All (IsNoNewer value) sessions

by_recency-IsNoNewer :
    (value other : Session) → after (by_recency value other) ≡ false → IsNoNewer value other
by_recency-IsNoNewer value other h = ground arith

sort_sessions-first :
    (sessions : List Session) {value : Session} {rest : List Session}
    → sort_sessions sessions ≡ value ∷ rest
    → IsNewest sessions value
unfolding sort_sessions
sort_sessions-first sessions {value} e =
    let (within, first) = sort-first by_recency by_recency-IsPreorder sessions e in
    (within, All-imp _ (IsNoNewer value) sessions (by_recency-IsNoNewer value) first)

-- The sessions that a resume may continue without asking: the managed live ones and, in a local
-- repository, of those the ones of an observed repository of the same origin.
abbrev pub eligible :
    (String → String) → Option LocalCheckout → Catalog → List Session → List Session
eligible origin_key none catalog sessions = automatic_sessions sessions
eligible origin_key (some checkout) catalog sessions =
    keep (is_matched (matching_repositories origin_key checkout.origin_key catalog.repositories))
      (automatic_sessions sessions)

choose_resumable-preferred : (sorted : List Session) → (choose_resumable sorted).preferred ≡ none
choose_resumable-preferred [] = refl
choose_resumable-preferred (value ∷ rest) = refl

newest-preferred :
    (sessions sorted : List Session) (value : Session)
    → (newest sessions sorted).preferred ≡ some value
    → (rest : List Session) × (sorted ≡ value ∷ rest)
unfolding newest choose_resume
newest-preferred sessions [] value h =
    let absent = choose_resumable-preferred (sort_sessions (resumable_sessions sessions)) in
    absurd (ground (arith, absent))
newest-preferred sessions (s ∷ rest) value h =
    let same : s ≡ value = ground arith in (rest, ap (λ x. x ∷ rest) same)

-- A plan for matched sessions prefers the first of them, and only where they are of one repository.
matched_resume-preferred :
    (warnings : List Warning) (sorted : List Session) (value : Session)
    → (matched_resume warnings sorted).preferred ≡ some value
    → (rest : List Session) × (sorted ≡ value ∷ rest)
      × (sessions_span_repositories sorted ≡ false)
      × (warnings ≡ [])
unfolding matched_resume
matched_resume-preferred [] [] value h = absurd (ground arith)
matched_resume-preferred (w ∷ ws) [] value h = absurd (ground arith)
matched_resume-preferred (w ∷ ws) (s ∷ rest) value h = absurd (ground arith)
matched_resume-preferred [] (s ∷ rest) value h =
    elim (Bool-cases (sessions_span_repositories (s ∷ rest))) [
      | inl e ↦ absurd (ground arith)
      | inr e ↦ let same : s ≡ value = ground arith in (rest, ap (λ x. x ∷ rest) same, e, refl)
    ]

-- The session is managed and live, and of an observed repository of the origin.
abbrev pub IsOfOrigin : (String → String) → String → Catalog → Session → Type 0
IsOfOrigin origin_key key catalog s =
    (s.ownership ≡ managed)
    × (s.association ≡ live)
    × (s.id ≢ "")
    × ((r : Repository) × Mem r catalog.repositories
        × (origin_key r.origin ≡ key)
        × (r.common_directory ≡ s.repository_common_directory))

-- Every session that the plan offers or prefers has the property.
abbrev pub Continues : (Session → Type 0) → ResumePlan → Type 0
Continues P plan = All P plan.choices × elim plan.preferred [ none ↦ Unit {0} | some s ↦ P s ]

Continues-if :
    (P : Session → Type 0) (b : Bool) (x y : ResumePlan)
    → Continues P x
    → Continues P y
    → Continues P (if b then x else y)
Continues-if P true x y hx hy = hx
Continues-if P false x y hx hy = hy

matched_resume-Continues :
    (P : Session → Type 0) (warnings : List Warning) (sorted : List Session)
    → All P sorted
    → Continues P (matched_resume warnings sorted)
unfolding matched_resume
matched_resume-Continues P [] [] h = (tt, tt)
matched_resume-Continues P (w ∷ ws) [] h = (tt, tt)
matched_resume-Continues P (w ∷ ws) (s ∷ rest) h = (h, tt)
matched_resume-Continues P [] (s ∷ rest) h =
    Continues-if P (sessions_span_repositories (s ∷ rest)) (resume_plan resume_choose (s ∷ rest))
      (resume_at s) (h, tt) (tt, h.0)

is_automatic-live :
    (s : Session)
    → is_automatic s ≡ true
    → (s.ownership ≡ managed) × (s.association ≡ live) × (s.id ≢ "")
unfolding is_automatic
is_automatic-live s h = (
  managed_lem s.ownership (ground arith),
  live_lem s.association (ground arith),
  ne_of_test s.id "" (ground arith),
)
  where
    managed_lem : (o : Ownership) → is_managed o ≡ true → o ≡ managed
    managed_lem managed e = refl
    managed_lem unmanaged e = absurd (ground arith)
    managed_lem ownership_invalid e = absurd (ground arith)

    live_lem : (a : AssociationState) → is_live a ≡ true → a ≡ live
    live_lem live e = refl
    live_lem missing e = absurd (ground arith)
    live_lem ambiguous e = absurd (ground arith)
    live_lem unassociated e = absurd (ground arith)

eligible-IsOfOrigin :
    (origin_key : String → String) (checkout : LocalCheckout) (catalog : Catalog)
    (sessions : List Session)
    → All
        (IsOfOrigin origin_key checkout.origin_key catalog)
        (eligible origin_key (some checkout) catalog sessions)
unfolding automatic_sessions is_matched matching_repositories
eligible-IsOfOrigin origin_key checkout catalog sessions = All-of_Mem _ _ (λ s m.
    let (automatic, matched) = Mem-keep _ s (automatic_sessions sessions) m in
    let (r, found, same) = Mem-exists _ _ matched in
    let (within, origin) = Mem-keep _ r catalog.repositories found in
    let (owned, alive, known) =
      is_automatic-live s (Mem-keep is_automatic s sessions automatic).1 in
    (owned, alive, known, (r, within, eq_of_== origin, eq_of_== same)))

spans_from-false :
    (first : String) (rest : List Session)
    → first ≢ ""
    → spans_from first rest ≡ false
    → All (λ s. s.repository_common_directory ≡ first) rest
unfolding spans_from
spans_from-false first [] known h = tt
spans_from-false first (s ∷ rest) known h = elim (Bool-cases (first == "")) [
  | inl e ↦ absurd (known (eq_of_== e))
  | inr e ↦ elim (Bool-cases (s.repository_common_directory == first)) [
    | inl same ↦ (eq_of_== same, spans_from-false first rest known (ground arith))
    | inr other ↦ absurd (ground arith)
  ]
]

span-alone :
    (s : Session) (rest : List Session)
    → s.repository_common_directory ≢ ""
    → sessions_span_repositories (s ∷ rest) ≡ false
    → All (λ t. t.repository_common_directory ≡ s.repository_common_directory) (s ∷ rest)
unfolding sessions_span_repositories spans_from
span-alone s rest known h = (refl, spans_from-false _ rest known (ground arith))

module _ (origin_key : String → String) where
  -- A session that a resume prefers is one that it may continue, and no such session has a more
  -- recent activity or, at the same time of activity, a more recent creation.
  pub plan_resume-IsNewest :
      (local : Option LocalCheckout) (catalog : Catalog) (observed : SessionCatalog)
      (value : Session)
      → (plan_resume origin_key local catalog observed).preferred ≡ some value
      → IsNewest (eligible origin_key local catalog observed.sessions) value
  unfolding plan_resume
  plan_resume-IsNewest none catalog observed value h =
      sort_sessions-first _ (newest-preferred _ _ value h).1
  plan_resume-IsNewest (some checkout) catalog observed value h =
      elim (Bool-cases (checkout.origin_key == "")) [
        | inl e ↦ absurd (ground arith)
        | inr e ↦
            let matched = eligible origin_key (some checkout) catalog observed.sessions in
            let chosen : (matched_resume catalog.warnings (sort_sessions matched)).preferred
                ≡ some value =
              ground arith in
            sort_sessions-first _ (matched_resume-preferred catalog.warnings _ value chosen).1
      ]

  -- In a local repository, a planned resume offers and prefers only managed live sessions of
  -- observed repositories of the same origin.
  pub plan_resume-IsOfOrigin :
      (checkout : LocalCheckout) (catalog : Catalog) (observed : SessionCatalog)
      → Continues
          (IsOfOrigin origin_key checkout.origin_key catalog)
          (plan_resume origin_key (some checkout) catalog observed)
  unfolding plan_resume sort_sessions
  plan_resume-IsOfOrigin checkout catalog observed =
      Continues-if _ (checkout.origin_key == "") _ _ (tt, tt)
        (matched_resume-Continues _ catalog.warnings _ (
          sort-All by_recency _ _
            (eligible-IsOfOrigin origin_key checkout catalog observed.sessions)))

  -- In a local repository, and where no observed repository lacks its common directory, a planned
  -- resume prefers a session only if the observation has no warnings and every session that it may
  -- continue is of the repository of the preferred one.
  pub plan_resume_alone :
      (checkout : LocalCheckout) (catalog : Catalog) (observed : SessionCatalog) (value : Session)
      → All (λ r. r.common_directory ≢ "") catalog.repositories
      → (plan_resume origin_key (some checkout) catalog observed).preferred ≡ some value
      → (catalog.warnings ≡ [])
        × All
            (λ s. s.repository_common_directory ≡ value.repository_common_directory)
            (eligible origin_key (some checkout) catalog observed.sessions)
  unfolding plan_resume sort_sessions
  plan_resume_alone checkout catalog observed value named h =
      elim (Bool-cases (checkout.origin_key == "")) [
        | inl e ↦ absurd (ground arith)
        | inr e ↦
            let matched = eligible origin_key (some checkout) catalog observed.sessions in
            let chosen : (matched_resume catalog.warnings (sort_sessions matched)).preferred
                ≡ some value =
              ground arith in
            let (rest, first, alone, complete) =
              matched_resume-preferred catalog.warnings _ value chosen in
            let all = eligible-IsOfOrigin origin_key checkout catalog observed.sessions in
            let (r, within, origin, same) =
              (All-Mem _ value matched all (sort_sessions-first matched first).0).3 in
            let known = subst (λ d. d ≢ "") same (All-Mem _ r catalog.repositories named within) in
            let one : All _ (value ∷ rest) = span-alone value rest known (rw first at alone) in
            (complete, All-sort by_recency _ matched (subst (All _) (sym first) one))
      ]
