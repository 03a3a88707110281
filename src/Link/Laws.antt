-- ===== src/Link/Laws.antt =====
-- A link that is saved is found, and a link that is found fits.
use Prim.Native.String.{String}
use mathlib.Core.Path.{subst}
use schooner.Prelude.{
  ℕ, true, false, [], ◌∷◌, ◌++◌, Option, none, some, ◌≡◌, refl, ap, ◌∙◌, ◌⊎◌, inl, inr, ◌≤◌, All,
  arith, string_eq, nat_eq, ==-refl, eq_of_==, Bool-cases,
}
use schooner.Prelude.Results.{ok, done, Result-cases}
use schooner.Prelude.Table.{find, exists, update, find_passes, find_absent, find-append, All-find}
use schooner.Prelude.Table.Found.{find-update, found_exists}
use schooner.Link.{
  LocalLink, LinkStore, Links, canonical_absolute, validate, checked, find_link, save_link,
  at_worktree, find_local_link, save_local_link, replaced, links,
}

-- What a link must be for a Worktree and the identity of its Repository.
pub record Fits (local_worktree repository : String) (value : LocalLink) : Type 0 where
  pub valid : validate value ≡ ok tt
  pub same_worktree : value.local_worktree ≡ local_worktree
  pub same_repository : (value.repository_identity ≡ "") ⊎ (value.repository_identity ≡ repository)

checked-Fits :
    (local_worktree repository : String) (value found : LocalLink)
    → checked local_worktree repository value ≡ ok found
    → Fits local_worktree repository found
unfolding checked
checked-Fits local_worktree repository value found h = elim (Result-cases (validate value)) [
  | inr (e, q) ↦ absurd (ground arith)
  | inl (x, q) ↦
      let same : value ≡ found = ground arith in
      let fits : Fits local_worktree repository value = record {
        valid = q;
        same_worktree = ground (arith, string_eq.test_iff value.local_worktree local_worktree);
        same_repository = ground (
          arith,
          string_eq.test_iff value.repository_identity "",
          string_eq.test_iff value.repository_identity repository,
        );
      } in
      subst (Fits local_worktree repository) same fits
]

-- Whatever the store gives, a link that Find returns is valid, is of the Worktree that was asked
-- for, and is of its Repository or of none in particular.
pub find_link-Fits :
    {S : Type 0} (store : Option (LinkStore S)) (local_worktree repository : String) (s : S)
    (found : LocalLink)
    → find_link store local_worktree repository s ≡ ok found
    → Fits local_worktree repository found
unfolding find_link
find_link-Fits none local_worktree repository s found h = absurd (ground arith)
find_link-Fits (some store) local_worktree repository s found h =
    elim (Bool-cases (canonical_absolute local_worktree)) [
      | inr e ↦ absurd (ground arith)
      | inl e ↦ elim (Result-cases (store.find_local_link local_worktree s)) [
        | inr (m, q) ↦ absurd (ground arith)
        | inl (value, q) ↦ checked-Fits local_worktree repository value found (ground arith)
      ]
    ]

replaced-valid :
    (value old : LocalLink)
    → validate value ≡ ok tt
    → validate old ≡ ok tt
    → old.created_at ≤ value.updated_at
    → validate (replaced value old) ≡ ok tt
unfolding validate
replaced-valid value old new was later = ground arith

checked-fitting :
    (local_worktree repository : String) (value : LocalLink)
    → Fits local_worktree repository value
    → checked local_worktree repository value ≡ ok value
unfolding checked
checked-fitting local_worktree repository value fits = ground (
  arith,
  fits.valid,
  fits.same_worktree,
  fits.same_repository,
  ==-refl local_worktree,
  string_eq.test_iff value.local_worktree local_worktree,
  string_eq.test_iff value.repository_identity "",
  string_eq.test_iff value.repository_identity repository,
)

canonical :
    (value : LocalLink) → validate value ≡ ok tt → canonical_absolute value.local_worktree ≡ true
unfolding validate
canonical value h = ground arith

abbrev pub OfRepository : String → LocalLink → Type 0
OfRepository repository value =
    (value.repository_identity ≡ "") ⊎ (value.repository_identity ≡ repository)

find_saved :
    (value stored : LocalLink) (repository : String) (s : Links)
    → s.available ≡ true
    → find (at_worktree value.local_worktree) s.rows ≡ some stored
    → canonical_absolute value.local_worktree ≡ true
    → Fits value.local_worktree repository stored
    → find_link (some links) value.local_worktree repository s ≡ ok stored
unfolding find_link find_local_link
find_saved value stored repository s there found absolute fits =
    rw (find_link, absolute, find_local_link, there, found)
      (checked-fitting value.local_worktree repository stored fits)

-- When the link of the Worktree of `value` was first made.
abbrev pub first_made : LocalLink → Links → ℕ
first_made value s = elim (find (at_worktree value.local_worktree) s.rows) [
  | none ↦ value.created_at
  | some old ↦ old.created_at
]

first_made-new :
    (value : LocalLink) (s : Links)
    → exists (at_worktree value.local_worktree) s.rows ≡ false
    → first_made value s ≡ value.created_at
first_made-new value s absent =
    rw (first_made, find_absent (at_worktree value.local_worktree) s.rows absent) refl

first_made-old :
    (value old : LocalLink) (s : Links)
    → find (at_worktree value.local_worktree) s.rows ≡ some old
    → first_made value s ≡ old.created_at
first_made-old value old s found = rw (first_made, found) refl

save_local_link-found :
    (value : LocalLink) (repository : String) (s s' : Links)
    → OfRepository repository value
    → All (λ l. validate l ≡ ok tt) s.rows
    → All (λ l. l.created_at ≤ value.updated_at) s.rows
    → save_local_link value s ≡ done tt s'
    → find_link (some links) value.local_worktree repository s'
      ≡ ok (record value { created_at = first_made value s })
unfolding save_local_link
save_local_link-found value repository s s' of_repository valid past h =
    let here = at_worktree value.local_worktree in
    elim (Result-cases (validate value)) [
      | inr (e, q) ↦ absurd (ground arith)
      | inl (x, q) ↦ elim (Bool-cases s.available) [
        | inr a ↦ absurd (ground arith)
        | inl a ↦ elim (Bool-cases (exists here s.rows)) [
          | inr absent ↦
              let left : s' ≡ record s { rows = s.rows ++ value ∷ [] } = ground arith in
              rw (left, first_made-new value s absent)
                (find_saved value value repository (record s { rows = s.rows ++ value ∷ [] }) a
                  (find-append here s.rows value absent (==-refl value.local_worktree))
                  (canonical value q)
                  (record { valid = q; same_worktree = refl; same_repository = of_repository }))
          | inl present ↦
              let (old, found) = found_exists here s.rows present in
              let left : s' ≡ record s { rows = update here (replaced value) s.rows } =
                ground arith in
              let same : old.local_worktree ≡ value.local_worktree =
                eq_of_== (find_passes here s.rows found) in
              let fresh =
                replaced-valid value old q (All-find _ here s.rows valid found)
                  (All-find (λ l. l.created_at ≤ value.updated_at) here s.rows past found) in
              rw (left, first_made-old value old s found)
                (find_saved value (replaced value old) repository
                    (record s { rows = update here (replaced value) s.rows }) a
                    (find-update here here (replaced value) s.rows (λ l. refl) found
                      (find_passes here s.rows found))
                    (canonical value q)
                    (record {
                      valid = fresh;
                      same_worktree = same;
                      same_repository = of_repository;
                    })
                  ∙ ap (λ w. ok (record value { local_worktree = w; created_at = old.created_at }))
                      same)
        ]
      ]
    ]

-- A link that is saved is found again at its Worktree, for its Repository or, where it names none,
-- for any: with the time of the link that the table had of the Worktree as the time at which it was
-- made, or else its own, and otherwise as it was saved. The rows of the
-- table are valid, and none was made after the new link's update.
pub save_link-found :
    (value : LocalLink) (repository : String) (s s' : Links)
    → OfRepository repository value
    → All (λ l. validate l ≡ ok tt) s.rows
    → All (λ l. l.created_at ≤ value.updated_at) s.rows
    → save_link (some links) value s ≡ done tt s'
    → find_link (some links) value.local_worktree repository s'
      ≡ ok (record value { created_at = first_made value s })
unfolding save_link
save_link-found value repository s s' of_repository valid past h =
    elim (Result-cases (validate value)) [
      | inr (e, q) ↦ let refused = rw (save_link, q) at h in absurd (ground arith)
      | inl (x, q) ↦
          save_local_link-found value repository s s' of_repository valid past
            (rw (save_link, q) at h)
    ]
