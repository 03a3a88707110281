-- ===== src/Acquisition/Service/Stops.antt =====
-- Steps that never succeed, and the rules by which the workflows of the provider keep a property.
use schooner.Prelude.{inl, inr, Bool-cases, string_eq, if◌then◌else◌}
use schooner.Prelude.Results.{ok, err, Outcome, done, fail, M, ◌>>=◌, Holds, Holds-bind}
use schooner.Box.Types.{Error, BoxResult, is_not_found}
use schooner.Box.Service.{World, Flow, on_store, on_env}
use schooner.Box.Service.Keeps.{Good, Keeps}
use schooner.Acquisition.Service.{Cloud, clock, ignoring}

-- A step that never succeeds, and keeps a property.
module _ {S R : Type 0} (P : S → R → Type 0) where
  abbrev pub Stops : {A : Type 0} → Flow S R A → Type 0
  Stops m = (w : World S R) → Good P w → Holds (m w) (λ _ _. ⊥) (λ _ v. Good P v)

  module _ {A B : Type 0} (m : Flow S R A) (f : A → Flow S R B) where
    pub Stops-after : Keeps P m → ((a : A) → Stops (f a)) → Stops (m >>= f)
    Stops-after keeps stops w h =
        Holds-bind (λ _ v. Good P v) (λ _ _. ⊥) (λ _ v. Good P v) m f w (keeps w h)
          (λ a u g. stops a u g)

    pub Stops-bind : Stops m → Stops (m >>= f)
    Stops-bind stops w h =
        Holds-bind (λ _ _. ⊥) (λ _ _. ⊥) (λ _ v. Good P v) m f w (stops w h)
          (λ a u never. absurd never)

    pub Stops-Keeps : Stops m → Keeps P (m >>= f)
    Stops-Keeps stops w h =
        Holds-bind (λ _ _. ⊥) (λ _ v. Good P v) (λ _ v. Good P v) m f w (stops w h)
          (λ a u never. absurd never)

  pub Keeps-ignoring : {A : Type 0} (m : Flow S R A) → Keeps P m → Keeps P (ignoring m)
  Keeps-ignoring {A} m keeps w h = finish (m w) (keeps w h)
    where
      finish :
          (r : Outcome (World S R) Error A)
          → Holds r (λ _ v. Good P v) (λ _ v. Good P v)
          → Holds
              (elim r as (λ x. Outcome (World S R) Error (Unit {0})) [
                | done a v ↦ done tt v
                | fail e v ↦ done tt v
              ])
              (λ _ v. Good P v)
              (λ _ v. Good P v)
      finish (done a v) g = g
      finish (fail e v) g = g

  -- What follows a lookup in the store.
  pub Keeps-lookup :
      {A B : Type 0} (f : S → BoxResult A) (found : A → Flow S R B) (missing : Flow S R B)
      → ((a : A) → Keeps P (found a))
      → Keeps P missing
      → Keeps P (λ w. elim (f w.store) [
        | ok a ↦ found a w
        | err e ↦ if is_not_found e then missing w else fail e w
      ])
  Keeps-lookup {A} {B} f found missing hf hm w h = finish (f w.store)
    where
      finish :
          (r : BoxResult A)
          → Holds
              (elim r as (λ x. Outcome (World S R) Error B) [
                | ok a ↦ found a w
                | err e ↦ if is_not_found e then missing w else fail e w
              ])
              (λ _ v. Good P v)
              (λ _ v. Good P v)
      finish (ok a) = hf a w h
      finish (err e) = elim (Bool-cases (is_not_found e)) [ inl t ↦ rw t (hm w h) | inr t ↦ rw t h ]

  pub Keeps-clock :
      (cloud : Cloud R) → ((s : S) (r : R) → P s r → P s (cloud.now r).1) → Keeps P (clock cloud)
  Keeps-clock cloud ticks w h = ticks w.store w.env h

  -- A call of the environment that always fails.
  pub Stops-on_env :
      {A : Type 0} (m : M R Error A)
      → ((s : S) (r : R) → P s r → Holds (m r) (λ _ _. ⊥) (λ _ v. P s v))
      → Stops {A = A} (on_env m)
  Stops-on_env {A} m stops w h = finish (m w.env) (stops w.store w.env h)
    where
      finish :
          (r : Outcome R Error A)
          → Holds r (λ _ _. ⊥) (λ _ v. P w.store v)
          → Holds
              (elim r as (λ x. Outcome (World S R) Error A) [
                | done a v ↦ done a (record w { env = v })
                | fail e v ↦ fail e (record w { env = v })
              ])
              (λ _ _. ⊥)
              (λ _ v. Good P v)
      finish (done a v) never = absurd never
      finish (fail e v) g = g

  pub Stops-on_store :
      {A : Type 0} (m : M S Error A)
      → ((s : S) (r : R) → P s r → Holds (m s) (λ _ _. ⊥) (λ _ v. P v r))
      → Stops {A = A} (on_store m)
  Stops-on_store {A} m stops w h = finish (m w.store) (stops w.store w.env h)
    where
      finish :
          (r : Outcome S Error A)
          → Holds r (λ _ _. ⊥) (λ _ v. P v w.env)
          → Holds
              (elim r as (λ x. Outcome (World S R) Error A) [
                | done a v ↦ done a (record w { store = v })
                | fail e v ↦ fail e (record w { store = v })
              ])
              (λ _ _. ⊥)
              (λ _ v. Good P v)
      finish (done a v) never = absurd never
      finish (fail e v) g = g
