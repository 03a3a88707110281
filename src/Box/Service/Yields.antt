-- ===== src/Box/Service/Yields.antt =====
-- What a sequence of steps of internal/box/service.go leaves when it succeeds.
use Prim.Native.String.{String}
use schooner.Prelude.{Bool, true, false, ◌≡◌, refl}
use schooner.Prelude.Results.{
  Result, ok, err, Outcome, done, fail, M, ◌>>=◌, Holds, Holds-bind, Holds-imp, Holds-const, check,
}
use schooner.Box.Types.{Step, EventState, started, completed, failed, Error}
use schooner.Box.Service.{World, Flow, on_store, on_env, report, run_step}

-- A condition on the result and on the store and the environment that are left.
abbrev pub Yields : {S R A : Type 0} → Flow S R A → (A → S → R → Type 0) → Type 0
Yields {S} {R} m X = (w : World S R) → Holds (m w) (λ a v. X a v.store v.env) (λ _ _. Unit {0})

module _ {S R A B : Type 0} (Y : B → S → R → Type 0) (m : Flow S R A) (f : A → Flow S R B) where
  -- Behind any first step.
  pub Yields-then : ((a : A) → Yields (f a) Y) → Yields (m >>= f) Y
  Yields-then k w =
      Holds-bind (λ _ _. Unit {0}) (λ b v. Y b v.store v.env) (λ _ _. Unit {0}) m f w
        (Holds-const (m w) tt) (λ a u h. k a u)

  pub Yields-bind :
      (X : A → S → R → Type 0)
      → Yields m X
      → ((a : A) (u : World S R)
          → X a u.store u.env
          → Holds (f a u) (λ b v. Y b v.store v.env) (λ _ _. Unit {0}))
      → Yields (m >>= f) Y
  Yields-bind X h k w =
      Holds-bind (λ a v. X a v.store v.env) (λ b v. Y b v.store v.env) (λ _ _. Unit {0}) m f w (h w)
        k

module _ {S R A : Type 0} where
  pub Holds-run_step :
      (X : A → S → R → Type 0) (progress : Bool) (step : Step) (message : String) (m : Flow S R A)
      (w : World S R)
      → Holds
          (m (report progress step started message w))
          (λ a v. X a v.store v.env)
          (λ _ _. Unit {0})
      → Holds (run_step progress step message m w) (λ a v. X a v.store v.env) (λ _ _. Unit {0})
  unfolding run_step
  Holds-run_step X progress step message m w h =
      finish progress (m (report progress step started message w)) h
    where
      finish :
          (p : Bool) (r : Outcome (World S R) Error A)
          → Holds r (λ a v. X a v.store v.env) (λ _ _. Unit {0})
          → Holds
              (elim r as (λ x. Outcome (World S R) Error A) [
                | done a v ↦ done a (report p step completed message v)
                | fail e v ↦ fail e (report p step failed message v)
              ])
              (λ a v. X a v.store v.env)
              (λ _ _. Unit {0})
      finish true (done a v) x = x
      finish false (done a v) x = x
      finish p (fail e v) x = tt

  pub Yields-run_step :
      (X : A → S → R → Type 0) (progress : Bool) (step : Step) (message : String) (m : Flow S R A)
      → Yields m X
      → Yields (run_step progress step message m) X
  Yields-run_step X progress step message m h w =
      Holds-run_step X progress step message m w (h (report progress step started message w))

  pub Holds-on_env :
      (X : A → R → Type 0) (m : M R Error A) (w : World S R)
      → Holds (m w.env) X (λ _ _. Unit {0})
      → Holds (on_env {S = S} m w) (λ a v. X a v.env) (λ _ _. Unit {0})
  Holds-on_env X m w h = finish (m w.env) h
    where
      finish :
          (r : Outcome R Error A)
          → Holds r X (λ _ _. Unit {0})
          → Holds
              (elim r as (λ x. Outcome (World S R) Error A) [
                | done a v ↦ done a (record w { env = v })
                | fail e v ↦ fail e (record w { env = v })
              ])
              (λ a v. X a v.env)
              (λ _ _. Unit {0})
      finish (done a v) x = x
      finish (fail e v) x = tt

  pub Holds-on_store :
      (X : A → S → R → Type 0) (m : M S Error A) (w : World S R)
      → Holds (m w.store) (λ a s. X a s w.env) (λ _ _. Unit {0})
      → Holds (on_store {R = R} m w) (λ a v. X a v.store v.env) (λ _ _. Unit {0})
  Holds-on_store X m w h = finish (m w.store) h
    where
      finish :
          (r : Outcome S Error A)
          → Holds r (λ a s. X a s w.env) (λ _ _. Unit {0})
          → Holds
              (elim r as (λ x. Outcome (World S R) Error A) [
                | done a s ↦ done a (record w { store = s })
                | fail e s ↦ fail e (record w { store = s })
              ])
              (λ a v. X a v.store v.env)
              (λ _ _. Unit {0})
      finish (done a s) x = x
      finish (fail e s) x = tt

-- A check that succeeds changes nothing.
pub Holds-check :
    {W A : Type 0} (X : W → Type 0) (r : Result Error A) (w : W)
    → X w
    → Holds (check r w) (λ a v. (r ≡ ok a) × X v) (λ _ _. Unit {0})
Holds-check X (ok a) w x = (refl, x)
Holds-check X (err e) w x = tt

report-keeps :
    {S R : Type 0} (Z : R → Type 0) (progress : Bool) (step : Step) (state : EventState)
    (message : String) (w : World S R)
    → Z w.env
    → Z (report progress step state message w).env
report-keeps Z true step state message w z = z
report-keeps Z false step state message w z = z

-- A step that writes to the store leaves the environment.
pub Holds-write :
    {S R A : Type 0} (X : A → S → Type 0) (Z : R → Type 0) (progress : Bool) (step : Step)
    (message : String) (m : M S Error A) (w : World S R)
    → ((s : S) → Holds (m s) X (λ _ _. Unit {0}))
    → Z w.env
    → Holds
        (run_step progress step message (on_store m) w)
        (λ a v. X a v.store × Z v.env)
        (λ _ _. Unit {0})
Holds-write {S} {R} X Z progress step message m w h z =
    let u = report progress step started message w in
    Holds-run_step (λ a s r. X a s × Z r) progress step message (on_store m) w
      (Holds-on_store (λ a s r. X a s × Z r) m u
        (Holds-imp X (λ a s. X a s × Z u.env) (λ _ _. Unit {0}) (λ _ _. Unit {0}) (m u.store)
          (λ a s x. (x, report-keeps Z progress step started message w z)) (λ e s t. tt)
          (h u.store)))

-- So does a write outside a step.
pub store-keeps :
    {S R A : Type 0} (Z : R → Type 0) (m : M S Error A) (w : World S R)
    → Z w.env
    → Holds (on_store {R = R} m w) (λ _ v. Z v.env) (λ _ _. Unit {0})
store-keeps {S} {R} {A} Z m w z =
    Holds-on_store (λ _ s v. Z v) m w
      (Holds-imp (λ _ _. Z w.env) (λ _ _. Z w.env) (λ _ _. Z w.env) (λ _ _. Unit {0}) (m w.store)
        (λ a s x. x) (λ e s x. tt) (Holds-const (m w.store) z))
