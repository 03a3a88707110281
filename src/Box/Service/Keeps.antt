-- ===== src/Box/Service/Keeps.antt =====
-- What a workflow keeps: a property of store and environment that each of its calls keeps.
use Prim.Native.String.{String}
use schooner.Prelude.{Bool, true, false, if◌then◌else◌}
use schooner.Prelude.Results.{
  Result, ok, err, Outcome, done, fail, M, ◌>>=◌, pure, Holds, Holds-bind,
}
use schooner.Box.Types.{Step, EventState, started, completed, failed, Error}
use schooner.Box.Service.{World, Flow, on_store, on_env, valid, report, run_step}

-- On either path a call takes states with the property to states with the property.
abbrev pub Preserves : {W A : Type 0} → (W → Type 0) → M W Error A → Type 0
Preserves {W} P m = (w : W) → P w → Holds (m w) (λ _ v. P v) (λ _ v. P v)

module _ {S R : Type 0} (P : S → R → Type 0) where
  abbrev pub Good : World S R → Type 0
  Good w = P w.store w.env

  abbrev pub Keeps : {A : Type 0} → Flow S R A → Type 0
  Keeps m = Preserves Good m

  pub Keeps-pure : {A : Type 0} (a : A) → Keeps (pure {W = World S R} {E = Error} a)
  Keeps-pure a w h = h

  pub Keeps-bind :
      {A B : Type 0} (m : Flow S R A) (f : A → Flow S R B)
      → Keeps m
      → ((a : A) → Keeps (f a))
      → Keeps (m >>= f)
  Keeps-bind m f hm hf w h =
      Holds-bind (λ _ v. Good v) (λ _ v. Good v) (λ _ v. Good v) m f w (hm w h) (λ a u g. hf a u g)

  pub Keeps-report :
      (progress : Bool) (step : Step) (state : EventState) (message : String) (w : World S R)
      → Good w
      → Good (report progress step state message w)
  Keeps-report true step state message w h = h
  Keeps-report false step state message w h = h

  pub Keeps-run_step :
      {A : Type 0} (progress : Bool) (step : Step) (message : String) (m : Flow S R A)
      → Keeps m
      → Keeps (run_step progress step message m)
  unfolding run_step
  Keeps-run_step {A} progress step message m hm w h =
      finish (m (report progress step started message w)) (
        hm (report progress step started message w)
          (Keeps-report progress step started message w h))
    where
      finish :
          (r : Outcome (World S R) Error A)
          → Holds r (λ _ v. Good v) (λ _ v. Good v)
          → Holds
              (elim r [
                | done a v ↦ done a (report progress step completed message v)
                | fail e v ↦ fail e (report progress step failed message v)
              ])
              (λ _ v. Good v)
              (λ _ v. Good v)
      finish (done a v) g = Keeps-report progress step completed message v g
      finish (fail e v) g = Keeps-report progress step failed message v g

  pub Keeps-on_env :
      {A : Type 0} (m : M R Error A) → ((s : S) → Preserves (P s) m) → Keeps {A = A} (on_env m)
  Keeps-on_env {A} m hm w h = finish (m w.env) (hm w.store w.env h)
    where
      finish :
          (r : Outcome R Error A)
          → Holds r (λ _ v. P w.store v) (λ _ v. P w.store v)
          → Holds
              (elim r as (λ x. Outcome (World S R) Error A) [
                | done a v ↦ done a (record w { env = v })
                | fail e v ↦ fail e (record w { env = v })
              ])
              (λ _ v. Good v)
              (λ _ v. Good v)
      finish (done a v) g = g
      finish (fail e v) g = g

  pub Keeps-on_store :
      {A : Type 0} (m : M S Error A)
      → ((r : R) → Preserves (λ s. P s r) m)
      → Keeps {A = A} (on_store m)
  Keeps-on_store {A} m hm w h = finish (m w.store) (hm w.env w.store h)
    where
      finish :
          (r : Outcome S Error A)
          → Holds r (λ _ v. P v w.env) (λ _ v. P v w.env)
          → Holds
              (elim r as (λ x. Outcome (World S R) Error A) [
                | done a v ↦ done a (record w { store = v })
                | fail e v ↦ fail e (record w { store = v })
              ])
              (λ _ v. Good v)
              (λ _ v. Good v)
      finish (done a v) g = g
      finish (fail e v) g = g

  -- A call that leaves the world alone.
  pub Keeps-query :
      {A : Type 0} (f : World S R → Result Error A)
      → Keeps {A = A} (λ w. elim (f w) [ ok a ↦ done a w | err e ↦ fail e w ])
  Keeps-query {A} f w h = finish (f w)
    where
      finish :
          (r : Result Error A)
          → Holds
              (elim r as (λ x. Outcome (World S R) Error A) [ ok a ↦ done a w | err e ↦ fail e w ])
              (λ _ v. Good v)
              (λ _ v. Good v)
      finish (ok a) = h
      finish (err e) = h

  pub Keeps-valid : {A : Type 0} (r : Result String A) → Keeps {A = A} (valid r)
  Keeps-valid (ok a) w h = h
  Keeps-valid (err e) w h = h

  pub Keeps-if :
      {A : Type 0} (b : Bool) (m n : Flow S R A) → Keeps m → Keeps n → Keeps (if b then m else n)
  Keeps-if true m n hm hn = hm
  Keeps-if false m n hm hn = hn
