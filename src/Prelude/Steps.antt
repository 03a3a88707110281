-- ===== src/Prelude/Steps.antt =====
-- Sequences of calls, each of which takes states with a property to such states and tells something of
-- its value, while a failure leaves what failures are to leave.
use mathlib.Core.Path.{◌≡◌}
use mathlib.Core.Logic.{inl, inr}
use mathlib.Core.Bool.{Bool, true, false}
use schooner.Prelude.Tests.{if◌then◌else◌}
use schooner.Prelude.Results.{
  Outcome, done, fail, M, ◌>>=◌, Holds, Holds-bind, Holds-imp, or_fail, Kept, Result, ok, query,
  Result-cases,
}

module _ {W E : Type 0} (P : W → Type 0) (F : E → W → Type 0) where
  abbrev pub Advances : {A : Type 0} → (A → Type 0) → M W E A → Type 0
  Advances {A} T m = (w : W) → P w → Holds (m w) (λ a v. T a × P v) F

  -- A step, and what follows it.
  pub after_step :
      {A B : Type 0} (T : A → Type 0) (S : B → W → Type 0) (m : M W E A) (f : A → M W E B)
      → Advances T m
      → ((a : A) → T a → (w : W) → P w → Holds (f a w) S F)
      → (w : W) → P w
      → Holds ((m >>= f) w) S F
  after_step T S m f hm hf w p =
      Holds-bind (λ a v. T a × P v) S F m f w (hm w p) (λ a u (t, q). hf a t u q)

  -- A call of another's, with its failure mapped.
  pub or_fail-Holds :
      {D A : Type 0} (S : A → W → Type 0) (G : D → W → Type 0) (g : D → E) (m : M W D A) (w : W)
      → ((e : D) (v : W) → G e v → F (g e) v)
      → Holds (m w) S G
      → Holds (or_fail g m w) S F
  or_fail-Holds {D} {A} S G g m w maps h = finish (m w) h
    where
      finish :
          (r : Outcome W D A)
          → Holds r S G
          → Holds
              (elim r as (λ x. Outcome W E A) [ done x v ↦ done x v | fail e v ↦ fail (g e) v ])
              S
              F
      finish (done x v) q = q
      finish (fail e v) q = maps e v q

  pub or_fail-Advances :
      {D A : Type 0} (T : A → Type 0) (g : D → E) (m : M W D A)
      → ((e : D) (v : W) → P v → F (g e) v)
      → ((w : W) → P w → Holds (m w) (λ a v. T a × P v) (λ e v. P v))
      → Advances T (or_fail g m)
  or_fail-Advances T g m maps h w p =
      or_fail-Holds (λ a v. T a × P v) (λ e v. P v) g m w maps (h w p)

  pub or_fail-Kept :
      {D A : Type 0} (g : D → E) (m : M W D A)
      → ((e : D) (v : W) → P v → F (g e) v)
      → Kept P m
      → Advances (λ a. Unit {0}) (or_fail g m)
  or_fail-Kept g m maps h =
      or_fail-Advances (λ a. Unit {0}) g m maps
        (λ w p. Holds-imp _ _ _ _ (m w) (λ b v q. (tt, q)) (λ e v q. q) (h w p))

  -- A call that reads.
  pub query-Advances :
      {A : Type 0} (T : A → Type 0) (f : W → Result E A)
      → ((w : W) (a : A) → P w → f w ≡ ok a → T a)
      → ((e : E) (w : W) → P w → F e w)
      → Advances T (query f)
  query-Advances {A} T f tells stays w p = elim (Result-cases (f w)) [
    | inl (a, e) ↦ rw (Holds, query, e) (tells w a p e, p)
    | inr (reason, e) ↦ rw (Holds, query, e) (stays reason w p)
  ]

-- Calls that keep a property.
module _ {W E : Type 0} (P : W → Type 0) where
  pub Kept-bind :
      {A B : Type 0} (m : M W E A) (f : A → M W E B)
      → Kept P m
      → ((a : A) → Kept P (f a))
      → Kept P (m >>= f)
  Kept-bind m f hm hf w h =
      Holds-bind (λ a v. P v) (λ b v. P v) (λ e v. P v) m f w (hm w h) (λ a u g. hf a u g)

  pub Kept-if :
      {A : Type 0} (b : Bool) (m n : M W E A) → Kept P m → Kept P n → Kept P (if b then m else n)
  Kept-if true m n hm hn = hm
  Kept-if false m n hm hn = hn

  pub Kept-query : {A : Type 0} (f : W → Result E A) → Kept P (query f)
  Kept-query f w h = elim (Result-cases (f w)) [
    | inl (a, e) ↦ rw (Holds, query, e) h
    | inr (reason, e) ↦ rw (Holds, query, e) h
  ]
