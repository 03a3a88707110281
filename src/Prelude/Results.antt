-- ===== src/Prelude/Results.antt =====
-- Go's pairs of a value and an error: `Result` for a call that changes nothing, `Outcome` for a
-- call that leaves a new state on both paths, and the monad of the latter.
use mathlib.Core.Path.{◌≡◌, refl}
use mathlib.Core.Logic.{◌⊎◌, inl, inr}
use mathlib.Core.Bool.{Bool, true, false}
use schooner.Prelude.Tests.{if◌then◌else◌}

pub data Result (E A : Type 0) : Type 0 where
  ok : A → Result E A
  err : E → Result E A

pub data Outcome (W E A : Type 0) : Type 0 where
  done : A → W → Outcome W E A
  fail : E → W → Outcome W E A

abbrev pub M : Type 0 → Type 0 → Type 0 → Type 0
M W E A = W → Outcome W E A

infixl 5 ◌>>=◌ ◌>>◌
abbrev pub ◌>>=◌ : {W E A B : Type 0} → M W E A → (A → M W E B) → M W E B
◌>>=◌ m f w = elim (m w) [ done a w' ↦ f a w' | fail e w' ↦ fail e w' ]

abbrev pub ◌>>◌ : {W E A B : Type 0} → M W E A → M W E B → M W E B
◌>>◌ m k = m >>= λ _. k

abbrev pub pure : {W E A : Type 0} → A → M W E A
pure a w = done a w

abbrev pub throw : {W E A : Type 0} → E → M W E A
throw e w = fail e w

-- A call that reads.
abbrev pub query : {W E A : Type 0} → (W → Result E A) → M W E A
query f w = elim (f w) [ ok a ↦ done a w | err e ↦ fail e w ]

abbrev pub check : {W E A : Type 0} → Result E A → M W E A
check r = query (λ _. r)

pub Outcome-cases :
    {W E A : Type 0} (r : Outcome W E A)
    → ((a : A) × (w : W) × (r ≡ done a w)) ⊎ ((e : E) × (w : W) × (r ≡ fail e w))
Outcome-cases (done a w) = inl (a, w, refl)
Outcome-cases (fail e w) = inr (e, w, refl)

-- A call whose error is mapped.
abbrev pub or_fail : {W D E A : Type 0} → (D → E) → M W D A → M W E A
or_fail f m w = elim (m w) [ done x v ↦ done x v | fail e v ↦ fail (f e) v ]

-- What holds after a call: one condition for each path.
abbrev pub Holds : {W E A : Type 0} → Outcome W E A → (A → W → Type 0) → (E → W → Type 0) → Type 0
Holds (done a w) P Q = P a w
Holds (fail e w) P Q = Q e w

pub Holds-bind :
    {W E A B : Type 0} (P : A → W → Type 0) (R : B → W → Type 0) (Q : E → W → Type 0) (m : M W E A)
    (f : A → M W E B) (w : W)
    → Holds (m w) P Q
    → ((a : A) (u : W) → P a u → Holds (f a u) R Q)
    → Holds ((m >>= f) w) R Q
Holds-bind {W} {E} {A} P R Q m f w h k = step (m w) h
  where
    step :
        (r : Outcome W E A)
        → Holds r P Q
        → Holds (elim r [ done a u ↦ f a u | fail e u ↦ fail e u ]) R Q
    step (done a u) p = k a u p
    step (fail e u) q = q

pub Holds-const :
    {W E A : Type 0} {X : Type 0} (r : Outcome W E A) → X → Holds r (λ _ _. X) (λ _ _. X)
Holds-const (done a w) x = x
Holds-const (fail e w) x = x

pub Result-cases :
    {E A : Type 0} (result : Result E A)
    → ((value : A) × (result ≡ ok value)) ⊎ ((reason : E) × (result ≡ err reason))
Result-cases (ok value) = inl (value, refl)
Result-cases (err reason) = inr (reason, refl)

-- A call takes states with the property to states with the property, on either path.
abbrev pub Kept : {W E A : Type 0} → (W → Type 0) → M W E A → Type 0
Kept {W} P m = (w : W) → P w → Holds (m w) (λ _ v. P v) (λ _ v. P v)

-- What holds on each path implies what is to be shown there.
pub Holds-imp :
    {W E A : Type 0} (P P' : A → W → Type 0) (Q Q' : E → W → Type 0) (r : Outcome W E A)
    → ((a : A) (w : W) → P a w → P' a w)
    → ((e : E) (w : W) → Q e w → Q' e w)
    → Holds r P Q
    → Holds r P' Q'
Holds-imp P P' Q Q' (done a w) f g h = f a w h
Holds-imp P P' Q Q' (fail e w) f g h = g e w h

-- A deferred call: it runs on either path.
abbrev pub deferring : {W E A : Type 0} → (W → W) → M W E A → M W E A
deferring release m w = elim (m w) [ done x v ↦ done x (release v) | fail e v ↦ fail e (release v) ]

pub Holds-deferring :
    {W E A : Type 0} (P : A → W → Type 0) (Q : E → W → Type 0) (release : W → W) (m : M W E A)
    (w : W)
    → ((a : A) (v : W) → P a v → P a (release v))
    → ((e : E) (v : W) → Q e v → Q e (release v))
    → Holds (m w) P Q
    → Holds (deferring release m w) P Q
Holds-deferring {W} {E} {A} P Q release m w keep_done keep_fail h = step (m w) h
  where
    step :
        (r : Outcome W E A)
        → Holds r P Q
        → Holds
            (elim r as (λ x. Outcome W E A) [
              | done x v ↦ done x (release v)
              | fail e v ↦ fail e (release v)
            ])
            P
            Q
    step (done x v) p = keep_done x v p
    step (fail e v) q = keep_fail e v q

-- The branch that a test takes.
pub Holds-if :
    {W E A : Type 0} (P : A → W → Type 0) (Q : E → W → Type 0) (b : Bool) (m n : M W E A) (w : W)
    → (b ≡ true → Holds (m w) P Q)
    → (b ≡ false → Holds (n w) P Q)
    → Holds ((if b then m else n) w) P Q
Holds-if P Q true m n w hm hn = hm refl
Holds-if P Q false m n w hm hn = hn refl
