-- ===== src/Credentials/Bindings.antt =====
-- What the saving calls of the Manager of internal/credentials/credentials.go do to a stored profile
-- that is bound to an account.
use Prim.Native.String.{String}
use schooner.Prelude.{Bool, true, false, ◌&&◌, List, ◌==◌, ◌!=◌, string_eq, if◌then◌else◌}
use schooner.Prelude.Results.{ok, Outcome, done, fail, query, Holds}
use schooner.Box.Types.{Error}
use schooner.Credentials.{Profile, Account}
use schooner.Credentials.Rows.{save_credential_profile}
use schooner.Credentials.Manager.{Manager, require, lookup}
use schooner.Credentials.Connect.{binding_fits}
use mathlib.Core.Path.{subst}
use schooner.Prelude.{
  ℕ, Option, none, some, ◌≡◌, ◌≢◌, refl, sym, ◌∙◌, inl, inr, arith, eq_of_==, Bool-cases,
}
use schooner.Prelude.Results.{Holds-imp, err}
use schooner.Prelude.Steps.{Advances, query-Advances}
use schooner.Prelude.Table.{find, find_passes}
use schooner.Box.Types.{is_not_found, BoxResult}
use schooner.Credentials.Rows.{referred, scan_profile}
use schooner.Credentials.Manager.{found_or_none}
use schooner.Credentials.Resolve.{checked_binding}
use schooner.Credentials.Keeps.{Keeps}
use schooner.Credentials.Settled.{IsBoundTo, Good, save_credential_profile-Good}
use schooner.Credentials.Manager.{Managing, on_rows}
use schooner.Credentials.Resolve.{environment_profile}
use schooner.Credentials.Rows.{find_credential_profile}

module _ (ref e : String) where
  -- What is found under a reference, if the reference is the one that is bound.
  abbrev pub IsExisting : String → Option Profile → Type 0
  IsExisting asked none = asked ≢ ref
  IsExisting asked (some p) = (p.ref ≡ asked) × (asked ≡ ref → p.external_id ≡ e)

  found-IsExisting :
      (rows : List Profile) (asked : String) (o : Option Profile)
      → find (referred asked) rows ≡ o
      → IsBoundTo ref e rows
      → IsExisting asked o
  found-IsExisting rows asked none h (q, found, bound) = λ same.
      let missing : none ≡ some q =
        sym h ∙ subst (λ a. find (referred a) rows ≡ some q) (sym same) found in
      absurd (ground arith)
  found-IsExisting rows asked (some p) h (q, found, bound) = (
    eq_of_== (find_passes (referred asked) rows h),
    λ same.
        let one : some p ≡ some q =
          sym h ∙ subst (λ a. find (referred a) rows ≡ some q) (sym same) found in
        let equal : p ≡ q = ground arith in subst (λ x. x.external_id ≡ e) (sym equal) bound,
  )

  lookup-IsExisting :
      (asked : String) (o a : Option Profile)
      → found_or_none (scan_profile o asked) ≡ ok a
      → IsExisting asked o
      → IsExisting asked a
  lookup-IsExisting asked (some p) a h existing =
      let same : some p ≡ a = ground arith in subst (IsExisting asked) same existing
  lookup-IsExisting asked none a h existing =
      subst (IsExisting asked) (nothing (is_not_found _) _ a h) existing
    where
      nothing :
          (b : Bool) (m : Error) (x : Option Profile)
          → ◌≡◌ {A = BoxResult (Option Profile)} (if b then ok none else err m) (ok x)
          → none ≡ x
      nothing true m x q = ground arith
      nothing false m x q = absurd (ground arith)

  -- The checks of a binding leave the account.
  pub binding_fits-binds :
      e ≢ ""
      → (account : Account) (asked : String) (existing : Option Profile) → IsExisting asked existing
      → binding_fits account existing ≡ true
      → asked ≡ ref
      → account.external_id ≡ e
  binding_fits-binds known account asked none missing fits same = absurd (missing same)
  binding_fits-binds known account asked (some p) (at_ref, bound) fits same =
      let was = bound same in
      elim (Bool-cases (p.external_id == "")) [
        | inl empty ↦ absurd (known (sym was ∙ eq_of_== empty))
        | inr given ↦
            sym (eq_of_== {x = p.external_id} {y = account.external_id} (ground arith)) ∙ was
      ]

  pub checked_binding-binds :
      e ≢ ""
      → (account : Account) (asked : String) (found a : Option Profile) (time : ℕ)
      → IsExisting asked found
      → checked_binding account found ≡ ok a
      → (environment_profile asked account time a).ref ≡ ref
      → (environment_profile asked account time a).external_id ≡ e
  checked_binding-binds known account asked none a time missing h =
      let same : none ≡ a = ground arith in
      subst
        (λ o.
          (environment_profile asked account time o).ref ≡ ref
          → (environment_profile asked account time o).external_id ≡ e)
        same (λ at_ref. absurd (missing at_ref))
  checked_binding-binds known account asked (some p) a time (at_asked, bound) h =
      elim (Bool-cases (p.external_id != "" && p.external_id != account.external_id)) [
        | inl other ↦ absurd (ground arith)
        | inr fits ↦
            let same : some p ≡ a = ground arith in
            subst
              (λ o.
                (environment_profile asked account time o).ref ≡ ref
                → (environment_profile asked account time o).external_id ≡ e)
              same
              (λ at_ref.
                binding_fits-binds known account asked (some p) (at_asked, bound) (ground arith)
                  (sym at_asked ∙ at_ref))
      ]

  -- A row that a lookup gives is what is found.
  scan_profile-IsExisting :
      (asked : String) (o : Option Profile) (p : Profile)
      → scan_profile o asked ≡ ok p
      → IsExisting asked o
      → IsExisting asked (some p)
  scan_profile-IsExisting asked none p h existing = absurd (ground arith)
  scan_profile-IsExisting asked (some q) p h existing =
      let same : q ≡ p = ground arith in subst (λ x. IsExisting asked (some x)) same existing

module _ {R : Type 0} (ref e : String) (rows : List Profile) (good : Good ref e rows) where
  abbrev pub Same : Manager R → Type 0
  Same w = w.rows ≡ rows

  abbrev pub Left : {X : Type 0} → X → Manager R → Type 0
  Left x w = Good ref e w.rows

  pub stays : {X : Type 0} (x : X) (w : Manager R) → Same w → Left x w
  stays x w same = subst (Good ref e) (sym same) good

  -- Before the save the rows are the same; afterwards they are good.
  abbrev pub Tells : {A : Type 0} → (A → Type 0) → Managing R A → Type 0
  Tells T m = Advances Same (Left {X = Error}) T m

  pub quiet : {A : Type 0} (m : Managing R A) → Keeps (λ v. v ≡ rows) m → Tells (λ a. Unit {0}) m
  quiet m kept w same =
      Holds-imp (λ a v. Same v) (λ a v. Unit {0} × Same v) (λ x v. Same v) Left (m w)
        (λ a v s. (tt, s)) (λ x v s. stays x v s) (kept w same)

  pub asks :
      {A : Type 0} (T : A → Type 0) (f : Manager R → BoxResult A)
      → ((w : Manager R) (a : A) → Same w → f w ≡ ok a → T a)
      → Tells T (query f)
  asks T f tells = query-Advances Same Left T f tells (λ x w same. stays x w same)

  pub requires : (b : Bool) (x : Error) → Tells (λ u. b ≡ true) (require b x)
  requires true x w same = (refl, same)
  requires false x w same = stays x w same

  pub finds :
      (asked : String)
      → Tells
          (λ p. IsExisting ref e asked (some p))
          (query (λ w. find_credential_profile asked w.rows))
  unfolding find_credential_profile
  finds asked =
      asks (λ p. IsExisting ref e asked (some p)) (λ w. find_credential_profile asked w.rows)
        (λ w p same h.
          scan_profile-IsExisting ref e asked (find (referred asked) w.rows) p h
            (found-IsExisting ref e w.rows asked _ refl (stays p w same).1))

  pub looks_up : (asked : String) → Tells (IsExisting ref e asked) (lookup asked)
  unfolding find_credential_profile
  looks_up asked = asks (IsExisting ref e asked) _ (λ w a same h.
      lookup-IsExisting ref e asked (find (referred asked) w.rows) a h
        (found-IsExisting ref e w.rows asked _ refl (stays a w same).1))

  pub saves :
      (p : Profile)
      → (p.ref ≡ ref → p.external_id ≡ e)
      → (w : Manager R) → Same w
      → Holds (on_rows {R = R} (save_credential_profile p) w) Left Left
  saves p fits w same =
      finish (save_credential_profile p w.rows)
        (save_credential_profile-Good ref e p w.rows fits (stays p w same))
    where
      finish :
          (r : Outcome (List Profile) Error (Unit {0}))
          → Holds r (λ x v. Good ref e v) (λ x v. Good ref e v)
          → Holds
              (elim r as (λ x. Outcome (Manager R) Error (Unit {0})) [
                | done x v ↦ done x (record w { rows = v })
                | fail x v ↦ fail x (record w { rows = v })
              ])
              Left
              Left
      finish (done x v) g = g
      finish (fail x v) g = g
