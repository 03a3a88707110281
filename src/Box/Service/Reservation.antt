-- ===== src/Box/Service/Reservation.antt =====
-- internal/box/service.go: Add touches the machine only behind its reservation.
use Prim.Native.String.{String}
use mathlib.Core.Path.{subst}
use schooner.Prelude.{ℕ, string_eq, ◌≡◌, refl, sym}
use schooner.Prelude.Results.{Outcome, done, fail, M, Holds, Holds-bind, Holds-imp}
use schooner.Box.Types.{resolve, connect, inspect, Connection, Error, AddRequest}
use schooner.Box.Validate.{validate_name, validate_ssh_destination, validate_worktree_root}
use schooner.Box.Service.{Inventory, Runtime, World, on_store, certify}
use schooner.Box.Service.Keeps.{
  Preserves, Good, Keeps, Keeps-bind, Keeps-run_step, Keeps-on_env, Keeps-query, Keeps-valid,
  Keeps-pure,
}
use schooner.Box.Service.Add.{
  root_of, connection_of, name_free, identity_free, preflight, operation, converge, add,
}

module _ {S R : Type 0} (rt : Runtime R) (P : S → R → Type 0) where
  -- The calls of the runtime that only look.
  pub record Looks : Type 0 where
    pub resolves : (c : Connection) (s : S) → Preserves (P s) (rt.resolve c)
    pub inspects : (c : Connection) (root : String) (s : S) → Preserves (P s) (rt.inspect c root)
    pub ticks : (s : S) (r : R) → P s r → P s (rt.now r).1

  module _ (inv : Inventory S) (looks : Looks) (req : AddRequest) where
    name_free-Keeps : Keeps P (name_free inv rt req)
    unfolding name_free
    name_free-Keeps = Keeps-query P _

    identity_free-Keeps : (id : String) → Keeps P (identity_free inv rt req id)
    unfolding identity_free
    identity_free-Keeps id = Keeps-query P _

    pub preflight-Keeps : Keeps P (preflight inv rt req)
    unfolding preflight
    preflight-Keeps = Keeps-bind P _ _ (Keeps-valid P (validate_name req.name)) λ _.
        Keeps-bind P _ _ (Keeps-valid P (validate_ssh_destination req.ssh_destination)) λ _.
          Keeps-bind P _ _ (Keeps-valid P (validate_worktree_root (root_of inv rt req))) λ _.
            Keeps-bind P _ _ name_free-Keeps λ _.
              Keeps-bind P _ _
                (Keeps-run_step P req.progress resolve _ _
                  (Keeps-on_env P _ (looks.resolves (connection_of inv rt req))))
                λ _.
                  Keeps-bind P _ _
                    (Keeps-run_step P req.progress connect _ _
                      (Keeps-on_env P _ (looks.inspects (connection_of inv rt req) _)))
                    λ c.
                      Keeps-bind P _ _
                        (Keeps-run_step P req.progress inspect _ _ (Keeps-query P (λ _. certify c)))
                        λ _.
                          Keeps-bind P _ _ (identity_free-Keeps c.remote_identity)
                            λ _. Keeps-pure P c

-- The calls that only look leave the store as it is.
standing :
    {S R : Type 0} {rt : Runtime R} {Q : R → Type 0}
    → Looks {S = S} rt (λ _ r. Q r)
    → (before : S) → Looks {S = S} rt (λ s r. (s ≡ before) × Q r)
standing {S} {R} {rt} {Q} looks before = record {
  resolves = λ c s r p.
      Holds-imp _ _ _ _ (rt.resolve c r) (λ a v q. (p.0, q)) (λ e v q. (p.0, q))
        (looks.resolves c s r p.1);
  inspects = λ c root s r p.
      Holds-imp _ _ _ _ (rt.inspect c root r) (λ a v q. (p.0, q)) (λ e v q. (p.0, q))
        (looks.inspects c root s r p.1);
  ticks = λ s r p. (p.0, looks.ticks s r p.1);
}

-- The store refuses the reservation of the request, at whatever time it is asked.
abbrev pub Refuses : {S R : Type 0} → Inventory S → Runtime R → AddRequest → S → Type 0
Refuses inv rt req s =
    (t : ℕ) → Holds (inv.begin_add (operation inv rt req "" "" t) s) (λ _ _. ⊥) (λ _ _. Unit {0})

on_store-refuses :
    {S R A : Type 0} (Q : R → Type 0) (m : M S Error A) (w : World S R)
    → Holds (m w.store) (λ _ _. ⊥) (λ _ _. Unit {0})
    → Q w.env
    → Holds (on_store {A = A} m w) (λ _ _. ⊥) (λ _ v. Q v.env)
on_store-refuses {S} {R} {A} Q m w none q = finish (m w.store) none
  where
    finish :
        (r : Outcome S Error A)
        → Holds r (λ _ _. ⊥) (λ _ _. Unit {0})
        → Holds
            (elim r as (λ x. Outcome (World S R) Error A) [
              | done a s ↦ done a (record w { store = s })
              | fail e s ↦ fail e (record w { store = s })
            ])
            (λ _ _. ⊥)
            (λ _ v. Q v.env)
    finish (done a s) never = absurd never
    finish (fail e s) _ = q

module _ {S R : Type 0} (inv : Inventory S) (rt : Runtime R) (req : AddRequest) where
  -- Add has no effect on the machine that resolving, inspecting and reading the clock do not have,
  -- unless its reservation is granted: where the store refuses the reservation of the name, Add
  -- fails, and whatever those three calls keep of the environment still holds.
  pub add-untouched :
      (Q : R → Type 0)
      → Looks {S = S} rt (λ _ r. Q r)
      → (w : World S R) → Refuses inv rt req w.store
      → Q w.env
      → Holds (add inv rt req w) (λ _ _. ⊥) (λ _ v. Q v.env)
  unfolding add
  add-untouched Q looks w refuses h =
      let P = λ (s : S) (r : R). (s ≡ w.store) × Q r in
      Holds-bind (λ _ v. Good P v) (λ _ _. ⊥) (λ _ v. Q v.env) (preflight inv rt req) _ w
        (Holds-imp (λ _ v. Good P v) (λ _ v. Good P v) (λ _ v. Good P v) (λ _ v. Q v.env)
          (preflight inv rt req w) (λ _ v g. g) (λ _ v g. g.1)
          (preflight-Keeps rt P inv (standing looks w.store) req w (refl, h)))
        λ c u g.
          let t = rt.now u.env in
          let u' : World S R = record u { env = t.1 } in
          let op = operation inv rt req "" "" t.0 in
          Holds-bind (λ _ _. ⊥) (λ _ _. ⊥) (λ _ v. Q v.env) (on_store (inv.begin_add op))
            (λ _. converge inv rt req c) u'
            (on_store-refuses Q (inv.begin_add op) u'
              (subst (λ s. Holds (inv.begin_add op s) (λ _ _. ⊥) (λ _ _. Unit {0})) (sym g.0)
                (refuses t.0))
              (looks.ticks u.store u.env g.1))
            (λ a v never. absurd never)
