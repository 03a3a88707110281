-- ===== src/Acquisition/Service/Destruction.antt =====
-- A box is forgotten only when its machine is gone, as far as the provider can tell.
use Prim.Native.String.{String}
use schooner.Prelude.{ℕ, true, false, ◌≡◌, inl, inr, arith, Bool-cases, string_eq}
use schooner.Prelude.Results.{
  Result, ok, err, M, ◌>>=◌, throw, Holds, Holds-bind, Outcome-cases, Holds-const, check,
}
use schooner.Box.Types.{Record, Error, is_not_found}
use schooner.Box.Service.{Inventory, World, on_store, on_env, read_store, valid}
use schooner.Box.Service.Keeps.{
  Preserves, Keeps, Keeps-bind, Keeps-on_env, Keeps-query, Keeps-on_store,
}
use schooner.Box.Service.Yields.{Yields, Yields-then, Yields-bind, Holds-on_env, store-keeps}
use schooner.Box.Validate.{validate_name}
use schooner.Box.Service.Maintain.{remove_box}
use schooner.Acquisition.Types.{ResourceRef, Resource, DestroyOperation}
use schooner.Acquisition.Service.{
  Operations, Cloud, DestroyResult, failure_checkpoint, clock, ignoring,
}
use schooner.Acquisition.Service.Stops.{Stops, Stops-after, Stops-bind, Keeps-ignoring, Keeps-clock}
use schooner.Acquisition.Service.Destroy.{
  is_other, ref_of, destroyable, destroy_operation, checkpointed, failed_with, confirm_destroyed,
  forget, destroy_box,
}

-- A provider that still has every machine, and refuses to destroy it.
pub record Undestroyed {R : Type 0} (cloud : Cloud R) : Type 0 where
  pub present :
      (token : String) (ref : ResourceRef) (r : R)
      → Holds (cloud.inspect_resource token ref r) (λ _ _. Unit {0}) (λ e _. is_not_found e ≡ false)
  pub refused :
      (token : String) (ref : ResourceRef) (r : R)
      → Holds (cloud.destroy_resource token ref r) (λ _ _. ⊥) (λ _ _. Unit {0})

-- What the calls of the provider tell. `Access` is what a resolved credential is for, `Present` what an
-- inspection with it tells of the machine, and `Gone` what is so once an inspection has not found the
-- machine, or its destruction has succeeded behind an inspection that found this very machine. The
-- clock changes nothing of it.
pub record TellsGone {R : Type 0} (Access : String → String → Type 0)
    (Present : ResourceRef → Resource → R → Type 0) (Gone : ResourceRef → R → Type 0)
    (cloud : Cloud R) : Type 0 where
  pub resolves :
      (profile : String) (r : R)
      → Holds
          (cloud.resolve_credential profile r)
          (λ credential v. Access profile credential.token)
          (λ _ _. Unit {0})
  pub inspects :
      (token : String) (ref : ResourceRef) (r : R)
      → Access ref.profile token
      → Holds
          (cloud.inspect_resource token ref r)
          (λ found v. Present ref found v)
          (λ e v. is_not_found e ≡ true → Gone ref v)
  pub destroys :
      (token : String) (ref : ResourceRef) (found : Resource) (r : R)
      → Access ref.profile token
      → Present ref found r
      → found.id ≡ ref.resource_id
      → found.correlation_id ≡ ref.correlation_id
      → Holds (cloud.destroy_resource token ref r) (λ _ v. Gone ref v) (λ _ _. Unit {0})
  pub ticks : (ref : ResourceRef) (r : R) → Gone ref r → Gone ref (cloud.now r).1

module _ {S R : Type 0} (ops : Operations S) (inv : Inventory S) (cloud : Cloud R) where
  failed_with-Yields :
      {A : Type 0} (X : A → S → R → Type 0) (op : DestroyOperation) (e : Error)
      → Yields (failed_with ops inv cloud {A = A} op e) X
  unfolding failed_with
  failed_with-Yields X op e =
      Yields-then X (ignoring (checkpointed ops inv cloud op (failure_checkpoint e))) (λ _. throw e)
        λ a w. tt

  module _ {Access : String → String → Type 0} {Present : ResourceRef → Resource → R → Type 0}
      {Gone : ResourceRef → R → Type 0} (tells : TellsGone Access Present Gone cloud) where
    confirm_destroyed-IsGone :
        (op : DestroyOperation) (token : String)
        → Access op.resource.profile token
        → Yields {S = S} (confirm_destroyed ops inv cloud op token) (λ _ _ r. Gone op.resource r)
    unfolding confirm_destroyed
    confirm_destroyed-IsGone op token access w =
        let X = λ (x : Unit {0}) (s : S) (r : R). Gone op.resource r in
        elim (Outcome-cases (cloud.inspect_resource token op.resource w.env)) [
          | inr (e, r, q) ↦ elim (Bool-cases (is_not_found e)) [
            | inl t ↦
                let gone : Gone op.resource r =
                  (rw q at (tells.inspects token op.resource w.env access)) t in
                rw (confirm_destroyed, q, t) gone
            | inr t ↦
                rw (confirm_destroyed, q, t) (failed_with-Yields X op e (record w { env = r }))
          ]
          | inl (found, r, q) ↦ elim (Bool-cases (is_other op.resource found)) [
            | inl other ↦ rw (confirm_destroyed, q, other) tt
            | inr same ↦
                let present : Present op.resource found r =
                  rw q at (tells.inspects token op.resource w.env access) in
                let destroyed =
                  tells.destroys token op.resource found r access present
                    (ground (arith, string_eq.test_iff found.id op.resource.resource_id))
                    (ground (
                      arith,
                      string_eq.test_iff found.correlation_id op.resource.correlation_id,
                    )) in
                elim (Outcome-cases (cloud.destroy_resource token op.resource r)) [
                  | inl (x, r', done_it) ↦
                      let gone : Gone op.resource r' = rw done_it at destroyed in
                      rw (confirm_destroyed, q, same, done_it) gone
                  | inr (e, r', refused) ↦
                      rw (confirm_destroyed, q, same, refused)
                        (failed_with-Yields X op e (record w { env = r' }))
                ]
          ]
        ]

    checkpointed-IsGone :
        (ref : ResourceRef) (op : DestroyOperation) (name : String) (w : World S R)
        → Gone ref w.env
        → Holds (checkpointed ops inv cloud op name w) (λ _ v. Gone ref v.env) (λ _ _. Unit {0})
    unfolding checkpointed
    checkpointed-IsGone ref op name w gone =
        let now = cloud.now w.env in
        let later : DestroyOperation = record op { checkpoint = name; updated_at = now.0 } in
        store-keeps (Gone ref) (ops.checkpoint_destroy later) (record w { env = now.1 })
          (tells.ticks ref w.env gone)

    forget-IsGone :
        (op : DestroyOperation) (name : String) (r : Record) (w : World S R)
        → Gone (ref_of r) w.env
        → Holds
            (forget ops inv cloud op name r w)
            (λ res v. Gone res.resource v.env)
            (λ _ _. Unit {0})
    unfolding forget remove_box
    forget-IsGone op name r w gone =
        Holds-bind (λ _ v. Gone (ref_of r) v.env) (λ res v. Gone res.resource v.env)
          (λ _ _. Unit {0}) (checkpointed ops inv cloud op "confirmed_destroyed") _ w
          (checkpointed-IsGone (ref_of r) op "confirmed_destroyed" w gone)
          λ _ u still.
            Holds-bind (λ _ v. Gone (ref_of r) v.env) (λ res v. Gone res.resource v.env)
              (λ _ _. Unit {0}) (remove_box inv name) _ u (remove_box-keeps name u (ref_of r) still)
              λ removed v kept.
                Holds-bind (λ _ x. Gone (ref_of r) x.env) (λ res x. Gone res.resource x.env)
                  (λ _ _. Unit {0}) (on_store (ops.complete_destroy r.id)) _ v
                  (store-keeps (Gone (ref_of r)) (ops.complete_destroy r.id) v kept) λ _ x g. g
      where
        remove_box-keeps :
            (name : String) (u : World S R) (ref : ResourceRef)
            → Gone ref u.env
            → Holds (remove_box inv name u) (λ _ v. Gone ref v.env) (λ _ _. Unit {0})
        remove_box-keeps name u ref g =
            Holds-bind (λ _ v. Gone ref v.env) (λ _ v. Gone ref v.env) (λ _ _. Unit {0})
              (valid (validate_name name)) _ u (valid-keeps (validate_name name) u g)
              λ _ v k.
                Holds-bind (λ _ x. Gone ref x.env) (λ _ x. Gone ref x.env) (λ _ _. Unit {0})
                  (on_store (inv.remove name)) _ v (store-keeps (Gone ref) (inv.remove name) v k)
                  λ _ x g'. g'
          where
            valid-keeps :
                (checked : Result String (Unit {0})) (v : World S R)
                → Gone ref v.env
                → Holds (valid checked v) (λ _ x. Gone ref x.env) (λ _ _. Unit {0})
            valid-keeps (ok x) v k = k
            valid-keeps (err e) v k = tt

    -- When a destruction succeeds, the machine that the result names is gone, by what the calls of
    -- the provider tell with the credential of its profile: an inspection no longer found it, or it
    -- was found to be the recorded one and was then destroyed.
    pub destroy_box-IsGone :
        (name : String)
        → Yields {S = S} (destroy_box ops inv cloud name) (λ res s r. Gone res.resource r)
    unfolding destroy_box ref_of
    destroy_box-IsGone name =
        let X = λ (res : DestroyResult) (s : S) (r : R). Gone res.resource r in
        Yields-then X (read_store (ops.find_by_name name)) _ λ r.
          Yields-then X (check (destroyable r)) _ λ _.
            Yields-bind X (on_env (cloud.resolve_credential r.credential_profile)) _
              (λ credential s v. Access r.credential_profile credential.token)
              (λ w.
                Holds-on_env (λ credential v. Access r.credential_profile credential.token)
                  (cloud.resolve_credential r.credential_profile) w
                  (tells.resolves r.credential_profile w.env))
              λ credential u access.
                let t = cloud.now u.env in
                let u' : World S R = record u { env = t.1 } in
                let op = destroy_operation ops inv cloud r t.0 in
                Yields-then X (on_store (ops.begin_destroy op))
                  (λ _. confirm_destroyed ops inv cloud op credential.token >>= λ _.
                    forget ops inv cloud op name r)
                  (λ _.
                    Yields-bind X (confirm_destroyed ops inv cloud op credential.token)
                      (λ _. forget ops inv cloud op name r) (λ _ s v. Gone (ref_of r) v)
                      (confirm_destroyed-IsGone op credential.token access)
                      λ _ v gone. forget-IsGone op name r v gone)
                  u'

  -- What the checkpoints of a destruction keep of the store.
  pub record Keeping (P : S → Type 0) : Type 0 where
    pub begins : (op : DestroyOperation) → Preserves P (ops.begin_destroy op)
    pub checkpoints : (op : DestroyOperation) → Preserves P (ops.checkpoint_destroy op)

  module _ (P : S → Type 0) (keeping : Keeping P) where
    abbrev Kept : S → R → Type 0
    Kept s r = P s

    env-Kept : {A : Type 0} (m : M R Error A) → Keeps Kept {A = A} (on_env m)
    env-Kept m = Keeps-on_env Kept m (λ s r h. Holds-const (m r) h)

    clock-Kept : Keeps Kept (clock cloud)
    clock-Kept = Keeps-clock Kept cloud (λ s r h. h)

    checkpointed-Kept :
        (op : DestroyOperation) (name : String) → Keeps Kept (checkpointed ops inv cloud op name)
    unfolding checkpointed
    checkpointed-Kept op name =
        let later = λ (t : ℕ). record op { checkpoint = name; updated_at = t } in
        Keeps-bind Kept (clock cloud) (λ t. on_store (ops.checkpoint_destroy (later t))) clock-Kept
          λ t.
            Keeps-on_store Kept (ops.checkpoint_destroy (later t))
              (λ r. keeping.checkpoints (later t))

    failed_with-Stops :
        (A : Type 0) (op : DestroyOperation) (e : Error)
        → Stops Kept (failed_with ops inv cloud {A = A} op e)
    unfolding failed_with
    failed_with-Stops A op e =
        Stops-after Kept (ignoring (checkpointed ops inv cloud op (failure_checkpoint e)))
          (λ _. throw e) (Keeps-ignoring Kept _ (checkpointed-Kept op (failure_checkpoint e)))
          λ _ w h. h

    confirm_destroyed-Stops :
        Undestroyed cloud
        → (op : DestroyOperation) (token : String)
        → Stops Kept (confirm_destroyed ops inv cloud op token)
    unfolding confirm_destroyed
    confirm_destroyed-Stops undestroyed op token w h =
        elim (Outcome-cases (cloud.inspect_resource token op.resource w.env)) [
          | inr (e, r, q) ↦
              let t : is_not_found e ≡ false =
                rw q at (undestroyed.present token op.resource w.env) in
              rw (confirm_destroyed, q, t)
                (failed_with-Stops (Unit {0}) op e (record w { env = r }) h)
          | inl (found, r, q) ↦ elim (Bool-cases (is_other op.resource found)) [
            | inl other ↦ rw (confirm_destroyed, q, other) h
            | inr same ↦ elim (Outcome-cases (cloud.destroy_resource token op.resource r)) [
              | inl (x, r', gone) ↦ absurd (rw gone at (undestroyed.refused token op.resource r))
              | inr (e, r', gone) ↦
                  rw (confirm_destroyed, q, same, gone)
                    (failed_with-Stops (Unit {0}) op e (record w { env = r' }) h)
            ]
          ]
        ]

    -- Where the provider still has the machine and does not destroy it, a destruction fails, and
    -- the store keeps whatever the checkpoints of a destruction keep.
    pub destroy_box-kept :
        Undestroyed cloud
        → (name : String) (w : World S R) → P w.store
        → Holds (destroy_box ops inv cloud name w) (λ _ _. ⊥) (λ _ v. P v.store)
    unfolding destroy_box ref_of
    destroy_box-kept undestroyed name =
        Stops-after Kept (read_store (ops.find_by_name name)) _ (Keeps-query Kept _) λ r.
          Stops-after Kept (check (destroyable r)) _ (Keeps-query Kept _) λ _.
            Stops-after Kept (on_env (cloud.resolve_credential r.credential_profile)) _ (env-Kept _)
              λ credential. Stops-after Kept (clock cloud) _ clock-Kept λ t.
                let op = destroy_operation ops inv cloud r t in
                Stops-after Kept (on_store (ops.begin_destroy op)) _
                  (Keeps-on_store Kept (ops.begin_destroy op) (λ q. keeping.begins op))
                  λ _.
                    Stops-bind Kept (confirm_destroyed ops inv cloud op credential.token)
                      (λ _. forget ops inv cloud op name r)
                      (confirm_destroyed-Stops undestroyed op credential.token)
