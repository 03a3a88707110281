-- ===== src/Acquisition/Service/Safety.antt =====
-- The provider is asked for a machine only behind an operation that is recorded.
use Prim.Native.String.{String}
use schooner.Prelude.{string_eq}
use schooner.Prelude.Results.{Outcome, done, fail, Holds, Holds-const, check}
use schooner.Box.Types.{Record, Error}
use schooner.Box.Validate.{validate_name}
use schooner.Box.Service.{Inventory, Runtime, World, on_store, read_store}
use schooner.Box.Service.Keeps.{
  Preserves, Keeps, Keeps-bind, Keeps-on_env, Keeps-query, Keeps-valid, Keeps-on_store,
}
use schooner.Acquisition.Types.{ProvisionOperation}
use schooner.Acquisition.Service.{Operations, Cloud, ProvisionRequest, clock}
use schooner.Acquisition.Service.Stops.{Stops-Keeps, Stops-on_store, Keeps-lookup, Keeps-clock}
use schooner.Acquisition.Service.Provision.{
  selections, requested, fresh, launch, complete_committed, resume, with_profile, provision_box,
  begun_as, expected_box, conflicts,
}

-- The calls of the provider's side that do not act on a machine.
pub record Prepares {R : Type 0} (cloud : Cloud R) (Q : R → Type 0) : Type 0 where
  pub resolves : (profile : String) → Preserves Q (cloud.resolve_credential profile)
  pub ensures : Preserves Q cloud.ensure_identity
  pub draws : Preserves Q cloud.new_id
  pub ticks : (r : R) → Q r → Q (cloud.now r).1

-- A store that starts no operation.
abbrev pub StartsNone : {S : Type 0} → Operations S → Type 0
StartsNone {S} ops =
    (op : ProvisionOperation) (s : S)
    → Holds (ops.begin_provision op s) (λ _ _. ⊥) (λ _ _. Unit {0})

weaken :
    {W A : Type 0} {X : Type 0} (r : Outcome W Error A)
    → X
    → Holds r (λ _ _. ⊥) (λ _ _. Unit {0})
    → Holds r (λ _ _. ⊥) (λ _ _. X)
weaken (done a w) x never = never
weaken (fail e w) x h = x

module _ {S R : Type 0} (ops : Operations S) (inv : Inventory S) (rt : Runtime R) (cloud : Cloud R)
    (req : ProvisionRequest) (Q : R → Type 0) (prepares : Prepares cloud Q) where
  abbrev Untouched : S → R → Type 0
  Untouched s r = Q r

  clock-Untouched : Keeps {S = S} Untouched (clock cloud)
  clock-Untouched = Keeps-clock Untouched cloud (λ s. prepares.ticks)

  fresh-Untouched :
      StartsNone ops → (op : ProvisionOperation) → Keeps Untouched (fresh ops inv rt cloud req op)
  unfolding fresh
  fresh-Untouched starts op =
      Keeps-bind Untouched _ _
        (Keeps-on_env Untouched (cloud.resolve_credential req.profile)
          (λ s. prepares.resolves req.profile))
        λ credential.
          Keeps-bind Untouched _ _
            (Keeps-on_env Untouched cloud.ensure_identity (λ s. prepares.ensures))
            λ identity.
              Keeps-bind Untouched _ _ (Keeps-on_env Untouched cloud.new_id (λ s. prepares.draws))
                λ id.
                  let begun = begun_as ops inv rt cloud req op credential identity id in
                  Stops-Keeps Untouched (on_store (ops.begin_provision begun))
                    (λ op'. launch ops inv rt cloud req op' credential identity)
                    (Stops-on_store Untouched (ops.begin_provision begun)
                      (λ s r q. weaken (ops.begin_provision begun s) q (starts begun s)))

  complete-Untouched :
      (existing : ProvisionOperation) (r : Record)
      → Keeps Untouched (complete_committed ops inv rt cloud req existing r)
  unfolding complete_committed
  complete-Untouched existing r =
      Keeps-bind Untouched (check (expected_box ops inv rt cloud req existing r)) _
        (Keeps-query Untouched _)
        λ _.
          Keeps-bind Untouched (read_store (ops.last_observation r.id)) _ (Keeps-query Untouched _)
            λ seen.
              Keeps-bind Untouched (on_store (ops.complete_provision existing r.id)) _
                (Keeps-on_store Untouched (ops.complete_provision existing r.id)
                  λ r s q. Holds-const (ops.complete_provision existing _ s) q)
                λ _ w q. q

  resume-Untouched :
      StartsNone ops
      → (existing op : ProvisionOperation)
      → Keeps Untouched (resume ops inv rt cloud req existing op)
  unfolding resume
  resume-Untouched starts existing op =
      Keeps-bind Untouched (check (conflicts ops inv rt cloud req existing op)) _
        (Keeps-query Untouched _)
        λ _.
          Keeps-lookup Untouched (ops.find_by_name existing.name)
            (complete_committed ops inv rt cloud req existing) (fresh ops inv rt cloud req op)
            (complete-Untouched existing) (fresh-Untouched starts op)

  -- The provider is asked for a machine only behind an operation that the store has started: where
  -- the store starts none, provisioning keeps every property of the environment that reading the
  -- credentials, the key pair, the random source and the clock keep.
  pub provision_box-untouched :
      StartsNone ops
      → (w : World S R) → Q w.env
      → Holds (provision_box ops inv rt cloud req w) (λ _ v. Q v.env) (λ _ v. Q v.env)
  unfolding provision_box
  provision_box-untouched starts =
      Keeps-bind Untouched _ _ (Keeps-valid Untouched (validate_name req.name)) λ _.
        Keeps-bind Untouched (check (selections req)) _
          (Keeps-query Untouched (λ _. selections req))
          λ _. Keeps-bind Untouched (clock cloud) _ clock-Untouched λ t.
            Keeps-lookup Untouched (ops.find_provision req.name)
              (λ existing.
                resume ops inv rt cloud req existing
                  (with_profile ops inv rt cloud req (requested req t) existing))
              (fresh ops inv rt cloud req (requested req t))
              (λ existing. resume-Untouched starts existing _)
              (fresh-Untouched starts (requested req t))
