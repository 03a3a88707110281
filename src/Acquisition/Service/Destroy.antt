-- ===== src/Acquisition/Service/Destroy.antt =====
-- `Service.Destroy`: destroy a machine at the provider, and then forget its box.
use Prim.Native.String.{String}
use schooner.Prelude.{ℕ, Bool, true, ◌||◌, ◌!=◌, string_eq, if◌then◌else◌}
use schooner.Prelude.Results.{ok, err, done, fail, ◌>>=◌, ◌>>◌, pure, throw, check}
use schooner.Box.Types.{Record, Error, new_error, is_not_found, BoxResult}
use schooner.Box.Service.{Inventory, Flow, on_store, on_env, read_store}
use schooner.Box.Service.Maintain.{remove_box}
use schooner.Acquisition.Types.{ResourceRef, Resource, digital_ocean, is_complete, DestroyOperation}
use schooner.Acquisition.Service.{
  Operations, Cloud, DestroyResult, failure_checkpoint, clock, ignoring,
}

unfoldable pub ref_of : Record → ResourceRef
ref_of r = record {
  provider = r.provider;
  resource_id = r.provider_resource_id;
  correlation_id = r.provider_correlation_id;
  profile = r.credential_profile;
}

unfoldable pub destroyable : Record → BoxResult (Unit {0})
destroyable r =
    if r.acquisition != "provisioned" || r.provider != digital_ocean
    then err
        (new_error "unsupported" "only provider-provisioned DigitalOcean boxes can be destroyed")
    else if is_complete (ref_of r)
    then ok tt
    else err (new_error "conflict" "box has an incomplete provider resource reference")

abbrev pub is_other : ResourceRef → Resource → Bool
is_other ref found = found.id != ref.resource_id || found.correlation_id != ref.correlation_id

module _ {S R : Type 0} (ops : Operations S) (inv : Inventory S) (cloud : Cloud R) where
  abbrev pub destroy_operation : Record → ℕ → DestroyOperation
  destroy_operation r t = record {
    box_id = r.id;
    name = r.name;
    resource = ref_of r;
    checkpoint = "requested";
    updated_at = t;
  }

  unfoldable pub checkpointed : DestroyOperation → String → Flow S R (Unit {0})
  checkpointed op name = do
    t ← clock cloud
    on_store (ops.checkpoint_destroy (record op { checkpoint = name; updated_at = t }))

  -- A failure that is written to the store, if the store can.
  unfoldable pub failed_with : {A : Type 0} → DestroyOperation → Error → Flow S R A
  failed_with op e = ignoring (checkpointed op (failure_checkpoint e)) >>= λ _. throw e

  -- The machine is gone when this succeeds.
  unfoldable pub confirm_destroyed : DestroyOperation → String → Flow S R (Unit {0})
  confirm_destroyed op token w =
      elim (on_env {S = S} (cloud.inspect_resource token op.resource) w) [
        | fail e v ↦ if is_not_found e then done tt v else failed_with op e v
        | done found v ↦
            if is_other op.resource found
            then fail
                (new_error "conflict"
                  "DigitalOcean resource verification did not match the recorded box")
                v
            else elim (on_env {S = S} (cloud.destroy_resource token op.resource) v) [
              | done x u ↦ done tt u
              | fail e u ↦ failed_with op e u
            ]
      ]

  unfoldable pub forget : DestroyOperation → String → Record → Flow S R DestroyResult
  forget op name r = do
    checkpointed op "confirmed_destroyed"
    removed ← remove_box inv name
    on_store (ops.complete_destroy r.id)
    pure (record { box = removed.box; resource = ref_of r; local_removed = true })

  unfoldable pub destroy_box : String → Flow S R DestroyResult
  destroy_box name = do
    r ← read_store (ops.find_by_name name)
    check (destroyable r)
    credential ← on_env (cloud.resolve_credential r.credential_profile)
    t ← clock cloud
    let op = destroy_operation r t
    on_store (ops.begin_destroy op)
    confirm_destroyed op credential.token
    forget op name r
