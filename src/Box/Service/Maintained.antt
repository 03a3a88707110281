-- ===== src/Box/Service/Maintained.antt =====
-- What Setup and Update of internal/box/service.go have established when they succeed.
use Prim.Native.String.{String}
use schooner.Prelude.{Bool, true, ◌≡◌, refl, sym, ◌==◌, string_eq, Bool-cases, inl, inr}
use mathlib.Core.Path.{subst}
use schooner.Prelude.Results.{pure, Holds, Holds-bind}
use schooner.Box.Types.{
  HostInstallMode, HostRuntime, Connection, Capabilities, NamedRequest, Record, SetupResult,
  resolve, Observation,
}
use schooner.Box.Validate.{validate_name}
use schooner.Box.Service.{Inventory, Runtime, World, on_store, on_env, read_store, valid, run_step}
use schooner.Box.Service.Prepare.{HostPreparationResult, prepare_host}
use schooner.Box.Service.Maintain.{
  recorded_connection, recorded_preparation, inspect_recorded, record_path, maintain,
}
use schooner.Box.Service.Yields.{Yields, Yields-then, Yields-bind, store-keeps}
use schooner.Box.Service.Success.{Tells, IsSupported, Prepared, prepare_host-IsReady}

-- The machine behind the result, as it is left, shows what the result says of it, is the recorded
-- one, is supported, and has a worktree root, prepared for the recorded one.
pub record IsMaintained {R : Type 0}
    (Shows : Connection → HostRuntime → String → String → Capabilities → R → Type 0)
    (Root : Connection → String → String → Type 0) (batch : Bool) (res : SetupResult) (r : R)
    : Type 0 where
  pub supported : IsSupported res.capabilities
  pub same_identity : res.capabilities.remote_identity ≡ res.box.remote_identity
  pub root_exists : res.capabilities.worktree_root_exists ≡ true
  pub rooted :
      Root (recorded_connection res.box batch) res.box.worktree_root res.capabilities.worktree_root
  pub shown :
      Shows
        (recorded_connection res.box batch)
        res.host.runtime
        res.capabilities.worktree_root
        res.box.remote_identity
        res.capabilities
        r

module _ {S R : Type 0}
    {Shows : Connection → HostRuntime → String → String → Capabilities → R → Type 0}
    {Root : Connection → String → String → Type 0} (inv : Inventory S) (rt : Runtime R)
    (tells : Tells Shows Root rt) (req : NamedRequest) (mode : HostInstallMode)
    (prerequisites : Bool) where
  -- The recorded box, except for its path.
  abbrev Same : Record → Record → Type 0
  Same r r' = (path : String) × (r' ≡ record r { runtime_path = path })

  record_path-Same :
      (Z : R → Type 0) (r : Record) (path : String) (w : World S R)
      → Z w.env
      → Holds
          (record_path {S = S} {R = R} inv rt req mode prerequisites r path w)
          (λ r' v. Same r r' × Z v.env)
          (λ _ _. Unit {0})
  unfolding record_path
  record_path-Same Z r path w z = elim (Bool-cases (r.runtime_path == path)) [
    | inl e ↦ rw (record_path, e) ((r.runtime_path, refl), z)
    | inr e ↦
        rw (record_path, e)
          (Holds-bind (λ _ v. Z v.env) (λ r' v. Same r r' × Z v.env) (λ _ _. Unit {0})
            (on_store (inv.update_runtime_path r.id path))
            (λ _. pure (record r { runtime_path = path })) w
            (store-keeps Z (inv.update_runtime_path r.id path) w z) (λ _ u z'. ((path, refl), z')))
  ]

  abbrev Maintained : SetupResult → R → Type 0
  Maintained = IsMaintained Shows Root req.batch_mode

  abbrev result_of : Record → HostPreparationResult → SetupResult
  result_of r prepared = record {
    box = r;
    capabilities = prepared.capabilities;
    host = prepared.host;
    installed = prepared.installed;
  }

  -- Where the recorded box is behind the result, so is the one with the new path.
  Prepared-Maintained :
      (r r' : Record) (c : Capabilities) (prepared : HostPreparationResult) (v : R)
      → Same r r'
      → Prepared Shows Root (recorded_preparation inv rt req mode prerequisites r c) prepared v
      → Maintained (result_of r' prepared) v
  Prepared-Maintained r r' c prepared v (path, same) (ready, shown, rooted) =
      subst (λ x. Maintained (result_of x prepared) v) (sym same)
        (record {
          supported = ready.supported;
          same_identity = ready.same_identity;
          root_exists = ready.root_exists;
          rooted =
              subst (Root (recorded_connection r req.batch_mode) r.worktree_root)
                (sym ready.same_root) rooted;
          shown =
              subst
                (λ root.
                  Shows (recorded_connection r req.batch_mode) prepared.host.runtime root
                    r.remote_identity prepared.capabilities v)
                (sym ready.same_root) shown;
        })

  -- A box that the maintenance behind Setup and Update returns is behind a machine that, as it is
  -- left, shows over the recorded connection what the result says of it: a supported system, the
  -- identity that is recorded of it, and a worktree root that exists and was prepared for the
  -- recorded one. What the machine shows is what an inspection of the host tells, and neither the
  -- clock nor drawing an identifier changes it.
  pub maintain-IsMaintained :
      Yields
        (maintain {S = S} {R = R} inv rt req mode prerequisites)
        (λ res s r. IsMaintained Shows Root req.batch_mode res r)
  unfolding maintain
  maintain-IsMaintained =
      let X = λ (res : SetupResult) (s : S) (r : R). Maintained res r in
      Yields-then X (valid (validate_name req.name)) _ λ _.
        Yields-then X (read_store (inv.find_by_name req.name)) _ λ r.
          Yields-then X
            (run_step req.progress resolve "Resolve SSH destination"
              (on_env (rt.resolve (recorded_connection r req.batch_mode))))
            _
            λ _. Yields-then X (inspect_recorded inv rt req mode prerequisites r) _ λ c.
              let request = recorded_preparation inv rt req mode prerequisites r c in
              Yields-bind X (prepare_host rt request) _ (λ p s v. Prepared Shows Root request p v)
                (prepare_host-IsReady tells request)
                λ prepared u ready.
                  Holds-bind (λ r' v. Same r r' × Prepared Shows Root request prepared v.env)
                    (λ res v. X res v.store v.env) (λ _ _. Unit {0})
                    (record_path inv rt req mode prerequisites r prepared.runtime_path) _ u
                    (record_path-Same (Prepared Shows Root request prepared) r prepared.runtime_path
                      u ready)
                    (λ r' v (same, (kept, shown, rooted)).
                      let now = rt.now v.env in
                      let v' : World S R = record v { env = now.1 } in
                      let seen : Observation = record {
                        box_id = r.id;
                        observed_at = now.0;
                        capabilities = prepared.capabilities;
                      } in
                      let left =
                        Prepared-Maintained r r' c prepared now.1 same
                          (kept, tells.ticks _ _ _ _ _ v.env shown, rooted) in
                      Holds-bind (λ _ x. Maintained (result_of r' prepared) x.env)
                        (λ res x. X res x.store x.env) (λ _ _. Unit {0})
                        (on_store (inv.save_observation seen)) (λ _. pure (result_of r' prepared))
                        v'
                        (store-keeps (Maintained (result_of r' prepared))
                          (inv.save_observation seen) v' left)
                        (λ _ x m. m))
