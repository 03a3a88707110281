-- ===== src/Box/Service/Success.antt =====
-- What a workflow of internal/box/service.go that succeeds has established: the machine is ready and
-- is the one that is recorded.
use Prim.Native.String.{String}
use schooner.Prelude.{ℕ, true, ◌≡◌, refl, ◌⊎◌, string_eq, arith}
use schooner.Prelude.Results.{
  ok, Outcome, done, fail, M, ◌>>=◌, pure, Holds, Holds-bind, Holds-const, check,
}
use schooner.Box.Types.{
  save, verify, Connection, Capabilities, Record, Observation, AddOperation, AddRequest, AddResult,
  Error, HostRuntime,
}
use schooner.Box.Service.{Inventory, Runtime, World, on_store, on_env, run_step, certify}
use schooner.Box.Service.Prepare.{
  HostPreparationRequest, HostPreparationResult, verified, verify_step, prepare_host,
  runtime_path_of, ensure_host_step, prerequisites_step, root_step, configure_step,
}
use schooner.Box.Service.Add.{
  tick, preflight, operation, establish, new_record, preparation_of, connection_of, root_of,
  result_of, save_box, converge, add,
}
use schooner.Box.Service.Yields.{
  Yields, Yields-then, Yields-bind, Yields-run_step, Holds-on_env, Holds-check, Holds-write,
}

-- What the calls of a runtime tell. `Shows` is what an inspection of the host tells of the machine as
-- it then is, and `Root` what the preparation of a worktree root tells of the root that it gives.
-- Reading the clock and drawing an identifier do not change the machine.
pub record Tells {R : Type 0}
    (Shows : Connection → HostRuntime → String → String → Capabilities → R → Type 0)
    (Root : Connection → String → String → Type 0) (rt : Runtime R) : Type 0 where
  pub inspects :
      (c : Connection) (host : HostRuntime) (root identity : String) (r : R)
      → Holds
          (rt.inspect_host c host root identity r)
          (λ seen v. Shows c host root identity seen v)
          (λ _ _. Unit {0})
  pub roots :
      (c : Connection) (asked : String) (r : R)
      → Holds (rt.ensure_worktree_root c asked r) (λ root v. Root c asked root) (λ _ _. Unit {0})
  pub ticks :
      (c : Connection) (host : HostRuntime) (root identity : String) (seen : Capabilities) (r : R)
      → Shows c host root identity seen r
      → Shows c host root identity seen (rt.now r).1
  pub draws :
      (c : Connection) (host : HostRuntime) (root identity : String) (seen : Capabilities) (r : R)
      → Shows c host root identity seen r
      → Holds (rt.new_id r) (λ id v. Shows c host root identity seen v) (λ _ _. Unit {0})

-- What any runtime tells.
pub nothing-Tells :
    {R : Type 0} (rt : Runtime R)
    → Tells (λ c host root identity seen r. Unit {0}) (λ c asked root. Unit {0}) rt
nothing-Tells rt = record {
  inspects = λ c host root identity r. Holds-const (rt.inspect_host c host root identity r) tt;
  roots = λ c asked r. Holds-const (rt.ensure_worktree_root c asked r) tt;
  ticks = λ c host root identity seen r s. tt;
  draws = λ c host root identity seen r s. Holds-const (rt.new_id r) tt;
}

-- The systems and architectures that are supported.
pub record IsSupported (c : Capabilities) : Type 0 where
  pub system : c.os_id ≡ "ubuntu"
  pub version : (c.os_version ≡ "24.04") ⊎ (c.os_version ≡ "26.04")
  pub architecture : (c.architecture ≡ "amd64") ⊎ (c.architecture ≡ "arm64")

certify-IsSupported : (c : Capabilities) → certify c ≡ ok tt → IsSupported c
unfolding certify
certify-IsSupported c h = record {
  system = ground (arith, string_eq.test_iff c.os_id "ubuntu");
  version =
      ground
        (arith, string_eq.test_iff c.os_version "24.04", string_eq.test_iff c.os_version "26.04");
  architecture =
      ground (
        arith,
        string_eq.test_iff c.architecture "amd64",
        string_eq.test_iff c.architecture "arm64",
      );
}

-- What the machine must report for a request and its root.
pub record IsReady (req : HostPreparationRequest) (root : String) (c : Capabilities) : Type 0 where
  pub supported : IsSupported c
  pub same_identity : c.remote_identity ≡ req.identity
  pub git_available : req.prerequisites ≡ true → c.git.available ≡ true
  pub tmux_available : req.prerequisites ≡ true → c.tmux.available ≡ true
  pub root_exists : c.worktree_root_exists ≡ true
  pub same_root : c.worktree_root ≡ root

verified-certified :
    (req : HostPreparationRequest) (root : String) (c : Capabilities)
    → verified req root c ≡ ok tt
    → certify c ≡ ok tt
unfolding verified
verified-certified req root c h = ground arith

verified-IsReady :
    (req : HostPreparationRequest) (root : String) (c : Capabilities)
    → verified req root c ≡ ok tt
    → IsReady req root c
unfolding verified
verified-IsReady req root c h = record {
  supported = certify-IsSupported c (verified-certified req root c h);
  same_identity = ground (arith, string_eq.test_iff c.remote_identity req.identity);
  git_available = λ e. ground arith;
  tmux_available = λ e. ground arith;
  root_exists = ground arith;
  same_root = ground (arith, string_eq.test_iff c.worktree_root root);
}

module _ {R : Type 0}
    (Shows : Connection → HostRuntime → String → String → Capabilities → R → Type 0) where
  abbrev pub Verified : HostPreparationRequest → HostRuntime → String → Capabilities → R → Type 0
  Verified req host root c r = IsReady req root c × Shows req.connection host root req.identity c r

module _ {R : Type 0}
    (Shows : Connection → HostRuntime → String → String → Capabilities → R → Type 0)
    (Root : Connection → String → String → Type 0) where
  -- What the machine shows when the preparation ends is what the result says and is ready, with the
  -- root that was prepared for the one that was asked for.
  abbrev pub Prepared : HostPreparationRequest → HostPreparationResult → R → Type 0
  Prepared req p r =
      IsReady req p.worktree_root p.capabilities
      × Shows req.connection p.host.runtime p.worktree_root req.identity p.capabilities r
      × Root req.connection req.worktree_root p.worktree_root

module _ {S R : Type 0}
    {Shows : Connection → HostRuntime → String → String → Capabilities → R → Type 0}
    {Root : Connection → String → String → Type 0} {rt : Runtime R} (tells : Tells Shows Root rt)
    (req : HostPreparationRequest) where
  verify_step-Verified :
      (host : HostRuntime) (root : String)
      → Yields {S = S} (verify_step rt req host root) (λ c s r. Verified Shows req host root c r)
  unfolding verify_step
  verify_step-Verified host root =
      let X = λ (c : Capabilities) (s : S) (r : R). Verified Shows req host root c r in
      let inspects = rt.inspect_host req.connection host root req.identity in
      Yields-run_step X req.progress verify _ _ (
        Yields-bind X (on_env inspects) _ (λ c s r. Shows req.connection host root req.identity c r)
          (λ w.
            Holds-on_env (λ c r. Shows req.connection host root req.identity c r) inspects w
              (tells.inspects req.connection host root req.identity w.env))
          (λ c u shown.
            Holds-bind
              (λ a v.
                (verified req root c ≡ ok a) × Shows req.connection host root req.identity c v.env)
              (λ b v. X b v.store v.env) (λ _ _. Unit {0}) (check (verified req root c))
              (λ _. pure c) u
              (Holds-check (λ v. Shows req.connection host root req.identity c v.env)
                (verified req root c) u shown)
              (λ a v (passed, still). (verified-IsReady req root c passed, still))))

  -- A host preparation that succeeds ends with a machine that then shows what the result says of
  -- it: it runs a supported system, carries the expected identity, has both tools if they were asked
  -- for, and has the worktree root that was prepared for the one that was asked for.
  pub prepare_host-IsReady :
      Yields {S = S} (prepare_host rt req) (λ p s r. Prepared Shows Root req p r)
  unfolding prepare_host root_step
  prepare_host-IsReady =
      let X = λ (p : HostPreparationResult) (s : S) (r : R). Prepared Shows Root req p r in
      Yields-then X (runtime_path_of rt req) _ λ path.
        Yields-then X (ensure_host_step rt req path) _ λ host.
          Yields-then X (prerequisites_step rt req) _ λ installed.
            Yields-bind X (root_step rt req) _
              (λ root s r. Root req.connection req.worktree_root root)
              (Yields-run_step (λ root s r. Root req.connection req.worktree_root root) req.progress
                _ _ _
                (λ w.
                  Holds-on_env (λ root r. Root req.connection req.worktree_root root)
                    (rt.ensure_worktree_root req.connection req.worktree_root) w
                    (tells.roots req.connection req.worktree_root w.env)))
              λ root u rooted.
                Yields-then X (configure_step rt req host.runtime root) _
                  (λ x.
                    Yields-bind X (verify_step rt req host.runtime root) _
                      (λ c s r. Verified Shows req host.runtime root c r)
                      (verify_step-Verified host.runtime root)
                      λ c v (ready, shown). (ready, shown, rooted))
                  u

-- A write to the store that succeeds.
abbrev pub Wrote : {S A : Type 0} → M S Error A → A → S → Type 0
Wrote {S} m a s = (before : S) × (m before ≡ done a s)

Wrote-Holds :
    {S A : Type 0} (m : M S Error A) (s : S) → Holds (m s) (λ a t. Wrote m a t) (λ _ _. Unit {0})
Wrote-Holds {S} {A} m s = finish (m s) refl
  where
    finish : (r : Outcome S Error A) → m s ≡ r → Holds r (λ a t. Wrote m a t) (λ _ _. Unit {0})
    finish (done a t) e = (s, e)
    finish (fail f t) e = tt

-- What Add has established when it succeeds.
pub record IsAdded (req : AddRequest) (res : AddResult) : Type 0 where
  pub named : res.box.name ≡ req.name
  pub supported : IsSupported res.capabilities
  pub same_identity : res.capabilities.remote_identity ≡ res.box.remote_identity
  pub git_available : res.capabilities.git.available ≡ true
  pub tmux_available : res.capabilities.tmux.available ≡ true
  pub root_exists : res.capabilities.worktree_root_exists ≡ true
  pub same_root : res.capabilities.worktree_root ≡ res.box.worktree_root

module _ {S R : Type 0}
    (Shows : Connection → HostRuntime → String → String → Capabilities → R → Type 0)
    (Root : Connection → String → String → Type 0) (inv : Inventory S) (rt : Runtime R)
    (req : AddRequest) where
  -- The machine shows what the result says of it.
  abbrev pub ShownAt : AddResult → R → Type 0
  ShownAt res r =
      (host : HostRuntime) × Shows (connection_of inv rt req) host res.box.worktree_root
        res.box.remote_identity res.capabilities r

  -- The box is established on the machine as it is left, and the last write is that of the box and
  -- of what was seen on it.
  abbrev pub AddedIn : AddResult → S → R → Type 0
  AddedIn res s r =
      IsAdded req res
      × ShownAt res r
      × Root (connection_of inv rt req) (root_of inv rt req) res.box.worktree_root
      × ((op : AddOperation) × (seen : Observation) × (seen.box_id ≡ res.box.id)
          × (seen.capabilities ≡ res.capabilities)
          × Wrote (inv.complete_add op res.box seen) tt s)

module _ {S R : Type 0}
    {Shows : Connection → HostRuntime → String → String → Capabilities → R → Type 0}
    {Root : Connection → String → String → Type 0} (inv : Inventory S) (rt : Runtime R)
    (tells : Tells Shows Root rt) (req : AddRequest) where
  save_box-AddedIn :
      (op : AddOperation) (box : Record) (prepared : HostPreparationResult) (now : ℕ)
      (w : World S R)
      → IsAdded req (result_of inv rt req box prepared)
      → ShownAt Shows Root inv rt req (result_of inv rt req box prepared) w.env
      → Root (connection_of inv rt req) (root_of inv rt req) box.worktree_root
      → Holds
          (save_box inv rt req op box prepared now w)
          (λ res v. AddedIn Shows Root inv rt req res v.store v.env)
          (λ _ _. Unit {0})
  unfolding save_box
  save_box-AddedIn op box prepared now w added shown rooted =
      let seen : Observation = record {
        box_id = box.id;
        observed_at = now;
        capabilities = prepared.capabilities;
      } in
      let write = inv.complete_add op box seen in
      let res = result_of inv rt req box prepared in
      let X =
        λ (a : Unit {0}) (s : S) (r : R). Wrote write a s × ShownAt Shows Root inv rt req res r in
      Holds-bind (λ a v. X a v.store v.env) (λ b v. AddedIn Shows Root inv rt req b v.store v.env)
        (λ _ _. Unit {0}) (run_step req.progress save "Save local inventory" (on_store write))
        (λ _. pure res) w
        (Holds-write (Wrote write) (ShownAt Shows Root inv rt req res) req.progress save
          "Save local inventory" write w (Wrote-Holds write) shown)
        (λ a v (wrote, still). (added, still, rooted, (op, seen, refl, refl, wrote)))

  converge-AddedIn :
      (c : Capabilities)
      → Yields {S = S} {R = R} (converge inv rt req c) (AddedIn Shows Root inv rt req)
  unfolding converge
  converge-AddedIn c =
      let X = AddedIn Shows Root inv rt req in
      Yields-then X (establish inv rt req c.remote_identity) _ λ machine.
        Yields-then X (tick rt) _ λ t.
          let op = operation inv rt req "identity" machine t in
          let request = preparation_of inv rt req c machine in
          Yields-then X (on_store (inv.checkpoint_add op)) _ λ x.
            Yields-bind X (prepare_host rt request)
              (λ prepared. tick rt >>= λ now. on_env rt.new_id >>= λ id.
                save_box inv rt req op (new_record inv rt req id machine prepared now) prepared now)
              (λ p s r. Prepared Shows Root request p r) (prepare_host-IsReady tells request)
              λ prepared u (ready, shown, rooted).
                let now = rt.now u.env in
                let u' : World S R = record u { env = now.1 } in
                let Still = λ (id : String) (r : R).
                  Shows (connection_of inv rt req) prepared.host.runtime prepared.worktree_root
                    machine prepared.capabilities r in
                Holds-bind (λ id v. Still id v.env) (λ res v. X res v.store v.env) (λ _ _. Unit {0})
                  (on_env rt.new_id)
                  (λ id.
                    save_box inv rt req op (new_record inv rt req id machine prepared now.0)
                      prepared now.0)
                  u'
                  (Holds-on_env Still rt.new_id u'
                    (tells.draws _ _ _ _ _ now.1 (tells.ticks _ _ _ _ _ u.env shown)))
                  (λ id v still.
                    save_box-AddedIn op (new_record inv rt req id machine prepared now.0) prepared
                      now.0 v
                      (record {
                        named = refl;
                        supported = ready.supported;
                        same_identity = ready.same_identity;
                        git_available = ready.git_available refl;
                        tmux_available = ready.tmux_available refl;
                        root_exists = ready.root_exists;
                        same_root = ready.same_root;
                      })
                      (prepared.host.runtime, still) rooted)

  -- A box that Add returns is established: the machine, as Add leaves it, shows over the connection
  -- of the request what the result says of it, which is a supported system, the recorded identity,
  -- both tools and the recorded worktree root, prepared for the one of the request; and the last
  -- change of the inventory is the completion that inserts the box with what was seen on it. What
  -- the machine shows is what an inspection of the host tells, and neither the clock nor drawing an
  -- identifier changes it.
  pub add-AddedIn : Yields {S = S} {R = R} (add inv rt req) (AddedIn Shows Root inv rt req)
  unfolding add
  add-AddedIn =
      let X = AddedIn Shows Root inv rt req in
      Yields-then X (preflight inv rt req) _ λ c. Yields-then X (tick rt) _ λ t.
        Yields-then X (on_store (inv.begin_add (operation inv rt req "" "" t))) _
          λ x. converge-AddedIn c
