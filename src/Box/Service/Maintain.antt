-- ===== src/Box/Service/Maintain.antt =====
-- The other workflows of service.go: Status, Setup, Update (the last two through `maintain`),
-- Remove, ListEntries and Get.
use Prim.Native.String.{String, ◌++◌ as str_append}
use schooner.Prelude.{
  ℕ, Bool, true, false, ◌||◌, List, [], ◌∷◌, ◌==◌, ◌!=◌, string_eq, if◌then◌else◌,
}
use schooner.Prelude.Results.{ok, err, done, fail, ◌>>=◌, ◌>>◌, pure, check}
use schooner.Box.Types.{
  resolve, connect, inspect, Connection, HostInstallMode, host_repair, host_update, Capabilities,
  Record, Observation, ListEntry, StatusResult, NamedRequest, SetupResult, UpdateResult,
  RemoveResult, Context, Error, coded, plain, new_error, error_code, BoxResult, is_not_found,
}
use schooner.Box.Validate.{validate_name}
use schooner.Box.Service.{
  Inventory, Runtime, Flow, on_store, on_env, read_store, valid, run_step, certify,
}
use schooner.Box.Service.Prepare.{HostPreparationRequest, prepare_host}
use schooner.Box.Service.Add.{tick}

abbrev pub recorded_connection : Record → Bool → Connection
recorded_connection r batch = record {
  destination = r.ssh_destination;
  identity_file = r.identity_file;
  accept_new_host_key = false;
  batch_mode = batch;
}

-- An assignment to an entry of a context.
unfoldable pub put : String → String → Context → Context
put k v [] = (k, v) ∷ []
put k v ((j, u) ∷ rest) = if j == k then (k, v) ∷ rest else (j, u) ∷ put k v rest

-- What Status makes of an error of the live check, given the last observation.
unfoldable pub with_last_seen : (ℕ → String) → Record → Observation → Error → Error
with_last_seen format_time r last e = annotated e
  where
    seen : Context → Context
    seen c = put "last_tmux" last.capabilities.tmux.version (
        put "last_git" last.capabilities.git.version (
          put "last_architecture" last.capabilities.architecture (
            put "last_os"
              (str_append last.capabilities.os_id (str_append " " last.capabilities.os_version))
              (put "last_observed_at" (format_time last.observed_at) (put "box" r.name c)))))

    annotated : Error → Error
    annotated (coded c message context) = coded c message (seen context)
    annotated (plain message) = coded "connection_failed" message (seen [])

unfoldable pub live_check_error : Error → Error
live_check_error e =
    if error_code e == "host_runtime_missing"
    then new_error "host_runtime_missing"
        "the host runtime is missing; run \"schooner box setup %s\""
    else if error_code e == "host_runtime_incompatible"
    then new_error "host_runtime_incompatible"
        "the host runtime is incompatible; run \"schooner box update %s\""
    else e

module _ {S R : Type 0} (inv : Inventory S) (rt : Runtime R) where
  module _ (format_time : ℕ → String) (req : NamedRequest) where
    unfoldable pub live_check : Record → Flow S R Capabilities
    live_check r = run_step req.progress connect "Check live box status" λ w.
        if r.runtime_path == ""
        then fail
            (new_error "host_runtime_missing"
              "the box does not have a recorded host runtime; run \"schooner box setup %s\"")
            w
        else elim (on_env
            (rt.inspect_host (recorded_connection r req.batch_mode)
              (record {
                path = r.runtime_path;
                version = "";
                protocol_version = "";
                capabilities = [];
              })
              r.worktree_root r.remote_identity)
            w) [ done c w' ↦ done c w' | fail e w' ↦ fail (live_check_error e) w' ]

    unfoldable pub matches_record : Record → Capabilities → BoxResult (Unit {0})
    matches_record r c =
        if c.remote_identity != r.remote_identity
        then err
            (coded "conflict" "the connected machine does not match the recorded box identity" [])
        else if c.worktree_root != r.worktree_root
        then err (
            new_error "conflict"
              "host worktree root differs from local inventory; run \"schooner box setup %s\"")
        else certify c

    unfoldable pub live_status : Record → Flow S R Capabilities
    live_status r w = elim (live_check r w) [
      | done c w' ↦ done c w'
      | fail e w' ↦ elim (inv.last_observation r.id w'.store) [
        | ok last ↦ fail (with_last_seen format_time r last e) w'
        | err e' ↦ fail e w'
      ]
    ]

    unfoldable pub status : Flow S R StatusResult
    status = do
      valid (validate_name req.name)
      r ← read_store (inv.find_by_name req.name)
      c ← live_status r
      check (matches_record r c)
      t ← tick rt
      let seen : Observation = record { box_id = r.id; observed_at = t; capabilities = c }
      on_store (inv.save_observation seen)
      pure (record { box = r; observation = seen })

  module _ (req : NamedRequest) (mode : HostInstallMode) (prerequisites : Bool) where
    abbrev pub recorded_path : HostInstallMode → Record → String
    recorded_path host_update r = r.runtime_path
    recorded_path host_repair r = ""

    unfoldable pub same_machine : Record → Capabilities → BoxResult (Unit {0})
    same_machine r c = elim (certify c) [
      | err e ↦ err e
      | ok x ↦
          if c.remote_identity == "" || c.remote_identity != r.remote_identity
          then err
              (coded "conflict" "the connected machine does not match the recorded box identity" [])
          else ok tt
    ]

    unfoldable pub inspect_recorded : Record → Flow S R Capabilities
    inspect_recorded r = run_step req.progress inspect "Inspect and verify the recorded box" do
      c ← on_env (rt.inspect (recorded_connection r req.batch_mode) r.worktree_root)
      check (same_machine r c)
      pure c

    unfoldable pub record_path : Record → String → Flow S R Record
    record_path r path =
        if r.runtime_path == path
        then pure r
        else on_store (inv.update_runtime_path r.id path) >> pure (record r { runtime_path = path })

    abbrev pub recorded_preparation : Record → Capabilities → HostPreparationRequest
    recorded_preparation r c = record {
      connection = recorded_connection r req.batch_mode;
      identity = r.remote_identity;
      runtime_path = recorded_path mode r;
      worktree_root = r.worktree_root;
      capabilities = c;
      install_mode = mode;
      prerequisites = prerequisites;
      progress = req.progress;
      identity_changed = "the connected machine does not match the recorded box identity";
    }

    unfoldable pub maintain : Flow S R SetupResult
    maintain = do
      valid (validate_name req.name)
      r ← read_store (inv.find_by_name req.name)
      run_step req.progress resolve "Resolve SSH destination"
          (on_env (rt.resolve (recorded_connection r req.batch_mode)))
      c ← inspect_recorded r
      prepared ← prepare_host rt (recorded_preparation r c)
      r' ← record_path r prepared.runtime_path
      t ← tick rt
      on_store (
          inv.save_observation
            (record { box_id = r.id; observed_at = t; capabilities = prepared.capabilities }))
      pure (record {
        box = r';
        capabilities = prepared.capabilities;
        host = prepared.host;
        installed = prepared.installed;
      })

  unfoldable pub setup : NamedRequest → Flow S R SetupResult
  setup req = maintain req host_repair true

  unfoldable pub update_host : NamedRequest → Flow S R UpdateResult
  update_host req = do
    result ← maintain req host_update false
    pure (record { box = result.box; capabilities = result.capabilities; host = result.host })

module _ {S R : Type 0} (inv : Inventory S) where
  unfoldable pub remove_box : String → Flow S R RemoveResult
  remove_box name = do
    valid (validate_name name)
    r ← on_store (inv.remove name)
    pure (record { box = r; remote_unchanged = true })

  unfoldable pub get_box : String → Flow S R Record
  get_box name = do valid (validate_name name); read_store (inv.find_by_name name)

  unfoldable pub prepare_ssh : NamedRequest → Flow S R Connection
  prepare_ssh req = do
    valid (validate_name req.name)
    r ← read_store (inv.find_by_name req.name)
    pure (recorded_connection r req.batch_mode)

module _ {S : Type 0} (inv : Inventory S) (s : S) where
  list_entry : Record → BoxResult Observation → BoxResult ListEntry
  list_entry r (ok o) = ok (record {
    box = r;
    reachable = true;
    last_observed_at = o.observed_at;
    has_observation = true;
  })
  list_entry r (err e) =
      if is_not_found e
      then ok (record { box = r; reachable = false; last_observed_at = 0; has_observation = false })
      else err e

  add_entry : BoxResult ListEntry → BoxResult (List ListEntry) → BoxResult (List ListEntry)
  add_entry (err e) rest = err e
  add_entry (ok x) (err e) = err e
  add_entry (ok x) (ok xs) = ok (x ∷ xs)

  unfoldable pub entries_of : List Record → BoxResult (List ListEntry)
  unfolding list_entry add_entry
  entries_of [] = ok []
  entries_of (r ∷ rs) = add_entry (list_entry r (inv.last_observation r.id s)) (entries_of rs)

  unfoldable pub list_entries : BoxResult (List ListEntry)
  unfolding entries_of
  list_entries = elim (inv.list_boxes s) [ ok rs ↦ entries_of rs | err e ↦ err e ]
