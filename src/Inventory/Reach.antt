-- ===== src/Inventory/Reach.antt =====
-- internal/inventory/sqlite/store.go: the inventory after any sequence of the calls that change it.
use Prim.Native.String.{String}
use schooner.Prelude.{List, [], ◌∷◌}
use schooner.Box.Types.{Record, Observation, AddOperation}
use schooner.Inventory.{
  Store, empty_store, set_default, begin_add, checkpoint_add, complete_add, save_observation,
  update_runtime_path, remove,
}
use schooner.Inventory.Valid.{
  IsValid, left_by, set_default-IsValid, begin_add-IsValid, checkpoint_add-IsValid,
  complete_add-IsValid, save_observation-IsValid, update_runtime_path-IsValid, remove-IsValid,
}
use schooner.Inventory.Operations.{
  begin_provision, checkpoint_provision, complete_provision, begin_destroy, checkpoint_destroy,
  complete_destroy,
}
use schooner.Inventory.Recorded.{
  begin_provision-IsValid, checkpoint_provision-IsValid, complete_provision-IsValid,
  begin_destroy-IsValid, checkpoint_destroy-IsValid, complete_destroy-IsValid,
}
use schooner.Acquisition.Types.{ProvisionOperation, DestroyOperation}

pub data Call : Type 0 where
  calls_set_default : String → Call
  calls_begin_add calls_checkpoint_add : AddOperation → Call
  calls_complete_add : AddOperation → Record → Observation → Call
  calls_save_observation : Observation → Call
  calls_update_runtime_path : String → String → Call
  calls_remove : String → Call
  calls_begin_provision calls_checkpoint_provision : ProvisionOperation → Call
  calls_complete_provision : ProvisionOperation → String → Call
  calls_begin_destroy calls_checkpoint_destroy : DestroyOperation → Call
  calls_complete_destroy : String → Call

-- A call that fails leaves a store too.
unfoldable pub run_call : Call → Store → Store
run_call (calls_set_default name) s = left_by (set_default name s)
run_call (calls_begin_add op) s = left_by (begin_add op s)
run_call (calls_checkpoint_add op) s = left_by (checkpoint_add op s)
run_call (calls_complete_add op r o) s = left_by (complete_add op r o s)
run_call (calls_save_observation o) s = left_by (save_observation o s)
run_call (calls_update_runtime_path id path) s = left_by (update_runtime_path id path s)
run_call (calls_remove name) s = left_by (remove name s)
run_call (calls_begin_provision op) s = left_by (begin_provision op s)
run_call (calls_checkpoint_provision op) s = left_by (checkpoint_provision op s)
run_call (calls_complete_provision op id) s = left_by (complete_provision op id s)
run_call (calls_begin_destroy op) s = left_by (begin_destroy op s)
run_call (calls_checkpoint_destroy op) s = left_by (checkpoint_destroy op s)
run_call (calls_complete_destroy id) s = left_by (complete_destroy id s)

unfoldable pub run_calls : List Call → Store → Store
unfolding run_call
run_calls [] s = s
run_calls (c ∷ cs) s = run_calls cs (run_call c s)

run_call-IsValid : (c : Call) (s : Store) → IsValid s → IsValid (run_call c s)
unfolding run_call
run_call-IsValid (calls_set_default name) s v = set_default-IsValid name s v
run_call-IsValid (calls_begin_add op) s v = begin_add-IsValid op s v
run_call-IsValid (calls_checkpoint_add op) s v = checkpoint_add-IsValid op s v
run_call-IsValid (calls_complete_add op r o) s v = complete_add-IsValid op r o s v
run_call-IsValid (calls_save_observation o) s v = save_observation-IsValid o s v
run_call-IsValid (calls_update_runtime_path id path) s v = update_runtime_path-IsValid id path s v
run_call-IsValid (calls_remove name) s v = remove-IsValid name s v
run_call-IsValid (calls_begin_provision op) s v = begin_provision-IsValid op s v
run_call-IsValid (calls_checkpoint_provision op) s v = checkpoint_provision-IsValid op s v
run_call-IsValid (calls_complete_provision op id) s v = complete_provision-IsValid op id s v
run_call-IsValid (calls_begin_destroy op) s v = begin_destroy-IsValid op s v
run_call-IsValid (calls_checkpoint_destroy op) s v = checkpoint_destroy-IsValid op s v
run_call-IsValid (calls_complete_destroy id) s v = complete_destroy-IsValid id s v

empty-IsValid : IsValid empty_store
empty-IsValid = record {
  names = tt;
  ids = tt;
  identities = tt;
  one_default = tt;
  references = tt;
  observed_once = tt;
  reserved_once = tt;
}

calls-IsValid : (cs : List Call) (s : Store) → IsValid s → IsValid (run_calls cs s)
unfolding run_calls
calls-IsValid [] s v = v
calls-IsValid (c ∷ cs) s v = calls-IsValid cs (run_call c s) (run_call-IsValid c s v)

-- Whatever sequence of the calls for boxes, observations, reservations, and operations of provisioning
-- and destruction is made on a new inventory, with whatever success: no two boxes share a name, an
-- identifier or a remote identity, at most one box is the default, every cached observation is of a
-- registered box and the only one of it, and a name is reserved at most once.
pub run_calls-IsValid : (cs : List Call) → IsValid (run_calls cs empty_store)
run_calls-IsValid cs = calls-IsValid cs empty_store empty-IsValid
