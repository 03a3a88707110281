-- ===== src/Inventory/Workflows.antt =====
-- internal/box/service.go over internal/inventory/sqlite/store.go: what a workflow leaves in the
-- store.
use schooner.Prelude.{◌≡◌}
use schooner.Prelude.Results.{ok, done}
use schooner.Box.Types.{AddRequest, AddResult}
use schooner.Box.Service.{Runtime, World}
use schooner.Box.Service.Add.{add}
use schooner.Box.Service.Success.{AddedIn, add-AddedIn, nothing-Tells}
use schooner.Inventory.{Store, find_by_name, find_by_id, find_by_remote_identity, box_row}
use schooner.Inventory.Laws.{complete_add-IsRegistered}
use schooner.Inventory.Interface.{inventory}

-- What a successful Add leaves.
pub record IsStored (req : AddRequest) (res : AddResult) (s : Store) : Type 0 where
  pub by_name : find_by_name res.box.name s ≡ ok (box_row res.box)
  pub by_id : find_by_id res.box.id s ≡ ok (box_row res.box)
  pub by_identity : find_by_remote_identity res.box.remote_identity s ≡ ok (box_row res.box)
  pub named : res.box.name ≡ req.name

module _ {R : Type 0} (rt : Runtime R) (req : AddRequest) where
  -- A box that Add returns has the name that was asked for and is in the store that Add leaves: it
  -- is found by its name, by its identifier and by the identity of its machine.
  pub add-IsStored :
      (w v : World Store R) (res : AddResult)
      → add inventory rt req w ≡ done res v
      → IsStored req res v.store
  add-IsStored w v res h =
      let added : AddedIn (λ c host root identity seen r. Unit {0}) (λ c asked root. Unit {0})
          inventory rt req res v.store v.env =
        rw h at (add-AddedIn inventory rt (nothing-Tells rt) req w) in
      let (is_added, shown, rooted, (op, seen, of_box, capabilities, write)) = added in
      let registered = complete_add-IsRegistered op res.box seen write.0 v.store write.1 in
      record {
        by_name = registered.by_name;
        by_id = registered.by_id;
        by_identity = registered.by_identity;
        named = is_added.named;
      }
