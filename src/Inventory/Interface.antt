-- ===== src/Inventory/Interface.antt =====
-- The store of internal/inventory/sqlite as what the workflows of internal/box and
-- internal/acquisition see of it.
use schooner.Box.Service.{Inventory}
use schooner.Acquisition.Service.{Operations}
use schooner.Inventory.{
  Store, find_by_name, find_by_remote_identity, list_boxes, begin_add, checkpoint_add, complete_add,
  update_runtime_path, save_observation, last_observation, remove,
}
use schooner.Inventory.Operations.{
  find_provision, begin_provision, checkpoint_provision, complete_provision, begin_destroy,
  checkpoint_destroy, complete_destroy,
}

abbrev pub inventory : Inventory Store
inventory = record {
  find_by_name = find_by_name;
  find_by_remote_identity = find_by_remote_identity;
  list_boxes = list_boxes;
  begin_add = begin_add;
  checkpoint_add = checkpoint_add;
  complete_add = complete_add;
  update_runtime_path = update_runtime_path;
  save_observation = save_observation;
  last_observation = last_observation;
  remove = remove;
}

abbrev pub operations : Operations Store
operations = record {
  find_provision = find_provision;
  begin_provision = begin_provision;
  checkpoint_provision = checkpoint_provision;
  complete_provision = complete_provision;
  begin_destroy = begin_destroy;
  checkpoint_destroy = checkpoint_destroy;
  complete_destroy = complete_destroy;
  find_by_name = find_by_name;
  last_observation = last_observation;
}
