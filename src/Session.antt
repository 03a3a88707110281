-- ===== src/Session.antt =====
-- The observed sessions of internal/session/tmux.go. A time is a number, 0 for the zero time.
use Prim.Native.String.{String}
use schooner.Prelude.{ℕ, Bool, List}

pub data Ownership : Type 0 where
  managed unmanaged ownership_invalid : Ownership

pub data AssociationState : Type 0 where
  live missing ambiguous unassociated : AssociationState

pub record Session : Type 0 where
  pub id : String
  pub tmux_id : String
  pub name : String
  pub ownership : Ownership
  pub kind : String
  pub created_at : ℕ
  pub activity_at : ℕ
  pub attached_clients : ℕ
  pub worktree_path : String
  pub worktree_relative_path : String
  pub repository_common_directory : String
  pub association : AssociationState
  pub schooner_metadata : Bool
  pub legacy_metadata : Bool
  pub metadata_worktree_path : String
  pub observed_worktree_paths : List String

pub record SessionCatalog : Type 0 where
  pub worktree_root : String
  pub sessions : List Session
