-- ===== src/Repository/Checkout.antt =====
-- The state of a checkout and its manifest, of internal/repository/checkout.go.
use Prim.Native.String.{String}
use schooner.Prelude.{ℕ, Bool, List}
use schooner.Repository.{Status}

pub record CheckoutFile : Type 0 where
  pub path : String
  pub kind : String
  pub executable : Bool
  pub size : ℕ
  pub sha256 : String
  pub tracked : Bool

pub record CheckoutIndexEntry : Type 0 where
  pub path : String
  pub mode : String
  pub object : String

pub record CheckoutState : Type 0 where
  pub schema_version : String
  pub worktree : String
  pub head : String
  pub branch : String
  pub detached : Bool
  pub index_entries : List CheckoutIndexEntry
  pub index_count : ℕ
  pub absent_paths : List String
  pub absent_count : ℕ
  pub repository_identity : String
  pub clone_source : String
  pub status : Status
  pub files : List CheckoutFile
  pub file_count : ℕ
  pub digest : String
  pub revalidation_digest : String
  pub bytes : ℕ

pub record CheckoutCapture : Type 0 where
  pub state : CheckoutState
  pub payload_path : String
  pub payload_size : ℕ
  pub payload_sha256 : String

pub record ExtractedCheckout : Type 0 where
  pub state : CheckoutState
  pub directory : String
  pub objects_pack : String

pub record CheckoutTransactionOptions : Type 0 where
  pub expected_state_digest : String
  pub lock_state_directory : String
  pub staging_directory : String
  pub operation_created_branch : String
