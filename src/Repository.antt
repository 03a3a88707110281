-- ===== src/Repository.antt =====
-- The observed repositories of internal/repository/repository.go and local.go. Counts are natural
-- numbers; a pointer that may be nil is an Option.
pub mod Checkout
use Prim.Native.String.{String}
use schooner.Prelude.{ℕ, Bool, List, Option}

pub record Status : Type 0 where
  pub staged : ℕ
  pub unstaged : ℕ
  pub untracked : ℕ
  pub conflicted : ℕ
  pub ignored : ℕ

abbrev pub clean_status : Status
clean_status = record { staged = 0; unstaged = 0; untracked = 0; conflicted = 0; ignored = 0 }

pub data WorktreeKind : Type 0 where
  kind_primary kind_linked : WorktreeKind

pub record Worktree : Type 0 where
  pub path : String
  pub relative_path : String
  pub git_directory : String
  pub kind : WorktreeKind
  pub branch : String
  pub detached : Bool
  pub head : String
  pub status : Status

pub record Repository : Type 0 where
  pub common_directory : String
  pub origin : String
  pub primary : Option Worktree
  pub linked : List Worktree

pub record Warning : Type 0 where
  pub path : String
  pub message : String

pub record Catalog : Type 0 where
  pub worktree_root : String
  pub repositories : List Repository
  pub warnings : List Warning

pub record LocalCheckout : Type 0 where
  pub top_level : String
  pub origin : String
  pub origin_key : String
  pub clone_source : String
  pub branch : String
  pub detached : Bool
  pub head : String
  pub upstream : String
  pub ahead : ℕ
  pub behind : ℕ
  pub status : Status
