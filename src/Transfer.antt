-- ===== src/Transfer.antt =====
-- internal/workspacetransfer: the values that push and pull share. An error has its code, operation
-- and message; contexts and causes are left out, except whether the chain holds ENOSPC. A count that
-- Go subtracts is an integer of its own here, since subtraction of natural numbers stops at 0.
pub mod Pages
pub mod Push
pub mod Pull
pub mod Paging
pub mod PushLaws
pub mod PushSteps
pub mod PushSound
pub mod PullLaws
pub mod PullSound
mod Tests
use Prim.Native.String.{String, ◌++◌}
use schooner.Prelude.{
  ℕ, Bool, true, false, ◌&&◌, ◌||◌, Option, none, some, ◌==◌, ◌!=◌, string_eq, nat_eq, leb,
  if◌then◌else◌, ◌+◌, ◌-◌,
}
use schooner.Prelude.Results.{M, or_fail}
use schooner.Repository.{Status}
use schooner.Repository.Checkout.{CheckoutState}

pub data ℤ : Type 0 where
  pos : ℕ → ℤ
  negsuc : ℕ → ℤ

-- What Go's `a - b` is on integers that are not negative.
abbrev pub difference : ℕ → ℕ → ℤ
difference a b = if leb b a then pos (a - b) else negsuc (b - a - 1)

pub data Action : Type 0 where
  no_action would_push pushed would_pull pulled no_change conflict : Action

pub data TransferError : Type 0 where
  transfer_error : String → String → String → TransferError
  repository_error : String → String → Bool → TransferError
  other_error : String → Bool → TransferError

-- `repository.ErrorCode`
abbrev pub repository_code : TransferError → String
repository_code (transfer_error code operation message) = ""
repository_code (repository_error code message no_space) = code
repository_code (other_error message no_space) = ""

-- `err.Error()`
abbrev pub error_message : TransferError → String
error_message (transfer_error code operation message) = message
error_message (repository_error code message no_space) = message
error_message (other_error message no_space) = message

-- `errors.Is(err, syscall.ENOSPC)`
abbrev pub is_no_space : TransferError → Bool
is_no_space (transfer_error code operation message) = false
is_no_space (repository_error code message no_space) = no_space
is_no_space (other_error message no_space) = no_space

-- A call that fails returns its result so far, none for the zero value, beside the error.
abbrev pub Failure : Type 0 → Type 0
Failure A = Option A × TransferError

-- A call of the environment inside a function that has a result so far.
abbrev pub beside : {R A B : Type 0} → Option A → M R TransferError B → M R (Failure A) B
beside result = or_fail (λ e. (result, e))

unfoldable pub dirty : Status → Bool
dirty value =
    value.staged != 0 || value.unstaged != 0 || value.untracked != 0 || value.conflicted != 0

-- Whether two checkouts are known to be of different network repositories.
abbrev pub of_different_repositories : CheckoutState → CheckoutState → Bool
of_different_repositories source destination =
    source.repository_identity != ""
    && destination.repository_identity != ""
    && source.repository_identity != destination.repository_identity
