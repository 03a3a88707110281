-- ===== src/Transfer/PushSound.antt =====
-- What a push of internal/workspacetransfer/push.go does on each path, for any remote and any
-- repository package that keep the laws of Transfer/PushLaws.
use Prim.Native.String.{String}
use schooner.Prelude.{Bool, true, false, Option, none, some, string_eq, ◌≡◌}
use schooner.Prelude.Results.{Holds}
use schooner.Repository.Checkout.{CheckoutState, CheckoutCapture}
use schooner.Transfer.{Failure}
use schooner.Transfer.Push.{Remote, Local, PushRequest, PushResult, Push}
use schooner.Transfer.PushLaws.{PushLaws, IsStopped, IsSound}

module _ {R : Type 0} {P Q : R → Type 0} {Seen : Option CheckoutState → Type 0}
    {Ancestor : String → String → String → Type 0} {Passes : String → CheckoutState → Bool → Type 0}
    {remote : Remote R} {host : Local R} (laws : PushLaws P Q Seen Ancestor Passes remote host)
    (request : PushRequest) where
  abbrev Stops : Failure PushResult → R → Type 0
  Stops = IsStopped P Q Seen Ancestor Passes request

  abbrev Sound : PushResult → R → Type 0
  Sound = IsSound P Q Seen Ancestor Passes request

  -- What a call reports whose result may be the last.
  Late : Push R PushResult → Type 0
  Late m = (w : R) → P w → Holds (m w) Sound Stops

  -- The capture is there exactly where the push is no dry run.
  Captured : Option CheckoutCapture → Type 0
  Captured capture =
      (capture ≡ none → request.dry_run ≡ true)
      × ((c : CheckoutCapture) → capture ≡ some c → request.dry_run ≡ false)
