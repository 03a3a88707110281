-- ===== src/Credentials/Reach.antt =====
-- Sequences of the changing calls of the Manager of internal/credentials/credentials.go.
use Prim.Native.String.{String}
use schooner.Prelude.{Bool, List, [], ◌∷◌, string_eq}
use schooner.Prelude.Results.{Outcome, done, fail, Holds}
use schooner.Box.Types.{Error}
use schooner.Credentials.Manager.{Vault, Manager, disconnect}
use schooner.Credentials.Resolve.{resolve_profile_credential}
use schooner.Credentials.Connect.{connect}
use schooner.Prelude.{◌≢◌, refl}
use schooner.Credentials.Settled.{Good}
use schooner.Credentials.Ends.{Ends, disconnect-Ends, resolve_profile_credential-Ends, connect-Ends}

pub data ManagerCall : Type 0 where
  call_connect : String → String → Bool → Bool → ManagerCall
  call_resolve : String → ManagerCall
  call_disconnect : String → ManagerCall

abbrev pub state_after : {R A : Type 0} → Outcome (Manager R) Error A → Manager R
state_after (done a w) = w
state_after (fail e w) = w

module _ {R : Type 0} (vault : Vault R) where
  abbrev pub run_call : ManagerCall → Manager R → Manager R
  run_call (call_connect name token store default) w =
      state_after (connect vault name token store default w)
  run_call (call_resolve ref) w = state_after (resolve_profile_credential vault ref w)
  run_call (call_disconnect ref) w = state_after (disconnect vault ref w)

  unfoldable pub run_manager : List ManagerCall → Manager R → Manager R
  run_manager [] w = w
  run_manager (c ∷ rest) w = run_manager rest (run_call c w)

  state_after-Good :
      (ref e : String) {A : Type 0} (r : Outcome (Manager R) Error A)
      → Holds r (λ a v. Good ref e v.rows) (λ x v. Good ref e v.rows)
      → Good ref e (state_after r).rows
  state_after-Good ref e (done a w) h = h
  state_after-Good ref e (fail x w) h = h

  run_call-Good :
      (ref e : String)
      → e ≢ ""
      → (c : ManagerCall) (w : Manager R) → Good ref e w.rows
      → Good ref e (run_call c w).rows
  unfolding Ends
  run_call-Good ref e known (call_connect name token store default) w h =
      state_after-Good ref e (connect vault name token store default w)
        (connect-Ends vault ref e known w.rows h name token store default w refl)
  run_call-Good ref e known (call_resolve asked) w h =
      state_after-Good ref e (resolve_profile_credential vault asked w)
        (resolve_profile_credential-Ends vault ref e known w.rows h asked w refl)
  run_call-Good ref e known (call_disconnect asked) w h =
      state_after-Good ref e (disconnect vault asked w)
        (disconnect-Ends vault ref e known w.rows h asked w refl)

  -- A profile that is bound to an account stays bound to it through any sequence of connecting,
  -- resolving and disconnecting, whatever the provider, the environment variable and the secret
  -- store do; and references, names and accounts of the stored profiles stay distinct, with at most
  -- one default profile.
  pub run_manager-Good :
      (ref e : String)
      → e ≢ ""
      → (calls : List ManagerCall) (w : Manager R) → Good ref e w.rows
      → Good ref e (run_manager calls w).rows
  unfolding run_manager
  run_manager-Good ref e known [] w h = h
  run_manager-Good ref e known (c ∷ rest) w h =
      run_manager-Good ref e known rest (run_call c w) (run_call-Good ref e known c w h)
