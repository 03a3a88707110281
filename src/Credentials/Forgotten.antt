-- ===== src/Credentials/Forgotten.antt =====
-- What Disconnect of internal/credentials/credentials.go leaves.
use Prim.Native.String.{String}
use mathlib.Core.Path.{subst}
use schooner.Prelude.{
  ℕ, List, Option, none, some, ◌!=◌, string_eq, ◌≡◌, ◌⊎◌, refl, inl, inr, if◌then◌else◌, arith, Mem,
  eq_of_==, ==-refl, ◌∙◌,
}
use schooner.Prelude.Results.{
  ok, Outcome, done, fail, ◌>>=◌, pure, query, Holds, Holds-bind, Holds-if,
}
use schooner.Prelude.Steps.{after_step, query-Advances}
use schooner.Prelude.Table.{find, find_passes}
use schooner.Prelude.Table.Found.{find-Mem}
use schooner.Box.Types.{Error, new_error}
use schooner.Credentials.{status_action_required, Profile}
use schooner.Credentials.Rows.{
  referred, scan_profile, find_credential_profile, save_credential_profile,
}
use schooner.Credentials.Written.{IsWritten, save_credential_profile-IsWritten}
use schooner.Credentials.Manager.{
  Vault, Manager, on_rows, set_ephemeral, put_token, read_clock, delete_stored, without_key,
  disconnected_profile, disconnect,
}

-- The stored profile of the reference had a key of which the secret is gone, or it had none.
abbrev pub WasForgotten : {R : Type 0} → (String → R → Type 0) → String → List Profile → R → Type 0
WasForgotten Gone ref before r =
    (old : Profile) × Mem old before
    × (old.ref ≡ ref)
    × ((old.credential_key ≡ "") ⊎ Gone old.credential_key r)

-- A stored profile of the reference has no key.
abbrev pub HasNoKey : String → List Profile → Type 0
HasNoKey ref rows = (row : Profile) × Mem row rows × (row.ref ≡ ref) × (row.credential_key ≡ "")

module _ {R : Type 0} (Gone : String → R → Type 0) (vault : Vault R)
    (deletes : (key : String) (r : R)
      → Holds (vault.delete_secret key r) (λ x v. Gone key v) (λ e v. Unit {0}))
    (stays : (key : String) (r : R) → Gone key r → Gone key (vault.now r).1) (ref : String)
    (rows : List Profile) where
  abbrev IsForgotten : Profile → Manager R → Type 0
  IsForgotten p v =
      (p.status ≡ status_action_required)
      × (v.ephemeral ref ≡ "")
      × HasNoKey ref v.rows
      × WasForgotten Gone ref rows v.env

  abbrev Left : Error → Manager R → Type 0
  Left e w = w.rows ≡ rows

  KeyGone : Profile → Manager R → Type 0
  KeyGone p w = (w.rows ≡ rows) × ((p.credential_key ≡ "") ⊎ Gone p.credential_key w.env)

  of_scan :
      (o : Option Profile) (a : Profile)
      → ((b : Profile) → o ≡ some b → Mem b rows × (b.ref ≡ ref))
      → scan_profile o ref ≡ ok a
      → Mem a rows × (a.ref ≡ ref)
  of_scan none a within found = absurd (ground arith)
  of_scan (some b) a within found = within a (ground arith)

  delete-KeyGone :
      (p : Profile) (w : Manager R)
      → w.rows ≡ rows
      → Holds (delete_stored vault p.credential_key w) (λ x v. KeyGone p v) Left
  unfolding KeyGone
  delete-KeyGone p w same =
      finish (vault.delete_secret p.credential_key w.env) (deletes p.credential_key w.env)
    where
      finish :
          (r : Outcome R Error (Unit {0}))
          → Holds r (λ x v. Gone p.credential_key v) (λ e v. Unit {0})
          → Holds
              (elim r as (λ x. Outcome (Manager R) Error (Unit {0})) [
                | done x v ↦ done tt (record w { env = v })
                | fail e v ↦
                    fail
                      (new_error "internal"
                        "could not remove credential from operating-system storage")
                      (record w { env = v })
              ])
              (λ x v. KeyGone p v)
              Left
      finish (done x v) gone = (same, inr gone)
      finish (fail e v) gone = same

  save-Holds :
      (p : Profile) (time : ℕ) (w : Manager R)
      → Mem p rows
      → p.ref ≡ ref
      → KeyGone p w
      → w.ephemeral ref ≡ ""
      → Holds
          (on_rows {R = R} (save_credential_profile (without_key p time)) w)
          (λ x v. IsForgotten (disconnected_profile p time) v)
          Left
  unfolding KeyGone
  save-Holds p time w within of (same, gone) cleared =
      finish (save_credential_profile (without_key p time) w.rows)
        (save_credential_profile-IsWritten (without_key p time) w.rows)
    where
      finish :
          (r : Outcome (List Profile) Error (Unit {0}))
          → Holds r (λ x v. IsWritten (without_key p time) v) (λ e v. v ≡ w.rows)
          → Holds
              (elim r as (λ x. Outcome (Manager R) Error (Unit {0})) [
                | done x v ↦ done x (record w { rows = v })
                | fail e v ↦ fail e (record w { rows = v })
              ])
              (λ x v. IsForgotten (disconnected_profile p time) v)
              Left
      finish (done x v) (row, m, r, e, k) =
          (refl, cleared, (row, m, r ∙ of, k), (p, within, of, gone))
      finish (fail e v) kept = kept ∙ same

  after_delete :
      (p : Profile) (w : Manager R)
      → Mem p rows
      → p.ref ≡ ref
      → KeyGone p w
      → Holds
          ((set_ephemeral ref "" >>= λ x. read_clock vault >>= λ time.
              on_rows (save_credential_profile (without_key p time)) >>= λ y.
              pure (disconnected_profile p time))
            w)
          IsForgotten
          Left
  unfolding KeyGone
  after_delete p w within of (same, gone) =
      let time = (vault.now w.env).0 in
      let cleared : Manager R = record w {
        env = (vault.now w.env).1;
        ephemeral = put_token ref "" w.ephemeral;
      } in
      let still : (p.credential_key ≡ "") ⊎ Gone p.credential_key cleared.env = elim gone [
        | inl e ↦ inl e
        | inr g ↦ inr (stays p.credential_key w.env g)
      ] in
      Holds-bind (λ y v. IsForgotten (disconnected_profile p time) v) IsForgotten Left
        (on_rows (save_credential_profile (without_key p time)))
        (λ y. pure (disconnected_profile p time)) cleared
        (save-Holds p time cleared within of (same, still) (rw (==-refl ref) refl)) (λ y v h. h)

  disconnect-Holds :
      (w : Manager R) → w.rows ≡ rows → Holds (disconnect vault ref w) IsForgotten Left
  unfolding disconnect KeyGone find_credential_profile
  disconnect-Holds w same =
      after_step (λ v. v.rows ≡ rows) Left (λ p. Mem p rows × (p.ref ≡ ref)) IsForgotten
        (query (λ v. find_credential_profile ref v.rows)) _
        (query-Advances (λ v. v.rows ≡ rows) Left _ (λ v. find_credential_profile ref v.rows)
          (λ v a q e.
            of_scan (find (referred ref) v.rows) a
              (λ b found. (
                subst (Mem b) q (find-Mem (referred ref) v.rows found),
                eq_of_== (find_passes (referred ref) v.rows found),
              ))
              e)
          (λ e v q. q))
        (λ p (within, of) v q.
          Holds-bind (λ x u. KeyGone p u) IsForgotten Left
            (if p.credential_key != "" then delete_stored vault p.credential_key else pure tt) _ v
            (Holds-if (λ x u. KeyGone p u) Left (p.credential_key != "")
              (delete_stored vault p.credential_key) (pure tt) v (λ keyed. delete-KeyGone p v q)
              (λ bare. (q, inl (eq_of_== (ground arith)))))
            (λ x u gone. after_delete p u within of gone))
        w same

-- Where a deletion that succeeds takes the secret away and the clock does not bring it back,
-- Disconnect returns a profile only after the secret of the stored profile of its reference is gone,
-- with no key in the stored profile and no token left in the process. It fails with the stored
-- profiles as they were.
pub disconnect-IsForgotten :
    {R : Type 0} (Gone : String → R → Type 0) (vault : Vault R)
    → ((key : String) (r : R)
        → Holds (vault.delete_secret key r) (λ x v. Gone key v) (λ e v. Unit {0}))
    → ((key : String) (r : R) → Gone key r → Gone key (vault.now r).1)
    → (ref : String) (w : Manager R)
    → Holds
        (disconnect vault ref w)
        (λ p v.
          (p.status ≡ status_action_required)
          × (v.ephemeral ref ≡ "")
          × HasNoKey ref v.rows
          × WasForgotten Gone ref w.rows v.env)
        (λ e v. v.rows ≡ w.rows)
disconnect-IsForgotten Gone vault deletes stays ref w =
    disconnect-Holds Gone vault deletes stays ref w.rows w refl
