-- ===== src/Transfer/Pages.antt =====
-- internal/workspacetransfer/push.go, preflightPageEnd: where a page of the manifest ends. The length
-- of the JSON text of an entry is an argument, a function of the entry that may fail.
use schooner.Prelude.{
  ℕ, zero, suc, ◌+◌, ◌*◌, Bool, true, false, ◌&&◌, List, [], ◌∷◌, ltb, if◌then◌else◌,
}
use schooner.Prelude.Results.{Result, ok, err}
use schooner.Repository.Checkout.{CheckoutFile}
use schooner.Transfer.{TransferError, other_error}

abbrev pub maximum_encoded_files : ℕ
maximum_encoded_files = 768 * 1024

module _ (encoded : CheckoutFile → Result TransferError ℕ) where
  -- How many of the files the page takes, where it has files already (`end > start`) of this size.
  unfoldable pub page_length : Bool → ℕ → List CheckoutFile → Result TransferError ℕ
  page_length begun size [] = ok 0
  page_length begun size (file ∷ rest) = elim (encoded file) [
    | err e ↦ err (other_error "encode workspace preflight manifest" false)
    | ok length ↦
        let more = page_length true (size + (length + 1)) rest in
        if begun && ltb maximum_encoded_files (size + length + 1)
        then ok 0
        else elim more [ err e ↦ err e | ok count ↦ ok (suc count) ]
  ]

  unfoldable pub preflight_page_end : List CheckoutFile → Result TransferError ℕ
  preflight_page_end = page_length false 0

-- `files[:count]` and `files[count:]`
unfoldable pub take : {A : Type 0} → ℕ → List A → List A
take zero xs = []
take (suc n) [] = []
take (suc n) (x ∷ xs) = x ∷ take n xs

unfoldable pub drop : {A : Type 0} → ℕ → List A → List A
drop zero xs = xs
drop (suc n) [] = []
drop (suc n) (x ∷ xs) = drop n xs
