-- ===== src/Transfer/Paging.antt =====
-- The pages of preflightPageEnd and the loop of Push over them: the fuel is enough, and the pages are
-- what they are meant to be.
use schooner.Prelude.{
  ℕ, zero, suc, ◌+◌, ◌≤◌, Bool, true, false, ◌&&◌, List, [], ◌∷◌, ◌++◌, ◌≡◌, refl, ap, ◌∙◌, ◌⊎◌,
  inl, inr, All, length, ltb, if◌then◌else◌, arith, Bool-cases,
}
use schooner.Prelude.Results.{Result, ok, Outcome, done, fail, M, ◌>>=◌, pure}
use schooner.Repository.Checkout.{CheckoutFile}
use schooner.Transfer.{TransferError}
use schooner.Transfer.Pages.{page_length, preflight_page_end, take, drop, maximum_encoded_files}
use schooner.Transfer.Push.{
  Remote, Local, PushResult, PreflightResult, Push, preflight_page, preflight_pages,
}

>>=-cong :
    {W E A B : Type 0} (m : M W E A) (f g : A → M W E B) (w : W)
    → ((a : A) (v : W) → f a v ≡ g a v)
    → (m >>= f) w ≡ (m >>= g) w
>>=-cong {W} {E} {A} {B} m f g w same = step (m w)
  where
    step :
        (r : Outcome W E A)
        → ◌≡◌ {A = Outcome W E B}
            (elim r [ done a u ↦ f a u | fail e u ↦ fail e u ])
            (elim r [ done a u ↦ g a u | fail e u ↦ fail e u ])
    step (done a u) = same a u
    step (fail e u) = refl

abbrev pub concat : {A : Type 0} → List (List A) → List A
concat [] = []
concat (xs ∷ rest) = xs ++ concat rest

pub take-drop : {A : Type 0} (n : ℕ) (xs : List A) → take n xs ++ drop n xs ≡ xs
unfolding take drop
take-drop zero xs = refl
take-drop (suc n) [] = refl
take-drop (suc n) (x ∷ xs) = ap (λ r. x ∷ r) (take-drop n xs)

length-drop : {A : Type 0} (n : ℕ) (xs : List A) → length (drop n xs) ≤ length xs
unfolding drop
length-drop zero xs = omega arith
length-drop (suc n) [] = omega arith
length-drop (suc n) (x ∷ xs) = omega (arith, length-drop n xs)

-- The size of a page in JSON text, with a separator for each entry.
abbrev pub weight : (CheckoutFile → ℕ) → List CheckoutFile → ℕ
weight sizes [] = 0
weight sizes (file ∷ rest) = sizes file + 1 + weight sizes rest

-- A page has a file, and it fits into the bound unless that file is the only one.
abbrev pub Fits : (CheckoutFile → ℕ) → List CheckoutFile → Type 0
Fits sizes page =
    (1 ≤ length page) × ((weight sizes page ≤ maximum_encoded_files) ⊎ (length page ≡ 1))

abbrev pub IsPaging : (CheckoutFile → ℕ) → List CheckoutFile → List (List CheckoutFile) → Type 0
IsPaging sizes files pages = (concat pages ≡ files) × All (Fits sizes) pages

module _ (sizes : CheckoutFile → ℕ) where
  page_count : Bool → ℕ → List CheckoutFile → ℕ
  page_count begun size [] = 0
  page_count begun size (file ∷ rest) =
      let more = page_count true (size + (sizes file + 1)) rest in
      if begun && ltb maximum_encoded_files (size + sizes file + 1) then 0 else suc more

  page_length-count :
      (encoded : CheckoutFile → Result TransferError ℕ)
      → ((file : CheckoutFile) → encoded file ≡ ok (sizes file))
      → (begun : Bool) (size : ℕ) (files : List CheckoutFile)
      → page_length encoded begun size files ≡ ok (page_count begun size files)
  unfolding page_length page_count
  page_length-count encoded known begun size [] = refl
  page_length-count encoded known begun size (file ∷ rest) =
      rw
        (
          page_length,
          known file,
          page_length-count encoded known true (size + (sizes file + 1)) rest,
        )
        (ok-if (begun && ltb maximum_encoded_files (size + sizes file + 1)) _)
    where
      ok-if :
          (b : Bool) (n : ℕ)
          → ◌≡◌ {A = Result TransferError ℕ}
              (if b then ok 0 else ok (suc n))
              (ok (if b then 0 else suc n))
      ok-if true n = refl
      ok-if false n = refl

  page_fits :
      (size : ℕ) (files : List CheckoutFile)
      → (page_count true size files ≡ 0)
        ⊎ (size + weight sizes (take (page_count true size files) files) ≤ maximum_encoded_files)
  unfolding page_count take
  page_fits size [] = inl refl
  page_fits size (file ∷ rest) =
      elim (Bool-cases (ltb maximum_encoded_files (size + sizes file + 1))) [
        | inl e ↦ inl (rw e refl)
        | inr e ↦ inr (rw e (finish (page_fits (size + (sizes file + 1)) rest) e))
      ]
    where
      finish :
          {n : ℕ}
          → (n ≡ 0) ⊎ (size + (sizes file + 1) + weight sizes (take n rest) ≤ maximum_encoded_files)
          → ltb maximum_encoded_files (size + sizes file + 1) ≡ false
          → size + (sizes file + 1 + weight sizes (take n rest)) ≤ maximum_encoded_files
      finish {n} (inl z) e = rw z (ground arith)
      finish {n} (inr le) e = ground arith

  -- The page that a loop takes from a list with files.
  abbrev next_count : CheckoutFile → List CheckoutFile → ℕ
  next_count file rest = suc (page_count true (0 + (sizes file + 1)) rest)

  page_end-count :
      (encoded : CheckoutFile → Result TransferError ℕ)
      → ((file : CheckoutFile) → encoded file ≡ ok (sizes file))
      → (file : CheckoutFile) (rest : List CheckoutFile)
      → preflight_page_end encoded (file ∷ rest) ≡ ok (next_count file rest)
  unfolding preflight_page_end page_count
  page_end-count encoded known file rest = page_length-count encoded known false 0 (file ∷ rest)

  next-Fits :
      (file : CheckoutFile) (rest : List CheckoutFile)
      → Fits sizes (take (next_count file rest) (file ∷ rest))
  unfolding take
  next-Fits file rest = finish (page_fits (0 + (sizes file + 1)) rest)
    where
      finish :
          {n : ℕ}
          → (n ≡ 0) ⊎ (0 + (sizes file + 1) + weight sizes (take n rest) ≤ maximum_encoded_files)
          → Fits sizes (take (suc n) (file ∷ rest))
      finish {n} (inl z) = rw z (omega arith, inr refl)
      finish {n} (inr le) = (omega arith, inl (ground arith))

-- One preflight for each page, in order, and the sum of what they count.
module _ {R : Type 0} (remote : Remote R) (host : Local R) where
  abbrev added : PreflightResult → PreflightResult → PreflightResult
  added comparison page = record {
    existing_files = comparison.existing_files + page.existing_files;
    matching_files = comparison.matching_files + page.matching_files;
  }

  abbrev pub preflight_each :
      PushResult → Bool → List (List CheckoutFile) → PreflightResult → Push R PreflightResult
  preflight_each result first [] comparison = pure comparison
  preflight_each result first (page ∷ pages) comparison =
      preflight_page remote host result (record result.source { files = page }) first >>= λ counted.
      preflight_each result false pages (added comparison counted)

  abbrev IsRun : ℕ → PushResult → List CheckoutFile → List (List CheckoutFile) → Type 0
  IsRun fuel result files pages =
      (first : Bool) (comparison : PreflightResult) (w : R)
      → preflight_pages remote host fuel result first files comparison w
        ≡ preflight_each result first pages comparison w

  preflight_pages-IsRun :
      (sizes : CheckoutFile → ℕ)
      → ((file : CheckoutFile) → host.encoded file ≡ ok (sizes file))
      → (fuel : ℕ) (result : PushResult) (files : List CheckoutFile) → length files ≤ fuel
      → (pages : List (List CheckoutFile)) × IsPaging sizes files pages
        × IsRun fuel result files pages
  unfolding preflight_pages drop
  preflight_pages-IsRun sizes known zero result [] enough = ([], (refl, tt), λ first c w. refl)
  preflight_pages-IsRun sizes known (suc fuel) result [] enough =
      ([], (refl, tt), λ first c w. refl)
  preflight_pages-IsRun sizes known zero result (file ∷ rest) enough = absurd (omega arith)
  preflight_pages-IsRun sizes known (suc fuel) result (file ∷ rest) enough =
      let count = page_count sizes true (0 + (sizes file + 1)) rest in
      let (pages, (covers, fit), run) =
        preflight_pages-IsRun sizes known fuel result (drop count rest)
          (omega (arith, length-drop count rest)) in
      let covered : take (suc count) (file ∷ rest) ++ concat pages ≡ file ∷ rest =
        ap (λ r. take (suc count) (file ∷ rest) ++ r) covers
        ∙ take-drop (suc count) (file ∷ rest) in
      (
        take (suc count) (file ∷ rest) ∷ pages,
        (covered, (next-Fits sizes file rest, fit)),
        λ first comparison w.
            rw (preflight_pages, page_end-count sizes host.encoded known file rest)
              (>>=-cong
                (preflight_page remote host result
                  (record result.source { files = take (suc count) (file ∷ rest) }) first)
                _ _ w (λ counted v. run false (added comparison counted) v)),
      )

  -- Where every manifest entry can be encoded, the loop over the pages runs out of no fuel: it is one
  -- preflight for each page of a division of the manifest, in order, and every page has an entry and
  -- at most 768 KiB of encoded entries, unless one entry alone is larger.
  pub preflight_pages-IsPaging :
      (sizes : CheckoutFile → ℕ)
      → ((file : CheckoutFile) → host.encoded file ≡ ok (sizes file))
      → (result : PushResult) (files : List CheckoutFile)
      → (pages : List (List CheckoutFile)) × IsPaging sizes files pages
        × ((first : Bool) (comparison : PreflightResult) (w : R)
            → preflight_pages remote host (length files) result first files comparison w
              ≡ preflight_each result first pages comparison w)
  preflight_pages-IsPaging sizes known result files =
      preflight_pages-IsRun sizes known (length files) result files (omega arith)
