-- ===== src/Page/Cover.antt =====
-- The pages of `pageSlice` cover the list.
use argus_observability.Prelude.{
  ℕ, zero, suc, ◌+◌, ◌-◌, ◌*◌, ◌≤◌, ◌<◌, min, max, ◌≡◌, refl, sym, ap, ◌∙◌, List, [], ◌∷◌, ◌++◌,
  arith, length, take, drop, take_all,
}
use argus_observability.Page.{page_count, page_slice}
use argus_observability.Page.Bounds.{page_count_bounds}

-- The rows of pages 1 to k, one page after the other.
pub pages_upto {ℓ} : {T : Type ℓ} → List T → ℕ → ℕ → List T
pages_upto rows size zero = []
pages_upto rows size (suc k) = pages_upto rows size k ++ (page_slice rows (suc k) size).rows

take-nil {ℓ} : {T : Type ℓ} (n : ℕ) → take {A = T} n [] ≡ []
unfolding take
take-nil zero = refl
take-nil (suc n) = refl

take-zero {ℓ} : {T : Type ℓ} (xs : List T) → take 0 xs ≡ []
unfolding take
take-zero xs = refl

take-add {ℓ} :
    {T : Type ℓ} (m n : ℕ) (xs : List T) → take (m + n) xs ≡ take m xs ++ take n (drop m xs)
unfolding take drop
take-add zero n xs = let e : 0 + n ≡ n = omega arith in rw e
take-add (suc m) n [] = take-nil (suc m + n) ∙ sym (take-nil n)
take-add (suc m) n (x ∷ xs) =
    let e : suc m + n ≡ suc (m + n) = omega arith in rw e (ap (◌∷◌ x) (take-add m n xs))

-- A page between 1 and the page count is shown as asked.
page_rows {ℓ} :
    {T : Type ℓ} (rows : List T) (k size : ℕ)
    → suc k ≤ page_count (length rows) size
    → (page_slice rows (suc k) size).rows ≡ take size (drop (k * size) rows)
unfolding page_slice
page_rows rows k size h =
    let e : min (max (suc k) 1) (page_count (length rows) size) - 1 ≡ k = omega arith in rw e

pages_upto-eq-take {ℓ} :
    {T : Type ℓ} (rows : List T) (size k : ℕ)
    → k ≤ page_count (length rows) size
    → pages_upto rows size k ≡ take (k * size) rows
unfolding pages_upto
pages_upto-eq-take rows size zero h =
    let e : 0 * size ≡ 0 = omega arith in rw e (sym (take-zero rows))
pages_upto-eq-take rows size (suc k) h =
    let e : suc k * size ≡ k * size + size = omega arith in
    rw (e, take-add (k * size) size rows, page_rows rows k size h)
      (ap (λ l. l ++ take size (drop (k * size) rows))
        (pages_upto-eq-take rows size k (omega arith)))

-- For a positive size, the pages 1 to the page count, joined in order, are the whole list: no row is
-- skipped and none is shown twice.
pub pages_upto-page_count {ℓ} :
    {T : Type ℓ} (rows : List T) (size : ℕ)
    → 0 < size
    → pages_upto rows size (page_count (length rows) size) ≡ rows
pages_upto-page_count rows size h =
    let count = page_count (length rows) size in
    let (one, cover, last) = page_count_bounds (length rows) size h in
    pages_upto-eq-take rows size count (omega arith) ∙ take_all (count * size) rows cover
