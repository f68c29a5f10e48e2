-- ===== src/Page.antt =====
-- web/src/lib/page.ts (page numbers, slices of a list, hub pages) and the buttons of
-- web/src/components/list-pager.tsx.
pub mod Bounds
pub mod Cover
pub mod Hub
mod Tests
use argus_observability.Prelude.{
  ℕ, ◌+◌, ◌-◌, ◌*◌, ◌/◌, min, max, Bool, true, false, ◌||◌, Option, none, some, List, leb, ◌==◌,
  if◌then◌else◌, length, take, drop, ◌≡◌, ◌≤◌, arith,
}
use argus_observability.Prelude.Int.{ℤ, pos, negsuc}
use argus_observability.Prelude.Text.{Text}

abbrev pub page_size : ℕ
page_size = 25

-- `Number(raw)` is a parameter: `none` stands for every value that `Number.isInteger` refuses.
unfoldable pub page_index : (Text → Option ℤ) → Text → ℕ
page_index number raw = elim (number raw) [
  | none ↦ 1
  | some (pos n) ↦ if n == 0 then 1 else n
  | some (negsuc n) ↦ 1
]

-- `Math.max(1, Math.ceil(total / size))`, for a positive size.
unfoldable pub page_count : ℕ → ℕ → ℕ
page_count total size = max 1 ((total + (size - 1)) / size)

pub record PageSlice {ℓ} (T : Type ℓ) : Type ℓ where
  pub page : ℕ
  pub rows : List T
  pub total : ℕ
  pub start : ℕ
  pub end : ℕ

unfoldable pub page_slice {ℓ} : {T : Type ℓ} → List T → ℕ → ℕ → PageSlice T
page_slice rows page size =
    let total = length rows in
    let safe = min (max page 1) (page_count total size) in
    let start_index = (safe - 1) * size in
    let slice = take size (drop start_index rows) in
    record {
      page = safe;
      rows = slice;
      total = total;
      start = if total == 0 then 0 else start_index + 1;
      end = min total (start_index + length slice);
    }

-- What the two buttons of `ListPager` offer. `prev_page` is read only where `prev_disabled` is false,
-- and then `safe` is at least 2.
pub record Pager : Type 0 where
  pub prev_disabled : Bool
  pub prev_page : ℕ
  pub next_disabled : Bool
  pub next_page : ℕ

unfoldable pub list_pager : ℕ → ℕ → ℕ → Pager
list_pager total page size =
    let pages = page_count total size in
    let safe = min page pages in
    record {
      prev_disabled = leb safe 1;
      prev_page = safe - 1;
      next_disabled = leb pages safe || total == 0;
      next_page = safe + 1;
    }

-- A page number read from the URL is at least 1, and a positive integer is read as itself.
pub page_index_lem :
    (number : Text → Option ℤ) (raw : Text)
    → (1 ≤ page_index number raw)
      × ((n : ℕ) → 1 ≤ n → number raw ≡ some (pos n) → page_index number raw ≡ n)
unfolding page_index
page_index_lem number raw = (ground arith, λ n h e. ground arith)
