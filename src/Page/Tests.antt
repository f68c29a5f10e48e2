-- ===== src/Page/Tests.antt =====
-- Runs of page.ts and list-pager.tsx, and the theorems at concrete inputs.
use argus_observability.Prelude.{
  ℕ, ◌-◌, ◌≡◌, refl, true, Option, some, List, [], ◌∷◌, arith, length, take, drop,
}
use argus_observability.Prelude.Int.{ℤ, pos}
use argus_observability.Prelude.Text.{Text}
use argus_observability.Page.{page_count, page_slice}
use argus_observability.Page.Bounds.{IsWithin, page_slice-IsWithin}
use argus_observability.Page.Cover.{pages_upto, pages_upto-page_count}
use argus_observability.Page.Hub.{Json, null, num, ListPage}

abbrev five : List ℕ
five = 10 ∷ 20 ∷ 30 ∷ 40 ∷ 50 ∷ []

page_slice_runs :
    (page_slice five 3 2 ≡ record { page = 3; rows = 50 ∷ []; total = 5; start = 5; end = 5 })
    × (page_slice five 9 2 ≡ record { page = 3; rows = 50 ∷ []; total = 5; start = 5; end = 5 })
    × (page_slice {T = ℕ} [] 1 25 ≡ record { page = 1; rows = []; total = 0; start = 0; end = 0 })
unfolding page_slice page_count take drop
page_slice_runs = (refl, refl, refl)

page_slice-IsWithin_example : IsWithin five 2 2 (page_slice five 2 2)
page_slice-IsWithin_example = page_slice-IsWithin five 2 2 (omega arith)

pages_upto-page_count_example : pages_upto five 2 (page_count (length five) 2) ≡ five
pages_upto-page_count_example = pages_upto-page_count five 2 (omega arith)

-- A stand-in for `Number` that knows one numeral.
abbrev number_of : Text → Option ℤ
number_of [] = some (pos 0)
number_of (c ∷ s) = some (pos (c - 48))

abbrev sample : ListPage Json
sample = record { entries = null ∷ num 3 ∷ []; total = 40; limit = 2; offset = 6; truncated = true }
