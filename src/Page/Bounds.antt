-- ===== src/Page/Bounds.antt =====
-- Bounds of `pageSlice` and the agreement of the pager's buttons with it.
use Prim.Native.Nat.{ℕ, zero, suc}
use argus_observability.Prelude.{
  ◌+◌, ◌-◌, ◌*◌, ◌≤◌, ◌<◌, min, max, ◌≡◌, ◌⊎◌, inl, inr, refl, ◌↔◌, false, List, arith,
  if◌then◌else◌, ◌==◌, leb, ◌||◌, length, length-take, length-drop, take, drop,
}
use argus_observability.Page.{page_count, PageSlice, page_slice, Pager, list_pager}

-- The pages hold all rows, and the last page is not empty.
pub page_count_bounds :
    (total size : ℕ)
    → 0 < size
    → (1 ≤ page_count total size)
      × (total ≤ page_count total size * size)
      × (0 < total → (page_count total size - 1) * size < total)
unfolding page_count
page_count_bounds total size h = (omega arith, grind arith, λ p. grind arith)

module _ {ℓ} {T : Type ℓ} (rows : List T) (page size : ℕ) where
  -- The bounds that the page shown keeps.
  pub record IsWithin (s : PageSlice T) : Type 0 where
    pub page_pos : 1 ≤ s.page
    pub page_le : s.page ≤ page_count (length rows) size
    pub total_eq : s.total ≡ length rows
    pub rows_le : length s.rows ≤ size
    pub end_le : s.end ≤ s.total
    pub start_le : s.start ≤ s.end
    pub shown : (length rows ≡ 0) ⊎ ((s.end + 1 ≡ s.start + length s.rows) × (1 ≤ length s.rows))

zero_or_more : (n : ℕ) → (n ≡ 0) ⊎ (0 < n)
zero_or_more n = ground arith

pub page_count_nil : (size : ℕ) → 0 < size → page_count 0 size ≡ 1
unfolding page_count
page_count_nil size h = grind arith

mul_mono : (a b c : ℕ) → a ≤ b → a * c ≤ b * c
mul_mono a b c h = grind arith

-- The first row of a page between 1 and the page count lies inside the list.
pub start_index_lt :
    (total safe size : ℕ)
    → 0 < size
    → 0 < total
    → safe ≤ page_count total size
    → (safe - 1) * size < total
start_index_lt total safe size h p q =
    let (one, cover, last) = page_count_bounds total size h in
    omega (arith, last p, mul_mono (safe - 1) (page_count total size - 1) size (omega arith))

pub length-take-drop {ℓ} :
    {T : Type ℓ} (size start : ℕ) (rows : List T)
    → length (take size (drop start rows)) ≡ min size (length rows - start)
length-take-drop size start rows =
    omega (arith, length-take size (drop start rows), length-drop start rows)

range_le :
    (n start len size : ℕ)
    → 0 < size
    → len ≡ min size (n - start)
    → (0 < n → start < n)
    → (if n == 0 then 0 else start + 1) ≤ min n (start + len)
range_le zero start len size h e f = omega arith
range_le (suc n) start len size h e f = let inside : start < suc n = f (omega arith) in ground arith

range_span :
    (n start len size : ℕ)
    → 0 < n
    → len ≡ min size (n - start)
    → start < n
    → min n (start + len) + 1 ≡ (if n == 0 then 0 else start + 1) + len
range_span zero start len size p e f = absurd (omega arith)
range_span (suc n) start len size p e f = ground arith

-- For a positive size, `pageSlice` shows an existing page: its number is between 1 and the page
-- count, it has at most `size` rows, `start` and `end` bound a range inside the total whose length is
-- the number of rows shown, and if there are rows at all then at least one is shown.
pub page_slice-IsWithin {ℓ} :
    {T : Type ℓ} (rows : List T) (page size : ℕ)
    → 0 < size
    → IsWithin rows page size (page_slice rows page size)
unfolding page_slice
page_slice-IsWithin rows page size h =
    let n = length rows in
    let (one, cover, last) = page_count_bounds n size h in
    let safe = min (max page 1) (page_count n size) in
    let len = length-take-drop size ((safe - 1) * size) rows in
    let first = λ (p : 0 < n). start_index_lt n safe size h p (omega arith) in
    let nil = page_count_nil size h in
    record {
      page_pos = omega arith;
      page_le = omega arith;
      total_eq = refl;
      rows_le = omega arith;
      end_le = omega arith;
      start_le = range_le n ((safe - 1) * size) _ size h len first;
      shown = elim (zero_or_more n) [
        | inl e ↦ inl e
        | inr p ↦
            inr (range_span n ((safe - 1) * size) _ size p len (first p), omega (arith, first p))
      ];
    }

pub step_mul : (k size : ℕ) → 1 ≤ k → (k - 1) * size + size ≡ k * size
step_mul zero size h = absurd (omega arith)
step_mul (suc k) size h = let e : suc k - 1 ≡ k = omega arith in rw e (omega arith)

-- `end` counts the rows of all pages up to this one.
end_eq {ℓ} :
    {T : Type ℓ} (rows : List T) (page size : ℕ)
    → 0 < size
    → (page_slice rows page size).end ≡ min (length rows) ((page_slice rows page size).page * size)
unfolding page_slice
end_eq rows page size h =
    let safe = min (max page 1) (page_count (length rows) size) in
    let (one, cover, last) = page_count_bounds (length rows) size h in
    omega (arith, length-take-drop size ((safe - 1) * size) rows, step_mul safe size (omega arith))

page_lt_iff :
    (total k size : ℕ)
    → 0 < size
    → 0 < total
    → (min total (k * size) < total) ↔ (k < page_count total size)
page_lt_iff total k size h p =
    let (one, cover, last) = page_count_bounds total size h in
    let count = page_count total size in
    (
      λ q. absurd_le k count (λ r. omega (arith, mul_mono count k size r)),
      λ q. omega (arith, last p, mul_mono k (count - 1) size (omega arith)),
    )
  where
    absurd_le : (a b : ℕ) → (b ≤ a → ⊥) → a < b
    absurd_le a b f = omega arith

-- The three facts from which the buttons follow.
slice_facts {ℓ} :
    {T : Type ℓ} (rows : List T) (page size : ℕ)
    → 0 < size
    → let s : PageSlice T = page_slice rows page size in
      (1 ≤ s.page)
      × (s.page ≤ page_count s.total size)
      × ((s.end < s.total) ↔ ((s.page < page_count s.total size) × (0 < s.total)))
slice_facts rows page size h =
    let w = page_slice-IsWithin rows page size h in
    let s = page_slice rows page size in
    let e : s.end ≡ min s.total (s.page * size) = rw w.total_eq (end_eq rows page size h) in
    (
      w.page_pos,
      rw w.total_eq w.page_le,
      (
        λ q.
            let p : 0 < s.total = omega arith in
            ((page_lt_iff s.total s.page size h p).0 (omega arith), p),
        λ (q, p). let r = (page_lt_iff s.total s.page size h p).1 q in omega arith,
      ),
    )

pager_facts :
    (page end total count : ℕ)
    → 1 ≤ page
    → page ≤ count
    → (end < total → (page < count) × (0 < total))
    → ((page < count) × (0 < total) → end < total)
    → (((leb count (min page count) || total == 0) ≡ false) ↔ (end < total))
      × (min page count + 1 ≡ page + 1)
      × ((leb (min page count) 1 ≡ false) ↔ (2 ≤ page))
      × (min page count - 1 + 1 ≡ page)
pager_facts page end total count h k f g =
    let e : min page count ≡ page = omega arith in
    rw e (
      (
        λ n. let p : (page < count) × (0 < total) = ground arith in g p,
        λ q. let p = f q in ground arith,
      ),
      refl,
      (λ n. ground arith, λ q. ground arith),
      omega arith,
    )

-- The pager of a slice: the next button works exactly if rows follow the slice, and leads to the next
-- page; the previous button works exactly if the page is not the first, and leads to the page before.
pub list_pager-page_slice {ℓ} :
    {T : Type ℓ} (rows : List T) (page size : ℕ)
    → 0 < size
    → let s : PageSlice T = page_slice rows page size in
      let p : Pager = list_pager s.total s.page size in
      ((p.next_disabled ≡ false) ↔ (s.end < s.total))
      × (p.next_page ≡ s.page + 1)
      × ((p.prev_disabled ≡ false) ↔ (2 ≤ s.page))
      × (p.prev_page + 1 ≡ s.page)
unfolding list_pager
list_pager-page_slice rows page size h =
    let s = page_slice rows page size in
    let (one, le, more) = slice_facts rows page size h in
    pager_facts s.page s.end s.total (page_count s.total size) one le more.0 more.1
