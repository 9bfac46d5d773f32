-- ===== src/Web/Paging/Covers.antt =====
-- The pages of a search against the rows of its result.
use udhyam_msme_extractor.Prelude.{◌≡◌, ◌⊎◌, inl, inr, ◌≤◌, ◌<◌, ◌+◌, ◌/◌, true, ℕ, suc, arith}
use udhyam_msme_extractor.Web.Paging.{page_size_allowed, total_pages, page_offset}

-- the row with the index `i` is on the page
abbrev pub IsOnPage : ℕ → ℕ → ℕ → ℕ → Type 0
IsOnPage total page_size i page =
    (1 ≤ page)
    × (page ≤ total_pages total page_size)
    × (page_offset page page_size ≤ i)
    × (i < page_offset page page_size + page_size)

allowed_sizes : (n : ℕ) → page_size_allowed n ≡ true → (n ≡ 10) ⊎ (n ≡ 20) ⊎ (n ≡ 50) ⊎ (n ≡ 100)
unfolding page_size_allowed
allowed_sizes n h = ground arith

total_pages-positive : (total page_size : ℕ) → 1 ≤ total_pages total page_size
unfolding total_pages
total_pages-positive total page_size = omega arith

abbrev HasPage : ℕ → ℕ → ℕ → Type 0
HasPage total page_size i =
    (page : ℕ) × IsOnPage total page_size i page
    × ((other : ℕ) → IsOnPage total page_size i other → other ≡ page)

-- For an allowed page size, each row of the result is on exactly one of the pages.
pub pages-HasPage :
    (total page_size i : ℕ)
    → page_size_allowed page_size ≡ true
    → i < total
    → (page : ℕ) × IsOnPage total page_size i page
      × ((other : ℕ) → IsOnPage total page_size i other → other ≡ page)
unfolding total_pages page_offset
pages-HasPage total page_size i h lt = elim (allowed_sizes page_size h) [
  | inl e ↦ rw e (suc (i / 10), omega (arith, lt), λ other o. omega (arith, o))
  | inr (inl e) ↦ rw e (suc (i / 20), omega (arith, lt), λ other o. omega (arith, o))
  | inr (inr (inl e)) ↦ rw e (suc (i / 50), omega (arith, lt), λ other o. omega (arith, o))
  | inr (inr (inr e)) ↦ rw e (suc (i / 100), omega (arith, lt), λ other o. omega (arith, o))
]
