-- ===== src/Web/Paging.antt =====
-- The numbers of a page of results, as `search` of main.py computes them.
pub mod Covers
use udhyam_msme_extractor.Prelude.{Bool, ◌||◌, ℕ, ◌+◌, ◌-◌, ◌*◌, ◌/◌, ◌==◌, min, max}

-- `page_size in PAGE_SIZE_OPTIONS`
unfoldable pub page_size_allowed : ℕ → Bool
page_size_allowed n = n == 10 || n == 20 || n == 50 || n == 100

-- The numbers of a response, from the total, the page asked for and its size: `total_pages`, the page
-- served and `offset`. A size of 0 divides by zero here; `search` has refused it before.
unfoldable pub total_pages : ℕ → ℕ → ℕ
total_pages total page_size = max 1 ((total + page_size - 1) / page_size)

unfoldable pub served_page : ℕ → ℕ → ℕ
served_page page pages = min page pages

unfoldable pub page_offset : ℕ → ℕ → ℕ
page_offset page page_size = (page - 1) * page_size
