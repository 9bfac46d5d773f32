-- ===== src/Web/Search/Outcome.antt =====
-- What `search` returns and how it fails, whatever the database, the pool and the caches do.
use udhyam_msme_extractor.Web.Search.Served.{
  Answered, Counted, AreOf, IsUnexpected, run_query-Triple, each_row-Triple, found-Post,
}
use udhyam_msme_extractor.Prelude.{
  ◌≡◌, refl, ◌↔◌, ◌⊎◌, inl, inr, ◌≤◌, ◌<◌, true, false, not, List, [], ◌∷◌, ◌++◌ as append, ℕ,
  arith, ltb, ltb→lt, Bool-cases, not-false, not-true, subst,
}
use udhyam_msme_extractor.Exec.{raise, lift, handle}
use udhyam_msme_extractor.Exec.Triple.{
  Post, Triple, Triple-pure, Triple-raise, Triple-branch, Triple-bind, Triple-handle, Triple-post,
  Triple-given,
}
use udhyam_msme_extractor.Web.Values.{
  Value, null, str, int, timestamp, Driver, Service, WebError, http_exception, unexpected_value,
  Params, SqlRow, count_cache, CacheKey-Key,
}
use udhyam_msme_extractor.Web.Cache.{get_or_set, fresh}
use udhyam_msme_extractor.Web.Pool.{run_query}
use udhyam_msme_extractor.Web.Filters.{
  Filters, any_filter, where_sql, filter_params, search_sql, count_key,
}
use udhyam_msme_extractor.Web.Paging.{page_size_allowed, total_pages, served_page, page_offset}
use udhyam_msme_extractor.Web.Search.{
  SearchResponse, enterprise_of, each_row, compute_count, as_int, serve_page, search, search_valid,
  unavailable,
}

-- the filters' parameters and the page's
abbrev pub page_params : Filters → ℕ → ℕ → Params
page_params f page page_size =
    append (filter_params f)
      (("limit", int page_size) ∷ ("offset", int (page_offset page page_size)) ∷ [])

asked :
    (page pages : ℕ)
    → (served_page page pages ≡ page) ⊎ ((served_page page pages ≡ pages) × (pages < page))
unfolding served_page
asked page pages = elim (Bool-cases (ltb pages page)) [
  | inl late ↦ inr (ground (arith, late))
  | inr early ↦ inl (ground (arith, early))
]

served_positive :
    (page total page_size : ℕ) → 1 ≤ page → 1 ≤ served_page page (total_pages total page_size)
unfolding served_page total_pages
served_positive page total page_size h = omega (arith, h)

ltb_iff : (a b : ℕ) → (ltb a b ≡ true) ↔ (a < b)
ltb_iff a b = (λ h. ltb→lt a b h, λ h. ground (arith, h))

module _ {Db Conn : Type 0} (driver : Driver Db Conn) where
  -- A response of a search: the page that was asked for, or the last one, of the rows that the database
  -- answered for this page's limit and offset.
  pub record Served (f : Filters) (page page_size : ℕ) (s : Service Db Conn) (r : SearchResponse)
      : Type 0 where
    filtered : any_filter f ≡ true
    allowed : page_size_allowed page_size ≡ true
    counted : Counted driver f s (int r.total)
    sized : r.page_size ≡ page_size
    pages : r.total_pages ≡ total_pages r.total page_size
    first : 1 ≤ r.page
    last : (r.page ≡ page) ⊎ ((r.page ≡ r.total_pages) × (r.total_pages < page))
    next : (r.has_next ≡ true) ↔ (r.page < r.total_pages)
    prev : (r.has_prev ≡ true) ↔ (1 < r.page)
    rows :
        (rows : List SqlRow) × Answered driver
          (search_sql (where_sql f))
          (page_params f r.page r.page_size)
          rows
        × AreOf driver rows r.results

  -- A failure of a search: a request that breaks a rule, which is refused with nothing read or written;
  -- status 502 for whatever the pool or the database raised; or a value of an unexpected type in an answer.
  abbrev pub Failed : Filters → ℕ → ℕ → Service Db Conn → WebError → Service Db Conn → Type 0
  Failed f page page_size s e s' =
      ((search_valid f page page_size ≡ false) × (e ≡ http_exception 422 "") × (s' ≡ s))
      ⊎ ((any_filter f ≡ false)
          × (e ≡ http_exception 400 "Provide at least one of: name, state, district, nic_code.")
          × (s' ≡ s))
      ⊎ ((page_size_allowed page_size ≡ false)
          × (e ≡ http_exception 400 "page_size must be one of (10, 20, 50, 100).")
          × (s' ≡ s))
      ⊎ (e ≡ unavailable "Search")
      ⊎ (e ≡ unexpected_value)

  abbrev Missed : WebError → Service Db Conn → Type 0
  Missed e s = (e ≡ unavailable "Search") ⊎ (e ≡ unexpected_value)

  serve_page-Triple :
      (s : Service Db Conn) (f : Filters) (page page_size total : ℕ)
      → any_filter f ≡ true
      → page_size_allowed page_size ≡ true
      → 1 ≤ page
      → Counted driver f s (int total)
      → Triple
          (λ _. Unit)
          (serve_page driver f page page_size total)
          (λ r _. Served f page page_size s r)
          Missed
  unfolding serve_page
  serve_page-Triple s f page page_size total given allowed positive counted =
      let numbers : Params =
        page_params f (served_page page (total_pages total page_size)) page_size in
      Triple-bind (λ rows _. Answered driver (search_sql (where_sql f)) numbers rows)
        (handle (run_query driver (search_sql (where_sql f)) numbers)
          (λ _. raise (unavailable "Search")))
        _
        (Triple-handle (λ _ _. Unit) (run_query driver (search_sql (where_sql f)) numbers) _
          (run_query-Triple driver (λ _. Unit) (search_sql (where_sql f)) numbers)
          (λ e. Triple-raise (unavailable "Search") (λ s u. inl refl)))
        (λ rows.
          Triple-bind
            (λ es _. Answered driver (search_sql (where_sql f)) numbers rows × AreOf driver rows es)
            (each_row driver (enterprise_of driver) rows) _
            (Triple-given (each_row driver (enterprise_of driver) rows) (λ h.
              Triple-post (λ es _. AreOf driver rows es) (IsUnexpected driver)
                (each_row driver (enterprise_of driver) rows) (each_row-Triple driver rows)
                (λ es s k. (h, k)) (λ _ s k. inr k)))
            (λ es. Triple-pure _ (λ s h. record {
              filtered = given;
              allowed = allowed;
              counted = counted;
              sized = refl;
              pages = refl;
              first = served_positive page total page_size positive;
              last = asked page (total_pages total page_size);
              next = ltb_iff _ _;
              prev = ltb_iff _ _;
              rows = (rows, h.0, h.1);
            })))

  Counted-Triple :
      (s : Service Db Conn) (f : Filters)
      → Triple
          (λ s'. s' ≡ s)
          (get_or_set (count_cache driver) (count_key f) (compute_count driver f))
          (λ count _. Counted driver f s count)
          (λ _ _. Unit)
  unfolding get_or_set
  Counted-Triple s f = record {
    at = λ s' e.
        subst
          (λ x.
            Post (λ count _. Counted driver f x count) (λ _ _. Unit)
              (get_or_set (count_cache driver) (count_key f) (compute_count driver f) s'))
          e (found-Post driver f s' (fresh (count_key f) (driver.time s'.db) s'.counts) refl);
  }

  as_int-Triple :
      (C : Value → Type 0) (v : Value)
      → Triple (λ _. C v) (lift (as_int v)) (λ n _. C (int n)) Missed
  unfolding as_int
  as_int-Triple C null = record { at = λ s h. inr refl }
  as_int-Triple C (str t) = record { at = λ s h. inr refl }
  as_int-Triple C (int n) = record { at = λ s h. h }
  as_int-Triple C (timestamp d) = record { at = λ s h. inr refl }

  missed :
      (f : Filters) (page page_size : ℕ) (s : Service Db Conn) (e : WebError) (s' : Service Db Conn)
      → Missed e s'
      → Failed f page page_size s e s'
  missed f page page_size s e s' m = inr (inr (inr m))

  positive_of : (f : Filters) (page page_size : ℕ) → search_valid f page page_size ≡ true → 1 ≤ page
  unfolding search_valid
  positive_of f page page_size h = ground arith

  -- For every database, pool, cache and request: `search` returns a page only for a request with a
  -- filter and an allowed page size. It is then the page asked for, or the last one if there are fewer,
  -- never before the first; its flags say whether a page follows or precedes; its total is a count that
  -- has not expired or that the database answered for these filters; and its results are, column by
  -- column, the rows that the database answered for this page's limit and offset. Otherwise the request
  -- breaks a rule and is refused with 422 or 400, nothing being read or written; or the pool or the
  -- database raised, which gives 502; or an answer holds a value of an unexpected type.
  pub search-Served :
      (f : Filters) (page page_size : ℕ) (s : Service Db Conn)
      → Post
          (λ r _. Served f page page_size s r)
          (Failed f page page_size s)
          (search driver f page page_size s)
  unfolding search
  search-Served f page page_size s =
      (Triple-branch (not (search_valid f page page_size)) _ _
          (λ invalid. Triple-raise _ (λ s' e. inl (not-true _ invalid, refl, e)))
          (λ valid.
            Triple-branch (not (any_filter f)) _ _
              (λ no_filter. Triple-raise _ (λ s' e. inr (inl (not-true _ no_filter, refl, e))))
              (λ filtered.
                Triple-branch (not (page_size_allowed page_size)) _ _
                  (λ refused.
                    Triple-raise _ (λ s' e. inr (inr (inl (not-true _ refused, refl, e)))))
                  (λ allowed.
                    Triple-bind (λ count _. Counted driver f s count)
                      (handle
                        (get_or_set (count_cache driver) (count_key f) (compute_count driver f))
                        (λ _. raise (unavailable "Search")))
                      _
                      (Triple-handle (λ _ _. Unit)
                        (get_or_set (count_cache driver) (count_key f) (compute_count driver f)) _
                        (Counted-Triple s f)
                        (λ e.
                          Triple-raise (unavailable "Search") (λ s u. inr (inr (inr (inl refl))))))
                      (λ count.
                        Triple-bind (λ total _. Counted driver f s (int total))
                          (lift (as_int count)) _
                          (Triple-post (λ total _. Counted driver f s (int total)) Missed
                            (lift (as_int count)) (as_int-Triple (Counted driver f s) count)
                            (λ n s h. h) (missed f page page_size s))
                          (λ total.
                            Triple-given (serve_page driver f page page_size total) (λ counted.
                              Triple-post (λ r _. Served f page page_size s r) Missed
                                (serve_page driver f page page_size total)
                                (serve_page-Triple s f page page_size total (not-false _ filtered)
                                  (not-false _ allowed)
                                  (positive_of f page page_size (not-false _ valid)) counted)
                                (λ r s h. h) (missed f page page_size s)))))))).at
        s refl
