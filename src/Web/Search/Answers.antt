-- ===== src/Web/Search/Answers.antt =====
-- A search is answered whenever the database can be reached.
use Prim.Native.String.{String}
use udhyam_msme_extractor.Prelude.{
  ◌≡◌, refl, sym, true, Option, none, some, List, [], ◌∷◌, ℕ, subst,
}
use udhyam_msme_extractor.Exec.{Result, ok, err, raise, lift, handle}
use udhyam_msme_extractor.Exec.Triple.{Post, Triple-pure, Triple-bind, Triple-handle}
use udhyam_msme_extractor.Web.Values.{
  Value, int, Driver, Service, Web, WebError, Params, SqlRow, count_cache, CacheKey-Key,
}
use udhyam_msme_extractor.Web.Cache.{get_or_set, fresh, found_or, store_value}
use udhyam_msme_extractor.Web.Pool.{run_query}
use udhyam_msme_extractor.Web.Pool.Reachable.{
  IsReachable, IsAnswered, HasSlot, Runs, run_query-Runs,
}
use udhyam_msme_extractor.Web.Filters.{
  Filters, any_filter, where_sql, filter_params, count_sql, search_sql, count_key,
}
use udhyam_msme_extractor.Web.Paging.{page_size_allowed, total_pages, served_page}
use udhyam_msme_extractor.Web.Search.{
  Enterprise, SearchResponse, enterprise_of, each_row, str_field, optional_field, date_text,
  compute_count, first_cell, as_int, serve_page, search, search_valid, unavailable,
}
use udhyam_msme_extractor.Web.Search.Outcome.{page_params}
use udhyam_msme_extractor.Web.Search.Served.{of_optional, IsOf, AreOf}

-- the database counts the enterprises that a condition selects
abbrev pub IsCount : List SqlRow → Type 0
IsCount rows = (n : ℕ) × (rows ≡ (int n ∷ []) ∷ [])

optional_field-of_optional : (o : Option String) → optional_field (of_optional o) ≡ ok o
unfolding optional_field
optional_field-of_optional none = refl
optional_field-of_optional (some s) = refl

module _ {Db Conn : Type 0} (driver : Driver Db Conn) where
  -- rows that the model of an enterprise can hold
  abbrev pub AreEnterprises : List SqlRow → Type 0
  AreEnterprises rows = (es : List Enterprise) × AreOf driver rows es

  -- what is counted for the filters is a number
  abbrev pub CountsNumbers : Filters → Service Db Conn → Type 0
  CountsNumbers f s =
      (now : ℕ) (v : Value) → fresh (count_key f) now s.counts ≡ some v → (n : ℕ) × (v ≡ int n)

  enterprise_of-Runs :
      (r : SqlRow) (e : Enterprise)
      → IsOf driver r e
      → Runs driver (HasSlot driver) (enterprise_of driver r) (λ _. HasSlot driver)
  unfolding enterprise_of str_field date_text
  enterprise_of-Runs (r0 ∷ r1 ∷ r2 ∷ r3 ∷ r4 ∷ r5 ∷ r6 ∷ _) e (h0, h1, h2, h3, h4, h5, h6) =
      rw
        (
          h0,
          h1,
          h2,
          h3,
          h4,
          h5,
          optional_field-of_optional e.communication_address,
          optional_field-of_optional e.state_name,
          optional_field-of_optional e.district_name,
          optional_field-of_optional e.pincode,
        )
        (record { at = λ s h. h })
  enterprise_of-Runs _ e h = absurd h

  each_row-Runs :
      (rows : List SqlRow) (es : List Enterprise)
      → AreOf driver rows es
      → Runs driver
          (HasSlot driver)
          (each_row driver (enterprise_of driver) rows)
          (λ _. HasSlot driver)
  unfolding each_row
  each_row-Runs [] es h = Triple-pure [] (λ s k. k)
  each_row-Runs (r ∷ rows) [] h = absurd h
  each_row-Runs (r ∷ rows) (e ∷ es) h =
      Triple-bind {A = Enterprise} (λ _. HasSlot driver) (enterprise_of driver r) _
        (enterprise_of-Runs r e h.0)
        (λ a.
          Triple-bind {A = List Enterprise} (λ _. HasSlot driver)
            (each_row driver (enterprise_of driver) rows) _ (each_row-Runs rows es h.1)
            (λ rest. Triple-pure (a ∷ rest) (λ s k. k)))

  -- `try: m`, where `m` raises nothing
  unhandled :
      {A : Type 0} (P : Service Db Conn → Type 0) (Q : A → Service Db Conn → Type 0)
      (m : Web Db Conn A) (e : WebError)
      → Runs driver P m Q
      → Runs driver P (handle m (λ (_ : WebError). raise e)) Q
  unhandled P Q m e h = Triple-handle (λ _ _. ⊥) m (λ _. raise e) h (λ _. record { at = λ s k. k })

  counted-Post :
      (rows : List SqlRow) (s : Service Db Conn)
      → IsCount rows × HasSlot driver s
      → Post (λ v s. ((n : ℕ) × (v ≡ int n)) × HasSlot driver s) (λ _ _. ⊥) (first_cell rows, s)
  unfolding first_cell
  counted-Post rows s ((n, e), h) = rw e ((n, refl), h)

  compute_count-Runs :
      (f : Filters)
      → IsReachable driver
      → IsAnswered driver (count_sql (where_sql f)) IsCount
      → Runs driver
          (HasSlot driver)
          (compute_count driver f)
          (λ v s. ((n : ℕ) × (v ≡ int n)) × HasSlot driver s)
  unfolding compute_count
  compute_count-Runs f reachable counts =
      Triple-bind {A = List SqlRow} (λ rows s. IsCount rows × HasSlot driver s)
        (run_query driver (count_sql (where_sql f)) (filter_params f)) _
        (run_query-Runs driver (count_sql (where_sql f)) (filter_params f) IsCount reachable counts)
        (λ rows. record { at = λ s h. counted-Post rows s h })

  found-Post :
      (f : Filters) (s : Service Db Conn) (o : Option Value)
      → IsReachable driver
      → IsAnswered driver (count_sql (where_sql f)) IsCount
      → HasSlot driver s
      → ((v : Value) → o ≡ some v → (n : ℕ) × (v ≡ int n))
      → Post
          (λ v s. ((n : ℕ) × (v ≡ int n)) × HasSlot driver s)
          (λ _ _. ⊥)
          (found_or (count_cache driver) (count_key f) o (compute_count driver f) s)
  unfolding found_or store_value
  found-Post f s (some v) reachable counts h k = (k v refl, h)
  found-Post f s none reachable counts h k =
      (Triple-bind {A = Value} (λ v s. ((n : ℕ) × (v ≡ int n)) × HasSlot driver s)
          (compute_count driver f) (store_value (count_cache driver) (count_key f))
          (compute_count-Runs f reachable counts) (λ v. record { at = λ s q. q })).at
        s h

  get_or_set-Runs :
      (f : Filters) (s : Service Db Conn)
      → IsReachable driver
      → IsAnswered driver (count_sql (where_sql f)) IsCount
      → HasSlot driver s
      → CountsNumbers f s
      → Runs driver
          (λ x. x ≡ s)
          (get_or_set (count_cache driver) (count_key f) (compute_count driver f))
          (λ v s. ((n : ℕ) × (v ≡ int n)) × HasSlot driver s)
  unfolding get_or_set
  get_or_set-Runs f s reachable counts h k = record {
    at = λ x e.
        subst
          (λ y.
            Post (λ v s. ((n : ℕ) × (v ≡ int n)) × HasSlot driver s) (λ _ _. ⊥)
              (get_or_set (count_cache driver) (count_key f) (compute_count driver f) y))
          (sym e)
          (found-Post f s (fresh (count_key f) (driver.time s.db) s.counts) reachable counts h
            (k (driver.time s.db)));
  }

  as_int-Runs :
      (v : Value)
      → Runs driver
          (λ s. ((n : ℕ) × (v ≡ int n)) × HasSlot driver s)
          (lift (as_int v))
          (λ _. HasSlot driver)
  unfolding as_int
  as_int-Runs v = record { at = λ s ((n, e), h). rw e h }

  serve_page-Runs :
      (f : Filters) (page page_size total : ℕ)
      → IsReachable driver
      → IsAnswered driver (search_sql (where_sql f)) AreEnterprises
      → Runs driver (HasSlot driver) (serve_page driver f page page_size total) (λ _ _. Unit)
  unfolding serve_page
  serve_page-Runs f page page_size total reachable answers =
      let numbers : Params =
        page_params f (served_page page (total_pages total page_size)) page_size in
      Triple-bind {A = List SqlRow} (λ rows s. AreEnterprises rows × HasSlot driver s)
        (handle (run_query driver (search_sql (where_sql f)) numbers)
          (λ (_ : WebError). raise (unavailable "Search")))
        _
        (unhandled (HasSlot driver) (λ rows s. AreEnterprises rows × HasSlot driver s)
          (run_query driver (search_sql (where_sql f)) numbers) (unavailable "Search")
          (run_query-Runs driver (search_sql (where_sql f)) numbers AreEnterprises reachable
            answers))
        (λ rows.
          Triple-bind {A = List Enterprise} (λ _. HasSlot driver)
            (each_row driver (enterprise_of driver) rows) _
            (record { at = λ s ((es, a), h). (each_row-Runs rows es a).at s h })
            (λ es. Triple-pure _ (λ s h. tt)))

  answer-Post :
      {A : Type 0} (r : Result WebError A) (s : Service Db Conn)
      → Post (λ _ _. Unit) (λ _ _. ⊥) (r, s)
      → (a : A) × (s' : Service Db Conn) × (◌≡◌ {A = Result WebError A × Service Db Conn}
          (r, s)
          (ok a, s'))
  answer-Post (ok a) s h = (a, s, refl)
  answer-Post (err e) s h = absurd h

  -- Where connections can be opened and the database answers the count with a number and the search
  -- with rows of the columns' types, and a slot is free and no cached count is anything but a number,
  -- every request that breaks no rule is answered with a page.
  pub search-answers :
      (f : Filters) (page page_size : ℕ) (s : Service Db Conn)
      → IsReachable driver
      → IsAnswered driver (count_sql (where_sql f)) IsCount
      → IsAnswered driver (search_sql (where_sql f)) AreEnterprises
      → HasSlot driver s
      → CountsNumbers f s
      → search_valid f page page_size ≡ true
      → any_filter f ≡ true
      → page_size_allowed page_size ≡ true
      → (r : SearchResponse) × (s' : Service Db Conn) × (search driver f page page_size s
          ≡ (ok r, s'))
  unfolding search
  search-answers f page page_size s reachable counts answers h k valid filtered allowed =
      rw (valid, filtered, allowed)
        (answer-Post _ _ (
          (Triple-bind {A = Value} (λ v s. ((n : ℕ) × (v ≡ int n)) × HasSlot driver s)
              (handle (get_or_set (count_cache driver) (count_key f) (compute_count driver f))
                (λ (_ : WebError). raise (unavailable "Search")))
              _
              (unhandled (λ x. x ≡ s) (λ v s. ((n : ℕ) × (v ≡ int n)) × HasSlot driver s)
                (get_or_set (count_cache driver) (count_key f) (compute_count driver f))
                (unavailable "Search") (get_or_set-Runs f s reachable counts h k))
              (λ v.
                Triple-bind {A = ℕ} (λ _. HasSlot driver) (lift (as_int v)) _ (as_int-Runs v)
                  (λ total. serve_page-Runs f page page_size total reachable answers))).at
            s refl))
