-- ===== src/Web/Search/Served.antt =====
-- What `search` returns and how it fails, whatever the database, the pool and the caches do.
use Prim.Native.String.{String}
use udhyam_msme_extractor.Prelude.{
  ◌≡◌, refl, ◌⊎◌, inl, inr, Option, none, some, List, [], ◌∷◌, if◌then◌else◌,
}
use udhyam_msme_extractor.Exec.{Result, ok, err, lift, ◌>>=◌}
use udhyam_msme_extractor.Exec.Triple.{
  Post, Triple, Triple-pure, Triple-raise, Triple-bind, Triple-post, Triple-Ran, Ran, Triple-given,
}
use udhyam_msme_extractor.Web.Values.{
  Value, null, str, int, timestamp, is_truthy, Driver, Service, Web, WebError, unexpected_value,
  Params, SqlRow, count_cache, CacheKey-Key,
}
use udhyam_msme_extractor.Web.Cache.{fresh, found_or, store_value}
use udhyam_msme_extractor.Web.Pool.{from_db, run_query, with_connection, enter, exit, on_db}
use udhyam_msme_extractor.Web.Filters.{Filters, where_sql, filter_params, count_sql, count_key}
use udhyam_msme_extractor.Web.Search.{
  Enterprise, enterprise_of, each_row, str_field, optional_field, date_text, compute_count,
  first_cell,
}

-- the value of a column that may be missing
abbrev pub of_optional : Option String → Value
of_optional none = null
of_optional (some s) = str s

module _ {Db Conn : Type 0} (driver : Driver Db Conn) where
  -- The database answered the statement with these rows.
  abbrev pub Answered : String → Params → List SqlRow → Type 0
  Answered sql params rows =
      (conn : Conn) × (db : Db) × (db' : Db) × (driver.execute conn sql params db ≡ (ok rows, db'))

  query-Post :
      (sql : String) (params : Params) (conn : Conn) (s : Service Db Conn)
      (r : Result String (List SqlRow)) (db : Db)
      → driver.execute conn sql params s.db ≡ (r, db)
      → Post
          (λ rows _. Answered sql params rows)
          (λ _ _. Unit)
          (from_db r, exit driver conn (record s { db = db }))
  query-Post sql params conn s (ok rows) db e = (conn, s.db, db, e)
  query-Post sql params conn s (err x) db e = tt

  any-Triple :
      {A : Type 0} (P : Service Db Conn → Type 0) (m : Web Db Conn A)
      → Triple P m (λ _ _. Unit) (λ _ _. Unit)
  any-Triple P m =
      Triple-post (Ran P m) (λ _ _. Unit) m (Triple-Ran P m) (λ _ _ _. tt) (λ _ _ _. tt)

  pub run_query-Triple :
      (P : Service Db Conn → Type 0) (sql : String) (params : Params)
      → Triple P (run_query driver sql params) (λ rows _. Answered sql params rows) (λ _ _. Unit)
  unfolding run_query with_connection on_db
  run_query-Triple P sql params =
      Triple-bind (λ _ _. Unit) (enter driver) _ (any-Triple P (enter driver))
        (λ conn. record {
          at = λ s h.
              query-Post sql params conn s (driver.execute conn sql params s.db).0
                (driver.execute conn sql params s.db).1 refl;
        })

  -- The model holds what the row's columns hold.
  abbrev pub IsOf : SqlRow → Enterprise → Type 0
  IsOf (r0 ∷ r1 ∷ r2 ∷ r3 ∷ r4 ∷ r5 ∷ r6 ∷ _) e =
      (r0 ≡ str e.enterprise_key)
      × (r1 ≡ str e.enterprise_name)
      × (r2 ≡ of_optional e.communication_address)
      × (r3 ≡ of_optional e.state_name)
      × (r4 ≡ of_optional e.district_name)
      × (r5 ≡ of_optional e.pincode)
      × (e.registration_date ≡ (if is_truthy r6 then some (driver.text_of r6) else none))
  IsOf _ e = ⊥

  abbrev pub AreOf : List SqlRow → List Enterprise → Type 0
  AreOf [] [] = Unit
  AreOf (r ∷ rows) (e ∷ es) = IsOf r e × AreOf rows es
  AreOf _ _ = ⊥

  abbrev pub IsUnexpected : WebError → Service Db Conn → Type 0
  IsUnexpected e s = e ≡ unexpected_value

  module _ {B : Type 0} {Q : B → Service Db Conn → Type 0} where
    read_str :
        (v : Value) (f : String → Web Db Conn B)
        → ((a : String) → v ≡ str a → Triple (λ _. Unit) (f a) Q IsUnexpected)
        → Triple (λ _. Unit) (lift (str_field v) >>= f) Q IsUnexpected
    unfolding str_field
    read_str null f h = record { at = λ s u. refl }
    read_str (str a) f h = record { at = λ s u. (h a refl).at s u }
    read_str (int n) f h = record { at = λ s u. refl }
    read_str (timestamp d) f h = record { at = λ s u. refl }

    read_optional :
        (v : Value) (f : Option String → Web Db Conn B)
        → ((a : Option String) → v ≡ of_optional a → Triple (λ _. Unit) (f a) Q IsUnexpected)
        → Triple (λ _. Unit) (lift (optional_field v) >>= f) Q IsUnexpected
    unfolding optional_field
    read_optional null f h = record { at = λ s u. (h none refl).at s u }
    read_optional (str a) f h = record { at = λ s u. (h (some a) refl).at s u }
    read_optional (int n) f h = record { at = λ s u. refl }
    read_optional (timestamp d) f h = record { at = λ s u. refl }

  enterprise_of-Triple :
      (r : SqlRow) → Triple (λ _. Unit) (enterprise_of driver r) (λ e _. IsOf r e) IsUnexpected
  unfolding enterprise_of date_text
  enterprise_of-Triple (r0 ∷ r1 ∷ r2 ∷ r3 ∷ r4 ∷ r5 ∷ r6 ∷ _) = read_str r0 _ (λ a0 h0.
      read_str r1 _ (λ a1 h1. read_optional r2 _ (λ a2 h2. read_optional r3 _ (λ a3 h3.
        read_optional r4 _ (λ a4 h4.
          read_optional r5 _ (λ a5 h5. Triple-pure _ (λ s u. (h0, h1, h2, h3, h4, h5, refl))))))))
  enterprise_of-Triple _ = Triple-raise unexpected_value (λ s u. refl)

  pub each_row-Triple :
      (rows : List SqlRow)
      → Triple
          (λ _. Unit)
          (each_row driver (enterprise_of driver) rows)
          (λ es _. AreOf rows es)
          IsUnexpected
  unfolding each_row
  each_row-Triple [] = Triple-pure [] (λ s u. tt)
  each_row-Triple (r ∷ rows) =
      Triple-bind (λ e _. IsOf r e) (enterprise_of driver r) _ (enterprise_of-Triple r)
        (λ e.
          Triple-bind (λ es _. IsOf r e × AreOf rows es)
            (each_row driver (enterprise_of driver) rows) _
            (Triple-given (each_row driver (enterprise_of driver) rows) (λ h.
              Triple-post (λ es _. AreOf rows es) IsUnexpected
                (each_row driver (enterprise_of driver) rows) (each_row-Triple rows)
                (λ es s k. (h, k)) (λ _ s k. k)))
            (λ es. Triple-pure (e ∷ es) (λ s h. h)))

  -- The count is one that the cache has and that has not expired, or the database has answered it.
  abbrev pub Counted : Filters → Service Db Conn → Value → Type 0
  Counted f s count =
      (fresh (count_key f) (driver.time s.db) s.counts ≡ some count)
      ⊎ ((rows : List SqlRow) × Answered (count_sql (where_sql f)) (filter_params f) rows
          × (first_cell rows ≡ ok count))

  first_cell-Post :
      (sql : String) (params : Params) (rows : List SqlRow) (r : Result WebError Value)
      (s : Service Db Conn)
      → Answered sql params rows
      → first_cell rows ≡ r
      → Post
          (λ count _.
            (rows : List SqlRow) × Answered sql params rows × (first_cell rows ≡ ok count))
          (λ _ _. Unit)
          (r, s)
  first_cell-Post sql params rows (ok count) s h e = (rows, h, e)
  first_cell-Post sql params rows (err x) s h e = tt

  compute_count-Triple :
      (f : Filters)
      → Triple
          (λ _. Unit)
          (compute_count driver f)
          (λ count _.
            (rows : List SqlRow) × Answered (count_sql (where_sql f)) (filter_params f) rows
            × (first_cell rows ≡ ok count))
          (λ _ _. Unit)
  unfolding compute_count
  compute_count-Triple f =
      Triple-bind (λ rows _. Answered (count_sql (where_sql f)) (filter_params f) rows)
        (run_query driver (count_sql (where_sql f)) (filter_params f)) _
        (run_query-Triple (λ _. Unit) (count_sql (where_sql f)) (filter_params f))
        (λ rows. record {
          at = λ s h.
              first_cell-Post (count_sql (where_sql f)) (filter_params f) rows (first_cell rows) s h
                refl;
        })

  pub found-Post :
      (f : Filters) (s : Service Db Conn) (o : Option Value)
      → fresh (count_key f) (driver.time s.db) s.counts ≡ o
      → Post
          (λ count _. Counted f s count)
          (λ _ _. Unit)
          (found_or (count_cache driver) (count_key f) o (compute_count driver f) s)
  unfolding found_or store_value
  found-Post f s (some count) e = inl e
  found-Post f s none e =
      (Triple-bind
          (λ count _.
            (rows : List SqlRow) × Answered (count_sql (where_sql f)) (filter_params f) rows
            × (first_cell rows ≡ ok count))
          (compute_count driver f) (store_value (count_cache driver) (count_key f))
          (compute_count-Triple f) (λ count. record { at = λ s' h. inr h })).at
        s tt
