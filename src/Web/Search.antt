-- ===== src/Web/Search.antt =====
-- The search of main.py: `search`, `export_search` and `get_enterprise`, with the tests that FastAPI
-- makes of a request's declared limits.
pub mod Served
pub mod Outcome
pub mod Answers
use Prim.Native.String.{String, [], ◌∷◌, ◌++◌, len}
use udhyam_msme_extractor.Prelude.{
  Bool, true, false, not, ◌&&◌, ◌||◌, Option, none, some, List, [], ◌∷◌, ◌++◌ as append, map, ℕ,
  ltb, leb, if◌then◌else◌, str_eq, is_empty,
}
use udhyam_msme_extractor.Records.{Csv}
use udhyam_msme_extractor.Exec.{Exec, Result, ok, err, pure, raise, lift, branch, handle, ◌>>=◌}
use udhyam_msme_extractor.Web.Values.{
  Value, null, str, int, timestamp, Driver, Service, Web, WebError, http_exception,
  unexpected_value, Params, SqlRow, is_truthy, count_cache, CacheKey-Key,
}
use udhyam_msme_extractor.Web.Cache.{get_or_set}
use udhyam_msme_extractor.Web.Pool.{run_query}
use udhyam_msme_extractor.Web.Filters.{
  Filters, filters_valid, any_filter, where_sql, filter_params, count_sql, search_sql, export_sql,
  count_key,
}
use udhyam_msme_extractor.Web.Paging.{page_size_allowed, total_pages, served_page, page_offset}

pub record Enterprise : Type 0 where
  pub enterprise_key : String
  pub enterprise_name : String
  pub communication_address : Option String
  pub state_name : Option String
  pub district_name : Option String
  pub pincode : Option String
  pub country : Option String
  pub msme : Option ℕ
  pub registration_date : Option String

pub record SearchResponse : Type 0 where
  pub results : List Enterprise
  pub page : ℕ
  pub page_size : ℕ
  pub total : ℕ
  pub total_pages : ℕ
  pub has_next : Bool
  pub has_prev : Bool

-- a field of type `str`, and one of type `Optional[str]`, as pydantic checks them
str_field : Value → Result WebError String
str_field (str s) = ok s
str_field _ = err unexpected_value

optional_field : Value → Result WebError (Option String)
optional_field null = ok none
optional_field (str s) = ok (some s)
optional_field _ = err unexpected_value

pub record NicCode : Type 0 where
  pub nic_code : String
  pub nic_description : Option String

pub record EnterpriseDetail : Type 0 where
  pub base : Enterprise
  pub activities : List NicCode

-- A file to download: the rows of cells that csv.writer or openpyxl is given.
pub record Download : Type 0 where
  pub media_type : String
  pub filename : String
  pub cells : Csv

-- `row[0][0]`
unfoldable pub first_cell : List SqlRow → Result WebError Value
first_cell ((v ∷ _) ∷ _) = ok v
first_cell _ = err unexpected_value

-- the number that the arithmetic of the pages needs
as_int : Value → Result WebError ℕ
as_int (int n) = ok n
as_int _ = err unexpected_value

abbrev pub unavailable : String → WebError
unavailable what = http_exception 502 (what ++ " temporarily unavailable.")

export_columns : List String
export_columns =
    "Enterprise Name" ∷ "State" ∷ "District" ∷ "Pincode" ∷ "Address" ∷ "Country" ∷ "MSME"
    ∷ "Registration Date" ∷ []

-- the limits that the signature declares
unfoldable pub search_valid : Filters → ℕ → ℕ → Bool
unfolding filters_valid
search_valid f page page_size =
    filters_valid f && leb 1 page && leb 1 page_size && leb page_size 100

module _ {Db Conn : Type 0} (driver : Driver Db Conn) where
  -- `str(value) if value else None`
  date_text : Value → Option String
  date_text v = if is_truthy v then some (driver.text_of v) else none

  -- a field of type `Optional[int]`
  int_field : Value → Result WebError (Option ℕ)
  int_field null = ok none
  int_field (int n) = ok (some n)
  int_field (str s) = elim (driver.int_of_text s) [
    | some n ↦ ok (some n)
    | none ↦ err unexpected_value
  ]
  int_field (timestamp _) = err unexpected_value

  -- the model of one row of a search
  unfoldable pub enterprise_of : SqlRow → Web Db Conn Enterprise
  unfolding str_field optional_field date_text
  enterprise_of (r0 ∷ r1 ∷ r2 ∷ r3 ∷ r4 ∷ r5 ∷ r6 ∷ _) = do
    enterprise_key ← lift (str_field r0)
    enterprise_name ← lift (str_field r1)
    communication_address ← lift (optional_field r2)
    state_name ← lift (optional_field r3)
    district_name ← lift (optional_field r4)
    pincode ← lift (optional_field r5)
    pure record {
      enterprise_key = enterprise_key;
      enterprise_name = enterprise_name;
      communication_address = communication_address;
      state_name = state_name;
      district_name = district_name;
      pincode = pincode;
      country = none;
      msme = none;
      registration_date = date_text r6;
    }
  enterprise_of _ = raise unexpected_value

  -- `[f(r) for r in rows]`
  unfoldable pub each_row :
      {A : Type 0} → (SqlRow → Web Db Conn A) → List SqlRow → Web Db Conn (List A)
  each_row f [] = pure []
  each_row f (r ∷ rows) = do a ← f r; rest ← each_row f rows; pure (a ∷ rest)

  unfoldable pub compute_count : Filters → Web Db Conn Value
  unfolding run_query first_cell count_sql where_sql filter_params
  compute_count f = run_query driver (count_sql (where_sql f)) (filter_params f) >>= λ rows.
      lift (first_cell rows)

  -- from the total on
  unfoldable pub serve_page : Filters → ℕ → ℕ → ℕ → Web Db Conn SearchResponse
  unfolding run_query search_sql where_sql filter_params each_row enterprise_of total_pages
      served_page page_offset
  serve_page f page page_size total = do
    let pages = total_pages total page_size
    let served = served_page page pages
    let params =
        append (filter_params f)
          (("limit", int page_size) ∷ ("offset", int (page_offset served page_size)) ∷ [])
    rows ←
        handle (run_query driver (search_sql (where_sql f)) params)
          (λ _. raise (unavailable "Search"))
    results ← each_row enterprise_of rows
    pure record {
      results = results;
      page = served;
      page_size = page_size;
      total = total;
      total_pages = pages;
      has_next = ltb served pages;
      has_prev = ltb 1 served;
    }

  unfoldable pub search : Filters → ℕ → ℕ → Web Db Conn SearchResponse
  unfolding search_valid any_filter page_size_allowed compute_count get_or_set count_key as_int
      serve_page
  search f page page_size =
      branch (not (search_valid f page page_size)) (raise (http_exception 422 "")) (
        branch (not (any_filter f))
          (raise (http_exception 400 "Provide at least one of: name, state, district, nic_code."))
          (branch (not (page_size_allowed page_size))
            (raise (http_exception 400 "page_size must be one of (10, 20, 50, 100)."))
            (do
              count ←
                  handle (get_or_set (count_cache driver) (count_key f) (compute_count f))
                    (λ _. raise (unavailable "Search"))
              total ← lift (as_int count)
              serve_page f page page_size total)))

  export_cell : Value → String
  export_cell null = ""
  export_cell v = driver.text_of v

  unfoldable pub export_search : String → Filters → Web Db Conn Download
  unfolding filters_valid any_filter export_sql where_sql filter_params run_query export_cell
      export_columns
  export_search fmt f =
      branch (not (filters_valid f && (str_eq fmt "csv" || str_eq fmt "xlsx")))
        (raise (http_exception 422 ""))
        (branch (not (any_filter f))
          (raise (http_exception 400 "Provide at least one filter to export."))
          (do
            rows ←
                handle (run_query driver (export_sql (where_sql f)) (filter_params f))
                  (λ _. raise (unavailable "Export"))
            pure record {
              media_type =
                  if str_eq fmt "csv"
                  then "text/csv"
                  else "application/vnd.openxmlformats-officedocument.spreadsheetml.sheet";
              filename = if str_eq fmt "csv" then "msme_export.csv" else "msme_export.xlsx";
              cells = export_columns ∷ map (map export_cell) rows;
            }))

  nic_code_of : SqlRow → Web Db Conn NicCode
  unfolding str_field optional_field
  nic_code_of (a0 ∷ a1 ∷ _) = do
    nic_code ← lift (str_field a0)
    nic_description ← lift (optional_field a1)
    pure record { nic_code = nic_code; nic_description = nic_description }
  nic_code_of _ = raise unexpected_value

  -- the model of the row of one enterprise
  detail_of : SqlRow → List SqlRow → Web Db Conn EnterpriseDetail
  unfolding str_field optional_field int_field date_text nic_code_of each_row
  detail_of (r0 ∷ r1 ∷ r2 ∷ r3 ∷ r4 ∷ r5 ∷ r6 ∷ r7 ∷ r8 ∷ _) activity_rows = do
    activities ← each_row nic_code_of activity_rows
    enterprise_key ← lift (str_field r0)
    enterprise_name ← lift (str_field r1)
    communication_address ← lift (optional_field r2)
    state_name ← lift (optional_field r3)
    district_name ← lift (optional_field r4)
    pincode ← lift (optional_field r5)
    country ← lift (optional_field r6)
    msme ← lift (int_field r7)
    pure record {
      base = record {
        enterprise_key = enterprise_key;
        enterprise_name = enterprise_name;
        communication_address = communication_address;
        state_name = state_name;
        district_name = district_name;
        pincode = pincode;
        country = country;
        msme = msme;
        registration_date = date_text r8;
      };
      activities = activities;
    }
  detail_of _ _ = raise unexpected_value

  found_enterprise : String → List SqlRow → Web Db Conn EnterpriseDetail
  unfolding run_query detail_of
  found_enterprise key [] = raise (http_exception 404 "Enterprise not found.")
  found_enterprise key (r ∷ _) = do
    activities ←
        run_query driver
          ("SELECT nic_code, nic_description FROM BRIDGE_ENTERPRISE_ACTIVITY "
            ++ "WHERE enterprise_key = %(key)s ORDER BY nic_code")
          (("key", str key) ∷ [])
    detail_of r activities

  unfoldable pub get_enterprise : String → Web Db Conn EnterpriseDetail
  unfolding run_query found_enterprise
  get_enterprise key = do
    rows ←
        run_query driver
          ("\n        SELECT enterprise_key, enterprise_name, communication_address,\n"
            ++ ("               state_name, district_name, pincode, country, msme, registration_date\n"
                ++ ("        FROM DIM_ENTERPRISE\n        WHERE enterprise_key = %(key)s\n        ")))
          (("key", str key) ∷ [])
    found_enterprise key rows
