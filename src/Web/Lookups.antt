-- ===== src/Web/Lookups.antt =====
-- The look-ups of main.py behind the cache: the lists of the form, the date of the last update and the
-- counts that need no division.
use Prim.Native.String.{String, ◌++◌, len}
use udhyam_msme_extractor.Prelude.{not, ◌&&◌, none, some, List, [], ◌∷◌, ℕ, leb, if◌then◌else◌}
use udhyam_msme_extractor.Exec.{Result, ok, err, pure, raise, lift, branch, ◌>>=◌}
use udhyam_msme_extractor.Web.Values.{
  Value, null, str, int, timestamp, Driver, Web, WebError, http_exception, unexpected_value, SqlRow,
  CacheKey-Key, word, num, is_truthy, lookup_cache, Answer, values, codes, points, updated, summary,
}
use udhyam_msme_extractor.Web.Cache.{get_or_set}
use udhyam_msme_extractor.Web.Pool.{run_query}
use udhyam_msme_extractor.Web.Dates.{next_schedule_date, strftime}
use udhyam_msme_extractor.Web.Search.{first_cell}

-- `[r[0] for r in rows]`
first_cells : List SqlRow → Result WebError (List Value)
first_cells [] = ok []
first_cells ([] ∷ rows) = err unexpected_value
first_cells ((v ∷ _) ∷ rows) = elim (first_cells rows) [ ok vs ↦ ok (v ∷ vs) | err e ↦ err e ]

-- `[f(r[0], r[1]) for r in rows]`
first_pairs : List SqlRow → Result WebError (List (Value × Value))
first_pairs [] = ok []
first_pairs ((v ∷ w ∷ _) ∷ rows) = elim (first_pairs rows) [
  | ok vs ↦ ok ((v, w) ∷ vs)
  | err e ↦ err e
]
first_pairs (_ ∷ rows) = err unexpected_value

module _ {Db Conn : Type 0} (driver : Driver Db Conn) where
  unfoldable pub list_states : Web Db Conn Answer
  unfolding get_or_set run_query first_cells
  list_states = get_or_set (lookup_cache driver) (word "states" ∷ []) do
    rows ←
        run_query driver
          ("SELECT DISTINCT state_name FROM DIM_GEOGRAPHY "
            ++ "WHERE state_name IS NOT NULL ORDER BY state_name")
          []
    names ← lift (first_cells rows)
    pure (values names)

  unfoldable pub list_districts : String → Web Db Conn Answer
  unfolding get_or_set run_query first_cells
  list_districts state = branch (not (leb 1 (len state))) (raise (http_exception 422 "")) (
      get_or_set (lookup_cache driver) (word "districts" ∷ word state ∷ []) do
        rows ←
            run_query driver
              ("SELECT DISTINCT district_name FROM DIM_GEOGRAPHY "
                ++ ("WHERE state_name = %(state)s AND district_name IS NOT NULL "
                    ++ "ORDER BY district_name"))
              (("state", str state) ∷ [])
        names ← lift (first_cells rows)
        pure (values names))

  unfoldable pub list_nic_codes : Web Db Conn Answer
  unfolding get_or_set run_query first_pairs
  list_nic_codes = get_or_set (lookup_cache driver) (word "nic_codes" ∷ []) do
    rows ←
        run_query driver
          ("SELECT nic_code, nic_description FROM DIM_NIC_CODE " ++ "ORDER BY nic_code") []
    found ← lift (first_pairs rows)
    pure (codes found)

  -- from `last` on; a value that is no date has no `day`
  updated_at : Value → Web Db Conn Answer
  unfolding next_schedule_date strftime
  updated_at null = pure (updated none)
  updated_at (timestamp last) = elim (next_schedule_date last) [
    | some next_scheduled ↦ pure (updated (some (strftime last, strftime next_scheduled)))
    | none ↦ raise unexpected_value
  ]
  updated_at _ = raise unexpected_value

  last_altered : List SqlRow → Web Db Conn Answer
  unfolding updated_at first_cell
  last_altered [] = updated_at null
  last_altered rows = lift (first_cell rows) >>= updated_at

  unfoldable pub last_updated : Web Db Conn Answer
  unfolding get_or_set run_query last_altered
  last_updated = get_or_set (lookup_cache driver) (word "last_updated" ∷ []) do
    row ←
        run_query driver
          ("SELECT MAX(LAST_ALTERED) FROM INFORMATION_SCHEMA.TABLES "
            ++ "WHERE TABLE_SCHEMA = 'RAW_GOLD'")
          []
    last_altered row

  -- `_run_query(sql, {})[0][0]`
  count_of : String → Web Db Conn Value
  unfolding run_query first_cell
  count_of sql = run_query driver sql [] >>= λ rows. lift (first_cell rows)

  unfoldable pub analytics_summary : Web Db Conn Answer
  unfolding get_or_set count_of
  analytics_summary = get_or_set (lookup_cache driver) (word "analytics_summary" ∷ []) do
    total ← count_of "SELECT COUNT(*) FROM DIM_ENTERPRISE"
    states ←
        count_of "SELECT COUNT(DISTINCT state_name) FROM DIM_GEOGRAPHY WHERE state_name IS NOT NULL"
    districts ←
        count_of
          "SELECT COUNT(DISTINCT district_name) FROM DIM_GEOGRAPHY WHERE district_name IS NOT NULL"
    industries ← count_of "SELECT COUNT(*) FROM DIM_NIC_CODE"
    pure (summary total states districts industries)

  -- the limit that the signatures declare
  limited : ℕ → Web Db Conn Answer → Web Db Conn Answer
  limited limit m = branch (not (leb 1 limit && leb limit 20)) (raise (http_exception 422 "")) m

  unfoldable pub analytics_by_state : ℕ → Web Db Conn Answer
  unfolding get_or_set run_query first_pairs limited
  analytics_by_state limit = limited limit (
      get_or_set (lookup_cache driver) (word "analytics_by_state" ∷ num limit ∷ []) do
        rows ←
            run_query driver
              ("SELECT state_name, COUNT(*) AS cnt FROM DIM_ENTERPRISE "
                ++ ("WHERE state_name IS NOT NULL GROUP BY state_name "
                    ++ "ORDER BY cnt DESC LIMIT %(limit)s"))
              (("limit", int limit) ∷ [])
        found ← lift (first_pairs rows)
        pure (points found))

  -- `f"{r[0]} — {r[1]}" if r[1] else r[0]`
  industry_label : Value → Value → Value
  industry_label code description =
      if is_truthy description
      then str (driver.text_of code ++ (" — " ++ driver.text_of description))
      else code

  industries : List SqlRow → Result WebError (List (Value × Value))
  unfolding industry_label
  industries [] = ok []
  industries ((code ∷ description ∷ count ∷ _) ∷ rows) = elim (industries rows) [
    | ok rest ↦ ok ((industry_label code description, count) ∷ rest)
    | err e ↦ err e
  ]
  industries (_ ∷ rows) = err unexpected_value

  unfoldable pub analytics_by_industry : ℕ → Web Db Conn Answer
  unfolding get_or_set run_query industries limited
  analytics_by_industry limit = limited limit (
      get_or_set (lookup_cache driver) (word "analytics_by_industry" ∷ num limit ∷ []) do
        rows ←
            run_query driver
              ("SELECT b.nic_code, n.nic_description, COUNT(*) AS cnt "
                ++ ("FROM BRIDGE_ENTERPRISE_ACTIVITY b "
                    ++ ("JOIN DIM_NIC_CODE n ON n.nic_code = b.nic_code "
                        ++ ("GROUP BY b.nic_code, n.nic_description "
                            ++ "ORDER BY cnt DESC LIMIT %(limit)s"))))
              (("limit", int limit) ∷ [])
        found ← lift (industries rows)
        pure (points found))
