-- ===== src/Web/Filters.antt =====
-- The filters of a search, which `search` and `export_search` of main.py turn into the condition and
-- the parameters of their statements in the same way.
pub mod Bound
use Prim.Native.String.{String, [], ◌∷◌, ◌++◌, len}
use udhyam_msme_extractor.Prelude.{
  Bool, not, ◌&&◌, ◌||◌, true, false, Option, none, some, List, [], ◌∷◌, ℕ, leb, if◌then◌else◌,
}
use udhyam_msme_extractor.Prelude.Text.{is_blank}
use udhyam_msme_extractor.Web.Values.{str, Params, CacheKey, Part, absent, word}

-- The filters of a request; a missing one is `none`.
pub record Filters : Type 0 where
  pub name : Option String
  pub state : Option String
  pub district : Option String
  pub nic_code : Option String

-- the truth of an optional text
abbrev pub given : Option String → Bool
given none = false
given (some s) = not (is_blank s)

-- the limits on the length of an optional text
abbrev pub within : ℕ → ℕ → Option String → Bool
within low high none = true
within low high (some s) = leb low (len s) && leb (len s) high

-- what the signatures of `search` and `export_search` declare
unfoldable pub filters_valid : Filters → Bool
filters_valid f =
    within 2 200 f.name && within 0 100 f.state && within 0 100 f.district && within 0 10 f.nic_code

unfoldable pub any_filter : Filters → Bool
any_filter f = given f.name || given f.state || given f.district || given f.nic_code

abbrev pub clause : Option String → String → List String → List String
clause value sql rest = if given value then sql ∷ rest else rest

-- `clauses`
unfoldable pub clauses : Filters → List String
clauses f =
    "1=1"
    ∷ clause f.name "e.enterprise_name ILIKE %(name_pattern)s" (
        clause f.state "e.state_name = %(state)s" (
          clause f.district "e.district_name = %(district)s" (
            clause f.nic_code
              ("e.enterprise_key IN "
                ++ "(SELECT enterprise_key FROM BRIDGE_ENTERPRISE_ACTIVITY WHERE nic_code = %(nic_code)s)")
              [])))

abbrev pub param : Option String → String → (String → String) → Params → Params
param none key f rest = rest
param (some s) key f rest = if is_blank s then rest else (key, str (f s)) ∷ rest

-- `filter_params`
unfoldable pub filter_params : Filters → Params
filter_params f =
    param f.name "name_pattern" (λ s. "%" ++ (s ++ "%"))
      (param f.state "state" (λ s. s)
        (param f.district "district" (λ s. s) (param f.nic_code "nic_code" (λ s. s) [])))

-- `" AND ".join(clauses)`
join_and : List String → String
join_and [] = []
join_and (c ∷ []) = c
join_and (c ∷ d ∷ rest) = let more = join_and (d ∷ rest) in c ++ (" AND " ++ more)

unfoldable pub where_sql : Filters → String
unfolding join_and clauses
where_sql f = join_and (clauses f)

unfoldable pub count_sql : String → String
count_sql condition = "SELECT COUNT(*) FROM DIM_ENTERPRISE e WHERE " ++ condition

unfoldable pub search_sql : String → String
search_sql condition =
    "\n        SELECT\n            e.enterprise_key,\n            e.enterprise_name,\n"
    ++ ("            e.communication_address,\n            e.state_name,\n"
        ++ ("            e.district_name,\n            e.pincode,\n            e.registration_date\n"
            ++ ("        FROM DIM_ENTERPRISE e\n        WHERE "
                ++ (condition
                    ++ ("\n        ORDER BY e.enterprise_name\n"
                        ++ "        LIMIT %(limit)s OFFSET %(offset)s\n    ")))))

-- the statement of `_build_export_rows`, with EXPORT_ROW_LIMIT
unfoldable pub export_sql : String → String
export_sql condition =
    "\n        SELECT\n            e.enterprise_name,\n            e.state_name,\n"
    ++ ("            e.district_name,\n            e.pincode,\n"
        ++ ("            e.communication_address,\n            e.country,\n            e.msme,\n"
            ++ ("            e.registration_date\n        FROM DIM_ENTERPRISE e\n        WHERE "
                ++ (condition
                    ++ "\n        ORDER BY e.enterprise_name\n        LIMIT 50000\n    "))))

abbrev pub part_of : Option String → Part
part_of none = absent
part_of (some s) = word s

-- the key of `_count_cache`
unfoldable pub count_key : Filters → CacheKey
count_key f = part_of f.name ∷ part_of f.state ∷ part_of f.district ∷ part_of f.nic_code ∷ []
