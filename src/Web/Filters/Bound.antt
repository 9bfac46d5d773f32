-- ===== src/Web/Filters/Bound.antt =====
-- Nothing that a user enters reaches the text of a statement.
use Prim.Native.Char.{code}
use Prim.Native.String.{[], ◌∷◌, ◌++◌}
use udhyam_msme_extractor.Prelude.{
  String, ◌≡◌, refl, Bool, true, false, ◌&&◌, Option, none, some, List, [], ◌∷◌, ◌++◌ as append,
  map, ◌==◌, if◌then◌else◌, Bool-cases, inl, inr,
}
use udhyam_msme_extractor.Prelude.Text.{is_blank, split_at}
use udhyam_msme_extractor.Web.Values.{Params}
use udhyam_msme_extractor.Web.Filters.{
  Filters, given, param, clauses, join_and, where_sql, filter_params, count_sql, search_sql,
  export_sql,
}

-- the names of the placeholders `%(name)s` of a statement
unfoldable pub placeholders : String → List String
unfolding split_at
placeholders [] = []
placeholders (c ∷ []) = []
placeholders (c ∷ d ∷ s) =
    let more = placeholders (d ∷ s) in
    if code c == b'%' && code d == b'(' then (split_at (λ x. code x == b')') s).0 ∷ more else more

abbrev pub keys : Params → List String
keys params = map (λ p. p.0) params

abbrev chosen : {A : Type 0} → Bool → A → List A → List A
chosen b a rest = if b then a ∷ rest else rest

keys-param :
    (value : Option String) (key : String) (g : String → String) (rest : Params)
    → keys (param value key g rest) ≡ chosen (given value) key (keys rest)
keys-param none key g rest = refl
keys-param (some s) key g rest = elim (Bool-cases (is_blank s)) [
  | inl e ↦ rw e refl
  | inr e ↦ rw e refl
]

abbrev names : Bool → Bool → Bool → Bool → List String
names a b c d =
    chosen a "name_pattern" (chosen b "state" (chosen c "district" (chosen d "nic_code" [])))

keys-filter_params :
    (f : Filters)
    → keys (filter_params f)
      ≡ names (given f.name) (given f.state) (given f.district) (given f.nic_code)
unfolding filter_params
keys-filter_params f =
    rw
      (
        keys-param f.name "name_pattern" (λ s. "%" ++ (s ++ "%"))
            (param f.state "state" (λ s. s)
              (param f.district "district" (λ s. s) (param f.nic_code "nic_code" (λ s. s) []))),
        keys-param f.state "state" (λ s. s)
            (param f.district "district" (λ s. s) (param f.nic_code "nic_code" (λ s. s) [])),
        keys-param f.district "district" (λ s. s) (param f.nic_code "nic_code" (λ s. s) []),
        keys-param f.nic_code "nic_code" (λ s. s) [],
      )
      refl

-- the condition by which of the filters are given
condition : Bool → Bool → Bool → Bool → String
unfolding join_and
condition a b c d = join_and (
    "1=1"
    ∷ chosen a "e.enterprise_name ILIKE %(name_pattern)s" (
        chosen b "e.state_name = %(state)s" (
          chosen c "e.district_name = %(district)s" (
            chosen d
              ("e.enterprise_key IN "
                ++ "(SELECT enterprise_key FROM BRIDGE_ENTERPRISE_ACTIVITY WHERE nic_code = %(nic_code)s)")
              []))))

where_sql-condition :
    (f : Filters)
    → where_sql f ≡ condition (given f.name) (given f.state) (given f.district) (given f.nic_code)
unfolding where_sql condition clauses
where_sql-condition f = refl

abbrev pub paging_names : List String
paging_names = "limit" ∷ "offset" ∷ []

-- a statement of each kind has a placeholder for each of the names, in the same order
abbrev pub AreBound : String → List String → Type 0
AreBound sql names =
    (placeholders (count_sql sql) ≡ names)
    × (placeholders (search_sql sql) ≡ append names paging_names)
    × (placeholders (export_sql sql) ≡ names)

condition-AreBound : (a b c d : Bool) → AreBound (condition a b c d) (names a b c d)
unfolding condition placeholders count_sql search_sql export_sql
condition-AreBound false false false false = (refl, refl, refl)
condition-AreBound false false false true = (refl, refl, refl)
condition-AreBound false false true false = (refl, refl, refl)
condition-AreBound false false true true = (refl, refl, refl)
condition-AreBound false true false false = (refl, refl, refl)
condition-AreBound false true false true = (refl, refl, refl)
condition-AreBound false true true false = (refl, refl, refl)
condition-AreBound false true true true = (refl, refl, refl)
condition-AreBound true false false false = (refl, refl, refl)
condition-AreBound true false false true = (refl, refl, refl)
condition-AreBound true false true false = (refl, refl, refl)
condition-AreBound true false true true = (refl, refl, refl)
condition-AreBound true true false false = (refl, refl, refl)
condition-AreBound true true false true = (refl, refl, refl)
condition-AreBound true true true false = (refl, refl, refl)
condition-AreBound true true true true = (refl, refl, refl)

-- The statements of a search have exactly one placeholder for each parameter that comes with them, in
-- the same order, and their text does not depend on what the filters hold: it is the same for any two
-- requests that give the same filters. So what a user enters reaches the database only as the value of
-- a parameter, and no parameter is missing.
pub where_sql-Bound :
    (f g : Filters)
    → given f.name ≡ given g.name
    → given f.state ≡ given g.state
    → given f.district ≡ given g.district
    → given f.nic_code ≡ given g.nic_code
    → (where_sql f ≡ where_sql g) × AreBound (where_sql f) (keys (filter_params f))
where_sql-Bound f g h1 h2 h3 h4 = (
  rw (where_sql-condition f, where_sql-condition g, h1, h2, h3, h4) refl,
  rw (where_sql-condition f, keys-filter_params f)
      (condition-AreBound (given f.name) (given f.state) (given f.district) (given f.nic_code)),
)
