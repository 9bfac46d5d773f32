-- ===== src/Web/Values.antt =====
-- What webapp/backend works with: the values of the database, the client library and the clock, which
-- are a parameter, and the state of the process.
use udhyam_msme_extractor.Prelude.{
  String, ◌≡◌, ◌↔◌, refl, ap, Bool, true, false, not, ◌&&◌, Option, List, [], ◌∷◌, ℕ, ◌==◌, ◌*◌,
  arith, str_eq, eq_iff,
}
use udhyam_msme_extractor.Prelude.Text.{is_blank}
use udhyam_msme_extractor.Exec.{Exec}
use udhyam_msme_extractor.Web.Cache.{Key, Entries, Place}

-- `datetime`, without its time zone
pub record DateTime : Type 0 where
  pub year : ℕ
  pub month : ℕ
  pub day : ℕ
  pub hour : ℕ
  pub minute : ℕ
  pub second : ℕ
  pub microsecond : ℕ

-- A value of a column, or of a parameter of a statement.
pub data Value : Type 0 where
  null : Value
  str : String → Value
  int : ℕ → Value
  timestamp : DateTime → Value

abbrev pub SqlRow : Type 0
SqlRow = List Value

-- the parameters of a statement by name
abbrev pub Params : Type 0
Params = List (String × Value)

-- `bool(value)`
abbrev pub is_truthy : Value → Bool
is_truthy null = false
is_truthy (str s) = not (is_blank s)
is_truthy (int n) = not (n == 0)
is_truthy (timestamp t) = true

-- An HTTPException; `queue.Empty`; an exception of the client library; a row or a value of another
-- shape than the code expects. FastAPI answers 500 to all but the first.
pub data WebError : Type 0 where
  http_exception : ℕ → String → WebError
  queue_empty : WebError
  database_error : String → WebError
  unexpected_value : WebError

-- snowflake.connector and the clock: `Db` is the database with the network, `Conn` a connection.
pub record Driver (Db Conn : Type 0) : Type 0 where
  pub connect : Exec Db String Conn
  pub is_closed : Conn → Db → Bool
  -- whether `SELECT 1` returns
  pub answers : Conn → Db → Bool × Db
  pub close : Conn → Db → Db
  pub execute : Conn → String → Params → Exec Db String (List SqlRow)
  pub time : Db → ℕ
  -- `str(value)`
  pub text_of : Value → String
  -- a text where a field is an int, as pydantic reads it
  pub int_of_text : String → Option ℕ

-- An item of a key of a cache.
pub data Part : Type 0 where
  absent : Part
  word : String → Part
  num : ℕ → Part

same_part : Part → Part → Bool
same_part absent absent = true
same_part (word s) (word t) = str_eq s t
same_part (num m) (num n) = m == n
same_part _ _ = false

-- A text or a tuple as a key.
abbrev pub CacheKey : Type 0
CacheKey = List Part

unfoldable pub same_key : CacheKey → CacheKey → Bool
unfolding same_part
same_key [] [] = true
same_key (a ∷ xs) (b ∷ ys) = same_part a b && same_key xs ys
same_key _ _ = false

same_part_iff : (a b : Part) → (same_part a b ≡ true) ↔ (a ≡ b)
unfolding same_part
same_part_iff absent absent = (λ _. refl, λ _. refl)
same_part_iff absent (word t) = (λ h. cc, λ h. cc)
same_part_iff absent (num n) = (λ h. cc, λ h. cc)
same_part_iff (word s) absent = (λ h. cc, λ h. cc)
same_part_iff (word s) (word t) = (λ h. ap word ((eq_iff s t).0 h), λ h. (eq_iff s t).1 cc)
same_part_iff (word s) (num n) = (λ h. cc, λ h. cc)
same_part_iff (num m) absent = (λ h. cc, λ h. cc)
same_part_iff (num m) (word t) = (λ h. cc, λ h. cc)
same_part_iff (num m) (num n) =
    (λ h. let e : m ≡ n = ground arith in ap num e, λ h. let e : m ≡ n = cc in ground arith)

-- the items agree one by one
both :
    (a b : Part) (p q : Bool)
    → (p ≡ true) ↔ (a ≡ b)
    → (xs ys : CacheKey) → (q ≡ true) ↔ (xs ≡ ys)
    → (p && q ≡ true) ↔ (a ∷ xs ≡ b ∷ ys)
both a b true q f xs ys g = (λ h. let e = f.0 refl in let e' = g.0 h in cc, λ h. g.1 cc)
both a b false q f xs ys g = (λ h. cc, λ h. f.1 cc)

pub same_key_iff : (k j : CacheKey) → (same_key k j ≡ true) ↔ (k ≡ j)
unfolding same_key
same_key_iff [] [] = (λ _. refl, λ _. refl)
same_key_iff [] (b ∷ ys) = (λ h. cc, λ h. cc)
same_key_iff (a ∷ xs) [] = (λ h. cc, λ h. cc)
same_key_iff (a ∷ xs) (b ∷ ys) =
    both a b (same_part a b) (same_key xs ys) (same_part_iff a b) xs ys (same_key_iff xs ys)

instance unfoldable pub CacheKey-Key : Key CacheKey
CacheKey-Key = record { same = same_key; same_iff = same_key_iff }

-- What a cache of look-ups holds: the body of the response.
pub data Answer : Type 0 where
  values : List Value → Answer
  codes : List (Value × Value) → Answer
  points : List (Value × Value) → Answer
  updated : Option (String × String) → Answer
  summary : Value → Value → Value → Value → Answer

-- The state of the process, and the database's: the pool and the two caches.
pub record Service (Db Conn : Type 0) : Type 0 where
  pub db : Db
  pub slots : List (Option Conn)
  pub lookups : Entries CacheKey Answer
  pub counts : Entries CacheKey Value

abbrev pub Web : Type 0 → Type 0 → Type 0 → Type 0
Web Db Conn A = Exec (Service Db Conn) WebError A

module _ {Db Conn : Type 0} (driver : Driver Db Conn) where
  -- `_lookup_cache`
  abbrev pub lookup_cache : Place (Service Db Conn) CacheKey Answer
  lookup_cache = record {
    ttl = 6 * 60 * 60;
    entries = λ s. s.lookups;
    replace = λ entries s. record s { lookups = entries };
    time = λ s. driver.time s.db;
  }

  -- `_count_cache`
  abbrev pub count_cache : Place (Service Db Conn) CacheKey Value
  count_cache = record {
    ttl = 5 * 60;
    entries = λ s. s.counts;
    replace = λ entries s. record s { counts = entries };
    time = λ s. driver.time s.db;
  }
