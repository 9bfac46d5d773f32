-- ===== src/Web/Pool.antt =====
-- snowflake_client.py: the pool of connections. A slot is `none` until it is used first. A query waits
-- 15 seconds for a slot; with no other thread at work an empty queue stays empty.
pub mod Slots
pub mod Reachable
use udhyam_msme_extractor.Prelude.{
  String, Option, none, some, List, [], ◌∷◌, ◌++◌, ℕ, zero, suc, Bool, if◌then◌else◌,
}
use udhyam_msme_extractor.Exec.{Exec, Result, ok, err, raise, ◌>>=◌}
use udhyam_msme_extractor.Web.Values.{
  Driver, Service, Web, WebError, queue_empty, database_error, Params, SqlRow,
}

-- the first slots of the queue: `_pool.put(None)` for each
unfoldable pub lazy_slots : {Conn : Type 0} → ℕ → List (Option Conn)
lazy_slots zero = []
lazy_slots (suc n) = none ∷ lazy_slots n

abbrev pub from_db : {A : Type 0} → Result String A → Result WebError A
from_db (ok a) = ok a
from_db (err message) = err (database_error message)

module _ {Db Conn : Type 0} (driver : Driver Db Conn) where
  -- a call of the client library
  unfoldable pub on_db : {A : Type 0} → Exec Db String A → Web Db Conn A
  on_db m s = let (r, db) = m s.db in (from_db r, record s { db = db })

  -- `_connect()`
  unfoldable pub connect : Web Db Conn Conn
  unfolding on_db
  connect = on_db driver.connect

  -- `conn.close()`, whose exceptions are dropped, and a new connection
  replaced : Conn → Web Db Conn Conn
  unfolding connect
  replaced conn s = connect (record s { db = driver.close conn s.db })

  checked : Conn → Bool × Db → Web Db Conn Conn
  unfolding replaced
  checked conn (alive, db) s =
      if alive then (ok conn, record s { db = db }) else replaced conn (record s { db = db })

  unfoldable pub open_slot : Option Conn → Web Db Conn Conn
  unfolding connect replaced checked
  open_slot none s = connect s
  open_slot (some conn) s =
      if driver.is_closed conn s.db
      then replaced conn s
      else checked conn (driver.answers conn s.db) s

  take_slot : List (Option Conn) → Web Db Conn Conn
  unfolding open_slot
  take_slot [] s = (err queue_empty, s)
  take_slot (slot ∷ rest) s = open_slot slot (record s { slots = rest })

  -- `__enter__`
  unfoldable pub enter : Web Db Conn Conn
  unfolding take_slot
  enter s = take_slot s.slots s

  -- `__exit__`
  unfoldable pub exit : Conn → Service Db Conn → Service Db Conn
  exit conn s = record s { slots = s.slots ++ (some conn ∷ []) }

  -- `with get_connection() as conn: m`; `__exit__` is called whether `m` raises or not
  unfoldable pub with_connection : {A : Type 0} → (Conn → Web Db Conn A) → Web Db Conn A
  unfolding enter exit
  with_connection m = enter >>= λ conn s. let (r, s') = m conn s in (r, exit conn s')

  -- `_run_query` of main.py
  unfoldable pub run_query : String → Params → Web Db Conn (List SqlRow)
  unfolding with_connection on_db
  run_query sql params = with_connection λ conn. on_db (driver.execute conn sql params)
