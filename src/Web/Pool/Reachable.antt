-- ===== src/Web/Pool/Reachable.antt =====
-- A query is answered whenever a slot is free and the database can be reached.
use Prim.Native.String.{String}
use udhyam_msme_extractor.Prelude.{
  ◌≡◌, refl, Bool, true, false, Option, none, some, List, [], ◌∷◌, ◌++◌, if◌then◌else◌, subst,
}
use udhyam_msme_extractor.Exec.{Result, ok, err}
use udhyam_msme_extractor.Exec.Triple.{Post, Triple, Triple-bind}
use udhyam_msme_extractor.Web.Values.{Driver, Service, Web, Params, SqlRow, CacheKey-Key}
use udhyam_msme_extractor.Web.Pool.{
  from_db, run_query, with_connection, enter, take_slot, open_slot, checked, replaced, connect,
  exit, on_db,
}

module _ {Db Conn : Type 0} (driver : Driver Db Conn) where
  -- a connection can be opened whenever it is tried
  abbrev pub IsReachable : Type 0
  IsReachable = (db : Db) → (conn : Conn) × ((driver.connect db).0 ≡ ok conn)

  -- the statement is answered with such rows, whatever its parameters
  abbrev pub IsAnswered : String → (List SqlRow → Type 0) → Type 0
  IsAnswered sql P =
      (conn : Conn) (params : Params) (db : Db)
      → (rows : List SqlRow) × P rows × ((driver.execute conn sql params db).0 ≡ ok rows)

  -- the queue is not empty
  abbrev pub HasSlot : Service Db Conn → Type 0
  HasSlot s = (slot : Option Conn) × (rest : List (Option Conn)) × (s.slots ≡ slot ∷ rest)

  -- code that raises nothing
  abbrev pub Runs :
      {A : Type 0}
      → (Service Db Conn → Type 0)
      → Web Db Conn A
      → (A → Service Db Conn → Type 0)
      → Type 0
  Runs P m Q = Triple P m Q (λ _ _. ⊥)

  ok-Post :
      {A : Type 0} (Q : A → Service Db Conn → Type 0) (r : Result String A) (a : A)
      (s : Service Db Conn)
      → r ≡ ok a
      → Q a s
      → Post Q (λ _ _. ⊥) (from_db r, s)
  ok-Post Q (ok b) a s e h = let same : a ≡ b = cc in subst (λ x. Q x s) same h
  ok-Post Q (err x) a s e h = cc

  connect-Runs : IsReachable → Runs (λ _. Unit) (connect driver) (λ _ _. Unit)
  unfolding connect on_db
  connect-Runs reachable = record {
    at = λ s u.
        ok-Post (λ _ _. Unit) (driver.connect s.db).0 (reachable s.db).0
          (record s { db = (driver.connect s.db).1 }) (reachable s.db).1 tt;
  }

  checked-Runs :
      IsReachable
      → (conn : Conn) (alive : Bool) (db : Db)
      → Runs (λ _. Unit) (checked driver conn (alive, db)) (λ _ _. Unit)
  unfolding checked replaced
  checked-Runs reachable conn true db = record { at = λ s u. tt }
  checked-Runs reachable conn false db = record {
    at = λ s u. (connect-Runs reachable).at (record s { db = driver.close conn db }) tt;
  }

  closed-Post :
      IsReachable
      → (conn : Conn) (closed : Bool) (s : Service Db Conn)
      → Post
          (λ _ _. Unit)
          (λ _ _. ⊥)
          (if closed
            then replaced driver conn s
            else checked driver conn (driver.answers conn s.db) s)
  unfolding replaced
  closed-Post reachable conn true s =
      (connect-Runs reachable).at (record s { db = driver.close conn s.db }) tt
  closed-Post reachable conn false s =
      (checked-Runs reachable conn (driver.answers conn s.db).0 (driver.answers conn s.db).1).at s
        tt

  open_slot-Runs :
      IsReachable → (slot : Option Conn) → Runs (λ _. Unit) (open_slot driver slot) (λ _ _. Unit)
  unfolding open_slot
  open_slot-Runs reachable none = record { at = λ s u. (connect-Runs reachable).at s tt }
  open_slot-Runs reachable (some conn) = record {
    at = λ s u. closed-Post reachable conn (driver.is_closed conn s.db) s;
  }

  enter-Runs : IsReachable → Runs HasSlot (enter driver) (λ _ _. Unit)
  unfolding enter take_slot
  enter-Runs reachable = record {
    at = λ s (slot, rest, e).
        rw e ((open_slot-Runs reachable slot).at (record s { slots = rest }) tt);
  }

  returned :
      (conn : Conn) (slots : List (Option Conn))
      → (slot : Option Conn) × (rest : List (Option Conn)) × (slots ++ (some conn ∷ [])
          ≡ slot ∷ rest)
  returned conn [] = (some conn, [], refl)
  returned conn (slot ∷ slots) = (slot, slots ++ (some conn ∷ []), refl)

  pub run_query-Runs :
      (sql : String) (params : Params) (P : List SqlRow → Type 0)
      → IsReachable
      → IsAnswered sql P
      → Runs HasSlot (run_query driver sql params) (λ rows s. P rows × HasSlot s)
  unfolding run_query with_connection on_db exit
  run_query-Runs sql params P reachable answered =
      Triple-bind {A = Conn} (λ _ _. Unit) (enter driver) _ (enter-Runs reachable)
        (λ conn. record {
          at = λ s u.
              let (rows, p, e) = answered conn params s.db in
              let db = (driver.execute conn sql params s.db).1 in
              ok-Post (λ rows s. P rows × HasSlot s) (driver.execute conn sql params s.db).0 rows
                (exit driver conn (record s { db = db })) e (p, returned conn s.slots);
        })
