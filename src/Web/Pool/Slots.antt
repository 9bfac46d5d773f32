-- ===== src/Web/Pool/Slots.antt =====
-- The slots of the pool: how many there are while threads borrow and return connections.
use udhyam_msme_extractor.Prelude.{
  String, ◌≡◌, refl, ◌+◌, Option, none, some, Bool, true, false, List, [], ◌∷◌, ◌++◌, ℕ, zero, suc,
  arith, length, length-append, ap, sym, ◌∙◌, if◌then◌else◌,
}
use udhyam_msme_extractor.Exec.{Result, ok, err, ◌>>=◌}
use udhyam_msme_extractor.Web.Values.{Driver, Service, Web, Params, WebError, queue_empty}
use udhyam_msme_extractor.Web.Pool.{
  from_db, lazy_slots, connect, open_slot, take_slot, checked, replaced, enter, exit, run_query,
  with_connection, on_db,
}

-- The threads at work on a pool: what they share, the slots that they have taken from the queue and are
-- opening, the connections that they have borrowed, and how many times a connection could not be opened.
pub record Threads (Db Conn : Type 0) : Type 0 where
  pub service : Service Db Conn
  pub opening : List (Option Conn)
  pub borrowed : List Conn
  pub failures : ℕ

length-lazy_slots : (Conn : Type 0) (n : ℕ) → length (lazy_slots {Conn = Conn} n) ≡ n
unfolding lazy_slots
length-lazy_slots Conn zero = refl
length-lazy_slots Conn (suc n) = omega (arith, length-lazy_slots Conn n)

module _ {Db Conn : Type 0} (driver : Driver Db Conn) where
  -- A step of some thread. `__enter__` takes two: it takes a slot from the queue, or finds it empty and
  -- raises; and it opens the connection of the slot, which works on the database alone, or raises.
  -- Between the two other threads run. The
  -- others are any use of the database, and `__exit__` of a thread that has a connection.
  pub data Step : Threads Db Conn → Threads Db Conn → Type 0 where
    takes :
        (t : Threads Db Conn) (slot : Option Conn) (rest : List (Option Conn))
        → t.service.slots ≡ slot ∷ rest
        → Step t
            (record t { service = record t.service { slots = rest }; opening = slot ∷ t.opening })
    finds_empty : (t : Threads Db Conn) → t.service.slots ≡ [] → Step t t
    opens :
        (s : Service Db Conn) (l : List (Option Conn)) (slot : Option Conn) (r : List (Option Conn))
        (borrowed : List Conn) (failures : ℕ) (conn : Conn) (s' : Service Db Conn)
        → open_slot driver slot s ≡ (ok conn, s')
        → Step
            (record {
              service = s;
              opening = l ++ (slot ∷ r);
              borrowed = borrowed;
              failures = failures;
            })
            (record {
              service = s';
              opening = l ++ r;
              borrowed = conn ∷ borrowed;
              failures = failures;
            })
    fails :
        (s : Service Db Conn) (l : List (Option Conn)) (slot : Option Conn) (r : List (Option Conn))
        (borrowed : List Conn) (failures : ℕ) (e : WebError) (s' : Service Db Conn)
        → open_slot driver slot s ≡ (err e, s')
        → Step
            (record {
              service = s;
              opening = l ++ (slot ∷ r);
              borrowed = borrowed;
              failures = failures;
            })
            (record {
              service = s';
              opening = l ++ r;
              borrowed = borrowed;
              failures = suc failures;
            })
    works :
        (t : Threads Db Conn) (db : Db)
        → Step t (record t { service = record t.service { db = db } })
    returns :
        (s : Service Db Conn) (opening : List (Option Conn)) (l : List Conn) (conn : Conn)
        (r : List Conn) (failures : ℕ)
        → Step
            (record {
              service = s;
              opening = opening;
              borrowed = l ++ (conn ∷ r);
              failures = failures;
            })
            (record {
              service = exit driver conn s;
              opening = opening;
              borrowed = l ++ r;
              failures = failures;
            })

  pub data Reach (n : ℕ) : Threads Db Conn → Type 0 where
    start :
        (s : Service Db Conn)
        → s.slots ≡ lazy_slots n
        → Reach n (record { service = s; opening = []; borrowed = []; failures = 0 })
    next : {t t' : Threads Db Conn} → Reach n t → Step t t' → Reach n t'

  checked-slots :
      (conn : Conn) (alive : Bool) (db : Db) (s : Service Db Conn)
      → (checked driver conn (alive, db) s).1.slots ≡ s.slots
  unfolding checked replaced connect on_db
  checked-slots conn true db s = refl
  checked-slots conn false db s = refl

  closed_slots :
      (conn : Conn) (closed : Bool) (s : Service Db Conn)
      → (if closed
          then replaced driver conn s
          else checked driver conn (driver.answers conn s.db) s).1.slots
        ≡ s.slots
  unfolding replaced connect on_db
  closed_slots conn true s = refl
  closed_slots conn false s =
      checked-slots conn (driver.answers conn s.db).0 (driver.answers conn s.db).1 s

  -- opening a slot leaves the others in the queue, whether it succeeds or not
  open_slot-slots :
      (slot : Option Conn) (s : Service Db Conn) → (open_slot driver slot s).1.slots ≡ s.slots
  unfolding open_slot connect on_db
  open_slot-slots none s = refl
  open_slot-slots (some conn) s = closed_slots conn (driver.is_closed conn s.db) s

  opened-slots :
      (slot : Option Conn) (s s' : Service Db Conn) (r : Result WebError Conn)
      → open_slot driver slot s ≡ (r, s')
      → length s'.slots ≡ length s.slots
  opened-slots slot s s' r e =
      sym (ap (λ q. length q.1.slots) e) ∙ ap length (open_slot-slots slot s)

  -- Each of the pool's slots is in the queue, with a thread that is opening it, with a thread that has
  -- its connection, or lost by a call of `__enter__` that raised.
  abbrev pub IsCounted : ℕ → Threads Db Conn → Type 0
  IsCounted n t = length t.service.slots + length t.opening + length t.borrowed + t.failures ≡ n

  Step-IsCounted : {t t' : Threads Db Conn} (n : ℕ) → Step t t' → IsCounted n t → IsCounted n t'
  unfolding exit
  Step-IsCounted n (takes t slot rest e) h =
      let k : length t.service.slots ≡ suc (length rest) = ap length e in omega (arith, h, k)
  Step-IsCounted n (finds_empty t e) h = h
  Step-IsCounted n (opens s l slot r borrowed failures conn s' e) h =
      omega (
        arith,
        h,
        opened-slots slot s s' (ok conn) e,
        length-append l (slot ∷ r),
        length-append l r,
      )
  Step-IsCounted n (fails s l slot r borrowed failures x s' e) h =
      omega
        (arith, h, opened-slots slot s s' (err x) e, length-append l (slot ∷ r), length-append l r)
  Step-IsCounted n (works t db) h = h
  Step-IsCounted n (returns s opening l conn r failures) h = omega (
    arith,
    h,
    length-append l (conn ∷ r),
    length-append l r,
    length-append s.slots (some conn ∷ []),
  )

  -- However the threads are interleaved, also between the two steps of `__enter__`: the slots in the
  -- queue, those that are being opened, the connections that are borrowed and the calls of `__enter__`
  -- that could not open a slot add up to the pool's size. So the queue of that size always has room for
  -- a connection that is returned, and slots are lost only by those calls, one by each.
  pub Reach-IsCounted : (n : ℕ) (t : Threads Db Conn) → Reach n t → IsCounted n t
  Reach-IsCounted n _ (start s e) = rw e (omega (arith, length-lazy_slots Conn n))
  Reach-IsCounted n t (next r s) = Step-IsCounted n s (Reach-IsCounted n _ r)

-- The queries of a loop, whatever they return.
unfoldable pub repeat_query :
    {Db Conn : Type 0} → Driver Db Conn → String → Params → ℕ → Service Db Conn → Service Db Conn
repeat_query driver sql params zero s = s
repeat_query driver sql params (suc n) s =
    repeat_query driver sql params n (run_query driver sql params s).1

-- no connection can be opened, whatever the state of the network
abbrev pub Unreachable : {Db Conn : Type 0} → Driver Db Conn → Type 0
Unreachable {Db = Db} driver =
    (db : Db) → (message : String) × ((driver.connect db).0 ≡ err message)

module _ {Db Conn : Type 0} (down up : Driver Db Conn) (unreachable : Unreachable down)
    (sql : String) (params : Params) where
  after_failure :
      {A : Type 0} (f : Conn → Web Db Conn A) (r : Result String Conn) (s : Service Db Conn)
      (message : String)
      → r ≡ err message
      → (((λ _. (from_db r, s)) >>= f) s).1.slots ≡ s.slots
  after_failure f (ok conn) s message e = cc
  after_failure f (err x) s message e = refl

  drops_slot :
      (n : ℕ) (s : Service Db Conn)
      → s.slots ≡ none ∷ lazy_slots n
      → (run_query down sql params s).1.slots ≡ lazy_slots n
  unfolding run_query with_connection enter take_slot open_slot connect on_db exit
  drops_slot n s e = rw e (
      after_failure
        (λ conn s'.
          let (r, s'') = on_db down (down.execute conn sql params) s' in (r, exit down conn s''))
        (down.connect s.db).0 (record s { slots = lazy_slots n; db = (down.connect s.db).1 })
        (unreachable s.db).0 (unreachable s.db).1)

  drained :
      (n : ℕ) (s : Service Db Conn)
      → s.slots ≡ lazy_slots n
      → (repeat_query down sql params n s).slots ≡ []
  unfolding repeat_query lazy_slots
  drained zero s e = e
  drained (suc n) s e = drained n (run_query down sql params s).1 (drops_slot n s e)

  -- Once as many queries as the pool has slots could not open their connection, the pool is empty for
  -- good: a later query raises `queue.Empty` and changes nothing, even if the database can be reached
  -- again by then.
  pub run_query-drained :
      (n : ℕ) (s : Service Db Conn)
      → s.slots ≡ lazy_slots n
      → run_query up sql params (repeat_query down sql params n s)
        ≡ (err queue_empty, repeat_query down sql params n s)
  unfolding run_query with_connection enter take_slot
  run_query-drained n s e = rw (drained n s e) refl
