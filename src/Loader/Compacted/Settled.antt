-- ===== src/Loader/Compacted/Settled.antt =====
-- The tables in which a compacted file is loaded, and the reads of `process_compacted_file` there.
use udhyam_msme_extractor.Prelude.{
  String, ◌≡◌, refl, true, false, Option, none, some, List, [], ◌∷◌, map, All, arith, str_eq,
  eq_iff,
}
use udhyam_msme_extractor.Prelude.Int.{pos, eqb_ℤ-refl}
use udhyam_msme_extractor.Exec.{ok}
use udhyam_msme_extractor.Loader.Warehouse.{Warehouse, LedgerRow, RawRows, LedgerUpdate}
use udhyam_msme_extractor.Loader.Checks.{Entry, File, contains}
use udhyam_msme_extractor.Loader.Checks.Unique.{Distinct}
use udhyam_msme_extractor.Loader.Plan.{InFull, InFull-present}
use udhyam_msme_extractor.Loader.Compacted.{
  ledger_agrees, row_agrees, present, load_status, plan, judge_batch, verify, update_of,
  ledger_checks,
}

-- the ledger row that a source row of the MERGE statement writes
abbrev pub written_row : LedgerUpdate → LedgerRow
written_row u = record {
  load_status = some u.load_status;
  expected_rows = some u.expected_rows;
  loaded_rows = some u.loaded_rows;
  checksum = some u.checksum;
}

-- no two source rows have the same BATCH_ID
abbrev pub Unique : List LedgerUpdate → Type 0
Unique [] = Unit
Unique (u ∷ us) = All (λ v. str_eq u.batch_id v.batch_id ≡ false) us × Unique us

-- What Snowflake promises of a MERGE whose keys are unique and the COMMIT of it: what is read of the
-- ledger then has the written row of each key, and what is read of the other table is unchanged.
pub record Faithful {Db : Type 0} (warehouse : Warehouse Db) : Type 0 where
  pub stored :
      (us : List LedgerUpdate) (d merged d' : Db) (statuses : String → Option LedgerRow)
      → Unique us
      → warehouse.merge us d ≡ (ok tt, merged)
      → warehouse.commit merged ≡ (ok tt, d')
      → warehouse.ledger d' ≡ ok statuses
      → All (λ u. statuses u.batch_id ≡ some (written_row u)) us
  pub untouched :
      (us : List LedgerUpdate) (d merged d' : Db) (run_id : String)
      (rows rows' : String → Option RawRows)
      → warehouse.merge us d ≡ (ok tt, merged)
      → warehouse.commit merged ≡ (ok tt, d')
      → warehouse.raw d run_id ≡ ok rows
      → warehouse.raw d' run_id ≡ ok rows'
      → (id : String) → rows' id ≡ rows id

contains-head :
    (x y : String) (seen : List String) → contains y (x ∷ seen) ≡ false → str_eq x y ≡ false
unfolding contains
contains-head x y seen h = ground arith

contains-tail :
    (x y : String) (seen : List String) → contains y (x ∷ seen) ≡ false → contains y seen ≡ false
unfolding contains
contains-tail x y seen h = ground arith

module _ (f : File) where
  abbrev pub update : Entry → LedgerUpdate
  update e = update_of f e e.record_count "LOADED"

  module _ (x : String) where
    Apart : List Entry → Type 0
    Apart es = All (λ v. str_eq x v.batch_id ≡ false) (map update es)

    Distinct-Apart :
        (seen : List String) (es : List Entry)
        → ((y : String) → contains y seen ≡ false → str_eq x y ≡ false)
        → Distinct f.run_id f.state seen es
        → Apart es
    unfolding Apart update_of
    Distinct-Apart seen [] k h = tt
    Distinct-Apart seen (e ∷ es) k (fresh, rest) = (
      k e.batch_id fresh,
      Distinct-Apart (e.batch_id ∷ seen) es (λ y m. k y (contains-tail e.batch_id y seen m)) rest,
    )

  pub Distinct-Unique :
      (seen : List String) (es : List Entry)
      → Distinct f.run_id f.state seen es
      → Unique (map update es)
  unfolding Apart update_of
  Distinct-Unique seen [] h = tt
  Distinct-Unique seen (e ∷ es) (fresh, rest) = (
    Distinct-Apart e.batch_id (e.batch_id ∷ seen) es (λ y m. contains-head e.batch_id y seen m)
        rest,
    Distinct-Unique (e.batch_id ∷ seen) es rest,
  )

  -- the ledger says of every batch that it is loaded, as `loaded_updates` wrote it
  abbrev pub InLedger : (String → Option LedgerRow) → List Entry → Type 0
  InLedger statuses = All (λ e. statuses e.batch_id ≡ some (written_row (update e)))

  written_row-agrees : (e : Entry) → row_agrees e (written_row (update e)) ≡ true
  unfolding row_agrees update_of
  written_row-agrees e =
      rw ((eq_iff e.checksum e.checksum).1 refl, eqb_ℤ-refl (pos e.record_count)) refl

  pub ledger_checks-again :
      (statuses : String → Option LedgerRow) (es : List Entry)
      → InLedger statuses es
      → ledger_checks statuses es ≡ ok tt
  unfolding ledger_checks ledger_agrees
  ledger_checks-again statuses [] h = refl
  ledger_checks-again statuses (e ∷ es) (h, hs) =
      rw (h, written_row-agrees e) (ledger_checks-again statuses es hs)

-- every batch is among the rows in full
abbrev pub AllFull : (String → Option RawRows) → List Entry → Type 0
AllFull rows = All (λ e. InFull e (rows e.batch_id))

pub verify-again :
    (rows : String → Option RawRows) (es : List Entry) → AllFull rows es → verify rows es ≡ ok tt
unfolding verify
verify-again rows [] h = refl
verify-again rows (e ∷ es) (h, hs) =
    rw (InFull-present e (rows e.batch_id) h) (verify-again rows es hs)

judge-again :
    (e : Entry) (status : Option String) (raw : Option RawRows)
    → present e raw ≡ true
    → judge_batch e status raw ≡ ok false
unfolding present judge_batch
judge-again e status none h = ground arith
judge-again e status (some raw) h = rw h refl

pub plan-again :
    (statuses : String → Option LedgerRow) (rows : String → Option RawRows) (es : List Entry)
    → AllFull rows es
    → plan statuses rows es ≡ ok []
unfolding plan
plan-again statuses rows [] h = refl
plan-again statuses rows (e ∷ es) (h, hs) =
    rw
      (
        judge-again e (load_status (statuses e.batch_id)) (rows e.batch_id)
            (InFull-present e (rows e.batch_id) h),
        plan-again statuses rows es hs,
      )
      refl
