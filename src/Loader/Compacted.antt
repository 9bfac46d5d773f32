-- ===== src/Loader/Compacted.antt =====
-- `process_compacted_file`: the not-yet-present batches of one compacted file are inserted, all are
-- reconciled against the RAW rows, and the ledger is updated in the same transaction.
pub mod Marks
pub mod Undo
pub mod Loads
pub mod Settled
pub mod Again
use udhyam_msme_extractor.Prelude.{
  String, Bool, true, false, not, ◌&&◌, ◌||◌, Option, none, some, List, [], ◌∷◌, map, ℕ, ◌-◌, ◌==◌,
  get_or, is_empty, str_eq, if◌then◌else◌,
}
use udhyam_msme_extractor.Prelude.Int.{ℤ, pos, eqb_ℤ}
use udhyam_msme_extractor.Records.{ManifestRecord}
use udhyam_msme_extractor.Exec.{Exec, Result, ok, err}
use udhyam_msme_extractor.Exec
use udhyam_msme_extractor.Extractor.Manifest.{has}
use udhyam_msme_extractor.Loader.Warehouse.{
  Warehouse, LedgerRow, RawRows, LedgerUpdate, LoaderError, loaded_mismatch, loaded_without_rows,
  loading_without_rows, rows_do_not_reconcile, reconciliation_failed, database, selected,
}
use udhyam_msme_extractor.Loader.Checks.{Entry, File, check_file, rows_of, raise_if, ◌>>=◌, ◌>>◌}

-- `value == int` for a column that may be NULL
abbrev pub equals : Option ℤ → ℕ → Bool
equals none n = false
equals (some z) n = eqb_ℤ z (pos n)

abbrev pub load_status : Option LedgerRow → Option String
load_status none = none
load_status (some row) = row.load_status

-- a row that is marked LOADED agrees with the manifest
unfoldable pub row_agrees : Entry → LedgerRow → Bool
row_agrees e row =
    not (has row.load_status "LOADED")
    || (equals row.expected_rows e.record_count
        && has row.checksum e.checksum
        && equals row.loaded_rows e.record_count)

unfoldable pub ledger_agrees : Entry → Option LedgerRow → Bool
unfolding row_agrees
ledger_agrees e none = true
ledger_agrees e (some row) = row_agrees e row

-- the RAW rows of a batch are exactly those that its manifest entry announces
unfoldable pub reconciles : Entry → RawRows → Bool
reconciles e raw =
    raw.count == e.record_count
    && raw.source_count == 1
    && has raw.source_file e.source_file
    && equals raw.offset e.offset
    && raw.offset_count == 1

unfoldable pub present : Entry → Option RawRows → Bool
unfolding reconciles
present e none = false
present e (some raw) = reconciles e raw

unfoldable pub update_of : File → Entry → ℕ → String → LedgerUpdate
update_of f e loaded status = record {
  run_id = f.run_id;
  batch_id = e.batch_id;
  state = f.state;
  source_file = get_or e.source_uri e.source_file;
  source_offset = pos e.offset;
  expected_rows = pos e.record_count;
  loaded_rows = pos loaded;
  checksum = e.checksum;
  load_status = status;
}

pub ledger_checks : (String → Option LedgerRow) → List Entry → Result LoaderError (Unit {0})
unfolding ledger_agrees
ledger_checks statuses [] = ok tt
ledger_checks statuses (e ∷ es) = do
  raise_if (not (ledger_agrees e (statuses e.batch_id))) (loaded_mismatch e.batch_id)
  ledger_checks statuses es

-- whether a batch is to be loaded, or why the file is refused
unfoldable pub judge_batch : Entry → Option String → Option RawRows → Result LoaderError Bool
unfolding reconciles
judge_batch e status none =
    if has status "LOADED"
    then err (loaded_without_rows e.batch_id)
    else if has status "LOADING"
    then err (loading_without_rows e.batch_id)
    else ok true
judge_batch e status (some raw) =
    if reconciles e raw then ok false else err (rows_do_not_reconcile e.batch_id)

abbrev pub keep_if : Bool → Entry → List Entry → List Entry
keep_if true e es = e ∷ es
keep_if false e es = es

-- `batches_to_load`
unfoldable pub plan :
    (String → Option LedgerRow)
    → (String → Option RawRows)
    → List Entry
    → Result LoaderError (List Entry)
unfolding judge_batch
plan statuses rows [] = ok []
plan statuses rows (e ∷ es) = do
  load ← judge_batch e (load_status (statuses e.batch_id)) (rows e.batch_id)
  rest ← plan statuses rows es
  ok (keep_if load e rest)

-- the reconciliation after the insert
unfoldable pub verify : (String → Option RawRows) → List Entry → Result LoaderError (Unit {0})
unfolding present
verify rows [] = ok tt
verify rows (e ∷ es) = do
  raise_if (not (present e (rows e.batch_id))) (reconciliation_failed e.batch_id)
  verify rows es

pub loaded_updates : File → List LedgerUpdate
unfolding update_of
loaded_updates f = map (λ e. update_of f e e.record_count "LOADED") f.entries

pub failed_updates : File → List Entry → List LedgerUpdate
unfolding update_of
failed_updates f = map (λ e. update_of f e 0 "FAILED")

module _ {Db : Type 0} (warehouse : Warehouse Db) where
  -- everything that is decided before anything is written
  unfoldable pub prepare : String → ManifestRecord → Db → Result LoaderError (File × List Entry)
  unfolding check_file ledger_checks plan
  prepare run_id r db = do
    f ← check_file run_id r
    statuses ← selected (warehouse.ledger db)
    ledger_checks statuses f.entries
    rows ← selected (warehouse.raw db f.run_id)
    to_load ← plan statuses rows f.entries
    ok (f, to_load)

  raised : {A : Type 0} → Exec Db String A → Exec Db LoaderError A
  raised m db =
      let (r, db') = m db in elim r [ ok a ↦ (ok a, db') | err e ↦ (err (database e), db') ]

  -- `copy_compacted_file`
  unfoldable pub copy_compacted_file : File → List Entry → Exec Db LoaderError (Unit {0})
  unfolding raised
  copy_compacted_file f [] = Exec.pure tt
  copy_compacted_file f (e ∷ es) =
      raised (warehouse.insert f.run_id f.state f.path (map (λ b. b.batch_id) (e ∷ es)))

  unfoldable pub reconcile : File → Db → Result LoaderError (Unit {0})
  unfolding verify
  reconcile f db = do rows ← selected (warehouse.raw db f.run_id); verify rows f.entries

  -- the body of the `try`
  unfoldable pub load : File → List Entry → Exec Db LoaderError (Unit {0})
  unfolding copy_compacted_file reconcile loaded_updates raised
  load f to_load = Exec.◌>>◌ (copy_compacted_file f to_load) (
      Exec.◌>>◌ (λ db. (reconcile f db, db))
        (Exec.◌>>◌ (raised (warehouse.merge (loaded_updates f))) (raised warehouse.commit)))

  -- the failure is recorded in a transaction of its own; if that fails too, it is rolled back
  pub record_failure : List LedgerUpdate → Exec Db LoaderError (Unit {0})
  unfolding raised
  record_failure [] db = (ok tt, db)
  record_failure (u ∷ us) db =
      let (r, db') = Exec.◌>>◌ (warehouse.merge (u ∷ us)) warehouse.commit db in
      elim r [ ok _ ↦ (ok tt, db') | err _ ↦ raised warehouse.rollback db' ]

  -- `except Exception`; what it raises itself takes the place of the exception
  pub undo : File → List Entry → LoaderError → Exec Db LoaderError (Unit {0})
  unfolding failed_updates record_failure raised
  undo f to_load e =
      Exec.◌>>◌ (raised warehouse.rollback)
        (Exec.◌>>◌ (record_failure (failed_updates f to_load)) (Exec.raise e))

  load_prepared : File × List Entry → Exec Db LoaderError (ℕ × ℕ)
  unfolding load undo
  load_prepared (f, to_load) =
      Exec.◌>>◌ (Exec.handle (load f to_load) (undo f to_load))
        (Exec.pure (rows_of to_load, f.rows - rows_of to_load))

  -- the rows loaded and the rows that were there before
  unfoldable pub process_compacted_file : String → ManifestRecord → Exec Db LoaderError (ℕ × ℕ)
  unfolding prepare load_prepared
  process_compacted_file run_id r db = elim (prepare run_id r db) [
    | ok p ↦ load_prepared p db
    | err e ↦ (err e, db)
  ]
