-- ===== src/Loader/Batches.antt =====
-- The manifest of plain batches: `should_skip`, `copy_batch` and one round of the loop of
-- `process_run`.
use udhyam_msme_extractor.Prelude.{
  String, Bool, true, false, not, ◌&&◌, Option, none, some, List, [], ◌∷◌, ℕ, ◌+◌, get_or, is_empty,
  str_eq, if◌then◌else◌,
}
use udhyam_msme_extractor.Prelude.Int.{ℤ, pos, negsuc, eqb_ℤ}
use udhyam_msme_extractor.Prelude.Text.{is_blank}
use udhyam_msme_extractor.Records.{ManifestRecord}
use udhyam_msme_extractor.Exec.{Exec, Result, ok, err}
use udhyam_msme_extractor.Exec
use udhyam_msme_extractor.Extractor.Manifest.{has}
use udhyam_msme_extractor.Loader.Warehouse.{
  Warehouse, LedgerRow, LedgerUpdate, LoaderError, missing_fields, run_id_mismatch,
  invalid_record_count, missing_checksum, loaded_mismatch, already_loading, no_copy_result,
  short_copy_result, reconciliation_failed, database, selected,
}
use udhyam_msme_extractor.Loader.Checks.{stage_relative_path, raise_if, ◌>>=◌, ◌>>◌}

-- the fields of a batch record, all of which are required
pub record Batch : Type 0 where
  pub run_id : String
  pub batch_id : String
  pub state : String
  pub batch_file : String
  pub offset : ℤ
  pub record_count : ℤ
  pub checksum : String

batch_of :
    Option String
    → Option String
    → Option String
    → Option String
    → Option ℤ
    → Option ℤ
    → Option String
    → Result LoaderError Batch
batch_of (some r) (some i) (some s) (some f) (some o) (some n) (some c) = ok (record {
  run_id = r;
  batch_id = i;
  state = s;
  batch_file = f;
  offset = o;
  record_count = n;
  checksum = c;
})
batch_of _ _ _ _ _ _ _ = err missing_fields

abbrev is_negative : ℤ → Bool
is_negative (pos n) = false
is_negative (negsuc n) = true

-- the validation in front of the ledger's row
unfoldable pub check_record : String → ManifestRecord → Result LoaderError Batch
unfolding batch_of
check_record run_id r = do
  b ← batch_of r.run_id r.batch_id r.state r.batch_file r.offset r.record_count r.checksum
  raise_if (not (str_eq b.run_id run_id)) run_id_mismatch
  raise_if (is_negative b.record_count) invalid_record_count
  raise_if (is_blank b.checksum) missing_checksum
  ok b

abbrev pub equals_int : Option ℤ → ℤ → Bool
equals_int none n = false
equals_int (some z) n = eqb_ℤ z n

unfoldable pub should_skip : Option String → ℤ → Option ℤ → Option ℤ → String → Option String → Bool
should_skip status expected_rows loaded_rows ledger_expected_rows manifest_checksum
      ledger_checksum =
    has status "LOADED"
    && equals_int ledger_expected_rows expected_rows
    && equals_int loaded_rows expected_rows
    && has ledger_checksum manifest_checksum

-- `get_batch_status`: a missing row is four times None
abbrev pub row_of : Option LedgerRow → LedgerRow
row_of none = record {
  load_status = none;
  expected_rows = none;
  loaded_rows = none;
  checksum = none;
}
row_of (some row) = row

pub data Decision : Type 0 where
  skip load : Decision

-- what the ledger's row says should be done with a batch
unfoldable pub decide_batch : Batch → LedgerRow → Result LoaderError Decision
unfolding should_skip
decide_batch b row =
    if should_skip row.load_status b.record_count row.loaded_rows row.expected_rows b.checksum
      row.checksum
    then ok skip
    else if has row.load_status "LOADED"
    then err (loaded_mismatch b.batch_id)
    else if has row.load_status "LOADING"
    then err (already_loading b.batch_id)
    else ok load

-- the sum over the rows of COPY's answer
unfoldable pub total_loaded : String → List (Option (Option ℕ)) → Result LoaderError ℕ
total_loaded batch_id [] = ok 0
total_loaded batch_id (none ∷ results) = err (short_copy_result batch_id)
total_loaded batch_id (some rows ∷ results) = do
  rest ← total_loaded batch_id results
  ok (get_or rows 0 + rest)

unfoldable pub check_copy : Batch → List (Option (Option ℕ)) → Result LoaderError ℕ
unfolding total_loaded
check_copy b results = do
  raise_if (is_empty results) (no_copy_result b.batch_id)
  loaded ← total_loaded b.batch_id results
  raise_if (not (eqb_ℤ (pos loaded) b.record_count)) (reconciliation_failed b.batch_id)
  ok loaded

abbrev pub ledger_update : Batch → ℕ → String → LedgerUpdate
ledger_update b loaded status = record {
  run_id = b.run_id;
  batch_id = b.batch_id;
  state = b.state;
  source_file = b.batch_file;
  source_offset = b.offset;
  expected_rows = b.record_count;
  loaded_rows = pos loaded;
  checksum = b.checksum;
  load_status = status;
}

module _ {Db : Type 0} (warehouse : Warehouse Db) where
  raised : {A : Type 0} → Exec Db String A → Exec Db LoaderError A
  raised m db =
      let (r, db') = m db in elim r [ ok a ↦ (ok a, db') | err e ↦ (err (database e), db') ]

  unfoldable pub copy_batch : Batch → Exec Db LoaderError ℕ
  unfolding stage_relative_path raised check_copy
  copy_batch b = Exec.◌>>=◌ (Exec.lift (stage_relative_path b.batch_file)) (λ path.
      Exec.◌>>=◌ (raised (warehouse.copy b.run_id b.state b.batch_id b.offset path))
        (λ results. Exec.lift (check_copy b results)))

  -- the body of the `try`
  unfoldable pub load_batch : Batch → Exec Db LoaderError ℕ
  unfolding copy_batch raised
  load_batch b = Exec.◌>>=◌ (copy_batch b) (λ loaded.
      Exec.◌>>◌ (raised (warehouse.merge (ledger_update b loaded "LOADED" ∷ [])))
        (Exec.◌>>◌ (raised warehouse.commit) (Exec.pure loaded)))

  record_failure : Batch → Exec Db LoaderError (Unit {0})
  unfolding raised
  record_failure b db =
      let (r, db') =
        Exec.◌>>◌ (warehouse.merge (ledger_update b 0 "FAILED" ∷ [])) warehouse.commit db in
      elim r [ ok _ ↦ (ok tt, db') | err _ ↦ raised warehouse.rollback db' ]

  undo : Batch → LoaderError → Exec Db LoaderError ℕ
  unfolding record_failure raised
  undo b e = Exec.◌>>◌ (raised warehouse.rollback) (Exec.◌>>◌ (record_failure b) (Exec.raise e))

  carry_out : Batch → Decision → Exec Db LoaderError ℕ
  unfolding load_batch undo
  carry_out b skip = Exec.pure 0
  carry_out b load = Exec.handle (load_batch b) (undo b)

  -- what the record and the ledger say, before anything is written
  decide : String → ManifestRecord → Db → Result LoaderError (Batch × Decision)
  unfolding check_record decide_batch
  decide run_id r db = do
    b ← check_record run_id r
    statuses ← selected (warehouse.ledger db)
    d ← decide_batch b (row_of (statuses b.batch_id))
    ok (b, d)

  -- one round of the loop: the rows loaded
  unfoldable pub process_batch : String → ManifestRecord → Exec Db LoaderError ℕ
  unfolding decide carry_out
  process_batch run_id r db = elim (decide run_id r db) [
    | ok (b, d) ↦ carry_out b d db
    | err e ↦ (err e, db)
  ]
