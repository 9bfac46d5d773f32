-- ===== src/Loader/Warehouse.antt =====
-- The tables that the loader reads and writes, behind its SQL statements. Snowflake runs them, so
-- their effect is a parameter.
use udhyam_msme_extractor.Prelude.{String, Option, List, ℕ}
use udhyam_msme_extractor.Prelude.Int.{ℤ}
use udhyam_msme_extractor.Exec.{Exec, Result, ok, err}

-- What the loader raises: LoaderError by its messages, and the exceptions of Python and of the
-- connector.
pub data LoaderError : Type 0 where
  empty_identifier null_in_identifier : LoaderError
  run_id_not_set no_manifest no_success_batches mixed_records : LoaderError
  invalid_record row_count_mismatch missing_checksum : LoaderError
  unsupported_scheme outside_prefix no_relative_path outside_run_path : LoaderError
  incomplete_entry missing_fields run_id_mismatch invalid_record_count : LoaderError
  duplicate_batch invalid_metadata invalid_source_file : String → LoaderError
  loaded_mismatch loaded_without_rows loading_without_rows : String → LoaderError
  rows_do_not_reconcile reconciliation_failed already_loading : String → LoaderError
  no_copy_result short_copy_result : String → LoaderError
  key_error : LoaderError
  database : String → LoaderError

-- A row of INGESTION_BATCH, as `get_batch_status` selects it.
pub record LedgerRow : Type 0 where
  pub load_status : Option String
  pub expected_rows : Option ℤ
  pub loaded_rows : Option ℤ
  pub checksum : Option String

-- A row of the counting query of `get_raw_batch_counts`.
pub record RawRows : Type 0 where
  pub count : ℕ
  pub source_count : ℕ
  pub source_file : Option String
  pub offset : Option ℤ
  pub offset_count : ℕ

-- A source row of the MERGE statements.
pub record LedgerUpdate : Type 0 where
  pub run_id : String
  pub batch_id : String
  pub state : String
  pub source_file : String
  pub source_offset : ℤ
  pub expected_rows : ℤ
  pub loaded_rows : ℤ
  pub checksum : String
  pub load_status : String

pub record Warehouse (Db : Type 0) : Type 0 where
  -- SELECT ... FROM INGESTION_BATCH: the row of each BATCH_ID
  pub ledger : Db → Result String (String → Option LedgerRow)
  -- SELECT COUNT ... FROM RAW WHERE _RUN_ID = run GROUP BY _BATCH_ID: the row of each _BATCH_ID
  pub raw : Db → String → Result String (String → Option RawRows)
  -- COPY INTO: run, state, batch, offset and file; a result row's loaded rows, `none` for a row with
  -- fewer than four columns
  pub copy : String → String → String → ℤ → String → Exec Db String (List (Option (Option ℕ)))
  -- INSERT ... SELECT ... WHERE t.$10 IN (ids): run, state, file and ids
  pub insert : String → String → String → List String → Exec Db String (Unit {0})
  pub merge : List LedgerUpdate → Exec Db String (Unit {0})
  pub commit : Exec Db String (Unit {0})
  pub rollback : Exec Db String (Unit {0})

-- what a SELECT gives, or the connector's exception
abbrev pub selected : {A : Type 0} → Result String A → Result LoaderError A
selected (ok a) = ok a
selected (err e) = err (database e)
