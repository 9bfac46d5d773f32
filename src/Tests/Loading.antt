-- ===== src/Tests/Loading.antt =====
-- The loader at concrete inputs: a warehouse that remembers which batches it holds.
use udhyam_msme_extractor.Prelude.{
  String, ◌≡◌, refl, Bool, true, false, Option, none, some, List, [], ◌∷◌, ◌++◌,
}
use udhyam_msme_extractor.Prelude.Int.{pos, ◌+ℤ◌}
use udhyam_msme_extractor.Prelude.Text.{to_str}
use udhyam_msme_extractor.Extractor.Manifest.{get_batch_id}
use udhyam_msme_extractor.Records.{BatchRecord, ManifestRecord}
use udhyam_msme_extractor.Exec.{ok}
use udhyam_msme_extractor.Loader.Warehouse.{Warehouse, RawRows, LedgerRow}
use udhyam_msme_extractor.Loader.Names.{sql_string, quote_identifier}
use udhyam_msme_extractor.Loader.Checks.{Entry, File, contains}
use udhyam_msme_extractor.Loader.Batches.{Batch, decide_batch, check_copy}
use udhyam_msme_extractor.Loader.Skip.{Decided, Copied, decide_batch-Decided, check_copy-Copied}
use udhyam_msme_extractor.Loader.Compacted.{plan, process_compacted_file}
use udhyam_msme_extractor.Loader.Plan.{Planned, plan-Planned}
use udhyam_msme_extractor.Loader.Quoting.{read_quoted, quote_identifier-read}
use udhyam_msme_extractor.Loader.Literals.{read_string, has_backslash, sql_string-read}
use Prim.Native.String.{◌++◌ as join}

abbrev pub rows_of_batch : Bool → Option RawRows
rows_of_batch false = none
rows_of_batch true = some (record {
  count = 2;
  source_count = 1;
  source_file = some "udyam/raw/run_id=r1/state=GOA/batches/r1_GOA_0.csv";
  offset = some (pos 0);
  offset_count = 1;
})

abbrev warehouse : Warehouse (List String)
warehouse = record {
  ledger = λ db. ok (λ id. none);
  raw = λ db run_id. ok (λ id. rows_of_batch (contains id db));
  copy = λ run_id state id offset path db. (ok (some (some 2) ∷ []), id ∷ db);
  insert = λ run_id state path ids db. (ok tt, ids ++ db);
  merge = λ updates db. (ok tt, db);
  commit = λ db. (ok tt, db);
  rollback = λ db. (ok tt, []);
}

abbrev first_batch : BatchRecord
first_batch = record {
  batch_id = some "r1_GOA_0";
  run_id = some "r1";
  state = some "GOA";
  offset = some (pos 0);
  record_count = some (pos 2);
  batch_file = none;
  checksum = some "5e8a";
  status = none;
  source_file = some "udyam/raw/run_id=r1/state=GOA/batches/r1_GOA_0.csv";
  source_uri = none;
}

abbrev pub compacted : ManifestRecord
compacted = record {
  base = record first_batch {
    batch_id = none;
    batch_file = some "s3://lake/udyam/raw/run_id=r1/state=GOA/batches/GOA_00000_5e8a.csv";
  };
  record_type = some "compacted_file";
  batches = some (first_batch ∷ []);
}

abbrev entry : Entry
entry = record {
  batch_id = "r1_GOA_0";
  offset = 0;
  record_count = 2;
  checksum = "5e8a";
  source_file = "udyam/raw/run_id=r1/state=GOA/batches/r1_GOA_0.csv";
  source_uri = none;
}

abbrev checked : File
checked = record {
  run_id = "r1";
  state = "GOA";
  path = "run_id=r1/state=GOA/batches/GOA_00000_5e8a.csv";
  rows = 2;
  entries = entry ∷ [];
}

file_loads : process_compacted_file warehouse "r1" compacted [] ≡ (ok (2, 0), "r1_GOA_0" ∷ [])
unfolding process_compacted_file ◌+ℤ◌ get_batch_id to_str
file_loads = refl

-- nothing is loaded yet
abbrev no_rows : String → Option RawRows
no_rows id = none

abbrev no_statuses : String → Option LedgerRow
no_statuses id = none

planned : plan no_statuses no_rows (entry ∷ []) ≡ ok (entry ∷ [])
unfolding plan
planned = refl

plan-Planned_example : Planned no_statuses no_rows (entry ∷ []) (entry ∷ [])
plan-Planned_example = plan-Planned no_statuses no_rows (entry ∷ []) (entry ∷ []) planned

abbrev plain : Batch
plain = record {
  run_id = "r1";
  batch_id = "r1_GOA_0";
  state = "GOA";
  batch_file = "s3://lake/udyam/raw/run_id=r1/state=GOA/batches/r1_GOA_0.csv";
  offset = pos 0;
  record_count = pos 2;
  checksum = "5e8a";
}

abbrev loaded_row : LedgerRow
loaded_row = record {
  load_status = some "LOADED";
  expected_rows = some (pos 2);
  loaded_rows = some (pos 2);
  checksum = some "5e8a";
}

decide_batch-Decided_example : Decided plain loaded_row (decide_batch plain loaded_row)
decide_batch-Decided_example = decide_batch-Decided plain loaded_row

copied : check_copy plain (some (some 2) ∷ []) ≡ ok 2
unfolding check_copy
copied = refl

check_copy-Copied_example : Copied plain (some (some 2) ∷ []) 2
check_copy-Copied_example = check_copy-Copied plain (some (some 2) ∷ []) 2 copied

no_backslash : has_backslash "D'Souza' OR '1'='1" ≡ false
unfolding has_backslash
no_backslash = refl

sql_string-read_example :
    read_string (λ c. c) (join (sql_string "D'Souza' OR '1'='1") " AND x")
    ≡ some ("D'Souza' OR '1'='1", " AND x")
sql_string-read_example = sql_string-read (λ c. c) "D'Souza' OR '1'='1" " AND x" no_backslash refl

-- a value that ends in a backslash breaks out: its literal goes on into what follows
value_breaks_out : read_string (λ c. c) (join (sql_string "a\\") " OR") ≡ none
unfolding read_string sql_string
value_breaks_out = refl

identifier_quoted : quote_identifier "RAW\"X" ≡ ok "\"RAW\"\"X\""
unfolding quote_identifier
identifier_quoted = refl

quote_identifier-read_example : read_quoted 34 (join "\"RAW\"\"X\"" ".T") ≡ some ("RAW\"X", ".T")
quote_identifier-read_example =
    quote_identifier-read "RAW\"X" "\"RAW\"\"X\"" ".T" identifier_quoted refl
