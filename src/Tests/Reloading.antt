-- ===== src/Tests/Reloading.antt =====
-- A warehouse that remembers the batches of RAW and the rows of the ledger, and a file that is
-- processed twice.
use udhyam_msme_extractor.Prelude.{
  String, ◌≡◌, refl, sym, ap, subst, ◌∙◌, false, Option, none, some, List, [], ◌∷◌, ◌++◌, All,
  str_eq, eq_iff, if◌then◌else◌,
}
use udhyam_msme_extractor.Prelude.Int.{◌+ℤ◌}
use udhyam_msme_extractor.Prelude.Text.{to_str}
use udhyam_msme_extractor.Extractor.Manifest.{get_batch_id}
use udhyam_msme_extractor.Exec.{Result, ok, err}
use udhyam_msme_extractor.Exec.Triple.{Post}
use udhyam_msme_extractor.Loader.Warehouse.{Warehouse, LedgerRow, LedgerUpdate}
use udhyam_msme_extractor.Loader.Checks.{contains}
use udhyam_msme_extractor.Loader.Compacted.{process_compacted_file}
use udhyam_msme_extractor.Loader.Compacted.Settled.{written_row, Unique, Faithful}
use udhyam_msme_extractor.Loader.Compacted.Again.{NothingNew, Refused, process_compacted_file-again}
use udhyam_msme_extractor.Dict.{Dict, lookup}
use udhyam_msme_extractor.Loader.Process.{process_run}
use udhyam_msme_extractor.Loader.Main.{
  Connector, World, missing_configuration, from_environment, main,
}
use udhyam_msme_extractor.Tests.Loading.{rows_of_batch, compacted}

abbrev Tables : Type 0
Tables = List String × List LedgerUpdate

abbrev find : String → List LedgerUpdate → Option LedgerRow
find id [] = none
find id (u ∷ us) = if str_eq u.batch_id id then some (written_row u) else find id us

abbrev tables : Warehouse Tables
tables = record {
  ledger = λ d. ok (λ id. find id d.1);
  raw = λ d run_id. ok (λ id. rows_of_batch (contains id d.0));
  copy = λ run_id state id offset path d. (ok [], d);
  insert = λ run_id state path ids d. (ok tt, (ids ++ d.0, d.1));
  merge = λ us d. (ok tt, (d.0, us ++ d.1));
  commit = λ d. (ok tt, d);
  rollback = λ d. (ok tt, d);
}

find-skip :
    (u : LedgerUpdate) (us rest : List LedgerUpdate)
    → All (λ v. str_eq u.batch_id v.batch_id ≡ false) us
    → All (λ v. find v.batch_id rest ≡ some (written_row v)) us
    → All (λ v. find v.batch_id (u ∷ rest) ≡ some (written_row v)) us
find-skip u [] rest h k = tt
find-skip u (v ∷ us) rest (h, hs) (k, ks) = (rw h k, find-skip u us rest hs ks)

find-All :
    (us rest : List LedgerUpdate)
    → Unique us
    → All (λ v. find v.batch_id (us ++ rest) ≡ some (written_row v)) us
find-All [] rest h = tt
find-All (u ∷ us) rest (h, hs) = (
  rw ((eq_iff u.batch_id u.batch_id).1 refl) refl,
  find-skip u us (us ++ rest) h (find-All us rest hs),
)

-- what a SELECT gave
abbrev found :
    {A : Type 0} → (String → Option A) → Result String (String → Option A) → String → Option A
found other (ok f) = f
found other (err m) = other

tables-Faithful : Faithful tables
tables-Faithful = record {
  stored = λ us d merged d' statuses unique m c read.
      let ledger : merged.1 ≡ d'.1 = ap (λ q. q.1.1) c in
      let rows : us ++ d.1 ≡ d'.1 = ap (λ q. q.1.1) m ∙ ledger in
      subst (λ f. All (λ u. f u.batch_id ≡ some (written_row u)) us) (ap (found (λ id. none)) read)
        (subst (λ t. All (λ u. find u.batch_id t ≡ some (written_row u)) us) rows
          (find-All us d.1 unique));
  untouched = λ us d merged d' run_id rows rows' m c read read' id.
      let raw : d.0 ≡ d'.0 = ap (λ q. q.1.0) m ∙ ap (λ q. q.1.0) c in
      sym (ap (λ r. found (λ id. none) r id) read')
      ∙ ap (λ t. rows_of_batch (contains id t)) (sym raw)
      ∙ ap (λ r. found (λ id. none) r id) read;
}

abbrev loaded_tables : Tables
loaded_tables = (process_compacted_file tables "r1" compacted ([], [])).1

first_run : process_compacted_file tables "r1" compacted ([], []) ≡ (ok (2, 0), loaded_tables)
unfolding process_compacted_file ◌+ℤ◌ get_batch_id to_str
first_run = refl

second_run : (process_compacted_file tables "r1" compacted loaded_tables).0 ≡ ok (0, 2)
unfolding process_compacted_file ◌+ℤ◌ get_batch_id to_str
second_run = refl

process_compacted_file-again_example :
    Post
      (NothingNew tables tables-Faithful "r1" compacted ([], []) loaded_tables 2 0)
      (Refused tables loaded_tables)
      (process_compacted_file tables "r1" compacted loaded_tables)
process_compacted_file-again_example =
    process_compacted_file-again tables tables-Faithful "r1" compacted ([], []) loaded_tables 2 0
      first_run

abbrev connector : Connector Tables
connector = record {
  warehouse = tables;
  stage = λ name. if str_eq name "compaction_manifest.jsonl" then compacted ∷ [] else [];
  connect = λ s d. (ok tt, d);
  cursor = λ d. (ok tt, d);
  interrupt = λ d. none;
  close_cursor = λ d. (ok tt, d);
  commit = λ d. (ok tt, d);
  rollback = λ d. (ok tt, d);
  close = λ d. (ok tt, d);
}

abbrev environment : Dict String
environment =
    ("SNOWFLAKE_ACCOUNT", "acme")
    ∷ ("SNOWFLAKE_USER", "loader")
    ∷ ("SNOWFLAKE_ROLE", "LOADER")
    ∷ ("SNOWFLAKE_WAREHOUSE", "LOADING")
    ∷ ("SNOWFLAKE_DATABASE", "UDYAM")
    ∷ ("SNOWFLAKE_SCHEMA", "RAW")
    ∷ ("SNOWFLAKE_STAGE", "UDYAM_STAGE")
    ∷ ("UDYAM_RUN_ID", "r1")
    ∷ []

configuration_missing :
    from_environment (("SNOWFLAKE_ACCOUNT", "acme") ∷ ("SNOWFLAKE_USER", "") ∷ [])
    ≡ err (
        missing_configuration (
          "SNOWFLAKE_USER" ∷ "SNOWFLAKE_ROLE" ∷ "SNOWFLAKE_WAREHOUSE" ∷ "SNOWFLAKE_DATABASE"
          ∷ "SNOWFLAKE_SCHEMA" ∷ "SNOWFLAKE_STAGE" ∷ []))
unfolding from_environment lookup
configuration_missing = refl

abbrev quiet : World Tables
quiet = record { db = ([], []); calls = [] }

main_runs : (main connector environment quiet).0 ≡ 0
unfolding main process_run process_compacted_file ◌+ℤ◌ get_batch_id to_str lookup
main_runs = refl
