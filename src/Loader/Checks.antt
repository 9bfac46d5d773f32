-- ===== src/Loader/Checks.antt =====
-- The validation in front of `process_compacted_file`: nothing is read from the tables before it
-- has passed.
pub mod Unique
use Prim.Native.String.{◌++◌}
use udhyam_msme_extractor.Prelude.{
  String, Bool, true, false, not, ◌&&◌, ◌||◌, Option, none, some, List, [], ◌∷◌, ℕ, zero, suc, ◌+◌,
  ◌==◌, get_or, is_empty, str_eq, sum_by, if◌then◌else◌,
}
use udhyam_msme_extractor.Prelude.Int.{ℤ, pos, negsuc, pos_part, ◌+ℤ◌, eqb_ℤ}
use udhyam_msme_extractor.Prelude.Text.{is_blank, starts_with, after_marker}
use udhyam_msme_extractor.Records.{BatchRecord, ManifestRecord}
use udhyam_msme_extractor.Exec.{Result, ok, err}
use udhyam_msme_extractor.Extractor.Manifest.{get_batch_id}
use udhyam_msme_extractor.Loader.Warehouse.{
  LoaderError, invalid_record, row_count_mismatch, missing_checksum, unsupported_scheme,
  outside_prefix, no_relative_path, outside_run_path, incomplete_entry, duplicate_batch,
  invalid_metadata, invalid_source_file, key_error,
}

infixl 5 ◌>>=◌
abbrev pub ◌>>=◌ :
    {A B : Type 0} → Result LoaderError A → (A → Result LoaderError B) → Result LoaderError B
ok a >>= f = f a
err e >>= f = err e

infixl 5 ◌>>◌
abbrev pub ◌>>◌ :
    {B : Type 0} → Result LoaderError (Unit {0}) → Result LoaderError B → Result LoaderError B
m >> n = m >>= λ _. n

abbrev pub raise_if : Bool → LoaderError → Result LoaderError (Unit {0})
raise_if true e = err e
raise_if false e = ok tt

-- what follows the marker in the address of a file
relative : Option String → Result LoaderError String
relative none = err outside_prefix
relative (some path) = if is_blank path then err no_relative_path else ok path

unfoldable pub stage_relative_path : String → Result LoaderError String
unfolding starts_with after_marker relative
stage_relative_path batch_file = do
  raise_if (not (starts_with batch_file "s3://" || starts_with batch_file "gs://"))
      unsupported_scheme
  relative (after_marker batch_file "/udyam/raw/")

-- A batch of a compacted file that has passed the checks, with its values converted.
pub record Entry : Type 0 where
  pub batch_id : String
  pub offset : ℕ
  pub record_count : ℕ
  pub checksum : String
  pub source_file : String
  pub source_uri : Option String

-- A compacted file that has passed the checks.
pub record File : Type 0 where
  pub run_id : String
  pub state : String
  pub path : String
  pub rows : ℕ
  pub entries : List Entry

-- `sum(int(batch["record_count"]) for batch in batches)`
pub row_sum : List BatchRecord → Result LoaderError ℤ
row_sum [] = ok (pos 0)
row_sum (b ∷ bs) = do
  rest ← row_sum bs
  elim b.record_count [ none ↦ err key_error | some n ↦ ok (n +ℤ rest) ]

unfoldable pub contains : String → List String → Bool
contains s [] = false
contains s (x ∷ xs) = str_eq x s || contains s xs

unfoldable pub source_prefix : String → String → String
source_prefix run_id state =
    "udyam/raw/run_id=" ++ (run_id ++ ("/state=" ++ (state ++ "/batches/")))

-- the offset as a natural number if the batch's metadata is in order
valid_offset : String → String → String → ℤ → ℤ → String → Option ℕ
valid_offset run_id state batch_id (pos offset) (pos (suc n)) checksum =
    if str_eq batch_id (get_batch_id run_id state offset) && not (is_blank checksum)
    then some offset
    else none
valid_offset run_id state batch_id _ _ checksum = none

entry_of :
    String
    → String
    → String
    → ℤ
    → ℤ
    → String
    → String
    → Option String
    → Option ℕ
    → Result LoaderError Entry
unfolding source_prefix starts_with
entry_of run_id state batch_id offset count checksum source_file source_uri none =
    err (invalid_metadata batch_id)
entry_of run_id state batch_id offset (negsuc n) checksum source_file source_uri (some o) =
    err (invalid_metadata batch_id)
entry_of run_id state batch_id offset (pos n) checksum source_file source_uri (some o) = do
  raise_if (not (starts_with source_file (source_prefix run_id state)))
      (invalid_source_file batch_id)
  ok (record {
    batch_id = batch_id;
    offset = o;
    record_count = n;
    checksum = checksum;
    source_file = source_file;
    source_uri = source_uri;
  })

check_fields :
    String
    → String
    → List String
    → Option String
    → Option ℤ
    → Option ℤ
    → Option String
    → Option String
    → Option String
    → Result LoaderError Entry
unfolding valid_offset entry_of contains
check_fields run_id state seen (some i) (some o) (some n) (some c) (some s) uri = do
  raise_if (contains i seen) (duplicate_batch i)
  entry_of run_id state i o n c s uri (valid_offset run_id state i o n c)
check_fields run_id state seen _ _ _ _ _ uri = err incomplete_entry

-- one round of the validating loop
pub check_batch : String → String → List String → BatchRecord → Result LoaderError Entry
unfolding check_fields
check_batch run_id state seen b =
    check_fields run_id state seen b.batch_id b.offset b.record_count b.checksum b.source_file
      b.source_uri

unfoldable pub check_batches :
    String → String → List String → List BatchRecord → Result LoaderError (List Entry)
unfolding check_batch
check_batches run_id state seen [] = ok []
check_batches run_id state seen (b ∷ bs) = do
  e ← check_batch run_id state seen b
  rest ← check_batches run_id state (e.batch_id ∷ seen) bs
  ok (e ∷ rest)

abbrev pub rows_of : List Entry → ℕ
rows_of = sum_by (λ e. e.record_count)

check_header : String → ManifestRecord → List BatchRecord → Result LoaderError File
unfolding row_sum stage_relative_path check_batches
check_header run_id r batches = do
  let state = get_or r.state ""
  raise_if (not (str_eq (get_or r.run_id "") run_id) || is_blank state || is_empty batches)
      invalid_record
  total ← row_sum batches
  raise_if (not (eqb_ℤ (get_or r.record_count (negsuc 0)) total)) row_count_mismatch
  raise_if (is_blank (get_or r.checksum "")) missing_checksum
  path ← elim r.batch_file [ none ↦ err key_error | some f ↦ stage_relative_path f ]
  raise_if (not (starts_with path ("run_id=" ++ (run_id ++ ("/state=" ++ (state ++ "/batches/"))))))
      outside_run_path
  entries ← check_batches run_id state [] batches
  ok (record {
    run_id = run_id;
    state = state;
    path = path;
    rows = pos_part (get_or r.record_count (negsuc 0));
    entries = entries;
  })

-- the checks of `process_compacted_file`, in its order
unfoldable pub check_file : String → ManifestRecord → Result LoaderError File
unfolding check_header
check_file run_id r = elim r.batches [
  | none ↦ err invalid_record
  | some bs ↦ check_header run_id r bs
]
