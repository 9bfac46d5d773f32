-- ===== src/Compaction/Process.antt =====
-- `compact_run` as a whole: the manifest is read, an earlier compaction is returned if it is valid, or
-- the batches are packed in a temporary directory and the new manifest is written and published.
pub mod Compacted
pub mod Outcome
use Prim.Native.String.{◌++◌}
use udhyam_msme_extractor.Prelude.{
  String, Bool, true, false, not, Option, none, some, List, [], ◌∷◌, map, ℕ, get_or, is_empty,
  if◌then◌else◌,
}
use udhyam_msme_extractor.Prelude.Int.{ℤ, pos, negsuc}
use udhyam_msme_extractor.Prelude.Text.{is_blank, strip, starts_with}
use udhyam_msme_extractor.Records.{
  BatchRecord, ManifestRecord, Body, Node, file, manifest_lines, compaction_lines,
}
use udhyam_msme_extractor.Dict.{Dict}
use udhyam_msme_extractor.Exec.{
  Exec, Result, ok, err, pure, raise, gets, lift, modify, handle, ◌>>=◌, ◌>>◌, branch,
}
use udhyam_msme_extractor.Storage
use udhyam_msme_extractor.Storage.Disk.{Shelf, node_at, write_node}
use udhyam_msme_extractor.Extractor.Manifest.{get_manifest_path}
use udhyam_msme_extractor.Compaction.Sources.{
  CompactionError, manifest_not_found, invalid_json, key_error, invalid_count, no_files, storage,
  successful_batches,
}
use udhyam_msme_extractor.Compaction.Existing.{existing_is_valid}
use udhyam_msme_extractor.Compaction.Chunks.{
  Source, CompactBatch, CompactRecord, Desk, Job, Step, add_batch, publish_chunk,
}

unfoldable pub compaction_manifest_path : String → String
compaction_manifest_path run_id = "output/" ++ (run_id ++ "/compaction_manifest.jsonl")

-- the decoded lines, or the error of the first that cannot be decoded
unfoldable pub decoded : {A : Type 0} → List (Option A) → Result CompactionError (List A)
decoded [] = ok []
decoded (none ∷ lines) = err invalid_json
decoded (some a ∷ lines) = elim (decoded lines) [ ok rest ↦ ok (a ∷ rest) | err e ↦ err e ]

-- `_read_jsonl` of the extraction's manifest, and of the compaction's
unfoldable pub read_batches : Option Node → Result CompactionError (List BatchRecord)
unfolding decoded
read_batches (some (file (manifest_lines lines))) = decoded lines
read_batches (some (file _)) = err invalid_json
read_batches _ = err manifest_not_found

unfoldable pub read_compaction : Body → Result CompactionError (List ManifestRecord)
unfolding decoded
read_compaction (compaction_lines lines) = decoded lines
read_compaction _ = err invalid_json

-- `int(batch["record_count"])` where it is positive; a negative one is refused as zero is
positive_count : String → Option ℤ → Result CompactionError ℕ
positive_count batch_id none = err key_error
positive_count batch_id (some (pos n)) = ok n
positive_count batch_id (some (negsuc n)) = err (invalid_count batch_id)

-- an offset, which the extractor writes from 0 on
offset_of : Option ℤ → Result CompactionError ℕ
offset_of (some (pos n)) = ok n
offset_of _ = err key_error

-- The fields of a batch that the loop reads; a missing path or checksum fails where it is used.
unfoldable pub source_of : BatchRecord → Result CompactionError Source
unfolding positive_count offset_of
source_of r = elim (positive_count (get_or r.batch_id "") r.record_count) [
  | err e ↦ err e
  | ok count ↦ elim (offset_of r.offset) [
    | err e ↦ err e
    | ok offset ↦ ok record {
      batch_id = get_or r.batch_id "";
      state = get_or r.state "";
      offset = offset;
      record_count = count;
      batch_file = get_or r.batch_file "";
      checksum = get_or r.checksum "";
    }
  ]
]

-- the line of the manifest for one batch of a file, and for the file
abbrev pub batch_line : CompactBatch → BatchRecord
batch_line b = record {
  batch_id = some b.batch_id;
  run_id = none;
  state = none;
  offset = some (pos b.offset);
  record_count = some (pos b.record_count);
  batch_file = none;
  checksum = some b.checksum;
  status = none;
  source_file = some b.source_file;
  source_uri = some b.source_uri;
}

abbrev pub manifest_line : CompactRecord → ManifestRecord
manifest_line r = record {
  base = record {
    batch_id = none;
    run_id = some r.run_id;
    state = some r.state;
    offset = none;
    record_count = some (pos r.record_count);
    batch_file = some r.batch_file;
    checksum = some r.checksum;
    status = none;
    source_file = none;
    source_uri = none;
  };
  record_type = some "compacted_file";
  batches = some (map batch_line r.batches);
}

-- what is left when the temporary directory has been deleted
drop_under : String → Dict Node → Dict Node
drop_under dir [] = []
drop_under dir ((path, node) ∷ files) =
    let rest = drop_under dir files in
    if starts_with path (dir ++ "/") then rest else (path, node) ∷ rest

module _ {Store : Type 0} (job : Job Store) where
  abbrev pub Compaction : Type 0 → Type 0
  Compaction A = Exec (Shelf Store) CompactionError A

  abbrev pub from_shelf : {A : Type 0} → Exec (Shelf Store) String A → Compaction A
  from_shelf m s = let (r, s') = m s in (elim r [ ok a ↦ ok a | err e ↦ err (storage e) ], s')

  -- the loop over the batches
  unfoldable pub add_records : List BatchRecord → Step job (Unit {0})
  unfolding add_batch source_of
  add_records [] = pure tt
  add_records (r ∷ rs) = lift (source_of r) >>= λ b. add_batch job b >>= λ _. add_records rs

  unfoldable pub pack_records : List BatchRecord → Step job (List CompactRecord)
  unfolding add_records publish_chunk
  pack_records rs = do
    add_records rs
    publish_chunk job
    records ← gets (λ d. d.compact_records)
    branch (is_empty records) (raise no_files) (pure records)

  abbrev pub desk : Shelf Store → Desk Store
  desk s = record { shelf = s; chunk_index_by_state = []; current = none; compact_records = [] }

  -- `with tempfile.TemporaryDirectory(…) as staging`
  unfoldable pub in_staging : {A : Type 0} → Step job A → Compaction A
  unfolding drop_under
  in_staging m s =
      let (r, d) = m (desk s) in
      (r, record { files = drop_under job.staging_dir d.shelf.files; cloud = d.shelf.cloud })

  -- `_existing_compaction_is_valid`, from the node of its manifest on
  unfoldable pub existing_at :
      List BatchRecord
      → Shelf Store
      → Option Node
      → Result CompactionError (Option (List ManifestRecord))
  unfolding existing_is_valid read_compaction
  existing_at sources s (some (file body)) = elim (read_compaction body) [
    | err e ↦ err e
    | ok records ↦ ok (
        if existing_is_valid job.client job.sha256 job.backend job.run_id sources s records
        then some records
        else none)
  ]
  existing_at sources s _ = ok none

  unfoldable pub sync : Compaction (Unit {0})
  unfolding compaction_manifest_path
  sync = from_shelf (
      Storage.sync_metadata job.client job.sha256 job.backend job.run_id
        (compaction_manifest_path job.run_id))

  -- `_write_compaction_manifest`
  unfoldable pub write_compaction_manifest : List ManifestRecord → Compaction (Unit {0})
  unfolding sync write_node
  write_compaction_manifest records = do
    modify (write_node (compaction_manifest_path job.run_id) (compaction_lines (map some records)))
    sync

  -- from the answer of `_existing_compaction_is_valid` on
  unfoldable pub reuse_or_pack :
      List BatchRecord → Option (List ManifestRecord) → Compaction (List ManifestRecord)
  unfolding sync in_staging pack_records write_compaction_manifest
  reuse_or_pack sources (some existing) = do sync; pure existing
  reuse_or_pack sources none = do
    records ← in_staging (pack_records sources)
    write_compaction_manifest (map manifest_line records)
    pure (map manifest_line records)

  unfoldable pub compact_run : Compaction (List ManifestRecord)
  unfolding read_batches successful_batches existing_at reuse_or_pack node_at
  compact_run = do
    lines ← λ s. (read_batches (node_at (get_manifest_path job.run_id) s), s)
    sources ← lift (successful_batches job.run_id lines)
    existing ← λ s. (existing_at sources s (node_at (compaction_manifest_path job.run_id) s), s)
    reuse_or_pack sources existing

-- `main`, from the value of UDYAM_RUN_ID on: the code that the process exits with
unfoldable pub main :
    {Store : Type 0} → (String → Job Store) → Option String → Exec (Shelf Store) CompactionError ℕ
unfolding strip compact_run
main job run_id =
    let stripped = strip (get_or run_id "") in
    branch (is_blank stripped) (pure 1)
      (handle (compact_run (job stripped) >>= λ _. pure 0) (λ (e : CompactionError). pure 1))
