-- ===== src/Tests/Packing.antt =====
-- Compaction and publication at concrete inputs.
use udhyam_msme_extractor.Prelude.{◌≡◌, refl, true, none, some, List, [], ◌∷◌, ℕ, length, sum_by}
use udhyam_msme_extractor.Prelude.Text.{file_name}
use udhyam_msme_extractor.Records.{table, file}
use udhyam_msme_extractor.Exec.Triple.{Post}
use udhyam_msme_extractor.Storage.{local}
use udhyam_msme_extractor.Storage.Disk.{Shelf}
use udhyam_msme_extractor.Storage.Object.{publish_batch, publish_compacted_batch, object_name}
use udhyam_msme_extractor.Storage.Object.Verified.{
  Verified, compacted_name, Any, publish_batch-Verified, publish_compacted_batch-Verified,
}
use udhyam_msme_extractor.Extractor.Batches.{csv_headers}
use udhyam_msme_extractor.Compaction.Chunks.{Source, CompactRecord, Desk, Job, pack}
use udhyam_msme_extractor.Compaction.Packing.{Any as AnyDesk}
use udhyam_msme_extractor.Prelude.Text.{
  lstrip_slash, to_str, strip_slash, starts_with, split_suffix, underscored, pad_five,
}
use udhyam_msme_extractor.Extractor.Manifest.{get_manifest_path}
use udhyam_msme_extractor.Storage
use udhyam_msme_extractor.Storage.Object
use udhyam_msme_extractor.Storage.Object.{uri}
use udhyam_msme_extractor.Storage.Disk.{delete_node}
use udhyam_msme_extractor.Dict.{lookup, insert}
use udhyam_msme_extractor.Prelude.Int.{pos}
use udhyam_msme_extractor.Records.{BatchRecord, ManifestRecord, manifest_lines}
use udhyam_msme_extractor.Exec.{Result, ok, err}
use udhyam_msme_extractor.Storage.{object}
use udhyam_msme_extractor.Compaction.Sources.{CompactionError}
use udhyam_msme_extractor.Compaction.Process.{compact_run}
use udhyam_msme_extractor.Compaction.Process.Outcome.{Any as AnyShelf}
use udhyam_msme_extractor.Tests.Data.{put, Bucket, bucket, lake}

abbrev pub with_file : Shelf Bucket
with_file = record {
  files = ("output/r1/GOA/batches/r1_GOA_0.csv", file (table (csv_headers ∷ ("1" ∷ []) ∷ []))) ∷ [];
  cloud = [];
}

publish_batch-Verified_example :
    Post
      (Verified bucket lake
        (object_name lake "r1" "GOA" (file_name "output/r1/GOA/batches/r1_GOA_0.csv") true)
        "5e8a")
      (Any bucket lake)
      (publish_batch bucket lake "output/r1/GOA/batches/r1_GOA_0.csv" "r1" "GOA" 0 "5e8a" with_file)
publish_batch-Verified_example =
    publish_batch-Verified bucket lake "output/r1/GOA/batches/r1_GOA_0.csv" "r1" "GOA" 0 "5e8a"
      with_file

publish_compacted_batch-Verified_example :
    Post
      (Verified bucket lake
        (compacted_name bucket lake "output/r1/GOA/batches/r1_GOA_0.csv" "r1" "GOA" "5e8a")
        "5e8a")
      (Any bucket lake)
      (publish_compacted_batch bucket lake "output/r1/GOA/batches/r1_GOA_0.csv" "r1" "GOA" 0 "5e8a"
        with_file)
publish_compacted_batch-Verified_example =
    publish_compacted_batch-Verified bucket lake "output/r1/GOA/batches/r1_GOA_0.csv" "r1" "GOA" 0
      "5e8a" with_file

abbrev job : Job Bucket
job = record {
  client = bucket;
  sha256 = λ body. "5e8a";
  backend = local;
  unquote = λ s. s;
  max_rows = 2;
  run_id = "r1";
  staging_dir = "/staging";
}

abbrev source : Source
source = record {
  batch_id = "r1_GOA_0";
  state = "GOA";
  offset = 0;
  record_count = 1;
  batch_file = "s3://lake/udyam/raw/run_id=r1/state=GOA/batches/r1_GOA_0.csv";
  checksum = "5e8a";
}

abbrev batch : BatchRecord
batch = record {
  batch_id = some "r1_GOA_0";
  run_id = some "r1";
  state = some "GOA";
  offset = some (pos 0);
  record_count = some (pos 1);
  batch_file = some "s3://lake/udyam/raw/run_id=r1/state=GOA/batches/r1_GOA_0.csv";
  checksum = some "5e8a";
  status = some "SUCCESS";
  source_file = none;
  source_uri = none;
}

-- one batch in the manifest and in the bucket
abbrev extracted : Shelf Bucket
extracted = record {
  files = ("output/r1/manifest.jsonl", file (manifest_lines (some batch ∷ []))) ∷ [];
  cloud =
      (
        "udyam/raw/run_id=r1/state=GOA/batches/r1_GOA_0.csv",
        (table (csv_headers ∷ ("1" ∷ []) ∷ []), some "5e8a"),
      )
      ∷ [];
}

abbrev cloud_job : Job Bucket
cloud_job = record job { backend = object lake }

abbrev desk : Desk Bucket
desk = record { shelf = extracted; chunk_index_by_state = []; current = none; compact_records = [] }

abbrev packed_rows : Result CompactionError (List CompactRecord) → ℕ
packed_rows (ok records) = sum_by (λ r. r.record_count) records
packed_rows (err e) = 0

pack_runs : packed_rows (pack cloud_job (source ∷ []) desk).0 ≡ 1
unfolding pack Storage.download_artifact Object.download_artifact Object.scheme lstrip_slash to_str
    strip_slash starts_with Storage.publish_compacted_batch publish_compacted_batch delete_node
    object_name split_suffix file_name underscored pad_five put uri Object.label lookup insert
pack_runs = refl

abbrev count_of : Result CompactionError (List ManifestRecord) → ℕ
count_of (ok records) = length records
count_of (err e) = 0

compact_run_runs : count_of (compact_run cloud_job extracted).0 ≡ 1
unfolding compact_run get_manifest_path Storage.download_artifact Object.download_artifact
    Object.scheme lstrip_slash to_str strip_slash starts_with Storage.publish_compacted_batch
    publish_compacted_batch delete_node object_name split_suffix file_name underscored pad_five put
    Storage.sync_metadata Object.sync_metadata uri Object.label lookup insert
compact_run_runs = refl
