-- ===== src/Compaction/Process/Outcome.antt =====
-- The two ways in which `compact_run` succeeds.
use udhyam_msme_extractor.Prelude.{◌≡◌, ◌⊎◌, Option, none, some, List, map, if◌then◌else◌}
use udhyam_msme_extractor.Records.{BatchRecord, ManifestRecord, Body, file, compaction_lines}
use udhyam_msme_extractor.Dict.{Dict}
use udhyam_msme_extractor.Exec.{Result, ok, err}
use udhyam_msme_extractor.Exec.Triple.{Triple}
use udhyam_msme_extractor.Storage
use udhyam_msme_extractor.Storage.Local
use udhyam_msme_extractor.Storage.Disk.{Shelf, node_at}
use udhyam_msme_extractor.Extractor.Manifest.{get_manifest_path}
use udhyam_msme_extractor.Compaction.Sources.{CompactionError, successful_batches}
use udhyam_msme_extractor.Compaction.Existing.{existing_is_valid}
use udhyam_msme_extractor.Compaction.Existing.Covers.{Covers}
use udhyam_msme_extractor.Compaction.Chunks.{CompactRecord, Job}
use udhyam_msme_extractor.Compaction.Process.{
  compaction_manifest_path, read_batches, read_compaction, manifest_line,
}
use udhyam_msme_extractor.Compaction.Process.Compacted.{Packs}

module _ {Store : Type 0} (job : Job Store) where
  -- The compaction manifest of an earlier run, which covers the batches and whose files are still there.
  abbrev pub Valid : List BatchRecord → Shelf Store → List ManifestRecord → Type 0
  Valid sources s records =
      (body : Body) × (node_at (compaction_manifest_path job.run_id) s ≡ some (file body))
      × (read_compaction body ≡ ok records)
      × Covers job.client job.sha256 job.backend job.run_id sources s records

  -- The records of new files, and the manifest that lists them.
  abbrev pub Written : List BatchRecord → List ManifestRecord → Shelf Store → Type 0
  Written sources records s' =
      (packed : List CompactRecord) × Packs job sources packed
      × (records ≡ map manifest_line packed)
      × (node_at (compaction_manifest_path job.run_id) s'
          ≡ some (file (compaction_lines (map some records))))

  abbrev pub Compacted : Shelf Store → List ManifestRecord → Shelf Store → Type 0
  Compacted s records s' =
      (lines : List BatchRecord) × (sources : List BatchRecord) × (read_batches
          (node_at (get_manifest_path job.run_id) s)
        ≡ ok lines)
      × (successful_batches job.run_id lines ≡ ok sources)
      × ((Valid sources s records × (s'.files ≡ s.files)) ⊎ Written sources records s')

  abbrev pub Any : CompactionError → Shelf Store → Type 0
  Any e s = Unit

  -- what the reading of the earlier manifest comes to
  judged :
      List BatchRecord
      → Shelf Store
      → Result CompactionError (List ManifestRecord)
      → Result CompactionError (Option (List ManifestRecord))
  judged sources s (err e) = err e
  judged sources s (ok records) = ok (
      if existing_is_valid job.client job.sha256 job.backend job.run_id sources s records
      then some records
      else none)
