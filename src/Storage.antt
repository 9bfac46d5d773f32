-- ===== src/Storage.antt =====
-- storage.py: the backends that hold batch artifacts. `Uri` is `urlparse`, `Local` is `LocalStorage`
-- and `Object` is `ObjectStorage` with its two subclasses; here is the choice between them.
pub mod Uri
pub mod Disk
pub mod Local
pub mod Object
use udhyam_msme_extractor.Prelude.{
  String, Bool, Option, none, some, ℕ, get_or, str_eq, if◌then◌else◌,
}
use udhyam_msme_extractor.Records.{Body}
use udhyam_msme_extractor.Exec.{Exec}
use udhyam_msme_extractor.Storage.Disk.{Shelf, Client}
use udhyam_msme_extractor.Storage.Local
use udhyam_msme_extractor.Storage.Object
use udhyam_msme_extractor.Storage.Object.{ObjectStorage, Provider, gcs, s3}

pub data Backend : Type 0 where
  local : Backend
  object : ObjectStorage → Backend

-- The settings that `build_storage` reads.
pub record StorageSettings : Type 0 where
  pub storage_backend : String
  pub gcs_bucket : Option String
  pub gcs_prefix : String
  pub s3_bucket : Option String
  pub s3_prefix : String

unfoldable pub build_storage : StorageSettings → Backend
unfolding Object.object_storage
build_storage settings =
    if str_eq settings.storage_backend "gcs"
    then object (Object.object_storage gcs (get_or settings.gcs_bucket "") settings.gcs_prefix)
    else if str_eq settings.storage_backend "s3"
    then object (Object.object_storage s3 (get_or settings.s3_bucket "") settings.s3_prefix)
    else local

module _ {Store : Type 0} (client : Client Store) (sha256 : Body → String) where
  -- The methods of `STORAGE`, whichever backend it is.
  unfoldable pub publish_batch :
      Backend → String → String → String → ℕ → String → Exec (Shelf Store) String String
  publish_batch local path run_id state offset checksum =
      Local.publish_batch path run_id state offset checksum
  publish_batch (object o) path run_id state offset checksum =
      Object.publish_batch client o path run_id state offset checksum

  unfoldable pub publish_compacted_batch :
      Backend → String → String → String → ℕ → String → Exec (Shelf Store) String String
  publish_compacted_batch local path run_id state offset checksum =
      Local.publish_compacted_batch path run_id state offset checksum
  publish_compacted_batch (object o) path run_id state offset checksum =
      Object.publish_compacted_batch client o path run_id state offset checksum

  unfoldable pub validate_artifact :
      Backend → Option String → Option String → Shelf Store → Bool × String
  validate_artifact local batch_file checksum shelf =
      Local.validate_artifact sha256 batch_file checksum shelf
  validate_artifact (object o) batch_file checksum shelf =
      Object.validate_artifact client o batch_file checksum shelf

  -- `sync_manifest`, `sync_run_summary` and `sync_compaction_manifest` differ in the content type.
  unfoldable pub sync_metadata : Backend → String → String → Exec (Shelf Store) String (Unit {0})
  sync_metadata local run_id path = Local.sync_metadata run_id path
  sync_metadata (object o) run_id path = Object.sync_metadata client o run_id path

  unfoldable pub download_artifact :
      Backend → String → String → Exec (Shelf Store) String (Unit {0})
  download_artifact local batch_file path = Local.download_artifact batch_file path
  download_artifact (object o) batch_file path = Object.download_artifact client o batch_file path
