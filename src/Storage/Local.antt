-- ===== src/Storage/Local.antt =====
-- `LocalStorage`: artifacts stay where they were written.
use udhyam_msme_extractor.Prelude.{
  String, Bool, true, false, not, Option, none, some, ℕ, ◌==◌, get_or, str_eq, if◌then◌else◌,
}
use udhyam_msme_extractor.Prelude.Text.{is_blank}
use udhyam_msme_extractor.Records.{Body, size, Node, file, directory}
use udhyam_msme_extractor.Exec.{Exec, pure, raise, modify}
use udhyam_msme_extractor.Storage.Disk.{Shelf, node_at, write_node}

module _ {Store : Type 0} where
  unfoldable pub publish_batch :
      String → String → String → ℕ → String → Exec (Shelf Store) String String
  publish_batch local_path run_id state offset checksum = pure local_path

  unfoldable pub publish_compacted_batch :
      String → String → String → ℕ → String → Exec (Shelf Store) String String
  unfolding publish_batch
  publish_compacted_batch local_path run_id state offset checksum =
      publish_batch local_path run_id state offset checksum

  -- `sync_manifest`, `sync_run_summary` and `sync_compaction_manifest`
  unfoldable pub sync_metadata : String → String → Exec (Shelf Store) String (Unit {0})
  sync_metadata run_id local_path = pure tt

  copy_node : String → Option Node → Exec (Shelf Store) String (Unit {0})
  copy_node local_path (some (file body)) = modify (write_node local_path body)
  copy_node local_path _ = raise "Local batch artifact not found"

  unfoldable pub download_artifact : String → String → Exec (Shelf Store) String (Unit {0})
  unfolding copy_node node_at write_node
  download_artifact batch_file local_path shelf =
      copy_node local_path (node_at batch_file shelf) shelf

module _ (sha256 : Body → String) where
  check_node : String → Option Node → Bool × String
  check_node checksum none = (false, "BatchFileNotFound")
  check_node checksum (some directory) = (false, "BatchPathNotFile")
  check_node checksum (some (file body)) =
      if size body == 0
      then (false, "BatchFileEmpty")
      else if not (str_eq (sha256 body) checksum)
      then (false, "ChecksumMismatch")
      else (true, "")

  unfoldable pub validate_artifact :
      {Store : Type 0} → Option String → Option String → Shelf Store → Bool × String
  unfolding check_node node_at
  validate_artifact batch_file expected_checksum shelf =
      if is_blank (get_or batch_file "")
      then (false, "MissingBatchFile")
      else if is_blank (get_or expected_checksum "")
      then (false, "MissingChecksum")
      else check_node (get_or expected_checksum "") (node_at (get_or batch_file "") shelf)
