-- ===== src/Extractor/Manifest.antt =====
-- The batch identity and the append-only manifest of udyam_extractor.py.
pub mod Find
pub mod Appends
pub mod Ids
use Prim.Native.String.{◌++◌}
use udhyam_msme_extractor.Prelude.{
  String, Bool, false, ◌&&◌, Option, none, some, List, [], ◌∷◌, ℕ, str_eq, if◌then◌else◌,
}
use udhyam_msme_extractor.Prelude.Int.{pos}
use udhyam_msme_extractor.Prelude.Text.{to_str}
use mathlib.Core.List.{◌++◌ as append}
use udhyam_msme_extractor.Records.{BatchRecord, manifest_lines}
use udhyam_msme_extractor.Exec.{Result, ok, err, modify, ◌>>=◌, ◌>>◌, pure, raise}
use udhyam_msme_extractor.Storage
use udhyam_msme_extractor.Storage.Disk.{write_node}
use udhyam_msme_extractor.Extractor.Env.{Env, World, Action, storage, durable, on_shelf}

unfoldable pub get_batch_id : String → String → ℕ → String
get_batch_id run_id state offset = run_id ++ ("_" ++ (state ++ ("_" ++ to_str offset)))

unfoldable pub get_manifest_path : String → String
get_manifest_path run_id = "output/" ++ (run_id ++ "/manifest.jsonl")

-- `record.get(key) == value`
abbrev pub has : Option String → String → Bool
has none value = false
has (some v) value = str_eq v value

-- whether a record is the successful one of a batch
unfoldable pub is_success_of : String → BatchRecord → Bool
is_success_of batch_id r = has r.batch_id batch_id && has r.status "SUCCESS"

-- the loop over the manifest's lines
unfoldable pub find_persisted : String → List (Option BatchRecord) → Option BatchRecord
find_persisted batch_id [] = none
find_persisted batch_id (none ∷ lines) = find_persisted batch_id lines
find_persisted batch_id (some r ∷ lines) =
    if is_success_of batch_id r then some r else find_persisted batch_id lines

unfoldable pub manifest_record : String → String → ℕ → ℕ → String → String → BatchRecord
manifest_record run_id state offset record_count batch_path checksum = record {
  batch_id = some (get_batch_id run_id state offset);
  run_id = some run_id;
  state = some state;
  offset = some (pos offset);
  record_count = some (pos record_count);
  batch_file = some batch_path;
  checksum = some checksum;
  status = some "SUCCESS";
  source_file = none;
  source_uri = none;
}

module _ {Store : Type 0} where
  unfoldable pub get_persisted_batch : String → String → ℕ → World Store → Option BatchRecord
  get_persisted_batch run_id state offset w =
      find_persisted (get_batch_id run_id state offset) w.manifest

  append_line : String → BatchRecord → World Store → World Store
  append_line run_id r w =
      let lines = append w.manifest (some r ∷ []) in
      record w {
        manifest = lines;
        shelf = write_node (get_manifest_path run_id) (manifest_lines lines) w.shelf;
      }

  raised : Result String (Unit {0}) → Action Store (Unit {0})
  raised (ok _) = pure tt
  raised (err e) = raise (storage e)

  module _ (env : Env Store) where
    -- `STORAGE.sync_manifest`, whose StorageError is not caught
    sync_manifest : String → Action Store (Unit {0})
    sync_manifest run_id = do
      r ← on_shelf (
          Storage.sync_metadata env.client env.sha256 env.backend run_id (get_manifest_path run_id))
      raised r

    unfoldable pub write_batch_manifest :
        String → String → ℕ → ℕ → String → String → Action Store (Unit {0})
    unfolding append_line raised sync_manifest
    write_batch_manifest run_id state offset record_count batch_path checksum = do
      durable env
      modify (
          append_line run_id (manifest_record run_id state offset record_count batch_path checksum))
      sync_manifest run_id
