-- ===== src/Extractor/Batches.antt =====
-- The batch files of udyam_extractor.py: where they are written, and how.
use Prim.Native.String.{◌++◌}
use udhyam_msme_extractor.Prelude.{
  String, Option, some, List, [], ◌∷◌, map, ℕ, get_or, length, if◌then◌else◌,
}
use udhyam_msme_extractor.Records.{Csv, Body, table, Node, file}
use udhyam_msme_extractor.Dict.{lookup}
use udhyam_msme_extractor.Exec.{ok, pure, raise, modify, ◌>>◌}
use udhyam_msme_extractor.Storage.Disk.{node_at, write_node, delete_node}
use udhyam_msme_extractor.Extractor.Env.{Env, Action, Row, os_error, durable, advance}
use udhyam_msme_extractor.Extractor.Manifest.{get_batch_id}

abbrev pub csv_headers : List String
csv_headers =
    "LG_ST_Code" ∷ "State" ∷ "LG_DT_Code" ∷ "District" ∷ "Pincode" ∷ "RegistrationDate"
    ∷ "EnterpriseName" ∷ "CommunicationAddress" ∷ "Activities" ∷ []

unfoldable pub csv_row : Row → List String
unfolding lookup
csv_row r = map (λ header. get_or (lookup header r) "") csv_headers

unfoldable pub csv_of : List Row → Csv
unfolding csv_row
csv_of records = csv_headers ∷ map csv_row records

unfoldable pub batch_output_path : String → String → ℕ → String
batch_output_path run_id state offset =
    "output/"
    ++ (run_id ++ ("/" ++ (state ++ ("/batches/" ++ (get_batch_id run_id state offset ++ ".csv")))))

unfoldable pub staging_path : String → String → ℕ → String
staging_path run_id state offset =
    "output/" ++ (run_id ++ ("/.staging/" ++ (get_batch_id run_id state offset ++ ".csv")))

module _ {Store : Type 0} where
  unfoldable pub hash_node : (Body → String) → Option Node → Action Store String
  hash_node sha256 (some (file body)) = pure (sha256 body)
  hash_node sha256 _ = raise os_error

  module _ (env : Env Store) where
    -- written beside its place and moved there at once
    unfoldable pub write_batch_file : String → List Row → Action Store ℕ
    unfolding csv_of
    write_batch_file path records = do
      durable env
      modify (λ w. record w { shelf = write_node path (table (csv_of records)) w.shelf })
      pure (length records)

    unfoldable pub calculate_file_sha256 : String → Action Store String
    unfolding hash_node
    calculate_file_sha256 path w = hash_node env.sha256 (node_at path w.shelf) w

    -- a failure to delete is only a warning
    unfoldable pub cleanup_published_staged_batch : String → Action Store (Unit {0})
    cleanup_published_staged_batch path w = (
      ok tt,
      record (advance w) { shelf = if env.disk w.tick then delete_node path w.shelf else w.shelf },
    )
