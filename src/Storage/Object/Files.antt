-- ===== src/Storage/Object/Files.antt =====
-- Publishing metadata changes no local file.
use udhyam_msme_extractor.Prelude.{String, ◌≡◌, Bool, false, Option, none, some}
use udhyam_msme_extractor.Prelude.Text.{file_name}
use udhyam_msme_extractor.Records.{Node, file, directory}
use udhyam_msme_extractor.Dict.{Dict}
use udhyam_msme_extractor.Exec.{Exec, Result, ok, err, gets}
use udhyam_msme_extractor.Exec.Triple.{
  Post, Triple, Triple-pure, Triple-raise, Triple-gets, Triple-branch, Triple-bind, Triple-handle,
}
use udhyam_msme_extractor.Storage.Disk.{Shelf, Client, on_cloud, node_at}
use udhyam_msme_extractor.Storage.Object.{
  ObjectStorage, Head, object_name, head, upload, upload_node, metadata, verify_metadata,
  upload_metadata_file, sync_metadata, no_size,
}

module _ {Store : Type 0} (client : Client Store) (o : ObjectStorage) (files : Dict Node) where
  -- code after which the local files are what they were, also if it raises
  abbrev Keeps : {A : Type 0} → Exec (Shelf Store) String A → Type 0
  Keeps m = Triple (λ s. s.files ≡ files) m (λ _ s. s.files ≡ files) (λ _ s. s.files ≡ files)

  either_way :
      {A : Type 0} (r : Result String A) (s : Shelf Store)
      → s.files ≡ files
      → Post (λ _ s. s.files ≡ files) (λ _ s. s.files ≡ files) (r, s)
  either_way (ok a) s h = h
  either_way (err e) s h = h

  on_cloud-Keeps : {A : Type 0} (m : Exec Store String A) → Keeps (on_cloud m)
  on_cloud-Keeps m = record {
    at = λ s h. either_way (m s.cloud).0 (record s { cloud = (m s.cloud).1 }) h;
  }

  upload_node-Keeps :
      (name : String) (checksum : Option String) (if_absent : Bool) (node : Option Node)
      → Keeps (upload_node client o name checksum if_absent node)
  unfolding upload_node
  upload_node-Keeps name checksum if_absent (some (file body)) =
      Triple-handle (λ _ s. s.files ≡ files) (on_cloud (client.put name body checksum if_absent)) _
        (on_cloud-Keeps (client.put name body checksum if_absent)) (λ e. Triple-raise _ (λ s h. h))
  upload_node-Keeps name checksum if_absent (some directory) = Triple-raise _ (λ s h. h)
  upload_node-Keeps name checksum if_absent none = Triple-raise _ (λ s h. h)

  verify_metadata-Keeps :
      (name : String) (found : Head) → Keeps (verify_metadata client o name found)
  unfolding verify_metadata
  verify_metadata-Keeps name none = Triple-raise _ (λ s h. h)
  verify_metadata-Keeps name (some (size, _)) =
      Triple-branch (no_size size) _ _ (λ _. Triple-raise _ (λ s h. h))
        (λ _. Triple-pure tt (λ s h. h))

  pub sync_metadata-Keeps : (run_id path : String) → Keeps (sync_metadata client o run_id path)
  unfolding sync_metadata upload_metadata_file upload
  sync_metadata-Keeps run_id path =
      let name = object_name o run_id "" (file_name path) false in
      Triple-bind {A = Unit {0}} (λ _ s. s.files ≡ files) (upload client o path name none false) _
        (record {
          at = λ s h.
              (upload_node-Keeps name (metadata client o none) false (node_at path s)).at s h;
        })
        (λ _.
          Triple-bind {A = Head} (λ _ s. s.files ≡ files) (gets (head client o name)) _
            (Triple-gets _ (λ s h. h)) (λ found. verify_metadata-Keeps name found))
