-- ===== src/Storage/Object/Verified.antt =====
-- What is published to a bucket has been seen there.
use udhyam_msme_extractor.Prelude.{
  String, ◌≡◌, refl, Bool, true, false, not, ◌&&◌, Option, none, some, ℕ, arith, not-false,
}
use udhyam_msme_extractor.Prelude.Text.{file_name}
use udhyam_msme_extractor.Exec.{gets}
use udhyam_msme_extractor.Exec.Triple.{
  Triple, Post, Triple-pure, Triple-raise, Triple-gets, Triple-weaken, Triple-post, Triple-branch,
  Triple-bind, Triple-Ran,
}
use udhyam_msme_extractor.Storage.Disk.{Shelf, Client}
use udhyam_msme_extractor.Storage.Object.{
  ObjectStorage, Head, check_head, no_size, same_checksum, uri, object_name, head, upload,
  verify_upload, publish_batch_to_object, publish_batch, publish_compacted_batch, reuse_or_publish,
  content_addressed_name,
}

module _ {Store : Type 0} (client : Client Store) (o : ObjectStorage) where
  abbrev pub Any : String → Shelf Store → Type 0
  Any e s = Unit

  -- the address is that of an object that is there with the checksum and a size
  abbrev pub Verified : String → String → String → Shelf Store → Type 0
  Verified name checksum u s =
      (u ≡ uri o name) × (check_head o.provider checksum (client.head name s.cloud) ≡ (true, ""))

  head_passes :
      (size : Option ℕ) (remote : Option String) (checksum : String)
      → no_size size ≡ false
      → same_checksum remote checksum ≡ true
      → check_head o.provider checksum (some (size, remote)) ≡ (true, "")
  unfolding check_head
  head_passes size remote checksum h k = rw (h, k) refl

  verify_upload-Verified :
      (name checksum : String) (found : Head)
      → Triple
          (λ s. client.head name s.cloud ≡ found)
          (verify_upload client o name checksum found)
          (Verified name checksum)
          Any
  unfolding verify_upload
  verify_upload-Verified name checksum none = Triple-raise _ (λ s h. tt)
  verify_upload-Verified name checksum (some (size, remote)) =
      Triple-branch (no_size size) _ _ (λ _. Triple-raise _ (λ s h. tt))
        (λ sized.
          Triple-branch (not (same_checksum remote checksum)) _ _ (λ _. Triple-raise _ (λ s h. tt))
            (λ same.
              Triple-pure (uri o name)
                (λ s h. (refl, rw h (head_passes size remote checksum sized (not-false _ same))))))

  publish_batch_to_object-Verified :
      (path name checksum : String)
      → Triple
          (λ _. Unit {0})
          (publish_batch_to_object client o path name checksum)
          (Verified name checksum)
          Any
  unfolding publish_batch_to_object
  publish_batch_to_object-Verified path name checksum =
      Triple-bind {A = Unit {0}} (λ _ _. Unit {0}) (upload client o path name (some checksum) true)
        _
        (Triple-post _ _ _
          (Triple-Ran (λ _. Unit {0}) (upload client o path name (some checksum) true))
          (λ _ _ _. tt) (λ _ _ _. tt))
        (λ _.
          Triple-bind {A = Head} (λ found s. client.head name s.cloud ≡ found)
            (gets (head client o name)) (verify_upload client o name checksum)
            (Triple-gets (head client o name) (λ s h. refl)) (verify_upload-Verified name checksum))

  -- `publish_batch` returns the address of an object under the run's and the state's prefix, and only
  -- if that object's head, read after the upload, passes the test that `validate_artifact` makes: it
  -- is there, it is not empty and its checksum is the file's.
  pub publish_batch-Verified :
      (path run_id state : String) (offset : ℕ) (checksum : String) (s : Shelf Store)
      → Post
          (Verified (object_name o run_id state (file_name path) true) checksum)
          Any
          (publish_batch client o path run_id state offset checksum s)
  unfolding publish_batch
  publish_batch-Verified path run_id state offset checksum s =
      (publish_batch_to_object-Verified path (object_name o run_id state (file_name path) true)
          checksum).at
        s tt

  abbrev pub compacted_name : String → String → String → String → String
  compacted_name path run_id state checksum =
      object_name o run_id state (content_addressed_name client o path checksum) true

  reuse-Verified :
      (path name checksum : String) (found : Head)
      → Triple
          (λ s. client.head name s.cloud ≡ found)
          (reuse_or_publish client o path name checksum found)
          (Verified name checksum)
          Any
  unfolding reuse_or_publish
  reuse-Verified path name checksum none =
      Triple-weaken _ (publish_batch_to_object-Verified path name checksum) (λ s h. tt)
  reuse-Verified path name checksum (some (size, existing)) =
      Triple-branch (not (no_size size) && same_checksum existing checksum) _ _
        (λ same. Triple-pure (uri o name) (λ s h. (
          refl,
          rw h (
              head_passes size existing checksum (sized (no_size size) _ same)
                (matched (no_size size) _ same)),
        )))
        (λ _. Triple-raise _ (λ s h. tt))
    where
      sized : (a b : Bool) → (not a && b) ≡ true → a ≡ false
      sized a b h = ground arith

      matched : (a b : Bool) → (not a && b) ≡ true → b ≡ true
      matched a b h = ground arith

  -- `publish_compacted_batch` returns the address of an object whose name carries the checksum, and
  -- only if that object, uploaded now or there before, passes the same test; an object of that name
  -- with another content is never returned.
  pub publish_compacted_batch-Verified :
      (path run_id state : String) (index : ℕ) (checksum : String) (s : Shelf Store)
      → Post
          (Verified (compacted_name path run_id state checksum) checksum)
          Any
          (publish_compacted_batch client o path run_id state index checksum s)
  unfolding publish_compacted_batch
  publish_compacted_batch-Verified path run_id state index checksum s =
      let name = compacted_name path run_id state checksum in
      (reuse-Verified path name checksum (client.head name s.cloud)).at s refl
