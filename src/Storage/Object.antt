-- ===== src/Storage/Object.antt =====
-- `ObjectStorage` and its subclasses `GCSStorage` and `S3Storage`. An address is
-- `scheme://bucket/object-name`; the provider's library is the parameter `client`.
pub mod Verified
pub mod Published
pub mod Files
use Prim.Native.String.{◌++◌}
use udhyam_msme_extractor.Prelude.{
  String, Bool, true, false, not, ◌||◌, ◌&&◌, Option, none, some, ℕ, ◌==◌, get_or, str_eq,
  if◌then◌else◌,
}
use udhyam_msme_extractor.Prelude.Text.{
  is_blank, strip_slash, lstrip_slash, file_name, split_suffix,
}
use udhyam_msme_extractor.Records.{Body, Node, file}
use udhyam_msme_extractor.Exec.{Exec, pure, raise, gets, modify, branch, handle, ◌>>=◌, ◌>>◌}
use udhyam_msme_extractor.Storage.Disk.{Shelf, Client, node_at, write_node, on_cloud}
use udhyam_msme_extractor.Storage.Uri.{urlparse}

pub data Provider : Type 0 where
  gcs s3 : Provider

unfoldable pub scheme : Provider → String
scheme gcs = "gs"
scheme s3 = "s3"

unfoldable pub label : Provider → String
label gcs = "GCS"
label s3 = "S3"

pub record ObjectStorage : Type 0 where
  pub provider : Provider
  pub bucket_name : String
  pub prefix : String

-- `__init__`
unfoldable pub object_storage : Provider → String → String → ObjectStorage
object_storage provider bucket_name prefix = record {
  provider = provider;
  bucket_name = bucket_name;
  prefix = strip_slash prefix;
}

run_root : ObjectStorage → String → String
run_root o run_id =
    if is_blank o.prefix then "run_id=" ++ run_id else o.prefix ++ ("/run_id=" ++ run_id)

-- `_object_name`; `batch` is the keyword argument
unfoldable pub object_name : ObjectStorage → String → String → String → Bool → String
unfolding run_root
object_name o run_id state filename batch =
    if batch
    then run_root o run_id ++ ("/state=" ++ (state ++ ("/batches/" ++ filename)))
    else run_root o run_id ++ ("/" ++ filename)

unfoldable pub uri : ObjectStorage → String → String
unfolding scheme
uri o name = scheme o.provider ++ ("://" ++ (o.bucket_name ++ ("/" ++ name)))

abbrev pub Head : Type 0
Head = Option (Option ℕ × Option String)

-- `not size`
abbrev pub no_size : Option ℕ → Bool
no_size none = true
no_size (some n) = n == 0

-- `remote == checksum` for a remote value that may be None
abbrev pub same_checksum : Option String → String → Bool
same_checksum none checksum = false
same_checksum (some c) checksum = str_eq c checksum

-- what `validate_artifact` answers once the object's head is known
unfoldable pub check_head : Provider → String → Head → Bool × String
unfolding label
check_head p checksum none = (false, label p ++ "ObjectNotFound")
check_head p checksum (some (size, remote_checksum)) =
    if no_size size
    then (false, label p ++ "ObjectEmpty")
    else if not (same_checksum remote_checksum checksum)
    then (false, "ChecksumMismatch")
    else (true, "")

module _ {Store : Type 0} (client : Client Store) (o : ObjectStorage) where
  -- the file's contents are read when the upload opens it
  upload_node : String → Option String → Bool → Option Node → Exec (Shelf Store) String (Unit {0})
  upload_node name checksum if_absent (some (file body)) =
      handle (on_cloud (client.put name body checksum if_absent))
        λ exc. raise (label o.provider ++ (" upload failed for " ++ (uri o name ++ (": " ++ exc))))
  upload_node name checksum if_absent _ =
      raise (label o.provider ++ (" upload failed for " ++ (uri o name ++ ": no such file")))

  -- an empty checksum sets no metadata
  metadata : Option String → Option String
  metadata none = none
  metadata (some c) = if is_blank c then none else some c

  -- `_upload` of the two subclasses
  unfoldable pub upload :
      String → String → Option String → Bool → Exec (Shelf Store) String (Unit {0})
  unfolding upload_node metadata node_at
  upload path name checksum if_absent shelf =
      upload_node name (metadata checksum) if_absent (node_at path shelf) shelf

  abbrev pub head : String → Shelf Store → Head
  head name shelf = client.head name shelf.cloud

  verify_upload : String → String → Head → Exec (Shelf Store) String String
  verify_upload name checksum none =
      raise (label o.provider ++ (" upload verification failed: missing object " ++ uri o name))
  verify_upload name checksum (some (size, remote_checksum)) =
      branch (no_size size)
        (raise (label o.provider ++ (" upload verification failed: empty object " ++ uri o name)))
        (branch (not (same_checksum remote_checksum checksum))
          (raise (label o.provider ++ (" checksum metadata mismatch for " ++ uri o name)))
          (pure (uri o name)))

  unfoldable pub publish_batch_to_object :
      String → String → String → Exec (Shelf Store) String String
  unfolding upload verify_upload
  publish_batch_to_object path name checksum = do
    upload path name (some checksum) true
    found ← gets (head name)
    verify_upload name checksum found

  unfoldable pub publish_batch :
      String → String → String → ℕ → String → Exec (Shelf Store) String String
  unfolding publish_batch_to_object
  publish_batch path run_id state offset checksum =
      publish_batch_to_object path (object_name o run_id state (file_name path) true) checksum

  unfoldable pub content_addressed_name : String → String → String
  content_addressed_name path checksum =
      let (stem, suffix) = split_suffix (file_name path) in stem ++ ("_" ++ (checksum ++ suffix))

  reuse_or_publish : String → String → String → Head → Exec (Shelf Store) String String
  reuse_or_publish path name checksum none = publish_batch_to_object path name checksum
  reuse_or_publish path name checksum (some (size, existing_checksum)) =
      branch (not (no_size size) && same_checksum existing_checksum checksum) (pure (uri o name)) (
        raise (
          label o.provider
          ++ (" compacted artifact already exists with different content: " ++ uri o name)))

  unfoldable pub publish_compacted_batch :
      String → String → String → ℕ → String → Exec (Shelf Store) String String
  unfolding publish_batch_to_object content_addressed_name reuse_or_publish
  publish_compacted_batch path run_id state offset checksum = do
    let name = object_name o run_id state (content_addressed_name path checksum) true
    existing ← gets (head name)
    reuse_or_publish path name checksum existing

  save_download : String → String → Option Body → Exec (Shelf Store) String (Unit {0})
  save_download name path none = raise (label o.provider ++ (" download failed for " ++ uri o name))
  save_download name path (some body) = modify (write_node path body)

  unfoldable pub download_artifact : String → String → Exec (Shelf Store) String (Unit {0})
  unfolding save_download write_node
  download_artifact batch_file path = do
    let parsed = urlparse batch_file
    let name = lstrip_slash parsed.path
    branch
        (not (str_eq parsed.scheme (scheme o.provider)) || not (str_eq parsed.netloc o.bucket_name))
        (raise ("Unexpected " ++ (label o.provider ++ (" artifact URI: " ++ batch_file))))
        (branch (is_blank name)
          (raise ("Missing " ++ (label o.provider ++ (" object in " ++ batch_file))))
          (λ shelf. save_download name path (client.get name shelf.cloud) shelf))

  unfoldable pub validate_artifact : Option String → Option String → Shelf Store → Bool × String
  unfolding check_head
  validate_artifact batch_file expected_checksum shelf =
      let parsed = urlparse (get_or batch_file "") in
      let name = lstrip_slash parsed.path in
      if is_blank (get_or batch_file "")
      then (false, "MissingBatchFile")
      else if is_blank (get_or expected_checksum "")
      then (false, "MissingChecksum")
      else if not (str_eq parsed.scheme (scheme o.provider))
      then (false, "Invalid" ++ (label o.provider ++ "Uri"))
      else if not (str_eq parsed.netloc o.bucket_name)
      then (false, "Unexpected" ++ (label o.provider ++ "Bucket"))
      else if is_blank name
      then (false, "Missing" ++ (label o.provider ++ "Object"))
      else check_head o.provider (get_or expected_checksum "") (head name shelf)

  verify_metadata : String → Head → Exec (Shelf Store) String (Unit {0})
  verify_metadata name none =
      raise
        (label o.provider ++ (" metadata upload verification failed: empty object " ++ uri o name))
  verify_metadata name (some (size, _)) =
      branch (no_size size)
        (raise (
          label o.provider
          ++ (" metadata upload verification failed: empty object " ++ uri o name)))
        (pure tt)

  unfoldable pub upload_metadata_file : String → String → Exec (Shelf Store) String (Unit {0})
  unfolding upload verify_metadata
  upload_metadata_file path name = do
    upload path name none false
    found ← gets (head name)
    verify_metadata name found

  -- `sync_manifest`, `sync_run_summary` and `sync_compaction_manifest`
  unfoldable pub sync_metadata : String → String → Exec (Shelf Store) String (Unit {0})
  unfolding upload_metadata_file
  sync_metadata run_id path =
      upload_metadata_file path (object_name o run_id "" (file_name path) false)
