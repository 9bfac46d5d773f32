-- ===== src/Storage/Disk.antt =====
-- What the storage code reads and writes: the local files, and an object store behind the calls of
-- a cloud provider's client library, which is a parameter.
use udhyam_msme_extractor.Prelude.{String, Bool, Option, ℕ}
use udhyam_msme_extractor.Records.{Body, Node}
use udhyam_msme_extractor.Exec.{Exec}
use udhyam_msme_extractor.Dict.{Dict, lookup, insert, remove}

-- The three calls of google.cloud.storage or boto3 that the code makes on one bucket.
pub record Client (Store : Type 0) : Type 0 where
  -- upload: name, contents, sha256 metadata, and whether it must fail where the object exists; the
  -- text raised is the library's
  pub put : String → Body → Option String → Bool → Exec Store String (Unit {0})
  -- size and sha256 metadata; `none` where the call raises
  pub head : String → Store → Option (Option ℕ × Option String)
  -- download; `none` where the call raises
  pub get : String → Store → Option Body

pub record Shelf (Store : Type 0) : Type 0 where
  pub files : Dict Node
  pub cloud : Store

module _ {Store : Type 0} where
  -- `path.exists()` with what is there
  unfoldable pub node_at : String → Shelf Store → Option Node
  unfolding lookup
  node_at path shelf = lookup path shelf.files

  unfoldable pub write_node : String → Body → Shelf Store → Shelf Store
  unfolding insert
  write_node path body shelf = record shelf { files = insert path (Node.file body) shelf.files }

  abbrev pub on_cloud : {E A : Type 0} → Exec Store E A → Exec (Shelf Store) E A
  on_cloud m shelf = let (r, cloud) = m shelf.cloud in (r, record shelf { cloud = cloud })

  unfoldable pub delete_node : String → Shelf Store → Shelf Store
  unfolding remove
  delete_node path shelf = record shelf { files = remove path shelf.files }
