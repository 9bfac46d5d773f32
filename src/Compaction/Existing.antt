-- ===== src/Compaction/Existing.antt =====
-- `_existing_compaction_is_valid`: an earlier compaction is reused only if it covers exactly the
-- batches of the run and every file of it is still there.
pub mod Covers
use udhyam_msme_extractor.Prelude.{
  String, Bool, false, not, ◌&&◌, Option, none, some, List, [], ◌∷◌, ◌++◌, map, length, get_or,
  is_empty, is_some, all, ◌==◌, if◌then◌else◌, str_eq,
}
use udhyam_msme_extractor.Prelude.Int.{ℤ, pos, negsuc, ◌+ℤ◌, eqb_ℤ}
use udhyam_msme_extractor.Prelude.Text.{is_blank}
use udhyam_msme_extractor.Records.{BatchRecord, ManifestRecord, Body}
use udhyam_msme_extractor.Storage.Disk.{Shelf, Client}
use udhyam_msme_extractor.Storage.{Backend}
use udhyam_msme_extractor.Storage
use udhyam_msme_extractor.Extractor.Manifest.{has}
use udhyam_msme_extractor.Loader.Checks.{contains}
use udhyam_msme_extractor.Compaction.Sources.{differs}

abbrev pub id_of : BatchRecord → String
id_of b = get_or b.batch_id "None"

abbrev pub batches_of : ManifestRecord → List BatchRecord
batches_of r = get_or r.batches []

-- the batches of all the files
unfoldable pub compacted_batches : List ManifestRecord → List BatchRecord
compacted_batches [] = []
compacted_batches (r ∷ rs) = batches_of r ++ compacted_batches rs

-- `source_by_id[id]`, the last batch of that ID
pub find_source : String → List BatchRecord → Option BatchRecord
find_source i [] = none
find_source i (b ∷ bs) =
    let later = find_source i bs in
    elim later [ some s ↦ some s | none ↦ if str_eq (id_of b) i then some b else none ]

-- `{...} == {...}`
pub same_ids : List String → List String → Bool
same_ids xs ys = all (λ x. contains x ys) xs && all (λ y. contains y xs) ys

abbrev pub same_int : Option ℤ → Option ℤ → Bool
same_int (some a) (some b) = eqb_ℤ a b
same_int _ _ = false

pub matches : BatchRecord → Option BatchRecord → Bool
matches b none = false
matches b (some source) =
    same_int (some (get_or b.offset (negsuc 0))) source.offset
    && same_int (some (get_or b.record_count (negsuc 0))) source.record_count
    && not (differs b.checksum source.checksum)
    && not (differs b.source_uri source.batch_file)

pub row_sum : List BatchRecord → ℤ
row_sum [] = pos 0
row_sum (b ∷ bs) = get_or b.record_count (pos 0) +ℤ row_sum bs

module _ {Store : Type 0} (client : Client Store) (sha256 : Body → String) (backend : Backend) where
  pub file_is_valid : String → Shelf Store → ManifestRecord → Bool
  unfolding row_sum
  file_is_valid run_id shelf r =
      has r.run_id run_id
      && not (is_blank (get_or r.batch_file ""))
      && not (is_blank (get_or r.checksum ""))
      && is_some r.batches
      && eqb_ℤ (get_or r.record_count (negsuc 0)) (row_sum (batches_of r))
      && (Storage.validate_artifact client sha256 backend r.batch_file r.checksum shelf).0

  -- whether the records of the compaction manifest may be returned as they are
  unfoldable pub existing_is_valid :
      String → List BatchRecord → Shelf Store → List ManifestRecord → Bool
  unfolding compacted_batches same_ids find_source matches file_is_valid contains
  existing_is_valid run_id source_batches shelf records =
      not (is_empty records)
      && length (compacted_batches records) == length source_batches
      && same_ids (map id_of (compacted_batches records)) (map id_of source_batches)
      && all (λ b. matches b (find_source (id_of b) source_batches)) (compacted_batches records)
      && all (file_is_valid run_id shelf) records
