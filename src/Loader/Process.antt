-- ===== src/Loader/Process.antt =====
-- `load_manifest` and `process_run`: the manifest is read, put in order and processed.
use Prim.Native.String.{compare}
use Prim.Native.Nat.{Ordering}
use udhyam_msme_extractor.Prelude.{
  String, Bool, true, false, not, ◌||◌, Option, List, [], ◌∷◌, ℕ, ◌+◌, get_or, is_empty, is_some,
  any, all, keep, str_eq, if◌then◌else◌,
}
use udhyam_msme_extractor.Prelude.Int.{pos, leb_ℤ}
use udhyam_msme_extractor.Prelude.Text.{is_blank, upper}
use udhyam_msme_extractor.Records.{ManifestRecord}
use udhyam_msme_extractor.Exec.{Exec, Result, ok, err}
use udhyam_msme_extractor.Exec
use udhyam_msme_extractor.Extractor.Manifest.{has}
use udhyam_msme_extractor.Loader.Warehouse.{
  Warehouse, LoaderError, run_id_not_set, no_manifest, no_success_batches, mixed_records,
}
use udhyam_msme_extractor.Loader.Compacted.{process_compacted_file}
use udhyam_msme_extractor.Loader.Batches.{process_batch}

-- `list.sort(key)`: the sort of Python is stable, and so is an insertion sort
module _ {A : Type 0} (before : A → A → Bool) where
  pub insert_sorted : A → List A → List A
  insert_sorted a [] = a ∷ []
  insert_sorted a (x ∷ xs) =
      let rest = insert_sorted a xs in if before x a then x ∷ rest else a ∷ (x ∷ xs)

  unfoldable pub sort : List A → List A
  unfolding insert_sorted
  sort [] = []
  sort (x ∷ xs) = insert_sorted x (sort xs)

-- `<` on pairs of a text and a second key that is compared where the texts are equal
abbrev by_text : Ordering → Bool → Bool
by_text Ordering.lt rest = true
by_text Ordering.eq rest = rest
by_text Ordering.gt rest = false

abbrev is_less : Ordering → Bool
is_less Ordering.lt = true
is_less _ = false

unfoldable pub before_by_file : ManifestRecord → ManifestRecord → Bool
before_by_file a b =
    by_text (compare (get_or a.state "") (get_or b.state ""))
      (is_less (compare (get_or a.batch_file "") (get_or b.batch_file "")))

unfoldable pub before_by_offset : ManifestRecord → ManifestRecord → Bool
before_by_offset a b =
    by_text (compare (get_or a.state "") (get_or b.state ""))
      (not (leb_ℤ (get_or b.offset (pos 0)) (get_or a.offset (pos 0))))

-- `str(record.get("status", "")).upper() == "SUCCESS"`
unfoldable pub is_success : ManifestRecord → Bool
unfolding upper
is_success r = str_eq (upper (get_or r.status "")) "SUCCESS"

unfoldable pub is_compacted : ManifestRecord → Bool
is_compacted r = is_some r.batches || has r.record_type "compacted_file"

-- the records of the first of the two files that has any
unfoldable pub load_manifest :
    Option String → (String → List ManifestRecord) → Result LoaderError (List ManifestRecord)
load_manifest run_id stage =
    if is_blank (get_or run_id "")
    then err run_id_not_set
    else if not (is_empty (stage "compaction_manifest.jsonl"))
    then ok (stage "compaction_manifest.jsonl")
    else if not (is_empty (stage "manifest.jsonl"))
    then ok (stage "manifest.jsonl")
    else err no_manifest

module _ {Db : Type 0} (warehouse : Warehouse Db) (run_id : String) where
  unfoldable pub process_files : List ManifestRecord → Exec Db LoaderError ℕ
  unfolding process_compacted_file
  process_files [] = Exec.pure 0
  process_files (r ∷ rs) =
      Exec.◌>>=◌ (process_compacted_file warehouse run_id r)
        (λ p. Exec.◌>>=◌ (process_files rs) (λ total. Exec.pure (p.0 + total)))

  unfoldable pub process_batches : List ManifestRecord → Exec Db LoaderError ℕ
  unfolding process_batch
  process_batches [] = Exec.pure 0
  process_batches (r ∷ rs) =
      Exec.◌>>=◌ (process_batch warehouse run_id r)
        (λ loaded. Exec.◌>>=◌ (process_batches rs) (λ total. Exec.pure (loaded + total)))

  process_manifest : List ManifestRecord → Exec Db LoaderError ℕ
  unfolding is_compacted process_files process_batches is_success sort before_by_file
      before_by_offset
  process_manifest manifest =
      Exec.branch (any is_compacted manifest)
        (Exec.branch (not (all (λ r. is_some r.batches) manifest)) (Exec.raise mixed_records)
          (process_files (sort before_by_file manifest)))
        (Exec.branch (is_empty (keep is_success manifest)) (Exec.raise no_success_batches)
          (process_batches (sort before_by_offset (keep is_success manifest))))

unfoldable pub process_run :
    {Db : Type 0}
    → Warehouse Db
    → Option String
    → (String → List ManifestRecord)
    → Exec Db LoaderError ℕ
unfolding load_manifest process_manifest
process_run warehouse run_id stage =
    Exec.◌>>=◌ (Exec.lift (load_manifest run_id stage))
      (process_manifest warehouse (get_or run_id ""))
