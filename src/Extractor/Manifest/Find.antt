-- ===== src/Extractor/Manifest/Find.antt =====
-- `find_persisted` under appended lines: a batch once recorded stays recorded.
use mathlib.Core.List.{◌++◌}
use udhyam_msme_extractor.Prelude.{String, ◌≡◌, refl, Option, none, some, List, [], ◌∷◌, ℕ, arith}
use udhyam_msme_extractor.Records.{BatchRecord}
use text.Mathlib.TextPositions.{eq_refl}
use udhyam_msme_extractor.Extractor.Manifest.{
  get_batch_id, is_success_of, find_persisted, manifest_record,
}

-- An entry that is found is still found after more lines are appended.
pub find_persisted-append :
    (batch_id : String) (lines more : List (Option BatchRecord)) (r : BatchRecord)
    → find_persisted batch_id lines ≡ some r
    → find_persisted batch_id (lines ++ more) ≡ some r
unfolding find_persisted
find_persisted-append batch_id [] more r h = cc
find_persisted-append batch_id (none ∷ lines) more r h =
    find_persisted-append batch_id lines more r h
find_persisted-append batch_id (some x ∷ lines) more r h =
    ground (arith, find_persisted-append batch_id lines more r)

-- A batch that is not recorded is found in what is appended.
pub find_persisted-append_new :
    (batch_id : String) (lines more : List (Option BatchRecord))
    → find_persisted batch_id lines ≡ none
    → find_persisted batch_id (lines ++ more) ≡ find_persisted batch_id more
unfolding find_persisted
find_persisted-append_new batch_id [] more h = refl
find_persisted-append_new batch_id (none ∷ lines) more h =
    find_persisted-append_new batch_id lines more h
find_persisted-append_new batch_id (some x ∷ lines) more h =
    ground (arith, find_persisted-append_new batch_id lines more)

-- The record that is written for a batch is found as that batch.
pub find_persisted-manifest_record :
    (run_id state : String) (offset count : ℕ) (path checksum : String)
    → let r = manifest_record run_id state offset count path checksum in
      find_persisted (get_batch_id run_id state offset) (some r ∷ []) ≡ some r
unfolding find_persisted is_success_of manifest_record
find_persisted-manifest_record run_id state offset count path checksum =
    rw (eq_refl (get_batch_id run_id state offset))
