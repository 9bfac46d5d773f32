-- ===== src/Compaction/Process/Compacted.antt =====
-- What `compact_run` returns and what it leaves on the disk.
use mathlib.Core.List.{append_assoc, append-nil}
use udhyam_msme_extractor.Prelude.{◌≡◌, refl, none, List, [], ◌∷◌, ◌++◌, map, is_empty}
use udhyam_msme_extractor.Records.{BatchRecord}
use udhyam_msme_extractor.Exec.{Result, ok, err, gets, lift}
use udhyam_msme_extractor.Exec.Triple.{
  Triple, Triple-pure, Triple-raise, Triple-gets, Triple-post, Triple-branch, Triple-bind,
  Triple-exists,
}
use udhyam_msme_extractor.Compaction.Sources.{CompactionError, no_files}
use udhyam_msme_extractor.Compaction.Chunks.{
  Source, CompactRecord, Desk, Job, add_batch, publish_chunk,
}
use udhyam_msme_extractor.Compaction.Packing.{Listed, listed, Any, publish_chunk-Triple}
use udhyam_msme_extractor.Compaction.Loop.{Before, After, Compacts, add_batch-Triple, all_published}
use udhyam_msme_extractor.Compaction.Process.{source_of, add_records, pack_records}

-- The fields that the loop works on are those of the records.
abbrev pub AreSources : List BatchRecord → List Source → Type 0
AreSources [] [] = Unit
AreSources (r ∷ rs) (b ∷ bs) = (source_of r ≡ ok b) × AreSources rs bs
AreSources _ _ = ⊥

module _ {Store : Type 0} (job : Job Store) where
  abbrev Taken : List Listed → List BatchRecord → Desk Store → Type 0
  Taken done rs d = (bs : List Source) × (AreSources rs bs × Before job (done ++ map listed bs) d)

  lift-Triple :
      (P : Desk Store → Type 0) (r : Result CompactionError Source)
      → Triple P (lift r) (λ b d. (r ≡ ok b) × P d) (Any job)
  lift-Triple P (ok b) = record { at = λ d h. (refl, h) }
  lift-Triple P (err e) = record { at = λ d h. tt }

  add_records-Triple :
      (done : List Listed) (rs : List BatchRecord)
      → Triple (Before job done) (add_records job rs) (λ _. Taken done rs) (Any job)
  unfolding add_records
  add_records-Triple done [] = Triple-pure tt (λ d h. ([], (tt, rw append-nil h)))
  add_records-Triple done (r ∷ rs) =
      Triple-bind {A = Source} (λ b d. (source_of r ≡ ok b) × Before job done d)
        (lift (source_of r)) _ (lift-Triple (Before job done) (source_of r))
        (λ b.
          Triple-bind {A = Unit {0}} (λ _ d. (source_of r ≡ ok b) × After job done b d)
            (add_batch job b) _
            (Triple-exists (λ _. Before job done) (λ _ _. After job done b) (add_batch job b)
              (λ _. add_batch-Triple job done b))
            (λ _.
              Triple-post (λ _ d. (source_of r ≡ ok b) × Taken (done ++ listed b ∷ []) rs d)
                (Any job) (add_records job rs)
                (Triple-exists (λ _. After job done b) (λ _ _. Taken (done ++ listed b ∷ []) rs)
                  (add_records job rs) (λ _. add_records-Triple (done ++ listed b ∷ []) rs))
                (λ u d (e, (bs, (so, h))). (b ∷ bs, ((e, so), simp append_assoc at h)))
                (λ e d h. tt)))

  -- the records of a packing, and the batches that they were made of
  abbrev pub Packs : List BatchRecord → List CompactRecord → Type 0
  Packs rs records = (bs : List Source) × (AreSources rs bs × Compacts job bs records)

  abbrev Closed : List BatchRecord → List Source → Desk Store → Type 0
  Closed rs bs d = AreSources rs bs × (Before job (map listed bs) d × (d.current ≡ none))

  publish_taken :
      (rs : List BatchRecord)
      → Triple
          (λ d. (bs : List Source) × (AreSources rs bs × Before job (map listed bs) d))
          (publish_chunk job)
          (λ _ d. (bs : List Source) × Closed rs bs d)
          (Any job)
  publish_taken rs =
      Triple-exists (λ bs d. AreSources rs bs × Before job (map listed bs) d)
        (λ bs _ d. Closed rs bs d) (publish_chunk job)
        (λ bs.
          Triple-exists (λ _. Before job (map listed bs))
            (λ _ _ d. Before job (map listed bs) d × (d.current ≡ none)) (publish_chunk job)
            (λ _. publish_chunk-Triple job (map listed bs)))

  pub pack_records-Triple :
      (rs : List BatchRecord)
      → Triple (Before job []) (pack_records job rs) (λ records _. Packs rs records) (Any job)
  unfolding pack_records
  pack_records-Triple rs =
      Triple-bind {A = Unit {0}}
        (λ _ d. (bs : List Source) × (AreSources rs bs × Before job (map listed bs) d))
        (add_records job rs) _ (add_records-Triple [] rs)
        (λ _.
          Triple-bind {A = Unit {0}} (λ _ d. (bs : List Source) × Closed rs bs d)
            (publish_chunk job) _ (publish_taken rs)
            (λ _.
              Triple-bind {A = List CompactRecord} (λ records _. Packs rs records)
                (gets (λ d. d.compact_records)) _
                (Triple-gets _ (λ d (bs, (so, (h, e))). (bs, (so, all_published job bs d h e))))
                (λ records.
                  Triple-branch (is_empty records) _ _ (λ _. Triple-raise no_files (λ d h. tt))
                    (λ _. Triple-pure records (λ d h. h)))))
