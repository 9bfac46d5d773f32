-- ===== src/Compaction/Loop.antt =====
-- The loop over the batches keeps what is packed in step with what is read.
use mathlib.Core.List.{append_assoc, map-append, append-nil}
use udhyam_msme_extractor.Prelude.{
  String, ◌≡◌, refl, ◌≡⟨◌⟩◌, ◌∎, false, not, Option, none, some, List, [], ◌∷◌, ◌++◌, map, length,
  ℕ, ◌≤◌, ◌==◌, arith, ltb, All, str_eq, subst, eq_iff, not-false,
}
use udhyam_msme_extractor.Records.{Csv, Body, Node, file, directory}
use udhyam_msme_extractor.Exec.{pure, Result, ok, err, gets, lift}
use udhyam_msme_extractor.Exec.Triple.{
  Triple, Post, Triple-pure, Triple-raise, Triple-gets, Triple-branch, Triple-bind,
}
use Prim.Native.String.{◌++◌ as join}
use udhyam_msme_extractor.Prelude.Text.{to_str}
use udhyam_msme_extractor.Storage
use udhyam_msme_extractor.Storage.Disk.{node_at, delete_node}
use udhyam_msme_extractor.Compaction.Sources.{
  CompactionError, stage_source_file, unexpected_columns, os_error,
}
use udhyam_msme_extractor.Compaction.Chunks.{
  always, read_rows, keep_rows, Step, Source, CompactRecord, Chunk, Desk, Job, make_room, entry_of,
  added, add_to, copy_rows, check_node, add_batch, data_rows, compact_row,
}
use udhyam_msme_extractor.Compaction.Packing.{
  Listed, listed_in, listed, listing, IsTable, tagged, with_batch, rows_of-append, Bounded, Packed,
  Opened, Any, on_shelf-Triple, make_room-Triple,
}

module _ {Store : Type 0} (job : Job Store) where
  abbrev pub Before : List Listed → Desk Store → Type 0
  Before done d = Packed job done d.current d.compact_records

  abbrev Ready : List Listed → Source → Desk Store → Type 0
  Ready done b d = Before done d × Opened job b d.current

  abbrev pub After : List Listed → Source → Desk Store → Type 0
  After done b = Before (done ++ listed b ∷ [])

  listed_entry :
      (state : String) (b : Source) (source_file : String)
      → state ≡ b.state
      → listed_in state (entry_of job b source_file) ≡ listed b
  unfolding entry_of
  listed_entry state b source_file e i = record {
    state = e i;
    batch_id = b.batch_id;
    offset = b.offset;
    record_count = b.record_count;
    checksum = b.checksum;
    source_uri = b.batch_file;
  }

  -- the rows are those of a source file with the checksum of the batch
  abbrev Copied : Source → Csv → Type 0
  Copied b rows =
      (source : Body) × (job.sha256 source ≡ b.checksum) × (data_rows source ≡ some rows)

  added-table :
      (b : Source) (source_file : String) (rows : Csv) (c : Chunk)
      → IsTable job c.table c.batches
      → Copied b rows
      → length rows ≡ b.record_count
      → IsTable job (added job b source_file rows c).table (added job b source_file rows c).batches
  unfolding added entry_of compact_row
  added-table b source_file rows c (held, h, t) (source, sum, read) e = (
    held ++ map (tagged (entry_of job b source_file)) rows,
    with_batch held c.batches (entry_of job b source_file) source rows h sum read e,
    rw t refl,
  )

  added-Packed :
      (done : List Listed) (b : Source) (source_file : String) (rows : Csv) (c : Chunk)
      (records : List CompactRecord)
      → Packed job done (some c) records
      → Opened job b (some c)
      → length rows ≡ b.record_count
      → Copied b rows
      → Packed job (done ++ listed b ∷ []) (some (added job b source_file rows c)) records
  unfolding added entry_of
  added-Packed done b source_file rows c records p o e copied = record {
    all_listed =
        listing records ++ map (listed_in c.state) (c.batches ++ entry_of job b source_file ∷ [])
        ≡⟨ (simp (map-append, ← append_assoc, listed_entry c.state b source_file o.0)) ⟩
          (listing records ++ map (listed_in c.state) c.batches) ++ listed b ∷ []
        ≡⟨ (rw p.all_listed) ⟩ done ++ listed b ∷ [] ∎;
    bounded = p.bounded;
    fits = (
      omega arith,
      omega (arith, p.fits.1, rows_of-append c.batches (entry_of job b source_file)),
      added-table b source_file rows c p.fits.2 copied e,
    );
  }

  add_to-Triple :
      (done : List Listed) (b : Source) (source_file : String) (rows : Csv) (current : Option Chunk)
      → length rows ≡ b.record_count
      → Copied b rows
      → Triple
          (λ d. Ready done b d × (d.current ≡ current))
          (add_to job b source_file rows current)
          (λ _. After done b)
          (Any job)
  unfolding add_to
  add_to-Triple done b source_file rows none e copied = Triple-raise os_error (λ d h. tt)
  add_to-Triple done b source_file rows (some c) e copied = record {
    at = λ d h.
        added-Packed done b source_file rows c d.compact_records
          (subst (λ o. Packed job done o d.compact_records) h.1 (h.0).0)
          (subst (Opened job b) h.1 (h.0).1) e copied;
  }

  same_length : (n m : ℕ) → not (n == m) ≡ false → n ≡ m
  same_length n m h = ground arith

  lift-Post :
      {A : Type 0} (P : Desk Store → Type 0) (r : Result CompactionError A) (d : Desk Store)
      → P d
      → Post (λ _. P) (Any job) (lift {S = Desk Store} r d)
  lift-Post P (ok a) d h = h
  lift-Post P (err e) d h = tt

  -- the rows that were read are the rows given
  abbrev ReadFrom : List Listed → Source → Option Csv → String × Csv → Desk Store → Type 0
  ReadFrom done b rows copied d = Ready done b d × (rows ≡ some copied.1)

  always-Post :
      (done : List Listed) (b : Source) (local : String) (rows : Option Csv)
      → (r : Result CompactionError (String × Csv)) (d : Desk Store)
      → Post (ReadFrom done b rows) (Any job) (r, d)
      → Post (ReadFrom done b rows) (Any job) (r, record d { shelf = delete_node local d.shelf })
  always-Post done b local rows (ok a) d h = h
  always-Post done b local rows (err e) d h = tt

  always-Triple :
      (done : List Listed) (b : Source) (local : String) (rows : Option Csv)
      (m : Step job (String × Csv))
      → Triple (Ready done b) m (ReadFrom done b rows) (Any job)
      → Triple (Ready done b) (always job local m) (ReadFrom done b rows) (Any job)
  unfolding always
  always-Triple done b local rows m h = record {
    at = λ d r. always-Post done b local rows (m d).0 (m d).1 (h.at d r);
  }

  read_rows-Triple :
      (done : List Listed) (b : Source) (rows : Option Csv)
      → Triple (Ready done b) (read_rows job b rows) (ReadFrom done b rows) (Any job)
  unfolding read_rows
  read_rows-Triple done b none = Triple-raise (unexpected_columns b.batch_id) (λ d h. tt)
  read_rows-Triple done b (some []) = Triple-pure _ (λ d h. (h, refl))
  read_rows-Triple done b (some (row ∷ rows)) =
      Triple-bind {A = String} (λ _. Ready done b)
        (lift (stage_source_file job.unquote b.batch_file))
        (λ source_file. pure (source_file, row ∷ rows))
        (record {
          at = λ d h. lift-Post (Ready done b) (stage_source_file job.unquote b.batch_file) d h;
        })
        (λ source_file. Triple-pure (source_file, row ∷ rows) (λ d h. (h, refl)))

  keep_rows-Triple :
      (done : List Listed) (b : Source) (copied : String × Csv)
      → Copied b copied.1
      → Triple (Ready done b) (keep_rows job b copied) (λ _. After done b) (Any job)
  unfolding keep_rows
  keep_rows-Triple done b (source_file, rows) from =
      Triple-branch (not (length rows == b.record_count)) _ _ (λ _. Triple-raise _ (λ d h. tt))
        (λ same.
          Triple-bind {A = Option Chunk} (λ current d. Ready done b d × (d.current ≡ current))
            (gets (λ d. d.current)) _ (Triple-gets _ (λ d h. (h, refl)))
            (λ current.
              add_to-Triple done b source_file rows current
                (same_length (length rows) b.record_count same) from))

  copy_rows-Triple :
      (done : List Listed) (b : Source) (local : String) (source : Body)
      → job.sha256 source ≡ b.checksum
      → Triple
          (Ready done b)
          (copy_rows job b local (data_rows source))
          (λ _. After done b)
          (Any job)
  unfolding copy_rows
  copy_rows-Triple done b local source sum =
      Triple-bind {A = String × Csv} (ReadFrom done b (data_rows source))
        (always job local (read_rows job b (data_rows source))) (keep_rows job b)
        (always-Triple done b local (data_rows source) (read_rows job b (data_rows source))
          (read_rows-Triple done b (data_rows source)))
        (λ copied. record {
          at = λ d (h, read). (keep_rows-Triple done b copied (source, sum, read)).at d h;
        })

  same_sum : (a b : String) → not (str_eq a b) ≡ false → a ≡ b
  same_sum a b h = (eq_iff a b).0 (not-false (str_eq a b) h)

  check_node-Triple :
      (done : List Listed) (b : Source) (local : String) (found : Option Node)
      → Triple (Ready done b) (check_node job b local found) (λ _. After done b) (Any job)
  unfolding check_node
  check_node-Triple done b local (some (file body)) =
      Triple-branch (not (str_eq (job.sha256 body) b.checksum)) _ _
        (λ _. Triple-raise _ (λ d h. tt))
        (λ same. copy_rows-Triple done b local body (same_sum (job.sha256 body) b.checksum same))
  check_node-Triple done b local (some directory) = Triple-raise os_error (λ d h. tt)
  check_node-Triple done b local none = Triple-raise os_error (λ d h. tt)

  leb_of_ltb : (n m : ℕ) → ltb m n ≡ false → n ≤ m
  leb_of_ltb n m h = ground arith

  pub add_batch-Triple :
      (done : List Listed) (b : Source)
      → Triple (Before done) (add_batch job b) (λ _. After done b) (Any job)
  unfolding add_batch
  add_batch-Triple done b =
      Triple-branch (b.record_count == 0) _ _ (λ _. Triple-raise _ (λ d h. tt))
        (λ _.
          Triple-branch (ltb job.max_rows b.record_count) _ _ (λ _. Triple-raise _ (λ d h. tt))
            (λ small.
              Triple-bind {A = Unit {0}} (λ _. Ready done b) (make_room job b) _
                (make_room-Triple job done b (leb_of_ltb b.record_count job.max_rows small))
                (λ _.
                  Triple-bind {A = String} (λ _. Ready done b)
                    (gets (λ d. join job.staging_dir (
                      join "/source_" (
                        join (to_str (length d.compact_records))
                          (join "_" (join b.batch_id ".csv"))))))
                    _ (Triple-gets _ (λ d h. h))
                    (λ local.
                      Triple-bind {A = Unit {0}} (λ _. Ready done b) _ _
                        (on_shelf-Triple job
                          (λ current records.
                            Packed job done current records × Opened job b current)
                          (Storage.download_artifact job.client job.sha256 job.backend b.batch_file
                            local))
                        (λ _.
                          Triple-bind {A = Option Node} (λ _. Ready done b)
                            (gets (λ d. node_at local d.shelf)) _ (Triple-gets _ (λ d h. h))
                            (λ found. check_node-Triple done b local found))))))

  -- the files hold the batches, in order
  abbrev pub Compacts : List Source → List CompactRecord → Type 0
  Compacts bs records = (listing records ≡ map listed bs) × All (Bounded job) records

  pub all_published :
      (bs : List Source) (d : Desk Store)
      → Before (map listed bs) d
      → d.current ≡ none
      → Compacts bs d.compact_records
  all_published bs d h e =
      let p : Packed job (map listed bs) none d.compact_records =
        subst (λ o. Packed job (map listed bs) o d.compact_records) e h in
      (simp append-nil at p.all_listed, p.bounded)
