-- ===== src/Compaction/Packing.antt =====
-- What the compacted files hold: all the batches, in order, each file of one state and within the
-- bound.
use mathlib.Core.List.{append_assoc, map-append}
use udhyam_msme_extractor.Prelude.{
  String, ◌≡◌, refl, sym, false, Option, none, some, List, [], ◌∷◌, ◌++◌, map, ℕ, ◌+◌, ◌≤◌, arith,
  All, sum_by, eq_iff, subst, get_or, length,
}
use udhyam_msme_extractor.Records.{table, Body, Csv}
use udhyam_msme_extractor.Prelude.Text.{to_str}
use udhyam_msme_extractor.Extractor.Batches.{csv_headers}
use udhyam_msme_extractor.Exec.{Exec, Result, ok, err, pure, gets, modify, branch}
use udhyam_msme_extractor.Exec.Triple.{
  Triple, Post, Triple-pure, Triple-gets, Triple-weaken, Triple-post, Triple-branch, Triple-bind,
}
use udhyam_msme_extractor.Storage
use udhyam_msme_extractor.Storage.Disk.{Shelf, write_node}
use udhyam_msme_extractor.Dict.{lookup}
use udhyam_msme_extractor.Compaction.Sources.{CompactionError}
use udhyam_msme_extractor.Compaction.Chunks.{
  Source, CompactBatch, CompactRecord, Chunk, Desk, Job, on_shelf, record_of, close_chunk,
  publish_current, publish_chunk, start_chunk, must_close, open_chunk, make_room, cells, data_rows,
  compact_headers,
}

-- A batch as the manifest of a compaction lists it, with the state of its file.
pub record Listed : Type 0 where
  pub state : String
  pub batch_id : String
  pub offset : ℕ
  pub record_count : ℕ
  pub checksum : String
  pub source_uri : String

abbrev pub listed_in : String → CompactBatch → Listed
listed_in state e = record {
  state = state;
  batch_id = e.batch_id;
  offset = e.offset;
  record_count = e.record_count;
  checksum = e.checksum;
  source_uri = e.source_uri;
}

abbrev pub listed : Source → Listed
listed b = record {
  state = b.state;
  batch_id = b.batch_id;
  offset = b.offset;
  record_count = b.record_count;
  checksum = b.checksum;
  source_uri = b.batch_file;
}

-- all the batches of the files, in order
abbrev pub listing : List CompactRecord → List Listed
listing [] = []
listing (r ∷ rs) = map (listed_in r.state) r.batches ++ listing rs

abbrev pub rows_of : List CompactBatch → ℕ
rows_of = sum_by (λ e. e.record_count)

abbrev pub in_chunk : Option Chunk → List Listed
in_chunk none = []
in_chunk (some c) = map (listed_in c.state) c.batches

-- a row of a source file with the columns of its batch
abbrev pub tagged : CompactBatch → List String → List String
tagged e row = cells csv_headers row ++ (e.batch_id ∷ e.source_file ∷ to_str e.offset ∷ [])

module _ {Store : Type 0} (job : Job Store) where
  -- Rows that are those of the batches, in order: of each batch all the rows of a source file that has
  -- its checksum, as many as its count, each with the columns of the batch.
  pub data Holds : Csv → List CompactBatch → Type 0 where
    empty : Holds [] []
    with_batch :
        (rows : Csv) (es : List CompactBatch) (e : CompactBatch) (source : Body) (source_rows : Csv)
        → Holds rows es
        → job.sha256 source ≡ e.checksum
        → data_rows source ≡ some source_rows
        → length source_rows ≡ e.record_count
        → Holds (rows ++ map (tagged e) source_rows) (es ++ e ∷ [])

  -- A table is the header and the rows of these batches.
  abbrev pub IsTable : Csv → List CompactBatch → Type 0
  IsTable t es = (rows : Csv) × Holds rows es × (t ≡ compact_headers ∷ rows)

  -- A file within the bound, whose row count is that of its batches; its checksum is that of a table of
  -- their rows.
  abbrev pub Bounded : CompactRecord → Type 0
  Bounded r =
      (r.record_count ≤ job.max_rows)
      × (r.record_count ≡ rows_of r.batches)
      × (t : Csv) × IsTable t r.batches
      × (r.checksum ≡ job.sha256 (table t))

  abbrev pub Fits : Option Chunk → Type 0
  Fits none = Unit
  Fits (some c) = (c.rows ≤ job.max_rows) × (c.rows ≡ rows_of c.batches) × IsTable c.table c.batches

listing-append :
    (rs : List CompactRecord) (r : CompactRecord)
    → listing (rs ++ r ∷ []) ≡ listing rs ++ map (listed_in r.state) r.batches
listing-append [] r = simp (mathlib.Core.List.append-nil)
listing-append (x ∷ rs) r = simp (listing-append rs r, append_assoc)

All-append :
    {A : Type 0} (P : A → Type 0) (xs : List A) (x : A) → All P xs → P x → All P (xs ++ x ∷ [])
All-append P [] x h p = (p, tt)
All-append P (y ∷ xs) x h p = (h.0, All-append P xs x h.1 p)

pub rows_of-append :
    (es : List CompactBatch) (e : CompactBatch)
    → rows_of (es ++ e ∷ []) ≡ rows_of es + e.record_count
rows_of-append [] e = omega arith
rows_of-append (x ∷ es) e = omega (arith, rows_of-append es e)

module _ {Store : Type 0} (job : Job Store) where
  abbrev pub State : Type 1
  State = Option Chunk → List CompactRecord → Type 0

  abbrev pub On : State → Desk Store → Type 0
  On R d = R d.current d.compact_records

  -- the batches so far stand in the files and in the chunk, in order
  pub record Packed (done : List Listed) (current : Option Chunk) (records : List CompactRecord)
      : Type 0 where
    pub all_listed : listing records ++ in_chunk current ≡ done
    pub bounded : All (Bounded job) records
    pub fits : Fits job current

  abbrev pub Any : CompactionError → Desk Store → Type 0
  Any e d = Unit

  shelf-Post :
      {A : Type 0} (R : State) (r : Result String A) (shelf : Shelf Store) (d : Desk Store)
      → On R d
      → Post (λ _. On R) Any (on_shelf job (λ _. (r, shelf)) d)
  shelf-Post R (ok a) shelf d h = h
  shelf-Post R (err e) shelf d h = tt

  pub on_shelf-Triple :
      {A : Type 0} (R : State) (m : Exec (Shelf Store) String A)
      → Triple (On R) (on_shelf job m) (λ _. On R) Any
  on_shelf-Triple R m = record { at = λ d h. shelf-Post R (m d.shelf).0 (m d.shelf).1 d h }

  close-Packed :
      (done : List Listed) (c : Chunk) (records : List CompactRecord) (batch_file checksum : String)
      → checksum ≡ job.sha256 (table c.table)
      → Packed done (some c) records
      → Packed done none (records ++ record_of job c batch_file checksum ∷ [])
  unfolding record_of
  close-Packed done c records batch_file checksum sum p = record {
    all_listed =
        simp
          (
            listing-append records (record_of job c batch_file checksum),
            mathlib.Core.List.append-nil,
          )
          (p.all_listed);
    bounded =
        All-append (Bounded job) records (record_of job c batch_file checksum) p.bounded
          (p.fits.0, p.fits.1, c.table, p.fits.2, sum);
    fits = tt;
  }

  -- the chunk, if there is one, takes the batch
  abbrev Roomy : Source → Option Chunk → Type 0
  Roomy b none = Unit
  Roomy b (some c) = (c.state ≡ b.state) × (c.rows + b.record_count ≤ job.max_rows)

  close_chunk-Triple :
      (done : List Listed) (c : Chunk) (index : ℕ) (batch_file checksum : String)
      → checksum ≡ job.sha256 (table c.table)
      → Triple
          (λ d. Packed done d.current d.compact_records × (d.current ≡ some c))
          (modify (close_chunk job c index batch_file checksum))
          (λ _ d. Packed done d.current d.compact_records × (d.current ≡ none))
          Any
  unfolding close_chunk
  close_chunk-Triple done c index batch_file checksum sum = record {
    at = λ d h. (
      close-Packed done c d.compact_records batch_file checksum sum
          (subst (λ o. Packed done o d.compact_records) h.1 h.0),
      refl,
    );
  }

  publish_current-Triple :
      (done : List Listed) (current : Option Chunk)
      → Triple
          (λ d. Packed done d.current d.compact_records × (d.current ≡ current))
          (publish_current job current)
          (λ _ d. Packed done d.current d.compact_records × (d.current ≡ none))
          Any
  unfolding publish_current
  publish_current-Triple done none = Triple-pure tt (λ d h. h)
  publish_current-Triple done (some c) =
      let R : State = λ current records. Packed done current records × (current ≡ some c) in
      Triple-bind (λ _. On R)
        (modify (λ d. record d { shelf = write_node c.path (table c.table) d.shelf })) _
        (record { at = λ d h. h })
        (λ _.
          Triple-bind {A = ℕ} (λ _. On R)
            (gets (λ d. get_or (lookup c.state d.chunk_index_by_state) 0)) _
            (Triple-gets _ (λ d h. h))
            (λ index.
              Triple-bind {A = String} (λ _. On R)
                (on_shelf job (
                  Storage.publish_compacted_batch job.client job.sha256 job.backend c.path
                    job.run_id c.state index (job.sha256 (table c.table))))
                _ (on_shelf-Triple R _)
                (λ batch_file.
                  close_chunk-Triple done c index batch_file (job.sha256 (table c.table)) refl)))

  pub publish_chunk-Triple :
      (done : List Listed)
      → Triple
          (λ d. Packed done d.current d.compact_records)
          (publish_chunk job)
          (λ _ d. Packed done d.current d.compact_records × (d.current ≡ none))
          Any
  unfolding publish_chunk
  publish_chunk-Triple done =
      Triple-bind {A = Option Chunk}
        (λ current d. Packed done d.current d.compact_records × (d.current ≡ current))
        (gets (λ d. d.current)) _ (Triple-gets _ (λ d h. (h, refl))) (publish_current-Triple done)

  -- a chunk that need not be closed takes the batch
  roomy : (b : Source) (current : Option Chunk) → must_close job b current ≡ false → Roomy b current
  unfolding must_close
  roomy b none h = tt
  roomy b (some c) h = ground (arith, eq_iff b.state c.state)

  -- the chunk that takes the batch is there
  abbrev pub Opened : Source → Option Chunk → Type 0
  Opened b none = ⊥
  Opened b (some c) = (c.state ≡ b.state) × (c.rows + b.record_count ≤ job.max_rows)

  open_chunk-Triple :
      (done : List Listed) (b : Source) (current : Option Chunk)
      → b.record_count ≤ job.max_rows
      → Triple
          (λ d. Packed done d.current d.compact_records × Roomy b d.current × (d.current ≡ current))
          (open_chunk job b current)
          (λ _ d. Packed done d.current d.compact_records × Opened b d.current)
          Any
  unfolding open_chunk start_chunk
  open_chunk-Triple done b none small = record {
    at = λ d h.
        let p : Packed done none d.compact_records =
          subst (λ o. Packed done o d.compact_records) h.2 h.0 in
        (
          record {
            all_listed = p.all_listed;
            bounded = p.bounded;
            fits = (omega arith, refl, ([], empty, refl));
          },
          (refl, omega arith),
        );
  }
  open_chunk-Triple done b (some c) small =
      Triple-pure tt (λ d h. (h.0, rw h.2 (subst (Roomy b) h.2 h.1)))

  pub make_room-Triple :
      (done : List Listed) (b : Source)
      → b.record_count ≤ job.max_rows
      → Triple
          (λ d. Packed done d.current d.compact_records)
          (make_room job b)
          (λ _ d. Packed done d.current d.compact_records × Opened b d.current)
          Any
  unfolding make_room
  make_room-Triple done b small =
      Triple-bind {A = Option Chunk}
        (λ current d. Packed done d.current d.compact_records × (d.current ≡ current))
        (gets (λ d. d.current)) _ (Triple-gets _ (λ d h. (h, refl)))
        (λ current.
          Triple-bind {A = Unit {0}}
            (λ _ d. Packed done d.current d.compact_records × Roomy b d.current)
            (branch (must_close job b current) (publish_chunk job) (pure tt)) _
            (Triple-branch (must_close job b current) _ _
              (λ _.
                Triple-post (λ _ d. Packed done d.current d.compact_records × (d.current ≡ none))
                  Any _ (Triple-weaken _ (publish_chunk-Triple done) (λ d h. h.0))
                  (λ u d h. (h.0, rw h.1 tt)) (λ e d h. tt))
              (λ keep.
                Triple-pure tt (λ d h. (h.0, subst (Roomy b) (sym h.1) (roomy b current keep)))))
            (λ _.
              Triple-bind {A = Option Chunk}
                (λ left d.
                  Packed done d.current d.compact_records × Roomy b d.current × (d.current ≡ left))
                (gets (λ d. d.current)) _ (Triple-gets _ (λ d h. (h.0, h.1, refl)))
                (λ left. open_chunk-Triple done b left small)))
