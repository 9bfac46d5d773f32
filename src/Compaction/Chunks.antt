-- ===== src/Compaction/Chunks.antt =====
-- `compact_run`: the batches, in order, are copied into files of at most `max_rows` rows of one state.
use Prim.Native.String.{◌++◌ as join}
use udhyam_msme_extractor.Prelude.{
  String, Bool, true, false, not, ◌&&◌, ◌||◌, Option, none, some, List, [], ◌∷◌, ◌++◌, map, length,
  get_or, is_empty, ◌==◌, ltb, ℕ, ◌+◌, str_eq, if◌then◌else◌, keep,
}
use udhyam_msme_extractor.Prelude.Int.{ℤ, pos}
use udhyam_msme_extractor.Prelude.Text.{to_str, underscored, pad_five}
use udhyam_msme_extractor.Records.{Body, Csv, table, Node, file}
use udhyam_msme_extractor.Dict.{Dict, lookup, insert}
use udhyam_msme_extractor.Exec.{
  Exec, Result, ok, err, pure, raise, gets, lift, branch, modify, ◌>>=◌, ◌>>◌,
}
use udhyam_msme_extractor.Storage
use udhyam_msme_extractor.Storage.{Backend}
use udhyam_msme_extractor.Storage.Disk.{Shelf, Client, node_at, write_node, delete_node}
use udhyam_msme_extractor.Extractor.Batches.{csv_headers}
use udhyam_msme_extractor.Compaction.Sources.{
  CompactionError, invalid_count, too_many_rows, checksum_mismatch, unexpected_columns,
  count_mismatch, key_error, os_error, no_files, storage, stage_source_file,
}

abbrev pub compact_headers : List String
compact_headers = csv_headers ++ ("__BATCH_ID" ∷ "__SOURCE_FILE" ∷ "__SOURCE_OFFSET" ∷ [])

-- The fields of a source batch that the loop reads.
pub record Source : Type 0 where
  pub batch_id : String
  pub state : String
  pub offset : ℕ
  pub record_count : ℕ
  pub batch_file : String
  pub checksum : String

-- An entry of a compacted file's list of batches.
pub record CompactBatch : Type 0 where
  pub batch_id : String
  pub offset : ℕ
  pub record_count : ℕ
  pub checksum : String
  pub source_file : String
  pub source_uri : String

pub record CompactRecord : Type 0 where
  pub run_id : String
  pub state : String
  pub batch_file : String
  pub checksum : String
  pub record_count : ℕ
  pub batches : List CompactBatch

-- The file that is being written: `current_state`, `current_path`, its rows, `current_rows` and
-- `current_batches`.
pub record Chunk : Type 0 where
  pub state : String
  pub path : String
  pub table : Csv
  pub rows : ℕ
  pub batches : List CompactBatch

-- The variables of `compact_run`, and the files.
pub record Desk (Store : Type 0) : Type 0 where
  pub shelf : Shelf Store
  pub chunk_index_by_state : Dict ℕ
  pub current : Option Chunk
  pub compact_records : List CompactRecord

pub record Job (Store : Type 0) : Type 0 where
  pub client : Client Store
  pub sha256 : Body → String
  pub backend : Backend
  pub unquote : String → String
  pub max_rows : ℕ
  pub run_id : String
  pub staging_dir : String

-- `int(...)` of a count or offset that `write_batch_manifest` wrote; anything below is refused
natural : Option ℤ → Result CompactionError ℕ
natural (some (pos n)) = ok n
natural _ = err key_error

-- the cells of the columns of `CSV_HEADERS`, blank where the row is short
pub cells : List String → List String → List String
cells [] row = []
cells (h ∷ hs) [] = "" ∷ cells hs []
cells (h ∷ hs) (c ∷ row) = c ∷ cells hs row

unfoldable pub compact_row : Source → String → List String → List String
unfolding cells
compact_row b source_file row =
    cells csv_headers row ++ (b.batch_id ∷ source_file ∷ to_str b.offset ∷ [])

unfoldable pub same_header : List String → List String → Bool
same_header [] [] = true
same_header (a ∷ as') (b ∷ bs) = str_eq a b && same_header as' bs
same_header _ _ = false

-- `DictReader`: the header, and the rows that are not blank
unfoldable pub data_rows : Body → Option Csv
unfolding same_header
data_rows (table (header ∷ rows)) =
    if same_header header csv_headers then some (keep (λ r. not (is_empty r)) rows) else none
data_rows _ = none

module _ {Store : Type 0} (job : Job Store) where
  abbrev pub Step : Type 0 → Type 0
  Step A = Exec (Desk Store) CompactionError A

  abbrev pub on_shelf : {A : Type 0} → Exec (Shelf Store) String A → Step A
  on_shelf m d =
      let (r, shelf) = m d.shelf in
      let d' = record d { shelf = shelf } in
      elim r [ ok a ↦ (ok a, d') | err e ↦ (err (storage e), d') ]

  -- what is published for a chunk
  unfoldable pub record_of : Chunk → String → String → CompactRecord
  record_of c batch_file checksum = record {
    run_id = job.run_id;
    state = c.state;
    batch_file = batch_file;
    checksum = checksum;
    record_count = c.rows;
    batches = c.batches;
  }

  unfoldable pub close_chunk : Chunk → ℕ → String → String → Desk Store → Desk Store
  close_chunk c index batch_file checksum d = record d {
    compact_records = d.compact_records ++ (record_of c batch_file checksum ∷ []);
    chunk_index_by_state = insert c.state (index + 1) d.chunk_index_by_state;
    current = none;
  }

  unfoldable pub publish_current : Option Chunk → Step (Unit {0})
  unfolding close_chunk record_of
  publish_current none = pure tt
  publish_current (some c) = do
    modify (λ d. record d { shelf = write_node c.path (table c.table) d.shelf })
    let checksum = job.sha256 (table c.table)
    index ← gets (λ d. get_or (lookup c.state d.chunk_index_by_state) 0)
    batch_file ← on_shelf (
        Storage.publish_compacted_batch job.client job.sha256 job.backend c.path job.run_id c.state
          index checksum)
    modify (close_chunk c index batch_file checksum)

  -- `publish_chunk`
  unfoldable pub publish_chunk : Step (Unit {0})
  unfolding publish_current
  publish_chunk = do current ← gets (λ d. d.current); publish_current current

  -- `start_chunk`
  unfoldable pub start_chunk : String → Step (Unit {0})
  start_chunk state = modify (λ d.
      let index = get_or (lookup state d.chunk_index_by_state) 0 in
      record d {
        chunk_index_by_state = insert state index d.chunk_index_by_state;
        current = some (record {
          state = state;
          path =
              join job.staging_dir
                (join "/" (join (underscored state) (join "_" (join (pad_five index) ".csv"))));
          table = compact_headers ∷ [];
          rows = 0;
          batches = [];
        });
      })

  -- a new chunk is due for another state or where the rows would not fit
  unfoldable pub must_close : Source → Option Chunk → Bool
  must_close b none = false
  must_close b (some c) = not (str_eq b.state c.state) || ltb job.max_rows (c.rows + b.record_count)

  unfoldable pub open_chunk : Source → Option Chunk → Step (Unit {0})
  unfolding start_chunk
  open_chunk b none = start_chunk b.state
  open_chunk b (some c) = pure tt

  unfoldable pub make_room : Source → Step (Unit {0})
  unfolding publish_chunk must_close open_chunk
  make_room b = do
    current ← gets (λ d. d.current)
    branch (must_close b current) publish_chunk (pure tt)
    left ← gets (λ d. d.current)
    open_chunk b left

  unfoldable pub entry_of : Source → String → CompactBatch
  entry_of b source_file = record {
    batch_id = b.batch_id;
    offset = b.offset;
    record_count = b.record_count;
    checksum = b.checksum;
    source_file = source_file;
    source_uri = b.batch_file;
  }

  -- the chunk with the rows of a batch, which is listed
  unfoldable pub added : Source → String → Csv → Chunk → Chunk
  unfolding entry_of compact_row
  added b source_file rows c = record c {
    table = c.table ++ map (compact_row b source_file) rows;
    rows = c.rows + length rows;
    batches = c.batches ++ (entry_of b source_file ∷ []);
  }

  unfoldable pub add_to : Source → String → Csv → Option Chunk → Step (Unit {0})
  unfolding added
  add_to b source_file rows none = raise os_error
  add_to b source_file rows (some c) =
      modify (λ d. record d { current = some (added b source_file rows c) })

  -- `finally: local_batch.unlink(missing_ok=True)`
  unfoldable pub always : {A : Type 0} → String → Step A → Step A
  always local m d = let (r, d') = m d in (r, record d' { shelf = delete_node local d'.shelf })

  -- the rows, and the source file that is written beside each of them
  unfoldable pub read_rows : Source → Option Csv → Step (String × Csv)
  unfolding stage_source_file
  read_rows b none = raise (unexpected_columns b.batch_id)
  read_rows b (some []) = pure ("", [])
  read_rows b (some (row ∷ rows)) = do
    source_file ← lift (stage_source_file job.unquote b.batch_file)
    pure (source_file, row ∷ rows)

  unfoldable pub keep_rows : Source → String × Csv → Step (Unit {0})
  unfolding add_to
  keep_rows b (source_file, rows) =
      branch (not (length rows == b.record_count)) (raise (count_mismatch b.batch_id))
        (do current ← gets (λ d. d.current); add_to b source_file rows current)

  unfoldable pub copy_rows : Source → String → Option Csv → Step (Unit {0})
  unfolding always read_rows keep_rows
  copy_rows b local rows = do copied ← always local (read_rows b rows); keep_rows b copied

  unfoldable pub check_node : Source → String → Option Node → Step (Unit {0})
  unfolding copy_rows data_rows
  check_node b local (some (file body)) =
      branch (not (str_eq (job.sha256 body) b.checksum)) (raise (checksum_mismatch b.batch_id))
        (copy_rows b local (data_rows body))
  check_node b local _ = raise os_error

  -- one round of the loop over the batches
  unfoldable pub add_batch : Source → Step (Unit {0})
  unfolding make_room check_node
  add_batch b = branch (b.record_count == 0) (raise (invalid_count b.batch_id)) (
      branch (ltb job.max_rows b.record_count) (raise (too_many_rows b.batch_id)) (do
        make_room b
        local ← gets (λ d. join job.staging_dir (
            join "/source_"
              (join (to_str (length d.compact_records)) (join "_" (join b.batch_id ".csv")))))
        on_shelf (Storage.download_artifact job.client job.sha256 job.backend b.batch_file local)
        found ← gets (λ d. node_at local d.shelf)
        check_node b local found))

  unfoldable pub add_batches : List Source → Step (Unit {0})
  unfolding add_batch
  add_batches [] = pure tt
  add_batches (b ∷ bs) = do add_batch b; add_batches bs

  -- the loop and the last `publish_chunk`
  unfoldable pub pack : List Source → Step (List CompactRecord)
  unfolding add_batches publish_chunk
  pack bs = do
    add_batches bs
    publish_chunk
    records ← gets (λ d. d.compact_records)
    branch (is_empty records) (raise no_files) (pure records)
