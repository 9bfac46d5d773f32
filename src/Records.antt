-- ===== src/Records.antt =====
-- The data that the parts of the pipeline pass to one another: manifest records, as decoded from a
-- line of JSON, and the contents of files and objects.
use udhyam_msme_extractor.Prelude.{String, Option, List, ℕ, length}
use udhyam_msme_extractor.Prelude.Int.{ℤ}

-- A record of a batch. A field is what `record.get(key)` returns: `none` where the key is missing.
pub record BatchRecord : Type 0 where
  pub batch_id : Option String
  pub run_id : Option String
  pub state : Option String
  pub offset : Option ℤ
  pub record_count : Option ℤ
  pub batch_file : Option String
  pub checksum : Option String
  pub status : Option String
  pub source_file : Option String
  pub source_uri : Option String

-- A line of a manifest as the loader and the compactor read it: a batch, or a compacted file that
-- lists its batches.
pub record ManifestRecord : Type 0 where
  pub base : BatchRecord
  pub open base use *
  pub record_type : Option String
  pub batches : Option (List BatchRecord)

-- A file of comma-separated values: its rows of cells, the header row first.
abbrev pub Csv : Type 0
Csv = List (List String)

-- The contents of a file or of an object; an undecodable line of a manifest is `none`.
pub data Body : Type 0 where
  table : Csv → Body
  manifest_lines : List (Option BatchRecord) → Body
  compaction_lines : List (Option ManifestRecord) → Body
  text : String → Body

-- the size, zero exactly for empty contents
abbrev pub size : Body → ℕ
size (table rows) = length rows
size (manifest_lines lines) = length lines
size (compaction_lines lines) = length lines
size (text s) = Prim.Native.String.len s

-- `Path(p)`: a regular file or something else.
pub data Node : Type 0 where
  file : Body → Node
  directory : Node
