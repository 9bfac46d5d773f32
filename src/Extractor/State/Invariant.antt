-- ===== src/Extractor/State/Invariant.antt =====
-- The invariant of a run of one state: what its checkpoint claims is covered by the manifest.
use mathlib.Core.List.{◌++◌}
use udhyam_msme_extractor.Prelude.{String, ◌≡◌, true, Option, none, some, List, ℕ, ◌+◌, ◌<◌}
use udhyam_msme_extractor.Prelude.Int.{pos}
use udhyam_msme_extractor.Records.{BatchRecord}
use udhyam_msme_extractor.Dict.{Dict, lookup}
use udhyam_msme_extractor.Extractor.Env.{Checkpoint, Status, completed, failed}
use udhyam_msme_extractor.Extractor.Manifest.{get_batch_id, find_persisted}
use udhyam_msme_extractor.Extractor.Manifest.Find.{find_persisted-append}
use udhyam_msme_extractor.Extractor.State.{Progress, reached}

abbrev pub Lines : Type 0
Lines = List (Option BatchRecord)

-- A completed state has as many records as the API announced.
abbrev pub Reached : Status → Option ℕ → ℕ → Type 0
Reached completed total written = reached total written ≡ true
Reached _ total written = Unit

-- The statuses with which a state ends.
abbrev pub Final : Status → Type 0
Final completed = Unit
Final failed = Unit
Final _ = ⊥

module _ (run_id state : String) where
  -- The manifest's batches of the state follow one another from offset 0 up to an offset: each is
  -- the one that a resumed run finds there, it is not empty, and the next begins where it ends.
  pub data Covers (lines : Lines) : ℕ → Type 0 where
    origin : Covers lines 0
    batch :
        {o n : ℕ} (r : BatchRecord) (count : ℕ)
        → Covers lines o
        → find_persisted (get_batch_id run_id state o) lines ≡ some r
        → r.record_count ≡ some (pos count)
        → 0 < count
        → n ≡ o + count
        → Covers lines n

  pub Covers-append : (lines more : Lines) {n : ℕ} → Covers lines n → Covers (lines ++ more) n
  Covers-append lines more origin = origin
  Covers-append lines more (batch {o} r count c found counted positive e) =
      batch {o = o} r count (Covers-append lines more c)
        (find_persisted-append (get_batch_id run_id state o) lines more r found) counted positive e

  -- What a checkpoint of the state may claim.
  pub record Sound (lines : Lines) (cp : Checkpoint) : Type 0 where
    pub covered : Covers lines cp.last_completed_offset
    pub counted : cp.records_written ≡ cp.last_completed_offset
    pub complete : Reached cp.status cp.total_records cp.records_written

  pub Sound-append :
      (lines more : Lines) {cp : Checkpoint} → Sound lines cp → Sound (lines ++ more) cp
  Sound-append lines more s = record {
    covered = Covers-append lines more s.covered;
    counted = s.counted;
    complete = s.complete;
  }

  -- The variables of the loop, in step with the manifest.
  pub record Good (lines : Lines) (p : Progress) : Type 0 where
    pub reaches : Covers lines p.offset
    pub tallied : p.written ≡ p.offset
    pub kept : Sound lines p.cp

  -- The checkpoint on disk, if there is one.
  abbrev pub SoundIf : Lines → Option Checkpoint → Type 0
  SoundIf lines none = Unit
  SoundIf lines (some cp) = Sound lines cp

  abbrev pub Stored : Lines → Dict Checkpoint → Type 0
  Stored lines checkpoints = SoundIf lines (lookup state checkpoints)

  SoundIf-append :
      (lines more : Lines) (o : Option Checkpoint) → SoundIf lines o → SoundIf (lines ++ more) o
  SoundIf-append lines more none h = tt
  SoundIf-append lines more (some cp) h = Sound-append lines more h

  pub Stored-append :
      (lines more : Lines) (checkpoints : Dict Checkpoint)
      → Stored lines checkpoints
      → Stored (lines ++ more) checkpoints
  Stored-append lines more checkpoints h = SoundIf-append lines more (lookup state checkpoints) h
