-- ===== src/Extractor/State.antt =====
-- `extract_state` of udyam_extractor.py: the batches of one state, from its checkpoint on.
pub mod Invariant
pub mod Coverage
pub mod Turns
pub mod Persist
pub mod Runs
pub mod Ends
pub mod Terminates
use udhyam_msme_extractor.Prelude.{
  String, Bool, true, false, not, Option, none, some, List, [], ◌∷◌, ℕ, zero, suc, ◌+◌, ◌==◌, ltb,
  leb, get_or, length, is_empty, is_some, ◌&&◌, ◌||◌, if◌then◌else◌,
}
use udhyam_msme_extractor.Prelude.Int.{ℤ, pos, negsuc}
use udhyam_msme_extractor.Prelude.Text.{is_blank}
use udhyam_msme_extractor.Records.{BatchRecord}
use udhyam_msme_extractor.Exec.{Result, ok, err, pure, raise, branch, handle, gets, ◌>>=◌, ◌>>◌}
use udhyam_msme_extractor.Storage
use udhyam_msme_extractor.Storage.{Backend, local, object}
use udhyam_msme_extractor.Storage.Disk.{node_at}
use udhyam_msme_extractor.Extractor.Env.{
  Env, World, Action, Row, Response, ExtractionError, Exn, extraction, storage, os_error,
  out_of_fuel, Status, not_started, in_progress, completed, failed, Checkpoint,
  is_shutdown_requested, on_shelf,
}
use udhyam_msme_extractor.Extractor.Manifest.{get_persisted_batch, write_batch_manifest}
use udhyam_msme_extractor.Extractor.Checkpoints.{
  load_checkpoint, save_checkpoint, mark_state_failed,
}
use udhyam_msme_extractor.Extractor.Batches.{
  batch_output_path, staging_path, write_batch_file, calculate_file_sha256,
  cleanup_published_staged_batch,
}
use udhyam_msme_extractor.Extractor.Fetch.{records_of, total_of, fetch_batch}

unfoldable pub reconcile_state : Option ℕ → ℕ → Bool
reconcile_state none records_written = false
reconcile_state (some expected) actual = if ltb actual expected then false else true

-- The variables of the loop.
pub record Progress : Type 0 where
  pub cp : Checkpoint
  pub offset : ℕ
  pub written : ℕ
  pub total : Option ℕ

-- One turn of `while True`: another turn, or the checkpoint that is returned.
pub data Turn : Type 0 where
  next : Progress → Turn
  finished : Checkpoint → Turn

unfoldable pub is_completed : Status → Bool
is_completed completed = true
is_completed _ = false

-- `cp.update` with the loop's variables
unfoldable pub updated : Progress → Status → Checkpoint
updated p status = record p.cp {
  status = status;
  total_records = p.total;
  records_written = p.written;
  last_completed_offset = p.offset;
}

-- the checkpoint and the variables from which the loop starts
unfoldable pub resume : String → String → Checkpoint → Progress
resume run_id state cp = record {
  cp = record cp {
    run_id = run_id;
    state = state;
    status = in_progress;
    failure_reason = none;
    failure_stage = none;
    failure_detail = "";
    retry_count = 0;
    http_status = none;
  };
  offset = cp.last_completed_offset;
  written = cp.records_written;
  total = cp.total_records;
}

-- `total is not None and written >= total`
unfoldable pub reached : Option ℕ → ℕ → Bool
reached none written = false
reached (some total) written = leb total written

-- `int(persisted_batch.get("record_count", 0))` if it is positive
unfoldable pub positive_count : Option ℤ → Option ℕ
positive_count (some (pos (suc n))) = some (suc n)
positive_count _ = none

unfoldable pub is_local : Backend → Bool
is_local local = true
is_local (object _) = false

module _ {Store : Type 0} (env : Env Store) (run_id state : String) where
  -- `return mark_state_failed(...)`
  unfoldable pub give_up : Progress → String → String → String → ℕ → Option ℕ → Action Store Turn
  unfolding mark_state_failed
  give_up p reason stage detail retry_count http_status = do
    cp ← mark_state_failed env run_id state p.cp reason stage detail retry_count http_status
    pure (finished cp)

  unfoldable pub save_and_return : Checkpoint → Action Store Turn
  unfolding save_checkpoint
  save_and_return cp = do save_checkpoint env state cp; pure (finished cp)

  -- the reconciliation in front of each return of a finished state
  unfoldable pub conclude : Progress → Action Store Turn
  unfolding save_and_return reconcile_state updated
  conclude p =
      save_and_return (updated p (if reconcile_state p.total p.written then completed else failed))

  recovered : Progress → ℕ → Progress
  unfolding updated
  recovered p count =
      let p' = record p { written = p.written + count; offset = p.offset + count } in
      record p' { cp = updated p' in_progress }

  recover_count : Progress → Option ℕ → Action Store Turn
  unfolding save_and_return save_checkpoint conclude recovered updated reached
  recover_count p none = save_and_return (updated p failed)
  recover_count p (some count) = do
    let p' = recovered p count
    save_checkpoint env state p'.cp
    branch (reached p'.total p'.written) (conclude p') (pure (next p'))

  -- a batch that the manifest holds already
  unfoldable pub recover_batch : Progress → BatchRecord → Action Store Turn
  unfolding give_up recover_count positive_count
  recover_batch p r = do
    valid ← gets (λ w.
        Storage.validate_artifact env.client env.sha256 env.backend r.batch_file r.checksum w.shelf)
    branch (not (is_blank valid.1))
        (give_up p "BATCH_ARTIFACT_INVALID" "ARTIFACT_VALIDATION" valid.1 0 none)
        (recover_count p (positive_count r.record_count))

  -- the counters, the manifest and the checkpoint, once the batch is published
  unfoldable pub record_batch : Progress → ℕ → String → String → Action Store Turn
  unfolding write_batch_manifest save_checkpoint conclude recovered updated reached
  record_batch p count batch_file checksum = do
    let p' = recovered p count
    write_batch_manifest env run_id state p.offset count batch_file checksum
    save_checkpoint env state p'.cp
    branch (reached p'.total p'.written || (is_some p'.total && ltb count env.settings.batch_size))
        (conclude p') (pure (next p'))

  published : Progress → ℕ → String → String → Result String String → Action Store Turn
  unfolding give_up record_batch cleanup_published_staged_batch is_local
  published p count path checksum (err message) =
      give_up p "STORAGE_UPLOAD_FAILED" "RAW_PERSISTENCE" message 0 none
  published p count path checksum (ok batch_file) = do
    branch (is_local env.backend) (pure tt) (cleanup_published_staged_batch env path)
    record_batch p count batch_file checksum

  -- the file is written, hashed and published
  unfoldable pub persist_at : Progress → List Row → String → Action Store Turn
  unfolding write_batch_file save_and_return updated calculate_file_sha256 published
  persist_at p records path = do
    written_count ← write_batch_file env path records
    branch (not (written_count == length records)) (save_and_return (updated p failed)) (do
      checksum ← calculate_file_sha256 env path
      r ← on_shelf (
          Storage.publish_batch env.client env.sha256 env.backend path run_id state p.offset
            checksum)
      published p written_count path checksum r)

  -- an artifact that is there without a manifest record is never overwritten
  unfoldable pub persist_batch : Progress → List Row → Action Store Turn
  unfolding give_up persist_at is_local
  persist_batch p records =
      let path = batch_output_path run_id state p.offset in
      branch (is_local env.backend)
        (do
          found ← gets (λ w. node_at path w.shelf)
          branch (is_some found)
              (give_up p "ORPHAN_BATCH_ARTIFACT" "ARTIFACT_PERSISTENCE" path 0 none)
              (persist_at p records path))
        (persist_at p records (staging_path run_id state p.offset))

  -- `if total is None: total = int(data.get("total") or 0)`
  with_total : Progress → Response → Progress
  with_total p d = record p { total = some (get_or p.total (total_of d)) }

  process_page : Progress → Response → Action Store Turn
  unfolding conclude persist_batch with_total
  process_page p d =
      let p' = with_total p d in
      branch (is_empty (records_of d)) (conclude p') (persist_batch p' (records_of d))

  -- `except ExtractionError`
  fetch_failed : Progress → Exn → Action Store Turn
  unfolding give_up
  fetch_failed p (extraction e) = give_up p e.reason e.stage e.detail e.retry_count e.http_status
  fetch_failed p (storage e) = raise (storage e)
  fetch_failed p os_error = raise os_error
  fetch_failed p out_of_fuel = raise out_of_fuel

  fetched : Progress → Result Exn Response → Action Store Turn
  unfolding process_page fetch_failed
  fetched p (ok d) = process_page p d
  fetched p (err e) = fetch_failed p e

  unfoldable pub fetch_page : Progress → Action Store Turn
  unfolding fetched fetch_batch
  fetch_page p w = let (r, w') = fetch_batch env state p.offset w in fetched p r w'

  recover_or_fetch : Progress → Option BatchRecord → Action Store Turn
  unfolding recover_batch fetch_page
  recover_or_fetch p (some r) = recover_batch p r
  recover_or_fetch p none = fetch_page p

  stop_or : Progress → Bool → Action Store Turn → Action Store Turn
  unfolding give_up
  stop_or p stop rest = branch stop (give_up p "SHUTDOWN_REQUESTED" "SHUTDOWN" "" 0 none) rest

  -- the body of `while True`
  unfoldable pub turn : Progress → Action Store Turn
  unfolding is_shutdown_requested stop_or recover_or_fetch get_persisted_batch
  turn p = do
    stop ← is_shutdown_requested env
    stop_or p stop (do
      stop_again ← is_shutdown_requested env
      stop_or p stop_again
          (do found ← gets (get_persisted_batch run_id state p.offset); recover_or_fetch p found))

  continue : (Progress → Action Store Checkpoint) → Turn → Action Store Checkpoint
  continue again (next p) = again p
  continue again (finished cp) = pure cp

  unfoldable pub loop : ℕ → Progress → Action Store Checkpoint
  unfolding turn continue
  loop zero p = raise out_of_fuel
  loop (suc fuel) p = do t ← turn p; continue (loop fuel) t

  start : ℕ → Checkpoint → Action Store Checkpoint
  unfolding resume is_completed save_checkpoint loop
  start fuel cp =
      branch (is_completed cp.status) (pure cp) (do
        save_checkpoint env state (resume run_id state cp).cp
        loop fuel (resume run_id state cp))

  unfoldable pub extract_state : ℕ → Action Store Checkpoint
  unfolding start load_checkpoint
  extract_state fuel = do cp ← gets (load_checkpoint run_id state); start fuel cp
