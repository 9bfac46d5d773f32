-- ===== src/Extractor/Checkpoints.antt =====
-- Checkpoints of udyam_extractor.py: loading, saving, and the record of a failure.
use udhyam_msme_extractor.Prelude.{String, Option, none, some, ℕ}
use udhyam_msme_extractor.Prelude.Text.{take}
use udhyam_msme_extractor.Dict.{lookup, insert}
use udhyam_msme_extractor.Exec.{pure, modify, ◌>>◌}
use udhyam_msme_extractor.Extractor.Env.{
  Env, World, Action, Checkpoint, not_started, failed, durable,
}

unfoldable pub fresh_checkpoint : String → String → Checkpoint
fresh_checkpoint run_id state = record {
  run_id = run_id;
  state = state;
  total_records = none;
  records_written = 0;
  last_completed_offset = 0;
  status = not_started;
  failure_reason = none;
  failure_stage = none;
  failure_detail = "";
  retry_count = 0;
  http_status = none;
}

unfoldable pub or_fresh : String → String → Option Checkpoint → Checkpoint
or_fresh run_id state (some cp) = cp
or_fresh run_id state none = fresh_checkpoint run_id state

-- a checkpoint with the failure fields of `mark_state_failed`
unfoldable pub failed_checkpoint :
    String → String → Checkpoint → String → String → String → ℕ → Option ℕ → Checkpoint
failed_checkpoint run_id state cp reason stage detail retry_count http_status = record cp {
  run_id = run_id;
  state = state;
  status = failed;
  failure_reason = some reason;
  failure_stage = some stage;
  failure_detail = take 2000 detail;
  retry_count = retry_count;
  http_status = http_status;
}

module _ {Store : Type 0} where
  unfoldable pub load_checkpoint : String → String → World Store → Checkpoint
  unfolding or_fresh
  load_checkpoint run_id state w = or_fresh run_id state (lookup state w.checkpoints)

  -- the file is replaced at once
  unfoldable pub store_checkpoint : String → Checkpoint → World Store → World Store
  store_checkpoint state cp w = record w { checkpoints = insert state cp w.checkpoints }

  module _ (env : Env Store) where
    unfoldable pub save_checkpoint : String → Checkpoint → Action Store (Unit {0})
    unfolding store_checkpoint
    save_checkpoint state cp = do durable env; modify (store_checkpoint state cp)

    unfoldable pub mark_state_failed :
        String
        → String
        → Checkpoint
        → String
        → String
        → String
        → ℕ
        → Option ℕ
        → Action Store Checkpoint
    unfolding failed_checkpoint
    mark_state_failed run_id state cp reason stage detail retry_count http_status = do
      let cp' = failed_checkpoint run_id state cp reason stage detail retry_count http_status
      save_checkpoint state cp'
      pure cp'
