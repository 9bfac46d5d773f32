-- ===== src/Extractor/States.antt =====
-- `extract_states` and `get_run_id` of udyam_extractor.py. The worker threads are taken one after
-- another, in the order in which their results are collected.
use Prim.Native.String.{◌++◌}
use udhyam_msme_extractor.Prelude.{String, Option, none, some, List, [], ◌∷◌, ℕ, if◌then◌else◌}
use udhyam_msme_extractor.Prelude.Text.{is_blank, strip}
use udhyam_msme_extractor.Exec.{pure, gets, handle, ◌>>=◌}
use udhyam_msme_extractor.Extractor.Env.{
  Env, Action, Exn, extraction, storage, os_error, out_of_fuel, Checkpoint,
}
use udhyam_msme_extractor.Extractor.Checkpoints.{load_checkpoint, mark_state_failed}
use udhyam_msme_extractor.Extractor.State.{extract_state}

-- `existing_run_id` without the spaces around it, or the new ID made of the time and a random part
unfoldable pub get_run_id : Option String → String → String → String
get_run_id none timestamp unique_id = timestamp ++ ("_" ++ unique_id)
get_run_id (some existing_run_id) timestamp unique_id =
    if is_blank existing_run_id then timestamp ++ ("_" ++ unique_id) else strip existing_run_id

-- `str(exc)`
exn_text : Exn → String
exn_text (extraction e) = if is_blank e.detail then e.reason else e.detail
exn_text (storage message) = message
exn_text os_error = "OSError"
exn_text out_of_fuel = ""

module _ {Store : Type 0} (env : Env Store) (run_id : String) (fuel : ℕ) where
  unhandled : String → Exn → Action Store Checkpoint
  unfolding exn_text load_checkpoint mark_state_failed
  unhandled state exc = do
    cp ← gets (load_checkpoint run_id state)
    mark_state_failed env run_id state cp "UNHANDLED_EXCEPTION" "STATE_EXTRACTION" (exn_text exc) 0
        none

  -- one future and the handler of its exception
  unfoldable pub state_result : String → Action Store Checkpoint
  unfolding extract_state unhandled
  state_result state = handle (extract_state env run_id state fuel) (unhandled state)

  unfoldable pub extract_states : List String → Action Store (List Checkpoint)
  unfolding state_result
  extract_states [] = pure []
  extract_states (state ∷ states) = do
    cp ← state_result state
    rest ← extract_states states
    pure (cp ∷ rest)
