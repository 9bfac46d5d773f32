-- ===== src/Run.antt =====
-- run_udyam.py: one run over the requested states, its reconciliation and its summary.
pub mod Reconcile
use udhyam_msme_extractor.Prelude.{
  String, Bool, true, false, not, ◌&&◌, Option, none, some, List, [], ◌∷◌, ℕ, ◌==◌, ltb, length,
  any, all, keep, sum_by, get_or, is_some, is_empty, str_eq, map, if◌then◌else◌,
}
use udhyam_msme_extractor.Prelude.Text.{is_blank}
use udhyam_msme_extractor.Records.{Body, text}
use udhyam_msme_extractor.Exec.{Result, ok, err, pure, raise, branch, modify, ◌>>=◌, ◌>>◌}
use udhyam_msme_extractor.Storage
use udhyam_msme_extractor.Storage.Disk.{write_node}
use udhyam_msme_extractor.Extractor.Env.{
  Env, World, Action, Exn, storage, os_error, out_of_fuel, Checkpoint, Status, completed, failed,
  durable, on_shelf,
}
use udhyam_msme_extractor.Extractor.State.{extract_state}
use udhyam_msme_extractor.Extractor.States.{extract_states}
use Prim.Native.String.{◌++◌}

abbrev pub states : List String
states =
    "ANDAMAN AND NICOBAR ISLANDS" ∷ "ANDHRA PRADESH" ∷ "ARUNACHAL PRADESH" ∷ "ASSAM" ∷ "BIHAR"
    ∷ "CHANDIGARH" ∷ "CHHATTISGARH" ∷ "THE DADRA AND NAGAR HAVELI AND DAMAN AND DIU" ∷ "DELHI"
    ∷ "GOA" ∷ "GUJARAT" ∷ "HARYANA" ∷ "HIMACHAL PRADESH" ∷ "JAMMU AND KASHMIR" ∷ "JHARKHAND"
    ∷ "KARNATAKA" ∷ "KERALA" ∷ "LADAKH" ∷ "LAKSHADWEEP" ∷ "MADHYA PRADESH" ∷ "MAHARASHTRA"
    ∷ "MANIPUR" ∷ "MEGHALAYA" ∷ "MIZORAM" ∷ "NAGALAND" ∷ "ODISHA" ∷ "PUDUCHERRY" ∷ "PUNJAB"
    ∷ "RAJASTHAN" ∷ "SIKKIM" ∷ "TAMIL NADU" ∷ "TELANGANA" ∷ "TRIPURA" ∷ "UTTAR PRADESH"
    ∷ "UTTARAKHAND" ∷ "WEST BENGAL" ∷ []

abbrev pub has_status : Status → Checkpoint → Bool
has_status completed cp = elim cp.status [ Status.completed ↦ true | _ ↦ false ]
has_status failed cp = elim cp.status [ Status.failed ↦ true | _ ↦ false ]
has_status Status.in_progress cp = elim cp.status [ Status.in_progress ↦ true | _ ↦ false ]
has_status Status.not_started cp = elim cp.status [ Status.not_started ↦ true | _ ↦ false ]

abbrev pub total_or_zero : Checkpoint → ℕ
total_or_zero r = get_or r.total_records 0

abbrev pub written : Checkpoint → ℕ
written r = r.records_written

unfoldable pub reconcile_run : List Checkpoint → Bool
reconcile_run results =
    if is_empty results
    then false
    else if any (λ r. not (has_status completed r)) results
    then false
    else if any (λ r. not (is_some r.total_records)) results
    then false
    else not (ltb (sum_by written results) (sum_by total_or_zero results))

-- The fields of a failed state that the summary repeats, but for the time of day.
pub record Failure : Type 0 where
  pub state : String
  pub failure_reason : Option String
  pub failure_stage : Option String
  pub failure_detail : String
  pub retry_count : ℕ
  pub http_status : Option ℕ

pub record RunSummary : Type 0 where
  pub run_id : String
  pub requested_states : ℕ
  pub completed_states : ℕ
  pub failed_states : ℕ
  pub expected_records : ℕ
  pub actual_records : ℕ
  pub reconciliation_status : String
  pub run_status : String
  pub failures : List Failure

unfoldable pub failure_of : Checkpoint → Failure
failure_of r = record {
  state = r.state;
  failure_reason = r.failure_reason;
  failure_stage = r.failure_stage;
  failure_detail = r.failure_detail;
  retry_count = r.retry_count;
  http_status = r.http_status;
}

unfoldable pub build_run_summary :
    String → List String → List Checkpoint → ℕ → ℕ → String → String → RunSummary
unfolding failure_of
build_run_summary run_id states results expected actual reconciliation_status run_status = record {
  run_id = run_id;
  requested_states = length states;
  completed_states = length (keep (has_status completed) results);
  failed_states = length (keep (has_status failed) results);
  expected_records = expected;
  actual_records = actual;
  reconciliation_status = reconciliation_status;
  run_status = run_status;
  failures = map failure_of (keep (has_status failed) results);
}

-- What `main` makes of the results: the run's status and its summary.
unfoldable pub summarize : String → List String → List Checkpoint → Bool × RunSummary
unfolding reconcile_run build_run_summary
summarize run_id states results =
    let run_reconciled = reconcile_run results in
    let succeeded = run_reconciled && length (keep (has_status failed) results) == 0 in
    (
      succeeded,
      build_run_summary run_id states results (sum_by total_or_zero results)
          (sum_by written results) (if run_reconciled then "PASSED" else "FAILED")
          (if succeeded then "COMPLETED" else "FAILED"),
    )

-- `settings.test_state` or all states
unfoldable pub requested : Option String → List String
requested none = states
requested (some state) = if is_blank state then states else state ∷ []

contains : String → List String → Bool
contains s [] = false
contains s (x ∷ xs) = if str_eq x s then true else contains s xs

-- `[state for state in states if state not in STATES]`
unfoldable pub invalid : List String → List String
unfolding contains
invalid = keep (λ state. not (contains state states))

module _ {Store : Type 0} (env : Env Store) (run_id : String) (fuel : ℕ)
    (encode : RunSummary → String) where
  raised_summary : Result String (Unit {0}) → Action Store (Unit {0})
  raised_summary (ok _) = pure tt
  raised_summary (err e) = raise (storage e)

  unfoldable pub write_run_summary : RunSummary → Action Store (Unit {0})
  unfolding raised_summary
  write_run_summary summary = do
    let path = "output/" ++ (run_id ++ "/run_summary.json")
    durable env
    modify (λ w. record w { shelf = write_node path (text (encode summary)) w.shelf })
    r ← on_shelf (Storage.sync_metadata env.client env.sha256 env.backend run_id path)
    raised_summary r

  -- a single state runs in the main thread, with no handler for what it raises
  run_states : List String → Action Store (List Checkpoint)
  unfolding extract_states extract_state
  run_states [] = extract_states env run_id fuel []
  run_states (state ∷ []) = do cp ← extract_state env run_id state fuel; pure (cp ∷ [])
  run_states (state ∷ more) = extract_states env run_id fuel (state ∷ more)

  -- `except OSError`
  saved : Bool → Result Exn (Unit {0}) → Action Store Bool
  saved succeeded (ok _) = pure succeeded
  saved succeeded (err os_error) = pure false
  saved succeeded (err e) = raise e

  finish_run : List String → List Checkpoint → Action Store Bool
  unfolding summarize write_run_summary saved
  finish_run states results w =
      let (succeeded, summary) = summarize run_id states results in
      let (r, w') = write_run_summary summary w in saved succeeded r w'

  -- `main` from the validated settings on: the key that is set, and the state to test with
  unfoldable pub main : Bool → Option String → Action Store Bool
  unfolding requested invalid run_states finish_run
  main has_key test_state = branch (not has_key) (pure false) (
      branch (not (is_empty (invalid (requested test_state)))) (pure false)
        (do results ← run_states (requested test_state); finish_run (requested test_state) results))
