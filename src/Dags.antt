-- ===== src/Dags.antt =====
-- dags/udyam_incremental_pipeline.py: the two Python tasks, and the chain of tasks as Airflow runs it.
-- The state of the tasks is the Airflow variable `udyam_incremental_active_run_id`; what the commands of
-- the other tasks do is not looked at here, only whether they succeed.
pub mod Active
use Prim.Native.String.{String, [], ◌∷◌, ◌++◌}
use udhyam_msme_extractor.Prelude.{
  ◌≡◌, ◌≢◌, Bool, not, Option, none, some, List, [], ◌∷◌, str_eq, if◌then◌else◌,
}
use udhyam_msme_extractor.Prelude.Text.{is_blank, take}
use udhyam_msme_extractor.Exec.{Exec, Result, ok, err, pure, raise, branch, modify, ◌>>=◌}

abbrev pub Variable : Type 0
Variable = Option String

-- `f"{timestamp}_{uuid4().hex[:8]}"`
unfoldable pub new_run_id : String → String → String
unfolding take
new_run_id timestamp hex = timestamp ++ ("_" ++ take 8 hex)

created : String → Exec Variable String String
created run_id variable = (ok run_id, some run_id)

-- from the value of the variable on
reused : String → Option String → Exec Variable String String
unfolding created
reused run_id none = created run_id
reused run_id (some active) = branch (not (is_blank active)) (pure active) (created run_id)

unfoldable pub get_or_create_run_id : String → String → Exec Variable String String
unfolding reused new_run_id
get_or_create_run_id timestamp hex variable = reused (new_run_id timestamp hex) variable variable

-- the ID that the first task returned; a missing one is none
known_run_id : Option String → Exec Variable String String
known_run_id none = raise "Could not retrieve the active Udyam run ID from XCom"
known_run_id (some run_id) =
    branch (is_blank run_id) (raise "Could not retrieve the active Udyam run ID from XCom")
      (pure run_id)

cleared : String → Option String → Exec Variable String (Unit {0})
cleared run_id none = pure tt
cleared run_id (some active_run_id) =
    branch (not (str_eq active_run_id run_id))
      (raise (
        "Refusing to clear a different active Udyam run ID: expected "
        ++ (run_id ++ (", found " ++ active_run_id))))
      (modify (λ _. none))

unfoldable pub clear_run_id_after_success : Option String → Exec Variable String (Unit {0})
unfolding known_run_id cleared
clear_run_id_after_success xcom =
    known_run_id xcom >>= λ run_id variable. cleared run_id variable variable

-- the tasks after the first, in their order
pub data Task : Type 0 where
  extract compact_batches load_to_snowflake dbt_run dbt_docs_generate clear_run_id : Task

-- One run of the DAG: the ID that its first task returned, and the task that is due.
pub record DagRun : Type 0 where
  pub run_id : String
  pub due : Task

-- The variable, the run that is active (max_active_runs is 1), and which tasks have succeeded so far,
-- with the ID that they worked on.
pub record Pipeline : Type 0 where
  pub variable : Variable
  pub active : Option DagRun
  pub succeeded : List (Task × String)

-- `task >> next`
abbrev pub after : Task → Task
after extract = compact_batches
after compact_batches = load_to_snowflake
after load_to_snowflake = dbt_run
after dbt_run = dbt_docs_generate
after dbt_docs_generate = clear_run_id
after clear_run_id = clear_run_id

-- What can happen, a retry of a task being the same step again: a run begins, or dies in its first task
-- after that has written; a command succeeds; a task fails, and with it the run; the last task succeeds.
pub data Step : Pipeline → Pipeline → Type 0 where
  begins :
      (v v' : Variable) (l : List (Task × String)) (timestamp hex id : String)
      → get_or_create_run_id timestamp hex v ≡ (ok id, v')
      → Step
          (record { variable = v; active = none; succeeded = l })
          (record {
            variable = v';
            active = some record { run_id = id; due = extract };
            succeeded = l;
          })
  dies :
      (v : Variable) (l : List (Task × String)) (timestamp hex : String)
      → Step
          (record { variable = v; active = none; succeeded = l })
          (record {
            variable = (get_or_create_run_id timestamp hex v).1;
            active = none;
            succeeded = l;
          })
  succeeds :
      (v : Variable) (l : List (Task × String)) (id : String) (task : Task)
      → task ≢ clear_run_id
      → Step
          (record { variable = v; active = some record { run_id = id; due = task }; succeeded = l })
          (record {
            variable = v;
            active = some record { run_id = id; due = after task };
            succeeded = (task, id) ∷ l;
          })
  fails :
      (v : Variable) (l : List (Task × String)) (run : DagRun)
      → Step
          (record { variable = v; active = some run; succeeded = l })
          (record { variable = v; active = none; succeeded = l })
  finishes :
      (v : Variable) (l : List (Task × String)) (id : String)
      → Step
          (record {
            variable = v;
            active = some record { run_id = id; due = clear_run_id };
            succeeded = l;
          })
          (record {
            variable = (clear_run_id_after_success (some id) v).1;
            active = none;
            succeeded = l;
          })

pub data Reach : Pipeline → Type 0 where
  start : Reach record { variable = none; active = none; succeeded = [] }
  next : {p p' : Pipeline} → Reach p → Step p p' → Reach p'
