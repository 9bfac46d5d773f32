-- ===== src/Loader/Main.antt =====
-- The settings of the loader, its connection, and `main`: what is committed or rolled back, and
-- the exit status.
pub mod Works
pub mod Exits
use udhyam_msme_extractor.Prelude.{
  String, Bool, true, false, not, ◌&&◌, Option, none, some, List, [], ◌∷◌, ◌++◌, map, keep, ℕ,
  get_or, is_empty, is_some, str_eq,
}
use udhyam_msme_extractor.Dict.{Dict, lookup}
use udhyam_msme_extractor.Config.{unless_blank, getenv_or}
use udhyam_msme_extractor.Records.{ManifestRecord}
use udhyam_msme_extractor.Exec.{Exec, Result, ok, err, raise, lift, branch, ◌>>=◌, ◌>>◌}
use udhyam_msme_extractor.Loader.Warehouse.{Warehouse, LoaderError}
use udhyam_msme_extractor.Loader.Process.{process_run}

-- The fields of `Settings`.
pub record Settings : Type 0 where
  pub account : String
  pub user : String
  pub authenticator : String
  pub password : Option String
  pub role : String
  pub warehouse : String
  pub database : String
  pub schema : String
  pub stage : String
  pub raw_table : String
  pub ingestion_batch_table : String
  pub run_id : Option String

-- What ends the work of `main`: a KeyboardInterrupt, or an exception.
pub data Fault : Type 0 where
  interrupted : Fault
  missing_configuration : List String → Fault
  password_required : Fault
  loader_error : LoaderError → Fault
  connector_error : String → Fault

-- `required`
unfoldable pub required : Dict String → List (String × Option String)
required env =
    ("SNOWFLAKE_ACCOUNT", lookup "SNOWFLAKE_ACCOUNT" env)
    ∷ ("SNOWFLAKE_USER", lookup "SNOWFLAKE_USER" env)
    ∷ ("SNOWFLAKE_AUTHENTICATOR", some (getenv_or "SNOWFLAKE_AUTHENTICATOR" "externalbrowser" env))
    ∷ ("SNOWFLAKE_ROLE", lookup "SNOWFLAKE_ROLE" env)
    ∷ ("SNOWFLAKE_WAREHOUSE", lookup "SNOWFLAKE_WAREHOUSE" env)
    ∷ ("SNOWFLAKE_DATABASE", lookup "SNOWFLAKE_DATABASE" env)
    ∷ ("SNOWFLAKE_SCHEMA", lookup "SNOWFLAKE_SCHEMA" env)
    ∷ ("SNOWFLAKE_STAGE", lookup "SNOWFLAKE_STAGE" env)
    ∷ []

-- the names whose value is missing or empty
unfoldable pub missing : List (String × Option String) → List String
missing = λ values. map (λ p. p.0) (keep (λ p. not (is_some (unless_blank p.1))) values)

unfoldable pub settings_of : Dict String → Settings
settings_of env = record {
  account = getenv_or "SNOWFLAKE_ACCOUNT" "" env;
  user = getenv_or "SNOWFLAKE_USER" "" env;
  authenticator = getenv_or "SNOWFLAKE_AUTHENTICATOR" "externalbrowser" env;
  password = unless_blank (lookup "SNOWFLAKE_PASSWORD" env);
  role = getenv_or "SNOWFLAKE_ROLE" "" env;
  warehouse = getenv_or "SNOWFLAKE_WAREHOUSE" "" env;
  database = getenv_or "SNOWFLAKE_DATABASE" "" env;
  schema = getenv_or "SNOWFLAKE_SCHEMA" "" env;
  stage = getenv_or "SNOWFLAKE_STAGE" "" env;
  raw_table = getenv_or "SNOWFLAKE_RAW_TABLE" "MSME" env;
  ingestion_batch_table = getenv_or "SNOWFLAKE_INGESTION_BATCH_TABLE" "INGESTION_BATCH" env;
  run_id = lookup "UDYAM_RUN_ID" env;
}

unfoldable pub from_environment : Dict String → Result Fault Settings
unfolding required missing settings_of
from_environment env = elim (missing (required env)) [
  | [] ↦ ok (settings_of env)
  | n ∷ ns ↦ err (missing_configuration (n ∷ ns))
]

-- What `main` asks of the connection.
pub data Call : Type 0 where
  connected committed rolled_back closed : Call

-- The tables, and the calls so far.
pub record World (Db : Type 0) : Type 0 where
  pub db : Db
  pub calls : List Call

-- The connector, behind its calls. `stage` is what is read of the stage, and `interrupt` what the
-- tables are if a KeyboardInterrupt arrives while `process_run` runs. The last rollback and the close
-- raise exceptions only, by their messages.
pub record Connector (Db : Type 0) : Type 0 where
  pub warehouse : Warehouse Db
  pub stage : String → List ManifestRecord
  pub connect : Settings → Exec Db Fault (Unit {0})
  pub cursor : Exec Db Fault (Unit {0})
  pub interrupt : Db → Option Db
  pub close_cursor : Exec Db Fault (Unit {0})
  pub commit : Exec Db Fault (Unit {0})
  pub rollback : Exec Db String (Unit {0})
  pub close : Exec Db String (Unit {0})

module _ {Db : Type 0} where
  -- code that uses the tables only
  unfoldable pub on_db : {A : Type 0} → Exec Db Fault A → Exec (World Db) Fault A
  on_db m w = let (r, db') = m w.db in (r, record w { db = db' })

  unfoldable pub called : Call → Exec Db Fault (Unit {0}) → Exec (World Db) Fault (Unit {0})
  unfolding on_db
  called c m w = on_db m (record w { calls = w.calls ++ (c ∷ []) })

module _ {Db : Type 0} (connector : Connector Db) where
  -- `create_connection`
  unfoldable pub create_connection : Settings → Exec (World Db) Fault (Unit {0})
  unfolding on_db
  create_connection s =
      branch (str_eq s.authenticator "snowflake" && not (is_some s.password))
        (raise password_required) (on_db (connector.connect s))

  run_to_end : Settings → Exec Db Fault (Unit {0})
  run_to_end s db =
      let (r, db') = process_run connector.warehouse s.run_id connector.stage db in
      elim r [ ok n ↦ (ok tt, db') | err e ↦ (err (loader_error e), db') ]

  unfoldable pub run : Settings → Exec Db Fault (Unit {0})
  unfolding run_to_end
  run s db = elim (connector.interrupt db) [
    | none ↦ run_to_end s db
    | some db' ↦ (err interrupted, db')
  ]

  -- `finally: cursor.close()`; what it raises takes the place of an earlier exception
  unfoldable pub closing_cursor :
      Exec (World Db) Fault (Unit {0}) → Exec (World Db) Fault (Unit {0})
  unfolding on_db
  closing_cursor m w = let (r, w') = m w in (on_db connector.close_cursor >> lift r) w'

  -- the work between the connection and its end
  unfoldable pub work : Settings → Exec (World Db) Fault (Unit {0})
  unfolding run on_db called closing_cursor
  work s =
      on_db connector.cursor >> closing_cursor (on_db (run s) >> called committed connector.commit)

  -- `try: call except Exception: log`
  unfoldable pub quietly : Call → Exec Db String (Unit {0}) → World Db → World Db
  quietly c m w = record { db = (m w.db).1; calls = w.calls ++ (c ∷ []) }

  unfoldable pub exit_status : Fault → ℕ
  exit_status interrupted = 130
  exit_status _ = 1

  -- `main` from the connection on
  unfoldable pub serve : Settings → World Db → ℕ × World Db
  unfolding work quietly exit_status
  serve s w =
      let (r, w') = work s w in
      elim r [
        | ok _ ↦ (0, quietly closed connector.close w')
        | err e ↦ (
          exit_status e,
          quietly closed connector.close (quietly rolled_back connector.rollback w'),
        )
      ]

  unfoldable pub start : Dict String → Exec (World Db) Fault Settings
  unfolding from_environment create_connection
  start env = lift (from_environment env) >>= λ s.
      create_connection s >>= λ _. (λ w. (ok s, record w { calls = w.calls ++ (connected ∷ []) }))

  -- the exit status and what is left
  unfoldable pub main : Dict String → World Db → ℕ × World Db
  unfolding start serve exit_status
  main env w =
      let (r, w') = start env w in elim r [ ok s ↦ serve s w' | err e ↦ (exit_status e, w') ]
