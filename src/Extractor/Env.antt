-- ===== src/Extractor/Env.antt =====
-- What udyam_extractor.py works with: its settings, its exceptions, the run's durable state, and the
-- world outside (the API, the signals, the disk), which is a parameter read by a running count.
use udhyam_msme_extractor.Prelude.{String, Bool, Option, none, List, ℕ, ◌+◌, if◌then◌else◌}
use udhyam_msme_extractor.Records.{BatchRecord, Body}
use udhyam_msme_extractor.Dict.{Dict}
use udhyam_msme_extractor.Exec.{Exec, Result, ok, err}
use udhyam_msme_extractor.Storage.{Backend}
use udhyam_msme_extractor.Storage.Disk.{Shelf, Client}

-- The settings of config.py that extraction reads; times are in one small unit, so that they are
-- natural numbers.
pub record Settings : Type 0 where
  pub batch_size : ℕ
  pub max_retries : ℕ
  pub retry_backoff_base : ℕ
  pub retry_backoff_max : ℕ
  pub rate_limit_delay : ℕ

-- A record of the API: its fields by name.
abbrev pub Row : Type 0
Row = Dict String

-- A decoded body: `data.get("status")`, `data.get("records")`, `data.get("total")`.
pub record Response : Type 0 where
  pub status : Option String
  pub records : Option (List Row)
  pub total : Option ℕ

-- One run of curl: its exit code, its stripped error output, the status code it printed (`none` where that is no number) and
-- the body (`none` where it cannot be read or decoded).
pub record Curl : Type 0 where
  pub returncode : ℕ
  pub stderr : String
  pub http_code : Option ℕ
  pub body : Option Response

pub record ExtractionError : Type 0 where
  pub reason : String
  pub stage : String
  pub detail : String
  pub retry_count : ℕ
  pub http_status : Option ℕ

abbrev pub shutdown_requested : ExtractionError
shutdown_requested = record {
  reason = "SHUTDOWN_REQUESTED";
  stage = "SHUTDOWN";
  detail = "Process shutdown requested";
  retry_count = 0;
  http_status = none;
}

-- `os_error` is a write that fails, or the death of the process before it.
pub data Exn : Type 0 where
  extraction : ExtractionError → Exn
  storage : String → Exn
  os_error : Exn
  out_of_fuel : Exn

pub data Status : Type 0 where
  not_started in_progress completed failed : Status

-- The contents of a checkpoint file, without its times of day.
pub record Checkpoint : Type 0 where
  pub run_id : String
  pub state : String
  pub total_records : Option ℕ
  pub records_written : ℕ
  pub last_completed_offset : ℕ
  pub status : Status
  pub failure_reason : Option String
  pub failure_stage : Option String
  pub failure_detail : String
  pub retry_count : ℕ
  pub http_status : Option ℕ

-- The durable state of one run: the lines of its manifest (`none` for one that cannot be decoded),
-- the checkpoints by state (absent where the file is missing or cannot be decoded), the files and
-- objects; and what was asked of the outside: curl runs and waits.
pub record World (Store : Type 0) : Type 0 where
  pub tick : ℕ
  pub calls : ℕ
  pub waits : List ℕ
  pub manifest : List (Option BatchRecord)
  pub checkpoints : Dict Checkpoint
  pub shelf : Shelf Store

pub record Env (Store : Type 0) : Type 0 where
  pub settings : Settings
  pub backend : Backend
  pub client : Client Store
  pub sha256 : Body → String
  -- what curl answers for a state and an offset
  pub curl : String → ℕ → ℕ → Curl
  -- whether SHUTDOWN_EVENT is set
  pub shutdown : ℕ → Bool
  -- whether a write to the disk succeeds
  pub disk : ℕ → Bool
  -- `random.uniform(0, RETRY_JITTER)`
  pub jitter : ℕ → ℕ

abbrev pub Action : Type 0 → Type 0 → Type 0
Action Store A = Exec (World Store) Exn A

module _ {Store : Type 0} where
  abbrev pub advance : World Store → World Store
  advance w = record w { tick = w.tick + 1 }

  -- A method of STORAGE; its StorageError comes back as a value.
  abbrev pub on_shelf : {A : Type 0} → Exec (Shelf Store) String A → Action Store (Result String A)
  on_shelf m w = let (r, shelf) = m w.shelf in (ok r, record w { shelf = shelf })

  module _ (env : Env Store) where
    -- `is_shutdown_requested()`
    unfoldable pub is_shutdown_requested : Action Store Bool
    is_shutdown_requested w = (ok (env.shutdown w.tick), advance w)

    -- in front of each write to the disk
    unfoldable pub durable : Action Store (Unit {0})
    durable w = (if env.disk w.tick then ok tt else err os_error, advance w)
