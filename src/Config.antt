-- ===== src/Config.antt =====
-- config.py: the settings, read from the environment and validated. The environment after
-- `load_dotenv` is a dictionary of texts. A float is a type of its own, whose reading and comparison
-- are a parameter.
pub mod Valid
pub mod Backend
pub mod Written
use Prim.Native.String.{String, [], ◌++◌}
use udhyam_msme_extractor.Prelude.{
  Bool, false, not, ◌&&◌, ◌||◌, Option, none, some, ℕ, get_or, str_eq, if◌then◌else◌,
}
use udhyam_msme_extractor.Prelude.Int.{ℤ, pos, ltb_ℤ, leb_ℤ}
use udhyam_msme_extractor.Prelude.Text.{is_blank, strip, strip_slash, lower, upper, to_str}
use udhyam_msme_extractor.Prelude.Numerals.{parse_int}
use udhyam_msme_extractor.Dict.{Dict, lookup}
use udhyam_msme_extractor.Exec.{Exec, Result, ok, err, pure, raise, branch, ◌>>=◌, ◌>>◌}

-- `float(s)`, none for the ValueError; `<`; a float literal without a fraction; and how an f-string
-- writes a float
pub record Floats (F : Type 0) : Type 0 where
  pub parse : String → Option F
  pub less : F → F → Bool
  pub literal : ℕ → F
  pub show : F → String

-- The fields of `Settings`.
pub record Settings (F : Type 0) : Type 0 where
  pub api_key : Option String
  pub test_state : Option String
  pub max_workers : ℤ
  pub batch_size : ℤ
  pub max_retries : ℤ
  pub connect_timeout : ℤ
  pub max_request_time : ℤ
  pub compaction_max_rows : ℤ
  pub retry_backoff_base : F
  pub retry_backoff_max : F
  pub retry_jitter : F
  pub rate_limit_delay : F
  pub log_level : String
  pub storage_backend : String
  pub gcs_bucket : Option String
  pub gcs_prefix : String
  pub gcs_project : Option String
  pub s3_bucket : Option String
  pub s3_prefix : String
  pub s3_region : Option String
  pub s3_endpoint_url : Option String

-- A ValueError with its message; the state is the environment, which nothing here changes.
abbrev pub Read : Type 0 → Type 0
Read A = Exec (Dict String) String A

-- `if test: raise ValueError(message)`
unfoldable pub refuse_if : {A : Type 0} → Bool → String → Read A → Read A
refuse_if test message m = branch test (raise message) m

-- `os.getenv(name)`
abbrev pub getenv : String → Dict String → Option String
getenv = lookup

abbrev pub getenv_or : String → String → Dict String → String
getenv_or name default env = get_or (lookup name env) default

-- `os.getenv(name) or None`
abbrev pub unless_blank : Option String → Option String
unless_blank none = none
unless_blank (some s) = if is_blank s then none else some s

-- the value of `_get_int` from `int(raw)` on, with `minimum=1`
checked_int : String → Option ℤ → Result String ℤ
checked_int name none = err (name ++ " must be an integer")
checked_int name (some value) =
    if ltb_ℤ value (pos 1) then err (name ++ " must be >= 1") else ok value

raw_int : String → ℕ → Option String → Result String ℤ
unfolding checked_int parse_int strip
raw_int name default none = ok (pos default)
raw_int name default (some raw) =
    if is_blank (strip raw) then ok (pos default) else checked_int name (parse_int raw)

-- `_get_int`, which is called with the default minimum 1
unfoldable pub get_int : String → ℕ → Read ℤ
unfolding raw_int
get_int name default env = (raw_int name default (getenv name env), env)

-- `_get_test_state`
unfoldable pub get_test_state : Dict String → Option String
unfolding strip upper
get_test_state env =
    let value = strip (getenv_or "UDYAM_TEST_STATE" "ANDAMAN AND NICOBAR ISLANDS" env) in
    if is_blank value || str_eq (upper value) "ALL" then none else some value

-- the truth of an optional text
abbrev pub is_set : Option String → Bool
is_set none = false
is_set (some s) = not (is_blank s)

abbrev pub backend_known : String → Bool
backend_known b = str_eq b "local" || str_eq b "gcs" || str_eq b "s3"

abbrev pub level_known : String → Bool
level_known l =
    str_eq l "DEBUG"
    || str_eq l "INFO"
    || str_eq l "WARNING"
    || str_eq l "ERROR"
    || str_eq l "CRITICAL"

module _ {F : Type 0} (floats : Floats F) where
  -- the value of `_get_float` from `float(raw)` on, with `minimum=0.0`
  checked_float : String → Option F → Result String F
  checked_float name none = err (name ++ " must be a number")
  checked_float name (some value) =
      if floats.less value (floats.literal 0)
      then err (name ++ (" must be >= " ++ floats.show (floats.literal 0)))
      else ok value

  raw_float : String → ℕ → Option String → Result String F
  unfolding checked_float strip
  raw_float name default none = ok (floats.literal default)
  raw_float name default (some raw) =
      if is_blank (strip raw)
      then ok (floats.literal default)
      else checked_float name (floats.parse raw)

  -- `_get_float`, which is called with the default minimum 0.0
  unfoldable pub get_float : String → ℕ → Read F
  unfolding raw_float
  get_float name default env = (raw_float name default (getenv name env), env)

  -- the tests of `load_settings` on what it has read
  unfoldable pub validate : Settings F → Read (Settings F)
  validate settings = refuse_if (leb_ℤ settings.batch_size (pos 0)) "UDYAM_BATCH_SIZE must be > 0" (
      refuse_if (floats.less settings.retry_backoff_max settings.retry_backoff_base)
        "UDYAM_RETRY_BACKOFF_MAX must be >= UDYAM_RETRY_BACKOFF_BASE"
        (refuse_if (not (backend_known settings.storage_backend))
          "UDYAM_STORAGE_BACKEND must be local, gcs, or s3"
          (refuse_if (str_eq settings.storage_backend "gcs" && not (is_set settings.gcs_bucket))
            "UDYAM_GCS_BUCKET is required when UDYAM_STORAGE_BACKEND=gcs"
            (refuse_if (str_eq settings.storage_backend "s3" && not (is_set settings.s3_bucket))
              "UDYAM_S3_BUCKET is required when UDYAM_STORAGE_BACKEND=s3"
              (refuse_if (not (level_known settings.log_level))
                "UDYAM_LOG_LEVEL must be DEBUG, INFO, WARNING, ERROR, or CRITICAL"
                (pure settings))))))

  -- what `load_settings` reads, and the tests
  unfoldable pub read_settings : Dict String → Read (Settings F)
  unfolding get_int get_float get_test_state validate lower upper strip strip_slash
  read_settings env = do
    max_workers ← get_int "UDYAM_MAX_WORKERS" 3
    batch_size ← get_int "UDYAM_BATCH_SIZE" 10000
    max_retries ← get_int "UDYAM_MAX_RETRIES" 5
    connect_timeout ← get_int "UDYAM_CONNECT_TIMEOUT" 30
    max_request_time ← get_int "UDYAM_MAX_REQUEST_TIME" 300
    compaction_max_rows ← get_int "UDYAM_COMPACTION_MAX_ROWS" 100000
    retry_backoff_base ← get_float "UDYAM_RETRY_BACKOFF_BASE" 5
    retry_backoff_max ← get_float "UDYAM_RETRY_BACKOFF_MAX" 60
    retry_jitter ← get_float "UDYAM_RETRY_JITTER" 3
    rate_limit_delay ← get_float "UDYAM_RATE_LIMIT_DELAY" 30
    validate record {
      api_key = getenv "UDYAM_API_KEY" env;
      test_state = get_test_state env;
      max_workers = max_workers;
      batch_size = batch_size;
      max_retries = max_retries;
      connect_timeout = connect_timeout;
      max_request_time = max_request_time;
      compaction_max_rows = compaction_max_rows;
      retry_backoff_base = retry_backoff_base;
      retry_backoff_max = retry_backoff_max;
      retry_jitter = retry_jitter;
      rate_limit_delay = rate_limit_delay;
      log_level = upper (getenv_or "UDYAM_LOG_LEVEL" "INFO" env);
      storage_backend = lower (strip (getenv_or "UDYAM_STORAGE_BACKEND" "local" env));
      gcs_bucket = unless_blank (getenv "UDYAM_GCS_BUCKET" env);
      gcs_prefix = strip_slash (getenv_or "UDYAM_GCS_PREFIX" "udyam/raw" env);
      gcs_project = unless_blank (getenv "UDYAM_GCS_PROJECT" env);
      s3_bucket = unless_blank (getenv "UDYAM_S3_BUCKET" env);
      s3_prefix = strip_slash (getenv_or "UDYAM_S3_PREFIX" "udyam/raw" env);
      s3_region = unless_blank (getenv "UDYAM_S3_REGION" env);
      s3_endpoint_url = unless_blank (getenv "UDYAM_S3_ENDPOINT_URL" env);
    }

  unfoldable pub load_settings : Read (Settings F)
  unfolding read_settings
  load_settings env = read_settings env env
