-- ===== src/Extractor/Fetch.antt =====
-- `fetch_batch` of udyam_extractor.py: at most `max_retries` runs of curl for one page.
pub mod Frame
pub mod Pages
pub mod Delay
use Prim.Native.String.{◌++◌}
use udhyam_msme_extractor.Prelude.{
  String, Bool, not, ◌&&◌, ◌||◌, Option, none, some, List, [], ◌∷◌, ℕ, zero, suc, ◌+◌, ◌-◌, ◌*◌,
  ◌^◌, min, max, ◌==◌, ltb, leb, get_or, length, str_eq, if◌then◌else◌,
}
use udhyam_msme_extractor.Prelude.Text.{to_str, is_blank}
use udhyam_msme_extractor.Exec.{ok, pure, raise, branch, ◌>>=◌, ◌>>◌}
use udhyam_msme_extractor.Extractor.Manifest.{has}
use udhyam_msme_extractor.Extractor.Env.{
  Env, Action, Settings, Row, Response, Curl, ExtractionError, shutdown_requested, extraction,
  is_shutdown_requested, advance,
}

-- `RETRYABLE_HTTP_STATUS_CODES`
unfoldable pub is_retryable : ℕ → Bool
is_retryable code = code == 429 || code == 500 || code == 502 || code == 503 || code == 504

abbrev pub records_of : Response → List Row
records_of d = get_or d.records []

abbrev pub total_of : Response → ℕ
total_of d = get_or d.total 0

-- What one run of curl leads to: the page is returned, the request is repeated, or it fails at once.
pub data Verdict : Type 0 where
  accept : Response → Verdict
  again : String → Verdict
  reject : ExtractionError → Verdict

module _ (settings : Settings) (offset : ℕ) where
  judge_page : Response → Verdict
  judge_page d =
      if has d.status "ok"
      then if ltb (length (records_of d)) settings.batch_size
          && ltb (offset + length (records_of d)) (total_of d)
        then again "SHORT_PAGE"
        else accept d
      else again "API_RESPONSE_ERROR"

  judge_body : Option Response → Verdict
  unfolding judge_page
  judge_body none = again "INVALID_API_RESPONSE"
  judge_body (some d) = judge_page d

  http_client_error : String → ℕ → ℕ → ExtractionError
  http_client_error stderr http_status attempt = record {
    reason = "HTTP_CLIENT_ERROR";
    stage = "API_FETCH";
    detail = if is_blank stderr then "HTTP " ++ to_str http_status else stderr;
    retry_count = attempt - 1;
    http_status = some http_status;
  }

  unfoldable pub judge : ℕ → Curl → Verdict
  unfolding judge_body http_client_error is_retryable
  judge attempt c =
      let http_status = get_or c.http_code 0 in
      if not (c.returncode == 0)
      then again (if c.returncode == 28 then "TIMEOUT" else "CURL_REQUEST_FAILED")
      else if is_retryable http_status
      then again (if http_status == 429 then "RATE_LIMITED" else "HTTP_5XX")
      else if leb 400 http_status
      then reject (http_client_error c.stderr http_status attempt)
      else judge_body c.body

unfoldable pub retry_delay : Settings → String → ℕ → ℕ → ℕ
retry_delay settings failure_reason attempt jitter =
    let delay =
      min settings.retry_backoff_max (settings.retry_backoff_base * 2 ^ (attempt - 1)) + jitter in
    if str_eq failure_reason "RATE_LIMITED" then max delay settings.rate_limit_delay else delay

unfoldable pub retry_exhausted : Settings → String → ℕ → Option ℕ → ExtractionError
retry_exhausted settings state offset http_status = record {
  reason = "RETRY_EXHAUSTED";
  stage = "API_FETCH";
  detail = "Failed to fetch state=" ++ (state ++ (", offset=" ++ to_str offset));
  retry_count = settings.max_retries;
  http_status = http_status;
}

module _ {Store : Type 0} (env : Env Store) (state : String) (offset : ℕ) where
  stop_if : Bool → Action Store (Unit {0})
  stop_if stop = branch stop (raise (extraction shutdown_requested)) (pure tt)

  unfoldable pub check_shutdown : Action Store (Unit {0})
  unfolding stop_if is_shutdown_requested
  check_shutdown = do stop ← is_shutdown_requested env; stop_if stop

  unfoldable pub request : Action Store Curl
  request w = (ok (env.curl state offset w.tick), record (advance w) { calls = w.calls + 1 })

  -- the sleep between two attempts, which a shutdown interrupts
  unfoldable pub pause : String → ℕ → Action Store (Unit {0})
  unfolding check_shutdown
  pause failure_reason attempt w =
      let delay = retry_delay env.settings failure_reason attempt (env.jitter w.tick) in
      check_shutdown (record w { waits = delay ∷ w.waits })

  -- what follows a run of curl; the last argument is the rest of the loop
  unfoldable pub settle : ℕ → Verdict → Action Store Response → Action Store Response
  unfolding check_shutdown pause
  settle attempt (accept d) rest = pure d
  settle attempt (reject e) rest = raise (extraction e)
  settle attempt (again failure_reason) rest = do
    check_shutdown
    branch (ltb attempt env.settings.max_retries) (pause failure_reason attempt) (pure tt)
    rest

  -- the loop, by the attempts left, with the number of the next one and the last status code
  unfoldable pub attempts : ℕ → ℕ → Option ℕ → Action Store Response
  unfolding check_shutdown request settle judge retry_exhausted
  attempts zero attempt http_status =
      raise (extraction (retry_exhausted env.settings state offset http_status))
  attempts (suc left) attempt http_status = do
    check_shutdown
    c ← request
    settle attempt (judge env.settings offset attempt c)
        (attempts left (attempt + 1) (some (get_or c.http_code 0)))

  unfoldable pub fetch_batch : Action Store Response
  unfolding attempts
  fetch_batch = attempts env.settings.max_retries 1 none
