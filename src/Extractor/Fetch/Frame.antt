-- ===== src/Extractor/Fetch/Frame.antt =====
-- Fetching a page changes neither the manifest nor a checkpoint.
use udhyam_msme_extractor.Prelude.{String, refl, Option, none, some, ℕ, zero, suc, ◌+◌, get_or, ltb}
use udhyam_msme_extractor.Extractor.Env.{Env, Action, Response, extraction, shutdown_requested}
use udhyam_msme_extractor.Extractor.Frame.{
  Frame, Frame-bind, Frame-branch, Frame-pure, Frame-raise, is_shutdown_requested-Frame,
}
use udhyam_msme_extractor.Extractor.Fetch.{
  Verdict, accept, again, reject, judge, check_shutdown, request, pause, settle, attempts,
  fetch_batch, retry_exhausted,
}

module _ {Store : Type 0} (env : Env Store) (state : String) (offset : ℕ) where
  check_shutdown-Frame : Frame (check_shutdown env state offset)
  unfolding check_shutdown
  check_shutdown-Frame =
      Frame-bind _ _ (is_shutdown_requested-Frame env)
        λ stop. Frame-branch stop _ _ (Frame-raise (extraction shutdown_requested)) (Frame-pure tt)

  pause-Frame : (reason : String) (attempt : ℕ) → Frame (pause env state offset reason attempt)
  unfolding pause
  pause-Frame reason attempt = record {
    manifest = λ w. check_shutdown-Frame.manifest _;
    checkpoints = λ w. check_shutdown-Frame.checkpoints _;
  }

  settle-Frame :
      (attempt : ℕ) (v : Verdict) (rest : Action Store Response)
      → Frame rest
      → Frame (settle env state offset attempt v rest)
  unfolding settle
  settle-Frame attempt (accept d) rest h = Frame-pure d
  settle-Frame attempt (reject e) rest h = Frame-raise (extraction e)
  settle-Frame attempt (again reason) rest h = Frame-bind _ _ check_shutdown-Frame λ _.
      Frame-bind _ _
        (Frame-branch (ltb attempt env.settings.max_retries) _ _ (pause-Frame reason attempt)
          (Frame-pure tt))
        λ _. h

  request-Frame : Frame (request env state offset)
  unfolding request
  request-Frame = record { manifest = λ w. refl; checkpoints = λ w. refl }

  attempts-Frame :
      (left attempt : ℕ) (http : Option ℕ) → Frame (attempts env state offset left attempt http)
  unfolding attempts
  attempts-Frame zero attempt http =
      Frame-raise (extraction (retry_exhausted env.settings state offset http))
  attempts-Frame (suc left) attempt http = Frame-bind _ _ check_shutdown-Frame λ _.
      Frame-bind _ _ request-Frame λ c.
        settle-Frame attempt (judge env.settings offset attempt c) _
          (attempts-Frame left (attempt + 1) (some (get_or c.http_code 0)))

  pub fetch_batch-Frame : Frame (fetch_batch env state offset)
  unfolding fetch_batch
  fetch_batch-Frame = attempts-Frame env.settings.max_retries 1 none
