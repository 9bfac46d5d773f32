-- ===== src/Extractor/Fetch/Pages.antt =====
-- What `fetch_batch` answers: full pages, the three kinds of failure, and how often curl is run.
use udhyam_msme_extractor.Prelude.{
  String, ◌≡◌, refl, true, false, Option, none, some, ◌⊎◌, inl, inr, ℕ, zero, suc, ◌+◌, ◌≤◌, ◌<◌,
  arith, get_or, ltb, length, subst,
}
use udhyam_msme_extractor.Exec.{pure, branch}
use udhyam_msme_extractor.Exec.Triple.{
  Triple, Post, Triple-pure, Triple-raise, Triple-post, Triple-branch, Triple-bind, Triple-weaken,
}
use udhyam_msme_extractor.Extractor.Env.{
  Env, World, Action, Settings, Response, Curl, ExtractionError, Exn, extraction, storage, os_error,
  out_of_fuel, shutdown_requested, is_shutdown_requested,
}
use udhyam_msme_extractor.Extractor.Manifest.{has}
use udhyam_msme_extractor.Extractor.Fetch.{
  Verdict, accept, again, reject, judge, is_retryable, records_of, total_of, check_shutdown,
  request, pause, settle, attempts, fetch_batch, retry_exhausted, stop_if,
}

-- Nothing is missing from a page: it has `batch_size` records, or it reaches the API's total.
abbrev pub IsFull : Settings → ℕ → Response → Type 0
IsFull settings offset d =
    (settings.batch_size ≤ length (records_of d)) ⊎ (total_of d ≤ offset + length (records_of d))

-- A page that is accepted is the decoded body of a run of curl that succeeded, with no status code of
-- an error.
abbrev pub IsPage : Settings → ℕ → Curl → Response → Type 0
IsPage settings offset c d =
    (c.returncode ≡ 0)
    × (is_retryable (get_or c.http_code 0) ≡ false)
    × (get_or c.http_code 0 < 400)
    × (c.body ≡ some d)
    × (has d.status "ok" ≡ true)
    × IsFull settings offset d

-- A status code that is not tried again.
abbrev pub IsRejection : Curl → ExtractionError → Type 0
IsRejection c e =
    (c.returncode ≡ 0)
    × (is_retryable (get_or c.http_code 0) ≡ false)
    × (400 ≤ get_or c.http_code 0)
    × (e.reason ≡ "HTTP_CLIENT_ERROR")
    × (e.http_status ≡ some (get_or c.http_code 0))

module _ (settings : Settings) (offset attempt : ℕ) (c : Curl) where
  judge-accept :
      (d : Response) → judge settings offset attempt c ≡ accept d → IsPage settings offset c d
  unfolding judge
  judge-accept d h = ground arith

  judge-reject :
      (e : ExtractionError) → judge settings offset attempt c ≡ reject e → IsRejection c e
  unfolding judge
  judge-reject e h = ground arith

module _ {Store : Type 0} (env : Env Store) (state : String) (offset since : ℕ) where
  -- a tick of the clock between the call and the world `w`
  abbrev pub During : ℕ → World Store → Type 0
  During t w = (since ≤ t) × (t < w.tick)

  -- The page comes from one of the runs of curl since the call, of which there are at most `n`.
  abbrev pub Served : ℕ → ℕ → Response → World Store → Type 0
  Served calls n d w =
      (t : ℕ) × During t w
      × IsPage env.settings offset (env.curl state offset t) d
      × (w.calls ≤ calls + n)

  -- Why no page came: a shutdown, a status code that is not tried again, or `n` runs in vain.
  abbrev pub Failed : ℕ → ℕ → Exn → World Store → Type 0
  Failed calls n (extraction e) w =
      ((e ≡ shutdown_requested) × (w.calls ≤ calls + n))
      ⊎ ((t : ℕ) × During t w × IsRejection (env.curl state offset t) e × (w.calls ≤ calls + n))
      ⊎ ((http : Option ℕ) × (e ≡ retry_exhausted env.settings state offset http)
          × (w.calls ≡ calls + n))
  Failed calls n _ w = ⊥

  abbrev At : ℕ → World Store → Type 0
  At calls w = (w.calls ≡ calls) × (since ≤ w.tick)

  -- after the run of curl at the tick `t`
  abbrev AtRun : ℕ → ℕ → World Store → Type 0
  AtRun t calls w = At calls w × During t w

  check_shutdown-At :
      (calls n : ℕ)
      → Triple (At calls) (check_shutdown env state offset) (λ _. At calls) (Failed calls n)
  unfolding check_shutdown
  check_shutdown-At calls n =
      Triple-bind (λ _. At calls) (is_shutdown_requested env) (stop_if env state offset)
        (record { at = λ w h. (h.0, omega (arith, h.1)) })
        (λ stop.
          Triple-branch stop _ _
            (λ _.
              Triple-raise (extraction shutdown_requested) (λ w h. inl (refl, omega (arith, h))))
            (λ _. Triple-pure tt (λ w h. h)))

  pause-At :
      (reason : String) (attempt calls n : ℕ)
      → Triple (At calls) (pause env state offset reason attempt) (λ _. At calls) (Failed calls n)
  unfolding pause
  pause-At reason attempt calls n = record { at = λ w h. (check_shutdown-At calls n).at _ h }

  -- the rest of the loop starts after one more run
  settle-At :
      (attempt calls n t : ℕ) (v : Verdict) (rest : Action Store Response)
      → judge env.settings offset attempt (env.curl state offset t) ≡ v
      → Triple (At (calls + 1)) rest (Served (calls + 1) n) (Failed (calls + 1) n)
      → Triple
          (AtRun t (calls + 1))
          (settle env state offset attempt v rest)
          (Served (calls + 1) n)
          (Failed (calls + 1) n)
  unfolding settle
  settle-At attempt calls n t (accept d) rest e h =
      Triple-pure d
        (λ w k. (t, k.1, judge-accept env.settings offset attempt _ d e, omega (arith, k)))
  settle-At attempt calls n t (reject x) rest e h =
      Triple-raise (extraction x) (λ w k.
        inr (inl (t, k.1, judge-reject env.settings offset attempt _ x e, omega (arith, k))))
  settle-At attempt calls n t (again reason) rest e h =
      Triple-weaken _
        (Triple-bind (λ _. At (calls + 1)) (check_shutdown env state offset) _
          (check_shutdown-At (calls + 1) n)
          (λ _.
            Triple-bind (λ _. At (calls + 1))
              (branch (ltb attempt env.settings.max_retries) (pause env state offset reason attempt)
                (pure tt))
              _
              (Triple-branch (ltb attempt env.settings.max_retries) _ _
                (λ _. pause-At reason attempt (calls + 1) n) (λ _. Triple-pure tt (λ w k. k)))
              (λ _. h)))
        (λ w k. k.0)

  Served-suc :
      (calls n : ℕ) (d : Response) (w : World Store)
      → Served (calls + 1) n d w
      → Served calls (suc n) d w
  Served-suc calls n d w (t, when, page, bound) = (t, when, page, omega (arith, bound))

  Failed-suc :
      (calls n : ℕ) (e : Exn) (w : World Store)
      → Failed (calls + 1) n e w
      → Failed calls (suc n) e w
  Failed-suc calls n (extraction e) w (inl (x, bound)) = inl (x, omega (arith, bound))
  Failed-suc calls n (extraction e) w (inr (inl (t, when, x, bound))) =
      inr (inl (t, when, x, omega (arith, bound)))
  Failed-suc calls n (extraction e) w (inr (inr (http, x, bound))) =
      inr (inr (http, x, omega (arith, bound)))
  Failed-suc calls n (storage e) w h = h
  Failed-suc calls n os_error w h = h
  Failed-suc calls n out_of_fuel w h = h

  -- the world after a run of curl, with the tick at which it ran
  abbrev Asked : ℕ → Curl → World Store → Type 0
  Asked calls c w = (t : ℕ) × (env.curl state offset t ≡ c) × AtRun t (calls + 1) w

  request-Asked :
      (calls n : ℕ) → Triple (At calls) (request env state offset) (Asked calls) (Failed calls n)
  unfolding request
  request-Asked calls n = record {
    at = λ w h. (w.tick, refl, ((omega (arith, h), omega (arith, h)), (h.1, omega arith)));
  }

  -- one round of the loop after its run of curl
  round-At :
      (attempt calls n : ℕ) (rest : Curl → Action Store Response) (c : Curl)
      → ((c : Curl)
          → Triple (At (calls + 1)) (rest c) (Served (calls + 1) n) (Failed (calls + 1) n))
      → Triple
          (Asked calls c)
          (settle env state offset attempt (judge env.settings offset attempt c) (rest c))
          (Served (calls + 1) n)
          (Failed (calls + 1) n)
  round-At attempt calls n rest c h = record {
    at = λ w (t, e, k).
        subst
          (λ c.
            Post (Served (calls + 1) n) (Failed (calls + 1) n)
              (settle env state offset attempt (judge env.settings offset attempt c) (rest c) w))
          e
          ((settle-At attempt calls n t _ (rest (env.curl state offset t)) refl
              (h (env.curl state offset t))).at
            w k);
  }

  attempts-At :
      (left attempt calls : ℕ) (http : Option ℕ)
      → Triple
          (At calls)
          (attempts env state offset left attempt http)
          (Served calls left)
          (Failed calls left)
  unfolding attempts
  attempts-At zero attempt calls http =
      Triple-raise (extraction (retry_exhausted env.settings state offset http))
        (λ w h. inr (inr (http, refl, omega (arith, h))))
  attempts-At (suc left) attempt calls http =
      Triple-bind (λ _. At calls) (check_shutdown env state offset) _
        (check_shutdown-At calls (suc left))
        (λ _.
          Triple-bind (Asked calls) (request env state offset) _ (request-Asked calls (suc left))
            (λ c.
              Triple-post (Served (calls + 1) left) (Failed (calls + 1) left) _
                (round-At attempt calls left
                  (λ c. attempts env state offset left (attempt + 1) (some (get_or c.http_code 0)))
                  c (λ c. attempts-At left (attempt + 1) (calls + 1) (some (get_or c.http_code 0))))
                (Served-suc calls left) (Failed-suc calls left)))

module _ {Store : Type 0} (env : Env Store) (state : String) (offset : ℕ) where
  -- `fetch_batch` runs curl at most `max_retries` times. What it returns is the body of a run made
  -- during the call that succeeded, with an HTTP status below 400, with status ok, and never a short
  -- page. Otherwise it raises: for a shutdown; for the status code of a run made during the call that
  -- is 400 or more and not tried again; or, after exactly `max_retries` runs, RETRY_EXHAUSTED.
  pub fetch_batch-Served :
      (w : World Store)
      → Post
          (Served env state offset w.tick w.calls env.settings.max_retries)
          (Failed env state offset w.tick w.calls env.settings.max_retries)
          (fetch_batch env state offset w)
  unfolding fetch_batch
  fetch_batch-Served w =
      (attempts-At env state offset w.tick env.settings.max_retries 1 w.calls none).at w
        (refl, omega arith)
