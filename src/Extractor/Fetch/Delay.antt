-- ===== src/Extractor/Fetch/Delay.antt =====
-- How long `fetch_batch` waits between two attempts.
use udhyam_msme_extractor.Prelude.{
  String, ◌≡◌, ◌≢◌, ◌⊎◌, inl, inr, refl, Bool, true, false, ℕ, zero, suc, ◌+◌, ◌-◌, ◌*◌, ◌^◌, ◌≤◌,
  max, arith, str_eq, eq_iff,
}
use udhyam_msme_extractor.Extractor.Env.{Settings}
use udhyam_msme_extractor.Extractor.Fetch.{retry_delay}

pow_step : (n k : ℕ) → 2 ^ n ≤ 2 ^ (n + k)
pow_step n zero = let e : n + 0 ≡ n = omega arith in rw e (omega arith)
pow_step n (suc k) =
    let e : n + suc k ≡ suc (n + k) = omega arith in rw e (omega (arith, pow_step n k))

scaled : (b x y : ℕ) → x ≤ y → b * x ≤ b * y
scaled b x y h = grind (arith, h)

later : (b attempt more : ℕ) → 1 ≤ attempt → b * 2 ^ (attempt - 1) ≤ b * 2 ^ (attempt + more - 1)
later b attempt more h =
    let e : attempt + more - 1 ≡ attempt - 1 + more = omega (arith, h) in
    rw e (scaled b (2 ^ (attempt - 1)) (2 ^ (attempt - 1 + more)) (pow_step (attempt - 1) more))

-- What is promised of the delay after the attempt with the number n + 1.
pub record Bounded (settings : Settings) (reason : String) (n jitter : ℕ) : Type 0 where
  pub above :
      retry_delay settings reason (suc n) jitter
      ≤ max (settings.retry_backoff_max + jitter) settings.rate_limit_delay
  pub at_least : jitter ≤ retry_delay settings reason (suc n) jitter
  pub waited :
      (reason ≢ "RATE_LIMITED")
      ⊎ (settings.rate_limit_delay ≤ retry_delay settings reason (suc n) jitter)
  pub grows :
      (more : ℕ)
      → retry_delay settings reason (suc n) jitter
        ≤ retry_delay settings reason (suc n + more) jitter

rate_limited :
    (settings : Settings) (reason : String) (n jitter : ℕ) (limited : Bool)
    → str_eq reason "RATE_LIMITED" ≡ limited
    → (reason ≢ "RATE_LIMITED")
      ⊎ (settings.rate_limit_delay ≤ retry_delay settings reason (suc n) jitter)
unfolding retry_delay
rate_limited settings reason n jitter true h = inr (ground arith)
rate_limited settings reason n jitter false h =
    inl (λ e. cc (h, (eq_iff reason "RATE_LIMITED").1 e))

-- For the same jitter, a delay is never longer than the larger of the capped backoff with its jitter
-- and the delay for rate limits, nor shorter than the jitter; it is at least the delay for rate limits
-- where the reason is one; and it does not get shorter from one attempt to a later one.
pub retry_delay-Bounded :
    (settings : Settings) (reason : String) (n jitter : ℕ) → Bounded settings reason n jitter
unfolding retry_delay
retry_delay-Bounded settings reason n jitter = record {
  above = ground arith;
  at_least = ground arith;
  waited = rate_limited settings reason n jitter _ refl;
  grows = λ more. ground (arith, later settings.retry_backoff_base (suc n) more (omega arith));
}
