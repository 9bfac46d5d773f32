-- ===== src/Run/Reconcile.antt =====
-- When a run is reconciled, and what its summary then says.
use udhyam_msme_extractor.Prelude.{
  String, ◌≡◌, refl, Bool, true, false, not, ◌&&◌, Option, none, some, List, [], ◌∷◌, ℕ, suc, ◌+◌,
  ◌≤◌, ◌<◌, ◌==◌, ◌↔◌, arith, map, ap, ◌∙◌, ◌⊎◌, inl, inr, Bool-cases, subst, length, any, keep,
  All, sum_by, is_some, leb→le,
}
use udhyam_msme_extractor.Extractor.Env.{
  Checkpoint, Status, completed, failed, in_progress, not_started,
}
use udhyam_msme_extractor.Extractor.State.Invariant.{Reached}
use udhyam_msme_extractor.Extractor.State.{reached}
use udhyam_msme_extractor.Run.{
  has_status, total_or_zero, written, reconcile_run, build_run_summary, summarize, Failure,
  RunSummary, failure_of,
}

abbrev pub IsCompleted : Checkpoint → Type 0
IsCompleted r = r.status ≡ completed

abbrev pub IsTotalKnown : Checkpoint → Type 0
IsTotalKnown r = (n : ℕ) × (r.total_records ≡ some n)

-- What a reconciled run amounts to.
abbrev pub Reconciled : List Checkpoint → Type 0
Reconciled results =
    (0 < length results)
    × All IsCompleted results
    × All IsTotalKnown results
    × (sum_by total_or_zero results ≤ sum_by written results)

status_completed : (s : Status) → elim s [ completed ↦ true | _ ↦ false ] ≡ true → s ≡ completed
status_completed completed h = refl
status_completed failed h = cc
status_completed in_progress h = cc
status_completed not_started h = cc

none_open :
    (rs : List Checkpoint) → any (λ r. not (has_status completed r)) rs ≡ false → All IsCompleted rs
none_open [] h = tt
none_open (r ∷ rs) h = (status_completed r.status (ground arith), none_open rs (ground arith))

known : (o : Option ℕ) → is_some o ≡ true → (n : ℕ) × (o ≡ some n)
known none h = cc
known (some n) h = (n, refl)

All-known :
    (rs : List Checkpoint)
    → any (λ r. not (is_some r.total_records)) rs ≡ false
    → All IsTotalKnown rs
All-known [] h = tt
All-known (r ∷ rs) h = (known r.total_records (ground arith), All-known rs (ground arith))

open_none :
    (rs : List Checkpoint) → All IsCompleted rs → any (λ r. not (has_status completed r)) rs ≡ false
open_none [] h = refl
open_none (r ∷ rs) (e, h) = rw (e, open_none rs h) refl

known-All :
    (rs : List Checkpoint)
    → All IsTotalKnown rs
    → any (λ r. not (is_some r.total_records)) rs ≡ false
known-All [] h = refl
known-All (r ∷ rs) ((n, e), h) = rw (e, known-All rs h) refl

passed : (results : List Checkpoint) → reconcile_run results ≡ true → Reconciled results
unfolding reconcile_run
passed [] h = cc
passed (r ∷ rs) h = (
  omega arith,
  none_open (r ∷ rs) (ground arith),
  All-known (r ∷ rs) (ground arith),
  ground arith,
)

passes : (results : List Checkpoint) → Reconciled results → reconcile_run results ≡ true
unfolding reconcile_run
passes [] h = grind (arith, h.0)
passes (r ∷ rs) (n, c, k, le) = rw (open_none (r ∷ rs) c, known-All (r ∷ rs) k) (ground (arith, le))

-- `reconcile_run` passes exactly the runs with at least one result, all of them completed, all with a
-- known total, and at least as many records written in all as the totals add up to: a run that wrote
-- more than the totals passes.
pub reconcile_run-Reconciled :
    (results : List Checkpoint) → (reconcile_run results ≡ true) ↔ Reconciled results
reconcile_run-Reconciled results = (passed results, passes results)

-- What a state that `extract_state` marks completed satisfies.
abbrev pub IsReached : Checkpoint → Type 0
IsReached r = Reached r.status r.total_records r.records_written

reached_known :
    (total : Option ℕ) (n : ℕ) → reached total n ≡ true → (t : ℕ) × (total ≡ some t) × (t ≤ n)
unfolding reached
reached_known none n h = cc
reached_known (some t) n h = (t, refl, leb→le t n h)

reached_completed :
    (r : Checkpoint)
    → IsReached r
    → IsCompleted r
    → (t : ℕ) × (r.total_records ≡ some t) × (t ≤ r.records_written)
reached_completed r h e =
    reached_known r.total_records r.records_written
      (subst (λ s. Reached s r.total_records r.records_written) e h)

reached-All :
    (rs : List Checkpoint)
    → All IsReached rs
    → All IsCompleted rs
    → All IsTotalKnown rs × (sum_by total_or_zero rs ≤ sum_by written rs)
reached-All [] h c = (tt, omega arith)
reached-All (r ∷ rs) (h, hs) (c, cs) =
    let (t, e, le) = reached_completed r h c in
    let (known, sums) = reached-All rs hs cs in (((t, e), known), rw e (omega arith))

-- Where every completed result has reached its total, as all results of `extract_state` have, a run
-- with at least one result is reconciled as soon as all its states are completed, also one that wrote
-- more records than the totals: the run's own comparison of the sums never fails it.
pub reconcile_run-completed :
    (results : List Checkpoint)
    → All IsReached results
    → 0 < length results
    → All IsCompleted results
    → reconcile_run results ≡ true
reconcile_run-completed results h n c =
    let (known, sums) = reached-All results h c in passes results (n, c, known, sums)

length-failed_open :
    (rs : List Checkpoint) → All IsCompleted rs → length (keep (has_status failed) rs) ≡ 0
length-failed_open [] h = refl
length-failed_open (r ∷ rs) (e, h) = rw (e, length-failed_open rs h) refl

length-keep-map : (f : Checkpoint → Failure) (rs : List Checkpoint) → length (map f rs) ≡ length rs
length-keep-map f [] = refl
length-keep-map f (r ∷ rs) = ap suc (length-keep-map f rs)

length-completed-failed :
    (rs : List Checkpoint)
    → length (keep (has_status completed) rs) + length (keep (has_status failed) rs) ≤ length rs
length-completed-failed [] = omega arith
length-completed-failed (r ∷ rs) = ground (arith, length-completed-failed rs)

length-All_completed :
    (rs : List Checkpoint)
    → All IsCompleted rs
    → length (keep (has_status completed) rs) ≡ length rs
length-All_completed [] h = refl
length-All_completed (r ∷ rs) (e, h) = rw (e, length-All_completed rs h) refl

-- What a summary and the run's result say of each other.
pub record Agrees (results : List Checkpoint) (succeeded : Bool) (s : RunSummary) : Type 0 where
  pub result : succeeded ≡ reconcile_run results
  pub listed : length s.failures ≡ s.failed_states
  pub counted : s.completed_states + s.failed_states ≤ length results
  pub whole :
      (succeeded ≡ false)
      ⊎ ((s.completed_states ≡ length results)
          × (s.failed_states ≡ 0)
          × (s.expected_records ≤ s.actual_records))

succeeded_if :
    (results : List Checkpoint)
    → (reconcile_run results && length (keep (has_status failed) results) == 0)
      ≡ reconcile_run results
succeeded_if results = elim (Bool-cases (reconcile_run results)) [
  | inl e ↦ rw (e, length-failed_open results (passed results e).1) refl
  | inr e ↦ rw e refl
]

-- The run succeeds exactly when it is reconciled: the count of failed states, which is tested as
-- well, adds nothing. Its summary lists as many failures as it counts, counts no result twice, and
-- for a run that succeeds counts every result as completed and at least the expected records.
pub summarize-Agrees :
    (run_id : String) (states : List String) (results : List Checkpoint)
    → Agrees results (summarize run_id states results).0 (summarize run_id states results).1
unfolding summarize build_run_summary
summarize-Agrees run_id states results = record {
  result = succeeded_if results;
  listed = length-keep-map failure_of (keep (has_status failed) results);
  counted = length-completed-failed results;
  whole = elim (Bool-cases (reconcile_run results)) [
    | inl e ↦
        let r = passed results e in
        inr (length-All_completed results r.1, length-failed_open results r.1, r.3)
    | inr e ↦ inl (succeeded_if results ∙ e)
  ];
}
