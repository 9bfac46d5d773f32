-- ===== src/Extractor/State/Coverage.antt =====
-- Every turn of the loop of `extract_state` keeps the invariant, whether it goes on, returns or
-- raises, and so does the whole call.
use text.Mathlib.TextPositions.{eq_refl}
use udhyam_msme_extractor.Prelude.{
  String, Bool, true, false, Option, none, some, ℕ, arith, Bool-cases, inl, inr, ltb, if◌then◌else◌,
}
use udhyam_msme_extractor.Dict.{Dict, insert, lookup-insert}
use udhyam_msme_extractor.Exec.{modify}
use udhyam_msme_extractor.Exec.Triple.{Triple, Triple-pure, Triple-weaken, Triple-bind}
use udhyam_msme_extractor.Extractor.Env.{
  Env, World, Exn, Checkpoint, Status, completed, failed, durable,
}
use udhyam_msme_extractor.Extractor.Frame.{On, Frame-Triple, durable-Frame}
use udhyam_msme_extractor.Extractor.Checkpoints.{
  save_checkpoint, store_checkpoint, mark_state_failed, failed_checkpoint,
}
use udhyam_msme_extractor.Extractor.State.{
  Progress, Turn, next, finished, updated, give_up, save_and_return, conclude, reached,
  reconcile_state,
}
use udhyam_msme_extractor.Extractor.State.Invariant.{Lines, Reached, Final, Sound, Good, Stored}

module _ {Store : Type 0} (env : Env Store) (run_id state : String) where
  abbrev pub Disk : World Store → Type 0
  Disk = On (Stored run_id state)

  -- before an action of the loop
  abbrev pub Ready : Progress → World Store → Type 0
  Ready p w = Disk w × Good run_id state w.manifest p

  -- after it, by how it ends
  abbrev pub Turned : Turn → World Store → Type 0
  Turned (next p) w = Ready p w
  Turned (finished cp) w = Disk w × Sound run_id state w.manifest cp × Final cp.status

  abbrev pub Raised : Exn → World Store → Type 0
  Raised e w = Disk w

  Stored-insert :
      (lines : Lines) (cp : Checkpoint) (checkpoints : Dict Checkpoint)
      → Sound run_id state lines cp
      → Stored run_id state lines checkpoints
      → Stored run_id state lines (insert state cp checkpoints)
  Stored-insert lines cp checkpoints s h =
      rw (lookup-insert state state cp checkpoints, eq_refl state) s

  -- A sound checkpoint may be saved: with a failed write nothing changes.
  pub save-Triple :
      (cp : Checkpoint) (R : Lines → Type 0)
      → Triple
          (On (λ lines cps. Stored run_id state lines cps × Sound run_id state lines cp × R lines))
          (save_checkpoint env state cp)
          (λ _.
            On (λ lines cps. Stored run_id state lines cps × Sound run_id state lines cp × R lines))
          Raised
  unfolding save_checkpoint
  save-Triple cp R =
      let P = λ (lines : Lines) (cps : Dict Checkpoint).
        Stored run_id state lines cps × Sound run_id state lines cp × R lines in
      Triple-bind (λ _. On P) (durable env) (λ _. modify (store_checkpoint state cp))
        (Frame-Triple P Raised (durable env) (durable-Frame env) (λ e w h. h.0))
        (λ _. record { at = λ w h. (Stored-insert w.manifest cp w.checkpoints h.1 h.0, h.1, h.2) })

  -- A sound checkpoint is saved and returned.
  pub save_and_return-Triple :
      (cp : Checkpoint)
      → Final cp.status
      → Triple
          (On (λ lines cps. Stored run_id state lines cps × Sound run_id state lines cp))
          (save_and_return env run_id state cp)
          Turned
          Raised
  unfolding save_and_return
  save_and_return-Triple cp final =
      Triple-bind
        (λ _.
          On (λ lines cps. Stored run_id state lines cps × Sound run_id state lines cp × Unit {0}))
        (save_checkpoint env state cp) _
        (Triple-weaken _ (save-Triple cp (λ _. Unit)) (λ w h. (h.0, h.1, tt)))
        (λ _. Triple-pure (finished cp) (λ w h. (h.0, h.1, final)))

  failed-Sound :
      (lines : Lines) (cp : Checkpoint) (reason stage detail : String) (retry_count : ℕ)
      (http_status : Option ℕ)
      → Sound run_id state lines cp
      → Sound run_id state lines
          (failed_checkpoint run_id state cp reason stage detail retry_count http_status)
  unfolding failed_checkpoint
  failed-Sound lines cp reason stage detail retry_count http_status s = record {
    covered = s.covered;
    counted = s.counted;
    complete = tt;
  }

  pub give_up-Triple :
      (p : Progress) (reason stage detail : String) (retry_count : ℕ) (http_status : Option ℕ)
      → Triple
          (Ready p)
          (give_up env run_id state p reason stage detail retry_count http_status)
          Turned
          Raised
  unfolding give_up mark_state_failed
  give_up-Triple p reason stage detail retry_count http_status =
      let cp = failed_checkpoint run_id state p.cp reason stage detail retry_count http_status in
      let P = λ (lines : Lines) (cps : Dict Checkpoint).
        Stored run_id state lines cps × Sound run_id state lines cp × Unit {0} in
      Triple-bind
        (λ cp. On (λ lines cps.
          Stored run_id state lines cps × Sound run_id state lines cp × Final cp.status))
        _ _
        (Triple-bind (λ _. On P) (save_checkpoint env state cp) _
          (Triple-weaken _ (save-Triple cp (λ _. Unit)) (λ w h. (
            h.0,
            failed-Sound w.manifest p.cp reason stage detail retry_count http_status (h.1).kept,
            tt,
          )))
          (λ _. Triple-pure cp (λ w h. (h.0, h.1, tt))))
        (λ cp. Triple-pure (finished cp) (λ w h. h))

  pub updated-Sound :
      (lines : Lines) (p : Progress) (status : Status)
      → Good run_id state lines p
      → Reached status p.total p.written
      → Sound run_id state lines (updated p status)
  unfolding updated
  updated-Sound lines p status g k = record {
    covered = g.reaches;
    counted = g.tallied;
    complete = k;
  }

  conclude-Final :
      (p : Progress) (b : Bool) → Final (updated p (if b then completed else failed)).status
  unfolding updated
  conclude-Final p true = tt
  conclude-Final p false = tt

  concluded :
      (total : Option ℕ) (written : ℕ)
      → Reached (if reconcile_state total written then completed else failed) total written
  unfolding reconcile_state reached
  concluded none written = tt
  concluded (some total) written = elim (Bool-cases (ltb written total)) [
    | inl short ↦ rw short tt
    | inr enough ↦ rw enough (ground arith)
  ]

  pub conclude-Triple :
      (p : Progress) → Triple (Ready p) (conclude env run_id state p) Turned Raised
  unfolding conclude
  conclude-Triple p =
      Triple-weaken _
        (save_and_return-Triple
          (updated p (if reconcile_state p.total p.written then completed else failed))
          (conclude-Final p (reconcile_state p.total p.written)))
        (λ w h. (h.0, updated-Sound w.manifest p _ h.1 (concluded p.total p.written)))

  pub updated_failed : (p : Progress) → Final (updated p failed).status
  unfolding updated
  updated_failed p = tt
