-- ===== src/Extractor/State/Runs.antt =====
-- The whole of `extract_state`, and any history of runs, interruptions and other states' work.
use mathlib.Core.List.{◌++◌}
use udhyam_msme_extractor.Prelude.{String, ◌≡◌, refl, true, Option, none, some, [], ℕ, zero, suc}
use udhyam_msme_extractor.Dict.{lookup}
use udhyam_msme_extractor.Exec.{Result, ok, err}
use udhyam_msme_extractor.Exec.Triple.{
  Triple, Post, Triple-pure, Triple-raise, Triple-weaken, Triple-post, Triple-branch, Triple-bind,
}
use udhyam_msme_extractor.Extractor.Env.{
  Env, World, Action, Exn, out_of_fuel, Checkpoint, Status, completed, failed, in_progress,
  not_started,
}
use udhyam_msme_extractor.Extractor.Frame.{On}
use udhyam_msme_extractor.Extractor.Checkpoints.{fresh_checkpoint, load_checkpoint, or_fresh}
use udhyam_msme_extractor.Extractor.State.{
  Progress, Turn, next, finished, is_completed, resume, turn, continue, loop, start, extract_state,
}
use udhyam_msme_extractor.Extractor.State.Invariant.{
  Lines, Final, origin, Sound, Good, Stored, SoundIf, Stored-append,
}
use udhyam_msme_extractor.Extractor.State.Coverage.{Ready, Turned, Raised, save-Triple}
use udhyam_msme_extractor.Extractor.State.Persist.{turn-Triple}

module _ (run_id state : String) where
  fresh-Sound : (lines : Lines) → Sound run_id state lines (fresh_checkpoint run_id state)
  unfolding fresh_checkpoint
  fresh-Sound lines = record { covered = origin; counted = refl; complete = tt }

  loaded-Sound :
      (lines : Lines) (o : Option Checkpoint)
      → SoundIf run_id state lines o
      → Sound run_id state lines (or_fresh run_id state o)
  unfolding or_fresh
  loaded-Sound lines none h = fresh-Sound lines
  loaded-Sound lines (some cp) h = h

  resume-Good :
      (lines : Lines) (cp : Checkpoint)
      → Sound run_id state lines cp
      → Good run_id state lines (resume run_id state cp)
  unfolding resume
  resume-Good lines cp s = record {
    reaches = s.covered;
    tallied = s.counted;
    kept = record { covered = s.covered; counted = s.counted; complete = tt };
  }

completed-Final : (s : Status) → is_completed s ≡ true → Final s
unfolding is_completed
completed-Final completed h = tt
completed-Final failed h = tt
completed-Final in_progress h = cc
completed-Final not_started h = cc

module _ {Store : Type 0} (env : Env Store) (run_id state : String) where
  -- after the call: what is stored is sound, and so is what is returned
  abbrev pub Returned : Checkpoint → World Store → Type 0
  Returned cp w =
      Stored run_id state w.manifest w.checkpoints
      × Sound run_id state w.manifest cp
      × Final cp.status

  continue-Triple :
      (again : Progress → Action Store Checkpoint)
      → ((p : Progress)
          → Triple (Ready env run_id state p) (again p) Returned (Raised env run_id state))
      → (t : Turn)
      → Triple
          (Turned env run_id state t)
          (continue env run_id state again t)
          Returned
          (Raised env run_id state)
  unfolding continue
  continue-Triple again h (next p) = h p
  continue-Triple again h (finished cp) = Triple-pure cp (λ w k. k)

  loop-Triple :
      (fuel : ℕ) (p : Progress)
      → Triple
          (Ready env run_id state p)
          (loop env run_id state fuel p)
          Returned
          (Raised env run_id state)
  unfolding loop
  loop-Triple zero p = Triple-raise out_of_fuel (λ w h. h.0)
  loop-Triple (suc fuel) p =
      Triple-bind (Turned env run_id state) (turn env run_id state p) _
        (turn-Triple env run_id state p)
        (continue-Triple (loop env run_id state fuel) (loop-Triple fuel))

  start-Triple :
      (fuel : ℕ) (cp : Checkpoint)
      → Triple
          (λ w. Stored run_id state w.manifest w.checkpoints × Sound run_id state w.manifest cp)
          (start env run_id state fuel cp)
          Returned
          (Raised env run_id state)
  unfolding start
  start-Triple fuel cp =
      let p = resume run_id state cp in
      Triple-branch (is_completed cp.status) _ _
        (λ done. Triple-pure cp (λ w h. (h.0, h.1, completed-Final cp.status done)))
        (λ _.
          Triple-bind (λ _. Ready env run_id state p) _ _
            (Triple-post
              (λ _. On (λ lines cps.
                Stored run_id state lines cps
                × Sound run_id state lines p.cp
                × Good run_id state lines p))
              (Raised env run_id state) _
              (Triple-weaken _
                (save-Triple env run_id state p.cp (λ lines. Good run_id state lines p))
                (λ w h. let g = resume-Good run_id state w.manifest cp h.1 in (h.0, g.kept, g)))
              (λ u w h. (h.0, h.2)) (λ e w h. h))
            (λ _. loop-Triple fuel p))

  pub extract_state-Stored :
      (fuel : ℕ) (w : World Store)
      → Stored run_id state w.manifest w.checkpoints
      → Post Returned (Raised env run_id state) (extract_state env run_id state fuel w)
  unfolding extract_state load_checkpoint
  extract_state-Stored fuel w h =
      (start-Triple fuel (load_checkpoint run_id state w)).at w
        (h, loaded-Sound run_id state w.manifest (lookup state w.checkpoints) h)

module _ {Store : Type 0} (run_id state : String) where
  -- How the durable state of a run comes about, as far as one state goes: it begins with no record
  -- and no checkpoint; `extract_state` is run with any settings against any API, disk and bucket,
  -- and may return, raise or die; and other code adds lines to the manifest and changes anything but
  -- this state's checkpoint.
  pub data History : World Store → Type 0 where
    begin : (w : World Store) → w.manifest ≡ [] → lookup state w.checkpoints ≡ none → History w
    run :
        (env : Env Store) (fuel : ℕ) {w : World Store}
        → History w
        → History (extract_state env run_id state fuel w).1
    elsewhere :
        {w w' : World Store} (more : Lines)
        → History w
        → w'.manifest ≡ w.manifest ++ more
        → lookup state w'.checkpoints ≡ lookup state w.checkpoints
        → History w'

  Stored-after :
      (env : Env Store) (r : Result Exn Checkpoint) (w : World Store)
      → Post (Returned env run_id state) (Raised env run_id state) (r, w)
      → Stored run_id state w.manifest w.checkpoints
  Stored-after env (ok cp) w h = h.0
  Stored-after env (err e) w h = h

  History-Stored : {w : World Store} → History w → Stored run_id state w.manifest w.checkpoints
  History-Stored (begin w empty fresh) = rw fresh tt
  History-Stored (run env fuel {w = w} h) =
      Stored-after env (extract_state env run_id state fuel w).0
        (extract_state env run_id state fuel w).1
        (extract_state-Stored env run_id state fuel w (History-Stored h))
  History-Stored (elsewhere {w} {w'} more h grown kept) =
      rw (grown, kept) (Stored-append run_id state w.manifest more w.checkpoints (History-Stored h))

  -- After any history, a run of `extract_state` leaves a stored checkpoint that the manifest covers:
  -- batches follow one another without a gap from offset 0 up to its offset, which is the number of
  -- records that it claims. That holds also if the run raises or dies. The checkpoint that a run
  -- returns is covered in the same way, and if it is marked completed the API's total is known and
  -- no larger than the records written; it is marked completed or failed.
  pub extract_state-Covers :
      (env : Env Store) (fuel : ℕ) (w : World Store)
      → History w
      → Post
          (Returned env run_id state)
          (Raised env run_id state)
          (extract_state env run_id state fuel w)
  extract_state-Covers env fuel w h =
      extract_state-Stored env run_id state fuel w (History-Stored h)
