-- ===== src/Extractor/State/Turns.antt =====
-- One turn of the loop of `extract_state` keeps the invariant: the recovery of a batch that the
-- manifest holds, and the writing of a new one.
use mathlib.Core.List.{◌++◌}
use udhyam_msme_extractor.Prelude.{
  String, ◌≡◌, refl, Bool, Option, none, some, [], ◌∷◌, ℕ, zero, suc, ◌+◌, ◌<◌, arith, ◌∙◌, not,
  ltb, is_some, ◌&&◌, ◌||◌,
}
use udhyam_msme_extractor.Prelude.Int.{ℤ, pos, negsuc}
use udhyam_msme_extractor.Prelude.Text.{is_blank}
use udhyam_msme_extractor.Records.{BatchRecord}
use udhyam_msme_extractor.Dict.{Dict}
use udhyam_msme_extractor.Exec.{pure, branch, gets, ◌>>◌}
use udhyam_msme_extractor.Exec.Triple.{
  Triple, Triple-pure, Triple-gets, Triple-weaken, Triple-post, Triple-branch, Triple-bind,
}
use udhyam_msme_extractor.Storage
use udhyam_msme_extractor.Extractor.Env.{Env, World, Checkpoint, failed}
use udhyam_msme_extractor.Extractor.Frame.{On}
use udhyam_msme_extractor.Extractor.Manifest.{get_batch_id, find_persisted, manifest_record}
use udhyam_msme_extractor.Extractor.Manifest.Find.{
  find_persisted-append_new, find_persisted-manifest_record,
}
use udhyam_msme_extractor.Extractor.Manifest.Appends.{line, write_batch_manifest-Triple}
use udhyam_msme_extractor.Extractor.Checkpoints.{save_checkpoint}
use udhyam_msme_extractor.Extractor.State.{
  Progress, next, updated, conclude, reached, recovered, recover_count, recover_batch, record_batch,
  positive_count,
}
use udhyam_msme_extractor.Extractor.State.Invariant.{
  Lines, batch, Sound, Good, Stored, Sound-append, Covers-append, Stored-append,
}
use udhyam_msme_extractor.Extractor.State.Coverage.{
  Ready, Turned, Raised, save-Triple, save_and_return-Triple, give_up-Triple, updated-Sound,
  conclude-Triple, updated_failed,
}

module _ {Store : Type 0} (env : Env Store) (run_id state : String) where
  -- the batch at the loop's offset is recorded, with this many records
  abbrev Recorded : Progress → ℕ → Lines → Type 0
  Recorded p count lines =
      (r : BatchRecord) × (find_persisted (get_batch_id run_id state p.offset) lines ≡ some r)
      × (r.record_count ≡ some (pos count))
      × (0 < count)

  recovered-Good :
      (lines : Lines) (p : Progress) (count : ℕ)
      → Good run_id state lines p
      → Recorded p count lines
      → Good run_id state lines (recovered env run_id state p count)
  unfolding recovered updated
  recovered-Good lines p count g (r, found, counted, positive) =
      let c = batch r count g.reaches found counted positive refl in
      let e : p.written + count ≡ p.offset + count = omega (arith, g.tallied) in
      record { reaches = c; tallied = e; kept = record { covered = c; counted = e; complete = tt } }

  -- saving the checkpoint of the loop's variables
  save_progress-Triple :
      (p : Progress)
      → Triple
          (Ready env run_id state p)
          (save_checkpoint env state p.cp)
          (λ _. Ready env run_id state p)
          (Raised env run_id state)
  save_progress-Triple p =
      Triple-post
        (λ _. On (λ lines cps.
          Stored run_id state lines cps
          × Sound run_id state lines p.cp
          × Good run_id state lines p))
        (Raised env run_id state) _
        (Triple-weaken _ (save-Triple env run_id state p.cp (λ lines. Good run_id state lines p))
          (λ w h. (h.0, (h.1).kept, h.1)))
        (λ u w h. (h.0, h.2)) (λ e w h. h)

  -- `cp.update`, `save_checkpoint` and the end of the turn
  advance-Triple :
      (p : Progress) (count : ℕ) (stop : Bool)
      → let p' = recovered env run_id state p count in
        Triple
          (λ w. Ready env run_id state p w × Recorded p count w.manifest)
          (do
            save_checkpoint env state p'.cp
            branch stop (conclude env run_id state p') (pure (next p')))
          (Turned env run_id state)
          (Raised env run_id state)
  advance-Triple p count stop =
      let p' = recovered env run_id state p count in
      Triple-bind (λ _. Ready env run_id state p') _ _
        (Triple-weaken _ (save_progress-Triple p')
          (λ w h. ((h.0).0, recovered-Good w.manifest p count (h.0).1 h.1)))
        (λ _.
          Triple-branch stop _ _ (λ _. conclude-Triple env run_id state p')
            (λ _. Triple-pure (next p') (λ w h. h)))

  positive_count_lem :
      (n : Option ℤ) (count : ℕ)
      → positive_count n ≡ some count
      → (n ≡ some (pos count)) × (0 < count)
  unfolding positive_count
  positive_count_lem none count h = cc
  positive_count_lem (some (pos zero)) count h = cc
  positive_count_lem (some (pos (suc n))) count h = ground arith
  positive_count_lem (some (negsuc n)) count h = cc

  -- the loop is at a batch that is recorded
  abbrev pub Found : Progress → BatchRecord → World Store → Type 0
  Found p r w =
      Ready env run_id state p w
      × (find_persisted (get_batch_id run_id state p.offset) w.manifest ≡ some r)

  recover_count-Triple :
      (p : Progress) (r : BatchRecord) (count : Option ℕ)
      → positive_count r.record_count ≡ count
      → Triple
          (Found p r)
          (recover_count env run_id state p count)
          (Turned env run_id state)
          (Raised env run_id state)
  unfolding recover_count
  recover_count-Triple p r none e =
      Triple-weaken _
        (save_and_return-Triple env run_id state (updated p failed)
          (updated_failed env run_id state p))
        (λ w h. ((h.0).0, updated-Sound env run_id state w.manifest p failed (h.0).1 tt))
  recover_count-Triple p r (some count) e =
      let p' = recovered env run_id state p count in
      let f = positive_count_lem r.record_count count e in
      Triple-weaken _ (advance-Triple p count (reached p'.total p'.written))
        (λ w h. (h.0, (r, h.1, f.0, f.1)))

  pub recover_batch-Triple :
      (p : Progress) (r : BatchRecord)
      → Triple
          (Found p r)
          (recover_batch env run_id state p r)
          (Turned env run_id state)
          (Raised env run_id state)
  unfolding recover_batch
  recover_batch-Triple p r =
      Triple-bind {A = Bool × String} (λ _. Found p r)
        (gets (λ w.
          Storage.validate_artifact env.client env.sha256 env.backend r.batch_file r.checksum
            w.shelf))
        _ (Triple-gets _ (λ w h. h))
        (λ valid.
          Triple-branch (not (is_blank valid.1)) _ _
            (λ _.
              Triple-weaken _
                (give_up-Triple env run_id state p "BATCH_ARTIFACT_INVALID" "ARTIFACT_VALIDATION"
                  valid.1 0 none)
                (λ w h. h.0))
            (λ _. recover_count-Triple p r _ refl))

  -- the loop is at a batch that is not recorded
  abbrev pub Missing : Progress → Lines → Dict Checkpoint → Type 0
  Missing p lines cps =
      Stored run_id state lines cps
      × Good run_id state lines p
      × (find_persisted (get_batch_id run_id state p.offset) lines ≡ none)

  pub Missing→Ready :
      (p : Progress) (w : World Store) → On (Missing p) w → Ready env run_id state p w
  Missing→Ready p w h = (h.0, h.1)

  Good-append :
      (lines more : Lines) (p : Progress)
      → Good run_id state lines p
      → Good run_id state (lines ++ more) p
  Good-append lines more p g = record {
    reaches = Covers-append run_id state lines more g.reaches;
    tallied = g.tallied;
    kept = Sound-append run_id state lines more g.kept;
  }

  -- appending the batch's record makes it recorded
  record_step :
      (p : Progress) (count : ℕ) (path checksum : String)
      → 0 < count
      → (lines : Lines) (cps : Dict Checkpoint) → Missing p lines cps
      → let lines' = lines ++ some (line env run_id state p.offset count path checksum) ∷ [] in
        Stored run_id state lines' cps × Good run_id state lines' p × Recorded p count lines'
  unfolding manifest_record
  record_step p count path checksum positive lines cps h =
      let r = line env run_id state p.offset count path checksum in
      (
        Stored-append run_id state lines (some r ∷ []) cps h.0,
        Good-append lines (some r ∷ []) p h.1,
        (
          r,
          find_persisted-append_new (get_batch_id run_id state p.offset) lines (some r ∷ []) h.2
              ∙ find_persisted-manifest_record run_id state p.offset count path checksum,
          refl,
          positive,
        ),
      )

  pub record_batch-Triple :
      (p : Progress) (count : ℕ) (path checksum : String)
      → 0 < count
      → Triple
          (On (Missing p))
          (record_batch env run_id state p count path checksum)
          (Turned env run_id state)
          (Raised env run_id state)
  unfolding record_batch
  record_batch-Triple p count path checksum positive =
      let p' = recovered env run_id state p count in
      Triple-bind
        (λ _. On (λ lines cps.
          Stored run_id state lines cps × Good run_id state lines p × Recorded p count lines))
        _ _
        (write_batch_manifest-Triple env run_id state p.offset count path checksum _ _
          (Raised env run_id state) (record_step p count path checksum positive) (λ e w h. h.0)
          (λ e w h. h.0))
        (λ _.
          Triple-weaken _
            (advance-Triple p count (
              reached p'.total p'.written
              || (is_some p'.total && ltb count env.settings.batch_size)))
            (λ w h. ((h.0, h.1), h.2)))
