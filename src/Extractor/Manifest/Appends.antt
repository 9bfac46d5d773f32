-- ===== src/Extractor/Manifest/Appends.antt =====
-- `write_batch_manifest` adds one line, also where the copy in the bucket then fails.
use mathlib.Core.List.{◌++◌}
use udhyam_msme_extractor.Prelude.{
  String, Bool, true, false, ◌≢◌, if◌then◌else◌, Option, some, List, [], ◌∷◌, ℕ,
}
use udhyam_msme_extractor.Records.{BatchRecord}
use udhyam_msme_extractor.Storage
use udhyam_msme_extractor.Dict.{Dict}
use udhyam_msme_extractor.Exec.{Result, ok, err, modify}
use udhyam_msme_extractor.Exec.Triple.{Triple, Post, Triple-bind, Triple-pure, Triple-raise}
use udhyam_msme_extractor.Extractor.Env.{
  Env, World, Exn, Checkpoint, durable, on_shelf, storage, os_error, out_of_fuel, advance,
}
use udhyam_msme_extractor.Extractor.Frame.{
  On, Frame, Frame-Triple, Frame-bind, Frame-pure, Frame-raise, Frame-on_shelf, durable-Frame,
}
use udhyam_msme_extractor.Extractor.Manifest.{
  get_manifest_path, manifest_record, append_line, raised, sync_manifest, write_batch_manifest,
}

module _ {Store : Type 0} (env : Env Store) where
  raised-Frame : (r : Result String (Unit {0})) → Frame (raised {Store = Store} r)
  unfolding raised
  raised-Frame (ok u) = Frame-pure tt
  raised-Frame (err e) = Frame-raise (storage e)

  sync_manifest-Frame : (run_id : String) → Frame (sync_manifest env run_id)
  unfolding sync_manifest
  sync_manifest-Frame run_id = Frame-bind _ _ (Frame-on_shelf _) raised-Frame

  module _ (run_id state : String) (offset count : ℕ) (path checksum : String) where
    abbrev pub line : BatchRecord
    line = manifest_record run_id state offset count path checksum

    pub write_batch_manifest-Triple :
        (R R' : List (Option BatchRecord) → Dict Checkpoint → Type 0)
        (X : Exn → World Store → Type 0)
        → ((lines : List (Option BatchRecord)) (cps : Dict Checkpoint)
            → R lines cps
            → R' (lines ++ some line ∷ []) cps)
        → ((e : Exn) (w : World Store) → On R w → X e w)
        → ((e : Exn) (w : World Store) → On R' w → X e w)
        → Triple
            (On R)
            (write_batch_manifest env run_id state offset count path checksum)
            (λ _. On R')
            X
    unfolding write_batch_manifest append_line
    write_batch_manifest-Triple R R' X step before after =
        Triple-bind (λ _. On R) (durable env) _
          (Frame-Triple R X (durable env) (durable-Frame env) before)
          (λ _.
            Triple-bind (λ _. On R') (modify (append_line run_id line)) _
              (record { at = λ w h. step w.manifest w.checkpoints h })
              (λ _. Frame-Triple R' X _ (sync_manifest-Frame run_id) after))

    raised-Real :
        (r : Result String (Unit {0}))
        → Triple
            (λ _. Unit {0})
            (raised {Store = Store} r)
            (λ _ _. Unit {0})
            (λ e _. e ≢ out_of_fuel)
    unfolding raised
    raised-Real (ok u) = Triple-pure tt (λ w h. h)
    raised-Real (err e) = Triple-raise (storage e) (λ w h e. cc)

    durable-Post :
        (b : Bool) (w : World Store)
        → Post (λ _ _. Unit {0}) (λ e _. e ≢ out_of_fuel) (if b then ok tt else err os_error, w)
    durable-Post true w = tt
    durable-Post false w = λ e. cc

    pub write_batch_manifest-Real :
        Triple
          (λ _. Unit {0})
          (write_batch_manifest env run_id state offset count path checksum)
          (λ _ _. Unit {0})
          (λ e _. e ≢ out_of_fuel)
    unfolding write_batch_manifest sync_manifest durable
    write_batch_manifest-Real =
        Triple-bind {A = Unit {0}} (λ _ _. Unit {0}) (durable env) _
          (record { at = λ w h. durable-Post (env.disk w.tick) (advance w) })
          (λ _.
            Triple-bind {A = Unit {0}} (λ _ _. Unit {0}) (modify (append_line run_id line))
              (λ _. sync_manifest env run_id) (record { at = λ w h. tt })
              (λ _.
                Triple-bind (λ _ _. Unit {0})
                  (on_shelf (
                    Storage.sync_metadata env.client env.sha256 env.backend run_id
                      (get_manifest_path run_id)))
                  raised (record { at = λ w h. tt }) raised-Real))
