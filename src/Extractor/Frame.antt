-- ===== src/Extractor/Frame.antt =====
-- Code that leaves the manifest and the checkpoints alone keeps whatever is said of them.
use udhyam_msme_extractor.Prelude.{String, ◌≡◌, refl, ◌∙◌, Bool, true, false, Option, List, arith}
use udhyam_msme_extractor.Records.{BatchRecord}
use udhyam_msme_extractor.Dict.{Dict}
use udhyam_msme_extractor.Exec.{Exec, Result, ok, err, raise, pure, branch, ◌>>=◌}
use udhyam_msme_extractor.Exec.Triple.{Triple, Post}
use udhyam_msme_extractor.Storage.Disk.{Shelf}
use udhyam_msme_extractor.Extractor.Env.{
  Env, World, Action, Exn, Checkpoint, is_shutdown_requested, durable, on_shelf, Row,
}
use udhyam_msme_extractor.Extractor.Batches.{
  write_batch_file, calculate_file_sha256, cleanup_published_staged_batch,
}

-- A statement about the manifest and the checkpoints.
abbrev pub On :
    {Store : Type 0} → (List (Option BatchRecord) → Dict Checkpoint → Type 0) → World Store → Type 0
On R w = R w.manifest w.checkpoints

module _ {Store A : Type 0} where
  pub record Frame (m : Action Store A) : Type 0 where
    pub manifest : (w : World Store) → (m w).1.manifest ≡ w.manifest
    pub checkpoints : (w : World Store) → (m w).1.checkpoints ≡ w.checkpoints

  frame-Post :
      (R : List (Option BatchRecord) → Dict Checkpoint → Type 0) (X : Exn → World Store → Type 0)
      (r : Result Exn A) (w : World Store)
      → ((e : Exn) (v : World Store) → On R v → X e v)
      → On R w
      → Post (λ _. On R) X (r, w)
  frame-Post R X (ok a) w k h = h
  frame-Post R X (err e) w k h = k e w h

  pub Frame-Triple :
      (R : List (Option BatchRecord) → Dict Checkpoint → Type 0) (X : Exn → World Store → Type 0)
      (m : Action Store A)
      → Frame m
      → ((e : Exn) (w : World Store) → On R w → X e w)
      → Triple (On R) m (λ _. On R) X
  Frame-Triple R X m f k = record {
    at = λ w h. frame-Post R X (m w).0 (m w).1 k (rw (f.manifest w, f.checkpoints w) h);
  }

module _ {Store A B : Type 0} where
  after_bind :
      (f : A → Action Store B) (r : Result Exn A) (w : World Store)
      → ((a : A) → Frame (f a))
      → let w' = (((λ _. (r, w)) >>= f) w).1 in
        (w'.manifest ≡ w.manifest) × (w'.checkpoints ≡ w.checkpoints)
  after_bind f (ok a) w k = ((k a).manifest w, (k a).checkpoints w)
  after_bind f (err e) w k = (refl, refl)

  pub Frame-bind :
      (m : Action Store A) (f : A → Action Store B)
      → Frame m
      → ((a : A) → Frame (f a))
      → Frame (m >>= f)
  Frame-bind m f h k = record {
    manifest = λ w. (after_bind f (m w).0 (m w).1 k).0 ∙ h.manifest w;
    checkpoints = λ w. (after_bind f (m w).0 (m w).1 k).1 ∙ h.checkpoints w;
  }

module _ {Store A : Type 0} where
  pub Frame-branch : (b : Bool) (m n : Action Store A) → Frame m → Frame n → Frame (branch b m n)
  Frame-branch true m n hm hn = hm
  Frame-branch false m n hm hn = hn

  pub Frame-pure : (a : A) → Frame {Store = Store} (pure a)
  Frame-pure a = record { manifest = λ w. refl; checkpoints = λ w. refl }

  pub Frame-raise : (e : Exn) → Frame {Store = Store} {A = A} (raise e)
  Frame-raise e = record { manifest = λ w. refl; checkpoints = λ w. refl }

  pub Frame-on_shelf : (m : Exec (Shelf Store) String A) → Frame (on_shelf m)
  Frame-on_shelf m = record { manifest = λ w. refl; checkpoints = λ w. refl }

module _ {Store : Type 0} (env : Env Store) where
  pub is_shutdown_requested-Frame : Frame (is_shutdown_requested env)
  unfolding is_shutdown_requested
  is_shutdown_requested-Frame = record { manifest = λ w. refl; checkpoints = λ w. refl }

  pub durable-Frame : Frame (durable env)
  unfolding durable
  durable-Frame = record { manifest = λ w. refl; checkpoints = λ w. refl }

  pub write_batch_file-Frame :
      (path : String) (records : List Row) → Frame (write_batch_file env path records)
  unfolding write_batch_file durable
  write_batch_file-Frame path records = record {
    manifest = λ w. ground arith;
    checkpoints = λ w. ground arith;
  }

  pub calculate_file_sha256-Frame : (path : String) → Frame (calculate_file_sha256 env path)
  unfolding calculate_file_sha256
  calculate_file_sha256-Frame path = record {
    manifest = λ w. ground arith;
    checkpoints = λ w. ground arith;
  }

  pub cleanup-Frame : (path : String) → Frame (cleanup_published_staged_batch env path)
  unfolding cleanup_published_staged_batch
  cleanup-Frame path = record { manifest = λ w. refl; checkpoints = λ w. refl }
