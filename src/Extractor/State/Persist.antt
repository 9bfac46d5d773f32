-- ===== src/Extractor/State/Persist.antt =====
-- A turn that fetches a page, and the whole loop, keep the invariant.
use udhyam_msme_extractor.Prelude.{
  String, ◌≡◌, refl, false, Option, none, some, List, [], ◌∷◌, ℕ, ◌<◌, arith, is_empty, length, not,
  ◌==◌, is_some, get_or,
}
use udhyam_msme_extractor.Records.{BatchRecord}
use udhyam_msme_extractor.Exec.{Result, ok, err, gets, ◌>>=◌}
use udhyam_msme_extractor.Exec.Triple.{
  Triple, Triple-raise, Triple-gets, Triple-weaken, Triple-branch, Triple-bind,
}
use udhyam_msme_extractor.Storage
use udhyam_msme_extractor.Storage.Disk.{node_at}
use udhyam_msme_extractor.Extractor.Env.{
  Env, Action, Row, Response, Exn, extraction, storage, os_error, out_of_fuel, failed,
  is_shutdown_requested,
}
use udhyam_msme_extractor.Extractor.Frame.{
  On, Frame, Frame-Triple, Frame-on_shelf, Frame-branch, Frame-pure, is_shutdown_requested-Frame,
  write_batch_file-Frame, calculate_file_sha256-Frame, cleanup-Frame,
}
use udhyam_msme_extractor.Extractor.Fetch.{fetch_batch, records_of, total_of}
use udhyam_msme_extractor.Extractor.Fetch.Frame.{fetch_batch-Frame}
use udhyam_msme_extractor.Extractor.Manifest.{get_batch_id, find_persisted, get_persisted_batch}
use udhyam_msme_extractor.Extractor.Batches.{batch_output_path, staging_path}
use udhyam_msme_extractor.Extractor.State.{
  Progress, Turn, updated, give_up, published, persist_at, persist_batch, with_total, process_page,
  fetch_failed, fetched, fetch_page, recover_or_fetch, stop_or, turn, is_local,
}
use udhyam_msme_extractor.Extractor.State.Invariant.{Good, Stored}
use udhyam_msme_extractor.Extractor.State.Coverage.{
  Ready, Turned, Raised, save_and_return-Triple, give_up-Triple, updated-Sound, conclude-Triple,
  updated_failed,
}
use udhyam_msme_extractor.Extractor.State.Turns.{
  Missing, Missing→Ready, record_batch-Triple, recover_batch-Triple,
}

module _ {Store : Type 0} (env : Env Store) (run_id state : String) where
  -- what every action on a batch that is not recorded does
  abbrev Writes : Progress → Action Store Turn → Type 0
  Writes p m =
      Triple (On (Missing env run_id state p)) m (Turned env run_id state) (Raised env run_id state)

  give_up-Writes :
      (p : Progress) (reason stage detail : String) (retry_count : ℕ) (http_status : Option ℕ)
      → Writes p (give_up env run_id state p reason stage detail retry_count http_status)
  give_up-Writes p reason stage detail retry_count http_status =
      Triple-weaken _
        (give_up-Triple env run_id state p reason stage detail retry_count http_status)
        (Missing→Ready env run_id state p)

  -- an action that leaves the manifest and the checkpoints alone, and then the rest
  then-Writes :
      {A : Type 0} (p : Progress) (m : Action Store A) (f : A → Action Store Turn)
      → Frame m
      → ((a : A) → Writes p (f a))
      → Writes p (m >>= f)
  then-Writes p m f h k =
      Triple-bind (λ _. On (Missing env run_id state p)) m f
        (Frame-Triple (Missing env run_id state p) (Raised env run_id state) m h (λ e w h. h.0)) k

  published-Writes :
      (p : Progress) (count : ℕ) (path checksum : String) (r : Result String String)
      → 0 < count
      → Writes p (published env run_id state p count path checksum r)
  unfolding published
  published-Writes p count path checksum (err message) positive =
      give_up-Writes p "STORAGE_UPLOAD_FAILED" "RAW_PERSISTENCE" message 0 none
  published-Writes p count path checksum (ok batch_file) positive =
      then-Writes p _ _
        (Frame-branch (is_local env.backend) _ _ (Frame-pure tt) (cleanup-Frame env path))
        (λ _. record_batch-Triple env run_id state p count batch_file checksum positive)

  counted_all : (n m : ℕ) → not (n == m) ≡ false → 0 < m → 0 < n
  counted_all n m h k = ground arith

  persist_at-Writes :
      (p : Progress) (records : List Row) (path : String)
      → 0 < length records
      → Writes p (persist_at env run_id state p records path)
  unfolding persist_at
  persist_at-Writes p records path positive =
      then-Writes p _ _ (write_batch_file-Frame env path records) λ n.
        Triple-branch (not (n == length records)) _ _
          (λ _.
            Triple-weaken _
              (save_and_return-Triple env run_id state (updated p failed)
                (updated_failed env run_id state p))
              (λ w h. (h.0, updated-Sound env run_id state w.manifest p failed h.1 tt)))
          (λ same. then-Writes p _ _ (calculate_file_sha256-Frame env path) λ checksum.
            then-Writes p _ _
              (Frame-on_shelf (
                Storage.publish_batch env.client env.sha256 env.backend path run_id state p.offset
                  checksum))
              λ r.
                published-Writes p n path checksum r (counted_all n (length records) same positive))

  persist_batch-Writes :
      (p : Progress) (records : List Row)
      → 0 < length records
      → Writes p (persist_batch env run_id state p records)
  unfolding persist_batch
  persist_batch-Writes p records positive =
      let path = batch_output_path run_id state p.offset in
      Triple-branch (is_local env.backend) _ _
        (λ _.
          Triple-bind (λ _. On (Missing env run_id state p)) (gets (λ w. node_at path w.shelf)) _
            (Triple-gets _ (λ w h. h))
            (λ found.
              Triple-branch (is_some found) _ _
                (λ _. give_up-Writes p "ORPHAN_BATCH_ARTIFACT" "ARTIFACT_PERSISTENCE" path 0 none)
                (λ _. persist_at-Writes p records path positive)))
        (λ _. persist_at-Writes p records (staging_path run_id state p.offset) positive)

  nonempty : {A : Type 0} (xs : List A) → is_empty xs ≡ false → 0 < length xs
  nonempty [] h = cc
  nonempty (x ∷ xs) h = omega arith

  process_page-Writes : (p : Progress) (d : Response) → Writes p (process_page env run_id state p d)
  unfolding process_page with_total
  process_page-Writes p d =
      let p' = record p { total = some (get_or p.total (total_of d)) } in
      Triple-branch (is_empty (records_of d)) _ _
        (λ _. Triple-weaken _ (conclude-Triple env run_id state p') (λ w h.
          (h.0, record { reaches = (h.1).reaches; tallied = (h.1).tallied; kept = (h.1).kept })))
        (λ some_records.
          Triple-weaken _
            (persist_batch-Writes p' (records_of d) (nonempty (records_of d) some_records))
            (λ w h. (
              h.0,
              record { reaches = (h.1).reaches; tallied = (h.1).tallied; kept = (h.1).kept },
              h.2,
            )))

  fetched-Writes :
      (p : Progress) (r : Result Exn Response) → Writes p (fetched env run_id state p r)
  unfolding fetched fetch_failed
  fetched-Writes p (ok d) = process_page-Writes p d
  fetched-Writes p (err (extraction e)) =
      give_up-Writes p e.reason e.stage e.detail e.retry_count e.http_status
  fetched-Writes p (err (storage e)) = Triple-raise _ (λ w h. h.0)
  fetched-Writes p (err os_error) = Triple-raise _ (λ w h. h.0)
  fetched-Writes p (err out_of_fuel) = Triple-raise _ (λ w h. h.0)

  fetch_page-Writes : (p : Progress) → Writes p (fetch_page env run_id state p)
  unfolding fetch_page
  fetch_page-Writes p = record {
    at = λ w h.
        let f = fetch_batch-Frame env state p.offset in
        (fetched-Writes p (fetch_batch env state p.offset w).0).at
          (fetch_batch env state p.offset w).1 (rw (f.manifest w, f.checkpoints w) h);
  }

  looked_up :
      (p : Progress) (found : Option BatchRecord)
      → Triple
          (λ w.
            Ready env run_id state p w
            × (find_persisted (get_batch_id run_id state p.offset) w.manifest ≡ found))
          (recover_or_fetch env run_id state p found)
          (Turned env run_id state)
          (Raised env run_id state)
  unfolding recover_or_fetch
  looked_up p none = Triple-weaken _ (fetch_page-Writes p) (λ w h. ((h.0).0, (h.0).1, h.1))
  looked_up p (some r) = recover_batch-Triple env run_id state p r

  -- the test for a shutdown in front of the rest of a turn
  guarded :
      (p : Progress) (m : Action Store Turn)
      → Triple (Ready env run_id state p) m (Turned env run_id state) (Raised env run_id state)
      → Triple
          (Ready env run_id state p)
          (is_shutdown_requested env >>= λ stop. stop_or env run_id state p stop m)
          (Turned env run_id state)
          (Raised env run_id state)
  unfolding stop_or
  guarded p m h =
      Triple-bind (λ _. Ready env run_id state p) _ _
        (Frame-Triple (λ lines cps. Stored run_id state lines cps × Good run_id state lines p)
          (Raised env run_id state) _ (is_shutdown_requested-Frame env) (λ e w k. k.0))
        (λ stop.
          Triple-branch stop _ _
            (λ _. give_up-Triple env run_id state p "SHUTDOWN_REQUESTED" "SHUTDOWN" "" 0 none)
            (λ _. h))

  -- Every turn of the loop keeps the invariant.
  pub turn-Triple :
      (p : Progress)
      → Triple
          (Ready env run_id state p)
          (turn env run_id state p)
          (Turned env run_id state)
          (Raised env run_id state)
  unfolding turn get_persisted_batch
  turn-Triple p = guarded p _ (
      guarded p _ (
        Triple-bind
          (λ found w.
            Ready env run_id state p w
            × (find_persisted (get_batch_id run_id state p.offset) w.manifest ≡ found))
          (gets (get_persisted_batch run_id state p.offset)) (recover_or_fetch env run_id state p)
          (Triple-gets _ (λ w h. (h, refl))) (looked_up p)))
