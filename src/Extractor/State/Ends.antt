-- ===== src/Extractor/State/Ends.antt =====
-- What a turn that fetches a page makes of the counters: it ends the loop or gets closer to the
-- total. No action raises for want of fuel.
use udhyam_msme_extractor.Prelude.{
  String, ◌≡◌, refl, ap, Bool, true, false, Option, none, some, List, [], ◌∷◌, ℕ, ◌+◌, ◌<◌, ◌≤◌,
  ◌≢◌, arith, is_empty, length, not, ◌==◌, is_some, get_or, ltb, ◌||◌, ◌&&◌, if◌then◌else◌,
}
use udhyam_msme_extractor.Exec.{Result, ok, err, pure, raise, branch, gets, modify, ◌>>=◌, ◌>>◌}
use udhyam_msme_extractor.Exec.Triple.{
  Triple, Post, Triple-pure, Triple-raise, Triple-gets, Triple-weaken, Triple-post, Triple-branch,
  Triple-bind,
}
use udhyam_msme_extractor.Storage
use udhyam_msme_extractor.Storage.Disk.{node_at, write_node}
use udhyam_msme_extractor.Records.{table, Node, file, directory}
use udhyam_msme_extractor.Extractor.Env.{
  Env, World, Action, ExtractionError, advance, Row, Response, Exn, extraction, storage, os_error,
  out_of_fuel, Checkpoint, failed, durable, on_shelf,
}
use udhyam_msme_extractor.Extractor.Fetch.{fetch_batch, records_of, total_of}
use udhyam_msme_extractor.Extractor.Fetch.Pages.{fetch_batch-Served, Served, Failed}
use udhyam_msme_extractor.Extractor.Manifest.{write_batch_manifest}
use udhyam_msme_extractor.Extractor.Manifest.Appends.{write_batch_manifest-Real}
use udhyam_msme_extractor.Extractor.Checkpoints.{
  store_checkpoint, save_checkpoint, mark_state_failed,
}
use udhyam_msme_extractor.Extractor.Batches.{
  csv_of, hash_node, write_batch_file, calculate_file_sha256, cleanup_published_staged_batch,
  batch_output_path, staging_path,
}
use udhyam_msme_extractor.Extractor.State.{
  Progress, Turn, next, finished, updated, give_up, save_and_return, conclude, reached, recovered,
  record_batch, published, persist_at, persist_batch, with_total, process_page, fetch_failed,
  fetched, fetch_page, is_local,
}
use udhyam_msme_extractor.Extractor.State.Invariant.{Lines}

module _ {Store : Type 0} where
  -- an exception of the code itself
  abbrev pub Real : Exn → World Store → Type 0
  Real e w = e ≢ out_of_fuel

  -- code that keeps the manifest, and raises nothing but exceptions of its own
  abbrev pub Calm : {A : Type 0} → Action Store A → Type 1
  Calm {A = A} m = (R : Lines → Type 0) → Triple (λ w. R w.manifest) m (λ _ w. R w.manifest) Real

  -- code that may change anything
  abbrev pub Quiet : {A : Type 0} → Action Store A → Type 0
  Quiet m = Triple (λ _. Unit {0}) m (λ _ _. Unit {0}) Real

not_extraction : (x : ExtractionError) → extraction x ≢ out_of_fuel
not_extraction x h = cc

not_storage : (x : String) → storage x ≢ out_of_fuel
not_storage x h = cc

not_os_error : os_error ≢ out_of_fuel
not_os_error h = cc

module _ {Store A : Type 0} where
  pub raise-Real :
      {P : World Store → Type 0} {Q : A → World Store → Type 0} (e : Exn)
      → e ≢ out_of_fuel
      → Triple P (raise e) Q Real
  raise-Real e h = Triple-raise e (λ w k. h)

  -- a quiet action, and then the rest
  pub then-Quiet :
      {B : Type 0} {Q : B → World Store → Type 0} (m : Action Store A) (f : A → Action Store B)
      → Quiet m
      → ((a : A) → Triple (λ _. Unit {0}) (f a) Q Real)
      → Triple (λ _. Unit {0}) (m >>= f) Q Real
  then-Quiet m f h k = Triple-bind (λ _ _. Unit {0}) m f h k

module _ {Store : Type 0} (env : Env Store) (run_id state : String) where
  durable-Calm : Calm (durable env)
  unfolding durable
  durable-Calm R = record { at = λ w h. written (env.disk w.tick) (advance w) h }
    where
      written :
          (b : Bool) (w : World Store)
          → R w.manifest
          → Post (λ _ w. R w.manifest) Real (if b then ok tt else err os_error, w)
      written true w h = h
      written false w h = not_os_error

  pub save-Calm : (cp : Checkpoint) → Calm (save_checkpoint env state cp)
  unfolding save_checkpoint
  save-Calm cp R =
      Triple-bind {A = Unit {0}} (λ _ w. R w.manifest) (durable env)
        (λ _. modify (store_checkpoint state cp)) (durable-Calm R) (λ _. record { at = λ w h. h })

  quiet : {A : Type 0} (m : Action Store A) → Calm m → Quiet m
  quiet m h = h (λ _. Unit {0})

  -- how a turn ends: the loop stops, or the counters move on below the total
  abbrev pub Ends : ℕ → ℕ → Turn → World Store → Type 0
  Ends total written (finished cp) w = Unit
  Ends total written (next p) w =
      (p.total ≡ some total) × (written < p.written) × (p.written < total)

  -- a turn that stops the loop
  abbrev pub Stops : Turn → World Store → Type 0
  Stops (finished cp) w = Unit
  Stops (next p) w = ⊥

  pub save_and_return-Stops :
      (cp : Checkpoint) → Triple (λ _. Unit {0}) (save_and_return env run_id state cp) Stops Real
  unfolding save_and_return
  save_and_return-Stops cp =
      then-Quiet (save_checkpoint env state cp) _ (quiet _ (save-Calm cp))
        (λ _. Triple-pure (finished cp) (λ w h. tt))

  pub conclude-Stops :
      (p : Progress) → Triple (λ _. Unit {0}) (conclude env run_id state p) Stops Real
  unfolding conclude
  conclude-Stops p = save_and_return-Stops _

  pub give_up-Stops :
      (p : Progress) (reason stage detail : String) (retry_count : ℕ) (http_status : Option ℕ)
      → Triple
          (λ _. Unit {0})
          (give_up env run_id state p reason stage detail retry_count http_status)
          Stops
          Real
  unfolding give_up mark_state_failed
  give_up-Stops p reason stage detail retry_count http_status =
      then-Quiet
        (mark_state_failed env run_id state p.cp reason stage detail retry_count http_status) _
        (then-Quiet (save_checkpoint env state _) _ (quiet _ (save-Calm _))
          (λ _. Triple-pure _ (λ w h. tt)))
        (λ cp. Triple-pure (finished cp) (λ w h. tt))

  -- stopping is one way to end
  pub Stops-end :
      {P : World Store → Type 0} {Q : Turn → World Store → Type 0} (m : Action Store Turn)
      → Triple (λ _. Unit {0}) m Stops Real
      → ((cp : Checkpoint) (w : World Store) → Q (finished cp) w)
      → Triple P m Q Real
  Stops-end {Q = Q} m h k =
      Triple-post Stops Real m (Triple-weaken m h (λ w p. tt)) (λ t w s. ends t w s) (λ e w r. r)
    where
      ends : (t : Turn) (w : World Store) → Stops t w → Q t w
      ends (finished cp) w s = k cp w
      ends (next p) w s = elim s [ ]

  pub below : (total : Option ℕ) (n t : ℕ) → total ≡ some t → reached total n ≡ false → n < t
  unfolding reached
  below none n t e h = cc
  below (some s) n t e h =
      let same : s ≡ t = ap (λ o. get_or o 0) e in
      let less : n < s = ground arith in omega (arith, same, less)

  or_left : (a b : Bool) → (a || b) ≡ false → a ≡ false
  or_left a b h = ground arith

  record_batch-Ends :
      (p : Progress) (count : ℕ) (path checksum : String) (total : ℕ)
      → p.total ≡ some total
      → 0 < count
      → Triple
          (λ _. Unit {0})
          (record_batch env run_id state p count path checksum)
          (Ends total p.written)
          Real
  unfolding record_batch recovered updated
  record_batch-Ends p count path checksum total e positive =
      let p' = recovered env run_id state p count in
      let short = is_some p'.total && ltb count env.settings.batch_size in
      then-Quiet (write_batch_manifest env run_id state p.offset count path checksum) _
        (write_batch_manifest-Real env run_id state p.offset count path checksum)
        (λ _. then-Quiet (save_checkpoint env state p'.cp) _ (quiet _ (save-Calm p'.cp)) (λ _.
          Triple-branch (reached p'.total p'.written || short) (conclude env run_id state p')
            (pure (next p'))
            (λ _. Stops-end (conclude env run_id state p') (conclude-Stops p') (λ cp w. tt))
            (λ going. Triple-pure (next p') (λ w h. (
              e,
              omega (arith, positive),
              below p.total (p.written + count) total e (or_left _ short going),
            )))))

  give_up-Ends :
      (total : ℕ) (p : Progress) (reason stage detail : String)
      → Triple
          (λ _. Unit {0})
          (give_up env run_id state p reason stage detail 0 none)
          (Ends total p.written)
          Real
  give_up-Ends total p reason stage detail =
      Stops-end _ (give_up-Stops p reason stage detail 0 none) (λ cp w. tt)

  published-Ends :
      (p : Progress) (count : ℕ) (path checksum : String) (r : Result String String) (total : ℕ)
      → p.total ≡ some total
      → 0 < count
      → Triple
          (λ _. Unit {0})
          (published env run_id state p count path checksum r)
          (Ends total p.written)
          Real
  unfolding published cleanup_published_staged_batch
  published-Ends p count path checksum (err message) total e positive =
      give_up-Ends total p "STORAGE_UPLOAD_FAILED" "RAW_PERSISTENCE" message
  published-Ends p count path checksum (ok batch_file) total e positive =
      then-Quiet (branch (is_local env.backend) (pure tt) (cleanup_published_staged_batch env path))
        (λ _. record_batch env run_id state p count batch_file checksum)
        (Triple-branch (is_local env.backend) _ (cleanup_published_staged_batch env path)
          (λ _. Triple-pure tt (λ w h. tt)) (λ _. record { at = λ w h. tt }))
        (λ _. record_batch-Ends p count batch_file checksum total e positive)

  write_batch_file-Quiet :
      (path : String) (records : List Row) → Quiet (write_batch_file env path records)
  unfolding write_batch_file
  write_batch_file-Quiet path records =
      then-Quiet (durable env)
        (λ _.
          modify (λ w. record w { shelf = write_node path (table (csv_of records)) w.shelf })
          >> pure (length records))
        (quiet _ durable-Calm) (λ _. record { at = λ w h. tt })

  calculate_file_sha256-Quiet : (path : String) → Quiet (calculate_file_sha256 env path)
  unfolding calculate_file_sha256 hash_node
  calculate_file_sha256-Quiet path = record { at = λ w h. hashed (node_at path w.shelf) w }
    where
      hashed :
          (o : Option Node) (w : World Store)
          → Post (λ _ _. Unit {0}) Real (hash_node {Store = Store} env.sha256 o w)
      hashed (some (file body)) w = tt
      hashed (some directory) w = not_os_error
      hashed none w = not_os_error

  counted_all : (n m : ℕ) → not (n == m) ≡ false → 0 < m → 0 < n
  counted_all n m h k = ground arith

  persist_at-Ends :
      (p : Progress) (records : List Row) (path : String) (total : ℕ)
      → p.total ≡ some total
      → 0 < length records
      → Triple
          (λ _. Unit {0})
          (persist_at env run_id state p records path)
          (Ends total p.written)
          Real
  unfolding persist_at
  persist_at-Ends p records path total e positive =
      then-Quiet (write_batch_file env path records) _ (write_batch_file-Quiet path records) (λ n.
        Triple-branch (not (n == length records)) _ _
          (λ _.
            Stops-end (save_and_return env run_id state (updated p failed))
              (save_and_return-Stops (updated p failed)) (λ cp w. tt))
          (λ same.
            then-Quiet (calculate_file_sha256 env path) _ (calculate_file_sha256-Quiet path)
              (λ checksum.
                then-Quiet
                  (on_shelf (
                    Storage.publish_batch env.client env.sha256 env.backend path run_id state
                      p.offset checksum))
                  (published env run_id state p n path checksum) (record { at = λ w h. tt })
                  (λ r.
                    published-Ends p n path checksum r total e
                      (counted_all n (length records) same positive)))))

  persist_batch-Ends :
      (p : Progress) (records : List Row) (total : ℕ)
      → p.total ≡ some total
      → 0 < length records
      → Triple
          (λ _. Unit {0})
          (persist_batch env run_id state p records)
          (Ends total p.written)
          Real
  unfolding persist_batch
  persist_batch-Ends p records total e positive =
      let path = batch_output_path run_id state p.offset in
      Triple-branch (is_local env.backend) _ _
        (λ _. then-Quiet (gets (λ w. node_at path w.shelf)) _ (Triple-gets _ (λ w h. tt)) (λ found.
          Triple-branch (is_some found) _ _
            (λ _. give_up-Ends total p "ORPHAN_BATCH_ARTIFACT" "ARTIFACT_PERSISTENCE" path)
            (λ _. persist_at-Ends p records path total e positive)))
        (λ _. persist_at-Ends p records (staging_path run_id state p.offset) total e positive)

  nonempty : {A : Type 0} (xs : List A) → is_empty xs ≡ false → 0 < length xs
  nonempty [] h = cc
  nonempty (x ∷ xs) h = omega arith

  process_page-Ends :
      (p : Progress) (d : Response)
      → Triple
          (λ _. Unit {0})
          (process_page env run_id state p d)
          (Ends (get_or p.total (total_of d)) p.written)
          Real
  unfolding process_page with_total
  process_page-Ends p d =
      let p' = record p { total = some (get_or p.total (total_of d)) } in
      Triple-branch (is_empty (records_of d)) _ _
        (λ _. Stops-end _ (conclude-Stops p') (λ cp w. tt))
        (λ filled.
          persist_batch-Ends p' (records_of d) (get_or p.total (total_of d)) refl
            (nonempty (records_of d) filled))

  -- the API never announces more records than `bound`
  abbrev pub Announces : ℕ → Type 0
  Announces bound =
      (offset tick : ℕ) (d : Response)
      → (env.curl state offset tick).body ≡ some d
      → total_of d ≤ bound

  -- how a turn that fetches ends: with the total that was known, or with one that is announced
  abbrev pub EndsWithin : ℕ → Progress → Turn → World Store → Type 0
  EndsWithin bound p t w = (total : ℕ) × Ends total p.written t w × (total ≤ get_or p.total bound)

  within : (bound : ℕ) (known : Option ℕ) (n : ℕ) → n ≤ bound → get_or known n ≤ get_or known bound
  within bound none n h = h
  within bound (some t) n h = omega arith

  pub fetch_page-Ends :
      (bound : ℕ)
      → Announces bound
      → (p : Progress)
      → Triple (λ _. Unit {0}) (fetch_page env run_id state p) (EndsWithin bound p) Real
  unfolding fetch_page fetched fetch_failed
  fetch_page-Ends bound announces p = record {
    at = λ w h.
        after w (fetch_batch env state p.offset w).0 (fetch_batch env state p.offset w).1
          (fetch_batch-Served env state p.offset w);
  }
    where
      after :
          (w : World Store) (r : Result Exn Response) (w' : World Store)
          → Post
              (Served env state p.offset w.tick w.calls env.settings.max_retries)
              (Failed env state p.offset w.tick w.calls env.settings.max_retries)
              (r, w')
          → Post (EndsWithin bound p) Real (fetched env run_id state p r w')
      after w (ok d) w' (t, when, page, calls) =
          (Triple-post (Ends (get_or p.total (total_of d)) p.written) Real _ (process_page-Ends p d)
              (λ t' v k. (
                get_or p.total (total_of d),
                k,
                within bound p.total (total_of d) (announces p.offset t d page.3),
              ))
              (λ e v k. k)).at
            w' tt
      after w (err (extraction e)) w' h =
          (Stops-end {P = λ _. Unit {0}} {Q = EndsWithin bound p} _
              (give_up-Stops p e.reason e.stage e.detail e.retry_count e.http_status)
              (λ cp v. (0, tt, omega arith))).at
            w' tt
      after w (err (storage e)) w' h = not_storage e
      after w (err os_error) w' h = not_os_error
      after w (err out_of_fuel) w' h = elim h [ ]
