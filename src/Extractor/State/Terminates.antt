-- ===== src/Extractor/State/Terminates.antt =====
-- The loop of `extract_state` ends.
use udhyam_msme_extractor.Prelude.{
  String, ◌≡◌, refl, ap, Bool, false, Option, none, some, ℕ, zero, suc, ◌+◌, ◌<◌, ◌≤◌, ◌≢◌, arith,
  not, get_or,
}
use udhyam_msme_extractor.Prelude.Text.{is_blank}
use udhyam_msme_extractor.Prelude.Int.{ℤ, pos, negsuc}
use udhyam_msme_extractor.Records.{BatchRecord}
use udhyam_msme_extractor.Exec.{Result, ok, err, pure, gets}
use udhyam_msme_extractor.Exec.Triple.{
  Triple, Post, Triple-pure, Triple-gets, Triple-weaken, Triple-post, Triple-branch, Triple-bind,
}
use udhyam_msme_extractor.Storage
use udhyam_msme_extractor.Extractor.Env.{
  Env, World, Action, Exn, out_of_fuel, Checkpoint, is_shutdown_requested, failed,
}
use udhyam_msme_extractor.Extractor.Manifest.{get_batch_id, find_persisted, get_persisted_batch}
use udhyam_msme_extractor.Extractor.Checkpoints.{load_checkpoint, save_checkpoint}
use udhyam_msme_extractor.Extractor.State.{
  Progress, Turn, next, finished, updated, save_and_return, conclude, reached, recovered,
  recover_count, recover_batch, recover_or_fetch, stop_or, turn, continue, loop, start, resume,
  extract_state, is_completed, fetch_page, positive_count,
}
use udhyam_msme_extractor.Extractor.State.Invariant.{Lines}
use udhyam_msme_extractor.Extractor.State.Ends.{
  Real, Announces, EndsWithin, fetch_page-Ends, Stops-end, give_up-Stops, conclude-Stops, save-Calm,
  save_and_return-Stops, below,
}

abbrev raised_or : Result Exn Checkpoint → Exn
raised_or (ok cp) = out_of_fuel
raised_or (err x) = x

un_err : {x y : Exn} → ◌≡◌ {A = Result Exn Checkpoint} (err x) (err y) → x ≡ y
un_err h = ap raised_or h

module _ {Store : Type 0} (env : Env Store) (run_id state : String) (bound : ℕ) where
  -- No batch from offset `bound` on is in the manifest.
  abbrev pub Beyond : Lines → Type 0
  Beyond lines =
      (offset : ℕ) → bound ≤ offset → find_persisted (get_batch_id run_id state offset) lines ≡ none

  -- `left` further turns are enough, by what is known of the total
  abbrev Enough : ℕ → ℕ → ℕ → Option ℕ → Lines → Type 0
  Enough left offset written none lines =
      (bound ≤ offset + left) × (bound ≤ written + left) × Beyond lines
  Enough left offset written (some total) lines = total ≤ written + left

  abbrev Within : ℕ → Progress → World Store → Type 0
  Within left p w = Enough left p.offset p.written p.total w.manifest

  abbrev Left : ℕ → Turn → World Store → Type 0
  Left left (finished cp) w = Unit
  Left left (next p) w = (fewer : ℕ) × (left ≡ suc fewer) × Within fewer p w

  less : (a b c n : ℕ) → a < b → b < c → c ≤ a + n → (fewer : ℕ) × (n ≡ suc fewer) × (c ≤ b + fewer)
  less a b c zero h k l = grind (arith, h, k, l)
  less a b c (suc n) h k l = (n, refl, omega arith)

  cap :
      (left offset written : ℕ) (known : Option ℕ) (lines : Lines)
      → Enough left offset written known lines
      → get_or known bound ≤ written + left
  cap left offset written none lines h = h.1
  cap left offset written (some total) lines h = h

  fetched-Left :
      (left : ℕ) (p : Progress) (w : World Store)
      → Within left p w
      → (t : Turn) (v : World Store) → EndsWithin env run_id state bound p t v
      → Left left t v
  fetched-Left left p w h (finished cp) v k = tt
  fetched-Left left p w h (next q) v (total, (known, more, under), announced) =
      let enough = cap left p.offset p.written p.total w.manifest h in
      let (fewer, e, rest) =
        less p.written q.written total left more under (omega (arith, announced, enough)) in
      (fewer, e, rw known rest)

  fetch_page-Left :
      (left : ℕ)
      → Announces env run_id state bound
      → (p : Progress) → Triple (Within left p) (fetch_page env run_id state p) (Left left) Real
  fetch_page-Left left announces p = record {
    at = λ w h.
        (Triple-post (EndsWithin env run_id state bound p) Real (fetch_page env run_id state p)
            (fetch_page-Ends env run_id state bound announces p) (fetched-Left left p w h)
            (λ e v r. r)).at
          w tt;
  }

  abbrev FoundAt : ℕ → BatchRecord → Lines → Type 0
  FoundAt offset r lines = find_persisted (get_batch_id run_id state offset) lines ≡ some r

  recovered-Enough :
      (left offset written count : ℕ) (known : Option ℕ) (lines : Lines) (r : BatchRecord)
      → Enough left offset written known lines
      → FoundAt offset r lines
      → 0 < count
      → reached known (written + count) ≡ false
      → (fewer : ℕ) × (left ≡ suc fewer)
        × Enough fewer (offset + count) (written + count) known lines
  recovered-Enough left offset written count (some total) lines r h f positive going =
      less written (written + count) total left (omega (arith, positive))
        (below env run_id state (some total) (written + count) total refl going) h
  recovered-Enough zero offset written count none lines r h f positive going =
      let no : find_persisted (get_batch_id run_id state offset) lines ≡ none =
        h.2 offset (omega (arith, h.0)) in
      cc (no, f)
  recovered-Enough (suc fewer) offset written count none lines r h f positive going =
      (fewer, refl, (omega (arith, h.0, positive), omega (arith, h.1, positive), h.2))

  abbrev Found : ℕ → Progress → BatchRecord → World Store → Type 0
  Found left p r w = Within left p w × FoundAt p.offset r w.manifest

  positive_lem : (n : Option ℤ) (count : ℕ) → positive_count n ≡ some count → 0 < count
  unfolding positive_count
  positive_lem none count h = cc
  positive_lem (some (pos zero)) count h = cc
  positive_lem (some (pos (suc n))) count h = ground arith
  positive_lem (some (negsuc n)) count h = cc

  recover_count-Left :
      (left : ℕ) (p : Progress) (r : BatchRecord) (count : Option ℕ)
      → positive_count r.record_count ≡ count
      → Triple (Found left p r) (recover_count env run_id state p count) (Left left) Real
  unfolding recover_count recovered updated
  recover_count-Left left p r none e =
      Stops-end env run_id state (save_and_return env run_id state (updated p failed))
        (save_and_return-Stops env run_id state (updated p failed)) (λ cp w. tt)
  recover_count-Left left p r (some count) e =
      let p' = recovered env run_id state p count in
      Triple-bind {A = Unit {0}} (λ _. Found left p r) (save_checkpoint env state p'.cp) _
        (save-Calm env run_id state p'.cp
          (λ lines. Enough left p.offset p.written p.total lines × FoundAt p.offset r lines))
        (λ _.
          Triple-branch (reached p'.total p'.written) (conclude env run_id state p')
            (pure (next p'))
            (λ _.
              Stops-end env run_id state (conclude env run_id state p')
                (conclude-Stops env run_id state p') (λ cp w. tt))
            (λ going. Triple-pure (next p') (λ w h.
              recovered-Enough left p.offset p.written count p.total w.manifest r h.0 h.1
                (positive_lem r.record_count count e) going)))

  recover_batch-Left :
      (left : ℕ) (p : Progress) (r : BatchRecord)
      → Triple (Found left p r) (recover_batch env run_id state p r) (Left left) Real
  unfolding recover_batch
  recover_batch-Left left p r =
      Triple-bind {A = Bool × String} (λ _. Found left p r)
        (gets (λ w.
          Storage.validate_artifact env.client env.sha256 env.backend r.batch_file r.checksum
            w.shelf))
        _ (Triple-gets _ (λ w h. h))
        (λ valid.
          Triple-branch (not (is_blank valid.1)) _ _
            (λ _.
              Stops-end env run_id state _
                (give_up-Stops env run_id state p "BATCH_ARTIFACT_INVALID" "ARTIFACT_VALIDATION"
                  valid.1 0 none)
                (λ cp w. tt))
            (λ _. recover_count-Left left p r (positive_count r.record_count) refl))

  stop_or-Left :
      (left : ℕ) (p : Progress) (stop : Bool) (rest : Action Store Turn)
      → Triple (Within left p) rest (Left left) Real
      → Triple (Within left p) (stop_or env run_id state p stop rest) (Left left) Real
  unfolding stop_or
  stop_or-Left left p stop rest h =
      Triple-branch stop _ rest
        (λ _.
          Stops-end env run_id state _
            (give_up-Stops env run_id state p "SHUTDOWN_REQUESTED" "SHUTDOWN" "" 0 none)
            (λ cp w. tt))
        (λ _. h)

  recover_or_fetch-Left :
      (left : ℕ)
      → Announces env run_id state bound
      → (p : Progress) (o : Option BatchRecord)
      → Triple
          (λ w.
            Within left p w × (find_persisted (get_batch_id run_id state p.offset) w.manifest ≡ o))
          (recover_or_fetch env run_id state p o)
          (Left left)
          Real
  unfolding recover_or_fetch
  recover_or_fetch-Left left announces p (some r) = recover_batch-Left left p r
  recover_or_fetch-Left left announces p none =
      Triple-weaken _ (fetch_page-Left left announces p) (λ w h. h.0)

  is_shutdown_requested-Within :
      (left : ℕ) (p : Progress)
      → Triple (Within left p) (is_shutdown_requested env) (λ _. Within left p) Real
  unfolding is_shutdown_requested
  is_shutdown_requested-Within left p = record { at = λ w h. h }

  turn-Left :
      (left : ℕ)
      → Announces env run_id state bound
      → (p : Progress) → Triple (Within left p) (turn env run_id state p) (Left left) Real
  unfolding turn get_persisted_batch
  turn-Left left announces p =
      Triple-bind (λ _. Within left p) (is_shutdown_requested env) _
        (is_shutdown_requested-Within left p)
        (λ stop. stop_or-Left left p stop _ (
          Triple-bind (λ _. Within left p) (is_shutdown_requested env) _
            (is_shutdown_requested-Within left p)
            (λ again. stop_or-Left left p again _ (
              Triple-bind
                (λ o w.
                  Within left p w
                  × (find_persisted (get_batch_id run_id state p.offset) w.manifest ≡ o))
                (gets (get_persisted_batch run_id state p.offset))
                (recover_or_fetch env run_id state p) (Triple-gets _ (λ w h. (h, refl)))
                (recover_or_fetch-Left left announces p)))))

  abbrev Ended : Checkpoint → World Store → Type 0
  Ended cp w = Unit

  continue-Ended :
      (left : ℕ) (again : Progress → Action Store Checkpoint)
      → ((fewer : ℕ)
          → left ≡ suc fewer
          → (p : Progress) → Triple (Within fewer p) (again p) Ended Real)
      → (t : Turn) → Triple (Left left t) (continue env run_id state again t) Ended Real
  unfolding continue
  continue-Ended left again h (finished cp) = Triple-pure cp (λ w k. tt)
  continue-Ended left again h (next p) = record { at = λ w (fewer, e, k). (h fewer e p).at w k }

  -- one turn more than the counters need
  loop-Ended :
      (left : ℕ)
      → Announces env run_id state bound
      → (fuel : ℕ) → left < fuel
      → (p : Progress) → Triple (Within left p) (loop env run_id state fuel p) Ended Real
  unfolding loop
  loop-Ended left announces zero h p = grind (arith, h)
  loop-Ended left announces (suc fuel) h p =
      Triple-bind (Left left) (turn env run_id state p)
        (continue env run_id state (loop env run_id state fuel)) (turn-Left left announces p)
        (continue-Ended left (loop env run_id state fuel)
          (λ fewer e q. loop-Ended fewer announces fuel (omega (arith, h, e)) q))

  -- what is known of the total before the run
  abbrev pub KnownWithin : Option ℕ → Lines → Type 0
  KnownWithin none lines = Beyond lines
  KnownWithin (some total) lines = total ≤ bound

  known-Enough :
      (offset written : ℕ) (known : Option ℕ) (lines : Lines)
      → KnownWithin known lines
      → Enough bound offset written known lines
  known-Enough offset written none lines h = (omega arith, omega arith, h)
  known-Enough offset written (some total) lines h = omega (arith, h)

  start-Ended :
      (fuel : ℕ)
      → Announces env run_id state bound
      → bound < fuel
      → (cp : Checkpoint)
      → Triple
          (λ w. KnownWithin cp.total_records w.manifest)
          (start env run_id state fuel cp)
          Ended
          Real
  unfolding start resume
  start-Ended fuel announces h cp =
      let p = resume run_id state cp in
      Triple-branch (is_completed cp.status) _ _ (λ _. Triple-pure cp (λ w k. tt))
        (λ _.
          Triple-bind {A = Unit {0}} (λ _ w. KnownWithin cp.total_records w.manifest)
            (save_checkpoint env state p.cp) (λ _. loop env run_id state fuel p)
            (save-Calm env run_id state p.cp (KnownWithin cp.total_records))
            (λ _. Triple-weaken _ (loop-Ended bound announces fuel h p) (λ w k.
              known-Enough cp.last_completed_offset cp.records_written cp.total_records w.manifest
                k)))

  -- The loop of `extract_state` ends, whatever the API, the disk and the bucket do: if the API never
  -- announces more than `bound` records, and the checkpoint that the run starts from has a total
  -- within the bound or, with no total yet, the manifest has no batch of the state from offset
  -- `bound` on, then any number of turns above `bound` is enough. The run then returns a checkpoint or
  -- raises an exception of its own.
  pub extract_state-Ends :
      (fuel : ℕ) (w : World Store)
      → Announces env run_id state bound
      → KnownWithin (load_checkpoint run_id state w).total_records w.manifest
      → bound < fuel
      → (extract_state env run_id state fuel w).0 ≢ err out_of_fuel
  unfolding extract_state
  extract_state-Ends fuel w announces known enough =
      returned (start env run_id state fuel (load_checkpoint run_id state w) w).0
        (start env run_id state fuel (load_checkpoint run_id state w) w).1
        ((start-Ended fuel announces enough (load_checkpoint run_id state w)).at w known)
    where
      returned :
          (r : Result Exn Checkpoint) (v : World Store)
          → Post Ended Real (r, v)
          → r ≢ err out_of_fuel
      returned (ok cp) v h e = cc
      returned (err x) v h e = h (un_err e)
