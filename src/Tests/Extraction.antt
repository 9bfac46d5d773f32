-- ===== src/Tests/Extraction.antt =====
-- Extraction and the run at concrete inputs.
use udhyam_msme_extractor.Prelude.{◌≡◌, ◌≢◌, ◌↔◌, refl, ap, true, [], ◌∷◌, ◌<◌, arith, get_or}
use udhyam_msme_extractor.Exec.{ok, err}
use udhyam_msme_extractor.Exec.Triple.{Post}
use udhyam_msme_extractor.Dict.{lookup}
use udhyam_msme_extractor.Prelude.Text.{to_str}
use udhyam_msme_extractor.Storage
use udhyam_msme_extractor.Storage.Local
use udhyam_msme_extractor.Storage.Disk.{node_at, write_node}
use udhyam_msme_extractor.Extractor.Batches.{batch_output_path}
use udhyam_msme_extractor.Extractor.Env.{durable, out_of_fuel}
use udhyam_msme_extractor.Extractor.Manifest.{
  find_persisted, get_batch_id, is_success_of, manifest_record, get_manifest_path,
}
use udhyam_msme_extractor.Extractor.Checkpoints.{load_checkpoint, fresh_checkpoint, or_fresh}
use udhyam_msme_extractor.Extractor.Fetch.{fetch_batch, total_of}
use udhyam_msme_extractor.Extractor.Fetch.Pages.{Served, Failed, fetch_batch-Served}
use udhyam_msme_extractor.Extractor.Fetch.Delay.{Bounded, retry_delay-Bounded}
use udhyam_msme_extractor.Extractor.State.{extract_state, reached}
use udhyam_msme_extractor.Extractor.State.Coverage.{Raised}
use udhyam_msme_extractor.Extractor.State.Runs.{Returned, begin, extract_state-Covers}
use udhyam_msme_extractor.Extractor.State.Ends.{Announces}
use udhyam_msme_extractor.Extractor.State.Terminates.{KnownWithin, extract_state-Ends}
use udhyam_msme_extractor.Run.{reconcile_run, summarize}
use udhyam_msme_extractor.Run.Reconcile.{
  Reconciled, IsReached, Agrees, reconcile_run-Reconciled, reconcile_run-completed,
  summarize-Agrees,
}
use udhyam_msme_extractor.Tests.Data.{env, world, settings, goa, page}

extract_state_runs : (extract_state env "r1" "GOA" 4 world).0 ≡ ok goa
unfolding extract_state fresh_checkpoint durable find_persisted node_at write_node batch_output_path
    get_batch_id to_str Storage.publish_batch Local.publish_batch Storage.sync_metadata
    Local.sync_metadata is_success_of manifest_record get_manifest_path
extract_state_runs = refl

extract_state-Covers_example :
    Post (Returned env "r1" "GOA") (Raised env "r1" "GOA") (extract_state env "r1" "GOA" 4 world)
unfolding lookup
extract_state-Covers_example = extract_state-Covers "r1" "GOA" env 4 world (begin world refl refl)

Announces-three : Announces env "r1" "GOA" 3
Announces-three offset tick d h =
    let e : 3 ≡ total_of d = ap (λ o. total_of (get_or o (page 0))) h in omega (arith, e)

nothing_known : KnownWithin env "r1" "GOA" 3 (load_checkpoint "r1" "GOA" world).total_records []
unfolding load_checkpoint fresh_checkpoint or_fresh lookup find_persisted
nothing_known offset h = refl

four : 3 < 4
four = omega arith

extract_state-Ends_example : (extract_state env "r1" "GOA" 4 world).0 ≢ err out_of_fuel
extract_state-Ends_example =
    extract_state-Ends env "r1" "GOA" 3 4 world Announces-three nothing_known four

fetch_batch-Served_example :
    Post
      (Served env "GOA" 0 world.tick 0 3)
      (Failed env "GOA" 0 world.tick 0 3)
      (fetch_batch env "GOA" 0 world)
fetch_batch-Served_example = fetch_batch-Served env "GOA" 0 world

retry_delay-Bounded_example : Bounded settings "RATE_LIMITED" 1 1
retry_delay-Bounded_example = retry_delay-Bounded settings "RATE_LIMITED" 1 1

reconcile_run-Reconciled_example :
    (reconcile_run (goa ∷ goa ∷ []) ≡ true) ↔ Reconciled (goa ∷ goa ∷ [])
reconcile_run-Reconciled_example = reconcile_run-Reconciled (goa ∷ goa ∷ [])

goa-IsReached : IsReached goa
unfolding reached
goa-IsReached = refl

reconcile_run-completed_example : reconcile_run (goa ∷ []) ≡ true
reconcile_run-completed_example =
    reconcile_run-completed (goa ∷ []) (goa-IsReached, tt) (omega arith) (refl, tt)

summarize-Agrees_example :
    Agrees
      (goa ∷ [])
      (summarize "r1" ("GOA" ∷ []) (goa ∷ [])).0
      (summarize "r1" ("GOA" ∷ []) (goa ∷ [])).1
summarize-Agrees_example = summarize-Agrees "r1" ("GOA" ∷ []) (goa ∷ [])
