-- ===== src/Loader/Compacted/Again.antt =====
-- `process_compacted_file` once more for a file that it has loaded: what the second run finds in the
-- tables, and what it does then.
use udhyam_msme_extractor.Prelude.{
  String, ◌≡◌, refl, subst, sym, ap, ◌∙◌, ◌⊎◌, inl, inr, Option, some, List, [], ◌∷◌, map, All, ℕ,
  ◌+◌, ◌-◌, arith,
}
use udhyam_msme_extractor.Records.{ManifestRecord}
use udhyam_msme_extractor.Exec.{Result, ok, err}
use udhyam_msme_extractor.Exec
use udhyam_msme_extractor.Exec.Triple.{Post, Post-map}
use udhyam_msme_extractor.Loader.Warehouse.{
  Warehouse, LoaderError, LedgerRow, RawRows, database, selected,
}
use udhyam_msme_extractor.Loader.Checks.{Entry, File, check_file, ◌>>=◌, ◌>>◌}
use udhyam_msme_extractor.Loader.Checks.Unique.{Distinct, Sane}
use udhyam_msme_extractor.Loader.Plan.{InFull}
use udhyam_msme_extractor.Loader.Compacted.{
  plan, prepare, verify, reconcile, ledger_checks, update_of, loaded_updates, failed_updates,
  record_failure, load, load_prepared, process_compacted_file, raised, undo, copy_compacted_file,
}
use udhyam_msme_extractor.Loader.Compacted.Loads.{
  Committed, Outcome, process_compacted_file-Outcome,
}
use udhyam_msme_extractor.Loader.Compacted.Settled.{
  written_row, Faithful, update, Distinct-Unique, InLedger, AllFull, ledger_checks-again,
  verify-again, plan-again,
}

module _ {Db : Type 0} (warehouse : Warehouse Db) where
  -- How a run can fail over tables `d` in which its file is loaded: with an exception of the connector,
  -- before anything was written or with a rollback.
  abbrev pub Refused : Db → LoaderError → Db → Type 0
  Refused d e d' =
      (m : String) × (e ≡ database m)
      × ((d' ≡ d) ⊎ ((mid : Db) × ((warehouse.rollback mid).1 ≡ d')))

  module _ (run_id : String) (r : ManifestRecord) (f : File) (d : Db) where
    -- what is read of the tables has every batch of the file
    record Settled : Type 0 where
      listed :
          (statuses : String → Option LedgerRow)
          → warehouse.ledger d ≡ ok statuses
          → InLedger f statuses f.entries
      held :
          (rows : String → Option RawRows)
          → warehouse.raw d f.run_id ≡ ok rows
          → AllFull rows f.entries

    -- a value, or an exception of the connector
    abbrev Ok : {A : Type 0} → (A → Type 0) → Result LoaderError A → Type 0
    Ok P (ok a) = P a
    Ok P (err e) = (m : String) × (e ≡ database m)

    prepare-steps :
        Settled
        → (q : Result String (String → Option LedgerRow)) → warehouse.ledger d ≡ q
        → (q' : Result String (String → Option RawRows)) → warehouse.raw d f.run_id ≡ q'
        → Ok {A = File × List Entry}
            (λ p. p ≡ (f, []))
            (do
              statuses ← selected q
              ledger_checks statuses f.entries
              rows ← selected q'
              to_load ← plan statuses rows f.entries
              ok (f, to_load))
    prepare-steps s (err m) e q' e' = (m, refl)
    prepare-steps s (ok statuses) e (err m) e' =
        rw (ledger_checks-again f statuses f.entries (s.listed statuses e)) (m, refl)
    prepare-steps s (ok statuses) e (ok rows) e' =
        rw
          (
            ledger_checks-again f statuses f.entries (s.listed statuses e),
            plan-again statuses rows f.entries (s.held rows e'),
          )
          refl

    prepare-again :
        check_file run_id r ≡ ok f → Settled → Ok (λ p. p ≡ (f, [])) (prepare warehouse run_id r d)
    unfolding prepare
    prepare-again c s =
        rw (prepare, c) (prepare-steps s (warehouse.ledger d) refl (warehouse.raw d f.run_id) refl)

    reconcile-again : Settled → Ok (λ _. Unit) (reconcile warehouse f d)
    unfolding reconcile
    reconcile-again s = steps (warehouse.raw d f.run_id) refl
      where
        steps :
            (q : Result String (String → Option RawRows))
            → warehouse.raw d f.run_id ≡ q
            → Ok (λ _. Unit) (selected q >>= λ rows. verify rows f.entries)
        steps (err m) e = (m, refl)
        steps (ok rows) e = rw (verify-again rows f.entries (s.held rows e)) tt

    -- what a run returns and leaves that inserts nothing
    abbrev pub Kept : ℕ × ℕ → Db → Type 0
    Kept n d' =
        (n ≡ (0, f.rows))
        × (mid : Db) × (warehouse.merge (loaded_updates f) d ≡ (ok tt, mid))
        × (warehouse.commit mid ≡ (ok tt, d'))

    -- the second run's transaction: it fails in a statement, or it is committed
    abbrev Ended : Result LoaderError (Unit {0}) × Db → Type 0
    Ended (ok u, d') =
        (mid : Db) × (warehouse.merge (loaded_updates f) d ≡ (ok tt, mid))
        × (warehouse.commit mid ≡ (ok tt, d'))
    Ended (err e, d') = (m : String) × (e ≡ database m)

    commit-Ended :
        (mid : Db)
        → warehouse.merge (loaded_updates f) d ≡ (ok tt, mid)
        → (q : Result String (Unit {0}) × Db) → warehouse.commit mid ≡ q
        → Ended (raised warehouse (λ _. q) mid)
    unfolding raised
    commit-Ended mid e (ok u, d2) c = (mid, e, c)
    commit-Ended mid e (err m, d2) c = (m, refl)

    merge-Ended :
        (q : Result String (Unit {0}) × Db)
        → warehouse.merge (loaded_updates f) d ≡ q
        → Ended (Exec.◌>>◌ (raised warehouse (λ _. q)) (raised warehouse warehouse.commit) d)
    unfolding raised
    merge-Ended (ok u, d1) e = commit-Ended d1 e (warehouse.commit d1) refl
    merge-Ended (err m, d1) e = (m, refl)

    checked-Ended :
        (q : Result LoaderError (Unit {0}))
        → Ok (λ _. Unit) q
        → Ended (
            Exec.◌>>◌
              (λ x. (q, x))
              (Exec.◌>>◌
                (raised warehouse (warehouse.merge (loaded_updates f)))
                (raised warehouse warehouse.commit))
              d)
    unfolding raised
    checked-Ended (ok u) h = merge-Ended (warehouse.merge (loaded_updates f) d) refl
    checked-Ended (err e) h = h

    load-Ended : Settled → Ended (load warehouse f [] d)
    unfolding load copy_compacted_file
    load-Ended s = checked-Ended (reconcile warehouse f d) (reconcile-again s)

    undo-Refused :
        (e : LoaderError) (m : String) (d' : Db)
        → e ≡ database m
        → (q : Result String (Unit {0}) × Db) → warehouse.rollback d' ≡ q
        → Post {A = Unit {0}}
            (λ _ _. ⊥)
            (Refused d)
            (Exec.◌>>◌
              (raised warehouse (λ _. q))
              (Exec.◌>>◌ (record_failure warehouse (failed_updates f [])) (Exec.raise e))
              d')
    unfolding raised record_failure failed_updates
    undo-Refused e m d' h (ok u, d2) k = (m, h, inr (d', ap (λ p. p.1) k))
    undo-Refused e m d' h (err m', d2) k = (m', refl, inr (d', ap (λ p. p.1) k))

    after_undo :
        (q : Result LoaderError (Unit {0}) × Db) (n : ℕ × ℕ)
        → Post {A = Unit {0}} (λ _ _. ⊥) (Refused d) q
        → Post Kept (Refused d) (Exec.◌>>◌ (λ _. q) (Exec.pure n) d)
    after_undo (ok u, d') n h = absurd h
    after_undo (err e, d') n h = h

    Ended-Kept :
        (q : Result LoaderError (Unit {0}) × Db)
        → Ended q
        → Post Kept
            (Refused d)
            (Exec.◌>>◌ (Exec.handle (λ _. q) (undo warehouse f [])) (Exec.pure (0, f.rows - 0)) d)
    unfolding undo raised
    Ended-Kept (ok u, d') (mid, m, c) =
        let rows : f.rows - 0 ≡ f.rows = omega arith in (ap (λ n. (0, n)) rows, mid, m, c)
    Ended-Kept (err e, d') (m, h) =
        after_undo (undo warehouse f [] e d') (0, f.rows - 0)
          (undo-Refused e m d' h (warehouse.rollback d') refl)

    load_prepared-again : Settled → Post Kept (Refused d) (load_prepared warehouse (f, []) d)
    unfolding load_prepared raised
    load_prepared-again s = Ended-Kept (load warehouse f [] d) (load-Ended s)

    -- a run over tables in which the file is loaded
    settled-again :
        check_file run_id r ≡ ok f
        → Settled
        → Post Kept (Refused d) (process_compacted_file warehouse run_id r d)
    unfolding process_compacted_file
    settled-again c s = steps (prepare warehouse run_id r d) (prepare-again c s)
      where
        steps :
            (q : Result LoaderError (File × List Entry))
            → Ok (λ p. p ≡ (f, [])) q
            → Post Kept (Refused d) (elim q as (λ _. Result LoaderError (ℕ × ℕ) × Db) [
              | ok p ↦ load_prepared warehouse p d
              | err e ↦ (err e, d)
            ])
        steps (ok p) h =
            subst (λ p. Post Kept (Refused d) (load_prepared warehouse p d)) (sym h)
              (load_prepared-again s)
        steps (err e) (m, h) = (m, h, inl refl)

module _ {Db : Type 0} (warehouse : Warehouse Db) (faithful : Faithful warehouse) where
  listed_again :
      (f : File) (statuses : String → Option LedgerRow) (es : List Entry)
      → All (λ u. statuses u.batch_id ≡ some (written_row u)) (map (update f) es)
      → InLedger f statuses es
  unfolding update_of
  listed_again f statuses [] h = tt
  listed_again f statuses (e ∷ es) (h, hs) = (h, listed_again f statuses es hs)

  held_again :
      (rows rows' : String → Option RawRows) (es : List Entry)
      → ((id : String) → rows' id ≡ rows id)
      → AllFull rows es
      → AllFull rows' es
  held_again rows rows' [] k h = tt
  held_again rows rows' (e ∷ es) k (h, hs) =
      (subst (InFull e) (sym (k e.batch_id)) h, held_again rows rows' es k hs)

  module _ (run_id : String) (r : ManifestRecord) (db db' : Db) (loaded before : ℕ) where
    committed-Settled :
        (f : File) (to_load : List Entry)
        → Sane run_id r f
        → Committed warehouse f to_load db db'
        → Settled warehouse run_id r f db'
    unfolding loaded_updates
    committed-Settled f to_load sane c =
        let distinct : Distinct f.run_id f.state [] f.entries =
          subst (λ x. Distinct x f.state [] f.entries) (sym sane.of_run) sane.checked.1 in
        record {
          listed = λ statuses e. listed_again f statuses f.entries (
              faithful.stored (loaded_updates f) c.filled c.merged db' statuses
                (Distinct-Unique f [] f.entries distinct) c.recorded c.committed e);
          held = λ rows' e.
              let (rows, shown, full) = c.in_raw in
              held_again rows rows' f.entries
                (faithful.untouched (loaded_updates f) c.filled c.merged db' f.run_id rows rows'
                  c.recorded c.committed shown e)
                full;
        }

    -- nothing is loaded, and what was loaded or there before is there now
    abbrev pub NothingNew : ℕ × ℕ → Db → Type 0
    NothingNew n d =
        (n ≡ (0, loaded + before))
        × ((rows rows' : String → Option RawRows)
            → warehouse.raw db' run_id ≡ ok rows
            → warehouse.raw d run_id ≡ ok rows'
            → (id : String) → rows' id ≡ rows id)

    again :
        Outcome warehouse run_id r db (ok (loaded, before)) db'
        → Post NothingNew (Refused warehouse db') (process_compacted_file warehouse run_id r db')
    again ((f, to_load), prepared, c, counts) =
        Post-map (Kept warehouse run_id r f db') NothingNew (Refused warehouse db')
          (Refused warehouse db') (process_compacted_file warehouse run_id r db')
          (settled-again warehouse run_id r f db' prepared.checked
            (committed-Settled f to_load prepared.sane c))
          (λ n d (e, mid, m, k). (
            e ∙ ap (λ x. (0, x)) (sym counts.1),
            subst
                (λ x.
                  (rows rows' : String → Option RawRows)
                  → warehouse.raw db' x ≡ ok rows
                  → warehouse.raw d x ≡ ok rows'
                  → (id : String) → rows' id ≡ rows id)
                prepared.sane.of_run
                (λ rows rows' a b.
                  faithful.untouched (loaded_updates f) db' mid d f.run_id rows rows' m k a b),
          ))
          (λ e d h. h)

    -- If a compacted file was loaded, and it is processed once more in the tables that this left, then
    -- no check refuses it: the run returns that no rows were loaded and that all the rows of the first
    -- run's count were there before, and what RAW shows of the run's batches is what it showed. Or the run fails with an exception of the connector; then nothing was written, or the
    -- last statement was a rollback. Assumed is that a MERGE with unique keys and its COMMIT store the
    -- rows of the keys in the ledger and leave RAW as it is.
    pub process_compacted_file-again :
        process_compacted_file warehouse run_id r db ≡ (ok (loaded, before), db')
        → Post NothingNew (Refused warehouse db') (process_compacted_file warehouse run_id r db')
    process_compacted_file-again e = again (
        subst
          (Post (λ n. Outcome warehouse run_id r db (ok n))
            (λ e. Outcome warehouse run_id r db (err e)))
          e (process_compacted_file-Outcome warehouse run_id r db))
