-- ===== src/Loader/Compacted/Loads.antt =====
-- `process_compacted_file` on every path: refused, undone, or loaded and reconciled.
use udhyam_msme_extractor.Prelude.{
  String, ◌≡◌, refl, ap, subst, sym, Bool, ◌⊎◌, inl, inr, Option, List, [], ◌∷◌, map, keep, All, ℕ,
  ◌+◌, ◌-◌, ◌≤◌, arith,
}
use udhyam_msme_extractor.Records.{ManifestRecord}
use udhyam_msme_extractor.Exec.{Exec, Result, ok, err}
use udhyam_msme_extractor.Exec
use udhyam_msme_extractor.Exec.Triple.{
  Triple, Post, Post-map, Triple-bind, Triple-post, Triple-handle, Triple-pure, Triple-Ran, Ran,
}
use udhyam_msme_extractor.Loader.Warehouse.{
  Warehouse, LoaderError, LedgerRow, RawRows, database, selected,
}
use udhyam_msme_extractor.Loader.Checks.{Entry, File, rows_of, check_file}
use udhyam_msme_extractor.Loader.Checks.Unique.{Sane, check_file-Sane}
use udhyam_msme_extractor.Loader.Yields.{Yields, Yields-bind, Yields-of, Yields-map}
use udhyam_msme_extractor.Loader.Plan.{Planned, plan-Planned, is_missing, InFull}
use udhyam_msme_extractor.Loader.Compacted.{
  plan, prepare, verify, reconcile, copy_compacted_file, loaded_updates, undo, load, load_prepared,
  process_compacted_file, raised, ledger_checks,
}
use udhyam_msme_extractor.Loader.Compacted.Marks.{
  selected-Yields, verify-All, ledger_checks-All, Agrees, MarkLoaded, loaded_updates-MarkLoaded,
}
use udhyam_msme_extractor.Loader.Compacted.Undo.{RolledBack, undo-RolledBack}

not_ok : {e : LoaderError} → ◌≡◌ {A = Result LoaderError (Unit {0})} (err e) (ok tt) → ⊥
not_ok e = cc

module _ {Db : Type 0} (warehouse : Warehouse Db) where
  abbrev Any : LoaderError → Db → Type 0
  Any e d = Unit

  -- a statement that succeeds
  raised-Triple :
      {A : Type 0} (P : Db → Type 0) (m : Exec Db String A)
      → Triple P (raised warehouse m) (λ a d'. (d : Db) × P d × (m d ≡ (ok a, d'))) Any
  unfolding raised
  raised-Triple {A = A} P m = record { at = λ d h. cases d h (m d).0 (m d).1 refl }
    where
      cases :
          (d : Db)
          → P d
          → (r : Result String A) (d' : Db) → m d ≡ (r, d')
          → Post
              (λ a d'. (d : Db) × P d × (m d ≡ (ok a, d')))
              Any
              (elim r as (λ _. Result LoaderError A × Db) [
                | ok a ↦ (ok a, d')
                | err e ↦ (err (database e), d')
              ])
      cases d h (ok a) d' e = (d, h, e)
      cases d h (err x) d' e = tt

  -- the rows that RAW has of a run
  abbrev pub Shows : Db → String → (String → Option RawRows) → Type 0
  Shows db run_id rows = warehouse.raw db run_id ≡ ok rows

  -- every batch is in RAW in full
  abbrev pub InRaw : String → Db → List Entry → Type 0
  InRaw run_id db es =
      (rows : String → Option RawRows) × Shows db run_id rows
      × All (λ e. InFull e (rows e.batch_id)) es

  reconcile-InRaw :
      (f : File) (db : Db) → Yields (λ _. InRaw f.run_id db f.entries) (reconcile warehouse f db)
  unfolding reconcile
  reconcile-InRaw f db =
      Yields-bind (Shows db f.run_id) (λ _. InRaw f.run_id db f.entries)
        (selected (warehouse.raw db f.run_id)) (λ rows. verify rows f.entries)
        (selected-Yields (warehouse.raw db f.run_id))
        (λ rows e.
          Yields-map _ _ (verify rows f.entries) (verify-All rows f.entries)
            (λ _ all. (rows, e, all)))

  -- the rows of the batches to load are inserted, if there are any
  abbrev pub Inserted : File → List Entry → Db → Db → Type 0
  Inserted f [] db filled = filled ≡ db
  Inserted f (e ∷ es) db filled =
      warehouse.insert f.run_id f.state f.path (map (λ b. b.batch_id) (e ∷ es)) db ≡ (ok tt, filled)

  raised-ok :
      (q : Result String (Unit {0}) × Db) (db filled : Db)
      → raised warehouse (λ _. q) db ≡ (ok tt, filled)
      → q ≡ (ok tt, filled)
  unfolding raised
  raised-ok (ok u, d) db filled e = ap (λ x. (ok tt, x)) (ap (λ p. p.1) e)
  raised-ok (err m, d) db filled e = absurd (not_ok (ap (λ p. p.0) e))

  copied-Inserted :
      (f : File) (to_load : List Entry) (db filled : Db)
      → copy_compacted_file warehouse f to_load db ≡ (ok tt, filled)
      → Inserted f to_load db filled
  unfolding copy_compacted_file raised
  copied-Inserted f [] db filled e = sym (ap (λ p. p.1) e)
  copied-Inserted f (x ∷ xs) db filled e =
      raised-ok (warehouse.insert f.run_id f.state f.path (map (λ b. b.batch_id) (x ∷ xs)) db) db
        filled e

  -- The transaction that made `db'` of `db`.
  pub record Committed (f : File) (to_load : List Entry) (db db' : Db) : Type 0 where
    pub filled : Db
    pub merged : Db
    pub inserted : Inserted f to_load db filled
    pub in_raw : InRaw f.run_id filled f.entries
    pub marked : MarkLoaded f f.entries (loaded_updates f)
    pub recorded : warehouse.merge (loaded_updates f) filled ≡ (ok tt, merged)
    pub committed : warehouse.commit merged ≡ (ok tt, db')

  abbrev Copied : File → List Entry → Db → Db → Type 0
  Copied f to_load db d = copy_compacted_file warehouse f to_load db ≡ (ok tt, d)

  abbrev Verified : File → List Entry → Db → Db → Type 0
  Verified f to_load db d = Copied f to_load db d × InRaw f.run_id d f.entries

  Merged : File → List Entry → Db → Db → Type 0
  Merged f to_load db d =
      (mid : Db) × Verified f to_load db mid × (warehouse.merge (loaded_updates f) mid ≡ (ok tt, d))

  copy-Triple :
      (f : File) (to_load : List Entry) (db : Db)
      → Triple
          (λ d. d ≡ db)
          (copy_compacted_file warehouse f to_load)
          (λ _. Copied f to_load db)
          Any
  copy-Triple f to_load db =
      Triple-post (Ran (λ d. d ≡ db) (copy_compacted_file warehouse f to_load)) Any _
        (Triple-Ran (λ d. d ≡ db) (copy_compacted_file warehouse f to_load))
        (λ u d' (d, h, e). subst (λ x. copy_compacted_file warehouse f to_load x ≡ (ok u, d')) h e)
        (λ e d h. h)

  verify-Post :
      (f : File) (to_load : List Entry) (db d : Db)
      → Copied f to_load db d
      → (r : Result LoaderError (Unit {0})) → Yields (λ _. InRaw f.run_id d f.entries) r
      → Post (λ _. Verified f to_load db) Any (r, d)
  verify-Post f to_load db d h (ok u) k = (h, k)
  verify-Post f to_load db d h (err e) k = tt

  committed :
      (f : File) (to_load : List Entry) (db d' : Db)
      → Ran (Merged f to_load db) warehouse.commit tt d'
      → Committed f to_load db d'
  unfolding Merged
  committed f to_load db d' (merged, (filled, (copied, in_raw), recorded), done) = record {
    filled = filled;
    merged = merged;
    inserted = copied-Inserted f to_load db filled copied;
    in_raw = in_raw;
    marked = loaded_updates-MarkLoaded f;
    recorded = recorded;
    committed = done;
  }

  load-Triple :
      (f : File) (to_load : List Entry) (db : Db)
      → Triple (λ d. d ≡ db) (load warehouse f to_load) (λ _. Committed f to_load db) Any
  unfolding load Merged
  load-Triple f to_load db =
      Triple-bind (λ _. Copied f to_load db) (copy_compacted_file warehouse f to_load) _
        (copy-Triple f to_load db)
        (λ _.
          Triple-bind (λ _. Verified f to_load db) (λ d. (reconcile warehouse f d, d)) _
            (record {
              at = λ d h.
                  verify-Post f to_load db d h (reconcile warehouse f d) (reconcile-InRaw f d);
            })
            (λ _.
              Triple-bind (λ _. Merged f to_load db)
                (raised warehouse (warehouse.merge (loaded_updates f)))
                (λ _. raised warehouse warehouse.commit)
                (raised-Triple (Verified f to_load db) (warehouse.merge (loaded_updates f)))
                (λ _.
                  Triple-post (Ran (Merged f to_load db) warehouse.commit) Any _
                    (raised-Triple (Merged f to_load db) warehouse.commit)
                    (λ u d h. committed f to_load db d h) (λ e d h. h))))

rows_of-keep : (p : Entry → Bool) (es : List Entry) → rows_of (keep p es) ≤ rows_of es
rows_of-keep p [] = omega arith
rows_of-keep p (e ∷ es) = ground (arith, rows_of-keep p es)

module _ {Db : Type 0} (warehouse : Warehouse Db) (run_id : String) (r : ManifestRecord)
    (db : Db) where
  -- A file that has passed the checks, and its plan.
  pub record Prepared (p : File × List Entry) : Type 0 where
    pub checked : check_file run_id r ≡ ok p.0
    pub sane : Sane run_id r p.0
    pub statuses : String → Option LedgerRow
    pub rows : String → Option RawRows
    pub read_ledger : warehouse.ledger db ≡ ok statuses
    pub read_raw : warehouse.raw db p.0.run_id ≡ ok rows
    pub agreed : All (λ e. Agrees e (statuses e.batch_id)) p.0.entries
    pub planned : Planned statuses rows p.0.entries p.1

  prepare-Prepared : Yields Prepared (prepare warehouse run_id r db)
  unfolding prepare
  prepare-Prepared =
      Yields-bind (λ f. (check_file run_id r ≡ ok f) × Sane run_id r f) Prepared
        (check_file run_id r) _
        (Yields-of _ (check_file run_id r) (λ f e. (e, check_file-Sane run_id r f e)))
        (λ f (e, sane).
          Yields-bind (λ statuses. warehouse.ledger db ≡ ok statuses) Prepared
            (selected (warehouse.ledger db)) _ (selected-Yields (warehouse.ledger db))
            (λ statuses read_ledger.
              Yields-bind {A = Unit {0}} _ Prepared (ledger_checks statuses f.entries) _
                (ledger_checks-All statuses f.entries)
                (λ _ agreed.
                  Yields-bind (λ rows. warehouse.raw db f.run_id ≡ ok rows) Prepared
                    (selected (warehouse.raw db f.run_id)) _
                    (selected-Yields (warehouse.raw db f.run_id))
                    (λ rows read_raw.
                      Yields-bind (Planned statuses rows f.entries) Prepared
                        (plan statuses rows f.entries) (λ to_load. ok (f, to_load))
                        (Yields-of _ (plan statuses rows f.entries)
                          (plan-Planned statuses rows f.entries))
                        (λ to_load planned. record {
                          checked = e;
                          sane = sane;
                          statuses = statuses;
                          rows = rows;
                          read_ledger = read_ledger;
                          read_raw = read_raw;
                          agreed = agreed;
                          planned = planned;
                        })))))

  -- the counts that are returned
  abbrev pub Counted : File × List Entry → ℕ → ℕ → Type 0
  Counted p loaded before = (loaded ≡ rows_of p.1) × (loaded + before ≡ p.0.rows)

  -- Nothing is written before the file is prepared; a load that fails is rolled back, and the failure
  -- is recorded for the batches that were to be loaded.
  abbrev pub Outcome : Result LoaderError (ℕ × ℕ) → Db → Type 0
  Outcome (ok (loaded, before)) db' =
      (p : File × List Entry) × Prepared p
      × Committed warehouse p.0 p.1 db db'
      × Counted p loaded before
  Outcome (err e) db' =
      (db' ≡ db) ⊎ ((p : File × List Entry) × Prepared p × RolledBack warehouse p.0 p.1 e db')

  Prepared-counts :
      (p : File × List Entry) → Prepared p → Counted p (rows_of p.1) (p.0.rows - rows_of p.1)
  Prepared-counts p h =
      let few : rows_of p.1 ≤ rows_of p.0.entries =
        subst (λ es. rows_of es ≤ rows_of p.0.entries) (sym h.planned.0)
          (rows_of-keep (is_missing h.statuses h.rows) p.0.entries) in
      (refl, omega (arith, few, h.sane.counted))

  load_prepared-Outcome :
      (p : File × List Entry)
      → Prepared p
      → Post (λ n. Outcome (ok n)) (λ e. Outcome (err e)) (load_prepared warehouse p db)
  unfolding load_prepared undo
  load_prepared-Outcome (f, to_load) h =
      (Triple-bind (λ _. Committed warehouse f to_load db)
          (Exec.handle (load warehouse f to_load) (undo warehouse f to_load))
          (λ _. Exec.pure (rows_of to_load, f.rows - rows_of to_load))
          (Triple-handle (Any warehouse) (load warehouse f to_load) (undo warehouse f to_load)
            (load-Triple warehouse f to_load db)
            (λ e. record {
              at = λ mid _.
                  Post-map {A = Unit {0}} (λ _ _. ⊥) (λ _. Committed warehouse f to_load db)
                    (RolledBack warehouse f to_load) (λ e. Outcome (err e))
                    (undo warehouse f to_load e mid) (undo-RolledBack warehouse f to_load e mid)
                    (λ _ _ no. absurd no) (λ _ d k. inr ((f, to_load), h, k));
            }))
          (λ _. Triple-pure _ (λ d c. ((f, to_load), h, c, Prepared-counts (f, to_load) h)))).at
        db refl

  pub process_compacted_file-Outcome :
      Post
        (λ n. Outcome (ok n))
        (λ e. Outcome (err e))
        (process_compacted_file warehouse run_id r db)
  unfolding process_compacted_file
  process_compacted_file-Outcome = outcome (prepare warehouse run_id r db) prepare-Prepared
    where
      outcome :
          (q : Result LoaderError (File × List Entry))
          → Yields Prepared q
          → Post
              (λ n. Outcome (ok n))
              (λ e. Outcome (err e))
              (elim q as (λ _. Result LoaderError (ℕ × ℕ) × Db) [
                | ok p ↦ load_prepared warehouse p db
                | err e ↦ (err e, db)
              ])
      outcome (ok p) h = load_prepared-Outcome p h
      outcome (err e) h = inl refl
