-- ===== src/Loader/Compacted/Undo.antt =====
-- `except Exception` of `process_compacted_file`: the rollback and the record of the failure.
use udhyam_msme_extractor.Prelude.{String, ◌≡◌, refl, ap, ◌⊎◌, inl, inr, List, [], ◌∷◌}
use udhyam_msme_extractor.Exec.{Exec, Result, ok, err}
use udhyam_msme_extractor.Exec
use udhyam_msme_extractor.Exec.Triple.{Post, Post-map}
use udhyam_msme_extractor.Loader.Warehouse.{Warehouse, LoaderError, LedgerUpdate, database}
use udhyam_msme_extractor.Loader.Checks.{Entry, File}
use udhyam_msme_extractor.Loader.Compacted.{failed_updates, record_failure, undo, raised}
use udhyam_msme_extractor.Loader.Compacted.Marks.{MarkFailed, failed_updates-MarkFailed}

module _ {Db : Type 0} (warehouse : Warehouse Db) where
  -- How the record of the failed batches ends: there are none; or the rows that mark them are committed
  -- in a transaction of their own; or that is rolled back as well.
  abbrev pub Noted : List LedgerUpdate → Db → Db → Type 0
  Noted [] rolled db' = db' ≡ rolled
  Noted (u ∷ us) rolled db' =
      ((merged : Db) × (warehouse.merge (u ∷ us) rolled ≡ (ok tt, merged))
        × (warehouse.commit merged ≡ (ok tt, db')))
      ⊎ ((mid : Db) × ((warehouse.rollback mid).1 ≡ db'))

  -- A load of `to_load` that failed is rolled back. Either this raises, and nothing more is done; or the
  -- failure is recorded.
  abbrev pub RolledBack : File → List Entry → LoaderError → Db → Type 0
  RolledBack f to_load e db' =
      (mid : Db) × (((m : String) × (warehouse.rollback mid ≡ (err m, db')) × (e ≡ database m))
        ⊎ ((rolled : Db) × (warehouse.rollback mid ≡ (ok tt, rolled))
            × MarkFailed f to_load (failed_updates f to_load)
            × Noted (failed_updates f to_load) rolled db'))

  after_rollback :
      (u : LedgerUpdate) (us : List LedgerUpdate) (rolled mid : Db)
      (q : Result String (Unit {0}) × Db)
      → warehouse.rollback mid ≡ q
      → Post
          (λ _. Noted (u ∷ us) rolled)
          (λ _. Noted (u ∷ us) rolled)
          (raised warehouse (λ _. q) mid)
  unfolding raised
  after_rollback u us rolled mid (ok a, d) e = inr (mid, ap (λ p. p.1) e)
  after_rollback u us rolled mid (err m, d) e = inr (mid, ap (λ p. p.1) e)

  -- the end of the attempt to commit the rows
  after_commit :
      (u : LedgerUpdate) (us : List LedgerUpdate) (rolled merged : Db)
      → warehouse.merge (u ∷ us) rolled ≡ (ok tt, merged)
      → (q : Result String (Unit {0}) × Db) → warehouse.commit merged ≡ q
      → Post
          (λ _. Noted (u ∷ us) rolled)
          (λ _. Noted (u ∷ us) rolled)
          (elim q.0 as (λ _. Result LoaderError (Unit {0}) × Db) [
            | ok _ ↦ (ok tt, q.1)
            | err _ ↦ raised warehouse warehouse.rollback q.1
          ])
  unfolding raised
  after_commit u us rolled merged m (ok a, d) e = inl (merged, m, e)
  after_commit u us rolled merged m (err x, d) e =
      after_rollback u us rolled d (warehouse.rollback d) refl

  after_merge :
      (u : LedgerUpdate) (us : List LedgerUpdate) (rolled : Db) (q : Result String (Unit {0}) × Db)
      → warehouse.merge (u ∷ us) rolled ≡ q
      → Post
          (λ _. Noted (u ∷ us) rolled)
          (λ _. Noted (u ∷ us) rolled)
          (let (r, d) = Exec.◌>>◌ (λ _. q) warehouse.commit rolled in
            elim r as (λ _. Result LoaderError (Unit {0}) × Db) [
              | ok _ ↦ (ok tt, d)
              | err _ ↦ raised warehouse warehouse.rollback d
            ])
  unfolding raised
  after_merge u us rolled (ok a, d) e = after_commit u us rolled d e (warehouse.commit d) refl
  after_merge u us rolled (err x, d) e = after_rollback u us rolled d (warehouse.rollback d) refl

  record_failure-Noted :
      (us : List LedgerUpdate) (rolled : Db)
      → Post (λ _. Noted us rolled) (λ _. Noted us rolled) (record_failure warehouse us rolled)
  unfolding record_failure
  record_failure-Noted [] rolled = refl
  record_failure-Noted (u ∷ us) rolled =
      after_merge u us rolled (warehouse.merge (u ∷ us) rolled) refl

  after_record :
      (e : LoaderError) (P : Db → Type 0) (q : Result LoaderError (Unit {0}) × Db) (d : Db)
      → Post (λ _. P) (λ _. P) q
      → Post {A = Unit {0}} (λ _ _. ⊥) (λ _. P) (Exec.◌>>◌ (λ _. q) (Exec.raise e) d)
  after_record e P (ok a, d') d h = h
  after_record e P (err x, d') d h = h

  undone :
      (f : File) (to_load : List Entry) (e : LoaderError) (mid : Db)
      (q : Result String (Unit {0}) × Db)
      → warehouse.rollback mid ≡ q
      → Post {A = Unit {0}}
          (λ _ _. ⊥)
          (RolledBack f to_load)
          (Exec.◌>>◌
            (raised warehouse (λ _. q))
            (Exec.◌>>◌ (record_failure warehouse (failed_updates f to_load)) (Exec.raise e))
            mid)
  unfolding raised
  undone f to_load e mid (err m, d) h = (mid, inl (m, h, refl))
  undone f to_load e mid (ok a, rolled) h =
      Post-map {A = Unit {0}} (λ _ _. ⊥) (λ _ _. ⊥) (λ _. Noted (failed_updates f to_load) rolled)
        (RolledBack f to_load)
        (Exec.◌>>◌ (record_failure warehouse (failed_updates f to_load)) (Exec.raise e) rolled)
        (after_record e (Noted (failed_updates f to_load) rolled)
          (record_failure warehouse (failed_updates f to_load) rolled) rolled
          (record_failure-Noted (failed_updates f to_load) rolled))
        (λ _ _ no. no) (λ _ d n. (mid, inr (rolled, h, failed_updates-MarkFailed f to_load, n)))

  pub undo-RolledBack :
      (f : File) (to_load : List Entry) (e : LoaderError) (mid : Db)
      → Post (λ _ _. ⊥) (RolledBack f to_load) (undo warehouse f to_load e mid)
  unfolding undo raised
  undo-RolledBack f to_load e mid = undone f to_load e mid (warehouse.rollback mid) refl
