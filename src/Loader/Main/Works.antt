-- ===== src/Loader/Main/Works.antt =====
-- The work of `main` between the connection and its end: the tables from step to step.
use udhyam_msme_extractor.Prelude.{
  ◌≡◌, refl, subst, ap, ◌⊎◌, inl, inr, List, [], ◌∷◌, ◌++◌, Option, none, some, ℕ,
}
use udhyam_msme_extractor.Exec.{Exec, Result, ok, err, lift, ◌>>◌}
use udhyam_msme_extractor.Exec.Triple.{Post, Triple, Triple-bind, Triple-post}
use udhyam_msme_extractor.Loader.Process.{process_run}
use udhyam_msme_extractor.Loader.Main.{
  Settings, Fault, interrupted, loader_error, Call, connected, committed, World, Connector, on_db,
  called, run, run_to_end, closing_cursor, work,
}

module _ {Db : Type 0} where
  -- these calls were made, and this holds of the tables
  abbrev pub At : List Call → (Db → Type 0) → World Db → Type 0
  At calls P w = (w.calls ≡ calls) × P w.db

  -- the tables after a successful call of `m` on tables with `P`
  abbrev pub After : {A : Type 0} → (Db → Type 0) → Exec Db Fault A → A → Db → Type 0
  After P m a d = (o : Db) × P o × (m o ≡ (ok a, d))

  pub on_db-Triple :
      {A : Type 0} (calls : List Call) (P : Db → Type 0) (m : Exec Db Fault A)
      → Triple (At calls P) (on_db m) (λ a. At calls (After P m a)) (λ _ w. w.calls ≡ calls)
  unfolding on_db
  on_db-Triple {A = A} calls P m = record { at = λ w h. ends w h (m w.db) refl }
    where
      ends :
          (w : World Db)
          → At calls P w
          → (q : Result Fault A × Db) → m w.db ≡ q
          → Post (λ a. At calls (After P m a)) (λ _ w. w.calls ≡ calls) (on_db (λ _. q) w)
      ends w (h, p) (ok a, d) e = (h, (w.db, p, e))
      ends w (h, p) (err x, d) e = h

  called-Triple :
      (calls : List Call) (P : Db → Type 0) (c : Call) (m : Exec Db Fault (Unit {0}))
      → Triple
          (At calls P)
          (called c m)
          (λ _. At (calls ++ (c ∷ [])) (After P m tt))
          (λ _ w. w.calls ≡ calls ++ (c ∷ []))
  unfolding called on_db
  called-Triple calls P c m = record { at = λ w h. ends w h (m w.db) refl }
    where
      ends :
          (w : World Db)
          → At calls P w
          → (q : Result Fault (Unit {0}) × Db) → m w.db ≡ q
          → Post
              (λ _. At (calls ++ (c ∷ [])) (After P m tt))
              (λ _ w. w.calls ≡ calls ++ (c ∷ []))
              (called c (λ _. q) w)
      ends w (h, p) (ok a, d) e = (ap (λ l. l ++ (c ∷ [])) h, (w.db, p, e))
      ends w (h, p) (err x, d) e = ap (λ l. l ++ (c ∷ [])) h

module _ {Db : Type 0} (connector : Connector Db) (first : Db) (s : Settings) where
  -- The tables, step by step: the connection of the tables `first`, the cursor, `process_run` without
  -- an interrupt, the commit, and the end of the cursor.
  abbrev pub Opened : Db → Type 0
  Opened d = connector.connect s first ≡ (ok tt, d)

  abbrev pub Ready : Db → Type 0
  Ready = After Opened connector.cursor tt

  abbrev pub RanOn : Db → Db → Type 0
  RanOn o d =
      (connector.interrupt o ≡ none)
      × (n : ℕ) × (process_run connector.warehouse s.run_id connector.stage o ≡ (ok n, d))

  abbrev pub Processed : Db → Type 0
  Processed d = (o : Db) × Ready o × RanOn o d

  abbrev pub Committed : Db → Type 0
  Committed = After Processed connector.commit tt

  abbrev pub Finished : Db → Type 0
  Finished = After Committed connector.close_cursor tt

  run-RanOn : (o : Db) → Post (λ _. RanOn o) (λ _ _. Unit) (run connector s o)
  unfolding run run_to_end
  run-RanOn o = ends (connector.interrupt o) refl
    where
      whole :
          connector.interrupt o ≡ none
          → (q : Result _ ℕ × Db) → process_run connector.warehouse s.run_id connector.stage o ≡ q
          → Post
              (λ _. RanOn o)
              (λ _ _. Unit)
              (elim q.0 as (λ _. Result Fault (Unit {0}) × Db) [
                | ok n ↦ (ok tt, q.1)
                | err e ↦ (err (loader_error e), q.1)
              ])
      whole i (ok n, d') e = (i, n, e)
      whole i (err x, d') e = tt

      ends :
          (q : Option Db)
          → connector.interrupt o ≡ q
          → Post
              (λ _. RanOn o)
              (λ _ _. Unit)
              (elim q as (λ _. Result Fault (Unit {0}) × Db) [
                | none ↦ run_to_end connector s o
                | some d' ↦ (err interrupted, d')
              ])
      ends none i = whole i _ refl
      ends (some d') i = tt

  abbrev pub Failed : World Db → Type 0
  Failed w = (w.calls ≡ connected ∷ []) ⊎ (w.calls ≡ connected ∷ committed ∷ [])

  abbrev pub Done : (Db → Type 0) → World Db → Type 0
  Done = At (connected ∷ committed ∷ [])

  Failed-Triple :
      (P : World Db → Type 0)
      → ((w : World Db) → P w → Failed w)
      → Triple P (on_db connector.close_cursor) (λ _. Failed) (λ _. Failed)
  unfolding on_db
  Failed-Triple P k = record { at = λ w h. ends w (k w h) (connector.close_cursor w.db) }
    where
      ends :
          (w : World Db)
          → Failed w
          → (q : Result Fault (Unit {0}) × Db) → Post (λ _. Failed) (λ _. Failed) (on_db (λ _. q) w)
      ends w h (ok a, d) = h
      ends w h (err x, d) = h

  closing_cursor-Triple :
      (P : World Db → Type 0) (m : Exec (World Db) Fault (Unit {0}))
      → Triple P m (λ _. Done Committed) (λ _. Failed)
      → Triple P (closing_cursor connector m) (λ _. Done Finished) (λ _. Failed)
  unfolding closing_cursor on_db
  closing_cursor-Triple P m t = record { at = λ w h. ends (m w) (t.at w h) }
    where
      ends :
          (q : Result Fault (Unit {0}) × World Db)
          → Post (λ _. Done Committed) (λ _. Failed) q
          → Post (λ _. Done Finished) (λ _. Failed) ((on_db connector.close_cursor >> lift q.0) q.1)
      ends (ok u, w) h =
          (Triple-bind {A = Unit {0}} (λ _. Done Finished) (on_db connector.close_cursor)
              (λ _. lift (ok u))
              (Triple-post {A = Unit {0}} _ _ (on_db connector.close_cursor)
                (on_db-Triple (connected ∷ committed ∷ []) Committed connector.close_cursor)
                (λ _ w h. h) (λ _ w h. inr h))
              (λ _. record { at = λ w h. h })).at
            w h
      ends (err x, w) h =
          (Triple-bind {A = Unit {0}} (λ _. Failed) (on_db connector.close_cursor)
              (λ _. lift (err x)) (Failed-Triple Failed (λ w h. h))
              (λ _. record { at = λ w h. h })).at
            w h

  run-Triple :
      Triple
        (At (connected ∷ []) Ready)
        (on_db (run connector s))
        (λ _. At (connected ∷ []) Processed)
        (λ _. Failed)
  run-Triple =
      Triple-post {A = Unit {0}} _ _ (on_db (run connector s))
        (on_db-Triple (connected ∷ []) Ready (run connector s))
        (λ a w (h, (o, ready, e)).
          (h, (o, ready, subst (Post (λ _. RanOn o) (λ _ _. Unit)) e (run-RanOn o))))
        (λ e w h. inl h)

  pub work-Triple :
      Triple (At (connected ∷ []) Opened) (work connector s) (λ _. Done Finished) (λ _. Failed)
  unfolding work
  work-Triple =
      Triple-bind {A = Unit {0}} (λ _. At (connected ∷ []) Ready) (on_db connector.cursor) _
        (Triple-post {A = Unit {0}} _ _ (on_db connector.cursor)
          (on_db-Triple (connected ∷ []) Opened connector.cursor) (λ _ w h. h) (λ _ w h. inl h))
        (λ _. closing_cursor-Triple _ _ (
          Triple-bind {A = Unit {0}} (λ _. At (connected ∷ []) Processed) (on_db (run connector s))
            (λ _. called committed connector.commit) run-Triple
            (λ _.
              Triple-post {A = Unit {0}} _ _ (called committed connector.commit)
                (called-Triple (connected ∷ []) Processed committed connector.commit) (λ a w h. h)
                (λ e w h. inr h))))
