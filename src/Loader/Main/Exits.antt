-- ===== src/Loader/Main/Exits.antt =====
-- How `main` of the loader ends: its exit status, the calls that it made of the connection, and the
-- tables.
use udhyam_msme_extractor.Prelude.{String, ◌≡◌, [], ◌∷◌, ℕ}
use udhyam_msme_extractor.Dict.{Dict}
use udhyam_msme_extractor.Exec.{ok}
use udhyam_msme_extractor.Exec.Triple.{Triple}
use udhyam_msme_extractor.Loader.Main.{
  Settings, Fault, interrupted, connected, committed, rolled_back, closed, World, Connector,
  from_environment,
}
use udhyam_msme_extractor.Loader.Main.Works.{At, Opened, Finished}

-- 130 for a KeyboardInterrupt, 1 for an exception
abbrev pub IsStatus : Fault → ℕ → Type 0
IsStatus interrupted n = n ≡ 130
IsStatus _ n = n ≡ 1

module _ {Db : Type 0} (connector : Connector Db) where
  -- The exit status, and the calls of the connection in their order. A run that succeeds goes through
  -- the steps of `Finished` on the tables, and its connection is closed after them.
  pub data Ending (env : Dict String) (first : Db) : ℕ → World Db → Type 0 where
    not_connected :
        (n : ℕ) (w : World Db) (e : Fault) → IsStatus e n → w.calls ≡ [] → Ending env first n w
    succeeded :
        (w : World Db) (s : Settings) (d : Db)
        → from_environment env ≡ ok s
        → Finished connector first s d
        → (connector.close d).1 ≡ w.db
        → w.calls ≡ connected ∷ committed ∷ closed ∷ []
        → Ending env first 0 w
    undone :
        (n : ℕ) (w : World Db) (e : Fault)
        → IsStatus e n
        → w.calls ≡ connected ∷ rolled_back ∷ closed ∷ []
        → Ending env first n w
    commit_undone :
        (n : ℕ) (w : World Db) (e : Fault)
        → IsStatus e n
        → w.calls ≡ connected ∷ committed ∷ rolled_back ∷ closed ∷ []
        → Ending env first n w

  module _ (env : Dict String) (first : Db) where
    abbrev Ends : ℕ × World Db → Type 0
    Ends (status, w) = Ending env first status w

    abbrev Idle : World Db → Type 0
    Idle = At [] (λ d. d ≡ first)

    abbrev Started : Settings → World Db → Type 0
    Started s w = (from_environment env ≡ ok s) × At (connected ∷ []) (Opened connector first s) w
