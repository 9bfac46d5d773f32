-- ===== src/Loader/Plan.antt =====
-- `process_compacted_file`: which batches are loaded, and what holds before the ledger says LOADED.
use udhyam_msme_extractor.Prelude.{
  String, Bool-cases, ◌∙◌, ◌≡◌, refl, ap, sym, Bool, true, false, not, Option, none, some, inl, inr,
  ◌≢◌, List, [], ◌∷◌, keep, All, is_some, ℕ, arith,
}
use udhyam_msme_extractor.Prelude.Int.{ℤ, pos, eqb_ℤ→≡, eqb_ℤ-refl}
use udhyam_msme_extractor.Exec.{ok}
use udhyam_msme_extractor.Extractor.Manifest.{has}
use udhyam_msme_extractor.Loader.Warehouse.{RawRows, LedgerRow}
use udhyam_msme_extractor.Loader.Checks.{Entry}
use udhyam_msme_extractor.Loader.Yields.{Yields, yields, Yields-bind}
use udhyam_msme_extractor.Loader.Skip.{≡→has, has→≡}
use udhyam_msme_extractor.Loader.Compacted.{
  load_status, reconciles, present, plan, judge_batch, keep_if, equals,
}

-- The RAW rows of a batch are as many as its entry says, all from its one source file and at its one
-- offset.
abbrev pub IsWhole : Entry → RawRows → Type 0
IsWhole e raw =
    (raw.count ≡ e.record_count)
    × (raw.source_count ≡ 1)
    × (raw.source_file ≡ some e.source_file)
    × (raw.offset ≡ some (pos e.offset))
    × (raw.offset_count ≡ 1)

-- A batch that is in RAW in full.
abbrev pub InFull : Entry → Option RawRows → Type 0
InFull e none = ⊥
InFull e (some raw) = IsWhole e raw

pub equals→≡ : (o : Option ℤ) (n : ℕ) → equals o n ≡ true → o ≡ some (pos n)
equals→≡ none n h = cc
equals→≡ (some z) n h = ap some (eqb_ℤ→≡ z (pos n) h)

pub ≡→equals : (o : Option ℤ) (n : ℕ) → o ≡ some (pos n) → equals o n ≡ true
≡→equals o n e = rw e (eqb_ℤ-refl (pos n))

reconciles-IsWhole : (e : Entry) (raw : RawRows) → reconciles e raw ≡ true → IsWhole e raw
unfolding reconciles
reconciles-IsWhole e raw h = (
  ground (arith, h),
  ground (arith, h),
  has→≡ raw.source_file e.source_file (ground arith),
  equals→≡ raw.offset e.offset (ground arith),
  ground (arith, h),
)

IsWhole-reconciles : (e : Entry) (raw : RawRows) → IsWhole e raw → reconciles e raw ≡ true
unfolding reconciles
IsWhole-reconciles e raw (count, sources, file, offset, offsets) =
    rw
      (
        count,
        sources,
        offsets,
        ≡→has raw.source_file e.source_file file,
        ≡→equals raw.offset e.offset offset,
      )
      (ground arith)

pub present-InFull : (e : Entry) (raw : Option RawRows) → present e raw ≡ true → InFull e raw
unfolding present
present-InFull e none h = cc
present-InFull e (some raw) h = reconciles-IsWhole e raw h

pub InFull-present : (e : Entry) (raw : Option RawRows) → InFull e raw → present e raw ≡ true
unfolding present
InFull-present e none h = absurd h
InFull-present e (some raw) h = IsWhole-reconciles e raw h

module _ (statuses : String → Option LedgerRow) (rows : String → Option RawRows) where
  abbrev raw_of : Entry → Option RawRows
  raw_of e = rows e.batch_id

  abbrev status_of : Entry → Option String
  status_of e = load_status (statuses e.batch_id)

  -- A batch that the plan leaves to be loaded, or that is in RAW in full.
  abbrev pub Placed : Entry → Option RawRows → Type 0
  Placed e none = (status_of e ≢ some "LOADED") × (status_of e ≢ some "LOADING")
  Placed e (some raw) = IsWhole e raw

  -- whether RAW has no rows of a batch
  abbrev pub is_missing : Entry → Bool
  is_missing e = not (is_some (raw_of e))

  -- The batches to load are those without rows in RAW, and no batch is in doubt.
  abbrev pub Planned : List Entry → List Entry → Type 0
  Planned es to_load = (to_load ≡ keep is_missing es) × All (λ e. Placed e (raw_of e)) es

  abbrev Judged : Entry → Option RawRows → Bool → Type 0
  Judged e raw load = (load ≡ not (is_some raw)) × Placed e raw

  judge_missing :
      (e : Entry) (loaded loading : Bool)
      → has (status_of e) "LOADED" ≡ loaded
      → has (status_of e) "LOADING" ≡ loading
      → Yields (Judged e none) (judge_batch e (status_of e) none)
  unfolding judge_batch
  judge_missing e true loading h k = rw h tt
  judge_missing e false true h k = rw (h, k) tt
  judge_missing e false false h k =
      rw (h, k) (refl, ((λ s. cc (h, ≡→has _ _ s)), (λ s. cc (k, ≡→has _ _ s))))

  judge_batch-Judged :
      (e : Entry) (raw : Option RawRows) → Yields (Judged e raw) (judge_batch e (status_of e) raw)
  unfolding judge_batch
  judge_batch-Judged e none = judge_missing e _ _ refl refl
  judge_batch-Judged e (some raw) = elim (Bool-cases (reconciles e raw)) [
    | inl h ↦ rw h (refl, reconciles-IsWhole e raw h)
    | inr h ↦ rw h tt
  ]

  keep-missing :
      (e : Entry) (es : List Entry) (load : Bool)
      → is_missing e ≡ load
      → keep_if load e (keep is_missing es) ≡ keep is_missing (e ∷ es)
  keep-missing e es true h = rw (h, keep) refl
  keep-missing e es false h = rw (h, keep) refl

  plan-step :
      (e : Entry) (es : List Entry) (load : Bool) (rest : List Entry)
      → Judged e (raw_of e) load
      → Planned es rest
      → Planned (e ∷ es) (keep_if load e rest)
  plan-step e es load rest (j, p) (k, ps) =
      (ap (keep_if load e) k ∙ keep-missing e es load (sym j), (p, ps))

  plan-Yields : (es : List Entry) → Yields (Planned es) (plan statuses rows es)
  unfolding plan
  plan-Yields [] = (refl, tt)
  plan-Yields (e ∷ es) =
      Yields-bind (Judged e (raw_of e)) (Planned (e ∷ es)) (judge_batch e (status_of e) (raw_of e))
        _ (judge_batch-Judged e (raw_of e))
        (λ load j.
          Yields-bind (Planned es) (Planned (e ∷ es)) (plan statuses rows es) _ (plan-Yields es)
            (λ rest ps. plan-step e es load rest j ps))

  -- The plan of a file loads exactly the batches that have no rows in RAW, in their order. It is made
  -- only if each of these is neither LOADED nor LOADING in the ledger, and if every other batch is in
  -- RAW in full: its number of rows, from its one source file and its offset.
  pub plan-Planned :
      (es to_load : List Entry) → plan statuses rows es ≡ ok to_load → Planned es to_load
  plan-Planned es to_load h = yields (Planned es) (plan-Yields es) h
