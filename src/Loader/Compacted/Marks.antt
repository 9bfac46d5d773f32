-- ===== src/Loader/Compacted/Marks.antt =====
-- What the reads of `process_compacted_file` find of a file's batches, and what its MERGE says of them.
use udhyam_msme_extractor.Prelude.{
  String, not-false, ◌≡◌, ◌≢◌, refl, Bool, true, false, not, ◌⊎◌, inl, inr, Option, none, some,
  List, [], ◌∷◌, map, All, ℕ, arith,
}
use udhyam_msme_extractor.Prelude.Int.{pos}
use udhyam_msme_extractor.Exec.{Result, ok, err}
use udhyam_msme_extractor.Extractor.Manifest.{has}
use udhyam_msme_extractor.Loader.Warehouse.{LedgerRow, LedgerUpdate, RawRows, selected}
use udhyam_msme_extractor.Loader.Checks.{Entry, File}
use udhyam_msme_extractor.Loader.Yields.{Yields, Yields-raise_if, Yields-map}
use udhyam_msme_extractor.Loader.Skip.{has→≡, ≡→has}
use udhyam_msme_extractor.Loader.Plan.{InFull, present-InFull, equals→≡}
use udhyam_msme_extractor.Loader.Compacted.{
  ledger_agrees, row_agrees, present, verify, update_of, loaded_updates, failed_updates,
  ledger_checks,
}

pub selected-Yields : {A : Type 0} (r : Result String A) → Yields (λ a. r ≡ ok a) (selected r)
selected-Yields (ok a) = refl
selected-Yields (err e) = tt

-- a loop of `raise_if` that comes to its end
pub verify-All :
    (rows : String → Option RawRows) (es : List Entry)
    → Yields (λ _. All (λ e. InFull e (rows e.batch_id)) es) (verify rows es)
unfolding verify
verify-All rows [] = tt
verify-All rows (e ∷ es) =
    Yields-raise_if (λ _. All (λ e. InFull e (rows e.batch_id)) (e ∷ es))
      (not (present e (rows e.batch_id))) _ _
      (λ h.
        Yields-map _ _ (verify rows es) (verify-All rows es)
          (λ _ all. (present-InFull e (rows e.batch_id) (not-false _ h), all)))

-- A row that says LOADED has the numbers and the checksum of the manifest.
abbrev pub Agrees : Entry → Option LedgerRow → Type 0
Agrees e none = Unit
Agrees e (some row) =
    (row.load_status ≢ some "LOADED")
    ⊎ ((row.expected_rows ≡ some (pos e.record_count))
        × (row.checksum ≡ some e.checksum)
        × (row.loaded_rows ≡ some (pos e.record_count)))

row_agrees-Agrees :
    (e : Entry) (row : LedgerRow) (loaded : Bool)
    → has row.load_status "LOADED" ≡ loaded
    → row_agrees e row ≡ true
    → Agrees e (some row)
unfolding row_agrees
row_agrees-Agrees e row false h k = inl (λ s. cc (h, ≡→has _ _ s))
row_agrees-Agrees e row true h k = inr (
  equals→≡ row.expected_rows e.record_count (ground (arith, h, k)),
  has→≡ row.checksum e.checksum (ground (arith, h, k)),
  equals→≡ row.loaded_rows e.record_count (ground (arith, h, k)),
)

ledger_agrees-Agrees :
    (e : Entry) (row : Option LedgerRow) → ledger_agrees e row ≡ true → Agrees e row
unfolding ledger_agrees
ledger_agrees-Agrees e none h = tt
ledger_agrees-Agrees e (some row) h = row_agrees-Agrees e row _ refl h

pub ledger_checks-All :
    (statuses : String → Option LedgerRow) (es : List Entry)
    → Yields (λ _. All (λ e. Agrees e (statuses e.batch_id)) es) (ledger_checks statuses es)
unfolding ledger_checks
ledger_checks-All statuses [] = tt
ledger_checks-All statuses (e ∷ es) =
    Yields-raise_if (λ _. All (λ e. Agrees e (statuses e.batch_id)) (e ∷ es))
      (not (ledger_agrees e (statuses e.batch_id))) _ _
      (λ h.
        Yields-map _ _ (ledger_checks statuses es) (ledger_checks-All statuses es)
          (λ _ all. (ledger_agrees-Agrees e (statuses e.batch_id) (not-false _ h), all)))

-- What a row of the MERGE says of a batch.
abbrev pub IsMark : File → String → ℕ → Entry → LedgerUpdate → Type 0
IsMark f status loaded e u =
    (u.run_id ≡ f.run_id)
    × (u.batch_id ≡ e.batch_id)
    × (u.state ≡ f.state)
    × (u.source_offset ≡ pos e.offset)
    × (u.expected_rows ≡ pos e.record_count)
    × (u.loaded_rows ≡ pos loaded)
    × (u.checksum ≡ e.checksum)
    × (u.load_status ≡ status)

-- one row for each batch, in order: LOADED with all of its rows
abbrev pub MarkLoaded : File → List Entry → List LedgerUpdate → Type 0
MarkLoaded f [] [] = Unit
MarkLoaded f (e ∷ es) (u ∷ us) = IsMark f "LOADED" e.record_count e u × MarkLoaded f es us
MarkLoaded f _ _ = ⊥

-- one row for each batch, in order: FAILED with none
abbrev pub MarkFailed : File → List Entry → List LedgerUpdate → Type 0
MarkFailed f [] [] = Unit
MarkFailed f (e ∷ es) (u ∷ us) = IsMark f "FAILED" 0 e u × MarkFailed f es us
MarkFailed f _ _ = ⊥

update-IsMark :
    (f : File) (e : Entry) (loaded : ℕ) (status : String)
    → IsMark f status loaded e (update_of f e loaded status)
unfolding update_of
update-IsMark f e loaded status = (refl, refl, refl, refl, refl, refl, refl, refl)

updates-MarkLoaded :
    (f : File) (es : List Entry)
    → MarkLoaded f es (map (λ e. update_of f e e.record_count "LOADED") es)
updates-MarkLoaded f [] = tt
updates-MarkLoaded f (e ∷ es) = (update-IsMark f e e.record_count "LOADED", updates-MarkLoaded f es)

pub loaded_updates-MarkLoaded : (f : File) → MarkLoaded f f.entries (loaded_updates f)
unfolding loaded_updates
loaded_updates-MarkLoaded f = updates-MarkLoaded f f.entries

pub failed_updates-MarkFailed : (f : File) (es : List Entry) → MarkFailed f es (failed_updates f es)
unfolding failed_updates
failed_updates-MarkFailed f [] = tt
failed_updates-MarkFailed f (e ∷ es) =
    (update-IsMark f e 0 "FAILED", failed_updates-MarkFailed f es)
