-- ===== src/Loader/Skip.antt =====
-- What the ledger decides for a batch, and what a COPY must report.
use udhyam_msme_extractor.Prelude.{
  String, not-false, ◌≡◌, refl, sym, ap, Bool, true, false, not, if◌then◌else◌, Option, none, some,
  ◌⊎◌, inl, inr, ◌≢◌, List, [], ◌∷◌, ℕ, ◌+◌, arith, sum_by, get_or, is_empty, All, eq_iff,
}
use udhyam_msme_extractor.Prelude.Int.{ℤ, pos, eqb_ℤ→≡, eqb_ℤ-refl, eqb_ℤ}
use udhyam_msme_extractor.Exec.{Result, ok, err}
use udhyam_msme_extractor.Extractor.Manifest.{has}
use udhyam_msme_extractor.Loader.Warehouse.{
  LedgerRow, LoaderError, loaded_mismatch, already_loading,
}
use udhyam_msme_extractor.Loader.Yields.{Yields, yields, Yields-bind, Yields-raise_if}
use udhyam_msme_extractor.Loader.Batches.{
  Batch, Decision, skip, load, should_skip, decide_batch, total_loaded, check_copy, equals_int,
}

pub has→≡ : (o : Option String) (s : String) → has o s ≡ true → o ≡ some s
has→≡ none s h = cc
has→≡ (some t) s h = ap some ((eq_iff t s).0 h)

pub ≡→has : (o : Option String) (s : String) → o ≡ some s → has o s ≡ true
≡→has o s e = rw e ((eq_iff s s).1 refl)

equals_int→≡ : (o : Option ℤ) (z : ℤ) → equals_int o z ≡ true → o ≡ some z
equals_int→≡ none z h = cc
equals_int→≡ (some y) z h = ap some (eqb_ℤ→≡ y z h)

≡→equals_int : (o : Option ℤ) (z : ℤ) → o ≡ some z → equals_int o z ≡ true
≡→equals_int o z e = rw e (eqb_ℤ-refl z)

-- The ledger's row says that exactly this batch is in RAW.
abbrev pub IsRecorded : Batch → LedgerRow → Type 0
IsRecorded b row =
    (row.load_status ≡ some "LOADED")
    × (row.expected_rows ≡ some b.record_count)
    × (row.loaded_rows ≡ some b.record_count)
    × (row.checksum ≡ some b.checksum)

abbrev pub skips : Batch → LedgerRow → Bool
skips b row =
    should_skip row.load_status b.record_count row.loaded_rows row.expected_rows b.checksum
      row.checksum

should_skip→ : (b : Batch) (row : LedgerRow) → skips b row ≡ true → IsRecorded b row
unfolding should_skip
should_skip→ b row h = (
  has→≡ row.load_status "LOADED" (ground arith),
  equals_int→≡ row.expected_rows b.record_count (ground arith),
  equals_int→≡ row.loaded_rows b.record_count (ground arith),
  has→≡ row.checksum b.checksum (ground arith),
)

→should_skip : (b : Batch) (row : LedgerRow) → IsRecorded b row → skips b row ≡ true
unfolding should_skip
→should_skip b row (s, e, l, c) =
    rw
      (
        ≡→has row.load_status "LOADED" s,
        ≡→equals_int row.expected_rows b.record_count e,
        ≡→equals_int row.loaded_rows b.record_count l,
        ≡→has row.checksum b.checksum c,
      )
      refl

-- What a decision about a batch amounts to.
abbrev pub Decided : Batch → LedgerRow → Result LoaderError Decision → Type 0
Decided b row (ok skip) = IsRecorded b row
Decided b row (ok load) = (row.load_status ≢ some "LOADED") × (row.load_status ≢ some "LOADING")
Decided b row (err e) =
    ((e ≡ loaded_mismatch b.batch_id) × (row.load_status ≡ some "LOADED") × ¬ (IsRecorded b row))
    ⊎ ((e ≡ already_loading b.batch_id) × (row.load_status ≡ some "LOADING"))

-- what `decide_batch` makes of the three tests
chosen : Batch → Bool → Bool → Bool → Result LoaderError Decision
chosen b skipped loaded loading =
    if skipped
    then ok skip
    else if loaded
    then err (loaded_mismatch b.batch_id)
    else if loading
    then err (already_loading b.batch_id)
    else ok load

has_not : (o : Option String) (s : String) → has o s ≡ false → o ≢ some s
has_not o s h e = cc (h, ≡→has o s e)

chosen-Decided :
    (b : Batch) (row : LedgerRow) (skipped loaded loading : Bool)
    → skips b row ≡ skipped
    → has row.load_status "LOADED" ≡ loaded
    → has row.load_status "LOADING" ≡ loading
    → Decided b row (chosen b skipped loaded loading)
unfolding chosen
chosen-Decided b row true loaded loading s l g = should_skip→ b row s
chosen-Decided b row false true loading s l g =
    inl (refl, has→≡ row.load_status "LOADED" l, λ r. cc (s, →should_skip b row r))
chosen-Decided b row false false true s l g = inr (refl, has→≡ row.load_status "LOADING" g)
chosen-Decided b row false false false s l g =
    (has_not row.load_status "LOADED" l, has_not row.load_status "LOADING" g)

-- A batch is skipped only if the ledger has it as LOADED with this very row count and checksum; one
-- that is LOADED otherwise is refused, and so is one that is LOADING; a batch is loaded only if it is
-- neither.
pub decide_batch-Decided : (b : Batch) (row : LedgerRow) → Decided b row (decide_batch b row)
unfolding decide_batch chosen
decide_batch-Decided b row = chosen-Decided b row _ _ _ refl refl refl

-- A row of COPY's answer has the column of the loaded rows; NULL stands for no rows.
abbrev pub IsWide : Option (Option ℕ) → Type 0
IsWide none = ⊥
IsWide (some n) = Unit

abbrev pub rows_loaded : Option (Option ℕ) → ℕ
rows_loaded none = 0
rows_loaded (some n) = get_or n 0

abbrev Summed : List (Option (Option ℕ)) → ℕ → Type 0
Summed results n = All IsWide results × (n ≡ sum_by rows_loaded results)

total_loaded-Summed :
    (batch_id : String) (results : List (Option (Option ℕ)))
    → Yields (Summed results) (total_loaded batch_id results)
unfolding total_loaded
total_loaded-Summed batch_id [] = (tt, refl)
total_loaded-Summed batch_id (none ∷ results) = tt
total_loaded-Summed batch_id (some rows ∷ results) =
    Yields-bind (Summed results) (Summed (some rows ∷ results)) (total_loaded batch_id results) _
      (total_loaded-Summed batch_id results)
      (λ rest h. ((tt, h.0), ap (λ m. get_or rows 0 + m) h.1))

-- What an accepted answer of COPY amounts to.
abbrev pub Copied : Batch → List (Option (Option ℕ)) → ℕ → Type 0
Copied b results n =
    (is_empty results ≡ false)
    × All IsWide results
    × (n ≡ sum_by rows_loaded results)
    × (b.record_count ≡ pos n)

check_copy-Yields :
    (b : Batch) (results : List (Option (Option ℕ)))
    → Yields (Copied b results) (check_copy b results)
unfolding check_copy
check_copy-Yields b results = Yields-raise_if (Copied b results) (is_empty results) _ _ (λ filled.
    Yields-bind (Summed results) (Copied b results) (total_loaded b.batch_id results) _
      (total_loaded-Summed b.batch_id results)
      (λ loaded h.
        Yields-raise_if (Copied b results) (not (eqb_ℤ (pos loaded) b.record_count)) _ _ (λ same.
          (filled, h.0, h.1, sym (eqb_ℤ→≡ (pos loaded) b.record_count (not-false _ same))))))

-- COPY's answer is accepted only if it has a row, every row has the column of the loaded rows, and the
-- numbers there, with 0 for a NULL, add up to the record count of the manifest; the number returned is
-- that sum.
pub check_copy-Copied :
    (b : Batch) (results : List (Option (Option ℕ))) (n : ℕ)
    → check_copy b results ≡ ok n
    → Copied b results n
check_copy-Copied b results n h = yields (Copied b results) (check_copy-Yields b results) h
