-- ===== src/Loader/Checks/Unique.antt =====
-- What a compacted file satisfies that has passed the checks.
use Prim.Native.String.{◌++◌}
use udhyam_msme_extractor.Prelude.{
  String, not-false, ◌≡◌, refl, Bool, true, false, ◌⊎◌, inl, inr, not, ◌||◌, Option, none, some,
  List, [], ◌∷◌, All, ℕ, suc, zero, ◌<◌, ◌+◌, ◌∙◌, ap, sym, arith, str_eq, eq_iff, get_or, is_empty,
}
use udhyam_msme_extractor.Prelude.Int.{ℤ, pos, negsuc, pos_part, ◌+ℤ◌, eqb_ℤ, eqb_ℤ→≡}
use udhyam_msme_extractor.Prelude.Text.{is_blank, starts_with}
use udhyam_msme_extractor.Records.{ManifestRecord, BatchRecord}
use udhyam_msme_extractor.Exec.{Result, ok, err}
use udhyam_msme_extractor.Extractor.Manifest.{get_batch_id}
use udhyam_msme_extractor.Loader.Warehouse.{
  LoaderError, invalid_record, row_count_mismatch, missing_checksum, outside_run_path, key_error,
}
use udhyam_msme_extractor.Loader.Checks.{
  Entry, File, ◌>>=◌, contains, check_batch, check_batches, check_file, rows_of, check_fields,
  entry_of, valid_offset, check_header, source_prefix, row_sum, stage_relative_path,
}
use udhyam_msme_extractor.Loader.Yields.{
  Yields, yields, Yields-bind, Yields-raise_if, Yields-map, Yields-both, Yields-of,
}

module _ (run_id state : String) where
  -- A batch whose id is that of its run, state and offset, with at least one row and a checksum, and
  -- whose source file lies in its state's folder.
  pub record Valid (e : Entry) : Type 0 where
    pub named : e.batch_id ≡ get_batch_id run_id state e.offset
    pub positive : 0 < e.record_count
    pub hashed : is_blank e.checksum ≡ false
    pub placed : starts_with e.source_file (source_prefix run_id state) ≡ true

  abbrev Fresh : List String → Entry → Type 0
  Fresh seen e = Valid e × (contains e.batch_id seen ≡ false)

  valid_offset-some :
      (i : String) (o n : ℕ) (c : String)
      → (valid_offset run_id state i (pos o) (pos (suc n)) c ≡ none)
        ⊎ ((valid_offset run_id state i (pos o) (pos (suc n)) c ≡ some o)
            × (i ≡ get_batch_id run_id state o)
            × (is_blank c ≡ false))
  unfolding valid_offset
  valid_offset-some i o n c = ground (arith, eq_iff i (get_batch_id run_id state o))

  entry_of-Fresh :
      (seen : List String) (i : String) (o n : ℕ) (c s : String) (uri : Option String)
      → contains i seen ≡ false
      → i ≡ get_batch_id run_id state o
      → is_blank c ≡ false
      → Yields (Fresh seen) (entry_of run_id state i (pos o) (pos (suc n)) c s uri (some o))
  unfolding entry_of
  entry_of-Fresh seen i o n c s uri fresh named hashed =
      Yields-raise_if (Fresh seen) (not (starts_with s (source_prefix run_id state))) _ _ (λ inside.
        (
          record {
            named = named;
            positive = omega arith;
            hashed = hashed;
            placed = not-false _ inside;
          },
          fresh,
        ))

  valid-Fresh :
      (seen : List String) (i : String) (o n : ℤ) (c s : String) (uri : Option String)
      → contains i seen ≡ false
      → Yields
          (Fresh seen)
          (entry_of run_id state i o n c s uri (valid_offset run_id state i o n c))
  unfolding entry_of valid_offset
  valid-Fresh seen i (pos o) (pos (suc n)) c s uri h = elim (valid_offset-some i o n c) [
    | inl e ↦ rw e tt
    | inr (e, named, hashed) ↦ rw e (entry_of-Fresh seen i o n c s uri h named hashed)
  ]
  valid-Fresh seen i (pos o) (pos zero) c s uri h = tt
  valid-Fresh seen i (pos o) (negsuc n) c s uri h = tt
  valid-Fresh seen i (negsuc o) n c s uri h = tt

  check_fields-Fresh :
      (seen : List String) (i : Option String) (o n : Option ℤ) (c s uri : Option String)
      → Yields (Fresh seen) (check_fields run_id state seen i o n c s uri)
  unfolding check_fields
  check_fields-Fresh seen none o n c s uri = tt
  check_fields-Fresh seen (some i) none n c s uri = tt
  check_fields-Fresh seen (some i) (some o) none c s uri = tt
  check_fields-Fresh seen (some i) (some o) (some n) none s uri = tt
  check_fields-Fresh seen (some i) (some o) (some n) (some c) none uri = tt
  check_fields-Fresh seen (some i) (some o) (some n) (some c) (some s) uri =
      Yields-raise_if (Fresh seen) (contains i seen) _ _ (λ h. valid-Fresh seen i o n c s uri h)

  -- no id stands twice, nor among those seen before
  abbrev pub Distinct : List String → List Entry → Type 0
  Distinct seen [] = Unit
  Distinct seen (e ∷ es) = (contains e.batch_id seen ≡ false) × Distinct (e.batch_id ∷ seen) es

  abbrev pub Checked : List String → List Entry → Type 0
  Checked seen es = All Valid es × Distinct seen es

  check_batches-Checked :
      (seen : List String) (bs : List BatchRecord)
      → Yields (Checked seen) (check_batches run_id state seen bs)
  unfolding check_batches check_batch
  check_batches-Checked seen [] = (tt, tt)
  check_batches-Checked seen (b ∷ bs) =
      Yields-bind (Fresh seen) (Checked seen) (check_batch run_id state seen b) _
        (check_fields-Fresh seen b.batch_id b.offset b.record_count b.checksum b.source_file
          b.source_uri)
        (λ e f.
          Yields-bind (Checked (e.batch_id ∷ seen)) (Checked seen)
            (check_batches run_id state (e.batch_id ∷ seen) bs) _
            (check_batches-Checked (e.batch_id ∷ seen) bs) (λ rest r. ((f.0, r.0), (f.1, r.1))))

entry_of-count :
    (run_id state i : String) (o n : ℤ) (c s : String) (uri : Option String) (offset : Option ℕ)
    → Yields (λ e. n ≡ pos e.record_count) (entry_of run_id state i o n c s uri offset)
unfolding entry_of
entry_of-count run_id state i o n c s uri none = tt
entry_of-count run_id state i o (negsuc n) c s uri (some k) = tt
entry_of-count run_id state i o (pos n) c s uri (some k) =
    Yields-raise_if (λ e. pos n ≡ pos e.record_count)
      (not (starts_with s (source_prefix run_id state))) _ _ (λ inside. refl)

-- what the entry of a batch takes over
abbrev Counts : BatchRecord → Entry → Type 0
Counts b e = b.record_count ≡ some (pos e.record_count)

check_fields-count :
    (run_id state : String) (seen : List String) (i : Option String) (o n : Option ℤ)
    (c s uri : Option String)
    → Yields (λ e. n ≡ some (pos e.record_count)) (check_fields run_id state seen i o n c s uri)
unfolding check_fields
check_fields-count run_id state seen none o n c s uri = tt
check_fields-count run_id state seen (some i) none n c s uri = tt
check_fields-count run_id state seen (some i) (some o) none c s uri = tt
check_fields-count run_id state seen (some i) (some o) (some n) none s uri = tt
check_fields-count run_id state seen (some i) (some o) (some n) (some c) none uri = tt
check_fields-count run_id state seen (some i) (some o) (some n) (some c) (some s) uri =
    let Same : Entry → Type 0 = λ e. ◌≡◌ {A = Option ℤ} (some n) (some (pos e.record_count)) in
    Yields-raise_if Same (contains i seen) _ _ (λ h.
      Yields-map (λ e. n ≡ pos e.record_count) Same
        (entry_of run_id state i o n c s uri (valid_offset run_id state i o n c))
        (entry_of-count run_id state i o n c s uri (valid_offset run_id state i o n c))
        (λ e k. ap some k))

pos_sum : (a b : ℕ) → pos a +ℤ pos b ≡ pos (a + b)
unfolding ◌+ℤ◌
pos_sum a b = ground arith

row_sum-cons :
    (b : BatchRecord) (bs : List BatchRecord) (n rest : ℕ)
    → b.record_count ≡ some (pos n)
    → row_sum bs ≡ ok (pos rest)
    → row_sum (b ∷ bs) ≡ ok (pos (n + rest))
unfolding row_sum
row_sum-cons b bs n rest h k = rw (k, h, pos_sum n rest) refl

-- the counts of the records add up to the rows of the entries
check_batches-sum :
    (run_id state : String) (seen : List String) (bs : List BatchRecord)
    → Yields (λ es. row_sum bs ≡ ok (pos (rows_of es))) (check_batches run_id state seen bs)
unfolding check_batches check_batch row_sum
check_batches-sum run_id state seen [] = refl
check_batches-sum run_id state seen (b ∷ bs) =
    Yields-bind (Counts b) (λ es. row_sum (b ∷ bs) ≡ ok (pos (rows_of es)))
      (check_batch run_id state seen b) _
      (check_fields-count run_id state seen b.batch_id b.offset b.record_count b.checksum
        b.source_file b.source_uri)
      (λ e c.
        Yields-bind (λ es. row_sum bs ≡ ok (pos (rows_of es)))
          (λ es. row_sum (b ∷ bs) ≡ ok (pos (rows_of es)))
          (check_batches run_id state (e.batch_id ∷ seen) bs) _
          (check_batches-sum run_id state (e.batch_id ∷ seen) bs)
          (λ rest h. row_sum-cons b bs e.record_count (rows_of rest) c h))

-- A compacted file that may be loaded. The manifest's own count of its rows, which the file carries,
-- is the sum of its batches' counts.
pub record Sane (run_id : String) (r : ManifestRecord) (f : File) : Type 0 where
  pub of_run : f.run_id ≡ run_id
  pub in_state : is_blank f.state ≡ false
  pub announced : r.record_count ≡ some (pos f.rows)
  pub counted : f.rows ≡ rows_of f.entries
  pub path_in_run :
      starts_with f.path ("run_id=" ++ (run_id ++ ("/state=" ++ (f.state ++ "/batches/")))) ≡ true
  pub checked : Checked run_id f.state [] f.entries

announced_by :
    (o : Option ℤ) (total : ℤ) (n : ℕ)
    → eqb_ℤ (get_or o (negsuc 0)) total ≡ true
    → total ≡ pos n
    → o ≡ some (pos n)
announced_by none total n h e = ground (arith, rw e at h)
announced_by (some z) total n h e = ap some (eqb_ℤ→≡ z total h ∙ e)

ok_injective : {A : Type 0} {a b : A} → ◌≡◌ {A = Result LoaderError A} (ok a) (ok b) → a ≡ b
ok_injective e = cc

or_false : (a b c : Bool) → (a || b || c) ≡ false → b ≡ false
or_false a b c h = ground arith

Anything : {A : Type 0} (r : Result LoaderError A) → Yields (λ _. Unit) r
Anything (ok a) = tt
Anything (err e) = tt

-- the last step of `check_header`
check_entries-Sane :
    (run_id state path : String) (r : ManifestRecord) (bs : List BatchRecord) (total : ℤ)
    → row_sum bs ≡ ok total
    → eqb_ℤ (get_or r.record_count (negsuc 0)) total ≡ true
    → is_blank state ≡ false
    → starts_with path ("run_id=" ++ (run_id ++ ("/state=" ++ (state ++ "/batches/")))) ≡ true
    → Yields (Sane run_id r) (
        check_batches run_id state [] bs >>= λ entries. ok (record {
          run_id = run_id;
          state = state;
          path = path;
          rows = pos_part (get_or r.record_count (negsuc 0));
          entries = entries;
        }))
check_entries-Sane run_id state path r bs total summed same named inside =
    Yields-bind (λ es. Checked run_id state [] es × (row_sum bs ≡ ok (pos (rows_of es))))
      (Sane run_id r) (check_batches run_id state [] bs) _
      (Yields-both (Checked run_id state []) (λ es. row_sum bs ≡ ok (pos (rows_of es)))
        (check_batches run_id state [] bs) (check_batches-Checked run_id state [] bs)
        (check_batches-sum run_id state [] bs))
      (λ entries (h, k).
        let n : r.record_count ≡ some (pos (rows_of entries)) =
          announced_by r.record_count total (rows_of entries) same
            (ok_injective (sym summed ∙ k)) in
        let rows : pos_part (get_or r.record_count (negsuc 0)) ≡ rows_of entries = rw n refl in
        record {
          of_run = refl;
          in_state = named;
          announced = rw rows n;
          counted = rows;
          path_in_run = inside;
          checked = h;
        })

check_header-Sane :
    (run_id : String) (r : ManifestRecord) (bs : List BatchRecord)
    → Yields (Sane run_id r) (check_header run_id r bs)
unfolding check_header
check_header-Sane run_id r bs =
    let state = get_or r.state "" in
    Yields-raise_if (Sane run_id r)
      (not (str_eq (get_or r.run_id "") run_id) || is_blank state || is_empty bs) invalid_record _
      (λ header.
        Yields-bind (λ total. row_sum bs ≡ ok total) (Sane run_id r) (row_sum bs) _
          (Yields-of _ (row_sum bs) (λ total e. e))
          (λ total summed.
            Yields-raise_if (Sane run_id r) (not (eqb_ℤ (get_or r.record_count (negsuc 0)) total))
              row_count_mismatch _
              (λ same.
                Yields-raise_if (Sane run_id r) (is_blank (get_or r.checksum "")) missing_checksum _
                  (λ _.
                    Yields-bind {A = String} (λ _. Unit) (Sane run_id r)
                      (elim r.batch_file [ none ↦ err key_error | some f ↦ stage_relative_path f ])
                      _ (Anything _)
                      (λ path _.
                        Yields-raise_if (Sane run_id r)
                          (not (
                            starts_with path
                              ("run_id=" ++ (run_id ++ ("/state=" ++ (state ++ "/batches/"))))))
                          outside_run_path _
                          (λ inside.
                            check_entries-Sane run_id state path r bs total summed
                              (not-false _ same) (or_false _ _ _ header) (not-false _ inside)))))))

pub check_file-Sane :
    (run_id : String) (r : ManifestRecord) (f : File) → check_file run_id r ≡ ok f → Sane run_id r f
unfolding check_file
check_file-Sane run_id r f h = yields (Sane run_id r) (sane r.batches) h
  where
    sane :
        (o : Option (List BatchRecord))
        → Yields
            (Sane run_id r)
            (elim o [ none ↦ err invalid_record | some bs ↦ check_header run_id r bs ])
    sane none = tt
    sane (some bs) = check_header-Sane run_id r bs
