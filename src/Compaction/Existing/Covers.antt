-- ===== src/Compaction/Existing/Covers.antt =====
-- What `_existing_compaction_is_valid` accepts: the records of exactly the batches, in files that are
-- still there.
use udhyam_msme_extractor.Prelude.{
  String, ◌≡◌, refl, ap, sym, ◌⊎◌, inl, inr, Bool, true, false, not, Bool-cases, Option, none, some,
  List, [], ◌∷◌, map, length, all, get_or, is_empty, is_some, All, str_eq, eq_iff, arith,
  if◌then◌else◌,
}
use udhyam_msme_extractor.Prelude.Int.{ℤ, negsuc, eqb_ℤ→≡}
use udhyam_msme_extractor.Records.{BatchRecord, ManifestRecord, Body}
use udhyam_msme_extractor.Storage.Disk.{Shelf, Client}
use udhyam_msme_extractor.Storage.{Backend}
use udhyam_msme_extractor.Storage
use udhyam_msme_extractor.Loader.Checks.{contains}
use udhyam_msme_extractor.Loader.Skip.{has→≡}
use udhyam_msme_extractor.Compaction.Sources.{differs}
use udhyam_msme_extractor.Compaction.Existing.{
  id_of, batches_of, compacted_batches, find_source, same_ids, same_int, matches, row_sum,
  file_is_valid, existing_is_valid,
}

-- a batch of the list
abbrev pub Among : BatchRecord → List BatchRecord → Type 0
Among b [] = ⊥
Among b (x ∷ xs) = (b ≡ x) ⊎ Among b xs

-- a batch of the list with this ID
abbrev pub HasId : String → List BatchRecord → Type 0
HasId i bs = (b : BatchRecord) × Among b bs × (id_of b ≡ i)

-- A listed batch is one of the sources: its ID, offset, row count, checksum and address are those of a
-- source batch.
abbrev pub IsOf : List BatchRecord → BatchRecord → Type 0
IsOf sources b =
    (source : BatchRecord) × Among source sources
    × (id_of source ≡ id_of b)
    × (source.offset ≡ some (get_or b.offset (negsuc 0)))
    × (source.record_count ≡ some (get_or b.record_count (negsuc 0)))
    × (b.checksum ≡ source.checksum)
    × (b.source_uri ≡ source.batch_file)

module _ {Store : Type 0} (client : Client Store) (sha256 : Body → String) (backend : Backend)
    (run_id : String) where
  -- A record of this run whose count is the sum of its batches', and whose file `validate_artifact`
  -- finds in order.
  abbrev pub IsKept : Shelf Store → ManifestRecord → Type 0
  IsKept shelf r =
      (r.run_id ≡ some run_id)
      × (is_some r.batches ≡ true)
      × (get_or r.record_count (negsuc 0) ≡ row_sum (batches_of r))
      × ((Storage.validate_artifact client sha256 backend r.batch_file r.checksum shelf).0 ≡ true)

  -- The records list as many batches as there are, each of them a source batch, and each source batch
  -- among them; and all their files are in order.
  pub record Covers (sources : List BatchRecord) (shelf : Shelf Store)
      (records : List ManifestRecord) : Type 0 where
    pub some_record : is_empty records ≡ false
    pub same_number : length (compacted_batches records) ≡ length sources
    pub no_other : All (IsOf sources) (compacted_batches records)
    pub none_missing : All (λ s. HasId (id_of s) (compacted_batches records)) sources
    pub kept : All (IsKept shelf) records

all-All :
    {A : Type 0} (p : A → Bool) (P : A → Type 0) (xs : List A)
    → ((x : A) → p x ≡ true → P x)
    → all p xs ≡ true
    → All P xs
all-All p P [] k h = tt
all-All p P (x ∷ xs) k h =
    let first : p x ≡ true = ground arith in
    let rest : all p xs ≡ true = ground arith in (k x first, all-All p P xs k rest)

All-unmap :
    (P : String → Type 0) (bs : List BatchRecord) → All P (map id_of bs) → All (λ b. P (id_of b)) bs
All-unmap P [] h = tt
All-unmap P (b ∷ bs) (h, hs) = (h, All-unmap P bs hs)

contains-HasId :
    (i : String) (bs : List BatchRecord) → contains i (map id_of bs) ≡ true → HasId i bs
unfolding contains
contains-HasId i [] h = cc
contains-HasId i (b ∷ bs) h = elim (Bool-cases (str_eq (id_of b) i)) [
  | inl e ↦ (b, inl refl, (eq_iff (id_of b) i).0 e)
  | inr e ↦
      let rest : contains i (map id_of bs) ≡ true = ground (arith, h, e) in
      let (x, among, same) = contains-HasId i bs rest in (x, inr among, same)
]

-- `source_by_id[id]` is a batch of that ID
Found : String → List BatchRecord → Option BatchRecord → Type 0
Found i bs none = Unit
Found i bs (some s) = Among s bs × (id_of s ≡ i)

find_source-Found : (i : String) (bs : List BatchRecord) → Found i bs (find_source i bs)
unfolding find_source Found
find_source-Found i [] = tt
find_source-Found i (b ∷ bs) = step (find_source i bs) (find_source-Found i bs)
  where
    step :
        (o : Option BatchRecord)
        → Found i bs o
        → Found i (b ∷ bs) (elim o as (λ _. Option BatchRecord) [
          | some s ↦ some s
          | none ↦ if str_eq (id_of b) i then some b else none
        ])
    step (some s) (a, e) = (inr a, e)
    step none u = elim (Bool-cases (str_eq (id_of b) i)) [
      | inl e ↦ rw e (inl refl, (eq_iff (id_of b) i).0 e)
      | inr e ↦ rw e tt
    ]

same_int-≡ : (n : ℤ) (o : Option ℤ) → same_int (some n) o ≡ true → o ≡ some n
same_int-≡ n none h = cc
same_int-≡ n (some m) h = ap some (sym (eqb_ℤ→≡ n m h))

same_text : (a b : Option String) → not (differs a b) ≡ true → a ≡ b
same_text none none h = refl
same_text none (some b) h = cc
same_text (some a) none h = cc
same_text (some a) (some b) h = ap some ((eq_iff a b).0 (ground arith))

matches-IsOf :
    (sources : List BatchRecord) (b : BatchRecord) (o : Option BatchRecord)
    → Found (id_of b) sources o
    → matches b o ≡ true
    → IsOf sources b
unfolding matches Found
matches-IsOf sources b none f h = cc
matches-IsOf sources b (some s) (a, e) h = (
  s,
  a,
  e,
  same_int-≡ (get_or b.offset (negsuc 0)) s.offset (ground arith),
  same_int-≡ (get_or b.record_count (negsuc 0)) s.record_count (ground arith),
  same_text b.checksum s.checksum (ground arith),
  same_text b.source_uri s.batch_file (ground arith),
)

module _ {Store : Type 0} (client : Client Store) (sha256 : Body → String) (backend : Backend)
    (run_id : String) (shelf : Shelf Store) where
  file_is_valid-IsKept :
      (r : ManifestRecord)
      → file_is_valid client sha256 backend run_id shelf r ≡ true
      → IsKept client sha256 backend run_id shelf r
  unfolding file_is_valid
  file_is_valid-IsKept r h = (
    has→≡ r.run_id run_id (ground arith),
    ground arith,
    eqb_ℤ→≡ (get_or r.record_count (negsuc 0)) (row_sum (batches_of r)) (ground arith),
    ground arith,
  )

  pub existing_is_valid-Covers :
      (sources : List BatchRecord) (records : List ManifestRecord)
      → existing_is_valid client sha256 backend run_id sources shelf records ≡ true
      → Covers client sha256 backend run_id sources shelf records
  unfolding existing_is_valid same_ids
  existing_is_valid-Covers sources records h =
      let listed = compacted_batches records in
      let both : all (λ y. contains y (map id_of listed)) (map id_of sources) ≡ true =
        ground arith in
      let each : all (λ b. matches b (find_source (id_of b) sources)) listed ≡ true =
        ground arith in
      let files : all (file_is_valid client sha256 backend run_id shelf) records ≡ true =
        ground arith in
      record {
        some_record = ground arith;
        same_number = ground arith;
        no_other =
            all-All _ (IsOf sources) listed
              (λ b m.
                matches-IsOf sources b (find_source (id_of b) sources)
                  (find_source-Found (id_of b) sources) m)
              each;
        none_missing =
            All-unmap (λ i. HasId i listed) sources
              (all-All _ (λ i. HasId i listed) (map id_of sources)
                (λ i m. contains-HasId i listed m) both);
        kept =
            all-All _ (IsKept client sha256 backend run_id shelf) records
              (λ r m. file_is_valid-IsKept r m) files;
      }
