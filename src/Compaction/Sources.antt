-- ===== src/Compaction/Sources.antt =====
-- `_successful_batches` and `_stage_source_file`.
use Prim.Native.String.{compare}
use udhyam_msme_extractor.Prelude.{
  String, Bool, true, false, not, ◌&&◌, ◌||◌, Option, none, some, List, [], ◌∷◌, get_or, is_empty,
  is_some, all, str_eq, if◌then◌else◌,
}
use udhyam_msme_extractor.Prelude.Int.{pos, leb_ℤ}
use udhyam_msme_extractor.Prelude.Text.{is_blank, upper, strip_slash, lstrip_slash, starts_with}
use udhyam_msme_extractor.Records.{BatchRecord}
use udhyam_msme_extractor.Dict.{Dict, lookup, insert}
use udhyam_msme_extractor.Exec.{Result, ok, err}
use udhyam_msme_extractor.Extractor.Manifest.{has}
use udhyam_msme_extractor.Storage.Uri.{urlparse}
use udhyam_msme_extractor.Loader.Process.{sort}

-- What the compactor raises: CompactionError by its messages, StorageError, and others.
pub data CompactionError : Type 0 where
  invalid_identity no_batches unsupported_uri missing_path outside_prefix no_files : CompactionError
  manifest_not_found invalid_json : CompactionError
  conflicting_entries invalid_count too_many_rows : String → CompactionError
  checksum_mismatch unexpected_columns count_mismatch : String → CompactionError
  key_error os_error : CompactionError
  storage : String → CompactionError

infixl 5 ◌>>=◌
abbrev pub ◌>>=◌ :
    {A B : Type 0}
    → Result CompactionError A
    → (A → Result CompactionError B)
    → Result CompactionError B
ok a >>= f = f a
err e >>= f = err e

abbrev pub raise_if :
    {A : Type 0} → Bool → CompactionError → Result CompactionError A → Result CompactionError A
raise_if true e rest = err e
raise_if false e rest = rest

-- `a != b` of two values that `get` returned
abbrev pub differs : Option String → Option String → Bool
differs none none = false
differs none (some b) = true
differs (some a) none = true
differs (some a) (some b) = not (str_eq a b)

conflicts : Option BatchRecord → BatchRecord → Bool
conflicts none r = false
conflicts (some previous) r =
    differs previous.checksum r.checksum || differs previous.batch_file r.batch_file

-- the loop that fills `by_id`
unfoldable pub collect :
    String → Dict BatchRecord → List BatchRecord → Result CompactionError (Dict BatchRecord)
unfolding conflicts upper
collect run_id by_id [] = ok by_id
collect run_id by_id (r ∷ rs) =
    let batch_id = get_or r.batch_id "" in
    let rest =
      collect run_id
        (if str_eq (upper (get_or r.status "")) "SUCCESS" then insert batch_id r by_id else by_id)
        rs in
    if not (str_eq (upper (get_or r.status "")) "SUCCESS")
    then rest
    else if is_blank batch_id || not (has r.run_id run_id)
    then err invalid_identity
    else if conflicts (lookup batch_id by_id) r
    then err (conflicting_entries batch_id)
    else rest

values : Dict BatchRecord → List BatchRecord
values [] = []
values ((k, r) ∷ d) = r ∷ values d

-- `str(item["state"])` and `int(item["offset"])` exist
has_key : BatchRecord → Bool
has_key r = is_some r.state && is_some r.offset

abbrev by_text : Prim.Native.Nat.Ordering → Bool → Bool
by_text Prim.Native.Nat.Ordering.lt rest = true
by_text Prim.Native.Nat.Ordering.eq rest = rest
by_text Prim.Native.Nat.Ordering.gt rest = false

unfoldable pub before : BatchRecord → BatchRecord → Bool
before a b =
    by_text (compare (get_or a.state "") (get_or b.state ""))
      (not (leb_ℤ (get_or b.offset (pos 0)) (get_or a.offset (pos 0))))

unfoldable pub successful_batches :
    String → List BatchRecord → Result CompactionError (List BatchRecord)
unfolding collect values has_key sort before
successful_batches run_id records = do
  by_id ← collect run_id [] records
  raise_if (is_empty by_id) no_batches
      (raise_if (not (all has_key (values by_id))) key_error (ok (sort before (values by_id))))

-- `unquote` is the library's percent-decoding
unfoldable pub stage_source_file : (String → String) → String → Result CompactionError String
unfolding urlparse
stage_source_file unquote batch_file =
    let parsed = urlparse batch_file in
    let source_file = unquote (lstrip_slash parsed.path) in
    raise_if (not (str_eq parsed.scheme "s3" || str_eq parsed.scheme "gs")) unsupported_uri (
      raise_if (is_blank (strip_slash parsed.path)) missing_path
        (raise_if (not (starts_with source_file "udyam/raw/")) outside_prefix (ok source_file)))
