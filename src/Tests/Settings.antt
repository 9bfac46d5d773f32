-- ===== src/Tests/Settings.antt =====
-- The settings, the batch ids and the DAG at concrete inputs.
use Prim.Native.String.{[]}
use udhyam_msme_extractor.Prelude.{String, ◌≡◌, ◌≢◌, refl, ◌≤◌, none, some, [], ◌∷◌, ℕ, arith, ltb}
use udhyam_msme_extractor.Prelude.Int.{pos}
use udhyam_msme_extractor.Prelude.Text.{to_str}
use udhyam_msme_extractor.Prelude.Numerals.{parse_int}
use udhyam_msme_extractor.Dict.{Dict, lookup}
use udhyam_msme_extractor.Exec.{ok}
use udhyam_msme_extractor.Exec.Triple.{Post}
use udhyam_msme_extractor.Storage.{build_storage}
use udhyam_msme_extractor.Config.{Floats, getenv, get_int, load_settings}
use udhyam_msme_extractor.Config.Valid.{HasDefaults, IsValid, load_settings-IsValid}
use udhyam_msme_extractor.Config.Backend.{IsBuilt, storage_settings, load_settings-IsBuilt}
use udhyam_msme_extractor.Config.Written.{get_int-written}
use udhyam_msme_extractor.Extractor.Manifest.Ids.{get_batch_id-injective}
use udhyam_msme_extractor.Dags.{
  Pipeline, extract, compact_batches, clear_run_id, Reach, start, next, begins, succeeds,
  get_or_create_run_id,
}
use udhyam_msme_extractor.Dags.Active.{IsKept, Reach-Kept}

-- floats without a fraction
abbrev whole : Floats ℕ
whole = record {
  parse = λ s. elim (parse_int s) [ some (pos n) ↦ some n | _ ↦ none ];
  less = ltb;
  literal = λ n. n;
  show = to_str;
}

whole-HasDefaults : HasDefaults whole
whole-HasDefaults n = ground arith

abbrev environment : Dict String
environment =
    ("UDYAM_STORAGE_BACKEND", " S3 ")
    ∷ ("UDYAM_S3_BUCKET", "b")
    ∷ ("UDYAM_BATCH_SIZE", to_str 500)
    ∷ []

load_settings-IsValid_example :
    Post (λ s _. IsValid whole s) (λ _ _. Unit) (load_settings whole environment)
load_settings-IsValid_example = load_settings-IsValid whole environment whole-HasDefaults

load_settings-IsBuilt_example :
    Post
      (λ s _. IsBuilt s.storage_backend (build_storage (storage_settings s)))
      (λ _ _. Unit)
      (load_settings whole environment)
load_settings-IsBuilt_example = load_settings-IsBuilt whole environment whole-HasDefaults

batch_size_given : getenv "UDYAM_BATCH_SIZE" environment ≡ some (to_str 500)
unfolding lookup
batch_size_given = refl

some_rows : 1 ≤ 500
some_rows = omega arith

get_int-written_example : get_int "UDYAM_BATCH_SIZE" 10000 environment ≡ (ok (pos 500), environment)
get_int-written_example =
    get_int-written "UDYAM_BATCH_SIZE" 10000 500 environment some_rows batch_size_given

get_batch_id-injective_example : (◌≡◌ {A = String} "GOA" "GOA") × (◌≡◌ {A = ℕ} 0 0)
get_batch_id-injective_example = get_batch_id-injective "r1" "GOA" "GOA" 0 0 refl

abbrev idle : Pipeline
idle = record { variable = none; active = none; succeeded = [] }

abbrev begun : Pipeline
begun = record {
  variable = some "t_12345678";
  active = some record { run_id = "t_12345678"; due = extract };
  succeeded = [];
}

abbrev extracted : Pipeline
extracted = record {
  variable = some "t_12345678";
  active = some record { run_id = "t_12345678"; due = compact_batches };
  succeeded = (extract, "t_12345678") ∷ [];
}

created : get_or_create_run_id "t" "1234567890" none ≡ (ok "t_12345678", some "t_12345678")
unfolding get_or_create_run_id
created = refl

begun-Reach : Reach begun
begun-Reach = next start (begins none (some "t_12345678") [] "t" "1234567890" "t_12345678" created)

extract≢clear : extract ≢ clear_run_id
extract≢clear e = cc

Reach-Kept_example : IsKept "t_12345678" extracted
Reach-Kept_example =
    Reach-Kept begun extracted "t_12345678" begun-Reach
      (succeeds (some "t_12345678") [] "t_12345678" extract extract≢clear) refl refl
