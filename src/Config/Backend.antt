-- ===== src/Config/Backend.antt =====
-- The storage that the programs build from the settings they loaded.
use Prim.Native.String.{String}
use udhyam_msme_extractor.Prelude.{
  ◌≡◌, refl, ◌⊎◌, inl, inr, true, false, not-true, Option, none, some, get_or,
}
use udhyam_msme_extractor.Prelude.Text.{is_blank}
use udhyam_msme_extractor.Dict.{Dict}
use udhyam_msme_extractor.Exec.Triple.{Post, Triple-post}
use udhyam_msme_extractor.Storage.{Backend, StorageSettings, local, object, build_storage}
use udhyam_msme_extractor.Storage.Object
use udhyam_msme_extractor.Storage.Object.{ObjectStorage, Provider, gcs, s3}
use udhyam_msme_extractor.Config.{Floats, Settings, load_settings, is_set}
use udhyam_msme_extractor.Config.Valid.{IsValid, HasDefaults, load_settings-IsValid}

-- the fields that `build_storage(SETTINGS)` reads
abbrev pub storage_settings : {F : Type 0} → Settings F → StorageSettings
storage_settings s = record {
  storage_backend = s.storage_backend;
  gcs_bucket = s.gcs_bucket;
  gcs_prefix = s.gcs_prefix;
  s3_bucket = s.s3_bucket;
  s3_prefix = s.s3_prefix;
}

-- the name of the backend is the kind of storage that is built, and a bucket has a name
abbrev pub IsBuilt : String → Backend → Type 0
IsBuilt name local = name ≡ "local"
IsBuilt name (object o) =
    ((name ≡ "gcs") × (o.provider ≡ gcs) ⊎ (name ≡ "s3") × (o.provider ≡ s3))
    × (is_blank o.bucket_name ≡ false)

named : (bucket : Option String) → is_set bucket ≡ true → is_blank (get_or bucket "") ≡ false
named none h = cc
named (some s) h = not-true (is_blank s) h

built :
    (s : StorageSettings)
    → (s.storage_backend ≡ "local")
      ⊎ ((s.storage_backend ≡ "gcs") × (is_set s.gcs_bucket ≡ true))
      ⊎ ((s.storage_backend ≡ "s3") × (is_set s.s3_bucket ≡ true))
    → IsBuilt s.storage_backend (build_storage s)
unfolding build_storage Object.object_storage
built s (inl e) = rw e refl
built s (inr (inl (e, h))) = rw e (inl (refl, refl), named s.gcs_bucket h)
built s (inr (inr (e, h))) = rw e (inr (refl, refl), named s.s3_bucket h)

-- Settings that were loaded give the storage that they name: the local disk only for `local`, and
-- otherwise a bucket of the provider that they name, whose name is not blank.
pub load_settings-IsBuilt :
    {F : Type 0} (floats : Floats F) (env : Dict String)
    → HasDefaults floats
    → Post
        (λ s _. IsBuilt s.storage_backend (build_storage (storage_settings s)))
        (λ _ _. Unit)
        (load_settings floats env)
load_settings-IsBuilt floats env d =
    (Triple-post {P = λ _. Unit} (λ s _. IsValid floats s) (λ _ _. Unit) (load_settings floats)
        (record { at = λ env' e. load_settings-IsValid floats env' d })
        (λ s env' v. built (storage_settings s) v.storage_backend) (λ _ _ u. u)).at
      env tt
