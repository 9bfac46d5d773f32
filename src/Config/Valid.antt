-- ===== src/Config/Valid.antt =====
-- What settings that were loaded promise to the programs that read them.
use Prim.Native.String.{String}
use udhyam_msme_extractor.Prelude.{
  ◌≡◌, refl, ◌⊎◌, inl, inr, ◌≤◌, Bool, true, false, not, ◌&&◌, ◌||◌, Bool-cases, not-false, Option,
  none, some, ℕ, arith, str_eq, eq_iff, if◌then◌else◌,
}
use udhyam_msme_extractor.Prelude.Int.{ℤ, pos, ◌≤ℤ◌, ltb_ℤ}
use udhyam_msme_extractor.Prelude.Text.{is_blank, strip, upper}
use udhyam_msme_extractor.Prelude.Numerals.{parse_int}
use udhyam_msme_extractor.Dict.{Dict}
use udhyam_msme_extractor.Exec.{raise, ◌>>=◌}
use udhyam_msme_extractor.Exec.Triple.{Post, Triple, Triple-pure, Triple-raise, Triple-branch}
use udhyam_msme_extractor.Config.{
  Floats, Settings, Read, getenv, get_int, raw_int, checked_int, get_float, raw_float,
  checked_float, get_test_state, is_set, refuse_if, getenv_or, backend_known, level_known, validate,
  read_settings, load_settings,
}

-- a number of at least 1
abbrev pub AtLeastOne : ℤ → Type 0
AtLeastOne v = pos 1 ≤ℤ v

-- the name of one state, not blank and not `ALL`
abbrev pub IsStateName : Option String → Type 0
IsStateName none = Unit
IsStateName (some s) = (is_blank s ≡ false) × (str_eq (upper s) "ALL" ≡ false)

named_state-IsStateName :
    (value : String)
    → IsStateName (if is_blank value || str_eq (upper value) "ALL" then none else some value)
named_state-IsStateName value = elim (Bool-cases (is_blank value)) [
  | inl e ↦ rw e tt
  | inr e ↦ elim (Bool-cases (str_eq (upper value) "ALL")) [
    | inl f ↦ rw (e, f) tt
    | inr f ↦ rw (e, f) (e, f)
  ]
]

test_state-IsStateName : (env : Dict String) → IsStateName (get_test_state env)
unfolding get_test_state
test_state-IsStateName env =
    named_state-IsStateName (strip (getenv_or "UDYAM_TEST_STATE" "ANDAMAN AND NICOBAR ISLANDS" env))

one_of : (p q r : Bool) → p || q || r ≡ true → (p ≡ true) ⊎ (q ≡ true) ⊎ (r ≡ true)
one_of true q r h = inl refl
one_of false true r h = inr (inl refl)
one_of false false r h = inr (inr h)

required : (p q : Bool) → p && not q ≡ false → p ≡ true → q ≡ true
required true q h e = not-false q h
required false q h e = cc

backend_cases :
    (b : String) (gcs s3 : Option String)
    → backend_known b ≡ true
    → str_eq b "gcs" && not (is_set gcs) ≡ false
    → str_eq b "s3" && not (is_set s3) ≡ false
    → (b ≡ "local") ⊎ ((b ≡ "gcs") × (is_set gcs ≡ true)) ⊎ ((b ≡ "s3") × (is_set s3 ≡ true))
backend_cases b gcs s3 h g s = elim (one_of (str_eq b "local") (str_eq b "gcs") (str_eq b "s3") h) [
  | inl e ↦ inl ((eq_iff b "local").0 e)
  | inr (inl e) ↦ inr (inl ((eq_iff b "gcs").0 e, required (str_eq b "gcs") (is_set gcs) g e))
  | inr (inr e) ↦ inr (inr ((eq_iff b "s3").0 e, required (str_eq b "s3") (is_set s3) s e))
]

module _ {F : Type 0} (floats : Floats F) where
  abbrev pub IsAtLeastZero : F → Type 0
  IsAtLeastZero v = floats.less v (floats.literal 0) ≡ false

  pub record IsValid (s : Settings F) : Type 0 where
    pub max_workers : AtLeastOne s.max_workers
    pub batch_size : AtLeastOne s.batch_size
    pub max_retries : AtLeastOne s.max_retries
    pub connect_timeout : AtLeastOne s.connect_timeout
    pub max_request_time : AtLeastOne s.max_request_time
    pub compaction_max_rows : AtLeastOne s.compaction_max_rows
    pub retry_backoff_base : IsAtLeastZero s.retry_backoff_base
    pub retry_backoff_max : IsAtLeastZero s.retry_backoff_max
    pub retry_jitter : IsAtLeastZero s.retry_jitter
    pub rate_limit_delay : IsAtLeastZero s.rate_limit_delay
    pub ordered : floats.less s.retry_backoff_max s.retry_backoff_base ≡ false
    pub storage_backend :
        (s.storage_backend ≡ "local")
        ⊎ ((s.storage_backend ≡ "gcs") × (is_set s.gcs_bucket ≡ true))
        ⊎ ((s.storage_backend ≡ "s3") × (is_set s.s3_bucket ≡ true))
    pub log_level : level_known s.log_level ≡ true
    pub test_state : IsStateName s.test_state

  -- the defaults are within the limits themselves
  abbrev pub HasDefaults : Type 0
  HasDefaults = (n : ℕ) → IsAtLeastZero (floats.literal n)

  -- whatever is read, the settings are valid
  abbrev Loads : Read (Settings F) → Type 0
  Loads m = Triple (λ _. Unit) m (λ s _. IsValid s) (λ _ _. Unit)

  checked_int-Post :
      (name : String) (parsed : Option ℤ) (f : ℤ → Read (Settings F)) (env : Dict String)
      → ((v : ℤ) → AtLeastOne v → Loads (f v))
      → Post (λ s _. IsValid s) (λ _ _. Unit) (((λ _. (checked_int name parsed, env)) >>= f) env)
  unfolding checked_int
  checked_int-Post name none f env h = tt
  checked_int-Post name (some v) f env h = elim (Bool-cases (ltb_ℤ v (pos 1))) [
    | inl low ↦ rw low tt
    | inr high ↦ rw high ((h v (ground (arith, high))).at env tt)
  ]

  raw_int-Post :
      (name : String) (default : ℕ) (raw : Option String) (f : ℤ → Read (Settings F))
      (env : Dict String)
      → 1 ≤ default
      → ((v : ℤ) → AtLeastOne v → Loads (f v))
      → Post (λ s _. IsValid s) (λ _ _. Unit) (((λ _. (raw_int name default raw, env)) >>= f) env)
  unfolding raw_int
  raw_int-Post name default none f env d h = (h (pos default) (omega (arith, d))).at env tt
  raw_int-Post name default (some raw) f env d h = elim (Bool-cases (is_blank (strip raw))) [
    | inl blank ↦ rw blank ((h (pos default) (omega (arith, d))).at env tt)
    | inr full ↦ rw full (checked_int-Post name (parse_int raw) f env h)
  ]

  reads_int :
      (name : String) (default : ℕ) (f : ℤ → Read (Settings F))
      → 1 ≤ default
      → ((v : ℤ) → AtLeastOne v → Loads (f v))
      → Loads (get_int name default >>= f)
  unfolding get_int
  reads_int name default f d h = record {
    at = λ env u. raw_int-Post name default (getenv name env) f env d h;
  }

  checked_float-Post :
      (name : String) (parsed : Option F) (f : F → Read (Settings F)) (env : Dict String)
      → ((v : F) → IsAtLeastZero v → Loads (f v))
      → Post
          (λ s _. IsValid s)
          (λ _ _. Unit)
          (((λ _. (checked_float floats name parsed, env)) >>= f) env)
  unfolding checked_float
  checked_float-Post name none f env h = tt
  checked_float-Post name (some v) f env h = elim (Bool-cases (floats.less v (floats.literal 0))) [
    | inl low ↦ rw low tt
    | inr high ↦ rw high ((h v high).at env tt)
  ]

  raw_float-Post :
      (name : String) (default : ℕ) (raw : Option String) (f : F → Read (Settings F))
      (env : Dict String)
      → HasDefaults
      → ((v : F) → IsAtLeastZero v → Loads (f v))
      → Post
          (λ s _. IsValid s)
          (λ _ _. Unit)
          (((λ _. (raw_float floats name default raw, env)) >>= f) env)
  unfolding raw_float
  raw_float-Post name default none f env d h = (h (floats.literal default) (d default)).at env tt
  raw_float-Post name default (some raw) f env d h = elim (Bool-cases (is_blank (strip raw))) [
    | inl blank ↦ rw blank ((h (floats.literal default) (d default)).at env tt)
    | inr full ↦ rw full (checked_float-Post name (floats.parse raw) f env h)
  ]

  reads_float :
      (name : String) (default : ℕ) (f : F → Read (Settings F))
      → HasDefaults
      → ((v : F) → IsAtLeastZero v → Loads (f v))
      → Loads (get_float floats name default >>= f)
  unfolding get_float
  reads_float name default f d h = record {
    at = λ env u. raw_float-Post name default (getenv name env) f env d h;
  }

  guarded :
      (test : Bool) (message : String) (m : Read (Settings F))
      → (test ≡ false → Loads m)
      → Loads (refuse_if test message m)
  unfolding refuse_if
  guarded test message m h =
      Triple-branch test (raise message) m (λ _. Triple-raise message (λ _ _. tt)) h

  validate-Valid :
      (s : Settings F)
      → AtLeastOne s.max_workers
      → AtLeastOne s.batch_size
      → AtLeastOne s.max_retries
      → AtLeastOne s.connect_timeout
      → AtLeastOne s.max_request_time
      → AtLeastOne s.compaction_max_rows
      → IsAtLeastZero s.retry_backoff_base
      → IsAtLeastZero s.retry_backoff_max
      → IsAtLeastZero s.retry_jitter
      → IsAtLeastZero s.rate_limit_delay
      → IsStateName s.test_state
      → Loads (validate floats s)
  unfolding validate
  validate-Valid s h0 h1 h2 h3 h4 h5 h6 h7 h8 h9 named = guarded _ _ _ (λ _.
      guarded _ _ _ (λ ordered. guarded _ _ _ (λ known. guarded _ _ _ (λ gcs. guarded _ _ _ (λ s3.
        guarded _ _ _ (λ level. Triple-pure s (λ _ _. record {
          max_workers = h0;
          batch_size = h1;
          max_retries = h2;
          connect_timeout = h3;
          max_request_time = h4;
          compaction_max_rows = h5;
          retry_backoff_base = h6;
          retry_backoff_max = h7;
          retry_jitter = h8;
          rate_limit_delay = h9;
          ordered = ordered;
          storage_backend =
              backend_cases s.storage_backend s.gcs_bucket s.s3_bucket (not-false _ known) gcs s3;
          log_level = not-false _ level;
          test_state = named;
        })))))))

  read_settings-IsValid : (env : Dict String) → HasDefaults → Loads (read_settings floats env)
  unfolding read_settings
  read_settings-IsValid env d = reads_int "UDYAM_MAX_WORKERS" 3 _ (omega arith) (λ v0 h0.
      reads_int "UDYAM_BATCH_SIZE" 10000 _ (omega arith) (λ v1 h1.
        reads_int "UDYAM_MAX_RETRIES" 5 _ (omega arith) (λ v2 h2.
          reads_int "UDYAM_CONNECT_TIMEOUT" 30 _ (omega arith) (λ v3 h3.
            reads_int "UDYAM_MAX_REQUEST_TIME" 300 _ (omega arith) (λ v4 h4.
              reads_int "UDYAM_COMPACTION_MAX_ROWS" 100000 _ (omega arith) (λ v5 h5.
                reads_float "UDYAM_RETRY_BACKOFF_BASE" 5 _ d (λ v6 h6.
                  reads_float "UDYAM_RETRY_BACKOFF_MAX" 60 _ d (λ v7 h7.
                    reads_float "UDYAM_RETRY_JITTER" 3 _ d (λ v8 h8.
                      reads_float "UDYAM_RATE_LIMIT_DELAY" 30 _ d (λ v9 h9.
                        validate-Valid _ h0 h1 h2 h3 h4 h5 h6 h7 h8 h9
                          (test_state-IsStateName env)))))))))))

  -- For every environment: settings that `load_settings` returns have whole numbers of at least 1,
  -- delays that are not negative, a longest backoff that is not below the first, a known level and a
  -- known storage backend, with its bucket where it is one in the cloud; and the state to test, if
  -- there is one, is a name, neither blank nor ALL. The defaults must not be negative as floats.
  pub load_settings-IsValid :
      (env : Dict String)
      → HasDefaults
      → Post (λ s _. IsValid s) (λ _ _. Unit) (load_settings floats env)
  unfolding load_settings
  load_settings-IsValid env d = (read_settings-IsValid env d).at env tt
