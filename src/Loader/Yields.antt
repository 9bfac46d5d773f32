-- ===== src/Loader/Yields.antt =====
-- Properties of the value of a validation that may raise.
use udhyam_msme_extractor.Prelude.{◌≡◌, refl, subst, Bool, true, false}
use udhyam_msme_extractor.Exec.{Result, ok, err}
use udhyam_msme_extractor.Loader.Warehouse.{LoaderError}
use udhyam_msme_extractor.Loader.Checks.{raise_if, ◌>>=◌, ◌>>◌}

-- what holds of the value, if there is one
abbrev pub Yields : {E A : Type 0} → (A → Type 0) → Result E A → Type 0
Yields P (ok a) = P a
Yields P (err e) = Unit

module _ {A : Type 0} (P : A → Type 0) where
  pub yields : {E : Type 0} {r : Result E A} {a : A} → Yields P r → r ≡ ok a → P a
  yields h e = subst (Yields P) e h

  pub Yields-of : {E : Type 0} (r : Result E A) → ((a : A) → r ≡ ok a → P a) → Yields P r
  Yields-of (ok a) h = h a refl
  Yields-of (err e) h = tt

  pub Yields-bind :
      {B : Type 0} (Q : B → Type 0) (r : Result LoaderError A) (f : A → Result LoaderError B)
      → Yields P r
      → ((a : A) → P a → Yields Q (f a))
      → Yields Q (r >>= f)
  Yields-bind Q (ok a) f h k = k a h
  Yields-bind Q (err e) f h k = tt

pub Yields-raise_if :
    {B : Type 0} (Q : B → Type 0) (test : Bool) (e : LoaderError) (n : Result LoaderError B)
    → (test ≡ false → Yields Q n)
    → Yields Q (raise_if test e >> n)
Yields-raise_if Q true e n h = tt
Yields-raise_if Q false e n h = h refl

pub Yields-both :
    {E A : Type 0} (P Q : A → Type 0) (r : Result E A)
    → Yields P r
    → Yields Q r
    → Yields (λ a. P a × Q a) r
Yields-both P Q (ok a) h k = (h, k)
Yields-both P Q (err e) h k = tt

pub Yields-map :
    {E A : Type 0} (P Q : A → Type 0) (r : Result E A)
    → Yields P r
    → ((a : A) → P a → Q a)
    → Yields Q r
Yields-map P Q (ok a) h k = k a h
Yields-map P Q (err e) h k = tt
