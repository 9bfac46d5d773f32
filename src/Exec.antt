-- ===== src/Exec.antt =====
-- Python code that changes shared state and may raise: what was written before a raise stays
-- written, so the state comes back beside the exception too.
pub mod Triple
use udhyam_msme_extractor.Prelude.{Bool, true, false}

pub data Result (E A : Type 0) : Type 0 where
  ok : A → Result E A
  err : E → Result E A

-- Code that reads and writes an `S`, raises an `E` and returns an `A`.
abbrev pub Exec : Type 0 → Type 0 → Type 0 → Type 0
Exec S E A = S → Result E A × S

module _ {S E A : Type 0} where
  abbrev pub pure : A → Exec S E A
  pure a s = (ok a, s)

  abbrev pub raise : E → Exec S E A
  raise e s = (err e, s)

  abbrev pub gets : (S → A) → Exec S E A
  gets f s = (ok (f s), s)

  abbrev pub lift : Result E A → Exec S E A
  lift r s = (r, s)

  -- `if test: return early` in front of the rest of a function
  abbrev pub branch : Bool → Exec S E A → Exec S E A → Exec S E A
  branch true m n = m
  branch false m n = n

  -- `try: m except E: handler`
  abbrev pub handle : {F : Type 0} → Exec S F A → (F → Exec S E A) → Exec S E A
  handle m h s = let (r, s') = m s in elim r [ ok a ↦ (ok a, s') | err e ↦ h e s' ]

abbrev pub modify : {S E : Type 0} → (S → S) → Exec S E (Unit {0})
modify f s = (ok tt, f s)

infixl 5 ◌>>=◌ ◌>>◌
abbrev pub ◌>>=◌ : {S E A B : Type 0} → Exec S E A → (A → Exec S E B) → Exec S E B
◌>>=◌ m f s = let (r, s') = m s in elim r [ ok a ↦ f a s' | err e ↦ (err e, s') ]

abbrev pub ◌>>◌ : {S E B : Type 0} → Exec S E (Unit {0}) → Exec S E B → Exec S E B
m >> n = m >>= λ _. n
