-- ===== src/Config/Written.antt =====
-- A number written into the environment is the number that the settings have.
use Prim.Native.String.{String, []}
use udhyam_msme_extractor.Prelude.{
  ◌≡◌, refl, sym, ap, ◌∙◌, ◌≤◌, false, inl, inr, Bool-cases, Option, none, some, ℕ, arith, eq_iff,
}
use udhyam_msme_extractor.Prelude.Int.{ℤ, pos, ltb_ℤ}
use udhyam_msme_extractor.Prelude.Text.{is_blank, strip, to_str}
use udhyam_msme_extractor.Prelude.Numerals.{parse_int, signed}
use udhyam_msme_extractor.Prelude.Numerals.Read.{parse_int-to_str}
use udhyam_msme_extractor.Dict.{Dict}
use udhyam_msme_extractor.Exec.{ok}
use udhyam_msme_extractor.Config.{getenv, get_int, raw_int, checked_int}

not_blank : (n : ℕ) → is_blank (strip (to_str n)) ≡ false
unfolding parse_int signed
not_blank n = elim (Bool-cases (is_blank (strip (to_str n)))) [
  | inl e ↦
      let p : ◌≡◌ {A = Option ℤ} none (some (pos n)) =
        ap signed (sym ((eq_iff (strip (to_str n)) []).0 e)) ∙ parse_int-to_str n in
      cc
  | inr e ↦ e
]

raw_int-written :
    (name : String) (default n : ℕ) → 1 ≤ n → raw_int name default (some (to_str n)) ≡ ok (pos n)
unfolding raw_int checked_int
raw_int-written name default n h =
    let high : ltb_ℤ (pos n) (pos 1) ≡ false = ground (arith, h) in
    rw (not_blank n, parse_int-to_str n, high) refl

-- A setting that the environment gives as the text of a number from 1 on is that number, whatever its
-- default.
pub get_int-written :
    (name : String) (default n : ℕ) (env : Dict String)
    → 1 ≤ n
    → getenv name env ≡ some (to_str n)
    → get_int name default env ≡ (ok (pos n), env)
unfolding get_int
get_int-written name default n env h e = rw (e, raw_int-written name default n h) refl
