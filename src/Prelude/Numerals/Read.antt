-- ===== src/Prelude/Numerals/Read.antt =====
-- A number that `str` has written is read back by `int`.
use Prim.Native.Nat.{ℕ, zero, suc, ◌+◌, ◌-◌, ◌*◌, ◌/◌, ◌%◌, ◌≤◌, ◌<◌}
use Prim.Native.Char.{Char, code}
use Prim.Native.String.{String, [], ◌∷◌, len}
use mathlib.Core.Path.{◌≡◌, refl, sym, ap, ◌∙◌}
use mathlib.Core.Bool.{Bool, true, false}
use mathlib.Core.Logic.{◌⊎◌, inl, inr}
use mathlib.Core.Option.{Option, some}
use native.Mathlib.Omega.{arith}
use udhyam_msme_extractor.Prelude.Tests.{◌==◌, ltb, leb, Bool-cases}
use udhyam_msme_extractor.Prelude.Int.{ℤ, pos}
use udhyam_msme_extractor.Prelude.Text.{
  digit, digits, to_str, strip, lstrip, rstrip, is_space, pad, pad_to,
}
use udhyam_msme_extractor.Prelude.Numerals.{read_digits, positive, signed, parse_int}

-- the texts of digits only
abbrev pub AllDigits : String → Type 0
AllDigits [] = Unit
AllDigits (c ∷ s) = (48 ≤ code c) × (code c ≤ 57) × AllDigits s

abbrev IsDigit : ℕ → Type 0
IsDigit d =
    (d ≡ 0)
    ⊎ (d ≡ 1)
    ⊎ (d ≡ 2)
    ⊎ (d ≡ 3)
    ⊎ (d ≡ 4)
    ⊎ (d ≡ 5)
    ⊎ (d ≡ 6)
    ⊎ (d ≡ 7)
    ⊎ (d ≡ 8)
    ⊎ (d ≡ 9)

lt_ten-IsDigit : (d : ℕ) → d < 10 → IsDigit d
lt_ten-IsDigit d h = omega (arith, h)

code-digit : (d : ℕ) → d < 10 → code (digit d) ≡ 48 + d
unfolding digit
code-digit d h = elim (lt_ten-IsDigit d h) [
  | inl e ↦ rw e refl
  | inr (inl e) ↦ rw e refl
  | inr (inr (inl e)) ↦ rw e refl
  | inr (inr (inr (inl e))) ↦ rw e refl
  | inr (inr (inr (inr (inl e)))) ↦ rw e refl
  | inr (inr (inr (inr (inr (inl e))))) ↦ rw e refl
  | inr (inr (inr (inr (inr (inr (inl e)))))) ↦ rw e refl
  | inr (inr (inr (inr (inr (inr (inr (inl e))))))) ↦ rw e refl
  | inr (inr (inr (inr (inr (inr (inr (inr (inl e)))))))) ↦ rw e refl
  | inr (inr (inr (inr (inr (inr (inr (inr (inr (e))))))))) ↦ rw e refl
]

mod_ten : (n : ℕ) → n % 10 < 10
mod_ten n = omega arith

digits-AllDigits : (f n : ℕ) (s : String) → AllDigits s → AllDigits (digits f n s)
unfolding digits
digits-AllDigits zero n s h = (
  omega (arith, code-digit (n % 10) (mod_ten n)),
  omega (arith, code-digit (n % 10) (mod_ten n)),
  h,
)
digits-AllDigits (suc f) n s h = elim (Bool-cases (ltb n 10)) [
  | inl e ↦ rw e (
    omega (arith, code-digit (n % 10) (mod_ten n)),
    omega (arith, code-digit (n % 10) (mod_ten n)),
    h,
  )
  | inr e ↦ rw e (
      digits-AllDigits f (n / 10) _ (
        omega (arith, code-digit (n % 10) (mod_ten n)),
        omega (arith, code-digit (n % 10) (mod_ten n)),
        h,
      ))
]

read_digits-cons :
    (n : ℕ) (need : Bool) (d : ℕ) (s : String)
    → d < 10
    → read_digits n need (digit d ∷ s) ≡ read_digits (n * 10 + d) false s
unfolding read_digits
read_digits-cons n need d s h =
    let low : leb 48 (code (digit d)) ≡ true = ground (arith, code-digit d h) in
    let high : leb (code (digit d)) 57 ≡ true = ground (arith, code-digit d h, h) in
    let value : code (digit d) - 48 ≡ d = omega (arith, code-digit d h) in
    rw (low, high) (ap (λ x. read_digits (n * 10 + x) false s) value)

read_digits-digits :
    (need : Bool) (f n : ℕ) (s : String)
    → n ≤ f
    → read_digits 0 need (digits f n s) ≡ read_digits n false s
unfolding digits
read_digits-digits need zero n s h =
    let e : 0 * 10 + n % 10 ≡ n = omega (arith, h) in
    read_digits-cons 0 need (n % 10) s (mod_ten n) ∙ ap (λ x. read_digits x false s) e
read_digits-digits need (suc f) n s h = elim (Bool-cases (ltb n 10)) [
  | inl small ↦
      let e : 0 * 10 + n % 10 ≡ n = ground (arith, small) in
      rw small (read_digits-cons 0 need (n % 10) s (mod_ten n) ∙ ap (λ x. read_digits x false s) e)
  | inr large ↦
      let e : n / 10 * 10 + n % 10 ≡ n = omega arith in
      let le : n / 10 ≤ f = ground (arith, large, h) in
      rw large (
        read_digits-digits need f (n / 10) (digit (n % 10) ∷ s) le
        ∙ read_digits-cons (n / 10) false (n % 10) s (mod_ten n)
        ∙ ap (λ x. read_digits x false s) e)
]

not_space : (c : Char) → 48 ≤ code c → is_space c ≡ false
unfolding is_space
not_space c h = ground (arith, h)

lstrip-digits : (s : String) → AllDigits s → lstrip s ≡ s
unfolding lstrip
lstrip-digits [] h = refl
lstrip-digits (c ∷ s) h = let e : is_space c ≡ false = not_space c h.0 in rw e refl

rstrip-digits : (s : String) → AllDigits s → rstrip s ≡ s
unfolding rstrip
rstrip-digits [] h = refl
rstrip-digits (c ∷ s) h =
    let e : is_space c ≡ false = not_space c h.0 in rw (e, rstrip-digits s h.2) refl

-- a text of digits that is not empty has no sign
signed-digits :
    (c : Char) (s : String) → 48 ≤ code c → signed (c ∷ s) ≡ positive (read_digits 0 true (c ∷ s))
unfolding signed
signed-digits c s h =
    let minus : code c == b'-' ≡ false = ground (arith, h) in
    let plus : code c == b'+' ≡ false = ground (arith, h) in rw (minus, plus) refl

signed-AllDigits :
    (s : String) → AllDigits s → (n : ℕ) → read_digits 0 true s ≡ some n → signed s ≡ some (pos n)
unfolding read_digits positive
signed-AllDigits [] h n e = cc
signed-AllDigits (c ∷ s) h n e = signed-digits c s h.0 ∙ ap positive e

-- `int(str(n))` is `n`, for every number.
pub parse_int-to_str : (n : ℕ) → parse_int (to_str n) ≡ some (pos n)
unfolding parse_int strip to_str read_digits
parse_int-to_str n =
    let h : AllDigits (digits n n []) = digits-AllDigits n n [] tt in
    let r : rstrip (lstrip (digits n n [])) ≡ digits n n [] =
      ap rstrip (lstrip-digits (digits n n []) h) ∙ rstrip-digits (digits n n []) h in
    ap signed r
    ∙ signed-AllDigits (digits n n []) h n (read_digits-digits true n n [] (omega arith))

pub to_str-AllDigits : (n : ℕ) → AllDigits (to_str n)
unfolding to_str
to_str-AllDigits n = digits-AllDigits n n [] tt

-- different numbers have different texts
pub to_str-injective : (m n : ℕ) → to_str m ≡ to_str n → m ≡ n
to_str-injective m n e =
    let p : ◌≡◌ {A = Option ℤ} (some (pos m)) (some (pos n)) =
      sym (parse_int-to_str m) ∙ ap parse_int e ∙ parse_int-to_str n in
    ground (arith, p)

pad-AllDigits : (k : ℕ) (s : String) → AllDigits s → AllDigits (pad k s)
unfolding pad
pad-AllDigits zero s h = h
pad-AllDigits (suc k) s h = (omega arith, omega arith, pad-AllDigits k s h)

pub pad_to-AllDigits : (w n : ℕ) → AllDigits (pad_to w n)
unfolding pad_to
pad_to-AllDigits w n = pad-AllDigits _ (to_str n) (to_str-AllDigits n)

read_digits-pad : (k : ℕ) (need : Bool) (n : ℕ) → read_digits 0 need (pad k (to_str n)) ≡ some n
unfolding pad to_str read_digits
read_digits-pad zero need n = read_digits-digits need n n [] (omega arith)
read_digits-pad (suc k) need n = read_digits-pad k false n

-- leading zeros do not change what `int` reads
pub parse_int-pad_to : (w n : ℕ) → parse_int (pad_to w n) ≡ some (pos n)
unfolding parse_int strip pad_to
parse_int-pad_to w n =
    let h : AllDigits (pad_to w n) = pad_to-AllDigits w n in
    let r : rstrip (lstrip (pad_to w n)) ≡ pad_to w n =
      ap rstrip (lstrip-digits (pad_to w n) h) ∙ rstrip-digits (pad_to w n) h in
    ap signed r ∙ signed-AllDigits (pad_to w n) h n (read_digits-pad (w - len (to_str n)) true n)
