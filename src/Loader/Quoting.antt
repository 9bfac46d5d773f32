-- ===== src/Loader/Quoting.antt =====
-- A quoted identifier reads back as the value that was quoted, whatever the value holds.
use Prim.Native.Char.{Char, code}
use Prim.Native.String.{[], ◌∷◌, ◌++◌}
use text.Mathlib.TextLemmas.{nil-append, cons-append, append_assoc}
use udhyam_msme_extractor.Prelude.{
  String, ◌≡◌, refl, ap, subst, ◌∙◌, Bool, true, false, Option, none, some, ℕ, ◌==◌, if◌then◌else◌,
}
use udhyam_msme_extractor.Prelude.Text.{is_blank}
use udhyam_msme_extractor.Exec.{Result, ok, err}
use udhyam_msme_extractor.Loader.Warehouse.{LoaderError, empty_identifier, null_in_identifier}
use udhyam_msme_extractor.Loader.Names.{has_null, double, quote_identifier}

abbrev more : Char → Option (String × String) → Option (String × String)
more c none = none
more c (some (value, rest)) = some (c ∷ value, rest)

-- How SQL reads what follows an opening quote: up to the first quote that is not doubled, a doubled
-- quote standing for one.
unfoldable pub read_body : ℕ → String → Option (String × String)
read_body q [] = none
read_body q (c ∷ []) = if code c == q then some ([], []) else none
read_body q (c ∷ d ∷ s) =
    let paired = read_body q s in
    let single = read_body q (d ∷ s) in
    if code c == q then if code d == q then more c paired else some ([], d ∷ s) else more c single

-- a whole literal: its value and what follows it
unfoldable pub read_quoted : ℕ → String → Option (String × String)
unfolding read_body
read_quoted q [] = none
read_quoted q (c ∷ s) = if code c == q then read_body q s else none

read_body-other :
    (q : ℕ) (c : Char) (s : String)
    → code c == q ≡ false
    → read_body q (c ∷ s) ≡ more c (read_body q s)
unfolding read_body
read_body-other q c [] h = rw h refl
read_body-other q c (d ∷ s) h = rw h refl

-- what may follow a literal
abbrev pub Ends : ℕ → String → Type 0
Ends q [] = Unit
Ends q (c ∷ s) = code c == q ≡ false

read_body-end :
    (q : ℕ) (c : Char) (s : String)
    → code c == q ≡ true
    → Ends q s
    → read_body q (c ∷ s) ≡ some ([], s)
unfolding read_body
read_body-end q c [] h e = rw h refl
read_body-end q c (d ∷ s) h e = rw (h, e) refl

read_body-pair :
    (q : ℕ) (c : Char) (s : String)
    → code c == q ≡ true
    → read_body q (c ∷ (c ∷ s)) ≡ more c (read_body q s)
unfolding read_body
read_body-pair q c s h = rw h refl

double_step :
    (q : ℕ) (d : Char) (value tail : String) (same : Bool)
    → code d == q ≡ same
    → read_body q (double q (d ∷ value) ++ tail) ≡ more d (read_body q (double q value ++ tail))
unfolding double
double_step q d value tail true h =
    rw (h, cons-append, cons-append) (read_body-pair q d (double q value ++ tail) h)
double_step q d value tail false h =
    rw (h, cons-append) (read_body-other q d (double q value ++ tail) h)

read_body-double :
    (q : ℕ) (c : Char) (value rest : String)
    → code c == q ≡ true
    → Ends q rest
    → read_body q (double q value ++ (c ∷ rest)) ≡ some (value, rest)
unfolding double
read_body-double q c [] rest h e = rw nil-append (read_body-end q c rest h e)
read_body-double q c (d ∷ value) rest h e =
    double_step q d value (c ∷ rest) _ refl ∙ ap (more d) (read_body-double q c value rest h e)

quoted :
    (q : ℕ) (c : Char) (value rest : String)
    → code c == q ≡ true
    → Ends q rest
    → read_quoted q ((c ∷ []) ++ ((double q value ++ (c ∷ [])) ++ rest)) ≡ some (value, rest)
unfolding read_quoted
quoted q c value rest h e =
    rw (cons-append, nil-append, append_assoc, cons-append, nil-append)
      (rw h (read_body-double q c value rest h e))

abbrev value_or : String → Result LoaderError String → String
value_or t (ok s) = s
value_or t (err e) = t

accepted :
    (blank null : Bool) (x y : LoaderError) (t text : String)
    → (if blank then err x else if null then err y else ok t) ≡ ok text
    → t ≡ text
accepted true null x y t text h = cc
accepted false true x y t text h = cc
accepted false false x y t text h = ap (value_or t) h

-- An identifier that `quote_identifier` accepts cannot be broken out of: read back with
-- doubled quotes standing for one, its text gives the identifier again and ends where the text ends;
-- what follows must not begin with a double quote.
pub quote_identifier-read :
    (identifier text rest : String)
    → quote_identifier identifier ≡ ok text
    → Ends 34 rest
    → read_quoted 34 (text ++ rest) ≡ some (identifier, rest)
unfolding quote_identifier
quote_identifier-read identifier text rest h e =
    let p : "\"" ++ (double b'"' identifier ++ "\"") ≡ text =
      accepted (is_blank identifier) (has_null identifier) empty_identifier null_in_identifier _
        text h in
    subst (λ t. read_quoted 34 (t ++ rest) ≡ some (identifier, rest)) p
      (rw append_assoc (quoted 34 "\"" identifier rest refl e))
