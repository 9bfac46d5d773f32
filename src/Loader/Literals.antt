-- ===== src/Loader/Literals.antt =====
-- A string literal of `sql_string` as Snowflake reads it: in single quotes a backslash begins an
-- escape sequence, which `sql_string` does not write.
use Prim.Native.Char.{Char, code}
use Prim.Native.String.{[], ◌∷◌, ◌++◌}
use text.Mathlib.TextLemmas.{nil-append, cons-append, append_assoc}
use udhyam_msme_extractor.Prelude.{
  String, ◌≡◌, refl, ap, ◌∙◌, Bool, true, false, Option, none, some, ◌==◌, ◌||◌, if◌then◌else◌,
  arith,
}
use udhyam_msme_extractor.Loader.Names.{double, sql_string}

abbrev more : Char → Option (String × String) → Option (String × String)
more c none = none
more c (some (value, rest)) = some (c ∷ value, rest)

module _ (escaped : Char → Char) where
  -- What follows the opening quote: up to the first quote that is neither doubled nor behind a
  -- backslash. A doubled quote stands for one, and a backslash and a character for `escaped` of the
  -- character. The result is the value and what follows the literal.
  unfoldable pub read_literal : String → Option (String × String)
  read_literal [] = none
  read_literal (c ∷ []) = if code c == 39 then some ([], []) else none
  read_literal (c ∷ d ∷ s) =
      let paired = read_literal s in
      let single = read_literal (d ∷ s) in
      if code c == 39
      then if code d == 39 then more c paired else some ([], d ∷ s)
      else if code c == 92
      then more (escaped d) paired
      else more c single

  -- a literal with its opening quote
  unfoldable pub read_string : String → Option (String × String)
  unfolding read_literal
  read_string [] = none
  read_string (c ∷ s) = if code c == 39 then read_literal s else none

-- whether a text has a backslash
unfoldable pub has_backslash : String → Bool
has_backslash [] = false
has_backslash (c ∷ s) = code c == 92 || has_backslash s

-- what may follow a literal
abbrev pub NoQuote : String → Type 0
NoQuote [] = Unit
NoQuote (c ∷ s) = code c == 39 ≡ false

module _ (escaped : Char → Char) where
  read_literal-other :
      (c : Char) (s : String)
      → code c == 39 ≡ false
      → code c == 92 ≡ false
      → read_literal escaped (c ∷ s) ≡ more c (read_literal escaped s)
  unfolding read_literal
  read_literal-other c [] h k = rw h refl
  read_literal-other c (d ∷ s) h k = rw (h, k) refl

  read_literal-end :
      (c : Char) (s : String)
      → code c == 39 ≡ true
      → NoQuote s
      → read_literal escaped (c ∷ s) ≡ some ([], s)
  unfolding read_literal
  read_literal-end c [] h e = rw h refl
  read_literal-end c (d ∷ s) h e = rw (h, e) refl

  read_literal-pair :
      (c : Char) (s : String)
      → code c == 39 ≡ true
      → read_literal escaped (c ∷ (c ∷ s)) ≡ more c (read_literal escaped s)
  unfolding read_literal
  read_literal-pair c s h = rw h refl

  double_step :
      (d : Char) (value tail : String) (quote : Bool)
      → code d == 39 ≡ quote
      → code d == 92 ≡ false
      → read_literal escaped (double 39 (d ∷ value) ++ tail)
        ≡ more d (read_literal escaped (double 39 value ++ tail))
  unfolding double
  double_step d value tail true h k =
      rw (h, cons-append, cons-append) (read_literal-pair d (double 39 value ++ tail) h)
  double_step d value tail false h k =
      rw (h, cons-append) (read_literal-other d (double 39 value ++ tail) h k)

  read_literal-double :
      (c : Char) (value rest : String)
      → code c == 39 ≡ true
      → has_backslash value ≡ false
      → NoQuote rest
      → read_literal escaped (double 39 value ++ (c ∷ rest)) ≡ some (value, rest)
  unfolding double has_backslash
  read_literal-double c [] rest h b e = rw nil-append (read_literal-end c rest h e)
  read_literal-double c (d ∷ value) rest h b e =
      let here : code d == 92 ≡ false = ground arith in
      let later : has_backslash value ≡ false = ground (arith, b) in
      double_step d value (c ∷ rest) _ refl here
      ∙ ap (more d) (read_literal-double c value rest h later e)

  read_string-quoted :
      (c : Char) (value rest : String)
      → code c == 39 ≡ true
      → has_backslash value ≡ false
      → NoQuote rest
      → read_string escaped ((c ∷ []) ++ ((double 39 value ++ (c ∷ [])) ++ rest))
        ≡ some (value, rest)
  unfolding read_string
  read_string-quoted c value rest h b e =
      rw (cons-append, nil-append, append_assoc, cons-append, nil-append)
        (rw h (read_literal-double c value rest h b e))

  -- A value without a backslash cannot break out of the literal that `sql_string` makes of it: the
  -- literal, with doubled quotes standing for one and whatever escape sequences the database has,
  -- reads back as the value and ends where the text ends, whatever quotes the value holds; what follows
  -- must not begin with a quote.
  pub sql_string-read :
      (value rest : String)
      → has_backslash value ≡ false
      → NoQuote rest
      → read_string escaped (sql_string value ++ rest) ≡ some (value, rest)
  unfolding sql_string
  sql_string-read value rest b e = rw append_assoc (read_string-quoted "'" value rest refl b e)
