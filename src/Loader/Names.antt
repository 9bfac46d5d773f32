-- ===== src/Loader/Names.antt =====
-- Quoting: `quote_identifier`, `qualified_name` and `sql_string`.
use Prim.Native.Char.{code}
use Prim.Native.String.{[], ◌∷◌, ◌++◌}
use udhyam_msme_extractor.Prelude.{String, Bool, false, ◌||◌, ℕ, ◌==◌, if◌then◌else◌}
use udhyam_msme_extractor.Prelude.Text.{is_blank}
use udhyam_msme_extractor.Exec.{Result, ok, err}
use udhyam_msme_extractor.Loader.Warehouse.{LoaderError, empty_identifier, null_in_identifier}

-- `s.replace(q, q + q)` for the character with the number `q`
unfoldable pub double : ℕ → String → String
double q [] = []
double q (c ∷ s) = if code c == q then c ∷ (c ∷ double q s) else c ∷ double q s

pub has_null : String → Bool
has_null [] = false
has_null (c ∷ s) = code c == 0 || has_null s

unfoldable pub quote_identifier : String → Result LoaderError String
unfolding double has_null
quote_identifier identifier =
    if is_blank identifier
    then err empty_identifier
    else if has_null identifier
    then err null_in_identifier
    else ok ("\"" ++ (double b'"' identifier ++ "\""))

abbrev then_quote :
    Result LoaderError String → Result LoaderError String → Result LoaderError String
then_quote (ok a) (ok b) = ok (a ++ ("." ++ b))
then_quote (ok a) (err e) = err e
then_quote (err e) _ = err e

unfoldable pub qualified_name : String → String → String → Result LoaderError String
unfolding quote_identifier
qualified_name database schema object_name =
    then_quote (quote_identifier database)
      (then_quote (quote_identifier schema) (quote_identifier object_name))

unfoldable pub sql_string : String → String
unfolding double
sql_string value = "'" ++ (double 39 value ++ "'")
