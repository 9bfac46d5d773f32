-- ===== src/Storage/Uri.antt =====
-- `urllib.parse.urlparse` of an object's address, as far as the code reads it: the scheme, the
-- network location and the path, for texts with no control characters and no brackets.
pub mod Address
use Prim.Native.Char.{Char, code}
use Prim.Native.String.{[], ◌∷◌}
use udhyam_msme_extractor.Prelude.{
  ◌≡◌, refl, String, Bool, true, false, ◌&&◌, ◌||◌, ◌==◌, leb, if◌then◌else◌,
}
use udhyam_msme_extractor.Prelude.Text.{split_at, lower}

pub record ParseResult : Type 0 where
  pub scheme : String
  pub netloc : String
  pub path : String

abbrev pub is_colon : Char → Bool
is_colon c = code c == b':'

-- the characters that end a network location
abbrev pub ends_netloc : Char → Bool
ends_netloc c = code c == b'/' || code c == b'?' || code c == b'#'

-- the characters that end a path
abbrev pub ends_path : Char → Bool
ends_path c = code c == b'?' || code c == b'#'

abbrev pub is_letter : Char → Bool
is_letter c = (leb b'a' (code c) && leb (code c) b'z') || (leb b'A' (code c) && leb (code c) b'Z')

-- the letters, digits, `+`, `-` and `.`
abbrev pub is_scheme_char : Char → Bool
is_scheme_char c =
    is_letter c
    || (leb b'0' (code c) && leb (code c) b'9')
    || code c == b'+'
    || code c == b'-'
    || code c == b'.'

pub is_scheme : String → Bool
is_scheme [] = true
is_scheme (c ∷ s) = is_scheme_char c && is_scheme s

pub starts_with_letter : String → Bool
starts_with_letter [] = false
starts_with_letter (c ∷ s) = is_letter c

-- what follows the scheme and its colon
pub after_scheme : String → String → ParseResult
after_scheme scheme (c ∷ d ∷ rest) =
    let parts = split_at ends_netloc rest in
    if code c == b'/' && code d == b'/'
    then record { scheme = scheme; netloc = parts.0; path = (split_at ends_path parts.1).0 }
    else record { scheme = scheme; netloc = []; path = (split_at ends_path (c ∷ d ∷ rest)).0 }
after_scheme scheme rest = record {
  scheme = scheme;
  netloc = [];
  path = (split_at ends_path rest).0;
}

pub with_scheme : String → String × String → ParseResult
with_scheme url (scheme, []) = after_scheme [] url
with_scheme url (scheme, colon ∷ rest) =
    if starts_with_letter scheme && is_scheme scheme
    then after_scheme (lower scheme) rest
    else after_scheme [] url

unfoldable pub urlparse : String → ParseResult
unfolding is_scheme starts_with_letter after_scheme with_scheme split_at lower
urlparse url = with_scheme url (split_at is_colon url)

urlparse_runs :
    urlparse "s3://b-1/udyam/raw/x y.csv#f"
    ≡ record { scheme = "s3"; netloc = "b-1"; path = "/udyam/raw/x y.csv" }
unfolding urlparse
urlparse_runs = refl
