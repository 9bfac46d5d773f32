-- ===== src/Storage/Uri/Address.antt =====
-- The address of an object reads back as its parts.
use Prim.Native.Char.{Char}
use Prim.Native.String.{[], ◌∷◌, ◌++◌}
use text.Mathlib.TextLemmas.{nil-append, cons-append}
use udhyam_msme_extractor.Prelude.{◌≡◌, refl, ap, ◌∙◌, String, Bool, true, false, not, ◌&&◌}
use udhyam_msme_extractor.Prelude.Text.{split_at, lower}
use udhyam_msme_extractor.Storage.Uri.{
  ends_netloc, ends_path, urlparse, with_scheme, after_scheme, is_scheme, starts_with_letter,
}

-- no character of the text passes the test
unfoldable pub avoids : (Char → Bool) → String → Bool
avoids p [] = true
avoids p (c ∷ s) = not (p c) && avoids p s

first_avoids : (a b : Bool) → not a && b ≡ true → a ≡ false
first_avoids true b h = cc
first_avoids false b h = refl

rest_avoids : (a b : Bool) → not a && b ≡ true → b ≡ true
rest_avoids true b h = cc
rest_avoids false b h = h

pub avoids-append :
    (p : Char → Bool) (s t : String)
    → avoids p s ≡ true
    → avoids p t ≡ true
    → avoids p (s ++ t) ≡ true
unfolding avoids
avoids-append p [] t h k = rw nil-append k
avoids-append p (c ∷ s) t h k =
    rw (cons-append, avoids, first_avoids (p c) (avoids p s) h)
      (avoids-append p s t (rest_avoids (p c) (avoids p s) h) k)

split_at-avoids : (p : Char → Bool) (s : String) → avoids p s ≡ true → split_at p s ≡ (s, [])
unfolding split_at avoids
split_at-avoids p [] h = refl
split_at-avoids p (c ∷ s) h =
    rw (first_avoids (p c) (avoids p s) h, split_at-avoids p s (rest_avoids (p c) (avoids p s) h))
      refl

split_at-end :
    (p : Char → Bool) (s : String) (c : Char) (t : String)
    → avoids p s ≡ true
    → p c ≡ true
    → split_at p (s ++ (c ∷ t)) ≡ (s, c ∷ t)
unfolding split_at avoids
split_at-end p [] c t h k = rw (nil-append, k) refl
split_at-end p (d ∷ s) c t h k =
    rw
      (
        cons-append,
        split_at,
        first_avoids (p d) (avoids p s) h,
        split_at-end p s c t (rest_avoids (p d) (avoids p s) h) k,
      )
      refl

-- a bucket's name
abbrev pub IsNetloc : String → Type 0
IsNetloc bucket = avoids ends_netloc bucket ≡ true

-- an object's name, in its address
abbrev pub IsPath : String → Type 0
IsPath name = avoids ends_path name ≡ true

after_scheme-address :
    (scheme bucket name : String)
    → IsNetloc bucket
    → IsPath name
    → after_scheme scheme ("/" ∷ ("/" ∷ (bucket ++ ("/" ∷ name))))
      ≡ record { scheme = scheme; netloc = bucket; path = "/" ∷ name }
unfolding after_scheme avoids
after_scheme-address scheme bucket name h k =
    let slash : avoids ends_path ("/" ∷ name) ≡ true = k in
    rw
      (
        split_at-end ends_netloc bucket "/" name h refl,
        split_at-avoids ends_path ("/" ∷ name) slash,
      )
      refl

cons_literal : (c : Char) (t : String) → (c ∷ []) ++ t ≡ c ∷ t
cons_literal c t = cons-append c [] t ∙ ap (λ z. c ∷ z) (nil-append t)

-- `gs` or `s3` in front of `://`
two_letters :
    (a b : Char) (t : String) → (a ∷ (b ∷ [])) ++ ("://" ++ t) ≡ a ∷ (b ∷ (":" ∷ ("/" ∷ ("/" ∷ t))))
two_letters a b t =
    rw (cons-append, cons-append, nil-append, cons-append, cons-append, cons-append, nil-append)
      refl

pub urlparse-gs :
    (bucket name : String)
    → IsNetloc bucket
    → IsPath name
    → urlparse ("gs" ++ ("://" ++ (bucket ++ ("/" ++ name))))
      ≡ record { scheme = "gs"; netloc = bucket; path = "/" ∷ name }
unfolding urlparse with_scheme split_at is_scheme starts_with_letter lower
urlparse-gs bucket name h k =
    rw (two_letters, cons_literal) (after_scheme-address "gs" bucket name h k)

pub urlparse-s3 :
    (bucket name : String)
    → IsNetloc bucket
    → IsPath name
    → urlparse ("s3" ++ ("://" ++ (bucket ++ ("/" ++ name))))
      ≡ record { scheme = "s3"; netloc = bucket; path = "/" ∷ name }
unfolding urlparse with_scheme split_at is_scheme starts_with_letter lower
urlparse-s3 bucket name h k =
    rw (two_letters, cons_literal) (after_scheme-address "s3" bucket name h k)
