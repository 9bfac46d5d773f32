-- ===== src/Storage/Object/Published.antt =====
-- The address that a publication returns is one that `validate_artifact` accepts.
use Prim.Native.Char.{Char, code}
use Prim.Native.String.{[], ◌∷◌, ◌++◌}
use text.Mathlib.TextLemmas.{cons-append, cons≢nil}
use udhyam_msme_extractor.Prelude.{
  ◌≡◌, refl, sym, ap, ◌∙◌, String, true, false, Bool-cases, inl, inr, some, ℕ, ◌==◌, eq_iff,
}
use udhyam_msme_extractor.Prelude.Text.{is_blank, lstrip_slash, file_name}
use udhyam_msme_extractor.Exec.Triple.{Post, Triple-post}
use udhyam_msme_extractor.Storage.Disk.{Shelf, Client}
use udhyam_msme_extractor.Storage.Uri.{ends_path, urlparse}
use udhyam_msme_extractor.Storage.Uri.Address.{
  avoids, avoids-append, IsNetloc, IsPath, urlparse-gs, urlparse-s3,
}
use udhyam_msme_extractor.Storage.Object.{
  ObjectStorage, Provider, gcs, s3, scheme, run_root, object_name, uri, check_head,
  validate_artifact, publish_batch, publish_compacted_batch, content_addressed_name,
}
use udhyam_msme_extractor.Storage.Object.Verified.{
  Verified, Any, compacted_name, publish_batch-Verified, publish_compacted_batch-Verified,
}

-- The text begins with a character that is no slash.
abbrev Begins : String → Type 0
Begins s = (c : Char) × (t : String) × (s ≡ c ∷ t) × (code c == b'/' ≡ false)

-- no slash in front, as `__init__` leaves the prefix
abbrev pub IsStripped : String → Type 0
IsStripped [] = Unit
IsStripped (c ∷ s) = code c == b'/' ≡ false

-- A bucket and a prefix that stand in an address as they are.
pub record IsPlain (o : ObjectStorage) : Type 0 where
  pub bucket : IsNetloc o.bucket_name
  pub prefix : IsPath o.prefix
  pub stripped : IsStripped o.prefix

not_blank : (s : String) → Begins s → is_blank s ≡ false
not_blank s (c, t, e, h) = elim (Bool-cases (is_blank s)) [
  | inl b ↦ absurd (cons≢nil (sym e ∙ (eq_iff s []).0 b))
  | inr b ↦ b
]

lstrip_slash-Begins : (s : String) → Begins s → lstrip_slash s ≡ s
unfolding lstrip_slash
lstrip_slash-Begins s (c, t, e, h) = rw (e, lstrip_slash, h) refl

Begins-append : (s t : String) → Begins s → Begins (s ++ t)
Begins-append s t (c, r, e, h) = (c, r ++ t, ap (λ x. x ++ t) e ∙ cons-append c r t, h)

Begins-stripped : (s : String) → is_blank s ≡ false → IsStripped s → Begins s
Begins-stripped [] b h = cc
Begins-stripped (c ∷ s) b h = (c, s, refl, h)

IsPath-append : (s t : String) → IsPath s → IsPath t → IsPath (s ++ t)
IsPath-append s t h k = avoids-append ends_path s t h k

run_root-IsPath :
    (o : ObjectStorage) (run_id : String)
    → IsPlain o
    → IsPath run_id
    → IsPath (run_root o run_id) × Begins (run_root o run_id)
unfolding run_root avoids
run_root-IsPath o run_id p h = elim (Bool-cases (is_blank o.prefix)) [
  | inl b ↦
      rw b (IsPath-append "run_id=" run_id refl h, ("r", _, cons-append "r" "un_id=" run_id, refl))
  | inr b ↦ rw b (
    IsPath-append o.prefix ("/run_id=" ++ run_id) p.prefix (IsPath-append "/run_id=" run_id refl h),
    Begins-append o.prefix ("/run_id=" ++ run_id) (Begins-stripped o.prefix b p.stripped),
  )
]

object_name-IsPath :
    (o : ObjectStorage) (run_id state filename : String)
    → IsPlain o
    → IsPath run_id
    → IsPath state
    → IsPath filename
    → IsPath (object_name o run_id state filename true)
      × Begins (object_name o run_id state filename true)
unfolding object_name avoids
object_name-IsPath o run_id state filename p h k l =
    let (a, b) = run_root-IsPath o run_id p h in
    (
      IsPath-append (run_root o run_id) _ a (
          IsPath-append "/state=" (state ++ ("/batches/" ++ filename)) refl (
            IsPath-append state ("/batches/" ++ filename) k
              (IsPath-append "/batches/" filename refl l))),
      Begins-append (run_root o run_id) _ b,
    )

urlparse-scheme :
    (q : Provider) (bucket name : String)
    → IsNetloc bucket
    → IsPath name
    → urlparse (scheme q ++ ("://" ++ (bucket ++ ("/" ++ name))))
      ≡ record { scheme = scheme q; netloc = bucket; path = "/" ∷ name }
unfolding scheme
urlparse-scheme gcs bucket name h k = urlparse-gs bucket name h k
urlparse-scheme s3 bucket name h k = urlparse-s3 bucket name h k

-- The address of an object reads back as its provider, its bucket and its name.
pub urlparse-uri :
    (o : ObjectStorage) (name : String)
    → IsPlain o
    → IsPath name
    → urlparse (uri o name)
      ≡ record { scheme = scheme o.provider; netloc = o.bucket_name; path = "/" ∷ name }
unfolding uri
urlparse-uri o name p h = urlparse-scheme o.provider o.bucket_name name p.bucket h

scheme-Begins : (q : Provider) → Begins (scheme q)
unfolding scheme
scheme-Begins gcs = ("g", "s", refl, refl)
scheme-Begins s3 = ("s", "3", refl, refl)

uri-not_blank : (o : ObjectStorage) (name : String) → is_blank (uri o name) ≡ false
unfolding uri
uri-not_blank o name =
    not_blank (uri o name) (Begins-append (scheme o.provider) _ (scheme-Begins o.provider))

module _ {Store : Type 0} (client : Client Store) (o : ObjectStorage) where
  validate_artifact-uri :
      (name checksum : String) (s : Shelf Store)
      → IsPlain o
      → IsPath name × Begins name
      → is_blank checksum ≡ false
      → validate_artifact client o (some (uri o name)) (some checksum) s
        ≡ check_head o.provider checksum (client.head name s.cloud)
  unfolding validate_artifact lstrip_slash
  validate_artifact-uri name checksum s p (h, b) c =
      rw
        (
          uri-not_blank o name,
          c,
          urlparse-uri o name p h,
          (eq_iff (scheme o.provider) (scheme o.provider)).1 refl,
          (eq_iff o.bucket_name o.bucket_name).1 refl,
          lstrip_slash-Begins name b,
          not_blank name b,
        )
        refl

  Verified-validated :
      (name checksum u : String) (s : Shelf Store)
      → IsPlain o
      → IsPath name × Begins name
      → is_blank checksum ≡ false
      → Verified client o name checksum u s
      → validate_artifact client o (some u) (some checksum) s ≡ (true, "")
  Verified-validated name checksum u s p n c (e, h) =
      rw e (validate_artifact-uri name checksum s p n c ∙ h)

  -- What `publish_batch` returns passes `validate_artifact` at once: the address reads back as the
  -- bucket and the very object that was seen there. The bucket's name must have no slash and, with the
  -- prefix, the run, the state and the file's name, no question mark and no hash sign; the prefix must
  -- not begin with a slash, and the checksum must not be blank.
  pub publish_batch-validate_artifact :
      (path run_id state : String) (offset : ℕ) (checksum : String) (s : Shelf Store)
      → IsPlain o
      → IsPath run_id
      → IsPath state
      → IsPath (file_name path)
      → is_blank checksum ≡ false
      → Post
          (λ u s'. validate_artifact client o (some u) (some checksum) s' ≡ (true, ""))
          (Any client o)
          (publish_batch client o path run_id state offset checksum s)
  publish_batch-validate_artifact path run_id state offset checksum s p r t f c =
      let name = object_name o run_id state (file_name path) true in
      (Triple-post {P = λ x. x ≡ s} (Verified client o name checksum) (Any client o)
          (publish_batch client o path run_id state offset checksum)
          (record {
            at = λ s' e. publish_batch-Verified client o path run_id state offset checksum s';
          })
          (λ u s' v.
            Verified-validated name checksum u s' p
              (object_name-IsPath o run_id state (file_name path) p r t f) c v)
          (λ e s' x. x)).at
        s refl

  -- So does what `publish_compacted_batch` returns, whether the object was uploaded now or there
  -- before, under the same conditions on the name that carries the checksum.
  pub publish_compacted_batch-validate_artifact :
      (path run_id state : String) (index : ℕ) (checksum : String) (s : Shelf Store)
      → IsPlain o
      → IsPath run_id
      → IsPath state
      → IsPath (content_addressed_name client o path checksum)
      → is_blank checksum ≡ false
      → Post
          (λ u s'. validate_artifact client o (some u) (some checksum) s' ≡ (true, ""))
          (Any client o)
          (publish_compacted_batch client o path run_id state index checksum s)
  publish_compacted_batch-validate_artifact path run_id state index checksum s p r t f c =
      let name = compacted_name client o path run_id state checksum in
      (Triple-post {P = λ x. x ≡ s} (Verified client o name checksum) (Any client o)
          (publish_compacted_batch client o path run_id state index checksum)
          (record {
            at = λ s' e.
                publish_compacted_batch-Verified client o path run_id state index checksum s';
          })
          (λ u s' v.
            Verified-validated name checksum u s' p
              (object_name-IsPath o run_id state (content_addressed_name client o path checksum) p r
                t f)
              c v)
          (λ e s' x. x)).at
        s refl
