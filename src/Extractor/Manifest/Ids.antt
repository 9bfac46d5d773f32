-- ===== src/Extractor/Manifest/Ids.antt =====
-- A batch id identifies its batch.
use Prim.Native.String.{[], ◌∷◌, ◌++◌}
use text.Mathlib.TextLemmas.{
  nil-append, cons-append, append_cancel_left, head-eq_of_cons-eq, tail-eq_of_cons-eq,
}
use udhyam_msme_extractor.Prelude.{String, ◌≡◌, refl, sym, ap, ◌∙◌, subst, ℕ, arith}
use udhyam_msme_extractor.Prelude.Text.{to_str}
use udhyam_msme_extractor.Prelude.Numerals.Read.{AllDigits, to_str-AllDigits, to_str-injective}
use udhyam_msme_extractor.Extractor.Manifest.{get_batch_id}

-- digits hold no underscore
no_underscore : (s d : String) → AllDigits (s ++ ("_" ∷ d)) → ⊥
no_underscore [] d h =
    let h' : AllDigits ("_" ∷ d) = subst AllDigits (nil-append ("_" ∷ d)) h in omega (arith, h'.1)
no_underscore (c ∷ s) d h =
    let h' : AllDigits (c ∷ (s ++ ("_" ∷ d))) = subst AllDigits (cons-append c s ("_" ∷ d)) h in
    no_underscore s d h'.2

-- The last underscore tells a text from the digits after it.
split_last :
    (s t c d : String)
    → AllDigits c
    → AllDigits d
    → s ++ ("_" ∷ c) ≡ t ++ ("_" ∷ d)
    → (s ≡ t) × (c ≡ d)
split_last [] [] c d hc hd e =
    (refl, tail-eq_of_cons-eq (sym (nil-append ("_" ∷ c)) ∙ e ∙ nil-append ("_" ∷ d)))
split_last [] (y ∷ t) c d hc hd e =
    let p : c ≡ t ++ ("_" ∷ d) =
      tail-eq_of_cons-eq (sym (nil-append ("_" ∷ c)) ∙ e ∙ cons-append y t ("_" ∷ d)) in
    absurd (no_underscore t d (subst AllDigits p hc))
split_last (x ∷ s) [] c d hc hd e =
    let p : s ++ ("_" ∷ c) ≡ d =
      tail-eq_of_cons-eq (sym (cons-append x s ("_" ∷ c)) ∙ e ∙ nil-append ("_" ∷ d)) in
    absurd (no_underscore s c (subst AllDigits (sym p) hd))
split_last (x ∷ s) (y ∷ t) c d hc hd e =
    let p : x ∷ (s ++ ("_" ∷ c)) ≡ y ∷ (t ++ ("_" ∷ d)) =
      sym (cons-append x s ("_" ∷ c)) ∙ e ∙ cons-append y t ("_" ∷ d) in
    let (q, r) = split_last s t c d hc hd (tail-eq_of_cons-eq p) in
    (ap (λ z. z ∷ s) (head-eq_of_cons-eq p) ∙ ap (λ z. y ∷ z) q, r)

underscore_cons : (d : String) → "_" ++ d ≡ "_" ∷ d
underscore_cons d = cons-append "_" [] d ∙ ap (λ z. "_" ∷ z) (nil-append d)

-- Within a run, batches with the same id are of the same state and have the same offset, whatever
-- underscores the name of a state holds.
pub get_batch_id-injective :
    (run_id state state' : String) (offset offset' : ℕ)
    → get_batch_id run_id state offset ≡ get_batch_id run_id state' offset'
    → (state ≡ state') × (offset ≡ offset')
unfolding get_batch_id
get_batch_id-injective run_id state state' offset offset' e =
    let p : "_" ++ (state ++ ("_" ++ to_str offset)) ≡ "_" ++ (state' ++ ("_" ++ to_str offset')) =
      append_cancel_left run_id _ _ e in
    let (q, r) =
      split_last state state' (to_str offset) (to_str offset') (to_str-AllDigits offset)
        (to_str-AllDigits offset')
        (ap (λ z. state ++ z) (sym (underscore_cons (to_str offset)))
          ∙ append_cancel_left "_" _ _ p
          ∙ ap (λ z. state' ++ z) (underscore_cons (to_str offset'))) in
    (q, to_str-injective offset offset' r)
