-- ===== src/Exec/Triple.antt =====
-- What holds after a piece of code when a precondition holds before it, by how it ends; one rule
-- for each way to build code.
use udhyam_msme_extractor.Prelude.{Bool, true, false, ◌≡◌, refl}
use udhyam_msme_extractor.Exec.{Result, ok, err, Exec, pure, raise, gets, branch, handle, ◌>>=◌}

abbrev pub Post : {S E A : Type 0} → (A → S → Type 0) → (E → S → Type 0) → Result E A × S → Type 0
Post Q X (ok a, s) = Q a s
Post Q X (err e, s) = X e s

pub record Triple {S E A : Type 0} (P : S → Type 0) (m : Exec S E A) (Q : A → S → Type 0)
    (X : E → S → Type 0) : Type 0 where
  pub at : (s : S) → P s → Post Q X (m s)

module _ {S E A : Type 0} {Q : A → S → Type 0} {X : E → S → Type 0} where
  Post-weaken :
      (R : A → S → Type 0) (Y : E → S → Type 0) (r : Result E A) (s : S)
      → ((a : A) (s : S) → R a s → Q a s)
      → ((e : E) (s : S) → Y e s → X e s)
      → Post R Y (r, s)
      → Post Q X (r, s)
  Post-weaken R Y (ok a) s k l h = k a s h
  Post-weaken R Y (err e) s k l h = l e s h

pub Post-map :
    {S E A : Type 0} (R Q : A → S → Type 0) (Y X : E → S → Type 0) (q : Result E A × S)
    → Post R Y q
    → ((a : A) (s : S) → R a s → Q a s)
    → ((e : E) (s : S) → Y e s → X e s)
    → Post Q X q
Post-map R Q Y X q h k l = Post-weaken {Q = Q} {X = X} R Y q.0 q.1 k l h

module _ {S E A : Type 0} {P : S → Type 0} {Q : A → S → Type 0} {X : E → S → Type 0} where
  pub Triple-pure : (a : A) → ((s : S) → P s → Q a s) → Triple P (pure a) Q X
  Triple-pure a h = record { at = h }

  pub Triple-raise : (e : E) → ((s : S) → P s → X e s) → Triple P (raise e) Q X
  Triple-raise e h = record { at = h }

  pub Triple-gets : (f : S → A) → ((s : S) → P s → Q (f s) s) → Triple P (gets f) Q X
  Triple-gets f h = record { at = h }

  pub Triple-weaken :
      {R : S → Type 0} (m : Exec S E A) → Triple R m Q X → ((s : S) → P s → R s) → Triple P m Q X
  Triple-weaken m h k = record { at = λ s p. h.at s (k s p) }

  pub Triple-post :
      (R : A → S → Type 0) (Y : E → S → Type 0) (m : Exec S E A)
      → Triple P m R Y
      → ((a : A) (s : S) → R a s → Q a s)
      → ((e : E) (s : S) → Y e s → X e s)
      → Triple P m Q X
  Triple-post R Y m h k l = record { at = λ s p. Post-weaken R Y (m s).0 (m s).1 k l (h.at s p) }

  pub Triple-branch :
      (b : Bool) (m n : Exec S E A)
      → (b ≡ true → Triple P m Q X)
      → (b ≡ false → Triple P n Q X)
      → Triple P (branch b m n) Q X
  Triple-branch true m n hm hn = hm refl
  Triple-branch false m n hm hn = hn refl

module _ {S E A B : Type 0} {Q : B → S → Type 0} {X : E → S → Type 0} where
  Post-bind :
      (R : A → S → Type 0) (f : A → Exec S E B) (r : Result E A) (s : S)
      → Post R X (r, s)
      → ((a : A) → Triple (R a) (f a) Q X)
      → Post Q X (((λ _. (r, s)) >>= f) s)
  Post-bind R f (ok a) s h k = (k a).at s h
  Post-bind R f (err e) s h k = h

  pub Triple-bind :
      {P : S → Type 0} (R : A → S → Type 0) (m : Exec S E A) (f : A → Exec S E B)
      → Triple P m R X
      → ((a : A) → Triple (R a) (f a) Q X)
      → Triple P (m >>= f) Q X
  Triple-bind R m f h k = record { at = λ s p. Post-bind R f (m s).0 (m s).1 (h.at s p) k }

module _ {S E F A : Type 0} {Q : A → S → Type 0} {X : E → S → Type 0} where
  Post-handle :
      (Y : F → S → Type 0) (g : F → Exec S E A) (r : Result F A) (s : S)
      → Post Q Y (r, s)
      → ((e : F) → Triple (Y e) (g e) Q X)
      → Post Q X (handle (λ _. (r, s)) g s)
  Post-handle Y g (ok a) s h k = h
  Post-handle Y g (err e) s h k = (k e).at s h

  pub Triple-handle :
      {P : S → Type 0} (Y : F → S → Type 0) (m : Exec S F A) (g : F → Exec S E A)
      → Triple P m Q Y
      → ((e : F) → Triple (Y e) (g e) Q X)
      → Triple P (handle m g) Q X
  Triple-handle Y m g h k = record { at = λ s p. Post-handle Y g (m s).0 (m s).1 (h.at s p) k }

module _ {S E A : Type 0} {Q : A → S → Type 0} {X : E → S → Type 0} where
  -- a precondition that does not speak of the state is a premise
  pub Triple-given :
      {C : Type 0} (m : Exec S E A) → (C → Triple (λ _. Unit) m Q X) → Triple (λ _. C) m Q X
  Triple-given m h = record { at = λ s c. (h c).at s tt }

module _ {S E A B : Type 0} (P : B → S → Type 0) (Q : B → A → S → Type 0) {X : E → S → Type 0} where
  -- a precondition that holds for some value
  pub Triple-exists :
      (m : Exec S E A)
      → ((b : B) → Triple (P b) m (Q b) X)
      → Triple (λ s. (b : B) × P b s) m (λ a s. (b : B) × Q b a s) X
  Triple-exists m h = record {
    at = λ s (b, p).
        Post-weaken (Q b) X (m s).0 (m s).1 (λ a s q. (b, q)) (λ _ _ x. x) ((h b).at s p);
  }

module _ {S E A : Type 0} (P : S → Type 0) (m : Exec S E A) where
  -- the run itself, which is all that is known of code that is a parameter
  abbrev pub Ran : A → S → Type 0
  Ran a s' = (s : S) × P s × (m s ≡ (ok a, s'))

  Post-Ran :
      (s : S) (r : Result E A) (s' : S) → P s → m s ≡ (r, s') → Post Ran (λ _ _. Unit) (r, s')
  Post-Ran s (ok a) s' h e = (s, h, e)
  Post-Ran s (err x) s' h e = tt

  pub Triple-Ran : Triple P m Ran (λ _ _. Unit)
  Triple-Ran = record { at = λ s h. Post-Ran s (m s).0 (m s).1 h refl }
