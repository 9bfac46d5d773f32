-- ===== src/Web/Cache/Fresh.antt =====
-- However the threads' calls are interleaved, nothing older than the time to live is served.
use udhyam_msme_extractor.Prelude.{
  ◌≡◌, refl, sym, subst, ◌⊎◌, inl, inr, Bool-cases, Option, none, some, List, [], ◌∷◌, ℕ, ◌+◌, ◌<◌,
  ltb, ltb→lt, All,
}
use udhyam_msme_extractor.Web.Cache.{Key, Entries, get, fresh, put, unexpired}

abbrev pub In : {A : Type 0} → A → List A → Type 0
In a [] = ⊥
In a (x ∷ xs) = (a ≡ x) ⊎ In a xs

-- A cache in use: its store, what was computed, for which key and when it was stored, and what calls
-- returned, for which key and when.
pub record Use (K V : Type 0) : Type 0 where
  pub store : Entries K V
  pub computed : List (K × V × ℕ)
  pub served : List (K × V × ℕ)

abbrev pub unused : {K V : Type 0} → Use K V
unused = record { store = []; computed = []; served = [] }

-- The value was computed for the key and stored `then'`, and it is not yet as old as the time to live.
abbrev pub Served : {K V : Type 0} → ℕ → List (K × V × ℕ) → K × V × ℕ → Type 0
Served ttl computed (k, v, now) =
    (then' : ℕ) × In (k, v, then') computed × ((now ≡ then') ⊎ (now < then' + ttl))

abbrev Stored : {K V : Type 0} → ℕ → List (K × V × ℕ) → K × V × ℕ → Type 0
Stored ttl computed (k, v, e) = (then' : ℕ) × In (k, v, then') computed × (e ≡ then' + ttl)

All-map :
    {A : Type 0} (P Q : A → Type 0) → ((a : A) → P a → Q a) → (xs : List A) → All P xs → All Q xs
All-map P Q f [] h = tt
All-map P Q f (x ∷ xs) h = (f x h.0, All-map P Q f xs h.1)

module _ {K V : Type 0} ⦃key : Key K⦄ (ttl : ℕ) where
  -- A step of some thread: its look-up finds a value, which it returns; or, after a look-up that found
  -- none, at whatever time that was, it has computed a value, stores and returns it.
  pub data Step : Use K V → Use K V → Type 0 where
    hit :
        (u : Use K V) (k : K) (v : V) (now : ℕ)
        → fresh k now u.store ≡ some v
        → Step u (record u { served = (k, v, now) ∷ u.served })
    computes :
        (u : Use K V) (k : K) (v : V) (now : ℕ)
        → Step u (record u {
          store = put k v (now + ttl) u.store;
          computed = (k, v, now) ∷ u.computed;
          served = (k, v, now) ∷ u.served;
        })

  -- any sequence of steps of any threads
  pub data Reach : Use K V → Type 0 where
    start : Reach unused
    next : {u u' : Use K V} → Reach u → Step u u' → Reach u'

  record Good (u : Use K V) : Type 0 where
    stored : All (Stored ttl u.computed) u.store
    served : All (Served ttl u.computed) u.served

  Stored-more :
      (c : K × V × ℕ) (computed : List (K × V × ℕ)) (x : K × V × ℕ)
      → Stored ttl computed x
      → Stored ttl (c ∷ computed) x
  Stored-more c computed (k, v, e) (then', i, h) = (then', inr i, h)

  Served-more :
      (c : K × V × ℕ) (computed : List (K × V × ℕ)) (x : K × V × ℕ)
      → Served ttl computed x
      → Served ttl (c ∷ computed) x
  Served-more c computed (k, v, e) (then', i, h) = (then', inr i, h)

  weaken :
      (c : K × V × ℕ) (computed : List (K × V × ℕ)) (store : Entries K V)
      → All (Stored ttl computed) store
      → All (Stored ttl (c ∷ computed)) store
  weaken c computed =
      All-map (Stored ttl computed) (Stored ttl (c ∷ computed)) (Stored-more c computed)

  put-Stored :
      (k : K) (v : V) (now : ℕ) (computed : List (K × V × ℕ)) (store : Entries K V)
      → All (Stored ttl computed) store
      → All (Stored ttl ((k, v, now) ∷ computed)) (put k v (now + ttl) store)
  unfolding put
  put-Stored k v now computed [] h = ((now, inl refl, refl), tt)
  put-Stored k v now computed ((j, w, e) ∷ rest) h = elim (Bool-cases (key.same j k)) [
    | inl same ↦
        rw (same, (key.same_iff j k).0 same)
          ((now, inl refl, refl), weaken (k, v, now) computed rest h.1)
    | inr other ↦
        rw other
          (Stored-more (k, v, now) computed (j, w, e) h.0, put-Stored k v now computed rest h.1)
  ]

  -- the entry found under the key is the one looked for
  Stored-found :
      (k j : K) (v w : V) (e f : ℕ) (computed : List (K × V × ℕ))
      → k ≡ j
      → ◌≡◌ {A = Option (V × ℕ)} (some (w, f)) (some (v, e))
      → Stored ttl computed (j, w, f)
      → Stored ttl computed (k, v, e)
  Stored-found k j v w e f computed p q h =
      let same : ◌≡◌ {A = K × V × ℕ} (j, w, f) (k, v, e) = cc in subst (Stored ttl computed) same h

  get-Stored :
      (k : K) (v : V) (e : ℕ) (computed : List (K × V × ℕ)) (store : Entries K V)
      → All (Stored ttl computed) store
      → get k store ≡ some (v, e)
      → Stored ttl computed (k, v, e)
  unfolding get
  get-Stored k v e computed [] h g = cc
  get-Stored k v e computed ((j, w, f) ∷ rest) h g = elim (Bool-cases (key.same j k)) [
    | inl same ↦
        Stored-found k j v w e f computed (sym ((key.same_iff j k).0 same)) ((rw same at g)) h.0
    | inr other ↦ get-Stored k v e computed rest h.1 (rw other at g)
  ]

  fresh-Served :
      (k : K) (v : V) (now : ℕ) (computed : List (K × V × ℕ)) (o : Option (V × ℕ))
      → ((e : ℕ) → o ≡ some (v, e) → Stored ttl computed (k, v, e))
      → unexpired now o ≡ some v
      → Served ttl computed (k, v, now)
  fresh-Served k v now computed none h f = cc
  fresh-Served k v now computed (some (w, e)) h f = elim (Bool-cases (ltb now e)) [
    | inl early ↦
        let f' : ◌≡◌ {A = Option V} (some w) (some v) = rw early at f in
        let (then', i, q) = h e cc in (then', i, inr (rw (← q) (ltb→lt now e early)))
    | inr late ↦ let f' : ◌≡◌ {A = Option V} none (some v) = rw late at f in cc
  ]

  Step-Good : {u u' : Use K V} → Step u u' → Good u → Good u'
  unfolding fresh
  Step-Good (hit u k v now f) g = record {
    stored = g.stored;
    served = (
      fresh-Served k v now u.computed (get k u.store)
          (λ e. get-Stored k v e u.computed u.store g.stored) f,
      g.served,
    );
  }
  Step-Good (computes u k v now) g = record {
    stored = put-Stored k v now u.computed u.store g.stored;
    served = (
      (now, inl refl, inl refl),
      All-map (Served ttl u.computed) (Served ttl ((k, v, now) ∷ u.computed))
          (Served-more (k, v, now) u.computed) u.served g.served,
    );
  }

  Reach-Good : {u : Use K V} → Reach u → Good u
  Reach-Good start = record { stored = tt; served = tt }
  Reach-Good (next r s) = Step-Good s (Reach-Good r)

  -- Whatever the threads do, and however their look-ups and stores are interleaved: each value that a
  -- call has returned was computed by a call for the same key, either by the same call or by one that
  -- stored it less than the time to live before.
  pub Reach-Served : (u : Use K V) → Reach u → All (Served ttl u.computed) u.served
  Reach-Served u r = (Reach-Good r).served
