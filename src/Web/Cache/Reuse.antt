-- ===== src/Web/Cache/Reuse.antt =====
-- What a cache holds is used again until it expires.
use udhyam_msme_extractor.Prelude.{
  ◌≡◌, refl, sym, subst, ◌∙◌, ap, Bool-cases, inl, inr, none, some, [], ◌∷◌, ℕ, ◌+◌, ◌<◌, arith,
  true, ltb,
}
use udhyam_msme_extractor.Exec.{Exec, ok, ◌>>=◌}
use udhyam_msme_extractor.Web.Cache.{
  Key, Entries, Place, get, put, fresh, get_or_set, found_or, store_value,
}

module _ {K V : Type 0} ⦃key : Key K⦄ where
  get-put : (k : K) (v : V) (e : ℕ) (store : Entries K V) → get k (put k v e store) ≡ some (v, e)
  unfolding get put
  get-put k v e [] = rw ((key.same_iff k k).1 refl) refl
  get-put k v e ((j, w, f) ∷ rest) = elim (Bool-cases (key.same j k)) [
    | inl same ↦ rw (same, same) refl
    | inr other ↦ rw (other, other) (get-put k v e rest)
  ]

  fresh-put :
      (k : K) (v : V) (e now : ℕ) (store : Entries K V)
      → now < e
      → fresh k now (put k v e store) ≡ some v
  unfolding fresh
  fresh-put k v e now store lt =
      let early : ltb now e ≡ true = ground (arith, lt) in rw (get-put k v e store, early) refl

-- the cache's part of the state can be set and read back
abbrev pub IsPlace : {S K V : Type 0} → Place S K V → Type 0
IsPlace {S = S} {K = K} {V = V} cache =
    (store : Entries K V) (s : S) → cache.entries (cache.replace store s) ≡ store

module _ {S E K V : Type 0} ⦃key : Key K⦄ (cache : Place S K V) where
  missed :
      (k : K) (compute : Exec S E V) (v : V) (s s' : S)
      → fresh k (cache.time s) (cache.entries s) ≡ none
      → compute s ≡ (ok v, s')
      → get_or_set cache k compute s
        ≡ (ok v, cache.replace (put k v (cache.time s' + cache.ttl) (cache.entries s')) s')
  unfolding get_or_set found_or store_value
  missed k compute v s s' miss h =
      rw miss
        (subst (λ p. ((λ _. p) >>= store_value cache k) s ≡ store_value cache k v s') (sym h) refl)

  -- A value that had to be computed is returned by the next call for its key too, and nothing is
  -- computed or changed by that call, as long as the cache has not been written to since and less than
  -- the time to live has passed since the value was stored.
  pub get_or_set-reuse :
      (k : K) (compute again : Exec S E V) (v : V) (s s' later : S)
      → IsPlace cache
      → fresh k (cache.time s) (cache.entries s) ≡ none
      → compute s ≡ (ok v, s')
      → cache.entries later ≡ cache.entries (get_or_set cache k compute s).1
      → cache.time later < cache.time s' + cache.ttl
      → get_or_set cache k again later ≡ (ok v, later)
  unfolding get_or_set found_or
  get_or_set-reuse k compute again v s s' later law miss h kept lt =
      let stored : cache.entries later ≡ put k v (cache.time s' + cache.ttl) (cache.entries s') =
        kept ∙ ap (λ p. cache.entries p.1) (missed k compute v s s' miss h) ∙ law _ s' in
      rw
        (stored, fresh-put k v (cache.time s' + cache.ttl) (cache.time later) (cache.entries s') lt)
        refl
