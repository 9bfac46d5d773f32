-- ===== src/Web/Cache.antt =====
-- `TTLCache` of webapp/backend/cache.py. A key's computation runs outside the lock, so `get_or_set` is
-- two steps that other threads may come between: the look-up and the store.
pub mod Fresh
pub mod Reuse
use udhyam_msme_extractor.Prelude.{
  ◌≡◌, ◌↔◌, Bool, true, false, Option, none, some, List, [], ◌∷◌, ℕ, ◌+◌, ltb, if◌then◌else◌,
}
use udhyam_msme_extractor.Exec.{Exec, Result, ok, err, pure, ◌>>=◌}

-- Keys that can be compared, as Python's are.
pub record Key (K : Type 0) : Type 0 where
  pub same : K → K → Bool
  pub same_iff : (a b : K) → (same a b ≡ true) ↔ (a ≡ b)

-- `_store`: the value and the time at which it expires
abbrev pub Entries : Type 0 → Type 0 → Type 0
Entries K V = List (K × V × ℕ)

abbrev pub unexpired : {V : Type 0} → ℕ → Option (V × ℕ) → Option V
unexpired now none = none
unexpired now (some (v, expires_at)) = if ltb now expires_at then some v else none

module _ {K V : Type 0} ⦃key : Key K⦄ where
  -- `self._store.get(key)`
  unfoldable pub get : K → Entries K V → Option (V × ℕ)
  get k [] = none
  get k ((j, v, expires_at) ∷ rest) = if key.same j k then some (v, expires_at) else get k rest

  -- the first locked block: the value, unless it has expired
  unfoldable pub fresh : K → ℕ → Entries K V → Option V
  unfolding get
  fresh k now store = unexpired now (get k store)

  -- the second locked block, `_store[key] = …`
  unfoldable pub put : K → V → ℕ → Entries K V → Entries K V
  put k v expires_at [] = (k, v, expires_at) ∷ []
  put k v expires_at ((j, w, e) ∷ rest) =
      if key.same j k then (j, v, expires_at) ∷ rest else (j, w, e) ∷ put k v expires_at rest

-- Where a cache lies in the state of the process, and the clock.
pub record Place (S K V : Type 0) : Type 0 where
  pub ttl : ℕ
  pub entries : S → Entries K V
  pub replace : Entries K V → S → S
  pub time : S → ℕ

module _ {S E K V : Type 0} ⦃key : Key K⦄ (cache : Place S K V) where
  unfoldable pub store_value : K → V → Exec S E V
  unfolding put
  store_value k v s = (ok v, cache.replace (put k v (cache.time s + cache.ttl) (cache.entries s)) s)

  unfoldable pub found_or : K → Option V → Exec S E V → Exec S E V
  unfolding store_value
  found_or k (some v) compute = pure v
  found_or k none compute = compute >>= store_value k

  -- the call of one thread, where no other comes between
  unfoldable pub get_or_set : K → Exec S E V → Exec S E V
  unfolding fresh found_or
  get_or_set k compute s = found_or k (fresh k (cache.time s) (cache.entries s)) compute s
