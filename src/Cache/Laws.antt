-- ===== src/Cache/Laws.antt =====
-- The cache is a map whose entries vanish when their time has passed.
use noc_iq_be.Prelude.{
  ℕ, ◌+◌, ◌-◌, ◌≤◌, String, ◌≡◌, refl, Bool, not, none, some, [], ◌∷◌, arith, str_eq, eq_iff,
  eq_refl, ltb, leb, if◌then◌else◌, filter,
}
use noc_iq_be.Prelude.Dict.{Dict, lookup, lookup-insert, lookup-erase}
use noc_iq_be.Cache.{
  TtlCache, CacheResult, is_expired, get, get_with_meta, set, invalidate, invalidate_prefix,
}
use text.Mathlib.Text.{starts_with}

module _ {ℓ} {V : Type ℓ} where
  -- After a `set` a `get` of that key returns the value until its time has passed, and a `get` of
  -- another key what it returned before.
  pub get-set :
      (k j : String) (v : V) (t now : ℕ) (c : TtlCache V)
      → (get j now (set k v t c)).0
        ≡ (if str_eq k j then (if ltb (t + c.ttl) now then none else some v) else (get j now c).0)
  unfolding get set
  get-set k j v t now c = ground (arith, lookup-insert k j (v, t + c.ttl) c.store)

  -- Eviction cannot be seen: a `get` changes the result of no `get` of any key that comes at the same
  -- time or later.
  pub get-get :
      (k j : String) (now later : ℕ) (c : TtlCache V)
      → now ≤ later
      → (get j later (get k now c).1).0 ≡ (get j later c).0
  unfolding get
  get-get k j now later c h = ground (arith, lookup-erase k j c.store, eq_iff k j)

  -- After an invalidation of a key a `get` finds that key no more, and any other key as before.
  pub get-invalidate :
      (k j : String) (now : ℕ) (c : TtlCache V)
      → (get j now (invalidate k c)).0 ≡ (if str_eq k j then none else (get j now c).0)
  unfolding get invalidate
  get-invalidate k j now c = ground (arith, lookup-erase k j c.store)

  lookup-filter :
      (p : String → Bool) (j : String) (d : Dict (V × ℕ))
      → lookup j (filter (λ e. p e.0) d) ≡ (if p j then lookup j d else none)
  unfolding lookup
  lookup-filter p j [] = ground arith
  lookup-filter p j ((i, w) ∷ d) = ground (arith, eq_iff i j, lookup-filter p j d)

  -- After an invalidation of a prefix a `get` finds no key that starts with it, and any other key as
  -- before.
  pub get-invalidate_prefix :
      (prefix j : String) (now : ℕ) (c : TtlCache V)
      → (get j now (invalidate_prefix prefix c)).0
        ≡ (if starts_with j prefix then none else (get j now c).0)
  unfolding get invalidate_prefix
  get-invalidate_prefix prefix j now c =
      ground (arith, lookup-filter (λ k. not (starts_with k prefix)) j c.store)

  -- After a `set` the read with metadata sees the value, however old, with the time since it was set
  -- and the time that is left of its time to live, none of which is left from its expiry on.
  pub get_with_meta-set :
      (k : String) (v : V) (t now : ℕ) (c : TtlCache V)
      → t ≤ now
      → (r : CacheResult V) × (get_with_meta k now (set k v t c) ≡ some r)
        × (r.value ≡ v)
        × (r.age_seconds ≡ now - t)
        × (r.ttl_remaining ≡ t + c.ttl - now)
        × (is_expired r ≡ leb (t + c.ttl) now)
  unfolding get_with_meta set is_expired
  get_with_meta-set k v t now c h = (
    record { value = v; age_seconds = now + c.ttl - (t + c.ttl); ttl_remaining = t + c.ttl - now },
    ground (arith, lookup-insert k k (v, t + c.ttl) c.store, eq_refl k),
    refl,
    omega arith,
    refl,
    ground arith,
  )
