-- ===== src/SearchRouter/Cached.antt =====
-- The cache does not show: every answer is the one that the routing table gives.
use scety.Prelude.{
  ℕ, zero, suc, ◌≡◌, refl, ap, ap₂, subst, sym, ◌∙◌, inl, inr, Option, some, List, [], ◌∷◌, map,
  Option-cases,
}
use scety.Text.{Text}
use scety.Config.Services.{ClientConfig}
use scety.HostRouter.{HostRouter, matches}
use scety.SearchRouter.{
  LruCache, SearchRouter, new, config_at, find, find_each, with_cache_capacity,
}

module _ (lru : LruCache) where
  open lru use {Cache, get, put, peek, peek_new, get_value, peek_get, peek_put}

  -- Every cached answer is the table's.
  pub record Coherent (s : SearchRouter lru) : Type 0 where
    pub cached :
        (host : Text) (r : Option ℕ) → peek host s.cache ≡ some r → r ≡ matches s.router host

  -- The answer without a cache.
  abbrev pub direct : SearchRouter lru → Text → Option ClientConfig
  direct s host = config_at lru s.configs (matches s.router host)

  pub new-Coherent : (configs : List ClientConfig) → Coherent (new lru configs)
  unfolding new
  new-Coherent configs = record { cached = λ host r e. absurd (cc (peek_new host 128)) }

  pub find-direct :
      (host : Text) (s : SearchRouter lru)
      → Coherent s
      → ((find lru host s).0 ≡ direct s host)
        × Coherent (find lru host s).1
        × ((find lru host s).1.router ≡ s.router)
        × ((find lru host s).1.configs ≡ s.configs)
  unfolding find
  find-direct host s coherent = elim (Option-cases (get host s.cache).0) [
    | inl miss ↦
        rw (miss, find)
          (
            refl,
            record {
              cached = λ j r e.
                  elim (peek_put j host (matches s.router host) r (get host s.cache).1 e) [
                    | inl (same, value) ↦ rw (value, same)
                    | inr old ↦ coherent.cached j r (sym (peek_get j host s.cache) ∙ old)
                  ];
            },
            refl,
            refl,
          )
    | inr (r, hit) ↦
        rw (hit, find)
          (
            ap (config_at lru s.configs)
                (coherent.cached host r (sym (get_value host s.cache) ∙ hit)),
            record { cached = λ j r e. coherent.cached j r (sym (peek_get j host s.cache) ∙ e) },
            refl,
            refl,
          )
  ]

  find_each-direct :
      (hosts : List Text) (s : SearchRouter lru)
      → Coherent s
      → find_each lru hosts s ≡ map (direct s) hosts
  unfolding find_each
  find_each-direct [] s coherent = refl
  find_each-direct (host ∷ hosts) s coherent =
      let (answer, coherent', table, list) = find-direct host s coherent in
      ap₂ ◌∷◌ answer (
        find_each-direct hosts (find lru host s).1 coherent'
        ∙ ap₂
            (λ (c : List ClientConfig) (r : HostRouter).
              map (λ h. config_at lru c (matches r h)) hosts)
            list table)

  -- However many hosts are looked up one after the other, each answer is the configuration that the
  -- routing table names for that host: the cache changes none.
  pub find_each-new :
      (configs : List ClientConfig) (hosts : List Text)
      → find_each lru hosts (new lru configs) ≡ map (direct (new lru configs)) hosts
  find_each-new configs hosts = find_each-direct hosts (new lru configs) (new-Coherent configs)

  -- With a cache of another capacity, where it is accepted, the router and the configurations are the
  -- same, and every cached answer is the routing table's.
  with_cache_capacity-Coherent :
      (s t : SearchRouter lru) (capacity : ℕ)
      → with_cache_capacity lru s capacity ≡ some t
      → Coherent t × (t.router ≡ s.router) × (t.configs ≡ s.configs)
  unfolding with_cache_capacity
  with_cache_capacity-Coherent s t zero e = absurd (cc)
  with_cache_capacity-Coherent s t (suc n) e =
      let resized : SearchRouter lru = record s {
        cache_capacity = suc n;
        cache = LruCache.new lru (suc n);
      } in
      let same : resized ≡ t = cc in
      subst (λ u. Coherent u × (u.router ≡ s.router) × (u.configs ≡ s.configs)) same
        (record { cached = λ host r q. absurd (cc (peek_new host (suc n))) }, refl, refl)
