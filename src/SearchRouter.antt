-- ===== src/SearchRouter.antt =====
-- core/search_router.rs: the routing table of a port behind a cache of resolved hosts. The cache is
-- the `lru` crate's, a parameter; its `Mutex` makes concurrent calls of `find` a sequence.
use scety.Prelude.{
  ℕ, zero, suc, ◌≡◌, ◌⊎◌, ◌≢◌, Option, none, some, List, [], ◌∷◌, ◌++◌, get_elem?, map,
}
use scety.Text.{Text}
use scety.Config.Services.{ClientConfig}
use scety.HostRouter
use scety.HostRouter.{HostRouter, add_pattern, matches}
pub mod Patterns
pub mod Cached
pub mod Found

-- `LruCache<String, Option<usize>>` with what its documentation says of `peek`: `get` answers it and
-- changes nothing but the order, and after `put` a key has its new value, or the one it had, or
-- none, if it was evicted.
pub record LruCache : Type 1 where
  pub Cache : Type 0
  pub new : ℕ → Cache
  pub get : Text → Cache → Option (Option ℕ) × Cache
  pub put : Text → Option ℕ → Cache → Cache
  pub peek : Text → Cache → Option (Option ℕ)
  pub peek_new : (k : Text) (capacity : ℕ) → peek k (new capacity) ≡ none
  pub get_value : (k : Text) (c : Cache) → (get k c).0 ≡ peek k c
  pub peek_get : (j k : Text) (c : Cache) → peek j (get k c).1 ≡ peek j c
  pub peek_put :
      (j k : Text) (v w : Option ℕ) (c : Cache)
      → peek j (put k v c) ≡ some w
      → ((j ≡ k) × (w ≡ v)) ⊎ (peek j c ≡ some w)

-- `if let Some(host) = &config.host` and `if let Some(hosts) = &config.hosts`
unfoldable pub add_host : ℕ → Option Text → HostRouter → HostRouter
unfolding add_pattern
add_host index none r = r
add_host index (some host) r = add_pattern host index r

unfoldable pub add_hosts : ℕ → List Text → HostRouter → HostRouter
unfolding add_pattern
add_hosts index [] r = r
add_hosts index (host ∷ hosts) r = add_hosts index hosts (add_pattern host index r)

abbrev pub hosts_or_none : Option (List Text) → List Text
hosts_or_none none = []
hosts_or_none (some hosts) = hosts

-- `for (index, config) in configs.iter().enumerate()`
unfoldable pub add_configs : ℕ → List ClientConfig → HostRouter → HostRouter
unfolding add_host add_hosts
add_configs index [] r = r
add_configs index (config ∷ configs) r =
    add_configs (suc index) configs
      (add_hosts index (hosts_or_none config.hosts) (add_host index config.host r))

module _ (lru : LruCache) where
  open lru use {Cache, get, put}

  pub record SearchRouter : Type 0 where
    pub router : HostRouter
    pub configs : List ClientConfig
    pub cache : Cache
    pub cache_capacity : ℕ

  unfoldable pub new : List ClientConfig → SearchRouter
  unfolding add_configs
  new configs = record {
    router = add_configs 0 configs HostRouter.new;
    configs = configs;
    cache = LruCache.new lru 128;
    cache_capacity = 128;
  }

  -- `resolved_index.and_then(|index| self.configs.get(index))`
  unfoldable pub config_at : List ClientConfig → Option ℕ → Option ClientConfig
  config_at configs none = none
  config_at configs (some index) = get_elem? configs index

  -- `find`, that is `find_with_cache`.
  unfoldable pub find : Text → SearchRouter → Option ClientConfig × SearchRouter
  unfolding config_at matches
  find host s =
      let (cached, cache) = get host s.cache in
      let resolved_index = matches s.router host in
      elim cached [
        | some index ↦ (config_at s.configs index, record s { cache = cache })
        | none ↦
            (config_at s.configs resolved_index, record s { cache = put host resolved_index cache })
      ]

  -- Calls of `find`, one after the other, and their answers.
  unfoldable pub find_each : List Text → SearchRouter → List (Option ClientConfig)
  unfolding find
  find_each [] s = []
  find_each (host ∷ hosts) s = let (answer, s') = find host s in answer ∷ find_each hosts s'

  -- `with_cache_capacity`; the crate's `NonZeroUsize` refuses 0.
  unfoldable pub with_cache_capacity : SearchRouter → ℕ → Option SearchRouter
  with_cache_capacity s zero = none
  with_cache_capacity s (suc n) =
      some (record s { cache_capacity = suc n; cache = LruCache.new lru (suc n) })
