-- ===== src/Tests/Router.antt =====
-- The routing table and its cache, with the samples of core/host_router.rs.
use scety.Prelude.{
  arith, Found, there, here, inl, inr, ◌≤◌, ℕ, ◌≡◌, refl, sym, ◌↔◌, ◌⊎◌, inl, inr, true, Option,
  none, some, List, [], ◌∷◌, Any, All, Found, map,
}
use scety.Text.{Text, codes, split, text_eq}
use scety.Map
use scety.Map.{Map, get-insert_cases}
use scety.Config.Services.{ClientConfig}
use scety.HostRouter.Labels.{star, double_star, Matches, one, done}
use scety.HostRouter.Dp.{dp_host_matches, dp_host_matches-Matches}
use scety.HostRouter.Dp.InRange.{dp_host_matches_checked, dp_host_matches-in_range}
use scety.HostRouter.Internal.{matches_single_internal_wildcard, matches_internal_double_star}
use scety.HostRouter.Internal.Laws.{
  matches_single_internal_wildcard-Matches, matches_internal_double_star-Matches,
}
use scety.HostRouter.Literal.{Literal}
use scety.HostRouter.Trie
use scety.HostRouter.Trie.{TrieNode}
use scety.HostRouter.Trie.Finds.{NotDoubleStar, lookup_from-insert_self}
use scety.HostRouter.{HostRouter, new, add_pattern, matches}
use scety.HostRouter.Table.{dot}
use scety.HostRouter.Route.Held.{Serves}
use scety.HostRouter.Route.Sound.{add_patterns, matches-add_patterns_sound}
use scety.HostRouter.Route.Wildcards.{times}
use scety.HostRouter.Route.Complete.{ServesSupported, matches-add_patterns_complete}
use scety.SearchRouter
use scety.SearchRouter.{LruCache, SearchRouter, find, find_each, with_cache_capacity}
use scety.SearchRouter.Cached.{direct, find_each-new}
use scety.SearchRouter.Found.{ServedBy, find-ServedBy}

abbrev patterns : List (Text × ℕ)
patterns = (codes "example.com", 0) ∷ (codes "*.example.com", 1) ∷ (codes "api.**.com", 2) ∷ []

inner_host : matches (add_patterns patterns new) (codes "api.eu.com") ≡ some 2
unfolding matches add_patterns scety.Text.text_eq scety.Text.starts_with
    scety.HostRouter.Internal.zip_eq
inner_host = refl

matches-add_patterns_sound_example :
    Any
      (λ (e : Text × ℕ). (e.1 ≡ 2) × Serves (split dot e.0) (split dot (codes "api.eu.com")))
      patterns
matches-add_patterns_sound_example =
    matches-add_patterns_sound patterns (codes "api.eu.com") 2 inner_host

abbrev eu : List Text
eu = codes "api" ∷ codes "eu" ∷ codes "com" ∷ []

one_double : times double_star (split dot (codes "api.**.com")) ≤ 1
unfolding scety.Text.text_eq split
one_double = omega arith

-- The third pattern is the one that serves `api.eu.com`.
served_by_third : Any (ServesSupported (codes "api.eu.com")) patterns
unfolding dp_host_matches split scety.Text.text_eq
served_by_third = there (
    there (
      here (
        inr (inl one_double),
        inr ((dp_host_matches-Matches (split dot (codes "api.**.com")) eu).0 refl),
      )))

matches-add_patterns_complete_example :
    Found (matches (add_patterns patterns new) (codes "api.eu.com"))
matches-add_patterns_complete_example =
    matches-add_patterns_complete patterns (codes "api.eu.com") served_by_third

dp_host_matches-in_range_example :
    dp_host_matches_checked (double_star ∷ codes "com" ∷ []) eu
    ≡ some (dp_host_matches (double_star ∷ codes "com" ∷ []) eu)
dp_host_matches-in_range_example = dp_host_matches-in_range (double_star ∷ codes "com" ∷ []) eu

dp_host_matches-Matches_example :
    (dp_host_matches (double_star ∷ codes "com" ∷ []) eu ≡ true)
    ↔ Matches (double_star ∷ codes "com" ∷ []) eu
dp_host_matches-Matches_example = dp_host_matches-Matches (double_star ∷ codes "com" ∷ []) eu

api-Literal : All Literal (codes "api" ∷ [])
unfolding text_eq
api-Literal = (refl, tt)

com-Literal : All Literal (codes "com" ∷ [])
unfolding text_eq
com-Literal = (refl, tt)

matches_single_internal_wildcard-Matches_example :
    (matches_single_internal_wildcard (codes "api" ∷ []) (codes "com" ∷ []) eu ≡ true)
    ↔ Matches (codes "api" ∷ star ∷ codes "com" ∷ []) eu
matches_single_internal_wildcard-Matches_example =
    matches_single_internal_wildcard-Matches (codes "api" ∷ []) (codes "com" ∷ []) eu api-Literal
      com-Literal

matches_internal_double_star-Matches_example :
    (matches_internal_double_star (codes "api" ∷ []) (codes "com" ∷ []) eu ≡ true)
    ↔ Matches (codes "api" ∷ double_star ∷ codes "com" ∷ []) eu
matches_internal_double_star-Matches_example =
    matches_internal_double_star-Matches (codes "api" ∷ []) (codes "com" ∷ []) eu api-Literal
      com-Literal

abbrev one_star : List Text
one_star = star ∷ codes "eu" ∷ star ∷ []

abbrev small_trie : TrieNode
small_trie = Trie.insert one_star 7 Trie.new

trie_finds : Trie.lookup_from eu small_trie ≡ some 7
unfolding Trie.lookup_from Trie.insert text_eq
trie_finds = refl

one_star-Matches : Matches one_star eu
unfolding text_eq
one_star-Matches =
    one {p = star} {h = codes "api"} refl
      (one {p = codes "eu"} {h = codes "eu"} refl (one {p = star} {h = codes "com"} refl done))

one_star-single : All NotDoubleStar one_star
unfolding text_eq
one_star-single = (refl, (refl, (refl, tt)))

lookup_from-insert_self_example : Found (Trie.lookup_from eu (Trie.insert one_star 7 Trie.new))
lookup_from-insert_self_example =
    lookup_from-insert_self 7 Trie.new one_star-single one_star-Matches

abbrev empty_cache : Map (Option ℕ)
empty_cache = []

pub get-empty : (k : Text) → Map.get k empty_cache ≡ none
unfolding Map.get
get-empty k = refl

pub kept :
    (j k : Text) (v w : Option ℕ) (c : Map (Option ℕ))
    → Map.get j (Map.insert k v c) ≡ some w
    → ((j ≡ k) × (w ≡ v)) ⊎ (Map.get j c ≡ some w)
kept j k v w c e = elim (get-insert_cases k j v c e) [
  | inl (same, value) ↦ inl (sym same, sym value)
  | inr before ↦ inr before
]

-- A cache that never evicts.
abbrev pub large_cache : LruCache
large_cache = record {
  Cache = Map (Option ℕ);
  new = λ capacity. [];
  get = λ k c. (Map.get k c, c);
  put = Map.insert;
  peek = Map.get;
  peek_new = λ k capacity. get-empty k;
  get_value = λ k c. refl;
  peek_get = λ j k c. refl;
  peek_put = λ j k v w c e. kept j k v w c e;
}

abbrev service : Text → ℕ → ClientConfig
service host port = record {
  mode = codes "http";
  host = some host;
  hosts = none;
  listen_port = some 80;
  listens_port = none;
  upstream = some (record { port = some port; ports = none; service_timeout = none });
  upstreams = [];
  ssl = none;
  ssl_ports = [];
  headers = none;
}

abbrev pub services : List ClientConfig
services = service (codes "example.com") 3000 ∷ service (codes "api.**.com") 3001 ∷ []

abbrev hosts : List Text
hosts = codes "api.eu.com" ∷ codes "example.com" ∷ codes "api.eu.com" ∷ codes "nowhere.org" ∷ []

find_each-new_example :
    find_each large_cache hosts (SearchRouter.new large_cache services)
    ≡ map (direct large_cache (SearchRouter.new large_cache services)) hosts
find_each-new_example = find_each-new large_cache services hosts

service_found :
    (find large_cache (codes "api.eu.com") (SearchRouter.new large_cache services)).0
    ≡ some (service (codes "api.**.com") 3001)
unfolding find SearchRouter.new Map.get Map.insert scety.Text.text_eq scety.Text.starts_with
    scety.HostRouter.Internal.zip_eq
service_found = refl

find-ServedBy_example : ServedBy services (codes "api.eu.com") (service (codes "api.**.com") 3001)
find-ServedBy_example =
    find-ServedBy large_cache services (codes "api.eu.com") (service (codes "api.**.com") 3001)
      service_found
