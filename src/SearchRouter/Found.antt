-- ===== src/SearchRouter/Found.antt =====
-- A configuration that a lookup finds has a pattern that serves the host.
use scety.Prelude.{
  ℕ, ◌≡◌, refl, ap₂, sym, ◌∙◌, inl, inr, none, some, List, arith, Any, get_elem?, subst,
  Option-cases,
}
use scety.Text.{Text, split}
use scety.Config.Services.{ClientConfig}
use scety.HostRouter
use scety.HostRouter.{HostRouter, matches}
use scety.HostRouter.Table.{dot}
use scety.HostRouter.Route.Held.{Serves}
use scety.HostRouter.Route.Sound.{add_patterns, matches-add_patterns_sound}
use scety.SearchRouter.{LruCache, new, config_at, find}
use scety.SearchRouter.Patterns.{config_patterns, entries, add_configs-add_patterns, Any-entries}
use scety.SearchRouter.Cached.{new-Coherent, find-direct}

-- The configuration stands in the list, and one of its patterns serves the host.
abbrev pub ServedBy : List ClientConfig → Text → ClientConfig → Type 0
ServedBy configs host c =
    (i : ℕ) × (get_elem? configs i ≡ some c)
    × Any (λ p. Serves (split dot p) (split dot host)) (config_patterns c)

module _ (lru : LruCache) (configs : List ClientConfig) (host : Text) where
  config_at-ServedBy :
      (i : ℕ) (c : ClientConfig)
      → matches (add_patterns (entries 0 configs) HostRouter.new) host ≡ some i
      → get_elem? configs i ≡ some c
      → ServedBy configs host c
  config_at-ServedBy i c found at =
      let (j, e, (d, there_, served)) =
        Any-entries (λ p. Serves (split dot p) (split dot host)) 0 i configs
          (matches-add_patterns_sound (entries 0 configs) host i found) in
      let same : i ≡ j = omega arith in
      let d≡c : d ≡ c = cc in
      (
        i,
        at,
        subst (λ k. Any (λ p. Serves (split dot p) (split dot host)) (config_patterns k)) d≡c
            served,
      )

  -- The table of a new router is the one of its patterns.
  new-router : (new lru configs).router ≡ add_patterns (entries 0 configs) HostRouter.new
  unfolding new
  new-router = add_configs-add_patterns 0 configs HostRouter.new

  new-configs : (new lru configs).configs ≡ configs
  unfolding new
  new-configs = refl

  -- If a lookup on a new router finds a configuration, then that configuration is one of the port's,
  -- and one of its host patterns serves the host.
  pub find-ServedBy :
      (c : ClientConfig) → (find lru host (new lru configs)).0 ≡ some c → ServedBy configs host c
  find-ServedBy c found =
      let table = add_patterns (entries 0 configs) HostRouter.new in
      let answer : config_at lru configs (matches table host) ≡ some c =
        sym (
          (find-direct lru host (new lru configs) (new-Coherent lru configs)).0
          ∙ ap₂ (λ (cs : List ClientConfig) (r : HostRouter). config_at lru cs (matches r host))
              new-configs new-router)
        ∙ found in
      elim (Option-cases (matches table host)) [
        | inl n ↦ absurd (config_at-none (subst (λ o. config_at lru configs o ≡ some c) n answer))
        | inr (i, e) ↦
            config_at-ServedBy i c e
              (unfold config_at in subst (λ o. config_at lru configs o ≡ some c) e answer)
      ]
    where
      config_at-none : config_at lru configs none ≡ some c → ⊥
      config_at-none q = unfold config_at in cc
