-- ===== src/SearchRouter/Patterns.antt =====
-- Which patterns `SearchRouter::new` puts into the table, and for which configuration.
use scety.Prelude.{
  ℕ, suc, ◌+◌, ◌≡◌, refl, ap, sym, ◌∙◌, ◌⊎◌, inl, inr, Option, none, some, List, [], ◌∷◌, ◌++◌,
  arith, Any, here, there, get_elem?,
}
use scety.Text.{Text}
use scety.Config.Services.{ClientConfig}
use scety.HostRouter.{HostRouter, add_pattern}
use scety.HostRouter.Route.Sound.{add_patterns}
use scety.SearchRouter.{add_host, add_hosts, add_configs, hosts_or_none}

-- `host`, then `hosts`: the patterns of a configuration in the order in which they are added.
abbrev pub patterns_of : Option Text → List Text → List Text
patterns_of none hosts = hosts
patterns_of (some host) hosts = host ∷ hosts

abbrev pub config_patterns : ClientConfig → List Text
config_patterns c = patterns_of c.host (hosts_or_none c.hosts)

abbrev at_index : ℕ → List Text → List (Text × ℕ)
at_index index [] = []
at_index index (p ∷ ps) = (p, index) ∷ at_index index ps

abbrev pub entries : ℕ → List ClientConfig → List (Text × ℕ)
entries index [] = []
entries index (c ∷ cs) = at_index index (config_patterns c) ++ entries (suc index) cs

add_patterns-append :
    (xs ys : List (Text × ℕ)) (r : HostRouter)
    → add_patterns (xs ++ ys) r ≡ add_patterns ys (add_patterns xs r)
unfolding add_patterns
add_patterns-append [] ys r = refl
add_patterns-append ((p, i) ∷ xs) ys r = add_patterns-append xs ys (add_pattern p i r)

add_hosts-add_patterns :
    (index : ℕ) (hosts : List Text) (r : HostRouter)
    → add_hosts index hosts r ≡ add_patterns (at_index index hosts) r
unfolding add_hosts add_patterns
add_hosts-add_patterns index [] r = refl
add_hosts-add_patterns index (h ∷ hs) r = add_hosts-add_patterns index hs (add_pattern h index r)

add_config-add_patterns :
    (index : ℕ) (host : Option Text) (hosts : List Text) (r : HostRouter)
    → add_hosts index hosts (add_host index host r)
      ≡ add_patterns (at_index index (patterns_of host hosts)) r
unfolding add_host
add_config-add_patterns index none hosts r = add_hosts-add_patterns index hosts r
add_config-add_patterns index (some h) hosts r =
    unfold add_patterns in add_hosts-add_patterns index hosts (add_pattern h index r)

pub add_configs-add_patterns :
    (index : ℕ) (configs : List ClientConfig) (r : HostRouter)
    → add_configs index configs r ≡ add_patterns (entries index configs) r
unfolding add_configs
add_configs-add_patterns index [] r = unfold add_patterns in refl
add_configs-add_patterns index (c ∷ cs) r =
    add_configs-add_patterns (suc index) cs _
    ∙ ap (add_patterns (entries (suc index) cs))
        (add_config-add_patterns index c.host (hosts_or_none c.hosts) r)
    ∙ sym (add_patterns-append (at_index index (config_patterns c)) (entries (suc index) cs) r)

module _ (P : Text → Type 0) where
  Any-at_index :
      (index i : ℕ) (ps : List Text)
      → Any (λ (e : Text × ℕ). (e.1 ≡ i) × P e.0) (at_index index ps)
      → (index ≡ i) × Any P ps
  Any-at_index index i [] a = elim a [ ]
  Any-at_index index i (p ∷ ps) (here (e, s)) = (e, here s)
  Any-at_index index i (p ∷ ps) (there a) = let (e, b) = Any-at_index index i ps a in (e, there b)

  Any-append_cases :
      (Q : Text × ℕ → Type 0) (xs ys : List (Text × ℕ)) → Any Q (xs ++ ys) → Any Q xs ⊎ Any Q ys
  Any-append_cases Q [] ys a = inr a
  Any-append_cases Q (x ∷ xs) ys (here q) = inl (here q)
  Any-append_cases Q (x ∷ xs) ys (there a) = elim (Any-append_cases Q xs ys a) [
    | inl b ↦ inl (there b)
    | inr b ↦ inr b
  ]

  -- An entry leads back to a pattern of the configuration at its index.
  pub Any-entries :
      (index i : ℕ) (configs : List ClientConfig)
      → Any (λ (e : Text × ℕ). (e.1 ≡ i) × P e.0) (entries index configs)
      → (j : ℕ) × (i ≡ index + j)
        × ((c : ClientConfig) × (get_elem? configs j ≡ some c) × Any P (config_patterns c))
  Any-entries index i [] a = elim a [ ]
  Any-entries index i (c ∷ cs) a =
      elim (Any-append_cases _ (at_index index (config_patterns c)) (entries (suc index) cs) a) [
        | inl b ↦
            let (e, s) = Any-at_index index i (config_patterns c) b in
            (0, omega arith, (c, refl, s))
        | inr b ↦ let (j, e, rest) = Any-entries (suc index) i cs b in (suc j, omega arith, rest)
      ]
