-- ===== src/Config/Services/Files.antt =====
-- config/get_services_config.rs: `get_all_config_paths` and `get_all_configs`. What walks the
-- directory, reads a file and decodes TOML is a parameter.
use scety.Prelude.{
  ◌≡◌, refl, ap, subst, ◌∙◌, ◌↔◌, ◌⊎◌, inl, inr, Bool, true, false, not, ◌&&◌, Option, none, some,
  List, [], ◌∷◌, if◌then◌else◌, unwrap_or, Any, here, there, &&_iff, if_cases, Bool-cases,
  Option-cases, arith,
}
use scety.Text.{Text, codes, text_eq, text_eq_iff}
use scety.Config.Services.{ClientConfig, Checked, ok, err, validate_config}
use scety.Config.Services.Valid.{Valid, validate_config_iff}

-- An entry of the directory: its path, whether it is a file, and the extension of its name.
pub record DirEntry : Type 0 where
  pub path : Text
  pub is_file : Bool
  pub extension : Option Text

-- `ext == "toml"`
abbrev pub is_toml : Option Text → Bool
is_toml none = false
is_toml (some ext) = text_eq ext (codes "toml")

-- What the walk fails on is left out.
unfoldable pub get_all_config_paths : List (Option DirEntry) → List Text
get_all_config_paths [] = []
get_all_config_paths (none ∷ entries) = get_all_config_paths entries
get_all_config_paths (some e ∷ entries) =
    let rest = get_all_config_paths entries in
    if e.is_file && is_toml e.extension then e.path ∷ rest else rest

abbrev pub is_ok : Checked → Bool
is_ok ok = true
is_ok (err e) = false

some_injective : {x y : Text} → some x ≡ some y → x ≡ y
some_injective e = ap (λ o. unwrap_or o []) e

-- `vec_confs.push(config)`, unless the round ended before.
abbrev push : Option ClientConfig → List ClientConfig → List ClientConfig
push none configs = configs
push (some config) configs = config ∷ configs

module _ (read_to_string : Text → Option Text) (from_str : Text → Option ClientConfig) where
  -- One round of the loop: the configuration, unless the round ends with `continue`.
  unfoldable pub load : Bool → Text → Option ClientConfig
  unfolding validate_config
  load validate path = elim (read_to_string path) [
    | none ↦ none
    | some content ↦ elim (from_str content) [
      | none ↦ none
      | some config ↦ if validate && not (is_ok (validate_config config)) then none else some config
    ]
  ]

  unfoldable pub load_each : Bool → List Text → List ClientConfig
  unfolding load
  load_each validate [] = []
  load_each validate (path ∷ paths) = push (load validate path) (load_each validate paths)

  unfoldable pub get_all_configs : Option Bool → List (Option DirEntry) → List ClientConfig
  unfolding load_each get_all_config_paths
  get_all_configs validate entries =
      load_each (unwrap_or validate true) (get_all_config_paths entries)

  -- The entry is a TOML file that can be read and decodes to the configuration, which is valid.
  abbrev pub Loads : ClientConfig → Option DirEntry → Type 0
  Loads c none = ⊥
  Loads c (some e) =
      (e.is_file ≡ true)
      × (e.extension ≡ some (codes "toml"))
      × ((content : Text) × (read_to_string e.path ≡ some content) × (from_str content ≡ some c))
      × Valid c

  is_toml_iff : (o : Option Text) → (is_toml o ≡ true) ↔ (o ≡ some (codes "toml"))
  is_toml_iff none = (λ e. absurd (cc), λ e. absurd (cc))
  is_toml_iff (some ext) = (
    λ e. ap some ((text_eq_iff ext (codes "toml")).0 e),
    λ e. (text_eq_iff ext (codes "toml")).1 (some_injective e),
  )

  is_ok_iff : (k : Checked) → (is_ok k ≡ true) ↔ (k ≡ ok)
  is_ok_iff ok = (λ e. refl, λ e. refl)
  is_ok_iff (err e) = (λ q. absurd (cc), λ q. absurd (cc))

  abbrev Read : Text → ClientConfig → Type 0
  Read path c =
      (content : Text) × (read_to_string path ≡ some content) × (from_str content ≡ some c)

  load-Read : (path : Text) (c : ClientConfig) → load true path ≡ some c → Read path c × Valid c
  unfolding load
  load-Read path c e = elim (Option-cases (read_to_string path)) [
    | inl unread ↦ absurd (ground (arith, unread, e))
    | inr (content, r) ↦ elim (Option-cases (from_str content)) [
      | inl unparsed ↦ absurd (ground (arith, r, unparsed, e))
      | inr (config, f) ↦ elim (Bool-cases (is_ok (validate_config config))) [
        | inl good ↦
            let same : config ≡ c = ground (arith, r, f, good, e) in
            (
              (content, r, f ∙ ap some same),
              subst Valid same
                  ((validate_config_iff config).0 ((is_ok_iff (validate_config config)).0 good)),
            )
        | inr bad ↦ absurd (ground (arith, r, f, bad, e))
      ]
    ]
  ]

  Read-load : (path : Text) (c : ClientConfig) → Read path c → Valid c → load true path ≡ some c
  unfolding load
  Read-load path c (content, r, f) v = rw (load, r, f, (validate_config_iff c).1 v) refl

  abbrev Listed : ClientConfig → List ClientConfig → Type 0
  Listed c configs = Any (λ x. x ≡ c) configs

  push-Listed :
      (c : ClientConfig) (o : Option ClientConfig) (configs : List ClientConfig)
      → Listed c (push o configs) ↔ ((o ≡ some c) ⊎ Listed c configs)
  push-Listed c none configs = (inr, λ k. elim k [ inl e ↦ absurd (cc) | inr a ↦ a ])
  push-Listed c (some config) configs = (split_first, join_first)
    where
      split_first : Listed c (config ∷ configs) → (some config ≡ some c) ⊎ Listed c configs
      split_first (here e) = inl (ap some e)
      split_first (there a) = inr a

      join_first : (some config ≡ some c) ⊎ Listed c configs → Listed c (config ∷ configs)
      join_first (inl e) = here (ap (λ o. unwrap_or o config) e)
      join_first (inr a) = there a

  abbrev wanted : DirEntry → Bool
  wanted e = e.is_file && is_toml e.extension

  Listed-Loads :
      (c : ClientConfig) (entries : List (Option DirEntry))
      → Listed c (load_each true (get_all_config_paths entries))
      → Any (Loads c) entries
  unfolding get_all_config_paths load_each
  Listed-Loads c [] a = elim a [ ]
  Listed-Loads c (none ∷ entries) a = there (Listed-Loads c entries a)
  Listed-Loads c (some e ∷ entries) a = elim (Bool-cases (wanted e)) [
    | inr other ↦ there (
        Listed-Loads c entries (
          subst
            (λ b. Listed c (
              load_each true (
                if b then e.path ∷ get_all_config_paths entries else get_all_config_paths entries)))
            other a))
    | inl given ↦
        let a' =
          subst
            (λ b. Listed c (
              load_each true (
                if b then e.path ∷ get_all_config_paths entries else get_all_config_paths entries)))
            given a in
        elim ((push-Listed c (load true e.path) (load_each true (get_all_config_paths entries))).0
          a') [
            | inr later ↦ there (Listed-Loads c entries later)
            | inl now ↦
                let (file, toml) = (&&_iff e.is_file (is_toml e.extension)).0 given in
                let (r, v) = load-Read e.path c now in
                here (file, (is_toml_iff e.extension).0 toml, r, v)
          ]
  ]

  Loads-Listed :
      (c : ClientConfig) (entries : List (Option DirEntry))
      → Any (Loads c) entries
      → Listed c (load_each true (get_all_config_paths entries))
  unfolding get_all_config_paths load_each
  Loads-Listed c [] a = elim a [ ]
  Loads-Listed c (none ∷ entries) (here l) = absurd l
  Loads-Listed c (none ∷ entries) (there a) = Loads-Listed c entries a
  Loads-Listed c (some e ∷ entries) (here (file, toml, r, v)) =
      rw ((&&_iff e.is_file (is_toml e.extension)).1 (file, (is_toml_iff e.extension).1 toml)) (
        (push-Listed c (load true e.path) (load_each true (get_all_config_paths entries))).1
          (inl (Read-load e.path c r v)))
  Loads-Listed c (some e ∷ entries) (there a) =
      if_cases (λ paths. Listed c (load_each true paths)) (wanted e) _ _
        (λ _. (push-Listed c (load true e.path) _).1 (inr (Loads-Listed c entries a)))
        (λ _. Loads-Listed c entries a)

  -- With validation, which is the default, a configuration is among those that are loaded exactly when
  -- some entry of the directory is a file whose extension is `toml`, which can be read and decodes to
  -- that configuration, and the configuration is valid; what the other entries hold does not matter.
  pub get_all_configs_iff :
      (c : ClientConfig) (entries : List (Option DirEntry))
      → Any (λ x. x ≡ c) (get_all_configs none entries) ↔ Any (Loads c) entries
  unfolding get_all_configs
  get_all_configs_iff c entries = (Listed-Loads c entries, Loads-Listed c entries)
