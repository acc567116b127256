-- ===== src/Cli/Check.antt =====
-- cli/commands/check.rs over the files of the directory.
use scety.Prelude.{◌≡◌, refl, ◌↔◌, Option, none, List, [], ◌∷◌, Any, here}
use scety.Text.{Text}
use scety.Config.Services.{ClientConfig}
use scety.Config.Services.Files.{DirEntry, get_all_configs, Loads, get_all_configs_iff}
use scety.Cli.{ok}
use scety.Cli.Commands.{check}

module _ (read_to_string : Text → Option Text) (from_str : Text → Option ClientConfig) where
  check-cons :
      (configs : List ClientConfig)
      → ((check configs []).0 ≡ ok tt) ↔ ((c : ClientConfig) × Any (λ x. x ≡ c) configs)
  unfolding check
  check-cons [] = (λ e. absurd (cc), λ (c, a). elim a [ ])
  check-cons (c ∷ configs) = (λ e. (c, here refl), λ k. refl)

  -- `check` ends well exactly when some entry of the directory is a TOML file that loads and is
  -- valid, whatever the other files hold: files that cannot be read, do not decode or are not valid
  -- do not make it fail.
  pub check-ok_iff :
      (entries : List (Option DirEntry))
      → ((check (get_all_configs read_to_string from_str none entries) []).0 ≡ ok tt)
        ↔ ((c : ClientConfig) × Any (Loads read_to_string from_str c) entries)
  check-ok_iff entries =
      let (some_one, loads) = check-cons (get_all_configs read_to_string from_str none entries) in
      (
        λ e.
            let (c, a) = some_one e in
            (c, (get_all_configs_iff read_to_string from_str c entries).0 a),
        λ k. loads (k.0, (get_all_configs_iff read_to_string from_str k.0 entries).1 k.1),
      )
