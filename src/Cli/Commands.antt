-- ===== src/Cli/Commands.antt =====
-- The other commands of cli/commands, and main.rs: `run_command` with the table of commands.
use scety.Prelude.{ℕ, Bool, Option, none, some, List, [], ◌∷◌, if◌then◌else◌, is_empty}
use scety.Text.{Text, codes}
use scety.Config.Services.{ClientConfig}
use scety.Config.Global.{ScetyConfig}
use scety.Cli.{
  systemctl, remove_file, World, Outcome, ok, err, exit, Command, pure, fail, ask, answer_or_fail,
  ◌>>=◌, ◌>>◌, when, call, service_path, is_active,
}

module _ (w : World) where
  -- cli/commands/stop.rs
  unfoldable pub stop : Command Unit
  stop = do
    active ← is_active w
    if active then call w (systemctl (codes "stop" ∷ codes "scety" ∷ [])) else fail

  -- cli/commands/reload.rs
  unfoldable pub reload : Command Unit
  reload = do
    active ← is_active w
    if active then call w (systemctl (codes "restart" ∷ codes "scety" ∷ [])) else fail

  -- cli/commands/uninstall.rs
  unfoldable pub uninstall : Command Unit
  uninstall = do
    installed ← ask (λ h. w.exists h service_path)
    (if installed then pure tt else fail)
    active ← is_active w
    when active (call w (systemctl (codes "stop" ∷ codes "scety" ∷ [])))
    call w (systemctl (codes "disable" ∷ codes "scety" ∷ []))
    call w (remove_file service_path)
    call w (systemctl (codes "daemon-reload" ∷ []))

  -- cli/commands/status.rs: the text that is printed.
  unfoldable pub status : Command (Option Text)
  status = do
    output ← ask w.status
    stdout ← answer_or_fail output
    pure (if is_empty stdout then none else some stdout)

-- cli/commands/check.rs, over what `get_all_configs` returns.
unfoldable pub check : List ClientConfig → Command Unit
check all_configs = if is_empty all_configs then fail else pure tt

-- cli/commands/check_certs.rs: `get_scety_config()?`, and then the certificates' check.
unfoldable pub check_certs :
    Option (Option ScetyConfig)
    → List ClientConfig
    → (List ClientConfig → Option Text → Bool)
    → Command Unit
check_certs none all_configs certificates = fail
check_certs (some none) all_configs certificates =
    if is_empty all_configs then fail else if certificates all_configs none then pure tt else fail
check_certs (some (some c)) all_configs certificates =
    if is_empty all_configs
    then fail
    else if certificates all_configs c.trusted_ca_bundle
    then pure tt
    else fail

-- `run_command` of main.rs: the process's exit code.
unfoldable pub run_command : {A : Type 0} → Outcome A → ℕ
run_command (ok a) = 0
run_command err = 1
run_command (exit code) = code
