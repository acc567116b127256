-- ===== src/Cli/Install.antt =====
-- cli/commands/install.rs: `install` and the functions that it calls. The default configuration is
-- an asset and a parameter.
use scety.Prelude.{Bool, true, false, not, Option, none, some, List, [], ◌∷◌, if◌then◌else◌}
use scety.Text.{Text, codes}
use scety.Cli.{
  useradd, usermod, create_dir_all, write, chown, set_permissions, systemctl, Lookup, lookup_failed,
  absent, found, World, History, Command, pure, fail, exit_with, ask, answer_or_fail, ◌>>=◌, ◌>>◌,
  when, call, call_status, service_path, main_scety_path, scety_config_path, is_active,
}
use scety.Cli.Service.{service_text}

-- `User::from_name(..)?` and `Group::from_name(..)?`: whether there is one.
abbrev pub found_or_fail : Lookup → Command Bool
found_or_fail lookup_failed = fail
found_or_fail absent = pure false
found_or_fail found = pure true

abbrev pub look_up : (History → Lookup) → Command Bool
look_up question h = found_or_fail (question h) h

abbrev pub acme_cache_path : Text
acme_cache_path = codes "/etc/scety/acme-cache"

module _ (w : World) where
  unfoldable pub ensure_system_user : Command Unit
  ensure_system_user = do
    user ← look_up w.find_user
    if user
        then pure tt
        else (call_status w useradd >>= λ success. if success then pure tt else fail)

  unfoldable pub maybe_join_ssl_cert_group : Command Unit
  maybe_join_ssl_cert_group = do
    group ← look_up w.find_group
    when group (call_status w usermod >>= λ _. pure tt)

  -- One round of the loop over the directory.
  unfoldable pub configure_entry : Option (Text × Bool) → Command Unit
  configure_entry none = fail
  configure_entry (some (path, is_dir)) =
      call w (chown path false true)
      >> call w (set_permissions path (if is_dir then 0o750 else 0o640))

  unfoldable pub configure_entries : List (Option (Text × Bool)) → Command Unit
  unfolding configure_entry
  configure_entries [] = pure tt
  configure_entries (entry ∷ entries) = configure_entry entry >> configure_entries entries

  unfoldable pub configure_permissions : Command Unit
  unfolding configure_entries
  configure_permissions = do
    user ← look_up w.find_user
    (if user then pure tt else fail)
    entries ← ask (λ h. w.walk h main_scety_path)
    configure_entries entries
    call w (create_dir_all acme_cache_path)
    call w (chown acme_cache_path true true)
    call w (set_permissions acme_cache_path 0o700)

  -- `if !config_path.exists()`
  unfoldable pub create_config : Text → Command Unit
  create_config scety_config = do
    there ← ask (λ h. w.exists h scety_config_path)
    when (not there)
        (call w (create_dir_all main_scety_path) >> call w (write scety_config_path scety_config))

  -- The branch of an installed service.
  unfoldable pub start_again : Command Unit
  start_again = do
    active ← is_active w
    if active then pure tt else call w (systemctl (codes "start" ∷ codes "scety" ∷ []))

  unfoldable pub install_service : Command Unit
  unfolding service_text
  install_service = do
    exe ← ask w.current_exe
    exe_path ← answer_or_fail exe
    call w (write service_path (service_text exe_path))
    call w (systemctl (codes "daemon-reload" ∷ []))
    call w (systemctl (codes "enable" ∷ codes "--now" ∷ codes "scety" ∷ []))

  -- `install` from the check for root on.
  unfoldable pub install_as_root : Text → Command Unit
  unfolding ensure_system_user maybe_join_ssl_cert_group create_config configure_permissions
      start_again install_service
  install_as_root scety_config = do
    ensure_system_user
    maybe_join_ssl_cert_group
    create_config scety_config
    configure_permissions
    installed ← ask (λ h. w.exists h service_path)
    if installed then start_again else install_service

  unfoldable pub install : Text → Command Unit
  unfolding install_as_root
  install scety_config = elim w.is_root [
    | true ↦ install_as_root scety_config
    | false ↦ exit_with 1
  ]
