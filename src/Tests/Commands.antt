-- ===== src/Tests/Commands.antt =====
-- The commands, and the files of the services.
use scety.Prelude.{
  ◌≡◌, refl, ◌↔◌, ◌≢◌, ◌⊎◌, inl, true, false, Option, none, some, List, [], ◌∷◌, Any,
}
use scety.Text.{Text, codes}
use scety.Text.Replace.{contains}
use scety.Config.Services.{ClientConfig}
use scety.Config.Services.Files.{DirEntry, get_all_configs, Loads, get_all_configs_iff}
use scety.Config.Global.File.{ok}
use scety.Cli.{World, lookup_failed, absent, found, exit, systemctl, remove_file, service_path}
use scety.Cli.Service.{service_text}
use scety.Cli.Install.{install}
use scety.Cli.Allowed.{Allowed, Closed, install-Allowed}
use scety.Cli.Triples.{Safe}
use scety.Cli.Placeholder.{service_text-placeholder}
use scety.Cli.Commands.{uninstall, check}
use scety.Cli.Permitted.{Permitted, stop_call, disable_call, uninstall-Permitted}
use scety.Cli.Check.{check-ok_iff}
use scety.Cli.Run.{Setting, run, ended}
use scety.Cli.Exits.{run-exits}
use scety.Tests.Messages.{settings}
use scety.Tests.Settings.{two_ports}
use scety.Tests.Ports.{outside}

-- A machine on which nothing of the proxy is installed yet.
abbrev machine : World
machine = record {
  is_root = true;
  find_user = λ h. elim h [ [] ↦ absent | c ∷ rest ↦ found ];
  find_group = λ h. found;
  exists = λ h path. false;
  is_active = λ h. some (codes "inactive");
  status = λ h. some [];
  walk = λ h path. some (path, true) ∷ some (codes "/etc/scety/scety.toml", false) ∷ [];
  current_exe = λ h. some (codes "/usr/bin/scety");
  returns = λ h c. true;
  success = λ h c. true;
}

install-Allowed_example :
    Safe (Allowed machine []) (install machine [] []).1
    × ((machine.is_root ≡ true) ⊎ (install machine [] [] ≡ (exit 1, [])))
    × (((install machine [] []).0 ≢ scety.Cli.ok tt) ⊎ Closed machine [] (install machine [] []).1)
install-Allowed_example = install-Allowed machine []

-- A machine whose service is installed and runs.
abbrev serving : World
serving = record {
  is_root = true;
  find_user = λ h. found;
  find_group = λ h. found;
  exists = λ h path. true;
  is_active = λ h. some (codes "active");
  status = λ h. some [];
  walk = λ h path. [];
  current_exe = λ h. some (codes "/usr/bin/scety");
  returns = λ h c. true;
  success = λ h c. true;
}

-- It is stopped, disabled and removed.
uninstalls : uninstall serving [] ≡ (
  scety.Cli.ok tt,
  systemctl (codes "daemon-reload" ∷ []) ∷ remove_file service_path ∷ disable_call ∷ stop_call ∷ [],
)
unfolding uninstall scety.Text.text_eq
uninstalls = refl

uninstall-Permitted_example : Safe (Permitted serving) (uninstall serving []).1
uninstall-Permitted_example = uninstall-Permitted serving

service_text-placeholder_example :
    contains (codes "ReadWritePaths={main_path}/acme-cache") (service_text (codes "/usr/bin/scety"))
    ≡ true
service_text-placeholder_example = service_text-placeholder (codes "/usr/bin/scety")

-- Every file decodes to a service that names its ports in a list.
abbrev read_to_string : Text → Option Text
read_to_string path = some []

abbrev from_str : Text → Option ClientConfig
from_str text = some two_ports

abbrev entries : List (Option DirEntry)
entries =
    none
    ∷ some (record {
      path = codes "/etc/scety/services/a.toml";
      is_file = true;
      extension = some (codes "toml");
    })
    ∷ []

get_all_configs_iff_example :
    Any (λ x. x ≡ two_ports) (get_all_configs read_to_string from_str none entries)
    ↔ Any (Loads read_to_string from_str two_ports) entries
get_all_configs_iff_example = get_all_configs_iff read_to_string from_str two_ports entries

check-ok_iff_example :
    ((check (get_all_configs read_to_string from_str none entries) []).0 ≡ scety.Cli.ok tt)
    ↔ ((c : ClientConfig) × Any (Loads read_to_string from_str c) entries)
check-ok_iff_example = check-ok_iff read_to_string from_str entries

abbrev setting : Setting
setting = record {
  is_systemd = true;
  scety_config = ok (some settings);
  all_configs = two_ports ∷ [];
  outside = outside;
  fallback_binds = true;
  interrupted = false;
}

has_services : setting.all_configs ≢ []
has_services e = absurd (cc)

run-exits_example : run (λ text. none) machine [] setting ≡ ended (exit 1)
run-exits_example =
    run-exits (λ text. none) machine [] setting (some settings) refl refl has_services refl
      (inl (refl, tt))
