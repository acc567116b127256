-- ===== src/Cli/Service.antt =====
-- cli/commands/install.rs: the text of the systemd unit, `SERVICE_CONTENT` with its placeholder.
use scety.Prelude.{List, [], ◌∷◌}
use scety.Text.{Text, codes}
use scety.Text.Replace.{replace}
use scety.Cli.{main_scety_path}

-- The lines of the unit, as they stand in the source.
abbrev pub lines : List Text
lines =
    codes "[Unit]"
    ∷ codes "Description=Scety reverse proxy"
    ∷ codes "After=network.target"
    ∷ codes ""
    ∷ codes "[Service]"
    ∷ codes "ExecStart={exe_path} run"
    ∷ codes "Restart=on-failure"
    ∷ codes "RestartSec=5"
    ∷ codes ""
    ∷ codes "User=scety"
    ∷ codes "Group=scety"
    ∷ codes "AmbientCapabilities=CAP_NET_BIND_SERVICE"
    ∷ codes "CapabilityBoundingSet=CAP_NET_BIND_SERVICE"
    ∷ codes "NoNewPrivileges=true"
    ∷ codes ""
    ∷ codes "ProtectSystem=strict"
    ∷ codes "ProtectHome=true"
    ∷ codes "PrivateTmp=true"
    ∷ codes "ReadWritePaths={main_path}/acme-cache"
    ∷ codes "ProtectKernelTunables=true"
    ∷ codes "ProtectKernelModules=true"
    ∷ codes "ProtectKernelLogs=true"
    ∷ codes "ProtectControlGroups=true"
    ∷ codes "ProtectClock=true"
    ∷ codes "ProtectHostname=true"
    ∷ codes "RestrictSUIDSGID=true"
    ∷ codes "RestrictRealtime=true"
    ∷ codes "RestrictNamespaces=true"
    ∷ codes "LockPersonality=true"
    ∷ codes "MemoryDenyWriteExecute=true"
    ∷ codes "RestrictAddressFamilies=AF_INET AF_INET6 AF_UNIX"
    ∷ codes "SystemCallArchitectures=native"
    ∷ codes "# SystemCallFilter=@system-service"
    ∷ codes ""
    ∷ codes "[Install]"
    ∷ codes "WantedBy=multi-user.target"
    ∷ []

unfoldable pub service_content : Text
unfolding scety.Text.join
service_content = scety.Text.join 10 lines

-- `SERVICE_CONTENT.replace("{exe_path}", &exe_path.replace("{main_path}", MAIN_SCETY_PATH))`
unfoldable pub service_text : Text → Text
unfolding replace service_content
service_text exe_path =
    replace (codes "{exe_path}") (replace (codes "{main_path}") main_scety_path exe_path)
      service_content
