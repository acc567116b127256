-- ===== src/Cli/Run.antt =====
-- cli/commands/run.rs: the start of the proxy, and what ends it.
use scety.Prelude.{
  Bool, true, false, ◌||◌, Option, none, List, [], ◌∷◌, if◌then◌else◌, is_empty, unwrap_or,
}
use scety.Text.{Text}
use scety.Config.Services.{ClientConfig}
use scety.Config.Global.{Duration, ScetyConfig}
use scety.Config.Global.File.{Loaded, ok, err, default_config}
use scety.GlobalRouter.{Task, start_listen}
use scety.Listeners.{Proxy, Outside, start_listen_port}
use scety.Cli.{World, History, Outcome, exit}
use scety.Cli.Install.{install}

-- What `run` meets: the variable `INVOCATION_ID`, the configuration, the services, the ports, whether
-- the fallback server can be bound, and whether Ctrl-C comes before a listener ends.
pub record Setting : Type 0 where
  pub is_systemd : Bool
  pub scety_config : Loaded
  pub all_configs : List ClientConfig
  pub outside : Outside
  pub fallback_binds : Bool
  pub interrupted : Bool

-- `run` ends, or it installs, or it serves.
pub data Ran : Type 0 where
  ended : Outcome Unit → Ran
  installed : Outcome Unit × History → Ran
  serving_fallback : Ran
  serving : Proxy → Ran

-- The listeners start, here one after the other, though the code spawns them as concurrent tasks;
-- whether one of them has returned.
unfoldable pub start_all : ScetyConfig → Outside → List Task → Proxy → Proxy × Bool
unfolding start_listen_port
start_all cfg w [] p = (p, false)
start_all cfg w (task ∷ tasks) p =
    let (q, returned) = start_listen_port cfg w task p in
    let (r, others) = start_all cfg w tasks q in (r, returned || others)

abbrev pub booted : Proxy
booted = record { connections = λ _. none; tasks = [] }

-- `select!` over Ctrl-C and `join_next`, which answers at once when there is no listener.
unfoldable pub listen : ScetyConfig → Setting → Ran
unfolding start_all start_listen
listen cfg s =
    let tasks = start_listen s.all_configs in
    let (p, died) = start_all cfg s.outside tasks booted in
    if s.interrupted
    then ended (Outcome.ok tt)
    else if is_empty tasks || died
    then ended (exit 1)
    else serving p

unfoldable pub on_config : ScetyConfig → Setting → Ran
unfolding listen
on_config cfg s =
    if is_empty s.all_configs
    then (if s.fallback_binds then serving_fallback else ended Outcome.err)
    else listen cfg s

unfoldable pub run : (Text → Option Duration) → World → Text → Setting → Ran
unfolding on_config install
run parse_duration w default_text s = elim s.is_systemd [
  | false ↦ installed (install w default_text [])
  | true ↦ elim s.scety_config [
    | err kind ↦ ended Outcome.err
    | ok loaded ↦ on_config (unwrap_or loaded (default_config parse_duration)) s
  ]
]
