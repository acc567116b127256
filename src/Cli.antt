-- ===== src/Cli.antt =====
-- src/cli/commands and main.rs: what the commands ask of the system. A command makes calls that
-- change the system and asks questions; the answers are a record `World` of functions of the calls
-- made so far, newest first.
use scety.Prelude.{
  ℕ, ◌≡◌, Bool, true, false, not, ◌&&◌, Option, none, some, List, [], ◌∷◌, ◌++◌, if◌then◌else◌,
  is_empty,
}
use scety.Text.{Text, codes, text_eq}
use scety.Text.Replace.{replace}
pub mod Install
pub mod Service
pub mod Commands
pub mod Triples
pub mod Allowed
pub mod Placeholder
pub mod Permitted
pub mod Run
pub mod Exits
pub mod Check

-- `useradd`, `usermod`, `create_dir_all`, `fs::write`, `chown` with the new user and group given or
-- not, `set_permissions`, `systemctl` with its arguments and `remove_file`.
pub data Call : Type 0 where
  useradd : Call
  usermod : Call
  create_dir_all : Text → Call
  write : Text → Text → Call
  chown : Text → Bool → Bool → Call
  set_permissions : Text → ℕ → Call
  systemctl : List Text → Call
  remove_file : Text → Call

abbrev pub History : Type 0
History = List Call

-- What a look-up of a user or a group answers.
pub data Lookup : Type 0 where
  lookup_failed : Lookup
  absent : Lookup
  found : Lookup

pub record World : Type 0 where
  pub is_root : Bool
  pub find_user : History → Lookup
  pub find_group : History → Lookup
  pub exists : History → Text → Bool
  -- The standard output of `systemctl is-active`, trimmed, and of `systemctl status`; `none` when
  -- the command cannot be run.
  pub is_active : History → Option Text
  pub status : History → Option Text
  -- `WalkDir::new(path)`: entries with whether they are directories, and failures.
  pub walk : History → Text → List (Option (Text × Bool))
  pub current_exe : History → Option Text
  -- The call returns `Ok`, and the command that it runs has success as its status.
  pub returns : History → Call → Bool
  pub success : History → Call → Bool

-- The result of a command: `Ok`, `Err`, or the end of the process with a code.
pub data Outcome (A : Type 0) : Type 0 where
  ok : A → Outcome A
  err : Outcome A
  exit : ℕ → Outcome A

abbrev pub Command : Type 0 → Type 0
Command A = History → Outcome A × History

module _ {A : Type 0} where
  abbrev pub pure : A → Command A
  pure a h = (ok a, h)

  abbrev pub fail : Command A
  fail h = (err, h)

  abbrev pub exit_with : ℕ → Command A
  exit_with code h = (exit code, h)

  abbrev pub ask : (History → A) → Command A
  ask question h = (ok (question h), h)

  -- `question?`
  abbrev pub answer_or_fail : Option A → Command A
  answer_or_fail none h = (err, h)
  answer_or_fail (some a) h = (ok a, h)

infixl 5 ◌>>=◌ ◌>>◌
abbrev pub bind : {A B : Type 0} → Outcome A × History → (A → Command B) → Outcome B × History
bind (ok a, h) f = f a h
bind (err, h) f = (err, h)
bind (exit code, h) f = (exit code, h)

abbrev pub ◌>>=◌ : {A B : Type 0} → Command A → (A → Command B) → Command B
◌>>=◌ m f h = bind (m h) f

abbrev pub ◌>>◌ : {A B : Type 0} → Command A → Command B → Command B
m >> k = m >>= λ _. k

-- The command under a condition.
abbrev pub when : Bool → Command Unit → Command Unit
when b m = elim b [ true ↦ m | false ↦ pure tt ]

-- A call that must return.
abbrev pub call : World → Call → Command Unit
call w c h = (elim (w.returns h c) [ true ↦ ok tt | false ↦ err ], c ∷ h)

-- A call that must return, and whether what it ran succeeded.
abbrev pub call_status : World → Call → Command Bool
call_status w c h = (elim (w.returns h c) [ true ↦ ok (w.success h c) | false ↦ err ], c ∷ h)

abbrev pub service_path : Text
service_path = codes "/etc/systemd/system/scety.service"

abbrev pub main_scety_path : Text
main_scety_path = codes "/etc/scety"

abbrev pub scety_config_path : Text
scety_config_path = codes "/etc/scety/scety.toml"

-- `stdout.trim_ascii() == b"active"`
abbrev pub is_active : World → Command Bool
is_active w =
    ask w.is_active >>= λ o. answer_or_fail o >>= λ stdout. pure (text_eq stdout (codes "active"))
