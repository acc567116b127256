-- ===== src/Cli/Permitted.antt =====
-- cli/commands/uninstall.rs: what `uninstall` may do, and when.
use scety.Prelude.{◌≡◌, refl, ◌⊎◌, inl, inr, Bool, true, false, Option, none, some, [], ◌∷◌, subst}
use scety.Text.{Text, codes, text_eq}
use scety.Cli.{
  Call, useradd, usermod, create_dir_all, write, chown, set_permissions, systemctl, remove_file,
  World, History, Outcome, ok, err, exit, pure, answer_or_fail, is_active, service_path, bind, call,
  when, ◌>>◌,
}
use scety.Cli.Triples.{
  Before, now, earlier, Succeeded, Safe, Post, Triple, bind-Triple, call-Triple,
  call_returned-Triple, if-Triple, pure-Triple, fail-Triple, ask-Triple,
}
use scety.Cli.Commands.{uninstall}

abbrev pub stop_call : Call
stop_call = systemctl (codes "stop" ∷ codes "scety" ∷ [])

abbrev pub disable_call : Call
disable_call = systemctl (codes "disable" ∷ codes "scety" ∷ [])

module _ (w : World) where
  -- `systemctl is-active` printed something else than `active`.
  abbrev pub Idle : History → Type 0
  Idle h =
      (stdout : Text) × (w.is_active h ≡ some stdout) × (text_eq stdout (codes "active") ≡ false)

  abbrev pub Stopped : History → Type 0
  Stopped h = Succeeded w stop_call h ⊎ Before Idle h

  abbrev pub Installed : History → Type 0
  Installed h = Before (λ k. w.exists k service_path ≡ true) h

  abbrev pub Permitted : History → Call → Type 0
  Permitted h (systemctl args) = Installed h
  Permitted h (remove_file path) = (path ≡ service_path) × Succeeded w disable_call h × Stopped h
  Permitted h useradd = ⊥
  Permitted h usermod = ⊥
  Permitted h (create_dir_all path) = ⊥
  Permitted h (write path content) = ⊥
  Permitted h (chown path user group) = ⊥
  Permitted h (set_permissions path mode) = ⊥

  Stopped-earlier : {h : History} {c : Call} → Stopped h → Stopped (c ∷ h)
  Stopped-earlier (inl s) = inl (inr s)
  Stopped-earlier (inr i) = inr (earlier i)

  -- Whether the service runs: if not, it was seen to be idle.
  is_active-asked :
      (P : History → Type 0)
      → Triple Permitted P (is_active w) (λ b h. P h × (b ≡ false → Before Idle h))
  is_active-asked P = record { run = λ h s p. go (w.is_active h) h s p refl }
    where
      go :
          (o : Option Text) (h : History)
          → Safe Permitted h
          → P h
          → w.is_active h ≡ o
          → Post Permitted
              (λ b k. P k × (b ≡ false → Before Idle k))
              (bind (answer_or_fail o h) (λ stdout. pure (text_eq stdout (codes "active"))))
      go none h s p e = s
      go (some stdout) h s p e = (s, (p, λ idle. now (stdout, e, idle)))

  abbrev Ready : History → Type 0
  Ready h = Installed h × Stopped h

  stop_first :
      (active : Bool)
      → Triple Permitted
          (λ h. Installed h × (active ≡ false → Before Idle h))
          (when active (call w stop_call))
          (λ _. Ready)
  stop_first true =
      call_returned-Triple Permitted Ready w stop_call
        (λ h p. (p.0, λ done. (earlier p.0, inl (inl (refl, done)))))
  stop_first false = pure-Triple Permitted tt (λ h p. (p.0, inr (p.1 refl)))

  uninstall-Step : Triple Permitted (λ h. Unit) (uninstall w) (λ _. Stopped)
  unfolding uninstall
  uninstall-Step =
      bind-Triple Permitted (ask-Triple Permitted (λ h. Unit) (λ h. w.exists h service_path))
        (λ installed.
          bind-Triple Permitted
            (if-Triple Permitted {Q = λ _. Installed} installed
              (λ e.
                pure-Triple Permitted tt
                  (λ h p. subst (λ b. Before (λ k. w.exists k service_path ≡ b) h) e p.1))
              (λ _. fail-Triple Permitted))
            (λ _.
              bind-Triple Permitted (is_active-asked Installed)
                (λ active. bind-Triple Permitted (stop_first active) (λ _. remove))))
    where
      remove :
          Triple Permitted Ready
            (call w disable_call
              >> (call w (remove_file service_path)
                  >> call w (systemctl (codes "daemon-reload" ∷ []))))
            (λ _. Stopped)
      remove =
          bind-Triple Permitted
            (call_returned-Triple Permitted (λ h. Ready h × Succeeded w disable_call h) w
              disable_call
              (λ h p. (p.0, λ done. ((earlier p.0, Stopped-earlier p.1), inl (refl, done)))))
            (λ _.
              bind-Triple Permitted
                (call-Triple Permitted Ready w (remove_file service_path)
                  (λ h p. ((refl, p.1, p.0.1), (earlier p.0.0, Stopped-earlier p.0.1))))
                (λ _.
                  call-Triple Permitted Stopped w (systemctl (codes "daemon-reload" ∷ []))
                    (λ h p. (p.0, Stopped-earlier p.1))))

  -- Whatever the system answers, and wherever `uninstall` fails: it calls `systemctl` only if the unit
  -- was there; it removes nothing but the unit, and that only after `systemctl disable` was called
  -- and returned without an error, and after `systemctl stop` did or it saw that the service did not run; and it makes no other
  -- call.
  pub uninstall-Permitted : Safe Permitted (uninstall w []).1
  uninstall-Permitted = Post-Safe (uninstall w []) (uninstall-Step.run [] tt tt)
    where
      Post-Safe :
          (r : Outcome Unit × History) → Post Permitted (λ _. Stopped) r → Safe Permitted r.1
      Post-Safe (ok a, h) p = p.0
      Post-Safe (err, h) p = p
      Post-Safe (exit code, h) p = p
