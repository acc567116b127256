-- ===== src/Cli/Allowed.antt =====
-- What `install` may do to the system, and when.
use scety.Prelude.{
  ◌%◌, ◌≡◌, ◌≢◌, refl, subst, ◌⊎◌, inl, inr, Bool, true, false, not, Option, none, some, List, [],
  ◌∷◌, if◌then◌else◌, arith, Bool-cases,
}
use scety.Text.{Text, codes}
use scety.Cli.{
  Call, useradd, usermod, create_dir_all, write, chown, set_permissions, systemctl, remove_file,
  absent, found, World, History, Command, Outcome, ok, err, exit, ◌>>◌, call, service_path,
  main_scety_path, scety_config_path,
}
use scety.Cli.Service.{service_text}
use scety.Cli.Install.{
  acme_cache_path, ensure_system_user, maybe_join_ssl_cert_group, configure_entry,
  configure_entries, configure_permissions, create_config, start_again, install_service,
  install_as_root, install,
}
use scety.Cli.Triples.{
  Before, earlier, Succeeded, Safe, Post, Triple, bind-Triple, ask-Triple, call-Triple,
  call_returned-Triple, call_status-Triple, if-Triple, when-Triple, answer-Triple, look_up-Triple,
  pure-Triple, fail-Triple, weaken-Triple, is_active-Triple,
}

mode_closed : (is_dir : Bool) → (if is_dir then 0o750 else 0o640) % 8 ≡ 0
mode_closed true = refl
mode_closed false = refl

not-true : {b : Bool} → not b ≡ true → b ≡ false
not-true {b} e = ground arith

module _ (w : World) (scety_config : Text) where
  -- The cache of certificates has been closed to everybody but its owner, without an error.
  abbrev pub Closed : History → Type 0
  Closed h = Succeeded w (set_permissions acme_cache_path 0o700) h

  -- The policy, for a call after a history.
  abbrev pub Allowed : History → Call → Type 0
  Allowed h useradd = Before (λ k. w.find_user k ≡ absent) h
  Allowed h usermod = Before (λ k. w.find_group k ≡ found) h
  Allowed h (create_dir_all path) = (path ≡ main_scety_path) ⊎ (path ≡ acme_cache_path)
  Allowed h (write path content) =
      ((path ≡ scety_config_path)
        × (content ≡ scety_config)
        × Before (λ k. w.exists k scety_config_path ≡ false) h)
      ⊎ ((path ≡ service_path)
          × ((exe_path : Text) × (content ≡ service_text exe_path))
          × Before (λ k. w.exists k service_path ≡ false) h
          × Closed h)
  Allowed h (chown path user group) = (user ≡ false) ⊎ (path ≡ acme_cache_path)
  Allowed h (set_permissions path mode) = mode % 8 ≡ 0
  Allowed h (systemctl args) = Closed h
  Allowed h (remove_file path) = ⊥

  abbrev Step : {A : Type 0} → (History → Type 0) → Command A → (A → History → Type 0) → Type 0
  Step P m Q = Triple Allowed P m Q

  abbrev Always : History → Type 0
  Always h = Unit

  ensure_system_user-Step : Step Always (ensure_system_user w) (λ _. Always)
  unfolding ensure_system_user
  ensure_system_user-Step = bind-Triple Allowed (look_up-Triple Allowed Always w.find_user) (λ user.
      if-Triple Allowed user (λ _. pure-Triple Allowed tt (λ h p. tt))
        (λ missing.
          bind-Triple Allowed
            (call_status-Triple Allowed Always w useradd (λ h p. (
              subst (λ b. Before (λ k. w.find_user k ≡ (if b then found else absent)) h) missing
                  p.1,
              tt,
            )))
            (λ success.
              if-Triple Allowed success (λ _. pure-Triple Allowed tt (λ h p. tt))
                (λ _. fail-Triple Allowed))))

  maybe_join_ssl_cert_group-Step : Step Always (maybe_join_ssl_cert_group w) (λ _. Always)
  unfolding maybe_join_ssl_cert_group
  maybe_join_ssl_cert_group-Step =
      bind-Triple Allowed (look_up-Triple Allowed Always w.find_group) (λ group.
        when-Triple Allowed group
          (λ there.
            bind-Triple Allowed
              (call_status-Triple Allowed Always w usermod (λ h p. (
                subst (λ b. Before (λ k. w.find_group k ≡ (if b then found else absent)) h) there
                    p.1,
                tt,
              )))
              (λ _. pure-Triple Allowed tt (λ h p. tt)))
          (λ h p. tt))

  configure_entry-Step :
      (e : Option (Text × Bool)) → Step Always (configure_entry w e) (λ _. Always)
  unfolding configure_entry
  configure_entry-Step none = fail-Triple Allowed
  configure_entry-Step (some (path, is_dir)) =
      bind-Triple Allowed
        (call-Triple Allowed Always w (chown path false true) (λ h p. (inl refl, tt)))
        (λ _.
          call-Triple Allowed Always w (set_permissions path (if is_dir then 0o750 else 0o640))
            (λ h p. (mode_closed is_dir, tt)))

  configure_entries-Step :
      (es : List (Option (Text × Bool))) → Step Always (configure_entries w es) (λ _. Always)
  unfolding configure_entries
  configure_entries-Step [] = pure-Triple Allowed tt (λ h p. tt)
  configure_entries-Step (e ∷ es) =
      bind-Triple Allowed (configure_entry-Step e) (λ _. configure_entries-Step es)

  configure_permissions-Step : Step Always (configure_permissions w) (λ _. Closed)
  unfolding configure_permissions
  configure_permissions-Step =
      bind-Triple Allowed (look_up-Triple Allowed Always w.find_user) (λ user.
        bind-Triple Allowed
          (if-Triple Allowed {Q = λ _. Always} user (λ _. pure-Triple Allowed tt (λ h p. tt))
            (λ _. fail-Triple Allowed))
          (λ _.
            bind-Triple Allowed (ask-Triple Allowed Always (λ h. w.walk h main_scety_path))
              (λ entries.
                bind-Triple Allowed
                  (weaken-Triple Allowed (λ h p. tt) (configure_entries-Step entries))
                  (λ _. close_cache))))
    where
      close_cache :
          Step Always
            (call w (create_dir_all acme_cache_path)
              >> (call w (chown acme_cache_path true true)
                  >> call w (set_permissions acme_cache_path 0o700)))
            (λ _. Closed)
      close_cache =
          bind-Triple Allowed
            (call-Triple Allowed Always w (create_dir_all acme_cache_path) (λ h p. (inr refl, tt)))
            (λ _.
              bind-Triple Allowed
                (call-Triple Allowed Always w (chown acme_cache_path true true)
                  (λ h p. (inr refl, tt)))
                (λ _.
                  call_returned-Triple Allowed Closed w (set_permissions acme_cache_path 0o700)
                    (λ h p. (refl, λ done. inl (refl, done)))))

  create_config-Step : Step Always (create_config w scety_config) (λ _. Always)
  unfolding create_config
  create_config-Step =
      bind-Triple Allowed (ask-Triple Allowed Always (λ h. w.exists h scety_config_path))
        (λ is_there.
          when-Triple Allowed (not is_there)
            (λ missing.
              bind-Triple Allowed
                (call-Triple Allowed (Before (λ k. w.exists k scety_config_path ≡ false)) w
                  (create_dir_all main_scety_path)
                  (λ h p. (
                    inl refl,
                    earlier (
                        subst (λ b. Before (λ k. w.exists k scety_config_path ≡ b) h)
                          (not-true missing) p.1),
                  )))
                (λ _.
                  call-Triple Allowed Always w (write scety_config_path scety_config)
                    (λ h p. (inl (refl, refl, p), tt))))
            (λ h p. tt))

  start_again-Step : Step Closed (start_again w) (λ _. Closed)
  unfolding start_again
  start_again-Step = bind-Triple Allowed (is_active-Triple Allowed Closed w) (λ active.
      if-Triple Allowed active (λ _. pure-Triple Allowed tt (λ h p. p))
        (λ _.
          call-Triple Allowed Closed w (systemctl (codes "start" ∷ codes "scety" ∷ []))
            (λ h p. (p, inr p))))

  install_service-Step :
      Step
        (λ h. Closed h × Before (λ k. w.exists k service_path ≡ false) h)
        (install_service w)
        (λ _. Closed)
  unfolding install_service
  install_service-Step = bind-Triple Allowed (ask-Triple Allowed _ w.current_exe) (λ exe.
      bind-Triple Allowed (answer-Triple Allowed _ exe) (λ exe_path.
        bind-Triple Allowed
          (call-Triple Allowed Closed w (write service_path (service_text exe_path))
            (λ h p. (inr (refl, (exe_path, refl), p.0.1, p.0.0), inr p.0.0)))
          (λ _.
            bind-Triple Allowed
              (call-Triple Allowed Closed w (systemctl (codes "daemon-reload" ∷ []))
                (λ h p. (p, inr p)))
              (λ _.
                call-Triple Allowed Closed w
                  (systemctl (codes "enable" ∷ codes "--now" ∷ codes "scety" ∷ []))
                  (λ h p. (p, inr p))))))

  install_as_root-Step : Step Always (install_as_root w scety_config) (λ _. Closed)
  unfolding install_as_root
  install_as_root-Step = bind-Triple Allowed ensure_system_user-Step (λ _.
      bind-Triple Allowed maybe_join_ssl_cert_group-Step (λ _.
        bind-Triple Allowed create_config-Step (λ _.
          bind-Triple Allowed configure_permissions-Step (λ _.
            bind-Triple Allowed (ask-Triple Allowed Closed (λ h. w.exists h service_path))
              (λ installed.
                if-Triple Allowed installed
                  (λ _. weaken-Triple Allowed (λ h p. p.0) start_again-Step)
                  (λ no.
                    weaken-Triple Allowed
                      (λ h p.
                        (p.0, subst (λ b. Before (λ k. w.exists k service_path ≡ b) h) no p.1))
                      install_service-Step))))))

  Safe-post :
      (r : Outcome Unit × History)
      → Post Allowed (λ _. Closed) r
      → Safe Allowed r.1 × ((r.0 ≢ ok tt) ⊎ Closed r.1)
  Safe-post (ok a, h) p = (p.0, inr p.1)
  Safe-post (err, h) p = (p, inl (λ e. cc))
  Safe-post (exit code, h) p = (p, inl (λ e. cc))

  -- Whatever the system answers, and wherever `install` fails: it calls `useradd` only if the user
  -- was not there, and `usermod` only if the group was; it creates no directory but the main one and
  -- the cache of certificates; it writes the default configuration, and to its place, only if no file
  -- was there, and the unit, with the text for some program, only if none was there and the call that
  -- closes the cache to all but its owner had been made and had returned without an error; it changes the owner of nothing but that cache; no permission
  -- that it sets gives anything to other users; it calls `systemctl` only after the cache had been
  -- closed so; and it removes nothing. A process that is not root makes no call and exits with 1, and
  -- one that ends well has closed the cache so.
  pub install-Allowed :
      Safe Allowed (install w scety_config []).1
      × ((w.is_root ≡ true) ⊎ (install w scety_config [] ≡ (exit 1, [])))
      × (((install w scety_config []).0 ≢ ok tt) ⊎ Closed (install w scety_config []).1)
  unfolding install
  install-Allowed = elim (Bool-cases w.is_root) [
    | inl root ↦
        let (safe, closed) =
          Safe-post (install_as_root w scety_config []) (install_as_root-Step.run [] tt tt) in
        rw root (safe, inl refl, closed)
    | inr other ↦ rw other (tt, inr refl, inl (λ e. cc))
  ]
