-- ===== src/Listeners/Served.antt =====
-- How many clients of one address are served at a time.
use scety.Prelude.{
  ℕ, ◌≤◌, ◌≡◌, refl, ap, sym, ◌∙◌, subst, ◌↔◌, pos, Bool, true, false, inl, inr, Option, none, some,
  List, [], ◌∷◌, ◌++◌, arith, count, length, All, All-append_left, All-append_right, All-append,
  Option-cases,
}
use scety.Config.Global.{ScetyConfig}
use scety.IpLimit.{IpAddr, ip_eq, Connections, ConnectionGuard, try_acquire}
use scety.IpLimit.Steps as Counter
use scety.IpLimit.Steps.{live}
use scety.IpLimit.Bounded.{Reach-Counted, try_acquire-refused_iff}
use scety.Listeners.{
  Spawned, refuse, serve, handshake, serve_acme, Proxy, ip_limit, check_ip_limit, accept_plain,
  spawn_plain, spawn_manual, accept_manual, accept_acme,
}
use scety.Listeners.Steps.{
  Step, plain, manual, acme, ends, Reach, start, next, guards_of, server_of, Reach-server,
}

-- The task handles a client of the address, on a plain port or on one with a certificate.
abbrev pub serves : IpAddr → Spawned → Bool
serves ip (refuse j) = false
serves ip (serve j guard) = ip_eq j ip
serves ip (handshake j guard) = ip_eq j ip
serves ip (serve_acme j) = false

abbrev pub served : IpAddr → List Spawned → ℕ
served ip tasks = count (serves ip) tasks

-- The guard that a task owns is for the address of its client.
abbrev guard_for : IpAddr → ConnectionGuard
guard_for ip = record { ip = ip; tracked = true }

abbrev Owns : Spawned → Type 0
Owns (refuse ip) = Unit
Owns (serve ip guard) = guard ≡ guard_for ip
Owns (handshake ip guard) = guard ≡ guard_for ip
Owns (serve_acme ip) = Unit

served-live :
    (ip : IpAddr) (ts : List Spawned) → All Owns ts → served ip ts ≡ live ip (guards_of ts)
unfolding guards_of
served-live ip [] h = refl
served-live ip (refuse j ∷ ts) h = served-live ip ts h.1
served-live ip (serve j g ∷ ts) h = rw (h.0, served-live ip ts h.1) refl
served-live ip (handshake j g ∷ ts) h = rw (h.0, served-live ip ts h.1) refl
served-live ip (serve_acme j ∷ ts) h = served-live ip ts h.1

acquired-guard :
    (ip : IpAddr) (limit : ℕ) (map : Connections) (g : ConnectionGuard)
    → (try_acquire ip (pos limit) map).1 ≡ some g
    → g ≡ guard_for ip
unfolding try_acquire
acquired-guard ip limit map g e = ground arith

is_refuse : List Spawned → Bool
is_refuse [] = false
is_refuse (refuse ip ∷ ts) = true
is_refuse (serve ip g ∷ ts) = false
is_refuse (handshake ip g ∷ ts) = false
is_refuse (serve_acme ip ∷ ts) = false

spawn_plain-refused :
    (ip : IpAddr) (o : Option ConnectionGuard) (ts : List Spawned)
    → spawn_plain ip o ts ≡ refuse ip ∷ ts
    → o ≡ none
unfolding is_refuse
spawn_plain-refused ip none ts e = refl
spawn_plain-refused ip (some g) ts e = absurd (ground (arith, ap is_refuse e))

spawn_manual-refused :
    (ip : IpAddr) (o : Option ConnectionGuard) (ts : List Spawned)
    → spawn_manual ip o ts ≡ ts
    → o ≡ none
spawn_manual-refused ip none ts e = refl
spawn_manual-refused ip (some g) ts e = absurd (omega (arith, ap length e))

module _ (cfg : ScetyConfig) (limit : ℕ) (limited : ip_limit cfg ≡ pos limit) where
  checked-guard :
      (ip : IpAddr) (map : Connections) (g : ConnectionGuard)
      → (check_ip_limit cfg ip map).1 ≡ some g
      → g ≡ guard_for ip
  unfolding check_ip_limit
  checked-guard ip map g e =
      acquired-guard ip limit map g (sym (ap (λ l. (try_acquire ip l map).1) limited) ∙ e)

  Step-Owns : {p q : Proxy} → Step cfg p q → All Owns p.tasks → All Owns q.tasks
  unfolding accept_plain accept_manual accept_acme
  Step-Owns (plain p ip) h = elim (Option-cases (check_ip_limit cfg ip p.connections).1) [
    | inl full ↦ subst (λ o. All Owns (spawn_plain ip o p.tasks)) (sym full) (tt, h)
    | inr (g, free) ↦
        subst (λ o. All Owns (spawn_plain ip o p.tasks)) (sym free)
          (checked-guard ip p.connections g free, h)
  ]
  Step-Owns (manual p ip) h = elim (Option-cases (check_ip_limit cfg ip p.connections).1) [
    | inl full ↦ subst (λ o. All Owns (spawn_manual ip o p.tasks)) (sym full) h
    | inr (g, free) ↦
        subst (λ o. All Owns (spawn_manual ip o p.tasks)) (sym free)
          (checked-guard ip p.connections g free, h)
  ]
  Step-Owns (acme p ip) h = (tt, h)
  Step-Owns (ends p before after t e) h =
      let all : All Owns (before ++ t ∷ after) = subst (All Owns) e h in
      All-append Owns before after (All-append_left Owns before (t ∷ after) all)
        (All-append_right Owns before (t ∷ after) all).1

  Reach-Owns : {p : Proxy} → Reach cfg p → All Owns p.tasks
  Reach-Owns start = tt
  Reach-Owns (next r s) = Step-Owns s (Reach-Owns r)

  counter : {p : Proxy} → Reach cfg p → Counter.Reach (pos limit) (server_of p)
  counter {p} r = subst (λ l. Counter.Reach l (server_of p)) limited (Reach-server cfg r)

  -- If the configured limit is not negative, then whatever the ports accept and whichever tasks end,
  -- in any order, plain ports and ports with a certificate together never serve more clients of one
  -- address at a time than the limit.
  pub Reach-served_le : (ip : IpAddr) {p : Proxy} → Reach cfg p → served ip p.tasks ≤ limit
  Reach-served_le ip {p} r =
      let c = Reach-Counted limit (counter r) in
      omega (arith, served-live ip p.tasks (Reach-Owns r), c.bounded ip)

  refused_iff :
      (ip : IpAddr) {p : Proxy}
      → Reach cfg p
      → ((check_ip_limit cfg ip p.connections).1 ≡ none) ↔ (served ip p.tasks ≡ limit)
  unfolding check_ip_limit
  refused_iff ip {p} r =
      let (full, free) =
        subst
          (λ l. ((try_acquire ip l p.connections).1 ≡ none) ↔ (live ip (guards_of p.tasks) ≡ limit))
          (sym limited) (try_acquire-refused_iff limit ip (counter r)) in
      let same = served-live ip p.tasks (Reach-Owns r) in
      (λ e. same ∙ full e, λ e. free (sym same ∙ e))

  -- If the configured limit is not negative, then in every state that the proxy reaches, a plain port
  -- answers a new connection with a task that sends 429 exactly when its address is already served
  -- as many times as the limit, and a port with a certificate drops the connection, so that no task
  -- starts, in exactly the same case.
  pub accept-refused_iff :
      (ip : IpAddr) {p : Proxy}
      → Reach cfg p
      → (((accept_plain cfg ip p).tasks ≡ refuse ip ∷ p.tasks) ↔ (served ip p.tasks ≡ limit))
        × (((accept_manual cfg ip p).tasks ≡ p.tasks) ↔ (served ip p.tasks ≡ limit))
  unfolding accept_plain accept_manual
  accept-refused_iff ip {p} r =
      let (full, free) = refused_iff ip r in
      let o = (check_ip_limit cfg ip p.connections).1 in
      (
        (
          λ e. full (spawn_plain-refused ip o p.tasks e),
          λ e. ap (λ k. spawn_plain ip k p.tasks) (free e),
        ),
        (
          λ e. full (spawn_manual-refused ip o p.tasks e),
          λ e. ap (λ k. spawn_manual ip k p.tasks) (free e),
        ),
      )
