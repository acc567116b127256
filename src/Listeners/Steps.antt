-- ===== src/Listeners/Steps.antt =====
-- Connections come and go on all ports at once: the steps of the whole proxy, as steps of the
-- counter of connections.
use scety.Prelude.{◌≡◌, refl, ap, ap₂, sym, ◌∙◌, subst, Option, none, some, List, [], ◌∷◌, ◌++◌}
use scety.Config.Global.{ScetyConfig}
use scety.IpLimit.{IpAddr, Connections, ConnectionGuard, drop_guard}
use scety.IpLimit.Steps as Counter
use scety.IpLimit.Steps.{Server, held, accept, arrive, close}
use scety.Listeners.{
  Spawned, refuse, serve, handshake, serve_acme, Proxy, ip_limit, check_ip_limit, accept_plain,
  spawn_plain, spawn_manual, accept_manual, accept_acme, finish,
}

-- One of the ports accepts a connection, or one of the tasks ends.
pub data Step (cfg : ScetyConfig) : Proxy → Proxy → Type 0 where
  plain : (p : Proxy) (ip : IpAddr) → Step cfg p (accept_plain cfg ip p)
  manual : (p : Proxy) (ip : IpAddr) → Step cfg p (accept_manual cfg ip p)
  acme : (p : Proxy) (ip : Option IpAddr) → Step cfg p (accept_acme ip p)
  ends :
      (p : Proxy) (before after : List Spawned) (t : Spawned)
      → p.tasks ≡ before ++ t ∷ after
      → Step cfg p (record { connections = finish t p.connections; tasks = before ++ after })

pub data Reach (cfg : ScetyConfig) : Proxy → Type 0 where
  start : Reach cfg (record { connections = λ _. none; tasks = [] })
  next : {p q : Proxy} → Reach cfg p → Step cfg p q → Reach cfg q

-- The guards that the tasks own.
abbrev pub own : Spawned → List ConnectionGuard → List ConnectionGuard
own (refuse ip) guards = guards
own (serve ip guard) guards = guard ∷ guards
own (handshake ip guard) guards = guard ∷ guards
own (serve_acme ip) guards = guards

unfoldable pub guards_of : List Spawned → List ConnectionGuard
guards_of [] = []
guards_of (t ∷ ts) = own t (guards_of ts)

abbrev pub server_of : Proxy → Server
server_of p = record { connections = p.connections; guards = guards_of p.tasks }

own-append : (t : Spawned) (gs hs : List ConnectionGuard) → own t gs ++ hs ≡ own t (gs ++ hs)
own-append (refuse ip) gs hs = refl
own-append (serve ip g) gs hs = refl
own-append (handshake ip g) gs hs = refl
own-append (serve_acme ip) gs hs = refl

guards_of-append : (ts us : List Spawned) → guards_of (ts ++ us) ≡ guards_of ts ++ guards_of us
unfolding guards_of
guards_of-append [] us = refl
guards_of-append (t ∷ ts) us =
    ap (own t) (guards_of-append ts us) ∙ sym (own-append t (guards_of ts) (guards_of us))

spawn_plain-held :
    (ip : IpAddr) (o : Option ConnectionGuard) (ts : List Spawned)
    → guards_of (spawn_plain ip o ts) ≡ held o (guards_of ts)
unfolding guards_of
spawn_plain-held ip none ts = refl
spawn_plain-held ip (some g) ts = refl

spawn_manual-held :
    (ip : IpAddr) (o : Option ConnectionGuard) (ts : List Spawned)
    → guards_of (spawn_manual ip o ts) ≡ held o (guards_of ts)
unfolding guards_of
spawn_manual-held ip none ts = refl
spawn_manual-held ip (some g) ts = refl

abbrev the_server : Connections → List ConnectionGuard → Server
the_server m gs = record { connections = m; guards = gs }

module _ (cfg : ScetyConfig) where
  abbrev with_guards : IpAddr → Proxy → List ConnectionGuard → Server
  with_guards ip p gs = record {
    connections = (check_ip_limit cfg ip p.connections).0;
    guards = gs;
  }

  accept_plain-server :
      (ip : IpAddr) (p : Proxy)
      → server_of (accept_plain cfg ip p) ≡ accept ip (ip_limit cfg) (server_of p)
  unfolding accept_plain check_ip_limit
  accept_plain-server ip p =
      ap (with_guards ip p) (spawn_plain-held ip (check_ip_limit cfg ip p.connections).1 p.tasks)

  accept_manual-server :
      (ip : IpAddr) (p : Proxy)
      → server_of (accept_manual cfg ip p) ≡ accept ip (ip_limit cfg) (server_of p)
  unfolding accept_manual check_ip_limit
  accept_manual-server ip p =
      ap (with_guards ip p) (spawn_manual-held ip (check_ip_limit cfg ip p.connections).1 p.tasks)

  -- The server of the proxy after a task has ended.
  abbrev after_end : Proxy → List Spawned → List Spawned → Spawned → Server
  after_end p before after t =
      server_of (record { connections = finish t p.connections; tasks = before ++ after })

  ends_free-server :
      (p : Proxy) (before after : List Spawned) (t : Spawned)
      → ((gs : List ConnectionGuard) → own t gs ≡ gs)
      → finish t p.connections ≡ p.connections
      → p.tasks ≡ before ++ t ∷ after
      → server_of p ≡ after_end p before after t
  unfolding guards_of
  ends_free-server p before after t free same e = ap₂ the_server (sym same) (
      ap guards_of e
      ∙ guards_of-append before (t ∷ after)
      ∙ ap (◌++◌ (guards_of before)) (free (guards_of after))
      ∙ sym (guards_of-append before after))

  ends_guarded-server :
      (p : Proxy) (before after : List Spawned) (t : Spawned) (g : ConnectionGuard)
      → ((gs : List ConnectionGuard) → own t gs ≡ g ∷ gs)
      → finish t p.connections ≡ drop_guard g p.connections
      → p.tasks ≡ before ++ t ∷ after
      → Counter.Step (ip_limit cfg) (server_of p) (after_end p before after t)
  unfolding guards_of
  ends_guarded-server p before after t g owned dropped e =
      subst (Counter.Step (ip_limit cfg) (server_of p))
        (ap₂ the_server (sym dropped) (sym (guards_of-append before after)))
        (close (server_of p) (guards_of before) (guards_of after) g (
          ap guards_of e
          ∙ guards_of-append before (t ∷ after)
          ∙ ap (◌++◌ (guards_of before)) (owned (guards_of after))))

  -- The counter's view of a task that ends.
  ends-server :
      (p : Proxy) (before after : List Spawned) (t : Spawned)
      → p.tasks ≡ before ++ t ∷ after
      → Counter.Reach (ip_limit cfg) (server_of p)
      → Counter.Reach (ip_limit cfg) (after_end p before after t)
  unfolding finish
  ends-server p before after (refuse ip) e r =
      subst (Counter.Reach (ip_limit cfg))
        (ends_free-server p before after (refuse ip) (λ gs. refl) refl e) r
  ends-server p before after (serve ip g) e r =
      Counter.next r (ends_guarded-server p before after (serve ip g) g (λ gs. refl) refl e)
  ends-server p before after (handshake ip g) e r =
      Counter.next r (ends_guarded-server p before after (handshake ip g) g (λ gs. refl) refl e)
  ends-server p before after (serve_acme ip) e r =
      subst (Counter.Reach (ip_limit cfg))
        (ends_free-server p before after (serve_acme ip) (λ gs. refl) refl e) r

  -- Whatever the ports accept and whichever tasks end, in any order, the map and the guards that the
  -- tasks own are those of a counter of connections that goes through arrivals and closings: every
  -- state of the proxy is a state of the counter.
  pub Reach-server : {p : Proxy} → Reach cfg p → Counter.Reach (ip_limit cfg) (server_of p)
  unfolding guards_of accept_acme
  Reach-server start = Counter.start
  Reach-server (next r (plain p ip)) =
      subst (Counter.Reach (ip_limit cfg)) (sym (accept_plain-server ip p))
        (Counter.next (Reach-server r) (arrive (server_of p) ip))
  Reach-server (next r (manual p ip)) =
      subst (Counter.Reach (ip_limit cfg)) (sym (accept_manual-server ip p))
        (Counter.next (Reach-server r) (arrive (server_of p) ip))
  Reach-server (next r (acme p ip)) = Reach-server r
  Reach-server (next r (ends p before after t e)) = ends-server p before after t e (Reach-server r)
