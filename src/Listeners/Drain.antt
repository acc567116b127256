-- ===== src/Listeners/Drain.antt =====
-- When the tasks end, nothing stays behind.
use scety.Prelude.{ℕ, ◌<◌, ◌≡◌, refl, subst, pos, none, List, [], ◌∷◌, ◌++◌}
use scety.Config.Global.{ScetyConfig}
use scety.IpLimit.{IpAddr, Connections}
use scety.IpLimit.Steps as Counter
use scety.IpLimit.Bounded.{connections-none_iff}
use scety.Listeners.{Spawned, Proxy, ip_limit, finish}
use scety.Listeners.Steps.{ends, Reach, next, guards_of, server_of, Reach-server}

-- Tasks end, and no connection comes.
pub data Ends (cfg : ScetyConfig) : Proxy → Proxy → Type 0 where
  done : (p : Proxy) → Ends cfg p p
  one :
      {p q : Proxy} (before after : List Spawned) (t : Spawned)
      → p.tasks ≡ before ++ t ∷ after
      → Ends cfg (record { connections = finish t p.connections; tasks = before ++ after }) q
      → Ends cfg p q

module _ (cfg : ScetyConfig) where
  Ends-Reach : {p q : Proxy} → Ends cfg p q → Reach cfg p → Reach cfg q
  Ends-Reach (done p) r = r
  Ends-Reach (one {p} before after t e more) r = Ends-Reach more (next r (ends p before after t e))

  end_all :
      (ts : List Spawned) (m : Connections)
      → (left : Connections) × Ends cfg
          (record { connections = m; tasks = ts })
          (record { connections = left; tasks = [] })
  end_all [] m = (m, done _)
  end_all (t ∷ ts) m = let (left, more) = end_all ts (finish t m) in (left, one [] ts t refl more)

  -- If the configured limit is positive, then from every state that the proxy reaches, its tasks can
  -- all end, one after the other, and then none is left and the map holds no address.
  pub drains :
      (limit : ℕ)
      → ip_limit cfg ≡ pos limit
      → 0 < limit
      → {p : Proxy} → Reach cfg p
      → (q : Proxy) × Ends cfg p q × (q.tasks ≡ []) × ((ip : IpAddr) → q.connections ip ≡ none)
  drains limit limited positive {p} r =
      let (left, all) = end_all p.tasks p.connections in
      let reached : Counter.Reach (pos limit) (record { connections = left; guards = [] }) =
        unfold guards_of in
        subst (λ l. Counter.Reach l (server_of (record { connections = left; tasks = [] }))) limited
          (Reach-server cfg (Ends-Reach all r)) in
      (
        record { connections = left; tasks = [] },
        all,
        refl,
        λ ip. (connections-none_iff limit ip positive reached).1 refl,
      )
