-- ===== src/IpLimit/Steps.antt =====
-- The connections that a server accepts and closes, in any order, under one configured limit.
use scety.Prelude.{ℕ, ◌≡◌, ℤ, Bool, ◌&&◌, Option, none, some, List, [], ◌∷◌, ◌++◌, count}
use scety.IpLimit.{IpAddr, ip_eq, Connections, ConnectionGuard, try_acquire, drop_guard}

-- The map, and the guards that live connections hold.
pub record Server : Type 0 where
  pub connections : Connections
  pub guards : List ConnectionGuard

-- The new guard, if there is one.
abbrev pub held : Option ConnectionGuard → List ConnectionGuard → List ConnectionGuard
held none guards = guards
held (some g) guards = g ∷ guards

abbrev pub accept : IpAddr → ℤ → Server → Server
accept ip limit s = record {
  connections = (try_acquire ip limit s.connections).0;
  guards = held (try_acquire ip limit s.connections).1 s.guards;
}

-- A connection arrives, or one of the live ones ends.
pub data Step (limit : ℤ) : Server → Server → Type 0 where
  arrive : (s : Server) (ip : IpAddr) → Step limit s (accept ip limit s)
  close :
      (s : Server) (before after : List ConnectionGuard) (g : ConnectionGuard)
      → s.guards ≡ before ++ g ∷ after
      → Step limit s (record { connections = drop_guard g s.connections; guards = before ++ after })

pub data Reach (limit : ℤ) : Server → Type 0 where
  start : Reach limit (record { connections = λ _. none; guards = [] })
  next : {s t : Server} → Reach limit s → Step limit s t → Reach limit t

-- A guard that counts for the address.
abbrev pub counts : IpAddr → ConnectionGuard → Bool
counts ip g = g.tracked && ip_eq g.ip ip

-- The live connections that count for the address.
abbrev pub live : IpAddr → List ConnectionGuard → ℕ
live ip guards = count (counts ip) guards
