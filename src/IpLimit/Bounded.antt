-- ===== src/IpLimit/Bounded.antt =====
-- No address ever holds more connections than the limit, and the map counts them exactly.
use scety.Prelude.{
  ℕ, ◌+◌, ◌≤◌, ◌<◌, ◌≡◌, refl, ap, ◌≢◌, ◌↔◌, pos, none, some, List, [], ◌∷◌, ◌++◌, arith, unwrap_or,
}
use scety.IpLimit.{IpAddr, ip_eq_iff, ConnectionGuard, try_acquire, drop_guard}
use scety.IpLimit.Steps.{Server, accept, Step, arrive, close, Reach, start, next, live}

pub live-append :
    (ip : IpAddr) (xs ys : List ConnectionGuard) → live ip (xs ++ ys) ≡ live ip xs + live ip ys
live-append ip [] ys = omega arith
live-append ip (g ∷ xs) ys = ground (arith, live-append ip xs ys)

-- For one address: the map's count is the live connections', and no more than the limit.
pub record Counted (limit : ℕ) (s : Server) : Type 0 where
  pub exact : (ip : IpAddr) → unwrap_or (s.connections ip) 0 ≡ live ip s.guards
  pub bounded : (ip : IpAddr) → live ip s.guards ≤ limit

accept-Counted :
    (limit : ℕ) (ip : IpAddr) {s : Server}
    → Counted limit s
    → Counted limit (accept ip (pos limit) s)
unfolding try_acquire
accept-Counted limit ip {s} c = record {
  exact = λ j. ground (arith, c.exact ip, c.exact j, ip_eq_iff ip j);
  bounded = λ j. ground (arith, c.exact ip, c.bounded j, ip_eq_iff ip j);
}

close-Counted :
    (limit : ℕ) (s : Server) (before after : List ConnectionGuard) (g : ConnectionGuard)
    → s.guards ≡ before ++ g ∷ after
    → Counted limit s
    → Counted limit (record { connections = drop_guard g s.connections; guards = before ++ after })
unfolding drop_guard
close-Counted limit s before after g e c = record {
  exact = λ j. ground (
    arith,
    c.exact g.ip,
    c.exact j,
    ip_eq_iff g.ip j,
    live-append j before after,
    live-append j before (g ∷ after),
    ap (live j) e,
  );
  bounded = λ j. ground (
    arith,
    c.bounded j,
    live-append j before after,
    live-append j before (g ∷ after),
    ap (live j) e,
  );
}

Step-Counted : (limit : ℕ) {s t : Server} → Step (pos limit) s t → Counted limit s → Counted limit t
Step-Counted limit (arrive s ip) c = accept-Counted limit ip c
Step-Counted limit (close s before after g e) c = close-Counted limit s before after g e c

-- Under a limit that is not negative, after any sequence of arrivals and closings: the count that
-- the map holds for an address is the number of its live connections, and that number is at most
-- the limit.
pub Reach-Counted : (limit : ℕ) {s : Server} → Reach (pos limit) s → Counted limit s
Reach-Counted limit start = record { exact = λ ip. refl; bounded = λ ip. omega arith }
Reach-Counted limit (next r st) = Step-Counted limit st (Reach-Counted limit r)

-- Under a limit that is not negative, after any sequence of arrivals and closings, a new connection
-- is refused exactly when its address already holds as many as the limit.
pub try_acquire-refused_iff :
    (limit : ℕ) (ip : IpAddr) {s : Server}
    → Reach (pos limit) s
    → ((try_acquire ip (pos limit) s.connections).1 ≡ none) ↔ (live ip s.guards ≡ limit)
unfolding try_acquire
try_acquire-refused_iff limit ip r =
    let c = Reach-Counted limit r in ground (arith, c.exact ip, c.bounded ip)

-- The map holds no address with a count of 0.
record NoZero (s : Server) : Type 0 where
  positive : (ip : IpAddr) → s.connections ip ≢ some 0

Step-NoZero : (limit : ℕ) {s t : Server} → 0 < limit → Step (pos limit) s t → NoZero s → NoZero t
unfolding try_acquire drop_guard
Step-NoZero limit h (arrive s ip) z = record {
  positive = λ j. ground (arith, z.positive ip, z.positive j, ip_eq_iff ip j);
}
Step-NoZero limit h (close s before after g e) z = record {
  positive = λ j. ground (arith, z.positive g.ip, z.positive j, ip_eq_iff g.ip j);
}

Reach-NoZero : (limit : ℕ) {s : Server} → 0 < limit → Reach (pos limit) s → NoZero s
Reach-NoZero limit h start = record { positive = λ ip e. cc }
Reach-NoZero limit h (next r st) = Step-NoZero limit h st (Reach-NoZero limit h r)

-- Under a positive limit, after any sequence of arrivals and closings, the map has an entry for an
-- address exactly when the address has a live connection: closed connections leave nothing behind.
pub connections-none_iff :
    (limit : ℕ) (ip : IpAddr) {s : Server}
    → 0 < limit
    → Reach (pos limit) s
    → (s.connections ip ≡ none) ↔ (live ip s.guards ≡ 0)
connections-none_iff limit ip h r =
    let c = Reach-Counted limit r in
    let z = Reach-NoZero limit h r in ground (arith, c.exact ip, z.positive ip)

-- Under a limit of 0, after any sequence of arrivals and closings, an attempt is refused, and leaves
-- an entry with the count 0 behind.
pub try_acquire-zero_limit :
    (ip : IpAddr) {s : Server}
    → Reach (pos 0) s
    → ((try_acquire ip (pos 0) s.connections).1 ≡ none)
      × ((try_acquire ip (pos 0) s.connections).0 ip ≡ some 0)
unfolding try_acquire
try_acquire-zero_limit ip r =
    let c = Reach-Counted 0 r in ground (arith, c.exact ip, c.bounded ip, ip_eq_iff ip ip)
