-- ===== src/IpLimit.antt =====
-- network/ip_limit.rs: how many connections an address holds. A call runs under the map's mutex, so
-- calls of any number of tasks are a sequence of steps.
use scety.Prelude.{
  ℕ, ◌+◌, ◌-◌, ◌≡◌, refl, ◌↔◌, ℤ, pos, negsuc, Bool, true, false, ◌&&◌, Option, none, some, List,
  [], ◌∷◌, arith, leb, ◌==◌, if◌then◌else◌, unwrap_or,
}
pub mod Steps
pub mod Bounded

-- `std::net::IpAddr`: the address as a number, with its version.
pub data IpAddr : Type 0 where
  v4 : ℕ → IpAddr
  v6 : ℕ → IpAddr

unfoldable pub ip_eq : IpAddr → IpAddr → Bool
ip_eq (v4 a) (v4 b) = a == b
ip_eq (v6 a) (v6 b) = a == b
ip_eq (v4 _) (v6 _) = false
ip_eq (v6 _) (v4 _) = false

pub ip_eq_iff : (a b : IpAddr) → (ip_eq a b ≡ true) ↔ (a ≡ b)
unfolding ip_eq
ip_eq_iff (v4 a) (v4 b) = ground arith
ip_eq_iff (v6 a) (v6 b) = ground arith
ip_eq_iff (v4 a) (v6 b) = (λ e. absurd (cc), λ e. absurd (cc))
ip_eq_iff (v6 a) (v4 b) = (λ e. absurd (cc), λ e. absurd (cc))

-- `HashMap<IpAddr, usize>`
abbrev pub Connections : Type 0
Connections = IpAddr → Option ℕ

abbrev pub insert : IpAddr → ℕ → Connections → Connections
insert ip n map = λ j. if ip_eq ip j then some n else map j

abbrev pub remove : IpAddr → Connections → Connections
remove ip map = λ j. if ip_eq ip j then none else map j

pub record ConnectionGuard : Type 0 where
  pub ip : IpAddr
  pub tracked : Bool

-- `try_acquire` from `map.entry(ip).or_insert(0)` on; `none` is `Err(())`.
unfoldable pub acquire_counted : IpAddr → ℕ → Connections → Connections × Option ConnectionGuard
acquire_counted ip limit map =
    let count = unwrap_or (map ip) 0 in
    if leb limit count
    then (insert ip count map, none)
    else (insert ip (count + 1) map, some (record { ip = ip; tracked = true }))

unfoldable pub try_acquire : IpAddr → ℤ → Connections → Connections × Option ConnectionGuard
unfolding acquire_counted
try_acquire ip (negsuc n) map = (map, some (record { ip = ip; tracked = false }))
try_acquire ip (pos limit) map = acquire_counted ip limit map

-- `if let Some(count) = map.get_mut(&self.ip)`: `saturating_sub`, and removal at 0.
unfoldable pub release : IpAddr → Option ℕ → Connections → Connections
release ip none map = map
release ip (some count) map =
    let remaining = count - 1 in if remaining == 0 then remove ip map else insert ip remaining map

-- `ConnectionGuard::drop`
unfoldable pub drop_guard : ConnectionGuard → Connections → Connections
unfolding release
drop_guard guard map = if guard.tracked then release guard.ip (map guard.ip) map else map
