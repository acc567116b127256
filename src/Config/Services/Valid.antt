-- ===== src/Config/Services/Valid.antt =====
-- `validate_config` accepts exactly the well-formed configurations.
use scety.Prelude.{
  ℕ, ◌≡◌, refl, subst, ◌≢◌, ◌↔◌, ◌⊎◌, inl, inr, true, Option, none, some, List, [], ◌∷◌, ◌++◌,
  arith, Found, All, Bool-cases, Option-cases,
}
use scety.Text.{Text, codes}
use scety.Text.Decimal.{to_string}
use scety.Map
use scety.Map.{Map}
use scety.Config.Services.{
  UpstreamConfig, SslConfig, ClientConfig, ConfigError, unlisted_upstream, unlisted_ssl, Checked,
  ok, err, ◌>>◌, in_key, contains, check_hosts, check_listen, check_sections, section_port,
  check_keys, check_ports, check_upstream, check_ssl, check_option, check_entries, validate_config,
}

-- Exactly one of two options is given.
abbrev pub OneOf : {A B : Type 0} → Option A → Option B → Type 0
OneOf a b = (Found a × (b ≡ none)) ⊎ ((a ≡ none) × Found b)

-- Each section that names a port names a listed one.
abbrev pub KeysListed : Text → List ℕ → List Text → Type 0
KeysListed name ports keys =
    All (λ key. (port : ℕ) → section_port name key ≡ some port → contains ports port ≡ true) keys

abbrev pub SectionsFor : Map UpstreamConfig → List ℕ → Type 0
SectionsFor upstreams ports =
    All (λ port. Map.contains_key (codes "upstream_" ++ to_string port) upstreams ≡ true) ports

abbrev pub IfGiven : {A : Type 0} → (A → Type 0) → Option A → Type 0
IfGiven P none = Unit {0}
IfGiven P (some a) = P a

-- ACME with what it needs, or a certificate and its key.
abbrev pub SslUsable : SslConfig → Type 0
SslUsable ssl =
    ((ssl.acme ≡ some true) × Found ssl.acme_email × Found ssl.acme_domains)
    ⊎ ((ssl.acme ≢ some true) × Found ssl.cert × Found ssl.key)

abbrev pub PortsServed : Option (List ℕ) → ClientConfig → Type 0
PortsServed none c = Found c.upstream
PortsServed (some ports) c =
    SectionsFor c.upstreams ports × KeysListed (codes "upstream_") ports (Map.keys c.upstreams)

pub record Valid (c : ClientConfig) : Type 0 where
  pub one_host : OneOf c.host c.hosts
  pub one_listen : OneOf c.listen_port c.listens_port
  pub ports_served : PortsServed c.listens_port c
  pub upstream_port : IfGiven (λ u. OneOf (UpstreamConfig.port u) u.ports) c.upstream
  pub upstreams_ports : All (λ (e : Text × UpstreamConfig). OneOf e.1.port e.1.ports) c.upstreams
  pub ssl_listed :
      IfGiven (λ ports. KeysListed (codes "ssl_") ports (Map.keys c.ssl_ports)) c.listens_port
  pub ssl_usable : IfGiven SslUsable c.ssl
  pub ssl_ports_usable : All (λ (e : Text × SslConfig). SslUsable e.1) c.ssl_ports

>>_iff : (a b : Checked) → ((a >> b) ≡ ok) ↔ ((a ≡ ok) × (b ≡ ok))
>>_iff ok b = (λ e. (refl, e), λ p. p.1)
>>_iff (err x) b = (λ e. absurd (cc), λ p. absurd (cc))

-- Two checks in a row, each with its meaning.
then_iff : {P Q : Type 0} (a b : Checked) → (a ≡ ok) ↔ P → (b ≡ ok) ↔ Q → ((a >> b) ≡ ok) ↔ (P × Q)
then_iff a b p q =
    (λ e. let (x, y) = (>>_iff a b).0 e in (p.0 x, q.0 y), λ h. (>>_iff a b).1 (p.1 h.0, q.1 h.1))

check_hosts_iff : (a : Option Text) (b : Option (List Text)) → (check_hosts a b ≡ ok) ↔ OneOf a b
unfolding check_hosts
check_hosts_iff a b = ground arith

check_listen_iff : (a : Option ℕ) (b : Option (List ℕ)) → (check_listen a b ≡ ok) ↔ OneOf a b
unfolding check_listen
check_listen_iff a b = ground arith

check_upstream_iff : (u : UpstreamConfig) → (check_upstream u ≡ ok) ↔ OneOf u.port u.ports
unfolding check_upstream
check_upstream_iff u = ground arith

check_ssl_iff : (s : SslConfig) → (check_ssl s ≡ ok) ↔ SslUsable s
unfolding check_ssl
check_ssl_iff s = ground arith

check_sections_iff :
    (upstreams : Map UpstreamConfig) (ports : List ℕ)
    → (check_sections upstreams ports ≡ ok) ↔ SectionsFor upstreams ports
unfolding check_sections
check_sections_iff upstreams [] = (λ _. tt, λ _. refl)
check_sections_iff upstreams (p ∷ ports) = ground (arith, check_sections_iff upstreams ports)

check_keys_iff :
    (error : Text → ℕ → ConfigError) (name : Text) (ports : List ℕ) (keys : List Text)
    → (check_keys error name ports keys ≡ ok) ↔ KeysListed name ports keys
unfolding check_keys
check_keys_iff error name ports [] = (λ _. tt, λ _. refl)
check_keys_iff error name ports (key ∷ keys) =
    let (sound, complete) = check_keys_iff error name ports keys in
    elim (Option-cases (section_port name key)) [
      | inl unnamed ↦ (
        λ e. (λ port q. absurd (cc), sound (rw (unnamed, check_keys) at e)),
        λ h. rw (unnamed, check_keys) (complete h.1),
      )
      | inr (n, named) ↦ elim (Bool-cases (contains ports n)) [
        | inl listed ↦ (
          λ e. (
            λ port q. subst (λ k. contains ports k ≡ true) (cc) listed,
            sound (rw (named, check_keys, listed) at e),
          ),
          λ h. rw (named, check_keys, listed) (complete h.1),
        )
        | inr not_listed ↦ (
          λ e.
              let never : err (error key n) ≡ ok = rw (named, check_keys, not_listed) at e in
              absurd (cc),
          λ h. absurd (cc (h.0 n named)),
        )
      ]
    ]

check_option_iff :
    {A : Type 0} (check : A → Checked) (P : A → Type 0) (o : Option A)
    → ((a : A) → (check a ≡ ok) ↔ P a)
    → (check_option check o ≡ ok) ↔ IfGiven P o
unfolding check_option
check_option_iff check P none h = (λ _. tt, λ _. refl)
check_option_iff check P (some a) h = h a

in_key_iff : (key : Text) (c : Checked) → (in_key key c ≡ ok) ↔ (c ≡ ok)
in_key_iff key ok = (λ e. e, λ e. e)
in_key_iff key (err x) = (λ e. absurd (cc), λ e. absurd (cc))

check_entries_iff :
    {A : Type 0} (check : A → Checked) (P : A → Type 0) (m : Map A)
    → ((a : A) → (check a ≡ ok) ↔ P a)
    → (check_entries check m ≡ ok) ↔ All (λ (e : Text × A). P e.1) m
unfolding check_entries
check_entries_iff check P [] h = (λ _. tt, λ _. refl)
check_entries_iff check P ((key, a) ∷ m) h =
    let rest = check_entries_iff check P m h in
    let both = >>_iff (in_key key (check a)) (check_entries check m) in
    (
      λ e. ((h a).0 ((in_key_iff key (check a)).0 (both.0 e).0), rest.0 (both.0 e).1),
      λ p. both.1 ((in_key_iff key (check a)).1 ((h a).1 p.0), rest.1 p.1),
    )

check_ports_iff :
    (c : ClientConfig)
    → (check_ports c.listens_port c.upstream c.upstreams ≡ ok) ↔ PortsServed c.listens_port c
check_ports_iff c = go c.listens_port c.upstream
  where
    go :
        (listens : Option (List ℕ)) (upstream : Option UpstreamConfig)
        → (check_ports listens upstream c.upstreams ≡ ok)
          ↔ PortsServed listens (record c { upstream = upstream })
    go none none = unfold check_ports in (λ e. absurd (cc), λ p. absurd (cc (p.1)))
    go none (some u) = unfold check_ports in (λ e. (u, refl), λ p. refl)
    go (some ports) upstream =
        unfold check_ports in
        then_iff _ _ (check_sections_iff c.upstreams ports)
          (check_keys_iff unlisted_upstream (codes "upstream_") ports (Map.keys c.upstreams))

-- `validate_config` accepts a configuration exactly when: one of `host` and `hosts` is given, and
-- one of `listen_port` and `listens_port`; with `listens_port`, each listed port has its
-- `upstream_<port>` section and each such section names a listed port, and without it there is an
-- `upstream`; each upstream has one of `port` and `ports`; with `listens_port`, each `ssl_<port>`
-- section names a listed port; and each TLS section has what ACME needs, or a certificate and key.
pub validate_config_iff : (c : ClientConfig) → (validate_config c ≡ ok) ↔ Valid c
unfolding validate_config
validate_config_iff c =
    let all =
      then_iff _ _
        (then_iff _ _
          (then_iff _ _
            (then_iff _ _
              (then_iff _ _
                (then_iff _ _
                  (then_iff _ _ (check_hosts_iff c.host c.hosts)
                    (check_listen_iff c.listen_port c.listens_port))
                  (check_ports_iff c))
                (check_option_iff check_upstream (λ u. OneOf (UpstreamConfig.port u) u.ports)
                  c.upstream check_upstream_iff))
              (check_entries_iff check_upstream (λ u. OneOf (UpstreamConfig.port u) u.ports)
                c.upstreams check_upstream_iff))
            (check_option_iff
              (λ ports. check_keys unlisted_ssl (codes "ssl_") ports (Map.keys c.ssl_ports))
              (λ ports. KeysListed (codes "ssl_") ports (Map.keys c.ssl_ports)) c.listens_port
              (λ ports. check_keys_iff unlisted_ssl (codes "ssl_") ports (Map.keys c.ssl_ports))))
          (check_option_iff check_ssl SslUsable c.ssl check_ssl_iff))
        (check_entries_iff check_ssl SslUsable c.ssl_ports check_ssl_iff) in
    (
      λ e.
          let (((((((h, l), p), u), us), sl), s), sp) = all.0 e in
          record {
            one_host = h;
            one_listen = l;
            ports_served = p;
            upstream_port = u;
            upstreams_ports = us;
            ssl_listed = sl;
            ssl_usable = s;
            ssl_ports_usable = sp;
          },
      λ v. all.1 (
        (
          (
            ((((v.one_host, v.one_listen), v.ports_served), v.upstream_port), v.upstreams_ports),
            v.ssl_listed,
          ),
          v.ssl_usable,
        ),
        v.ssl_ports_usable,
      ),
    )
