-- ===== src/Config/Global/Timeouts.antt =====
-- Which timeout applies, and which hosts have too many labels.
use scety.Prelude.{
  ℕ, ◌<◌, ◌≡◌, refl, ◌↔◌, ℤ, pos, negsuc, true, Option, none, some, arith, is_none, if◌then◌else◌,
  unwrap_or, length, Found,
}
use scety.Text.{Text, split}
use scety.Config.Global.{
  Duration, default_timeout, LimitationSection, LimitBuffersSection, TlsSection,
  GlobalHeadersSection, ScetyConfig, exceeds, host_exceeds_label_limit, parse_optional_timeout, new,
}

module _ (parse_duration : Text → Option Duration) (limitation : LimitationSection)
    (limit_buffers : LimitBuffersSection) (tls : TlsSection) (headers : GlobalHeadersSection) where
  abbrev pub built : ScetyConfig
  built = new parse_duration limitation limit_buffers tls headers

  abbrev pub given : Option Text → Option (Option Duration)
  given = parse_optional_timeout parse_duration

  -- Where neither the headers nor the body have a timeout of their own, the full timeout stands for
  -- both, and elsewhere five seconds stand for the one that is missing.
  abbrev pub shared : Option Duration
  shared =
      if is_none limitation.client_headers_timeout
      then (if is_none limitation.client_body_timeout
          then unwrap_or (given limitation.client_full_timeout) (some default_timeout)
          else some default_timeout)
      else some default_timeout

  -- The headers' and the body's timeout are each the configured one, where it is given. Where it is
  -- not, it is the full timeout if the other is not given either and the full one is, and five
  -- seconds otherwise. The full timeout is in use exactly when it is given and the others are not.
  pub new-timeouts :
      (built.client_headers_timeout ≡ unwrap_or (given limitation.client_headers_timeout) shared)
      × (built.client_body_timeout ≡ unwrap_or (given limitation.client_body_timeout) shared)
      × ((built.client_use_full_timeout ≡ true) ↔ (
          (limitation.client_headers_timeout ≡ none)
          × (limitation.client_body_timeout ≡ none)
          × Found limitation.client_full_timeout))
  unfolding new
  new-timeouts = ground arith

-- A host is over the limit exactly when the limit is not negative and the host has more labels.
host_exceeds_label_limit_iff :
    (c : ScetyConfig) (host : Text)
    → (host_exceeds_label_limit c host ≡ true)
      ↔ ((limit : ℕ) × (c.max_host_labels ≡ some (pos limit)) × (limit < length (split b'.' host)))
unfolding host_exceeds_label_limit
host_exceeds_label_limit_iff c host = go c.max_host_labels
  where
    go :
        (o : Option ℤ)
        → (exceeds o host ≡ true)
          ↔ ((limit : ℕ) × (o ≡ some (pos limit)) × (limit < length (split b'.' host)))
    go none = (λ e. absurd (cc), λ p. absurd (cc (p.1)))
    go (some (negsuc n)) = (λ e. absurd (cc), λ p. absurd (cc (p.1)))
    go (some (pos n)) = (λ e. (n, refl, ground arith), λ p. ground arith)
