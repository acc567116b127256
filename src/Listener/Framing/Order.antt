-- ===== src/Listener/Framing/Order.antt =====
-- A WebSocket upgrade is recognised by its headers in any order.
use mathlib.Core.Bool.{Bool-set}
use mathlib.Core.List.{Perm, Permᴰ}
use mathlib.Core.Logic.{∥∥₁_elim}
use scety.Prelude.{◌≡◌, refl, ap, ap₂, ◌∙◌, Bool, ◌&&◌, ◌||◌, List, any, arith}
use scety.Listener.Framing.{Header, is_websocket_upgrade}

any-Permᴰ : (p : Header → Bool) {xs ys : List Header} → Permᴰ xs ys → any p xs ≡ any p ys
any-Permᴰ p Permᴰ.nil = refl
any-Permᴰ p (Permᴰ.cons e d) = ap₂ (λ x b. p x || b) e (any-Permᴰ p d)
any-Permᴰ p (Permᴰ.swap {a} {b} {a'} {b'} {l} e f) = ground (arith, ap p e, ap p f)
any-Permᴰ p (Permᴰ.trans d e) = any-Permᴰ p d ∙ any-Permᴰ p e

-- Whether a request asks for a WebSocket does not depend on the order of its headers.
is_websocket_upgrade-perm :
    {xs ys : List Header} → Perm xs ys → is_websocket_upgrade xs ≡ is_websocket_upgrade ys
unfolding is_websocket_upgrade
is_websocket_upgrade-perm p =
    ∥∥₁_elim p (Bool-set _ _) (λ d. ap₂ ◌&&◌ (any-Permᴰ _ d) (any-Permᴰ _ d))
