-- ===== src/Listener/Forward/Headers.antt =====
-- What the upstream is told of the client's address.
use scety.Prelude.{◌≡◌, ◌⊎◌, List, Any}
use scety.Text.{Text}
use scety.Text.Utf8.{Bytes}
use scety.Map.{Map}
use scety.Listener.Strip.Named.{IsHeader}

-- A line that is a header of this name is one of those that were written.
abbrev pub Written : Text → List Bytes → Bytes → Type 0
Written name lines line = (¬ IsHeader name line) ⊎ Any (λ w. w ≡ line) lines
