-- ===== src/Base/Enum.antt =====
-- `IntEnum` classes: a member is looked up by its value, as `Enum(value)` does.
use Prim.Native.Nat.{ℕ}
use mathlib.Core.Path.{◌≡◌}
use mathlib.Core.Option.{Option, none, some}
use mathlib.Core.List.{List, [], ◌∷◌}
use native.Mathlib.Omega.{arith}
use onesti_lock.Base.Tests.{◌==◌, if◌then◌else◌}

module _ {ℓ} {E : Type ℓ} (value : E → ℕ) where
  -- The first member of that value, or `none` where Python raises ValueError.
  abbrev pub find_member : List E → ℕ → Option E
  find_member [] n = none
  find_member (e ∷ es) n = if value e == n then some e else find_member es n

  -- What the lookup finds has the value that was asked for.
  pub find_member-value : (es : List E) (n : ℕ) (e : E) → find_member es n ≡ some e → value e ≡ n
  find_member-value [] n e h = cc
  find_member-value (x ∷ es) n e h = ground (arith, find_member-value es n e)
