-- ===== src/XServer.antt =====
-- What the X server keeps on a window for its clients: the value of a property.
use Prim.Native.Nat.{ℕ}
use mathlib.Core.List.{List}

-- Its type, its format, and its items.
pub record PropertyValue : Type 0 where
  pub kind : ℕ
  pub format : ℕ
  pub items : List ℕ
