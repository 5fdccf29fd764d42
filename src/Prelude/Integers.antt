-- ===== src/Prelude/Integers.antt =====
-- Integers over the native numbers, as far as a difference needs them.
use Prim.Native.Nat.{ℕ, ◌-◌}
use taas_server_py.Prelude.Tests.{leb, if◌then◌else◌}

-- `negsuc n` is `-(n + 1)`
pub data ℤ : Type 0 where
  pos negsuc : ℕ → ℤ

infixl 60 ◌⊖◌
-- `a - b`
abbrev pub ◌⊖◌ : ℕ → ℕ → ℤ
a ⊖ b = if leb b a then pos (a - b) else negsuc (b - a - 1)
