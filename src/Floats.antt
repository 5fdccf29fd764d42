-- ===== src/Floats.antt =====
-- Python's `float` where a program only compares, adds and multiplies: the operations, and apart
-- from them the facts of IEEE arithmetic, without NaN, that a theorem may ask for.
use taas_server_py.Prelude.{ℕ, Bool, true, false, ◌≡◌, if◌then◌else◌}
use taas_server_py.Exec.{Result}

pub record Floats : Type 1 where
  pub F : Type 0
  pub zero : F
  pub one : F
  pub half : F
  pub lt : F → F → Bool
  pub add : F → F → F
  pub mul : F → F → F
  -- `a ** n`, which raises `OverflowError` when the power is too large
  pub pow : F → ℕ → Result F

-- `a <= b`, as `not b < a`
abbrev pub Le : (fl : Floats) → fl.F → fl.F → Type 0
Le fl a b = fl.lt b a ≡ false

-- Python's `min(a, b)` and `max(a, b)`
abbrev pub min_float : (fl : Floats) → fl.F → fl.F → fl.F
min_float fl a b = if fl.lt b a then b else a

abbrev pub max_float : (fl : Floats) → fl.F → fl.F → fl.F
max_float fl a b = if fl.lt a b then b else a

pub record FloatLaws (fl : Floats) : Type 0 where
  pub le_refl : (a : fl.F) → Le fl a a
  pub le_trans : (a b c : fl.F) → Le fl a b → Le fl b c → Le fl a c
  pub le_of_lt : (a b : fl.F) → fl.lt a b ≡ true → Le fl a b
  pub add_mono : (a b c d : fl.F) → Le fl a b → Le fl c d → Le fl (fl.add a c) (fl.add b d)
  pub mul_mono :
      (a b c d : fl.F)
      → Le fl fl.zero a
      → Le fl fl.zero c
      → Le fl a b
      → Le fl c d
      → Le fl (fl.mul a c) (fl.mul b d)
