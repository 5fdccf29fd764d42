-- ===== src/Retry/Delay.antt =====
-- The delays of `get_next_delay`.
use taas_server_py.Prelude.{
  ◌≡◌, sym, if◌then◌else◌, inl, inr, Bool-cases, inr, inl, Bool-cases, ℕ, arith,
}
use taas_server_py.Exec.{ok, ok_same}
use taas_server_py.Floats.{Floats, FloatLaws, Le, min_float}
use taas_server_py.Retry.{Policy, get_next_delay}

module _ (fl : Floats) (laws : FloatLaws fl) where
  min_float-le : (a b : fl.F) → Le fl (min_float fl a b) b
  min_float-le a b = elim (Bool-cases (fl.lt b a)) [
    | inl less ↦ rw less (laws.le_refl b)
    | inr more ↦ rw more more
  ]

  min_float-nonneg :
      (a b : fl.F) → Le fl fl.zero a → Le fl fl.zero b → Le fl fl.zero (min_float fl a b)
  min_float-nonneg a b ha hb = ground arith

  -- A delay without jitter is at most `max_delay`; with jitter, of a draw between 0 and one half,
  -- it is at most `max_delay` and one half of it. The delay before jitter is not negative.
  pub get_next_delay_bounded :
      (p : Policy fl) (drawn : fl.F) (attempt : ℕ) (power delay : fl.F)
      → fl.pow p.exponential_base attempt ≡ ok power
      → get_next_delay fl p drawn attempt ≡ ok delay
      → Le fl fl.zero drawn
      → Le fl drawn fl.half
      → Le fl fl.zero (fl.mul p.initial_delay power)
      → Le fl fl.zero p.max_delay
      → Le fl delay
          (if p.jitter then fl.add p.max_delay (fl.mul p.max_delay fl.half) else p.max_delay)
  unfolding get_next_delay
  get_next_delay_bounded p drawn attempt power delay raised gives low high grown cap =
      let grown_delay = fl.mul p.initial_delay power in
      let capped = min_float-le grown_delay p.max_delay in
      let same = ok_same (rw raised at gives) in
      rw (sym same) (elim (Bool-cases p.jitter) [
        | inl on ↦ rw on (
            laws.add_mono _ _ _ _ capped (
              laws.mul_mono _ _ _ _ (min_float-nonneg grown_delay p.max_delay grown cap) low capped
                high))
        | inr off ↦ rw off capped
      ])
