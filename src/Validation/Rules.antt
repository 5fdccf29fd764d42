-- ===== src/Validation/Rules.antt =====
-- Sequences of rules, and matches to the end of a text.
use taas_server_py.Prelude.{
  length, ℕ, String, Bool, true, false, List, [], ◌∷◌, ◌==◌, ◌≡◌, refl, arith, All, ◌<◌,
}
use taas_server_py.Exec.{ok}
use taas_server_py.Validation.{matches_class, Text, all, ends_with, to_end, checked}

module _ {A : Type 0} where
  -- a value that is let through, by rules that all let it through
  pub checked_ok :
      (rules : List (Bool × String)) (v w : A)
      → checked rules v ≡ ok w
      → (v ≡ w) × All (λ r. r.0 ≡ false) rules
  unfolding checked
  checked_ok [] v w h = (cc, tt)
  checked_ok ((true, msg) ∷ rules) v w h = absurd cc
  checked_ok ((false, msg) ∷ rules) v w h =
      let (same, rest) = checked_ok rules v w h in (same, (refl, rest))

  pub checked_pass :
      (rules : List (Bool × String)) (v : A) → All (λ r. r.0 ≡ false) rules → checked rules v ≡ ok v
  unfolding checked
  checked_pass [] v h = refl
  checked_pass ((bad, msg) ∷ rules) v (h, rest) = rw h (checked_pass rules v rest)

-- a match to the end of a text that ends in no line feed is one of all characters
pub to_end-all :
    (p : ℕ → Bool) (s : Text)
    → ends_with (λ c. c == b'\n') s ≡ false
    → to_end p s ≡ true
    → all p s ≡ true
unfolding to_end all ends_with
to_end-all p [] e h = refl
to_end-all p (c ∷ []) e h = ground (arith, e, h)
to_end-all p (c ∷ d ∷ s) e h = ground (arith, to_end-all p (d ∷ s), e, h)

pub all-to_end : (p : ℕ → Bool) (s : Text) → all p s ≡ true → to_end p s ≡ true
unfolding to_end all
all-to_end p [] h = refl
all-to_end p (c ∷ s) h = ground (arith, all-to_end p s, h)

pub matches_class-all :
    (p : ℕ → Bool) (s : Text)
    → ends_with (λ c. c == b'\n') s ≡ false
    → matches_class p s ≡ true
    → all p s ≡ true
unfolding matches_class all ends_with to_end
matches_class-all p [] e h = refl
matches_class-all p (c ∷ []) e h = ground (arith, h)
matches_class-all p (c ∷ d ∷ s) e h = ground (arith, h, to_end-all p (d ∷ s) e)

pub all-matches_class :
    (p : ℕ → Bool) (s : Text) → 0 < length s → all p s ≡ true → matches_class p s ≡ true
unfolding matches_class all
all-matches_class p [] h k = absurd (omega (arith, h))
all-matches_class p (c ∷ s) h k = ground (arith, k, all-to_end p s)

pub all_weaken :
    (p q : ℕ → Bool) (s : Text)
    → ((c : ℕ) → p c ≡ true → q c ≡ true)
    → all p s ≡ true
    → all q s ≡ true
unfolding all
all_weaken p q [] imp h = refl
all_weaken p q (c ∷ s) imp h = ground (arith, h, imp c, all_weaken p q s imp)
