-- ===== src/Validation/Password/Ratings.antt =====
-- How the rules for passwords and the analysis of their strength agree.
use taas_server_py.Prelude.{◌≤◌, true, false, [], length, ◌≡◌, arith}
use mathlib.Core.Logic.{◌↔◌}
use taas_server_py.Exec.{validation_error, ok, err}
use taas_server_py.Validation.{Text, Unicode, any, is_upper, is_lower, checked}
use taas_server_py.Validation.Rules.{checked_ok, checked_pass}
use taas_server_py.Validation.Password.{
  Requirements, requirements_of, strong, validate_password_strength, get_password_strength,
  is_common_password, is_special, strength_rules,
}

pub record AllMet (r : Requirements) : Type 0 where
  pub length_met : r.length_met ≡ true
  pub uppercase : r.uppercase ≡ true
  pub lowercase : r.lowercase ≡ true
  pub digits : r.digits ≡ true
  pub special_chars_met : r.special_chars_met ≡ true
  pub not_common : r.not_common ≡ true

module _ (u : Unicode) (p : Text) where
  accepted-AllMet :
      validate_password_strength u p ≡ ok tt
      → AllMet (get_password_strength u p).requirements × (length p ≤ 128)
  unfolding validate_password_strength strength_rules get_password_strength requirements_of
  accepted-AllMet h =
      let (_, (long, (short, (upper, (lower, (digit, (special, (common, _)))))))) =
        checked_ok (strength_rules u p) tt tt h in
      (
        record {
          length_met = ground (arith, long);
          uppercase = ground (arith, upper);
          lowercase = ground (arith, lower);
          digits = ground (arith, digit);
          special_chars_met = ground (arith, special);
          not_common = ground (arith, common);
        },
        ground (arith, short),
      )

  AllMet-accepted :
      AllMet (get_password_strength u p).requirements
      → length p ≤ 128
      → validate_password_strength u p ≡ ok tt
  unfolding validate_password_strength strength_rules get_password_strength requirements_of
  AllMet-accepted met short = checked_pass (strength_rules u p) tt (
    ground (arith, met.length_met),
    (
      ground (arith, short),
      (
        ground (arith, met.uppercase),
        (
          ground (arith, met.lowercase),
          (
            ground (arith, met.digits),
            (ground (arith, met.special_chars_met), (ground (arith, met.not_common), tt)),
          ),
        ),
      ),
    ),
  )

  -- A password is accepted exactly if the analysis finds every requirement met and it has at most 128
  -- characters.
  pub accepted_iff :
      (validate_password_strength u p ≡ ok tt)
      ↔ (AllMet (get_password_strength u p).requirements × (length p ≤ 128))
  accepted_iff = (accepted-AllMet, λ h. AllMet-accepted h.0 h.1)

  -- A password that is accepted is rated strong, with no advice.
  pub accepted_strong :
      validate_password_strength u p ≡ ok tt
      → ((get_password_strength u p).strength ≡ strong)
        × ((get_password_strength u p).feedback ≡ [])
  unfolding get_password_strength requirements_of
  accepted_strong h =
      let m = (accepted-AllMet h).0 in
      ground
        (arith, m.length_met, m.uppercase, m.lowercase, m.digits, m.special_chars_met, m.not_common)

  -- The converse fails: a password of 20 to 128 characters that has a lower-case letter, a digit and a
  -- special character and is not common, but has no upper-case letter, is rated strong and refused.
  pub strong_refused :
      20 ≤ length p
      → length p ≤ 128
      → any is_upper p ≡ false
      → any is_lower p ≡ true
      → any u.is_decimal p ≡ true
      → any is_special p ≡ true
      → is_common_password u p ≡ false
      → ((get_password_strength u p).strength ≡ strong)
        × (validate_password_strength u p
            ≡ err (validation_error "Password must contain at least one uppercase letter"))
  unfolding get_password_strength requirements_of validate_password_strength checked
  strong_refused long short no_upper lower digit special rare = ground arith
