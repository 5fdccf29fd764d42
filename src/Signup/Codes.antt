-- ===== src/Signup/Codes.antt =====
-- The code that is mailed, and the code that is kept for its verification.
use Prim.Native.String.{◌++◌ as ◌<>◌}
use taas_server_py.Prelude.{
  inr, inl, ℕ, String, some, [], ◌∷◌, ◌++◌, lookup, lookup-insert_self, ltb, ◌≡◌, refl,
  if◌then◌else◌, Bool-cases,
}
use taas_server_py.Signup.{
  EmailMessage, Mail, existed, verification_sent, build_signup_otp_key,
  signup_01_onboarding_with_email,
}

-- one message goes to the address with this code, and `kept` is the entry for its verification
pub Mailed : String → String → String → Mail → Mail → Type 0
Mailed email otp kept m m' =
    ((message : EmailMessage) × (m'.sent ≡ m.sent ++ message ∷ [])
      × (message.to ≡ email)
      × (message.otp ≡ otp))
    × (lookup (build_signup_otp_key email) m'.cache ≡ some kept)

-- An address that has a user is sent nothing, and nothing is kept. To any other one mail is sent, with
-- the code that was generated, but the entry that is kept for its verification holds the text `None`
-- in the place of the code, whatever the code.
pub signup_codes :
    (generated verify_url : String) (count : ℕ) (email : String) (m : Mail)
    → let (status, m') = signup_01_onboarding_with_email generated verify_url count email m in
      if ltb 0 count
      then (status ≡ existed) × (m' ≡ m)
      else (status ≡ verification_sent) × Mailed email generated ("None" <> ":" <> email) m m'
unfolding signup_01_onboarding_with_email Mailed
signup_codes generated verify_url count email m = elim (Bool-cases (ltb 0 count)) [
  | inl known ↦ rw known (refl, refl)
  | inr new ↦
      rw new
        (refl, ((_, refl, refl, refl), lookup-insert_self (build_signup_otp_key email) _ m.cache))
]
