-- ===== src/Signup.antt =====
-- libs/iam/src/iam/auth/services/_auth.py: the first step of a sign-up, which mails a one-time code.
-- The mail service and the cache are taken to work: what they get is the state, less the times for which
-- entries are valid and the name of the project.
pub mod Codes
use Prim.Native.String.{◌++◌ as ◌<>◌}
use taas_server_py.Prelude.{
  ℕ, String, Bool, true, false, Option, none, some, List, [], ◌∷◌, ◌++◌, Dict, insert, ltb, str_eq,
  if◌then◌else◌,
}

-- the context of the message that is built
pub record EmailMessage : Type 0 where
  pub to : String
  pub subject : String
  pub otp : String
  pub link : Option String
  pub description : String

pub record Mail : Type 0 where
  pub cache : Dict String
  pub sent : List EmailMessage

pub data SignupStatus : Type 0 where
  existed verification_sent : SignupStatus

-- `build_signup_otp_key`
abbrev pub build_signup_otp_key : String → String
build_signup_otp_key email = "iam_signup_otp:" <> email

-- `text or default`
abbrev pub or_text : Option String → String → String
or_text none d = d
or_text (some t) d = if str_eq t "" then d else t

-- `f'{otp}'`
abbrev pub formatted : Option String → String
formatted none = "None"
formatted (some t) = t

-- `generated` is what `generate_otp` gives
pub send_otp_to_email :
    String → String → String → Option String → Option String → Option String → Mail → Mail
send_otp_to_email generated email subject otp link description m =
    let message : EmailMessage = record {
      to = email;
      subject = subject;
      otp = or_text otp generated;
      link = link;
      description = or_text description "Use the following OTP to verify your email address.";
    } in
    record {
      cache = insert (build_signup_otp_key email) (formatted otp <> ":" <> email) m.cache;
      sent = m.sent ++ message ∷ [];
    }

-- `count` is the number of users with the address
pub signup_01_onboarding_with_email : String → String → ℕ → String → Mail → SignupStatus × Mail
unfolding send_otp_to_email
signup_01_onboarding_with_email generated verify_url count email m =
    if ltb 0 count then (existed, m) else (
      verification_sent,
      send_otp_to_email generated email "Verify your new account" none
          (some (verify_url <> "?email=" <> email)) none m,
    )
