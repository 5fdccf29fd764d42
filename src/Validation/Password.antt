-- ===== src/Validation/Password.antt =====
-- The rules for passwords, and the analysis of their strength.
pub mod Ratings
use taas_server_py.Prelude.{
  ℕ, ◌+◌, String, Bool, false, not, ◌&&◌, ◌||◌, List, [], ◌∷◌, ◌++◌, map, ltb, leb, ◌==◌,
  if◌then◌else◌, length,
}
use taas_server_py.Exec.{validation_error, Result, ok, err}
use taas_server_py.Validation.{
  Text, codes, is_upper, is_lower, any, is_in, has_prefix, to_end, repeats, Unicode, checked,
}

-- `[!@#$%^&*(),.?":{}|<>_+=\-\[\]\\\/~`]`
special_chars : Text
special_chars = b'"' ∷ codes "!@#$%^&*(),.?:{}|<>_+=-[]\\/~`"

unfoldable pub is_special : ℕ → Bool
unfolding special_chars
is_special c = any (λ d. d == c) special_chars

-- `COMMON_PASSWORDS`
unfoldable pub common_passwords : List String
common_passwords =
    "password" ∷ "password123" ∷ "123456789" ∷ "qwertyuiop" ∷ "administrator" ∷ "welcome123"
    ∷ "password1234" ∷ "letmein123" ∷ "admin123456" ∷ "password12345" ∷ []

-- `COMMON_PASSWORDS_HASHES`
pub common_passwords_hashes : List String
common_passwords_hashes =
    "e3b0c44298fc1c149afbf4c8996fb92427ae41e4649b934ca495991b7852b855"
    ∷ "5e884898da28047151d0e56f8dc6292773603d0d6aabbdd62a11ef721d1542d8"
    ∷ "65e84be33532fb784c48129675f9eff3a682b27168c0ea744b2cf58ee02337c5"
    ∷ "8d969eef6ecad3c29a3a629280e686cf0c3f5d5a86aff3ca12020c923adc6c92"
    ∷ "15e2b0d3c33891ebb0f1ef609ec419420c20e320ce94c65fbc8c3312448eb225"
    ∷ "a665a45920422f9d417e4867efdc4fb8a04a1f3fff1fa07e998e86f7f7a27ae3"
    ∷ "9af15b336e6a9619928537df30b2e6a2376569fcf9d7e773eccede65606529a0"
    ∷ "0b14d501a594442a01c6859541bcb3e8164d183d32937b851835442f69d5c94e"
    ∷ "e606e38b0d8c19b24cf0ee3808183162ea7cd63ff7912dbb22b5e803286b4446"
    ∷ "c775e7b757ede630cd0aa1113bd102661ab38829ca52a6422ab782862f268646" ∷ []

-- `(?i)^(…)` on a text in lower case: the long s also stands for s
abbrev folded : ℕ → ℕ
folded c = if c == 383 then b's' else if is_upper c then c + 32 else c

starts_with_any : List String → Text → Bool
unfolding has_prefix
starts_with_any [] s = false
starts_with_any (t ∷ ts) s = has_prefix (codes t) (map folded s) || starts_with_any ts s

-- `^(.)\1{11,}$`
simple_repeated : Text → Bool
unfolding to_end repeats
simple_repeated [] = false
simple_repeated (c ∷ s) = not (c == b'\n') && repeats 11 c s && to_end (λ d. d == c) s

-- `_is_common_password`
unfoldable pub is_common_password : Unicode → Text → Bool
unfolding common_passwords starts_with_any simple_repeated is_in
is_common_password u password =
    is_in (u.lower password) common_passwords
    || simple_repeated password
    || starts_with_any
        ("012" ∷ "123" ∷ "234" ∷ "345" ∷ "456" ∷ "567" ∷ "678" ∷ "789" ∷ "890" ∷ "abc" ∷ "bcd"
          ∷ "cde" ∷ [])
        (u.lower password)
    || starts_with_any ("qwe" ∷ "asd" ∷ "zxc" ∷ []) (u.lower password)

-- `analysis['requirements']`
pub record Requirements : Type 0 where
  pub length_met : Bool
  pub uppercase : Bool
  pub lowercase : Bool
  pub digits : Bool
  pub special_chars_met : Bool
  pub not_common : Bool

pub data Strength : Type 0 where
  weak medium strong : Strength

pub record Analysis : Type 0 where
  pub score : ℕ
  pub strength : Strength
  pub requirements : Requirements
  pub feedback : List String

pub requirements_of : Unicode → Text → Requirements
requirements_of u password = record {
  length_met = leb 8 (length password);
  uppercase = any is_upper password;
  lowercase = any is_lower password;
  digits = any u.is_decimal password;
  special_chars_met = any is_special password;
  not_common = not (is_common_password u password);
}

strength_rules : Unicode → Text → List (Bool × String)
strength_rules u password =
    (ltb (length password) 8, "Password must be at least 8 characters long")
    ∷ (ltb 128 (length password), "Password must not exceed 128 characters")
    ∷ (not (any is_upper password), "Password must contain at least one uppercase letter")
    ∷ (not (any is_lower password), "Password must contain at least one lowercase letter")
    ∷ (not (any u.is_decimal password), "Password must contain at least one digit")
    ∷ (not (any is_special password), "Password must contain at least one special character")
    ∷ (
      is_common_password u password,
      "Password is too common - please choose a more unique password",
    )
    ∷ []

-- `validate_password_strength`; a `PasswordValidationError` is a `ValidationError`
pub validate_password_strength : Unicode → Text → Result (Unit {0})
unfolding strength_rules
validate_password_strength u password = checked (strength_rules u password) tt

-- one branch of the analysis: points, or advice
abbrev point : Bool → ℕ → ℕ
point met n = if met then n else 0

abbrev advice : Bool → String → List String
advice met text = if met then [] else text ∷ []

abbrev pub strength_of : ℕ → Strength
strength_of score = if leb 7 score then strong else if leb 5 score then medium else weak

-- `get_password_strength`
pub get_password_strength : Unicode → Text → Analysis
unfolding requirements_of
get_password_strength u password =
    let r = requirements_of u password in
    let n = length password in
    let score =
      point r.length_met 2
      + point r.uppercase 1
      + point r.lowercase 1
      + point r.digits 1
      + point r.special_chars_met 1
      + point r.not_common 1
      + point (leb 16 n) 1
      + point (leb 20 n) 1 in
    record {
      score = score;
      strength = strength_of score;
      requirements = r;
      feedback =
          advice r.length_met "Use at least 12 characters"
          ++ (advice r.uppercase "Include uppercase letters"
              ++ (advice r.lowercase "Include lowercase letters"
                  ++ (advice r.digits "Include numbers"
                      ++ (advice r.special_chars_met "Include special characters (!@#$%^&*)"
                          ++ advice r.not_common "Avoid common passwords"))));
    }

-- `validate_password`, where `sha256` gives the hexadecimal digest
abbrev hash_checked : Bool → Text → Result (Unit {0}) → Result Text
hash_checked common password (ok _) =
    if common
    then err (validation_error "Password is too common, please choose a different one")
    else ok password
hash_checked common password (err e) = err e

pub validate_password : Unicode → (Text → Text) → Text → Result Text
unfolding common_passwords_hashes is_in
validate_password u sha256 password =
    hash_checked (is_in (sha256 password) common_passwords_hashes) password
      (validate_password_strength u password)
