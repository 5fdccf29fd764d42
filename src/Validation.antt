-- ===== src/Validation.antt =====
-- libs/foundation/src/foundation/utils/validation.py: the validators of fields. A text is the list of
-- its code points. What Python's Unicode tables decide is a parameter; the regular expressions are
-- written out as tests on code points.
pub mod Password
pub mod Names
pub mod Rules
use Prim.Native.Char.{code}
use taas_server_py.Prelude.{
  ℕ, zero, suc, ◌+◌, ◌<◌, ◌≤◌, String, Bool, true, false, not, ◌&&◌, ◌||◌, List, [], ◌∷◌, ◌++◌, map,
  ltb, leb, ◌==◌, if◌then◌else◌, ◌≡◌, length,
}
use taas_server_py.Exec.{Exn, validation_error, Result, ok, err}

abbrev pub Text : Type 0
Text = List ℕ

-- the code points of a literal
abbrev pub codes : String → Text
codes String.[] = []
codes (String.◌∷◌ c s) = code c ∷ codes s

abbrev pub is_upper : ℕ → Bool
is_upper c = leb b'A' c && leb c b'Z'

abbrev pub is_lower : ℕ → Bool
is_lower c = leb b'a' c && leb c b'z'

abbrev pub is_digit : ℕ → Bool
is_digit c = leb b'0' c && leb c b'9'

abbrev pub is_alnum : ℕ → Bool
is_alnum c = is_lower c || is_digit c

-- `[a-z0-9-]` and `[a-z0-9_-]`
abbrev pub slug_char : ℕ → Bool
slug_char c = is_alnum c || c == b'-'

abbrev pub username_char : ℕ → Bool
username_char c = slug_char c || c == b'_'

unfoldable pub any : (ℕ → Bool) → Text → Bool
any p [] = false
any p (c ∷ s) = p c || any p s

unfoldable pub all : (ℕ → Bool) → Text → Bool
all p [] = true
all p (c ∷ s) = p c && all p s

unfoldable pub ends_with : (ℕ → Bool) → Text → Bool
ends_with p [] = false
ends_with p (c ∷ []) = p c
ends_with p (c ∷ d ∷ s) = ends_with p (d ∷ s)

abbrev pub starts_with : (ℕ → Bool) → Text → Bool
starts_with p [] = false
starts_with p (c ∷ s) = p c

unfoldable pub text_eq : Text → Text → Bool
text_eq [] [] = true
text_eq (c ∷ s) (d ∷ t) = c == d && text_eq s t
text_eq _ _ = false

unfoldable pub is_in : Text → List String → Bool
is_in s [] = false
is_in s (t ∷ ts) = text_eq s (codes t) || is_in s ts

-- `s.startswith(p)`
unfoldable pub has_prefix : Text → Text → Bool
has_prefix [] s = true
has_prefix (c ∷ p) [] = false
has_prefix (c ∷ p) (d ∷ s) = c == d && has_prefix p s

-- `^[…]*$`, where `$` also stands before a line feed that ends the text
unfoldable pub to_end : (ℕ → Bool) → Text → Bool
to_end p [] = true
to_end p (c ∷ s) = (c == b'\n' && ltb (length s) 1) || (p c && to_end p s)

-- `^[…]+$`
unfoldable pub matches_class : (ℕ → Bool) → Text → Bool
unfolding to_end
matches_class p [] = false
matches_class p (c ∷ s) = p c && to_end p s

unfoldable pub repeats : ℕ → ℕ → Text → Bool
repeats zero c s = true
repeats (suc k) c [] = false
repeats (suc k) c (d ∷ s) = d == c && repeats k c s

-- `(.)\1{k,}` somewhere, where `.` is no line feed
unfoldable pub has_run : ℕ → Text → Bool
unfolding repeats
has_run k [] = false
has_run k (c ∷ s) = (not (c == b'\n') && repeats k c s) || has_run k s

-- what Python knows of Unicode: `str.strip`, `str.lower`, and `\d` of regular expressions
pub record Unicode : Type 0 where
  pub strip : Text → Text
  pub lower : Text → Text
  pub is_decimal : ℕ → Bool

-- ASCII texts of lower-case letters, digits, hyphens and underscores stay as they are, and no stripped
-- text ends in a line feed, also in lower case
pub record UnicodeLaws (u : Unicode) : Type 0 where
  pub strip_plain : (s : Text) → all username_char s ≡ true → u.strip s ≡ s
  pub lower_plain : (s : Text) → all username_char s ≡ true → u.lower s ≡ s
  pub stripped : (s : Text) → ends_with (λ c. c == b'\n') (u.lower (u.strip s)) ≡ false

-- a sequence of `if …: raise ValidationError(msg)`
unfoldable pub checked {ℓ} : {A : Type ℓ} → List (Bool × String) → A → Result A
checked [] value = ok value
checked ((bad, msg) ∷ rules) value = if bad then err (validation_error msg) else checked rules value
