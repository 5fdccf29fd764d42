-- ===== src/Tests/Fields.antt =====
-- The validators of fields at concrete texts, with what Python knows of ASCII.
use taas_server_py.Prelude.{
  ℕ, ◌+◌, ◌≤◌, Bool, true, false, ◌&&◌, ◌||◌, [], ◌∷◌, map, leb, ◌==◌, if◌then◌else◌, length, ◌≡◌,
  refl, arith, ap, ◌∙◌,
}
use mathlib.Core.Logic.{◌↔◌}
use taas_server_py.Exec.{ok}
use taas_server_py.Validation.{
  Text, Unicode, UnicodeLaws, codes, is_upper, is_digit, username_char, all, ends_with, checked,
  matches_class,
}
use taas_server_py.Validation.Names.{validate_slug}
use taas_server_py.Validation.Names.Slugs.{Slug, validate_slug_iff}
use taas_server_py.Validation.Password.{get_password_strength, validate_password_strength}
use taas_server_py.Validation.Password.Ratings.{AllMet, accepted_iff}

is_space : ℕ → Bool
is_space c = c == b' ' || (leb 9 c && leb c 13)

lstrip : Text → Text
lstrip [] = []
lstrip (c ∷ s) = let rest = lstrip s in if is_space c then rest else c ∷ s

trim : Bool → ℕ → Text → Text
trim true c [] = []
trim _ c s = c ∷ s

rstrip : Text → Text
rstrip [] = []
rstrip (c ∷ s) = trim (is_space c) c (rstrip s)

abbrev to_lower : ℕ → ℕ
to_lower c = if is_upper c then c + 32 else c

ascii : Unicode
unfolding lstrip rstrip
ascii = record { strip = λ s. rstrip (lstrip s); lower = map to_lower; is_decimal = is_digit }

lstrip_plain : (s : Text) → all username_char s ≡ true → lstrip s ≡ s
unfolding lstrip all is_space
lstrip_plain [] h = refl
lstrip_plain (c ∷ s) h = ground (arith, h)

rstrip_plain : (s : Text) → all username_char s ≡ true → rstrip s ≡ s
unfolding rstrip all is_space trim
rstrip_plain [] h = refl
rstrip_plain (c ∷ s) h = ground (arith, h, rstrip_plain s)

lower_plain : (s : Text) → all username_char s ≡ true → map to_lower s ≡ s
unfolding all
lower_plain [] h = refl
lower_plain (c ∷ s) h = ground (arith, h, lower_plain s)

trim_end :
    (blank : Bool) (c : ℕ) (s : Text)
    → is_space c ≡ blank
    → ends_with (λ d. d == b'\n') (map to_lower s) ≡ false
    → ends_with (λ d. d == b'\n') (map to_lower (trim blank c s)) ≡ false
unfolding ends_with trim is_space
trim_end true c [] b h = refl
trim_end true c (d ∷ s) b h = h
trim_end false c [] b h = ground (arith, b)
trim_end false c (d ∷ s) b h = h

rstrip_end : (s : Text) → ends_with (λ c. c == b'\n') (map to_lower (rstrip s)) ≡ false
unfolding rstrip ends_with
rstrip_end [] = refl
rstrip_end (c ∷ s) = trim_end (is_space c) c (rstrip s) refl (rstrip_end s)

ascii-laws : UnicodeLaws ascii
unfolding ascii
ascii-laws = record {
  strip_plain = λ s h. ap rstrip (lstrip_plain s h) ∙ rstrip_plain s h;
  lower_plain = lower_plain;
  stripped = λ s. rstrip_end (lstrip s);
}

abbrev slug : Text
slug = codes "open-api-2"

validate_slug_iff_example :
    ((validate_slug ascii slug ≡ ok slug) ↔ (Slug slug × (length slug ≤ 100)))
    × ((validate_slug ascii (codes " Open-API-2 ") ≡ ok slug) ↔ (
        (ascii.lower (ascii.strip (codes " Open-API-2 ")) ≡ slug)
        × Slug slug
        × (length slug ≤ 100)))
validate_slug_iff_example = validate_slug_iff ascii ascii-laws (codes " Open-API-2 ") slug

slug_test : validate_slug ascii (codes " Open-API-2 ") ≡ ok slug
unfolding validate_slug ascii checked is_space trim matches_class ends_with
slug_test = refl

abbrev username : Text
username = codes "jo_3"

abbrev password : Text
password = codes "Tr0ub4dor&3"

accepted_iff_example :
    (validate_password_strength ascii password ≡ ok tt)
    ↔ (AllMet (get_password_strength ascii password).requirements × (length password ≤ 128))
accepted_iff_example = accepted_iff ascii password

abbrev lower_case : Text
lower_case = codes "correct-horse-battery-4"
