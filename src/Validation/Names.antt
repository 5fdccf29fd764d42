-- ===== src/Validation/Names.antt =====
-- Names of people and users, slugs and phone numbers.
pub mod Slugs
pub mod Usernames
use taas_server_py.Prelude.{String, Bool, false, not, ◌&&◌, ◌||◌, List, [], ◌∷◌, ltb, ◌==◌, length}
use taas_server_py.Exec.{Result}
use taas_server_py.Validation.{
  Text, is_alnum, slug_char, username_char, is_in, starts_with, ends_with, matches_class, has_run,
  Unicode, checked,
}

-- `RESERVED_USERNAMES`
unfoldable pub reserved_usernames : List String
reserved_usernames =
    "admin" ∷ "root" ∷ "api" ∷ "www" ∷ "mail" ∷ "ftp" ∷ "support" ∷ "help" ∷ "security" ∷ "privacy"
    ∷ "terms" ∷ "about" ∷ "contact" ∷ "blog" ∷ "news" ∷ "app" ∷ "application" ∷ "system" ∷ "test"
    ∷ "user" ∷ "guest" ∷ "demo" ∷ "null" ∷ "undefined" ∷ "none" ∷ []

username_rules : Text → List (Bool × String)
username_rules username =
    (ltb (length username) 3, "Username must be at least 3 characters")
    ∷ (ltb 30 (length username), "Username must not exceed 30 characters")
    ∷ (
      not (matches_class username_char username),
      "Username can only contain letters, numbers, hyphens, and underscores",
    )
    ∷ (not (starts_with is_alnum username), "Username must start with a letter or number")
    ∷ (is_in username reserved_usernames, "Username is reserved and cannot be used")
    ∷ (has_run 3 username, "Username contains too many repeated characters")
    ∷ []

unfoldable pub validate_username : Unicode → Text → Result Text
unfolding username_rules
validate_username u v =
    let username = u.lower (u.strip v) in checked (username_rules username) username

-- `'--' in slug`
double_hyphen : Text → Bool
double_hyphen [] = false
double_hyphen (c ∷ []) = false
double_hyphen (c ∷ d ∷ s) = (c == b'-' && d == b'-') || double_hyphen (d ∷ s)

slug_rules : Text → List (Bool × String)
unfolding double_hyphen
slug_rules slug =
    (ltb (length slug) 1, "Slug cannot be empty")
    ∷ (ltb 100 (length slug), "Slug must not exceed 100 characters")
    ∷ (
      not (matches_class slug_char slug),
      "Slug can only contain lowercase letters, numbers, and hyphens",
    )
    ∷ (
      starts_with (λ c. c == b'-') slug || ends_with (λ c. c == b'-') slug,
      "Slug cannot start or end with a hyphen",
    )
    ∷ (double_hyphen slug, "Slug cannot contain consecutive hyphens")
    ∷ []

unfoldable pub validate_slug : Unicode → Text → Result Text
unfolding slug_rules
validate_slug u v = let slug = u.lower (u.strip v) in checked (slug_rules slug) slug
