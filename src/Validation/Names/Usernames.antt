-- ===== src/Validation/Names/Usernames.antt =====
-- What the rules for usernames come to.
use taas_server_py.Prelude.{
  ℕ, ◌≤◌, Bool, true, false, [], ◌∷◌, ◌++◌, ◌==◌, length, ◌≡◌, ◌≢◌, arith, All, subst, ap,
}
use taas_server_py.Exec.{ok}
use taas_server_py.Validation.{
  Text, is_alnum, username_char, all, starts_with, ends_with, is_in, has_run, repeats, Unicode,
  UnicodeLaws,
}
use taas_server_py.Validation.Rules.{checked_ok, checked_pass, matches_class-all}
use taas_server_py.Validation.Names.{reserved_usernames, username_rules, validate_username}

-- four equal characters in a row are found wherever they stand
has_run-four :
    (a b : Text) (c : ℕ) → (c == b'\n') ≡ false → has_run 3 (a ++ c ∷ c ∷ c ∷ c ∷ b) ≡ true
unfolding has_run repeats
has_run-four [] b c h = ground (arith, h)
has_run-four (d ∷ a) b c h = ground (arith, has_run-four a b c h)

all-middle : (p : ℕ → Bool) (a b : Text) (c : ℕ) → all p (a ++ c ∷ b) ≡ true → p c ≡ true
unfolding all
all-middle p [] b c h = ground (arith, h)
all-middle p (d ∷ a) b c h = ground (arith, h, all-middle p a b c)

-- a username: of 3 to 30 lower-case letters, digits, hyphens and underscores, with a letter or a digit
-- first, not reserved, and with no character four times in a row
pub record Username (s : Text) : Type 0 where
  pub long_enough : 3 ≤ length s
  pub short_enough : length s ≤ 30
  pub chars : all username_char s ≡ true
  pub start : starts_with is_alnum s ≡ true
  pub free : is_in s reserved_usernames ≡ false
  pub no_four : (a b : Text) (c : ℕ) → s ≢ a ++ c ∷ c ∷ c ∷ c ∷ b

rules-Username :
    (s : Text)
    → ends_with (λ c. c == b'\n') s ≡ false
    → All (λ r. r.0 ≡ false) (username_rules s)
    → Username s
unfolding username_rules
rules-Username s no_feed (long, (short, (matched, (start, (free, (run, _)))))) =
    let chars = matches_class-all username_char s no_feed (ground (arith, matched)) in
    record {
      long_enough = ground (arith, long);
      short_enough = ground (arith, short);
      chars = chars;
      start = ground (arith, start);
      free = free;
      no_four = λ a b c e.
          let plain =
            all-middle username_char a (c ∷ c ∷ c ∷ b) c
              (subst (λ t. all username_char t ≡ true) e chars) in
          cc (has_run-four a b c (ground (arith, plain)), run, ap (has_run 3) e);
    }

module _ (u : Unicode) (laws : UnicodeLaws u) where
  -- Whatever text is accepted, its result is a username, the stripped text in lower case, and would be
  -- accepted and left as it is.
  pub validate_username-Username :
      (v s : Text)
      → validate_username u v ≡ ok s
      → Username s × (u.lower (u.strip v) ≡ s) × (validate_username u s ≡ ok s)
  unfolding validate_username
  validate_username-Username v s h =
      let (same, passes) = checked_ok _ _ s h in
      let passes' = subst (λ t. All (λ r. r.0 ≡ false) (username_rules t)) same passes in
      let name =
        rules-Username s (subst (λ t. ends_with (λ c. c == b'\n') t ≡ false) same (laws.stripped v))
          passes' in
      (
        name,
        same,
        rw (laws.strip_plain s name.chars, laws.lower_plain s name.chars)
            (checked_pass (username_rules s) s passes'),
      )
