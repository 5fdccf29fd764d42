-- ===== src/Validation/Names/Slugs.antt =====
-- The grammar that the rules for slugs come to.
use taas_server_py.Prelude.{
  ℕ, ◌≤◌, ◌<◌, String, Bool, true, false, List, [], ◌∷◌, ◌==◌, length, ◌≡◌, refl, arith, inl, inr,
  Bool-cases, All, subst,
}
use mathlib.Core.Logic.{◌↔◌}
use taas_server_py.Exec.{ok}
use taas_server_py.Validation.{
  Text, is_alnum, slug_char, username_char, all, starts_with, ends_with, Unicode, UnicodeLaws,
}
use taas_server_py.Validation.Rules.{
  checked_ok, checked_pass, matches_class-all, all-matches_class, all_weaken,
}
use taas_server_py.Validation.Names.{slug_rules, double_hyphen, validate_slug}

-- letters and digits, with single hyphens between them
pub data Slug : Text → Type 0 where
  last : (c : ℕ) → is_alnum c ≡ true → Slug (c ∷ [])
  more : (c : ℕ) {s : Text} → is_alnum c ≡ true → Slug s → Slug (c ∷ s)
  hyphen : (c : ℕ) {s : Text} → is_alnum c ≡ true → Slug s → Slug (c ∷ b'-' ∷ s)

grammar_sound :
    (s : Text)
    → all slug_char s ≡ true
    → 0 < length s
    → starts_with (λ c. c == b'-') s ≡ false
    → ends_with (λ c. c == b'-') s ≡ false
    → double_hyphen s ≡ false
    → Slug s
unfolding all ends_with double_hyphen
grammar_sound [] chars some_char start end double = absurd (omega (arith, some_char))
grammar_sound (c ∷ []) chars some_char start end double = last c (ground (arith, chars, start))
grammar_sound (c ∷ d ∷ []) chars some_char start end double =
    more c (ground (arith, chars, start)) (last d (ground (arith, chars, end)))
grammar_sound (c ∷ d ∷ e ∷ s) chars some_char start end double = elim (Bool-cases (d == b'-')) [
  | inl dash ↦
      let is_dash : d ≡ b'-' = ground (arith, dash) in
      rw is_dash (
        hyphen c (ground (arith, chars, start)) (
          grammar_sound (e ∷ s) (ground (arith, chars)) (omega arith)
            (ground (arith, chars, dash, double)) end (ground (arith, chars, dash, double))))
  | inr other ↦ more c (ground (arith, chars, start)) (
      grammar_sound (d ∷ e ∷ s) (ground (arith, chars)) (omega arith) other end
        (ground (arith, other, double)))
]

-- what the rules ask of a slug
record Tested (s : Text) : Type 0 where
  pub chars : all slug_char s ≡ true
  pub some_char : 0 < length s
  pub start : starts_with (λ c. c == b'-') s ≡ false
  pub end : ends_with (λ c. c == b'-') s ≡ false
  pub single : double_hyphen s ≡ false

more-Tested : (c : ℕ) (s : Text) → is_alnum c ≡ true → Tested s → Tested (c ∷ s)
unfolding all ends_with double_hyphen
more-Tested c [] h t = absurd (omega (arith, t.some_char))
more-Tested c (d ∷ s) h t = record {
  chars = ground (arith, h, t.chars);
  some_char = omega arith;
  start = ground (arith, h);
  end = t.end;
  single = ground (arith, h, t.single);
}

hyphen-Tested : (c : ℕ) (s : Text) → is_alnum c ≡ true → Tested s → Tested (c ∷ b'-' ∷ s)
unfolding all ends_with double_hyphen
hyphen-Tested c [] h t = absurd (omega (arith, t.some_char))
hyphen-Tested c (d ∷ s) h t = record {
  chars = ground (arith, h, t.chars);
  some_char = omega arith;
  start = ground (arith, h);
  end = t.end;
  single = ground (arith, h, t.start, t.single);
}

Slug-Tested : {s : Text} → Slug s → Tested s
unfolding all ends_with double_hyphen
Slug-Tested (last c h) = record {
  chars = ground (arith, h);
  some_char = omega arith;
  start = ground (arith, h);
  end = ground (arith, h);
  single = refl;
}
Slug-Tested (more c {s} h r) = more-Tested c s h (Slug-Tested r)
Slug-Tested (hyphen c {s} h r) = hyphen-Tested c s h (Slug-Tested r)

Passes : List (Bool × String) → Type 0
Passes rules = All (λ r. r.0 ≡ false) rules

rules-Slug :
    (s : Text)
    → ends_with (λ c. c == b'\n') s ≡ false
    → Passes (slug_rules s)
    → Slug s × (length s ≤ 100)
unfolding Passes slug_rules
rules-Slug s no_feed (nonempty, (short, (matched, (ends, (single, _))))) = (
  grammar_sound s (matches_class-all slug_char s no_feed (ground (arith, matched)))
      (ground (arith, nonempty)) (ground (arith, ends)) (ground (arith, ends)) single,
  ground (arith, short),
)

Slug-rules : (s : Text) → Slug s → length s ≤ 100 → Passes (slug_rules s)
unfolding Passes slug_rules
Slug-rules s slug short =
    let t = Slug-Tested slug in
    (
      ground (arith, t.some_char),
      (
        ground (arith, short),
        (
          rw (all-matches_class slug_char s t.some_char t.chars) refl,
          (rw (t.start, t.end) refl, (t.single, tt)),
        ),
      ),
    )

module _ (u : Unicode) (laws : UnicodeLaws u) where
  validate_slug-Slug : (v s : Text) → validate_slug u v ≡ ok s → Slug s × (length s ≤ 100)
  unfolding validate_slug Passes
  validate_slug-Slug v s h =
      let (same, passes) = checked_ok _ _ s h in
      subst (λ t. Slug t × (length t ≤ 100)) same (rules-Slug _ (laws.stripped v) passes)

  unchanged-Slug : (s : Text) → Slug s → length s ≤ 100 → validate_slug u s ≡ ok s
  unfolding validate_slug Passes
  unchanged-Slug s slug short =
      let plain =
        all_weaken slug_char username_char s (λ c h. ground (arith, h)) (Slug-Tested slug).chars in
      rw (laws.strip_plain s plain, laws.lower_plain s plain)
        (checked_pass (slug_rules s) s (Slug-rules s slug short))

  -- A text is accepted and left as it is exactly if it is letters and digits with single hyphens between
  -- them, of at most 100 characters; and whatever text is accepted, its result is of that kind.
  pub validate_slug_iff :
      (v s : Text)
      → ((validate_slug u s ≡ ok s) ↔ (Slug s × (length s ≤ 100)))
        × ((validate_slug u v ≡ ok s) ↔ ((u.lower (u.strip v) ≡ s) × Slug s × (length s ≤ 100)))
  unfolding validate_slug Passes
  validate_slug_iff v s = (
    ((λ h. validate_slug-Slug s s h), (λ p. unchanged-Slug s p.0 p.1)),
    (
      (λ h. let (slug, short) = validate_slug-Slug v s h in ((checked_ok _ _ s h).0, slug, short)),
      (λ p.
          let (same, slug, short) = p in
          rw same (checked_pass (slug_rules s) s (Slug-rules s slug short))),
    ),
  )
