-- ===== src/LogThrottle/Counts.antt =====
-- No dropped record is lost from the account that the notes give.
use taas_server_py.Prelude.{
  ℕ, ◌+◌, Bool, true, false, Option, none, some, List, [], ◌∷◌, ◌≡◌, ◌∙◌, refl, arith, count, All,
  if◌then◌else◌, Bool-cases, inl, inr, ap,
}
use taas_server_py.LogThrottle.{
  LogRecord, Key, GroupState, ThrottledLogFilter, key_eq, key_of, filter_group, filter, filter_all,
}
use taas_server_py.LogThrottle.Groups.{
  filter_group-key, filter-key, filter_other, filter_same, is_dropped, reported, pending, noted,
  pending_of,
}

filter_group-balanced :
    (f : ThrottledLogFilter) (now : ℕ) (r : LogRecord) (group : Option GroupState)
    → r.note ≡ none
    → let (emits, r', group') = filter_group f now r group in
      (if emits then 0 else 1) + pending_of group
      ≡ (if emits then noted r'.note else 0) + group'.suppressed
filter_group-balanced f now r none h = rw h refl
filter_group-balanced f now r (some g) h = ground (arith, h, ap noted h)

account_same :
    (k : Key) (emits : Bool) (r : LogRecord) (before after : ℕ)
    → key_eq (key_of r) k ≡ true
    → (if emits then 0 else 1) + before ≡ (if emits then noted r.note else 0) + after
    → count (is_dropped k) ((emits, r) ∷ []) + before ≡ reported k ((emits, r) ∷ []) + after
account_same k true r before after h e = rw h (omega (arith, e))
account_same k false r before after h e = rw h (omega (arith, e))

account_other :
    (k : Key) (emits : Bool) (r : LogRecord) (before : ℕ)
    → key_eq (key_of r) k ≡ false
    → count (is_dropped k) ((emits, r) ∷ []) + before ≡ reported k ((emits, r) ∷ []) + before
account_other k true r before h = rw h refl
account_other k false r before h = rw h refl

filter-balanced :
    (k : Key) (f : ThrottledLogFilter) (now : ℕ) (r : LogRecord)
    → r.note ≡ none
    → let (emits, r', f') = filter f now r in
      count (is_dropped k) ((emits, r') ∷ []) + pending k f
      ≡ reported k ((emits, r') ∷ []) + pending k f'
filter-balanced k f now r h = elim (Bool-cases (key_eq (key_of r) k)) [
  | inl same ↦
      rw (filter_same k f now r same, same)
        (account_same k (filter_group f now r (f.state k)).0 (filter_group f now r (f.state k)).1 _
          _ (ap (λ x. key_eq x k) (filter_group-key f now r (f.state k)) ∙ same)
          (filter_group-balanced f now r (f.state k) h))
  | inr other ↦ rw (filter_other k f now r other) (
      account_other k (filter f now r).0 (filter f now r).1 _
        (ap (λ x. key_eq x k) (filter-key f now r) ∙ other))
]

-- Of each group, over any sequence of records that carry no note yet: the records dropped, with
-- those that were dropped in the current window before, are the records that the notes report and
-- those dropped in the current window after.
pub filter_all-balanced :
    (k : Key) (f : ThrottledLogFilter) (events : List (ℕ × LogRecord))
    → All (λ e. e.1.note ≡ none) events
    → let (outputs, f') = filter_all f events in
      count (is_dropped k) outputs + pending k f ≡ reported k outputs + pending k f'
unfolding filter_all
filter_all-balanced k f [] h = refl
filter_all-balanced k f ((now, r) ∷ rest) (h, hs) =
    let (emits, r', f') = filter f now r in
    let first = filter-balanced k f now r h in
    let later = filter_all-balanced k f' rest hs in omega (arith, first, later)
