-- ===== src/LogThrottle/Groups.antt =====
-- What one group of records sees of the filter.
use taas_server_py.Prelude.{
  ℕ, ◌+◌, ◌&&◌, Bool, true, false, Option, none, some, List, [], ◌∷◌, ◌≡◌, refl, arith, str_eq_iff,
  if◌then◌else◌,
}
use taas_server_py.LogThrottle.{
  LogRecord, Key, GroupState, ThrottledLogFilter, key_eq, key_of, assign, filter_group, filter,
}

pub key_eq_sound : (a b : Key) → key_eq a b ≡ true → a ≡ b
key_eq_sound a b h =
    let name : a.name ≡ b.name = ground (arith, str_eq_iff a.name b.name, h) in
    let level : a.levelno ≡ b.levelno = ground (arith, h) in
    let msg : a.msg ≡ b.msg = ground (arith, str_eq_iff a.msg b.msg, h) in cc

-- the records of a group among the outputs: that were emitted, that were dropped
abbrev pub is_emitted : Key → Bool × LogRecord → Bool
is_emitted k (emits, r) = emits && key_eq (key_of r) k

abbrev pub is_dropped : Key → Bool × LogRecord → Bool
is_dropped k (true, r) = false
is_dropped k (false, r) = key_eq (key_of r) k

-- the number of suppressed records that a record's note gives
abbrev pub noted : Option (ℕ × ℕ) → ℕ
noted none = 0
noted (some (n, interval)) = n

abbrev pub reported : Key → List (Bool × LogRecord) → ℕ
reported k [] = 0
reported k ((emits, r) ∷ rest) =
    (if emits && key_eq (key_of r) k then noted r.note else 0) + reported k rest

abbrev pub pending_of : Option GroupState → ℕ
pending_of none = 0
pending_of (some g) = g.suppressed

-- the records dropped in the current window of the group, which no note has given yet
abbrev pub pending : Key → ThrottledLogFilter → ℕ
pending k f = pending_of (f.state k)

pub filter_group-key :
    (f : ThrottledLogFilter) (now : ℕ) (r : LogRecord) (group : Option GroupState)
    → key_of (filter_group f now r group).1 ≡ key_of r
filter_group-key f now r none = refl
filter_group-key f now r (some g) = ground arith

-- a record of another group leaves the group alone
pub filter_other :
    (k : Key) (f : ThrottledLogFilter) (now : ℕ) (r : LogRecord)
    → key_eq (key_of r) k ≡ false
    → (filter f now r).2.state k ≡ f.state k
unfolding filter
filter_other k f now r h = rw h refl

pub filter_same :
    (k : Key) (f : ThrottledLogFilter) (now : ℕ) (r : LogRecord)
    → key_eq (key_of r) k ≡ true
    → filter f now r ≡ (
        let (emits, r', group) = filter_group f now r (f.state k) in
        (emits, r', record f { state = assign (key_of r) group f.state }))
unfolding filter
filter_same k f now r h = rw (key_eq_sound (key_of r) k h) refl

pub filter-key :
    (f : ThrottledLogFilter) (now : ℕ) (r : LogRecord) → key_of (filter f now r).1 ≡ key_of r
unfolding filter
filter-key f now r = filter_group-key f now r (f.state (key_of r))
