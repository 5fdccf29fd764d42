-- ===== src/LogThrottle/Rate.antt =====
-- How many records of a group the filter lets through.
use taas_server_py.LogThrottle.Groups.{is_emitted, filter-key, filter_same, filter_other}
use taas_server_py.Prelude.{
  count, sym, ◌⊎◌, subst, leb, ℕ, ◌+◌, ◌*◌, ◌≤◌, Bool, some, List, [], ◌∷◌, ◌≡◌, arith,
  if◌then◌else◌, Bool-cases, inl, inr, true, false, subst₂, ap, ◌∙◌, ◌&&◌, refl, max_of, none,
}
use native.Mathlib.Nat.{add-mul, zero-add}
use taas_server_py.LogThrottle.{
  key_of, key_eq, filter_all, filter, Key, LogRecord, GroupState, ThrottledLogFilter, filter_group,
  make_filter, new_group,
}

-- times that do not decrease, from `lo` to `hi`
abbrev pub Ordered : ℕ → ℕ → List (ℕ × LogRecord) → Type 0
Ordered lo hi [] = lo ≤ hi
Ordered lo hi ((now, r) ∷ rest) = (lo ≤ now) × Ordered now hi rest

-- `n` intervals have passed since `start`, and the records are the bursts of as many windows and of
-- the first at most
pub record Bounded (burst interval start hi emitted : ℕ) : Type 0 where
  pub windows : ℕ
  pub few : emitted ≤ (windows + 1) * burst
  pub apart : start + windows * interval ≤ hi

abbrev one_if : Bool → ℕ
one_if b = if b then 1 else 0

-- what one record does to its group
record Steps (burst interval now : ℕ) (g : GroupState) (emits : Bool) (g' : GroupState)
    : Type 0 where
  pub within : g'.emitted ≤ burst
  pub begun : g'.window_start ≤ now
  pub counted :
      ((g'.window_start ≡ g.window_start) × (g'.emitted ≡ g.emitted + one_if emits))
      ⊎ ((g.window_start + interval ≤ now) × (g'.window_start ≡ now) × (g'.emitted ≡ one_if emits))

filter_group-Steps :
    (f : ThrottledLogFilter) (now : ℕ) (r : LogRecord) (g : GroupState)
    → 1 ≤ f.burst
    → g.emitted ≤ f.burst
    → g.window_start ≤ now
    → let (emits, r', g') = filter_group f now r (some g) in
      Steps f.burst f.interval_seconds now g emits g'
filter_group-Steps f now r g pos within begun = record {
  within = ground arith;
  begun = ground arith;
  counted = elim (Bool-cases (leb (g.window_start + f.interval_seconds) now)) [
    | inl over ↦ inr (ground arith, ground arith, ground arith)
    | inr running ↦ inl (ground arith, ground arith)
  ];
}

step_Bounded :
    (burst interval now hi E : ℕ) (g g' : GroupState) (emits : Bool)
    → g.emitted ≤ burst
    → Steps burst interval now g emits g'
    → Bounded burst interval g'.window_start hi (g'.emitted + E)
    → Bounded burst interval g.window_start hi (g.emitted + (one_if emits + E))
step_Bounded burst interval now hi E g g' emits within step b = elim step.counted [
  | inl (same, more) ↦ record {
    windows = b.windows;
    few = subst (λ n. n ≤ (b.windows + 1) * burst) (omega (arith, more)) b.few;
    apart = rw (sym same) b.apart;
  }
  | inr (over, start, more) ↦ record {
    windows = b.windows + 1;
    few = rw (add-mul (b.windows + 1) 1 burst) (omega (arith, b.few, more, within));
    apart = rw (add-mul b.windows 1 interval) (omega (arith, b.apart, over, start));
  }
]

abbrev pub emitted : Key → ThrottledLogFilter → List (ℕ × LogRecord) → ℕ
emitted k f events = count (is_emitted k) (filter_all f events).0

-- the group of a record is then in the state that the record left it in
module _ (k : Key) (burst interval hi : ℕ) (pos : 1 ≤ burst) where
  record Has (f : ThrottledLogFilter) : Type 0 where
    pub same_burst : f.burst ≡ burst
    pub same_interval : f.interval_seconds ≡ interval

  filter-Has : (f : ThrottledLogFilter) (now : ℕ) (r : LogRecord) → Has f → Has (filter f now r).2
  unfolding filter
  filter-Has f now r h = record { same_burst = h.same_burst; same_interval = h.same_interval }

  one_other :
      (f : ThrottledLogFilter) (now : ℕ) (r : LogRecord)
      → key_eq (key_of r) k ≡ false
      → is_emitted k ((filter f now r).0, (filter f now r).1) ≡ false
  one_other f now r h =
      rw (ap (λ x. key_eq x k) (filter-key f now r), h) (and_false (filter f now r).0)
    where
      and_false : (b : Bool) → (b && false) ≡ false
      and_false b = ground arith

  one_same :
      (f : ThrottledLogFilter) (now : ℕ) (r : LogRecord) (g : GroupState)
      → key_eq (key_of r) k ≡ true
      → f.state k ≡ some g
      → is_emitted k ((filter f now r).0, (filter f now r).1) ≡ (filter_group f now r (some g)).0
  one_same f now r g h e =
      rw (ap (λ x. key_eq x k) (filter-key f now r), h, filter_same k f now r h, e)
        (and_true (filter_group f now r (some g)).0)
    where
      and_true : (b : Bool) → (b && true) ≡ b
      and_true b = ground arith

  group_same :
      (f : ThrottledLogFilter) (now : ℕ) (r : LogRecord) (g : GroupState)
      → key_eq (key_of r) k ≡ true
      → f.state k ≡ some g
      → (filter f now r).2.state k ≡ some (filter_group f now r (some g)).2
  group_same f now r g h e = rw (filter_same k f now r h, h, e) refl

  later :
      (f : ThrottledLogFilter) (g : GroupState) (lo : ℕ) (events : List (ℕ × LogRecord))
      → Has f
      → f.state k ≡ some g
      → g.emitted ≤ burst
      → g.window_start ≤ lo
      → Ordered lo hi events
      → Bounded burst interval g.window_start hi (g.emitted + emitted k f events)
  unfolding filter_all
  later f g lo [] has e within begun ordered = record {
    windows = 0;
    few = omega arith;
    apart = omega arith;
  }
  later f g lo ((now, r) ∷ rest) has e within begun (at, ordered) =
      elim (Bool-cases (key_eq (key_of r) k)) [
        | inl same ↦
            let step : Steps burst interval now g (filter_group f now r (some g)).0
                (filter_group f now r (some g)).2 =
              subst₂
                (λ b i.
                  Steps b i now g (filter_group f now r (some g)).0
                    (filter_group f now r (some g)).2)
                has.same_burst has.same_interval
                (filter_group-Steps f now r g (omega arith) (omega arith) (omega arith)) in
            rw (one_same f now r g same e) (
              step_Bounded burst interval now hi _ g (filter_group f now r (some g)).2 _ within step
                (later (filter f now r).2 (filter_group f now r (some g)).2 now rest
                  (filter-Has f now r has) (group_same f now r g same e) step.within step.begun
                  ordered))
        | inr other ↦
            rw (one_other f now r other, zero-add (emitted k (filter f now r).2 rest))
              (later (filter f now r).2 g now rest (filter-Has f now r has)
                (filter_other k f now r other ∙ e) within (omega arith) ordered)
      ]

  -- the first record of a group opens its first window
  open_same :
      (f : ThrottledLogFilter) (now : ℕ) (r : LogRecord)
      → key_eq (key_of r) k ≡ true
      → f.state k ≡ none
      → (is_emitted k ((filter f now r).0, (filter f now r).1) ≡ true)
        × ((filter f now r).2.state k ≡ some (new_group now))
  open_same f now r h e = rw (filter_same k f now r h, h, e) (h, refl)

  sooner :
      (E lo now : ℕ) → lo ≤ now → Bounded burst interval now hi E → Bounded burst interval lo hi E
  sooner E lo now at b = record {
    windows = b.windows;
    few = b.few;
    apart = omega (arith, b.apart, at);
  }

  opened :
      (f : ThrottledLogFilter) (lo : ℕ) (events : List (ℕ × LogRecord))
      → Has f
      → f.state k ≡ none
      → Ordered lo hi events
      → Bounded burst interval lo hi (emitted k f events)
  unfolding filter_all
  opened f lo [] has e ordered = record { windows = 0; few = omega arith; apart = omega arith }
  opened f lo ((now, r) ∷ rest) has e (at, ordered) = elim (Bool-cases (key_eq (key_of r) k)) [
    | inl same ↦
        let (emits, group) = open_same f now r same e in
        rw emits (
          sooner _ lo now at (
            later (filter f now r).2 (new_group now) now rest (filter-Has f now r has) group pos
              (omega arith) ordered))
    | inr other ↦
        rw (one_other f now r other, zero-add (emitted k (filter f now r).2 rest))
          (sooner _ lo now at (
            opened (filter f now r).2 now rest (filter-Has f now r has)
              (filter_other k f now r other ∙ e) ordered))
  ]

-- Records whose times do not decrease and lie between `lo` and `hi`: of each group a new filter lets
-- through at most `windows + 1` bursts, where `windows` intervals fit between the two times.
pub filter_all-Bounded :
    (k : Key) (burst interval lo hi : ℕ) (events : List (ℕ × LogRecord))
    → Ordered lo hi events
    → Bounded (max_of 1 burst) interval lo hi (emitted k (make_filter burst interval) events)
unfolding make_filter
filter_all-Bounded k burst interval lo hi events ordered =
    opened k (max_of 1 burst) interval hi (ground arith) (make_filter burst interval) lo events
      (record { same_burst = refl; same_interval = refl }) refl ordered
