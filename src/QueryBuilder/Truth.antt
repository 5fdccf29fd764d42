-- ===== src/QueryBuilder/Truth.antt =====
-- SQL's truth values, and the rows that a statement selects.
use taas_server_py.Prelude.{Bool, true, false, ◌&&◌, ◌||◌, List, [], ◌∷◌, ◌≡◌, refl}
use taas_server_py.QueryBuilder.{Criterion, Clause, and_of, or_of, Where, single, every, Select}

pub data Truth : Type 0 where
  yes no unknown : Truth

abbrev pub is_yes : Truth → Bool
is_yes Truth.yes = true
is_yes _ = false

-- AND and OR
abbrev both : Truth → Truth → Truth
both Truth.no b = Truth.no
both Truth.yes b = b
both unknown Truth.no = Truth.no
both unknown _ = unknown

abbrev either : Truth → Truth → Truth
either Truth.yes b = Truth.yes
either Truth.no b = b
either unknown Truth.yes = Truth.yes
either unknown _ = unknown

pub is_yes-both : (a b : Truth) → is_yes (both a b) ≡ (is_yes a && is_yes b)
is_yes-both Truth.yes b = refl
is_yes-both Truth.no b = refl
is_yes-both unknown Truth.yes = refl
is_yes-both unknown Truth.no = refl
is_yes-both unknown unknown = refl

pub is_yes-either : (a b : Truth) → is_yes (either a b) ≡ (is_yes a || is_yes b)
is_yes-either Truth.yes b = refl
is_yes-either Truth.no b = refl
is_yes-either unknown Truth.yes = refl
is_yes-either unknown Truth.no = refl
is_yes-either unknown unknown = refl

-- `holds` is what one row makes of each criterion
module _ {V : Type 0} (holds : Criterion V → Truth) where
  unfoldable pub and_all : List (Criterion V) → Truth
  and_all [] = Truth.yes
  and_all (c ∷ cs) = both (holds c) (and_all cs)

  unfoldable pub or_all : List (Criterion V) → Truth
  or_all [] = Truth.no
  or_all (c ∷ cs) = either (holds c) (or_all cs)

  unfoldable pub clause_truth : Clause V → Truth
  unfolding and_all or_all
  clause_truth (and_of cs) = and_all cs
  clause_truth (or_of cs) = or_all cs

  unfoldable pub and_clauses : List (Clause V) → Truth
  unfolding clause_truth
  and_clauses [] = Truth.yes
  and_clauses (c ∷ cs) = both (clause_truth c) (and_clauses cs)

  unfoldable pub where_truth : Where V → Truth
  unfolding clause_truth and_clauses
  where_truth (single c) = clause_truth c
  where_truth (every cs) = and_clauses cs

  -- a statement selects the row
  unfoldable pub selects : Select V → Bool
  unfolding where_truth
  selects [] = true
  selects (w ∷ ws) = is_yes (where_truth w) && selects ws

  unfoldable pub all_yes : List (Criterion V) → Bool
  all_yes [] = true
  all_yes (c ∷ cs) = is_yes (holds c) && all_yes cs

  unfoldable pub any_yes : List (Criterion V) → Bool
  any_yes [] = false
  any_yes (c ∷ cs) = is_yes (holds c) || any_yes cs

  -- one of the conditions, if there are any
  unfoldable pub any_or_none : List (Criterion V) → Bool
  unfolding any_yes
  any_or_none [] = true
  any_or_none (c ∷ cs) = any_yes (c ∷ cs)
