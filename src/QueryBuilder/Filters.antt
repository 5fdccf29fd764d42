-- ===== src/QueryBuilder/Filters.antt =====
-- Which rows the filters select.
use taas_server_py.Prelude.{
  String, Bool, true, false, ◌&&◌, ◌||◌, Option, List, [], ◌∷◌, ◌++◌, ◌≡◌, refl, sym, ap, ◌∙◌,
}
use taas_server_py.Exec.{ok_same, Result, ok, err}
use taas_server_py.QueryBuilder.{
  Value, Criterion, Clause, and_of, single, every, Select, Filters, conditions_of, where_all,
  where_clauses, and_clause, or_clause, join_clauses, clauses, group_clauses, build_filters,
  build_filters_advanced, with_clauses, with_conditions,
}
use taas_server_py.QueryBuilder.Truth.{
  Truth, is_yes, is_yes-both, is_yes-either, and_all, or_all, clause_truth, and_clauses,
  where_truth, selects, all_yes, any_yes, any_or_none,
}
use taas_server_py.QueryBuilder.Meaning.{
  meets_all, meets_any, conditions_of-meets_all, conditions_of-meets_any,
}

module _ {V : Type 0} (holds : Criterion V → Truth) where
  is_yes-and_all : (cs : List (Criterion V)) → is_yes (and_all holds cs) ≡ all_yes holds cs
  unfolding and_all all_yes
  is_yes-and_all [] = refl
  is_yes-and_all (c ∷ cs) =
      is_yes-both (holds c) (and_all holds cs) ∙ ap (λ b. is_yes (holds c) && b) (is_yes-and_all cs)

  is_yes-or_all : (cs : List (Criterion V)) → is_yes (or_all holds cs) ≡ any_yes holds cs
  unfolding or_all any_yes
  is_yes-or_all [] = refl
  is_yes-or_all (c ∷ cs) =
      is_yes-either (holds c) (or_all holds cs) ∙ ap (λ b. is_yes (holds c) || b) (is_yes-or_all cs)

  clauses_yes : List (Clause V) → Bool
  clauses_yes cs = is_yes (and_clauses holds cs)

  clauses_yes-append :
      (cs ds : List (Clause V)) → clauses_yes (cs ++ ds) ≡ (clauses_yes cs && clauses_yes ds)
  unfolding clauses_yes and_clauses
  clauses_yes-append [] ds = refl
  clauses_yes-append (c ∷ cs) ds =
      is_yes-both (clause_truth holds c) (and_clauses holds (cs ++ ds))
      ∙ ap (λ b. is_yes (clause_truth holds c) && b) (clauses_yes-append cs ds)
      ∙ sym (and_assoc (is_yes (clause_truth holds c)) (clauses_yes cs) (clauses_yes ds))
      ∙ ap (λ b. b && clauses_yes ds)
          (sym (is_yes-both (clause_truth holds c) (and_clauses holds cs)))
    where
      and_assoc : (a b c : Bool) → ((a && b) && c) ≡ (a && (b && c))
      and_assoc true b c = refl
      and_assoc false b c = refl

  selects-append :
      (ws vs : Select V) → selects holds (ws ++ vs) ≡ (selects holds ws && selects holds vs)
  unfolding selects
  selects-append [] vs = refl
  selects-append (w ∷ ws) vs =
      rw (selects-append ws vs)
        (and_assoc (is_yes (where_truth holds w)) (selects holds ws) (selects holds vs))
    where
      and_assoc : (a b c : Bool) → (a && (b && c)) ≡ ((a && b) && c)
      and_assoc true b c = refl
      and_assoc false b c = refl

  and_true : (b : Bool) → (b && true) ≡ b
  and_true true = refl
  and_true false = refl

  clauses_yes-and_clause :
      (cs : List (Criterion V)) → clauses_yes (and_clause cs) ≡ all_yes holds cs
  unfolding clauses_yes and_clauses clause_truth all_yes
  clauses_yes-and_clause [] = refl
  clauses_yes-and_clause (c ∷ cs) =
      is_yes-both (and_all holds (c ∷ cs)) Truth.yes
      ∙ and_true (is_yes (and_all holds (c ∷ cs)))
      ∙ is_yes-and_all (c ∷ cs)

  clauses_yes-or_clause :
      (cs : List (Criterion V)) → clauses_yes (or_clause cs) ≡ any_or_none holds cs
  unfolding clauses_yes and_clauses clause_truth any_or_none
  clauses_yes-or_clause [] = refl
  clauses_yes-or_clause (c ∷ cs) =
      is_yes-both (or_all holds (c ∷ cs)) Truth.yes
      ∙ and_true (is_yes (or_all holds (c ∷ cs)))
      ∙ is_yes-or_all (c ∷ cs)

  clauses_yes-join :
      (f : List (Criterion V) → List (Clause V)) (r : Result (List (Criterion V)))
      (rest : Result (List (Clause V))) (out : List (Clause V)) (a b : Bool)
      → ((cs : List (Criterion V)) → r ≡ ok cs → clauses_yes (f cs) ≡ a)
      → join_clauses (clauses f r) rest ≡ ok out
      → ((ds : List (Clause V)) → rest ≡ ok ds → clauses_yes ds ≡ b)
      → clauses_yes out ≡ (a && b)
  clauses_yes-join f (ok cs) (ok ds) out a b means e h =
      let same : f cs ++ ds ≡ out = ok_same e in
      rw (sym same, clauses_yes-append (f cs) ds, means cs refl, h ds refl) refl
  clauses_yes-join f (ok cs) (err x) out a b means e h = cc e
  clauses_yes-join f (err x) rest out a b means e h = cc e

  where_clauses-selects :
      (cs : List (Clause V)) (stm : Select V)
      → selects holds (where_clauses cs stm) ≡ (selects holds stm && clauses_yes cs)
  unfolding clauses_yes and_clauses selects where_truth
  where_clauses-selects [] stm = sym (and_true (selects holds stm))
  where_clauses-selects (c ∷ cs) stm =
      selects-append stm (every (c ∷ cs) ∷ [])
      ∙ ap (λ b. selects holds stm && b) (and_true (is_yes (and_clauses holds (c ∷ cs))))

  where_all-selects :
      (cs : List (Criterion V)) (stm : Select V)
      → selects holds (where_all cs stm) ≡ (selects holds stm && all_yes holds cs)
  unfolding selects where_truth clause_truth all_yes
  where_all-selects [] stm = sym (and_true (selects holds stm))
  where_all-selects (c ∷ cs) stm =
      selects-append stm (single (and_of (c ∷ cs)) ∷ [])
      ∙ ap (λ b. selects holds stm && b)
          (and_true (is_yes (and_all holds (c ∷ cs))) ∙ is_yes-and_all (c ∷ cs))

  module _ (has_field : String → Bool) (split_key : String → Option (String × String))
      (show : Value V → String) (truthy : Value V → Bool) (date_of : Value V → Result V) where
    abbrev conditions : Filters V → Result (List (Criterion V))
    conditions = conditions_of has_field split_key show truthy date_of

    abbrev all_of : Filters V → Bool
    all_of = meets_all has_field split_key show truthy date_of holds

    abbrev any_of : Filters V → Bool
    any_of = meets_any has_field split_key show truthy date_of holds

    -- the row meets one filter of each group
    pub meets_groups : List (Filters V) → Bool
    meets_groups [] = true
    meets_groups (group ∷ groups) = any_of group && meets_groups groups

    and_filters-yes :
        (filters : Filters V) (cs : List (Criterion V))
        → conditions filters ≡ ok cs
        → clauses_yes (and_clause cs) ≡ all_of filters
    and_filters-yes filters cs e =
        clauses_yes-and_clause cs
        ∙ conditions_of-meets_all has_field split_key show truthy date_of holds filters cs e

    or_filters-yes :
        (filters : Filters V) (cs : List (Criterion V))
        → conditions filters ≡ ok cs
        → clauses_yes (or_clause cs) ≡ any_of filters
    or_filters-yes filters cs e =
        clauses_yes-or_clause cs
        ∙ conditions_of-meets_any has_field split_key show truthy date_of holds filters cs e

    group_clauses-yes :
        (groups : List (Filters V)) (out : List (Clause V))
        → group_clauses has_field split_key show truthy date_of groups ≡ ok out
        → clauses_yes out ≡ meets_groups groups
    unfolding group_clauses meets_groups clauses_yes and_clauses
    group_clauses-yes [] out e = rw (sym (ok_same e)) refl
    group_clauses-yes (group ∷ groups) out e =
        clauses_yes-join or_clause (conditions group)
          (group_clauses has_field split_key show truthy date_of groups) out (any_of group)
          (meets_groups groups) (or_filters-yes group) e
          (λ ds found. group_clauses-yes groups ds found)

    with_clauses-selects :
        (stm s : Select V) (out : Result (List (Clause V))) (b : Bool)
        → with_clauses stm out ≡ ok s
        → ((cs : List (Clause V)) → out ≡ ok cs → clauses_yes cs ≡ b)
        → selects holds s ≡ (selects holds stm && b)
    with_clauses-selects stm s (ok cs) b e h =
        let same : where_clauses cs stm ≡ s = cc in
        rw (sym same, where_clauses-selects cs stm, h cs refl) refl
    with_clauses-selects stm s (err x) b e h = absurd cc

    -- Where it returns a statement, `build_filters_advanced` selects exactly the rows of the given
    -- statement that meet all of the first filters, one of the second, and one of each group. A filter
    -- with a known field and operator means the condition that the table of operators gives; one with
    -- another field or operator, or with the value `None`, restricts nothing, and filters of which none
    -- gives a condition restrict nothing.
    pub build_filters_advanced-selects :
        (stm s : Select V) (and_filters or_filters : Filters V) (groups : List (Filters V))
        → build_filters_advanced has_field split_key show truthy date_of stm and_filters or_filters
            groups
          ≡ ok s
        → selects holds s ≡ (
            selects holds stm
            && (meets_all has_field split_key show truthy date_of holds and_filters
                && (meets_any has_field split_key show truthy date_of holds or_filters
                    && meets_groups groups)))
    unfolding build_filters_advanced
    build_filters_advanced-selects stm s and_filters or_filters groups e =
        with_clauses-selects stm s _ _ e (λ cs found.
          clauses_yes-join and_clause (conditions and_filters) _ cs _ _
            (and_filters-yes and_filters) found
            (λ ds more.
              clauses_yes-join or_clause (conditions or_filters) _ ds _ _
                (or_filters-yes or_filters) more (λ gs rest. group_clauses-yes groups gs rest)))

    -- both raise the same, or give statements that select the row or not alike
    abbrev pub Alike : Result (Select V) → Result (Select V) → Type 0
    Alike (ok s) (ok s') = selects holds s ≡ selects holds s'
    Alike (err x) (err y) = x ≡ y
    Alike _ _ = ⊥

    -- Filters given to `build_filters`, or to `build_filters_advanced` as the only ones, select the same
    -- rows or raise the same error.
    pub build_filters-advanced :
        (stm : Select V) (filters : Filters V)
        → Alike
            (build_filters has_field split_key show truthy date_of stm filters)
            (build_filters_advanced has_field split_key show truthy date_of stm filters [] [])
    unfolding build_filters build_filters_advanced conditions_of group_clauses
    build_filters-advanced stm filters = alike (conditions filters)
      where
        alike :
            (r : Result (List (Criterion V)))
            → Alike
                (with_conditions (λ cs. where_all cs stm) r)
                (with_clauses stm (join_clauses (clauses and_clause r) (ok [])))
        alike (err x) = refl
        alike (ok []) = refl
        alike (ok (c ∷ cs)) =
            where_all-selects (c ∷ cs) stm
            ∙ sym (
                where_clauses-selects (and_of (c ∷ cs) ∷ []) stm
                ∙ ap (λ b. selects holds stm && b) (clauses_yes-and_clause (c ∷ cs)))
