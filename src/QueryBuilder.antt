-- ===== src/QueryBuilder.antt =====
-- libs/db/src/db/utils/query_builder.py: the filters of `QueryBuilder`. A statement is what it adds to
-- its `where`. The columns of a model, the splitting of a key at `__`, the formatting of a value and
-- the parsing of a date are parameters.
pub mod Truth
pub mod Meaning
pub mod Filters
use Prim.Native.String.{◌++◌ as ◌<>◌}
use taas_server_py.Prelude.{
  String, Bool, true, false, ◌&&◌, Option, none, some, List, [], ◌∷◌, ◌++◌, str_eq, if◌then◌else◌,
}
use taas_server_py.Exec.{Exn, Result, ok, err}

-- the value of a filter: one, or a list or tuple of them
pub data Value (V : Type 0) : Type 0 where
  atom : V → Value V
  items : List V → Value V

-- a condition on one column
pub data Criterion (V : Type 0) : Type 0 where
  equals differs greater at_least less at_most : String → Value V → Criterion V
  among not_among : String → List V → Criterion V
  like ilike : String → String → Criterion V
  is_null is_not_null : String → Criterion V
  on_date : String → V → Criterion V

-- `and_(*conditions)` and `or_(*conditions)`
pub data Clause (V : Type 0) : Type 0 where
  and_of or_of : List (Criterion V) → Clause V

-- an argument of `where`: such a clause, or `and_` of several
pub data Where (V : Type 0) : Type 0 where
  single : Clause V → Where V
  every : List (Clause V) → Where V

abbrev pub Select : Type 0 → Type 0
Select V = List (Where V)

-- keyword arguments, where `None` is no filter
abbrev pub Filters : Type 0 → Type 0
Filters V = List (String × Option (Value V))

-- the field and the operator of a key
abbrev parse_key : String → Option (String × String) → String × String
parse_key key none = (key, "eq")
parse_key key (some (field, operator)) = (field, operator)

module _ {V : Type 0} where
  abbrev in_list : Value V → List V
  in_list (atom v) = v ∷ []
  in_list (items vs) = vs

  abbrev equal_to : String → Value V → Criterion V
  equal_to field (atom v) = equals field (atom v)
  equal_to field (items vs) = among field vs

  abbrev found : Criterion V → Result (Option (Criterion V))
  found c = ok (some c)

  abbrev date_condition : String → Result V → Result (Option (Criterion V))
  date_condition field (ok d) = ok (some (on_date field d))
  date_condition field (err exn) = err exn

  abbrev pub add_condition :
      Result (Option (Criterion V)) → Result (List (Criterion V)) → Result (List (Criterion V))
  add_condition (err exn) rest = err exn
  add_condition (ok none) rest = rest
  add_condition (ok (some c)) (ok cs) = ok (c ∷ cs)
  add_condition (ok (some c)) (err exn) = err exn

  abbrev pub where_all : List (Criterion V) → Select V → Select V
  where_all [] stm = stm
  where_all (c ∷ cs) stm = stm ++ single (and_of (c ∷ cs)) ∷ []

  abbrev pub where_any : List (Criterion V) → Select V → Select V
  where_any [] stm = stm
  where_any (c ∷ cs) stm = stm ++ single (or_of (c ∷ cs)) ∷ []

  abbrev pub with_conditions :
      (List (Criterion V) → Select V) → Result (List (Criterion V)) → Result (Select V)
  with_conditions f (ok cs) = ok (f cs)
  with_conditions f (err exn) = err exn

  abbrev pub and_clause : List (Criterion V) → List (Clause V)
  and_clause [] = []
  and_clause (c ∷ cs) = and_of (c ∷ cs) ∷ []

  abbrev pub or_clause : List (Criterion V) → List (Clause V)
  or_clause [] = []
  or_clause (c ∷ cs) = or_of (c ∷ cs) ∷ []

  abbrev pub join_clauses :
      Result (List (Clause V)) → Result (List (Clause V)) → Result (List (Clause V))
  join_clauses (err exn) rest = err exn
  join_clauses (ok cs) (err exn) = err exn
  join_clauses (ok cs) (ok ds) = ok (cs ++ ds)

  abbrev pub clauses :
      (List (Criterion V) → List (Clause V))
      → Result (List (Criterion V))
      → Result (List (Clause V))
  clauses f (ok cs) = ok (f cs)
  clauses f (err exn) = err exn

  abbrev pub where_clauses : List (Clause V) → Select V → Select V
  where_clauses [] stm = stm
  where_clauses (c ∷ cs) stm = stm ++ every (c ∷ cs) ∷ []

  abbrev pub with_clauses : Select V → Result (List (Clause V)) → Result (Select V)
  with_clauses stm (ok cs) = ok (where_clauses cs stm)
  with_clauses stm (err exn) = err exn

module _ {V : Type 0} (has_field : String → Bool) (split_key : String → Option (String × String))
    (show : Value V → String) (truthy : Value V → Bool) (date_of : Value V → Result V) where
  -- `_build_single_condition`
  unfoldable pub build_single_condition : String → String → Value V → Result (Option (Criterion V))
  build_single_condition field operator value =
      if has_field field
      then (if str_eq operator "eq"
          then found (equal_to field value)
          else if str_eq operator "neq"
          then found (differs field value)
          else if str_eq operator "icontains"
          then found (ilike field ("%" <> show value <> "%"))
          else if str_eq operator "contains"
          then found (like field ("%" <> show value <> "%"))
          else if str_eq operator "gt"
          then found (greater field value)
          else if str_eq operator "gte"
          then found (at_least field value)
          else if str_eq operator "lt"
          then found (less field value)
          else if str_eq operator "lte"
          then found (at_most field value)
          else if str_eq operator "in"
          then found (among field (in_list value))
          else if str_eq operator "nin"
          then found (not_among field (in_list value))
          else if str_eq operator "isnull"
          then found (if truthy value then is_null field else is_not_null field)
          else if str_eq operator "startswith"
          then found (like field (show value <> "%"))
          else if str_eq operator "istartswith"
          then found (ilike field (show value <> "%"))
          else if str_eq operator "endswith"
          then found (like field ("%" <> show value))
          else if str_eq operator "iendswith"
          then found (ilike field ("%" <> show value))
          else if str_eq operator "ci"
          then found (ilike field (show value))
          else if str_eq operator "iexact"
          then found (ilike field (show value))
          else if str_eq operator "date"
          then date_condition field (date_of value)
          else ok none)
      else ok none

  abbrev pub condition_of : String → Value V → Result (Option (Criterion V))
  condition_of key value =
      let (field, operator) = parse_key key (split_key key) in
      build_single_condition field operator value

  -- the loop over the filters, which the three methods share
  unfoldable pub conditions_of : Filters V → Result (List (Criterion V))
  unfolding build_single_condition
  conditions_of [] = ok []
  conditions_of ((key, none) ∷ filters) = conditions_of filters
  conditions_of ((key, some value) ∷ filters) =
      add_condition (condition_of key value) (conditions_of filters)

  -- `stm` is the given statement or a new one, which has no conditions
  unfoldable pub build_filters : Select V → Filters V → Result (Select V)
  unfolding conditions_of
  build_filters stm filters = with_conditions (λ cs. where_all cs stm) (conditions_of filters)

  pub build_or_filters : Select V → Filters V → Result (Select V)
  unfolding conditions_of
  build_or_filters stm filters = with_conditions (λ cs. where_any cs stm) (conditions_of filters)

  unfoldable pub group_clauses : List (Filters V) → Result (List (Clause V))
  unfolding conditions_of
  group_clauses [] = ok []
  group_clauses (group ∷ groups) =
      join_clauses (clauses or_clause (conditions_of group)) (group_clauses groups)

  -- filters that are `None` are given as none
  unfoldable pub build_filters_advanced :
      Select V → Filters V → Filters V → List (Filters V) → Result (Select V)
  unfolding conditions_of group_clauses
  build_filters_advanced stm and_filters or_filters or_groups = with_clauses stm (
      join_clauses (clauses and_clause (conditions_of and_filters))
        (join_clauses (clauses or_clause (conditions_of or_filters)) (group_clauses or_groups)))
