-- ===== src/Tests/Queries.antt =====
-- The filters of libs/db on a concrete row: its name is Jo, its city is not known.
use taas_server_py.Prelude.{
  String, Bool, true, ◌&&◌, ◌||◌, Option, none, some, [], ◌∷◌, ◌≡◌, refl, str_eq, if◌then◌else◌,
}
use taas_server_py.Exec.{Result, ok}
use taas_server_py.QueryBuilder.{
  Value, atom, items, Criterion, equals, and_of, or_of, every, Select, Filters,
  build_single_condition, conditions_of, group_clauses, build_filters_advanced,
}
use taas_server_py.QueryBuilder.Truth.{Truth, selects}
use taas_server_py.QueryBuilder.Meaning.{meets_all, meets_any}
use taas_server_py.QueryBuilder.Filters.{meets_groups, build_filters_advanced-selects}

abbrev holds : Criterion String → Truth
holds (equals field (atom v)) =
    if str_eq field "name" then (if str_eq v "Jo" then Truth.yes else Truth.no) else Truth.unknown
holds _ = Truth.no

abbrev has_field : String → Bool
has_field field = str_eq field "name" || str_eq field "city"

abbrev split_key : String → Option (String × String)
split_key key = none

abbrev show : Value String → String
show (atom v) = v
show (items vs) = "[]"

abbrev truthy : Value String → Bool
truthy value = true

abbrev date_of : Value String → Result String
date_of value = ok "2026-01-01"

abbrev named : Filters String
named = ("name", some (atom "Jo")) ∷ ("nmae", some (atom "Al")) ∷ ("city", none) ∷ []

abbrev located : Filters String
located = ("city", some (atom "Ulm")) ∷ ("name", some (atom "Jo")) ∷ []

abbrev query : Select String
query =
    every (
      and_of (equals "name" (atom "Jo") ∷ [])
      ∷ or_of (equals "city" (atom "Ulm") ∷ equals "name" (atom "Jo") ∷ [])
      ∷ [])
    ∷ []

build_filters_advanced-selects_example : selects holds query ≡ (
    selects holds []
    && (meets_all has_field split_key show truthy date_of holds named
        && (meets_any has_field split_key show truthy date_of holds located
            && meets_groups holds has_field split_key show truthy date_of [])))
unfolding build_filters_advanced conditions_of group_clauses build_single_condition
build_filters_advanced-selects_example =
    build_filters_advanced-selects holds has_field split_key show truthy date_of [] query named
      located [] refl
