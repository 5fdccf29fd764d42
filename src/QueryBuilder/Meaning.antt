-- ===== src/QueryBuilder/Meaning.antt =====
-- What filters mean, apart from how the query builder reads them: the operators as a table, and for each
-- filter whether a row meets it.
use Prim.Native.String.{◌++◌ as ◌<>◌}
use taas_server_py.Prelude.{
  String, Bool, true, false, ◌&&◌, ◌||◌, Option, none, some, List, [], ◌∷◌, Dict, str_eq,
  if◌then◌else◌, ◌≡◌, refl, ap, sym, ◌∙◌,
}
use taas_server_py.Exec.{Result, ok, err, ok_same}
use taas_server_py.QueryBuilder.{
  Value, atom, items, Criterion, equals, differs, greater, at_least, less, at_most, among,
  not_among, like, ilike, is_null, is_not_null, Filters, date_condition, add_condition,
  condition_of, build_single_condition, conditions_of,
}
use taas_server_py.QueryBuilder.Truth.{Truth, is_yes, all_yes, any_yes, any_or_none}

module _ {V : Type 0} where
  abbrev members : Value V → List V
  members (atom v) = v ∷ []
  members (items vs) = vs

  abbrev is_equal : String → Value V → Criterion V
  is_equal field (atom v) = equals field (atom v)
  is_equal field (items vs) = among field vs

  -- the condition of the first entry for an operator, and none for an operator that has no entry
  abbrev entry_of :
      Dict (String → Value V → Result (Option (Criterion V)))
      → String
      → String
      → Value V
      → Result (Option (Criterion V))
  entry_of [] operator field value = ok none
  entry_of ((name, condition) ∷ table) operator field value =
      if str_eq operator name then condition field value else entry_of table operator field value

module _ {V : Type 0} (has_field : String → Bool) (split_key : String → Option (String × String))
    (show : Value V → String) (truthy : Value V → Bool) (date_of : Value V → Result V) where
  abbrev operators : Dict (String → Value V → Result (Option (Criterion V)))
  operators =
      ("eq", λ field value. ok (some (is_equal field value)))
      ∷ ("neq", λ field value. ok (some (differs field value)))
      ∷ ("icontains", λ field value. ok (some (ilike field ("%" <> show value <> "%"))))
      ∷ ("contains", λ field value. ok (some (like field ("%" <> show value <> "%"))))
      ∷ ("gt", λ field value. ok (some (greater field value)))
      ∷ ("gte", λ field value. ok (some (at_least field value)))
      ∷ ("lt", λ field value. ok (some (less field value)))
      ∷ ("lte", λ field value. ok (some (at_most field value)))
      ∷ ("in", λ field value. ok (some (among field (members value))))
      ∷ ("nin", λ field value. ok (some (not_among field (members value))))
      ∷ (
        "isnull",
        λ field value. ok (some (if truthy value then is_null field else is_not_null field)),
      )
      ∷ ("startswith", λ field value. ok (some (like field (show value <> "%"))))
      ∷ ("istartswith", λ field value. ok (some (ilike field (show value <> "%"))))
      ∷ ("endswith", λ field value. ok (some (like field ("%" <> show value))))
      ∷ ("iendswith", λ field value. ok (some (ilike field ("%" <> show value))))
      ∷ ("ci", λ field value. ok (some (ilike field (show value))))
      ∷ ("iexact", λ field value. ok (some (ilike field (show value))))
      ∷ ("date", λ field value. date_condition field (date_of value))
      ∷ []

  abbrev field_and_operator : String → Option (String × String) → String × String
  field_and_operator key none = (key, "eq")
  field_and_operator key (some parts) = parts

  -- the condition of one filter, if its field and its operator are known
  pub meaning : String → Value V → Result (Option (Criterion V))
  meaning key value =
      let (field, operator) = field_and_operator key (split_key key) in
      if has_field field then entry_of operators operator field value else ok none

  same_condition :
      (key : String) (value : Value V) (parts : Option (String × String))
      → split_key key ≡ parts
      → condition_of has_field split_key show truthy date_of key value ≡ meaning key value
  unfolding meaning build_single_condition
  same_condition key (atom v) none at = rw at refl
  same_condition key (items vs) none at = rw at refl
  same_condition key (atom v) (some (field, operator)) at = rw at refl
  same_condition key (items vs) (some (field, operator)) at = rw at refl

  module _ (holds : Criterion V → Truth) where
    -- what one row makes of a filter that gives a condition
    abbrev verdict : Result (Option (Criterion V)) → Option Bool
    verdict (ok (some c)) = some (is_yes (holds c))
    verdict _ = none

    abbrev allows : Option Bool → Bool
    allows none = true
    allows (some met) = met

    abbrev grants : Option Bool → Bool
    grants none = false
    grants (some met) = met

    abbrev counts : Option Bool → Bool
    counts none = false
    counts (some met) = true

    -- the row meets every filter; one that gives no condition restricts nothing
    pub meets_all : Filters V → Bool
    meets_all [] = true
    meets_all ((key, none) ∷ filters) = meets_all filters
    meets_all ((key, some value) ∷ filters) =
        allows (verdict (meaning key value)) && meets_all filters

    -- some filter gives a condition
    pub restricts : Filters V → Bool
    restricts [] = false
    restricts ((key, none) ∷ filters) = restricts filters
    restricts ((key, some value) ∷ filters) =
        counts (verdict (meaning key value)) || restricts filters

    pub meets_one : Filters V → Bool
    meets_one [] = false
    meets_one ((key, none) ∷ filters) = meets_one filters
    meets_one ((key, some value) ∷ filters) =
        grants (verdict (meaning key value)) || meets_one filters

    -- the row meets one of the filters, if they give any condition
    pub meets_any : Filters V → Bool
    meets_any filters = if restricts filters then meets_one filters else true

    abbrev some_conditions : List (Criterion V) → Bool
    some_conditions [] = false
    some_conditions (c ∷ cs) = true

    -- the conditions of filters mean what the filters do
    record Faithful (cs : List (Criterion V)) (all any_of one : Bool) : Type 0 where
      pub every : all_yes holds cs ≡ all
      pub given : some_conditions cs ≡ any_of
      pub either : any_yes holds cs ≡ one

    add_condition-Faithful :
        (r : Result (Option (Criterion V))) (rest : Result (List (Criterion V)))
        (cs : List (Criterion V)) (all any_of one : Bool)
        → add_condition r rest ≡ ok cs
        → ((ds : List (Criterion V)) → rest ≡ ok ds → Faithful ds all any_of one)
        → Faithful cs
            (allows (verdict r) && all)
            (counts (verdict r) || any_of)
            (grants (verdict r) || one)
    unfolding all_yes any_yes
    add_condition-Faithful (err exn) rest cs all any_of one e h = cc e
    add_condition-Faithful (ok none) rest cs all any_of one e h = h cs e
    add_condition-Faithful (ok (some c)) (err exn) cs all any_of one e h = cc e
    add_condition-Faithful (ok (some c)) (ok ds) cs all any_of one e h =
        let f = h ds refl in
        let same : c ∷ ds ≡ cs = ok_same e in
        rw (sym same) (record {
          every = ap (λ b. is_yes (holds c) && b) f.every;
          given = refl;
          either = ap (λ b. is_yes (holds c) || b) f.either;
        })

    conditions_of-Faithful :
        (filters : Filters V) (cs : List (Criterion V))
        → conditions_of has_field split_key show truthy date_of filters ≡ ok cs
        → Faithful cs (meets_all filters) (restricts filters) (meets_one filters)
    unfolding conditions_of meets_all restricts meets_one all_yes any_yes
    conditions_of-Faithful [] cs e =
        rw (sym (ok_same e)) (record { every = refl; given = refl; either = refl })
    conditions_of-Faithful ((key, none) ∷ filters) cs e = conditions_of-Faithful filters cs e
    conditions_of-Faithful ((key, some value) ∷ filters) cs e =
        add_condition-Faithful (meaning key value)
          (conditions_of has_field split_key show truthy date_of filters) cs (meets_all filters)
          (restricts filters) (meets_one filters)
          (ap (λ r. add_condition r (conditions_of has_field split_key show truthy date_of filters))
              (sym (same_condition key value (split_key key) refl))
            ∙ e)
          (λ ds given. conditions_of-Faithful filters ds given)

    pub conditions_of-meets_all :
        (filters : Filters V) (cs : List (Criterion V))
        → conditions_of has_field split_key show truthy date_of filters ≡ ok cs
        → all_yes holds cs ≡ meets_all filters
    conditions_of-meets_all filters cs e = (conditions_of-Faithful filters cs e).every

    any_given :
        (cs : List (Criterion V)) (any_of one : Bool)
        → some_conditions cs ≡ any_of
        → any_yes holds cs ≡ one
        → any_or_none holds cs ≡ (if any_of then one else true)
    unfolding any_or_none
    any_given [] any_of one given either = rw (sym given) refl
    any_given (c ∷ cs) any_of one given either = rw (sym given) either

    pub conditions_of-meets_any :
        (filters : Filters V) (cs : List (Criterion V))
        → conditions_of has_field split_key show truthy date_of filters ≡ ok cs
        → any_or_none holds cs ≡ meets_any filters
    unfolding meets_any
    conditions_of-meets_any filters cs e =
        let f = conditions_of-Faithful filters cs e in any_given cs _ _ f.given f.either
