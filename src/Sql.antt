-- ===== src/Sql.antt =====
-- What the repositories of libs/resiliant need of a database table: statements as operations on
-- an abstract table, and what they promise of its rows. PostgreSQL and SQLAlchemy are not modelled;
-- a client takes this record as a section parameter, and `list_table` shows that it can be met.
pub mod Model
pub mod Keys
pub mod Selected
pub mod Batches
use Prim.Native.String
use taas_server_py.Prelude.{
  keep, not, ◌&&◌, Pointwise-map, Pointwise, zero, suc, ◌||◌, some, suc, str_eq, none, String,
  Option, ℕ, ◌≤◌, Bool, true, false, List, [], ◌∷◌, ◌++◌, map, All, count, length, if◌then◌else◌,
  ◌≡◌,
}

module _ {Row : Type 0} where
  abbrev pub updated : (Row → Bool) → (Row → Row) → Row → Row
  updated test change r = if test r then change r else r

-- `Tbl` is a table within the caller's session.
pub record Table (Row : Type 0) : Type 1 where
  pub Tbl : Type 0
  pub rows : Tbl → List Row
  -- `session.add(row)` and a flush
  pub add_row : Row → Tbl → Tbl
  -- `update(...).where(test).values(...)`
  pub update_where : (Row → Bool) → (Row → Row) → Tbl → Tbl
  -- `delete(...).where(test)`
  pub delete_where : (Row → Bool) → Tbl → Tbl
  -- the number of rows that pass a test: `result.rowcount`, `func.count`
  pub count_where : (Row → Bool) → Tbl → ℕ
  -- `select(...).where(test)`, in no order that a client may rely on
  pub select_where : (Row → Bool) → Tbl → List Row
  -- `select(...).where(test).order_by(key.asc()).limit(n)`; with the flag, `FOR UPDATE SKIP LOCKED`,
  -- so that rows which other sessions hold are left out
  pub select_batch : Bool → (Row → Bool) → (Row → ℕ) → ℕ → Tbl → List Row
  -- the same, by the key from the greatest down and with no lock
  pub select_latest : (Row → Bool) → (Row → ℕ) → ℕ → Tbl → List Row

-- The documented behaviour of the statements.
pub record TableLaws {Row : Type 0} (db : Table Row) : Type 1 where
  pub rows-add_row : (r : Row) (t : db.Tbl) → db.rows (db.add_row r t) ≡ db.rows t ++ r ∷ []
  pub rows-update_where :
      (test : Row → Bool) (change : Row → Row) (t : db.Tbl)
      → db.rows (db.update_where test change t) ≡ map (updated test change) (db.rows t)
  pub rows-delete_where :
      (test : Row → Bool) (t : db.Tbl)
      → db.rows (db.delete_where test t) ≡ keep (λ r. not (test r)) (db.rows t)
  pub count_where-rows :
      (test : Row → Bool) (t : db.Tbl) → db.count_where test t ≡ count test (db.rows t)
  pub select_where-test :
      (test : Row → Bool) (t : db.Tbl) → All (λ r. test r ≡ true) (db.select_where test t)
  -- a select gives the rows that pass its test, in some order
  pub select_where-count :
      (test p : Row → Bool) (t : db.Tbl)
      → count p (db.select_where test t) ≡ count (λ r. test r && p r) (db.rows t)
  pub select_where-mem :
      (P : Row → Type 0) (test : Row → Bool) (t : db.Tbl)
      → All P (db.rows t)
      → All P (db.select_where test t)
  pub select_batch-test :
      (skip : Bool) (test : Row → Bool) (key : Row → ℕ) (n : ℕ) (t : db.Tbl)
      → All (λ r. test r ≡ true) (db.select_batch skip test key n t)
  pub select_batch-limit :
      (skip : Bool) (test : Row → Bool) (key : Row → ℕ) (n : ℕ) (t : db.Tbl)
      → length (db.select_batch skip test key n t) ≤ n
  -- every row comes as often as it is in the table at most
  pub select_batch-count :
      (skip : Bool) (test p : Row → Bool) (key : Row → ℕ) (n : ℕ) (t : db.Tbl)
      → count p (db.select_batch skip test key n t) ≤ count p (db.rows t)
  pub select_latest-test :
      (test : Row → Bool) (key : Row → ℕ) (n : ℕ) (t : db.Tbl)
      → All (λ r. test r ≡ true) (db.select_latest test key n t)
  pub select_latest-limit :
      (test : Row → Bool) (key : Row → ℕ) (n : ℕ) (t : db.Tbl)
      → length (db.select_latest test key n t) ≤ n

-- `result.scalar_one_or_none()` of a select by primary key
abbrev pub one_or_none : {Row : Type 0} → List Row → Option Row
one_or_none [] = none
one_or_none (r ∷ rest) = some r

-- an update with values that come from a selected row, if there was one
abbrev pub update_found :
    {Row : Type 0} (db : Table Row)
    → (Row → Bool)
    → (Row → Row → Row)
    → Option Row
    → db.Tbl
    → db.Tbl
update_found db test values none t = t
update_found db test values (some found) t = db.update_where test (values found) t

abbrev pub is_in : String → List String → Bool
is_in id [] = false
is_in id (x ∷ xs) = str_eq x id || is_in id xs

-- `error[:1000]`: the first characters of a text
abbrev pub first_chars : ℕ → String → String
first_chars zero s = ""
first_chars (suc n) String.[] = ""
first_chars (suc n) (String.◌∷◌ c s) = String.◌∷◌ c (first_chars n s)

-- An update relates each row to what becomes of it.
pub update-Pointwise :
    {Row : Type 0} (db : Table Row)
    → TableLaws db
    → (R : Row → Row → Type 0) (test : Row → Bool) (change : Row → Row)
    → ((r : Row) → R r (updated test change r))
    → (t : db.Tbl) → Pointwise R (db.rows t) (db.rows (db.update_where test change t))
update-Pointwise db laws R test change step t =
    rw (laws.rows-update_where test change t) (Pointwise-map (updated test change) step (db.rows t))
