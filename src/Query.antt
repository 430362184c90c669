-- ===== src/Query.antt =====
-- core/pkg/orm: conditions, orders, limits and bulk updates, as the text of SQL and its arguments.
-- A value of type interface{} is an element of A, with the tests and conversions that the builder
-- makes of it in a Builder. ConditionBuild.Do changes the items it is given, so `build` gives them
-- back. Column names of the model are in the Builder; item.Columns is only a copy of them. The names
-- of databases and operators are ASCII.
pub mod Build
pub mod Checks
pub mod Again
pub mod Frames
pub mod Phrases
pub mod Sentence
pub mod Counts
pub mod Marks
pub mod Bulk
pub mod Updates
pub mod Order
pub mod Grammar
pub mod Tests
use skeyevss_backend_service.Prelude.{
  ℕ, zero, suc, ◌+◌, ◌-◌, ◌*◌, ◌≡◌, Bool, true, false, not, ◌&&◌, ◌||◌, Option, none, some, List,
  [], ◌∷◌, ◌++◌, map, if◌then◌else◌, length, nat_beq, leb,
}
use skeyevss_backend_service.Arrays.{contains}
use skeyevss_backend_service.Text.{Text, text_beq, text_comparable, bytes}
use skeyevss_backend_service.Text.Cutset.{trim, to_lower, repeat, join}

-- ConditionOriginalItem
pub record Original (A : Type 0) : Type 0 where
  pub query : Text
  pub values : List A

-- ConditionItem, without its inner items.
pub record Condition (A : Type 0) : Type 0 where
  pub column : Text
  pub value : A
  pub values : List A
  pub operator : Text
  pub original : Option (Original A)
  pub logical_operator : Text

-- A slice of items: the first, its inner items, and the rest.
pub data Conditions (A : Type 0) : Type 0 where
  empty : Conditions A
  item : Condition A → Conditions A → Conditions A → Conditions A

-- ConditionBuild; `show_value` is the verb %v.
pub record Builder (A : Type 0) : Type 0 where
  pub database_type : Text
  pub columns : List Text
  pub is_nil : A → Bool
  pub show_value : A → Text
  pub of_text : Text → A

-- The errors of `Do`, and the panic of a conversion for no database.
pub data Failure : Type 0 where
  nil_conditions : Failure
  no_column : Failure
  no_value : Failure
  unknown_column : Text → Failure
  bad_operator : Failure
  bad_logical_operator : Failure
  panicked : Failure

pub data Built (A : Type 0) : Type 0 where
  failed : Failure → Built A
  built : Text → List A → Built A

-- The pieces that the loop collects.
pub data Pieces (A : Type 0) : Type 0 where
  stopped : Failure → Pieces A
  pieces : List Text → List A → Pieces A

abbrev pub is_empty : {A : Type 0} → Conditions A → Bool
is_empty empty = true
is_empty (item c inner rest) = false

abbrev pub logical_operators : List Text
logical_operators =
    bytes "&&" ∷ bytes "||" ∷ bytes "and" ∷ bytes "or" ∷ bytes "AND" ∷ bytes "OR" ∷ []

abbrev pub operators : List Text
operators =
    bytes "<"
    ∷ bytes "<="
    ∷ bytes ">"
    ∷ bytes ">="
    ∷ bytes "!="
    ∷ bytes "in"
    ∷ bytes "IN"
    ∷ bytes "notin"
    ∷ bytes "NOTIN"
    ∷ bytes "="
    ∷ bytes "like"
    ∷ bytes "LIKE"
    ∷ bytes "llike"
    ∷ bytes "LLIKE"
    ∷ bytes "jin"
    ∷ bytes "JIN"
    ∷ []
