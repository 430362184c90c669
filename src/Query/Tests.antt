-- ===== src/Query/Tests.antt =====
-- Conditions on a table of two columns.
use skeyevss_backend_service.Prelude.{
  ◌≡◌, refl, none, some, List, [], ◌∷◌, ◌++◌, length, true, false,
}
use skeyevss_backend_service.Text.{Text, text_beq, bytes}
use skeyevss_backend_service.Query.{Original, Condition, Conditions, empty, item, Builder, built}
use skeyevss_backend_service.Query.Build.{build, quote_column}
use skeyevss_backend_service.Query.Grammar.{Clause, whole, build-Clause, unasked, any_column_named}
use skeyevss_backend_service.Query.Bulk
use skeyevss_backend_service.Query.Bulk.{Writer, statement, take_update_bulk}
use skeyevss_backend_service.Query.Updates.{bulk-marked}
use skeyevss_backend_service.Query.Again.{build_again}
use skeyevss_backend_service.Query.Phrases.{expected}
use skeyevss_backend_service.Query.Sentence.{build-expected}
use skeyevss_backend_service.Query.Marks.{build-marked}
use skeyevss_backend_service.Text.Cutset.{count}

abbrev table : Builder Text
table = record {
  database_type = bytes "mysql";
  columns = bytes "id" ∷ bytes "name" ∷ [];
  is_nil = λ t. false;
  show_value = λ t. t;
  of_text = λ t. t;
}

abbrev equal : Text → Text → Text → Condition Text
equal op column value = record {
  column = column;
  value = value;
  values = [];
  operator = [];
  original = none;
  logical_operator = op;
}

abbrev later : Conditions Text
later =
    item (equal (bytes "or") [] [])
      (item (equal (bytes "&&") (bytes "name") (bytes "x")) empty empty)
      (item (record (equal [] (bytes "name") []) { values = bytes "a" ∷ bytes "b" ∷ [] }) empty
        empty)

abbrev query : Conditions Text
query = item (equal [] (bytes "id") (bytes "7")) empty later

query_text :
    (build table true query).1
    ≡ built
        (bytes "`id` = ? or (`name` = ?) AND `name` in (?,?)")
        (bytes "7" ∷ bytes "x" ∷ bytes "a" ∷ bytes "b" ∷ [])
unfolding build skeyevss_backend_service.Arrays.contains
query_text = refl

build_again_example : build table true (build table true query).0 ≡ build table true query
build_again_example = build_again table true query

build-expected_example : (build table true query).1 ≡ expected table true query
build-expected_example = build-expected table true query

abbrev query_args : List Text
query_args = bytes "7" ∷ bytes "x" ∷ bytes "a" ∷ bytes "b" ∷ []

build-marked_example :
    count b'?' (bytes "`id` = ? or (`name` = ?) AND `name` in (?,?)") ≡ length query_args
build-marked_example =
    build-marked table true query (bytes "`id` = ? or (`name` = ?) AND `name` in (?,?)") query_args
      (refl, tt, tt, (refl, tt, (refl, tt, tt, tt), (refl, tt, tt, tt))) query_text

build-Clause_example :
    Clause table query whole (bytes "`id` = ? or (`name` = ?) AND `name` in (?,?)")
build-Clause_example =
    build-Clause table true (equal [] (bytes "id") (bytes "7")) empty later
      (bytes "`id` = ? or (`name` = ?) AND `name` in (?,?)") query_args query_text

abbrev unasked_id : Original Text
unasked_id = record { query = []; values = [] }

any_column_named_example :
    (build table true (item (unasked (bytes "1=1 or x") (bytes "7") unasked_id) empty empty)).1
    ≡ built (quote_column table (bytes "1=1 or x") ++ bytes " = ?") (bytes "7" ∷ [])
any_column_named_example =
    any_column_named table true (bytes "1=1 or x") (bytes "7") unasked_id refl

-- An operator that tells values apart is rendered as one that accepts them.
abbrev unequal : Conditions Text
unequal =
    item (record (equal [] (bytes "id") []) { values = bytes "7" ∷ []; operator = bytes "!=" })
      empty empty

unequal_text : (build table true unequal).1 ≡ built (bytes "`id` in (?)") (bytes "7" ∷ [])
unfolding build skeyevss_backend_service.Arrays.contains
unequal_text = refl

-- A bulk update of two rows; the empty text stands for the int 0.
abbrev writer : Writer Text
writer = record {
  table_name = bytes "rows";
  is_int_0 = λ t. text_beq t [];
  string_of = λ t. some t;
  argument_of = λ t. some t;
}

abbrev names : Bulk.Item Text
names = record {
  column = bytes "name";
  def = none;
  records =
      record { pk = bytes "1"; val = bytes "a"; is_origin = false }
      ∷ record { pk = bytes "2"; val = bytes "id"; is_origin = true }
      ∷ [];
}

abbrev bulk_text : Text
bulk_text =
    bytes
      "UPDATE `rows` SET `name` = CASE `id` WHEN ? then ? WHEN ? then id ELSE '' END where `id` in(?, ?)"

abbrev bulk_args : List Text
bulk_args = bytes "1" ∷ bytes "a" ∷ bytes "2" ∷ bytes "1" ∷ bytes "2" ∷ []

names_text :
    take_update_bulk writer (bytes "`id`") (bytes "name" ∷ []) (names ∷ [])
    ≡ statement bulk_text bulk_args
unfolding take_update_bulk skeyevss_backend_service.Arrays.contains
names_text = refl

bulk-marked_example : count b'?' bulk_text ≡ length bulk_args
bulk-marked_example =
    bulk-marked writer (bytes "`id`") (bytes "name" ∷ []) (names ∷ []) bulk_text bulk_args refl refl
      (refl, refl, (refl, (refl, tt)), tt) names_text
