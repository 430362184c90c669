-- ===== src/Query/Build.antt =====
-- core/pkg/orm/orm.db.condition.go: how `Do` checks the items and renders them.
use skeyevss_backend_service.Prelude.{
  ℕ, Bool, true, false, ◌&&◌, Option, none, some, List, [], ◌∷◌, ◌++◌, map, if◌then◌else◌, length,
  nat_beq,
}
use skeyevss_backend_service.Arrays.{contains}
use skeyevss_backend_service.Text.{Text, text_beq, text_comparable, bytes}
use skeyevss_backend_service.Text.Cutset.{trim, to_lower, repeat, join}
use skeyevss_backend_service.Query.{
  Original, Condition, Conditions, empty, item, Builder, Failure, nil_conditions, no_column,
  no_value, unknown_column, bad_operator, bad_logical_operator, panicked, Built, failed, built,
  Pieces, stopped, pieces, is_empty, logical_operators, operators,
}

-- The pieces one after the other.
abbrev pub concat : List Text → Text
concat [] = []
concat (t ∷ ts) = t ++ concat ts

-- The loop that trims the text by every logical operator in a frame of spaces.
abbrev pub trim_each : List Text → Text → Text
trim_each [] s = s
trim_each (op ∷ ops) s = trim_each ops (trim (b' ' ∷ op ++ bytes " ") s)

abbrev pub is_jin : Text → Bool
is_jin op = text_beq (to_lower op) (bytes "jin")

abbrev pub in_word : Text → Text
in_word op = if text_beq (to_lower op) (bytes "notin") then bytes " not in (" else bytes " in ("

abbrev pub marks : ℕ → Text
marks n = trim (bytes ",") (repeat (bytes "?,") n)

abbrev pub clause : Text → Text → Text
clause op body = b' ' ∷ (op ++ b' ' ∷ body)

module _ {A : Type 0} where
  abbrev pub has_original : Option (Original A) → Bool
  has_original none = false
  has_original (some o) = true

  -- The original with a query.
  abbrev pub asked : Option (Original A) → Option (Original A)
  asked none = none
  asked (some o) = if text_beq o.query [] then none else some o

  unfoldable pub quote_column : Builder A → Text → Text
  quote_column b column =
      if text_beq (to_lower b.database_type) (bytes "postgres")
      then b'"' ∷ column ++ b'"' ∷ []
      else if text_beq (to_lower b.database_type) (bytes "sqlserver")
      then b'[' ∷ column ++ b']' ∷ []
      else b'`' ∷ column ++ b'`' ∷ []

  -- A value for an operator that is not given.
  unfoldable pub with_operator : Condition A → Condition A
  with_operator c = if text_beq c.operator [] then record c { operator = bytes "=" } else c

  unfoldable pub with_logical_operator : Condition A → Condition A
  with_logical_operator c =
      if text_beq c.logical_operator [] then record c { logical_operator = bytes "AND" } else c

  unfoldable pub column_failure : Builder A → Bool → Condition A → Option Failure
  column_failure b no_inner c =
      if text_beq c.column [] && no_inner
      then some no_column
      else if text_beq c.column []
      then none
      else if b.is_nil c.value && nat_beq (length c.values) 0
      then some no_value
      else if contains c.column b.columns
      then none
      else some (unknown_column c.column)

  -- CaseJSONContainsCondition, of at least one value.
  unfoldable pub json_contains : Builder A → Text → List A → Original A
  json_contains b column values =
      if text_beq b.database_type (bytes "sqlite")
      then record {
        query =
            bytes "EXISTS (SELECT 1 FROM json_each("
            ++ column
            ++ bytes ") WHERE value IN ("
            ++ marks (length values)
            ++ bytes "))";
        values = values;
      }
      else record {
        query =
            b'('
              ∷ join (bytes " OR ") (map (λ v. bytes "? MEMBER OF(" ++ column ++ bytes ")") values)
            ++ bytes ")";
        values = values;
      }

  -- Only an item with no original names a column that is checked.
  unfoldable pub early_failure : Builder A → Bool → Condition A → Option Failure
  unfolding column_failure
  early_failure b no_inner c = if has_original c.original then none else column_failure b no_inner c

  unfoldable pub checked_with : Condition A → Option Failure → Condition A × Option Failure
  unfolding with_operator with_logical_operator
  checked_with c (some f) = (c, some f)
  checked_with c none =
      let d = with_operator c in
      let l = with_logical_operator d in
      if contains d.operator operators
      then if contains l.logical_operator logical_operators
        then (l, none)
        else (l, some bad_logical_operator)
      else (d, some bad_operator)

  -- The checks of an item, with the item that they leave.
  unfoldable pub checked : Builder A → Bool → Condition A → Condition A × Option Failure
  unfolding early_failure checked_with
  checked b no_inner c = checked_with c (early_failure b no_inner c)

  abbrev pub original_body : Original A → Built A
  original_body o = built (b'(' ∷ (o.query ++ bytes ")")) o.values

  -- `in` and `not in` before a mark for each value.
  unfoldable pub listed : Builder A → Condition A → Built A
  unfolding quote_column
  listed b c =
      built
        (quote_column b c.column
          ++ ((if text_beq (to_lower c.operator) (bytes "notin")
                then bytes " not in ("
                else bytes " in (")
              ++ (marks (length c.values) ++ bytes ")")))
        c.values

  unfoldable pub like_value : Builder A → Condition A → A
  like_value b c =
      if text_beq (to_lower c.operator) (bytes "like")
      then b.of_text (b'%' ∷ (b.show_value c.value ++ bytes "%"))
      else if text_beq (to_lower c.operator) (bytes "llike")
      then b.of_text (b'%' ∷ b.show_value c.value)
      else c.value

  unfoldable pub single : Builder A → Condition A → Built A
  unfolding quote_column like_value
  single b c =
      built (quote_column b c.column ++ (b' ' ∷ (c.operator ++ bytes " ?"))) (like_value b c ∷ [])

  unfoldable pub in_json : Builder A → Condition A → Condition A × Built A
  unfolding json_contains
  in_json b c =
      let o = json_contains b c.column c.values in
      if text_beq b.database_type []
      then (c, failed panicked)
      else (record c { original = some o }, original_body o)

  -- What an item with no inner items renders to.
  unfoldable pub own_with : Builder A → Condition A → Option (Original A) → Condition A × Built A
  unfolding in_json listed single
  own_with b c (some o) = (c, original_body o)
  own_with b c none =
      if nat_beq (length c.values) 0
      then (c, single b c)
      else if is_jin c.operator
      then in_json b c
      else (c, listed b c)

  unfoldable pub own : Builder A → Condition A → Condition A × Built A
  unfolding own_with
  own b c = own_with b c (asked c.original)

  -- The end of `Do`: the pieces one after the other, without the operator in front.
  unfoldable pub finished : Pieces A → Built A
  finished (stopped f) = failed f
  finished (pieces wheres args) = built (trim_each logical_operators (concat wheres)) args

  -- The inner items in parentheses.
  unfoldable pub wrapped : Text → Built A → Built A
  wrapped op (failed f) = failed f
  wrapped op (built where_text args) =
      built (b'(' ∷ (trim_each logical_operators (clause op where_text) ++ bytes ")")) args

  abbrev pub add_piece : Text → Text → List A → Pieces A → Pieces A
  add_piece op body args (stopped f) = stopped f
  add_piece op body args (pieces wheres rest) = pieces (clause op body ∷ wheres) (args ++ rest)

  -- An item and what it renders to, before the rest, which a failure leaves alone.
  abbrev pub put :
      Condition A
      → Conditions A
      → Built A
      → Conditions A
      → Conditions A × Pieces A
      → Conditions A × Pieces A
  put c inner (failed f) rest after = (item c inner rest, stopped f)
  put c inner (built body args) rest after =
      (item c inner after.0, add_piece c.logical_operator body args after.1)

  unfoldable pub do_item :
      Builder A
      → Condition A × Option Failure
      → Conditions A
      → Conditions A × Pieces A
      → Conditions A
      → Conditions A × Pieces A
      → Conditions A × Pieces A
  unfolding own wrapped finished
  do_item b (c, some f) inner below rest after = (item c inner rest, stopped f)
  do_item b (c, none) empty below rest after = put (own b c).0 empty (own b c).1 rest after
  do_item b (c, none) (item d inner more) below rest after =
      put c below.0 (wrapped c.logical_operator (finished below.1)) rest after

  -- The loop of `Do`.
  unfoldable pub do_items : Builder A → Conditions A → Conditions A × Pieces A
  unfolding checked do_item
  do_items b empty = (empty, pieces [] [])
  do_items b (item c inner rest) =
      do_item b (checked b (is_empty inner) c) inner (do_items b inner) rest (do_items b rest)

  -- Do
  unfoldable pub build : Builder A → Bool → Conditions A → Conditions A × Built A
  unfolding do_items finished
  build b empty_condition empty =
      (empty, if empty_condition then built [] [] else failed nil_conditions)
  build b empty_condition (item c inner rest) =
      let done = do_items b (item c inner rest) in (done.0, finished done.1)
