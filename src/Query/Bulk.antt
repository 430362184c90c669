-- ===== src/Query/Bulk.antt =====
-- core/pkg/orm/orm.db.act.update.go: takeUpdateBulk, one statement that updates many rows.
-- What the source finds out of a value by reflection is a Writer: whether a key is the int 0, whether
-- a value is a string, and the argument that stands for a value, if its type is known.
use skeyevss_backend_service.Prelude.{
  Bool, Option, none, some, List, [], ◌∷◌, ◌++◌, if◌then◌else◌, length, nat_beq,
}
use skeyevss_backend_service.Arrays.{contains}
use skeyevss_backend_service.Text.{Text, text_beq, text_comparable, bytes}
use skeyevss_backend_service.Text.Cutset.{trim, repeat, join}

-- BulkUpdateInner; `is_origin` is the type BulkUpdateTypeOrigin.
pub record Inner (A : Type 0) : Type 0 where
  pub pk : A
  pub val : A
  pub is_origin : Bool

-- BulkUpdateItemDef, with its value as the verb %v prints it; `is_number` is the type 0.
pub record Default : Type 0 where
  pub value : Text
  pub is_number : Bool

-- BulkUpdateItem
pub record Item (A : Type 0) : Type 0 where
  pub column : Text
  pub def : Option Default
  pub records : List (Inner A)

pub record Writer (A : Type 0) : Type 0 where
  pub table_name : Text
  pub is_int_0 : A → Bool
  pub string_of : A → Option Text
  pub argument_of : A → Option A

pub data Failure : Type 0 where
  no_primary_key : Failure
  no_columns : Failure
  no_records : Failure
  unknown_type : Text → Failure
  illegal_column : Text → Failure

-- The cases, the keys of the rows, and the arguments of the cases, or a failure.
pub data Cases (A : Type 0) : Type 0 where
  wrong : Failure → Cases A
  cases : List Text → List A → List A → Cases A

pub data Statement (A : Type 0) : Type 0 where
  rejected : Failure → Statement A
  statement : Text → List A → Statement A

abbrev pub else_of : Option Default → Text
else_of none = bytes " ELSE '' END"
else_of (some d) =
    if d.is_number
    then bytes " ELSE " ++ (d.value ++ bytes " END")
    else bytes " ELSE '" ++ (d.value ++ bytes "' END")

abbrev pub set_of : Text → Text → Option Default → List Text → Text
set_of key column def whens =
    b'`'
    ∷ (column
        ++ (bytes "` = CASE `" ++ (key ++ (bytes "` " ++ (join (bytes " ") whens ++ else_of def)))))

module _ {A : Type 0} where
  abbrev add_case : Text → A → List A → Cases A → Cases A
  add_case when pk args (wrong f) = wrong f
  add_case when pk args (cases whens keys more) =
      cases (when ∷ whens) (pk ∷ keys) (pk ∷ args ++ more)

  abbrev pub text_of_origin : Writer A → Inner A → Option Text
  text_of_origin w r = if r.is_origin then w.string_of r.val else none

  abbrev pub case_of : Text → Inner A → Option Text → Option A → Cases A → Cases A
  case_of column r (some v) o rest = add_case (bytes "WHEN ? then " ++ v) r.pk [] rest
  case_of column r none (some a) rest = add_case (bytes "WHEN ? then ?") r.pk (a ∷ []) rest
  case_of column r none none rest = wrong (unknown_type column)

  -- The loop over the records of a column; a key that is the int 0 is passed over.
  unfoldable pub cases_of : Writer A → Text → List (Inner A) → Cases A
  cases_of w column [] = cases [] [] []
  cases_of w column (r ∷ records) =
      let rest = cases_of w column records in
      if w.is_int_0 r.pk
      then rest
      else case_of column r (text_of_origin w r) (w.argument_of r.val) rest

  abbrev pub add_set : Text → List Text → Item A → Cases A → Cases A → Cases A
  add_set key allowed i (wrong f) rest = wrong f
  add_set key allowed i (cases whens keys args) (wrong f) =
      if contains i.column allowed then wrong f else wrong (illegal_column i.column)
  add_set key allowed i (cases whens keys args) (cases sets more_keys more_args) =
      if contains i.column allowed
      then cases (set_of key i.column i.def whens ∷ sets) (keys ++ more_keys) (args ++ more_args)
      else wrong (illegal_column i.column)

  -- The loop over the columns.
  unfoldable pub sets_of : Writer A → Text → List Text → List (Item A) → Cases A
  unfolding cases_of
  sets_of w key allowed [] = cases [] [] []
  sets_of w key allowed (i ∷ items) =
      add_set key allowed i (cases_of w i.column i.records) (sets_of w key allowed items)

  abbrev pub statement_of : Writer A → Text → Cases A → Statement A
  statement_of w key (wrong f) = rejected f
  statement_of w key (cases sets keys args) =
      statement
        (bytes "UPDATE `"
          ++ (w.table_name
              ++ (bytes "` SET "
                  ++ (join (bytes ", ") sets
                      ++ (bytes " where `"
                          ++ (key
                              ++ (bytes "` in("
                                  ++ (trim (bytes ", ") (repeat (bytes "?, ") (length keys))
                                      ++ bytes ")"))))))))
        (args ++ keys)

  -- takeUpdateBulk
  unfoldable pub take_update_bulk : Writer A → Text → List Text → List (Item A) → Statement A
  unfolding sets_of
  take_update_bulk w primary_key allowed items =
      let key = trim (bytes "`") primary_key in
      if text_beq key []
      then rejected no_primary_key
      else if nat_beq (length allowed) 0
      then rejected no_columns
      else if nat_beq (length items) 0
      then rejected no_records
      else statement_of w key (sets_of w key allowed items)
