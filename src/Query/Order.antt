-- ===== src/Query/Order.antt =====
-- core/pkg/orm/orm.db.order.go: the order of a query; core/pkg/orm/orm.utils.go: the columns that an
-- update writes. An order that the source rewrites in place is part of the result.
use skeyevss_backend_service.Prelude.{
  ℕ, zero, suc, ◌-◌, ◌≡◌, ◌⊎◌, refl, Bool, true, false, not, ◌&&◌, List, [], ◌∷◌, ◌++◌, map,
  replicate, ◌<◌, if◌then◌else◌, length, leb, arith, Bool-cases, inl, inr,
}
use skeyevss_backend_service.Arrays.{contains}
use skeyevss_backend_service.Text.{Text, text_beq, text_comparable, bytes}
use skeyevss_backend_service.Text.Cutset.{join}
use skeyevss_backend_service.XMap.{Outcome, returned, panicked}

-- OrderItem
pub record OrderItem : Type 0 where
  pub column : Text
  pub value : Text

abbrev pub to_upper : Text → Text
to_upper [] = []
to_upper (c ∷ s) = (if leb b'a' c && leb c b'z' then c - 32 else c) ∷ to_upper s

abbrev pub direction : Text → Text
direction value = if text_beq (to_upper value) (bytes "DESC") then bytes "DESC" else bytes "ASC"

-- The loop of `Order`: the pieces, or the first column that the model does not have.
unfoldable pub order_pieces : List Text → List OrderItem → Text ⊎ List Text
order_pieces columns [] = inr []
order_pieces columns (o ∷ orders) =
    let rest = order_pieces columns orders in
    if contains o.column columns
    then (elim rest [
      | inl unknown ↦ inl unknown
      | inr pieces ↦ inr ((o.column ++ (b' ' ∷ direction o.value)) ∷ pieces)
    ])
    else inl o.column

-- Order: an error names the column.
unfoldable pub order : List Text → List OrderItem → Text ⊎ Text
unfolding order_pieces
order columns orders = elim (order_pieces columns orders) [
  | inl unknown ↦ inl unknown
  | inr pieces ↦ inr (join (bytes ", ") pieces)
]

-- The loop of `updateColumns`, from an index of a slice of a length on: a write behind its end panics,
-- and what is not written stays the empty text.
unfoldable pub columns_loop : Text → ℕ → List Text → Outcome (List Text)
columns_loop key left [] = returned (replicate left [])
columns_loop key zero (c ∷ columns) =
    let rest = columns_loop key zero columns in if text_beq c key then rest else panicked
columns_loop key (suc left) (c ∷ columns) =
    let here = columns_loop key left columns in
    let later = columns_loop key (suc left) columns in
    if text_beq c key
    then later
    else (elim here [ returned cs ↦ returned (c ∷ cs) | panicked ↦ panicked ])

-- updateColumns; a slice of the length -1 cannot be made.
unfoldable pub update_columns : Text → List Text → Outcome (List Text)
unfolding columns_loop
update_columns key [] = if text_beq key [] then returned [] else panicked
update_columns key (c ∷ columns) =
    if text_beq key []
    then returned (c ∷ columns)
    else columns_loop key (length columns) (c ∷ columns)

abbrev all_in : List Text → List OrderItem → Bool
all_in columns [] = true
all_in columns (o ∷ orders) = contains o.column columns && all_in columns orders

order_pieces_lem :
    (columns : List Text) (orders : List OrderItem)
    → all_in columns orders ≡ true
    → order_pieces columns orders
      ≡ inr (map (λ (o : OrderItem). o.column ++ (b' ' ∷ direction o.value)) orders)
unfolding order_pieces
order_pieces_lem columns [] known = refl
order_pieces_lem columns (o ∷ orders) known = elim (Bool-cases (contains o.column columns)) [
  | inr unknown ↦ ground (arith, unknown, known)
  | inl here ↦ rw (here, order_pieces_lem columns orders (rw here at known)) refl
]

-- Where the model has the columns of the orders, each is followed by DESC if that is its value, in
-- whichever case, and by ASC otherwise.
pub order_lem :
    (columns : List Text) (orders : List OrderItem)
    → all_in columns orders ≡ true
    → order columns orders
      ≡ inr (
          join
            (bytes ", ")
            (map (λ (o : OrderItem). o.column ++ (b' ' ∷ direction o.value)) orders))
unfolding order
order_lem columns orders known = rw (order, order_pieces_lem columns orders known) refl

abbrev pub lacks_key : Text → List Text → Bool
lacks_key key [] = true
lacks_key key (c ∷ columns) = not (text_beq c key) && lacks_key key columns

columns_loop-panics :
    (key : Text) (left : ℕ) (columns : List Text)
    → lacks_key key columns ≡ true
    → left < length columns
    → columns_loop key left columns ≡ panicked
unfolding columns_loop
columns_loop-panics key left [] lacks short = ground (arith, short)
columns_loop-panics key zero (c ∷ columns) lacks short = elim (Bool-cases (text_beq c key)) [
  | inl same ↦ ground (arith, same, lacks)
  | inr other ↦ rw other refl
]
columns_loop-panics key (suc left) (c ∷ columns) lacks short = elim (Bool-cases (text_beq c key)) [
  | inl same ↦ ground (arith, same, lacks)
  | inr other ↦
      rw (other, columns_loop-panics key left columns (rw other at lacks) (omega (arith, short)))
        refl
]

-- A model whose columns do not hold its primary key has no columns to update: the loop writes behind
-- the end of its slice.
pub update_columns-panics :
    (key : Text) (c : Text) (columns : List Text)
    → text_beq key [] ≡ false
    → lacks_key key (c ∷ columns) ≡ true
    → update_columns key (c ∷ columns) ≡ panicked
unfolding update_columns
update_columns-panics key c columns named lacks =
    rw named (columns_loop-panics key (length columns) (c ∷ columns) lacks (omega arith))
