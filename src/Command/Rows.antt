-- ===== src/Command/Rows.antt =====
-- The rows of the table of STPs that are found for an ID, after a row was changed, deleted or added.
use su_pa.Base.{
  Text, text_eq, text_eq_iff, ◌≡◌, refl, List, [], ◌∷◌, ◌++◌, Option, none, some, if◌then◌else◌,
  arith,
}
use su_pa.Command.{TopologyRow, find_row, change_row, delete_row}

-- No STP ID has two rows.
abbrev pub HasUniqueIds : List TopologyRow → Type 0
HasUniqueIds [] = Unit
HasUniqueIds (t ∷ ts) = (find_row t.stp_id ts ≡ none) × HasUniqueIds ts

abbrev pub over : (TopologyRow → TopologyRow) → Option TopologyRow → Option TopologyRow
over f none = none
over f (some t) = some (f t)

pub find-append :
    (i : Text) (rows : List TopologyRow) (t : TopologyRow)
    → find_row i (rows ++ t ∷ []) ≡ (elim (find_row i rows) [
      | some u ↦ some u
      | none ↦ if text_eq t.stp_id i then some t else none
    ])
unfolding find_row
find-append i [] t = refl
find-append i (u ∷ rows) t = ground (arith, find-append i rows t)

module _ (k i : Text) where
  pub find-change_row :
      (f : TopologyRow → TopologyRow) (keeps : (t : TopologyRow) → (f t).stp_id ≡ t.stp_id)
      (rows : List TopologyRow)
      → find_row i (change_row k f rows)
        ≡ (if text_eq k i then over f (find_row i rows) else find_row i rows)
  unfolding find_row change_row
  find-change_row f keeps [] = ground arith
  find-change_row f keeps (t ∷ ts) = ground (
    arith,
    find-change_row f keeps ts,
    keeps t,
    text_eq_iff t.stp_id k,
    text_eq_iff t.stp_id i,
    text_eq_iff k i,
  )

  pub find-delete_row :
      (rows : List TopologyRow)
      → HasUniqueIds rows
      → find_row i (delete_row k rows) ≡ (if text_eq k i then none else find_row i rows)
  unfolding find_row delete_row
  find-delete_row [] h = ground arith
  find-delete_row (t ∷ ts) h = ground (
    arith,
    find-delete_row ts h.1,
    text_eq_iff t.stp_id k,
    text_eq_iff t.stp_id i,
    text_eq_iff k i,
  )

module _ (k : Text) where
  pub change_row-HasUniqueIds :
      (f : TopologyRow → TopologyRow) (keeps : (t : TopologyRow) → (f t).stp_id ≡ t.stp_id)
      (rows : List TopologyRow)
      → HasUniqueIds rows
      → HasUniqueIds (change_row k f rows)
  unfolding change_row
  change_row-HasUniqueIds f keeps [] h = tt
  change_row-HasUniqueIds f keeps (t ∷ ts) h = ground (
    arith,
    change_row-HasUniqueIds f keeps ts h.1,
    keeps t,
    find-change_row k t.stp_id f keeps ts,
    text_eq_iff t.stp_id k,
    text_eq_iff k t.stp_id,
  )

  pub delete_row-HasUniqueIds :
      (rows : List TopologyRow) → HasUniqueIds rows → HasUniqueIds (delete_row k rows)
  unfolding delete_row
  delete_row-HasUniqueIds [] h = tt
  delete_row-HasUniqueIds (t ∷ ts) h = ground (
    arith,
    delete_row-HasUniqueIds ts h.1,
    find-delete_row k t.stp_id ts h.1,
    text_eq_iff t.stp_id k,
    text_eq_iff k t.stp_id,
  )

pub append-HasUniqueIds :
    (rows : List TopologyRow) (t : TopologyRow)
    → HasUniqueIds rows
    → find_row t.stp_id rows ≡ none
    → HasUniqueIds (rows ++ t ∷ [])
unfolding find_row
append-HasUniqueIds [] t h n = (refl, tt)
append-HasUniqueIds (u ∷ rows) t h n = ground (
  arith,
  append-HasUniqueIds rows t h.1,
  find-append u.stp_id rows t,
  text_eq_iff u.stp_id t.stp_id,
  text_eq_iff t.stp_id u.stp_id,
)
