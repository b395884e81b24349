-- ===== src/Util/Functional/Grouping.antt =====
-- `to_ranges` of src/supa/util/functional.py against the iteration over ranges.

use mathlib.Core.List.{append_assoc}
use su_pa.Base.{ℕ, zero, suc, ◌+◌, ◌-◌, ◌≡◌, refl, ap, List, [], ◌∷◌, ◌++◌, arith}
use su_pa.Util.Functional.{Range, count_up, values, enumerate, group, to_ranges}

-- The values of a list of ranges, in order.
unfoldable pub iter : List Range → List ℕ
iter [] = []
iter (r ∷ rs) = values r ++ iter rs

count_up-snoc : (a n : ℕ) → count_up a (suc n) ≡ count_up a n ++ (a + n) ∷ []
count_up-snoc a zero = ground arith
count_up-snoc a (suc n) = ground (arith, count_up-snoc (suc a) n)

-- The open group holds the values from its first entry to its last.
iter-group :
    (i x j y n : ℕ) (zs : List ℕ)
    → j ≡ i + n
    → y ≡ x + n
    → iter (group (i, x) (j, y) (enumerate (suc j) zs)) ≡ count_up x (suc n) ++ zs
unfolding iter group
iter-group i x j y n [] hj hy = let size : y + 1 - x ≡ suc n = omega arith in rw size
iter-group i x j y n (z ∷ zs) hj hy =
    let size : y + 1 - x ≡ suc n = omega arith in
    ground (
      arith,
      ap (count_up x) size,
      iter-group i x (suc j) z (suc n) zs,
      iter-group (suc j) z (suc j) z 0 zs,
      count_up-snoc x (suc n),
      append_assoc (count_up x (suc n)) (z ∷ []) zs,
    )

-- For any list of values: grouping them into ranges and then reading the ranges out gives the
-- list back.
pub iter-to_ranges : (xs : List ℕ) → iter (to_ranges xs) ≡ xs
unfolding iter to_ranges
iter-to_ranges [] = refl
iter-to_ranges (x ∷ xs) = iter-group 0 x 0 x 0 xs refl (omega arith)
